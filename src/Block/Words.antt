-- ===== src/Block/Words.antt =====
-- Reading back what was stored, at the same place and at others.
use unix_like_file_system.Base.{ℕ, ◌+◌, ◌%◌, ◌^◌, ◌≤◌, ◌<◌, ◌≡◌, ◌⊎◌, arith}
use unix_like_file_system.Block.{Block, get_u16, get_u32, set_u16, set_u32}

pub get_u32-lt : (b : Block) (o : ℕ) → get_u32 b o < 2 ^ 32
unfolding get_u32
get_u32-lt b o = omega arith

get_u16-lt : (b : Block) (o : ℕ) → get_u16 b o < 2 ^ 16
unfolding get_u16
get_u16-lt b o = omega arith

pub get_u32-set_u32 : (b : Block) (o v : ℕ) → get_u32 (set_u32 b o v) o ≡ v % 2 ^ 32
unfolding get_u32 set_u32
get_u32-set_u32 b o v = ground arith

get_u16-set_u16 : (b : Block) (o v : ℕ) → get_u16 (set_u16 b o v) o ≡ v % 2 ^ 16
unfolding get_u16 set_u16
get_u16-set_u16 b o v = ground arith

pub set_u32-outside : (b : Block) (o v i : ℕ) → (i < o) ⊎ (o + 4 ≤ i) → set_u32 b o v i ≡ b i
unfolding set_u32
set_u32-outside b o v i apart = ground arith

set_u16-outside : (b : Block) (o v i : ℕ) → (i < o) ⊎ (o + 2 ≤ i) → set_u16 b o v i ≡ b i
unfolding set_u16
set_u16-outside b o v i apart = ground arith

pub get_u32_cong :
    (b c : Block) (o : ℕ)
    → b o ≡ c o
    → b (o + 1) ≡ c (o + 1)
    → b (o + 2) ≡ c (o + 2)
    → b (o + 3) ≡ c (o + 3)
    → get_u32 b o ≡ get_u32 c o
unfolding get_u32
get_u32_cong b c o p q r s = ground arith

pub get_u32-set_u32_ne :
    (b : Block) (o p v : ℕ) → (p + 4 ≤ o) ⊎ (o + 4 ≤ p) → get_u32 (set_u32 b o v) p ≡ get_u32 b p
get_u32-set_u32_ne b o p v apart =
    get_u32_cong (set_u32 b o v) b p (set_u32-outside b o v p (omega arith))
      (set_u32-outside b o v (p + 1) (omega arith)) (set_u32-outside b o v (p + 2) (omega arith))
      (set_u32-outside b o v (p + 3) (omega arith))

get_u32-set_u16_ne :
    (b : Block) (o p v : ℕ) → (p + 4 ≤ o) ⊎ (o + 2 ≤ p) → get_u32 (set_u16 b o v) p ≡ get_u32 b p
get_u32-set_u16_ne b o p v apart =
    get_u32_cong (set_u16 b o v) b p (set_u16-outside b o v p (omega arith))
      (set_u16-outside b o v (p + 1) (omega arith)) (set_u16-outside b o v (p + 2) (omega arith))
      (set_u16-outside b o v (p + 3) (omega arith))
