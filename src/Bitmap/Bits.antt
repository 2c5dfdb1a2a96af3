-- ===== src/Bitmap/Bits.antt =====
-- A byte's bits at every value, and the laws of `bit_set` and `bit_clear` for a whole map.
use unix_like_file_system.Base.{
  ℕ, ◌-◌, ◌/◌, ◌%◌, ◌^◌, ◌<◌, bit_and, bit_or, ◌≡◌, refl, inl, inr, Bool, true, false, not, ◌&&◌,
  ◌||◌, ◌==◌, arith, Bool-cases, ==→eq, ==-refl,
}
use unix_like_file_system.Base.Bits.{holds_below, holds_below_lem}
use unix_like_file_system.Block.{Block, byte, set_byte}
use unix_like_file_system.Bitmap.{bit_set, bit_clear, bit_test}

abbrev same : Bool → Bool → Bool
same true b = b
same false b = not b

same→eq : (a b : Bool) → same a b ≡ true → a ≡ b
same→eq a b h = ground arith

-- bit `k` of a byte
abbrev has_bit : ℕ → ℕ → Bool
has_bit x k = not (bit_and x (2 ^ k) == 0)

abbrev sets_bit : ℕ → ℕ → ℕ → Bool
sets_bit k j x = same (has_bit (bit_or x (2 ^ k) % 2 ^ 8) j) ((k == j) || has_bit x j)

abbrev clears_bit : ℕ → ℕ → ℕ → Bool
clears_bit k j x = same (has_bit (bit_and x (255 - 2 ^ k) % 2 ^ 8) j) (not (k == j) && has_bit x j)

abbrev restores_bit : ℕ → ℕ → Bool
restores_bit k x = has_bit x k || (bit_and (bit_or x (2 ^ k) % 2 ^ 8) (255 - 2 ^ k) % 2 ^ 8 == x)

set_table : holds_below 8 (λ k. holds_below 8 (λ j. holds_below 256 (sets_bit k j))) ≡ true
unfolding holds_below
set_table = refl

clear_table : holds_below 8 (λ k. holds_below 8 (λ j. holds_below 256 (clears_bit k j))) ≡ true
unfolding holds_below
clear_table = refl

restore_table : holds_below 8 (λ k. holds_below 256 (restores_bit k)) ≡ true
unfolding holds_below
restore_table = refl

module _ (k j x : ℕ) (hk : k < 8) (hj : j < 8) (hx : x < 256) where
  has_bit-set : has_bit (bit_or x (2 ^ k) % 2 ^ 8) j ≡ ((k == j) || has_bit x j)
  has_bit-set = same→eq _ _ (
      holds_below_lem 256 (sets_bit k j) x
        (holds_below_lem 8 (λ i. holds_below 256 (sets_bit k i)) j
          (holds_below_lem 8 _ k set_table hk) hj)
        hx)

  has_bit-clear : has_bit (bit_and x (255 - 2 ^ k) % 2 ^ 8) j ≡ (not (k == j) && has_bit x j)
  has_bit-clear = same→eq _ _ (
      holds_below_lem 256 (clears_bit k j) x
        (holds_below_lem 8 (λ i. holds_below 256 (clears_bit k i)) j
          (holds_below_lem 8 _ k clear_table hk) hj)
        hx)

mod_idem : (v : ℕ) → v % 2 ^ 8 % 2 ^ 8 ≡ v % 2 ^ 8
mod_idem v = omega arith

or_of_false : (a b : Bool) → a ≡ false → (a || b) ≡ true → b ≡ true
or_of_false a b h e = ground arith

byte_restored :
    (k x : ℕ)
    → k < 8
    → x < 256
    → has_bit x k ≡ false
    → bit_and (bit_or x (2 ^ k) % 2 ^ 8) (255 - 2 ^ k) % 2 ^ 8 ≡ x
byte_restored k x hk hx clear = ==→eq _ _ (
    or_of_false _ _ clear
      (holds_below_lem 256 (restores_bit k) x (holds_below_lem 8 _ k restore_table hk) hx))

same_bit : (i j : ℕ) → j / 8 ≡ i / 8 → (i % 8 == j % 8) ≡ (i == j)
same_bit i j e = ground arith

other_bit : (i j : ℕ) → (j / 8 == i / 8) ≡ false → (i == j) ≡ false
other_bit i j e = ground arith

-- Setting bit `i` of a map makes that bit true and leaves every other as it was.
pub bit_test-bit_set :
    (map : Block) (i j : ℕ) → bit_test (bit_set map i) j ≡ ((i == j) || bit_test map j)
unfolding bit_test bit_set set_byte
bit_test-bit_set map i j = elim (Bool-cases (j / 8 == i / 8)) [
  | inl e ↦
      rw (e, mod_idem, ==→eq _ _ e, ← same_bit i j (==→eq _ _ e))
        (has_bit-set (i % 8) (j % 8) (byte map (i / 8)) (omega arith) (omega arith) (omega arith))
  | inr ne ↦ rw (ne, other_bit i j ne)
]

-- Clearing bit `i` of a map makes that bit false and leaves every other as it was.
pub bit_test-bit_clear :
    (map : Block) (i j : ℕ) → bit_test (bit_clear map i) j ≡ (not (i == j) && bit_test map j)
unfolding bit_test bit_clear set_byte
bit_test-bit_clear map i j = elim (Bool-cases (j / 8 == i / 8)) [
  | inl e ↦
      rw (e, mod_idem, ==→eq _ _ e, ← same_bit i j (==→eq _ _ e))
        (has_bit-clear (i % 8) (j % 8) (byte map (i / 8)) (omega arith) (omega arith) (omega arith))
  | inr ne ↦ rw (ne, other_bit i j ne)
]

-- Clearing a bit that was clear and has just been set gives every byte of the map back.
pub bit_clear-bit_set :
    (map : Block) (i o : ℕ)
    → bit_test map i ≡ false
    → byte (bit_clear (bit_set map i) i) o ≡ byte map o
unfolding bit_test bit_clear bit_set set_byte
bit_clear-bit_set map i o clear = elim (Bool-cases (o == i / 8)) [
  | inl e ↦
      rw (e, ==-refl (i / 8), mod_idem, mod_idem, ==→eq _ _ e)
        (byte_restored (i % 8) (byte map (i / 8)) (omega arith) (omega arith) clear)
  | inr ne ↦ rw ne
]
