-- ===== src/Inode/Pointers.antt =====
-- Setting one pointer of an inode.
use unix_like_file_system.Base.{ℕ, ◌+◌, ◌*◌, ◌^◌, ◌<◌, ◌≡◌, ◌≢◌, ◌∙◌, arith}
use unix_like_file_system.Block.{Block}
use unix_like_file_system.Block.Words.{get_u32-set_u32, get_u32-set_u32_ne}
use unix_like_file_system.Inode.{ptr, set_ptr}

pub ptr-set_ptr : (b : Block) (h i : ℕ) → i < 2 ^ 32 → ptr (set_ptr b h i) h ≡ i
ptr-set_ptr b h i small = get_u32-set_u32 b (20 + 4 * h) i ∙ omega arith

pub ptr-set_ptr_ne : (b : Block) (h i k : ℕ) → k ≢ h → ptr (set_ptr b h i) k ≡ ptr b k
ptr-set_ptr_ne b h i k ne = get_u32-set_u32_ne b (20 + 4 * h) (20 + 4 * k) i (omega arith)
