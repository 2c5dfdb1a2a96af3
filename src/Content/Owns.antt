-- ===== src/Content/Owns.antt =====
-- The blocks of a file while `fs_write` changes it: which are the file's, and what bytes they hold.
use unix_like_file_system.Base.{
  ℕ, ◌-◌, ◌*◌, ◌/◌, ◌≤◌, ◌<◌, ◌≡◌, ◌≢◌, sym, ap, ◌∙◌, ◌⊎◌, inl, inr, true, false, ltb, leb, ◌&&◌,
  if◌then◌else◌, arith, Bool-cases,
}
use mathlib.Core.Bool.{false≢true}
use unix_like_file_system.Block.{Block, block_size, byte}
use unix_like_file_system.Disk.{Disk}
use unix_like_file_system.Bitmap.{map_bits}
use unix_like_file_system.Bitmap.Alloc.{in_use}
use unix_like_file_system.Inode.{size, ptr, rounds_up}
use unix_like_file_system.Content.{Buffer}
use unix_like_file_system.Content.Read.{file_byte}

-- The first `held` pointers of an inode in block `n`: blocks in use behind the map, all different.
pub record Owns (d : Disk) (n : ℕ) (inode : Block) (held : ℕ) : Type 0 where
  pub range : (b : ℕ) → b < held → (1 < ptr inode b) × (ptr inode b < map_bits)
  pub used : (b : ℕ) → b < held → in_use d (ptr inode b) ≡ true
  pub apart : (b : ℕ) → b < held → ptr inode b ≢ n
  pub distinct : (b c : ℕ) → b < held → c < held → ptr inode b ≡ ptr inode c → b ≡ c

-- A byte of the file, or of what has been written of it up to `upto`.
abbrev pub IsCovered : ℕ → ℕ → ℕ → Type 0
IsCovered bytes upto o = (o < bytes) ⊎ (o < upto)

-- The byte at `o` when the bytes from `offset` up to `upto` have been taken from `buf`.
abbrev pub expected : Disk → Block → Buffer → ℕ → ℕ → ℕ → ℕ
expected d inode buf offset upto o =
    if leb offset o && ltb o upto then byte buf (o - offset) else file_byte d inode o

-- The image `e` with the inode `node` on the way from `d` with `inode`.
pub record Written (d : Disk) (n : ℕ) (inode : Block) (buf : Buffer) (offset upto held : ℕ)
    (e : Disk) (node : Block) : Type 0 where
  pub owns : Owns e n node held
  pub bound : (size inode ≤ held * block_size) × (upto ≤ held * block_size)
  pub inside : (o : ℕ) → IsCovered (size inode) upto o → ptr node (o / block_size) < e.blocks
  pub content :
      (o : ℕ)
      → IsCovered (size inode) upto o
      → file_byte e node o ≡ expected d inode buf offset upto o
  pub same_ptrs : (b : ℕ) → b < rounds_up (size inode) → ptr node b ≡ ptr inode b
  pub fresh : (b : ℕ) → rounds_up (size inode) ≤ b → b < held → in_use d (ptr node b) ≡ false
  pub inode_used : in_use e n ≡ true
  pub same_fields : (i : ℕ) → i < 20 → node i ≡ inode i
  pub no_smaller : d.blocks ≤ e.blocks
  pub still_used : (l : ℕ) → in_use d l ≡ true → in_use e l ≡ true
  pub same_files :
      (l : ℕ)
      → l ≢ 1
      → in_use d l ≡ true
      → ((b : ℕ) → b < held → ptr node b ≢ l)
      → l < d.blocks
      → e.block l ≡ d.block l

module _ {d : Disk} {n : ℕ} {inode : Block} {buf : Buffer} {offset upto held : ℕ} {e : Disk}
    {node : Block} (w : Written d n inode buf offset upto held e node) where
  -- A block that was in use and not the file's is not one of the file's now.
  pub other_block :
      (l : ℕ)
      → in_use d l ≡ true
      → ((b : ℕ) → b < rounds_up (size inode) → ptr inode b ≢ l)
      → (b : ℕ) → b < held
      → ptr node b ≢ l
  other_block l used apart b lt p = elim (Bool-cases (ltb b (rounds_up (size inode)))) [
    | inl old ↦
        let old' : b < rounds_up (size inode) = ground arith in
        apart b old' (sym (w.same_ptrs b old') ∙ p)
    | inr new ↦ false≢true (sym (w.fresh b (ground arith) lt) ∙ ap (in_use d) p ∙ used)
  ]

-- The image in which the call stopped: of the blocks that were in use, only the map and the file's
-- blocks have changed.
pub record Unsaved (d g : Disk) (inode : Block) : Type 0 where
  pub not_smaller : d.blocks ≤ g.blocks
  pub still_used : (l : ℕ) → in_use d l ≡ true → in_use g l ≡ true
  pub same_files :
      (l : ℕ)
      → l ≢ 1
      → in_use d l ≡ true
      → ((b : ℕ) → b < rounds_up (size inode) → ptr inode b ≢ l)
      → l < d.blocks
      → g.block l ≡ d.block l

pub Written-Unsaved :
    {d : Disk} {n : ℕ} {inode : Block} {buf : Buffer} {offset upto held : ℕ} {e : Disk}
    {node : Block}
    → Written d n inode buf offset upto held e node
    → Unsaved d e inode
Written-Unsaved w = record {
  not_smaller = w.no_smaller;
  still_used = w.still_used;
  same_files = λ l ne used apart lt. w.same_files l ne used (other_block w l used apart) lt;
}
