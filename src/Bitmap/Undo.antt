-- ===== src/Bitmap/Undo.antt =====
-- `alloc_blk` and `free_blk` one after the other.
use unix_like_file_system.Base.{
  ℕ, ◌-◌, ◌≤◌, ◌<◌, ◌≡◌, refl, sym, ◌∙◌, inl, inr, false, Option, none, some, leb, ltb, lt→ltb,
  arith, ==-refl, ltb→lt, Bool-cases,
}
use mathlib.Core.Path.{subst}
use mathlib.Core.Bool.{false≢true}
use unix_like_file_system.Block.{Block, byte}
use unix_like_file_system.Disk.{
  Disk, Outcome, done, failed, aborted, fault, enospc, write_at, block_read, block_write,
  read_unchecked,
}
use unix_like_file_system.Bitmap.{map_bits, bit_set, first_free, take_block, alloc_blk, free_blk}
use unix_like_file_system.Bitmap.Bits.{bit_clear-bit_set}
use unix_like_file_system.Bitmap.Alloc.{
  in_use, IsFirst, first_free-IsFirst, Allocates, alloc_blk-Allocates, Frees, free_blk-Frees,
}

-- The image with the bytes of every block within `d.blocks` as in `d`.
pub record SameBytes (d g : Disk) : Type 0 where
  pub same_length : g.blocks ≡ d.blocks
  pub same_bytes : (l o : ℕ) → l < d.blocks → byte (g.block l) o ≡ byte (d.block l) o

abbrev Undone : Disk → Outcome (Unit {0}) → Type 0
Undone d (done _ g) = SameBytes d g
Undone d _ = ⊥

take_block-some :
    (map : Block) (i : ℕ) (d : Disk)
    → take_block map (some i) d ≡ done i (write_at 1 (bit_set map i) d)
unfolding take_block block_write
take_block-some map i d = refl

free_after_take :
    (i : ℕ) (d : Disk)
    → 1 < d.blocks
    → i < map_bits
    → in_use d i ≡ false
    → Undone d (free_blk i (write_at 1 (bit_set (d.block 1) i) d))
unfolding free_blk block_read block_write read_unchecked
free_after_take i d h lt clear =
    let fits : leb map_bits i ≡ false = ground arith in
    rw (lt→ltb 1 d.blocks h, lt→ltb 1 d.blocks h, fits)
      (record {
        same_length = ground arith;
        same_bytes = λ l o below. ground (arith, bit_clear-bit_set (d.block 1) i o clear);
      })

alloc_blk-eq :
    (d : Disk)
    → 1 < d.blocks
    → alloc_blk d ≡ take_block (d.block 1) (first_free (map_bits - 3) 3 (d.block 1)) d
unfolding alloc_blk block_read read_unchecked take_block
alloc_blk-eq d h = rw (lt→ltb 1 d.blocks h)

abbrev UndoneBy : Disk → Outcome ℕ → Type 0
UndoneBy d (done i g) = Undone d (free_blk i g)
UndoneBy d _ = Unit

take_block-UndoneBy :
    (d : Disk) (r : Option ℕ)
    → 1 < d.blocks
    → IsFirst 3 map_bits (d.block 1) r
    → UndoneBy d (take_block (d.block 1) r d)
take_block-UndoneBy d none h full = unfold take_block in tt
take_block-UndoneBy d (some i) h (p, q, clear, least) =
    rw (take_block-some (d.block 1) i d) (free_after_take i d h q clear)

-- When block 1 can be read, freeing the block that `alloc_blk` has just returned gives back every byte of the image.
free_blk-alloc_blk :
    (d : Disk) {i : ℕ} {g : Disk} → 1 < d.blocks → alloc_blk d ≡ done i g → Undone d (free_blk i g)
free_blk-alloc_blk d h e =
    subst (UndoneBy d) (sym (alloc_blk-eq d h) ∙ e)
      (take_block-UndoneBy d _ h (first_free-IsFirst (map_bits - 3) 3 map_bits (d.block 1) refl))

-- The allocation succeeded, with a block not above `i`.
abbrev pub Succeeds : ℕ → Outcome ℕ → Type 0
Succeeds i (done j g) = j ≤ i
Succeeds i _ = ⊥

Allocates-Succeeds :
    (d : Disk) (i : ℕ) (r : Outcome ℕ)
    → 3 ≤ i
    → i < map_bits
    → in_use d i ≡ false
    → Allocates d r
    → Succeeds i r
Allocates-Succeeds d i (done j g) lo hi clear (p, q, free, least, bits, files) =
    elim (Bool-cases (ltb i j)) [
      | inl below ↦ absurd (false≢true (sym clear ∙ least i lo (ltb→lt i j below)))
      | inr above ↦ ground arith
    ]
Allocates-Succeeds d i (failed enospc g) lo hi clear (same, full) =
    absurd (false≢true (sym clear ∙ full i lo hi))
Allocates-Succeeds d i (failed other g) lo hi clear h = absurd h
Allocates-Succeeds d i (aborted g) lo hi clear h = absurd h
Allocates-Succeeds d i fault lo hi clear h = absurd h

Frees-blocks :
    (i : ℕ) (d g : Disk) → Frees i d (done tt g) → (g.blocks ≡ d.blocks) × (in_use g i ≡ false)
Frees-blocks i d g (bits, files) = (files.same_blocks, bits i ∙ rw (==-refl i))

-- When block 1 can be read and block `i`, from 3 to 32767, is freed, the next allocation succeeds, with a block not above `i`.
pub alloc_blk-free_blk :
    (i : ℕ) (d : Disk) {g : Disk}
    → 1 < d.blocks
    → 3 ≤ i
    → i < map_bits
    → free_blk i d ≡ done tt g
    → Succeeds i (alloc_blk g)
alloc_blk-free_blk i d {g} h lo hi e =
    let freed : Frees i d (done tt g) = subst (Frees i d) e (free_blk-Frees i d h hi) in
    let (same, clear) = Frees-blocks i d g freed in
    Allocates-Succeeds g i (alloc_blk g) lo hi clear (alloc_blk-Allocates g (omega arith))
