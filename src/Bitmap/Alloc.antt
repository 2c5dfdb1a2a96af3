-- ===== src/Bitmap/Alloc.antt =====
-- `alloc_blk` and `free_blk` as operations on the set of blocks in use.
use unix_like_file_system.Base.{
  ℕ, zero, suc, ◌+◌, ◌-◌, ◌≤◌, ◌<◌, ◌≡◌, ◌≢◌, refl, sym, ap, ◌∙◌, inl, inr, Bool, true, false, not,
  ◌&&◌, ◌||◌, Option, none, some, ◌==◌, leb, lt→ltb, arith, Bool-cases,
}
use mathlib.Core.Bool.{false≢true}
use unix_like_file_system.Block.{Block}
use unix_like_file_system.Disk.{
  Disk, Outcome, done, failed, aborted, fault, enospc, block_read, block_write, read_unchecked,
}
use unix_like_file_system.Disk.Reads.{Holds}
use unix_like_file_system.Bitmap.{map_bits, bit_test, first_free, take_block, alloc_blk, free_blk}
use unix_like_file_system.Bitmap.Bits.{bit_test-bit_set, bit_test-bit_clear}

-- Whether the image's map marks a block as used.
abbrev pub in_use : Disk → ℕ → Bool
in_use d i = bit_test (d.block 1) i

-- `g` is `d` but for its map.
pub record SameFiles (d g : Disk) : Type 0 where
  pub same_blocks : g.blocks ≡ d.blocks
  pub same_block : (l : ℕ) → l ≢ 1 → l < d.blocks → g.block l ≡ d.block l

pub Holds-SameFiles :
    {d g : Disk} {l : ℕ} {b : Block} → SameFiles d g → Holds d l b → l ≢ 1 → Holds g l b
Holds-SameFiles {d} {g} {l} files h ne = record {
  inside = rw files.same_blocks h.inside;
  reachable = h.reachable;
  content = files.same_block l ne h.inside ∙ h.content;
}

-- `first_free` stops at the first clear bit of its range.
abbrev pub IsFirst : ℕ → ℕ → Block → Option ℕ → Type 0
IsFirst lo hi map none = (j : ℕ) → lo ≤ j → j < hi → bit_test map j ≡ true
IsFirst lo hi map (some i) =
    (lo ≤ i)
    × (i < hi)
    × (bit_test map i ≡ false)
    × ((j : ℕ) → lo ≤ j → j < i → bit_test map j ≡ true)

IsFirst-cons :
    (lo hi : ℕ) (map : Block) (r : Option ℕ)
    → bit_test map lo ≡ true
    → lo < hi
    → IsFirst (lo + 1) hi map r
    → IsFirst lo hi map r
IsFirst-cons lo hi map none used lt rest =
    λ j p q. elim (Bool-cases (j == lo)) [ inl e ↦ ground arith | inr e ↦ rest j (ground arith) q ]
IsFirst-cons lo hi map (some i) used lt (p, q, clear, rest) = (
  omega arith,
  q,
  clear,
  λ j below above. elim (Bool-cases (j == lo)) [
    | inl e ↦ ground arith
    | inr e ↦ rest j (ground arith) above
  ],
)

first_free-used :
    (rounds i : ℕ) (map : Block)
    → bit_test map i ≡ true
    → first_free (suc rounds) i map ≡ first_free rounds (i + 1) map
unfolding first_free
first_free-used rounds i map used = rw (used, first_free)

first_free-clear :
    (rounds i : ℕ) (map : Block) → bit_test map i ≡ false → first_free (suc rounds) i map ≡ some i
unfolding first_free
first_free-clear rounds i map clear = rw (clear, first_free)

pub first_free-IsFirst :
    (rounds lo hi : ℕ) (map : Block)
    → lo + rounds ≡ hi
    → IsFirst lo hi map (first_free rounds lo map)
first_free-IsFirst zero lo hi map e = unfold first_free in (λ j p q. absurd (omega arith))
first_free-IsFirst (suc rounds) lo hi map e = elim (Bool-cases (bit_test map lo)) [
  | inl used ↦ rw (first_free-used rounds lo map used) (
      IsFirst-cons lo hi map _ used (omega arith)
        (first_free-IsFirst rounds (lo + 1) hi map (omega arith)))
  | inr clear ↦
      rw (first_free-clear rounds lo map clear)
        (omega arith, omega arith, clear, λ j p q. absurd (omega arith))
]

-- What a call of `alloc_blk` may do.
abbrev pub Allocates : Disk → Outcome ℕ → Type 0
Allocates d (done i g) =
    (3 ≤ i)
    × (i < map_bits)
    × (in_use d i ≡ false)
    × ((j : ℕ) → 3 ≤ j → j < i → in_use d j ≡ true)
    × ((j : ℕ) → in_use g j ≡ ((i == j) || in_use d j))
    × SameFiles d g
Allocates d (failed enospc g) = (g ≡ d) × ((j : ℕ) → 3 ≤ j → j < map_bits → in_use d j ≡ true)
Allocates d _ = ⊥

take_block-Allocates :
    (d : Disk) (r : Option ℕ)
    → 1 < d.blocks
    → IsFirst 3 map_bits (d.block 1) r
    → Allocates d (take_block (d.block 1) r d)
unfolding take_block block_write
take_block-Allocates d none h full = (refl, full)
take_block-Allocates d (some i) h (p, q, clear, least) = (
  p,
  q,
  clear,
  least,
  bit_test-bit_set (d.block 1) i,
  record { same_blocks = ground arith; same_block = λ l ne lt. ground arith },
)

-- When block 1 can be read, `alloc_blk` either returns the lowest free block from 3 on, marks
-- exactly that block as used and changes nothing else, or it returns -ENOSPC with the image as it
-- was, and then every block from 3 to 32767 is in use.
pub alloc_blk-Allocates : (d : Disk) → 1 < d.blocks → Allocates d (alloc_blk d)
unfolding alloc_blk block_read read_unchecked
alloc_blk-Allocates d h =
    rw (lt→ltb 1 d.blocks h)
      (take_block-Allocates d _ h (first_free-IsFirst (map_bits - 3) 3 map_bits (d.block 1) refl))

-- What a call of `free_blk` for block `i` does.
abbrev pub Frees : ℕ → Disk → Outcome (Unit {0}) → Type 0
Frees i d (done _ g) = ((j : ℕ) → in_use g j ≡ (not (i == j) && in_use d j)) × SameFiles d g
Frees i d _ = ⊥

-- When block 1 can be read and the map has a bit for `i`, `free_blk` marks exactly that block as
-- free and changes nothing else.
pub free_blk-Frees : (i : ℕ) (d : Disk) → 1 < d.blocks → i < map_bits → Frees i d (free_blk i d)
unfolding free_blk block_read block_write read_unchecked
free_blk-Frees i d h lt =
    let fits : leb map_bits i ≡ false = ground arith in
    rw (lt→ltb 1 d.blocks h, fits)
      (
        bit_test-bit_clear (d.block 1) i,
        record { same_blocks = ground arith; same_block = λ l ne below. ground arith },
      )

-- No block is left to allocate.
abbrev pub AllUsed : Disk → Type 0
AllUsed d = (j : ℕ) → 3 ≤ j → j < map_bits → in_use d j ≡ true

Allocates-full : (d : Disk) (r : Outcome ℕ) → AllUsed d → Allocates d r → r ≡ failed enospc d
Allocates-full d (done i g) full (p, q, clear, rest, bits, files) =
    absurd (false≢true (sym clear ∙ full i p q))
Allocates-full d (failed enospc g) full (same, all) = ap (λ g'. failed enospc g') same
Allocates-full d (failed other g) full h = absurd h
Allocates-full d (aborted g) full h = absurd h
Allocates-full d fault full h = absurd h

pub alloc_blk-full : (d : Disk) → 1 < d.blocks → AllUsed d → alloc_blk d ≡ failed enospc d
alloc_blk-full d h full = Allocates-full d (alloc_blk d) full (alloc_blk-Allocates d h)
