-- ===== src/Attr/Count.antt =====
-- `fs_statfs`: the number of free blocks, and how allocation changes it.
use unix_like_file_system.Base.{
  ℕ, zero, suc, ◌+◌, ◌-◌, ◌%◌, ◌^◌, ◌≤◌, ◌<◌, ◌≡◌, refl, ap, ◌∙◌, Bool, true, false, inl, inr, ◌||◌,
  ◌==◌, arith, if◌then◌else◌, Bool-cases,
}
use unix_like_file_system.Block.{Block, block_size, get_u32}
use unix_like_file_system.Block.Words.{get_u32-lt}
use unix_like_file_system.Disk.{Disk, Outcome, done, failed, aborted, fault, enospc}
use unix_like_file_system.Disk.Reads.{Holds, block_read-Holds}
use unix_like_file_system.Bitmap.{map_bits, bit_test, alloc_blk}
use unix_like_file_system.Bitmap.Alloc.{in_use, Allocates, alloc_blk-Allocates}
use unix_like_file_system.Attr.{StatVfs, count_used, fs_statfs}

-- The number of blocks from `i` on that are in use.
unfoldable pub used_from : ℕ → ℕ → (ℕ → Bool) → ℕ
used_from zero i used = 0
used_from (suc rounds) i used = (if used i then 1 else 0) + used_from rounds (i + 1) used

count_used-used_from :
    (rounds i acc : ℕ) (map : Block)
    → acc + rounds < 2 ^ 32
    → count_used rounds i map acc ≡ acc + used_from rounds i (bit_test map)
unfolding count_used used_from
count_used-used_from zero i acc map h = omega arith
count_used-used_from (suc rounds) i acc map h = elim (Bool-cases (bit_test map i)) [
  | inl e ↦
      rw e
        (count_used-used_from rounds (i + 1) ((acc + 1) % 2 ^ 32) map (omega arith) ∙ omega arith)
  | inr e ↦ rw e (count_used-used_from rounds (i + 1) acc map (omega arith) ∙ omega arith)
]

used_from-le : (rounds i : ℕ) (used : ℕ → Bool) → used_from rounds i used ≤ rounds
unfolding used_from
used_from-le zero i used = omega arith
used_from-le (suc rounds) i used = ground (arith, used_from-le rounds (i + 1) used)

-- One more block in use counts one more, if it lies in the range.
used_from-same :
    (rounds i : ℕ) (f g : ℕ → Bool)
    → ((j : ℕ) → i ≤ j → f j ≡ g j)
    → used_from rounds i f ≡ used_from rounds i g
unfolding used_from
used_from-same zero i f g h = refl
used_from-same (suc rounds) i f g h =
    rw (h i (omega arith))
      (omega (arith, used_from-same rounds (i + 1) f g (λ j p. h j (omega arith))))

used_from-add :
    (rounds i k : ℕ) (f g : ℕ → Bool)
    → i ≤ k
    → k < i + rounds
    → f k ≡ false
    → ((j : ℕ) → g j ≡ ((k == j) || f j))
    → used_from rounds i g ≡ used_from rounds i f + 1
unfolding used_from
used_from-add zero i k f g lo hi clear h = absurd (omega arith)
used_from-add (suc rounds) i k f g lo hi clear h = elim (Bool-cases (k == i)) [
  | inl e ↦
      let here : g i ≡ true = ground (arith, h i) in
      let before : f i ≡ false = ground arith in
      rw (here, before)
        (omega (arith, used_from-same rounds (i + 1) g f (λ j p. ground (arith, h j))))
  | inr e ↦
      let same : g i ≡ f i = ground (arith, h i) in
      rw same
        (omega (arith, used_from-add rounds (i + 1) k f g (ground arith) (omega arith) clear h))
]

-- The blocks from 2 on that the map marks as used.
abbrev pub used_blocks : Disk → ℕ
used_blocks d = used_from (map_bits - 2) 2 (in_use d)

-- What `fs_statfs` may return for a disk of `total` blocks.
abbrev pub Reports : Disk → ℕ → ℕ → Outcome StatVfs → Type 0
Reports d total used (done s g) =
    (g ≡ d)
    × (s.bsize ≡ block_size)
    × (s.f_blocks + 2 ≡ total)
    × (s.bfree + used ≡ s.f_blocks)
    × (s.bavail ≡ s.bfree)
Reports d total used _ = ⊥

-- When blocks 0 and 1 can be read and no more blocks are in use than the superblock's disk size
-- allows, `fs_statfs` reports the disk size less two, and of these the number not in use, without
-- changing the image.
pub fs_statfs-Reports :
    (d : Disk) (super map : Block)
    → Holds d 0 super
    → Holds d 1 map
    → used_blocks d + 2 ≤ get_u32 super 4
    → Reports d (get_u32 super 4) (used_blocks d) (fs_statfs d)
unfolding fs_statfs
fs_statfs-Reports d super map at_0 at_1 fits =
    let count : count_used (map_bits - 2) 2 map 0 ≡ used_blocks d =
      count_used-used_from (map_bits - 2) 2 0 map (omega arith)
      ∙ rw (← at_1.content) (omega arith) in
    rw (block_read-Holds at_0, block_read-Holds at_1, count)
      (refl, refl, omega (arith, get_u32-lt super 4), omega (arith, get_u32-lt super 4), refl)

abbrev UsesOneMore : Disk → Outcome ℕ → Type 0
UsesOneMore d (done i g) = used_blocks g ≡ used_blocks d + 1
UsesOneMore d (failed e g) = used_blocks g ≡ used_blocks d
UsesOneMore d _ = ⊥

Allocates-UsesOneMore : (d : Disk) (r : Outcome ℕ) → Allocates d r → UsesOneMore d r
Allocates-UsesOneMore d (done i g) (p, q, clear, least, bits, files) =
    used_from-add (map_bits - 2) 2 i (in_use d) (in_use g) (omega arith) (omega arith) clear bits
Allocates-UsesOneMore d (failed enospc g) (same, full) = ap used_blocks same
Allocates-UsesOneMore d (failed other g) h = absurd h
Allocates-UsesOneMore d (aborted g) h = absurd h
Allocates-UsesOneMore d fault h = absurd h

-- A successful `alloc_blk` raises the number of used blocks that `fs_statfs` counts by exactly one,
-- and a failed one leaves it.
alloc_blk-UsesOneMore : (d : Disk) → 1 < d.blocks → UsesOneMore d (alloc_blk d)
alloc_blk-UsesOneMore d h = Allocates-UsesOneMore d (alloc_blk d) (alloc_blk-Allocates d h)
