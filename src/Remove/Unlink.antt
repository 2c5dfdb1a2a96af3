-- ===== src/Remove/Unlink.antt =====
-- `fs_unlink`: what it frees, and what it changes in the parent directory.
use unix_like_file_system.Base.{
  ℕ, ◌*◌, ◌<◌, ◌≤◌, ◌≡◌, ap, ◌∙◌, false, not, ◌&&◌, ◌||◌, ◌==◌, ==→eq, ==-refl, ◌⊎◌, inl, inr, sym,
  refl, Bool, Bool-cases, List, [], ◌∷◌, ◌++◌, arith,
}
use mathlib.Core.Bool.{false≢true}
use unix_like_file_system.Block.{Block, block_size}
use unix_like_file_system.Disk.{Disk}
use unix_like_file_system.Disk.Reads.{read_unchecked-Holds}
use unix_like_file_system.Bitmap.{map_bits}
use unix_like_file_system.Bitmap.Alloc.{in_use, free_blk-Frees}
use unix_like_file_system.Inode.{num_ptrs, ptr, size, is_dir, rounds_up}
use unix_like_file_system.Path.{Text}
use unix_like_file_system.Path.Tokens.{slashed}
use unix_like_file_system.Content.Free.{
  among, InMap, IsOfFile, Marks, Marks-eq, among-Marks, few_rounds, or_right, InMap-below,
  Frees-done, FreesAll-done, free_ptrs-FreesAll,
}
use unix_like_file_system.Remove.{fs_unlink}
use unix_like_file_system.Remove.Dropped.{
  Removing, Places, Removes, SameFiles-trans, not-or, before_removal-done, drop_entry-Removes,
  entries_stay,
}

-- The inode's own block and the blocks of the file.
pub file-Marks :
    (n : ℕ) (inode : Block)
    → size inode ≤ block_size * num_ptrs
    → Marks
        (λ j. (n == j) || among (rounds_up (size inode)) 0 inode j)
        (λ j. (n ≡ j) ⊎ IsOfFile inode j)
file-Marks n inode fits j = elim (Bool-cases (n == j)) [
  | inl e ↦ (λ h. inl (==→eq n j e), λ p. rw e refl)
  | inr ne ↦ (
    λ h. inr ((among-Marks inode fits j).0 (or_right ne h)),
    λ p. elim p [
      | inl same ↦ absurd (false≢true (sym ne ∙ rw (same, ==-refl j) refl))
      | inr of_file ↦
          ap (λ b. b || among (rounds_up (size inode)) 0 inode j) ne
          ∙ (among-Marks inode fits j).1 of_file
    ],
  )
]

module _ {d : Disk} {names : List Text} {name : Text} {inum n k : ℕ} {parent dirs inode : Block}
    (r : Removing d names name inum n k parent dirs inode) where
  -- For a path to a file in a directory, where the blocks of the file lie in the map and the parent
  -- is apart from the map, `fs_unlink` succeeds: it frees exactly the block of the inode and the
  -- blocks that hold bytes of the file, those that a pointer `i` with `i * 4096` below the size
  -- names, clears the first valid entry of the parent with the file's number, sets the parent's
  -- modification time, and changes nothing else.
  pub fs_unlink-Removes :
      (now : ℕ) (gone : ℕ → Bool)
      → Marks gone (λ j. (n ≡ j) ⊎ IsOfFile inode j)
      → Places d inum (ptr parent 0)
      → is_dir inode ≡ false
      → size inode ≤ block_size * num_ptrs
      → InMap inode
      → n < map_bits
      → Removes d now inum k parent dirs gone (fs_unlink now (slashed (names ++ name ∷ [])) d)
  unfolding fs_unlink
  fs_unlink-Removes now gone marks places is_file fits in_map small =
      let rounds = rounds_up (size inode) in
      let (h, run, all) = FreesAll-done rounds 0 inode d _ (
        free_ptrs-FreesAll rounds 0 rounds inode d (omega arith) (few_rounds inode fits)
          (InMap-below inode fits in_map) places.map_there) in
      let there : 1 < h.blocks = rw all.1.same_blocks places.map_there in
      let (g, run', (bits, files)) = Frees-done n h _ (free_blk-Frees n h there small) in
      let same = Marks-eq gone _ _ marks (file-Marks n inode fits) in
      let bits' : (j : ℕ) → in_use g j ≡ (not (gone j) && in_use d j) = λ j.
        bits j
        ∙ ap (λ b. not (n == j) && b) (all.0 j)
        ∙ not-or (n == j) _ _
        ∙ ap (λ b. not b && in_use d j) (sym (same j)) in
      let files' = SameFiles-trans all.1 files in
      rw
        (
          before_removal-done r,
          is_file,
          run,
          run',
          read_unchecked-Holds (entries_stay r places now g gone bits' files'),
        )
        (drop_entry-Removes r places now g gone bits' files')
