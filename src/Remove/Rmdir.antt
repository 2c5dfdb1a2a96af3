-- ===== src/Remove/Rmdir.antt =====
-- `fs_rmdir`: what it frees, and what it changes in the parent directory.
use unix_like_file_system.Base.{
  ℕ, ◌<◌, ◌≡◌, ap, ◌∙◌, true, not, ◌&&◌, ◌||◌, ◌==◌, List, [], ◌∷◌, ◌++◌,
}
use unix_like_file_system.Block.{Block}
use unix_like_file_system.Disk.{Disk, failed, enotempty}
use unix_like_file_system.Disk.Reads.{Holds, read_unchecked-Holds, block_read-Holds}
use unix_like_file_system.Bitmap.{map_bits}
use unix_like_file_system.Bitmap.Alloc.{in_use, free_blk-Frees}
use unix_like_file_system.Inode.{num_dirents, ptr, is_dir, valid}
use unix_like_file_system.Path.{Text}
use unix_like_file_system.Path.Tokens.{slashed}
use unix_like_file_system.Content.Free.{Frees-done}
use unix_like_file_system.Remove.{fs_rmdir}
use unix_like_file_system.Remove.Searches.{IsEmpty, any_valid-none, any_valid-some}
use unix_like_file_system.Remove.Dropped.{
  Removing, Places, Removes, SameFiles-trans, not-or, before_removal-done, drop_entry-Removes,
  entries_stay,
}

module _ {d : Disk} {names : List Text} {name : Text} {inum n k : ℕ} {parent dirs inode : Block}
    (r : Removing d names name inum n k parent dirs inode) where
  -- For a path to a directory without valid entries, where its entry block and the block of its inode
  -- have bits in the map and the parent is apart from the map, `fs_rmdir` succeeds: it frees exactly
  -- these two blocks, clears the first valid entry of the parent with the directory's number, sets the
  -- parent's modification time, and changes nothing else.
  pub fs_rmdir-Removes :
      (now : ℕ) {own : Block}
      → Places d inum (ptr parent 0)
      → is_dir inode ≡ true
      → Holds d (ptr inode 0) own
      → IsEmpty own
      → ptr inode 0 < map_bits
      → n < map_bits
      → Removes d now inum k parent dirs
          (λ j. (n == j) || (ptr inode 0 == j))
          (fs_rmdir now (slashed (names ++ name ∷ [])) d)
  unfolding fs_rmdir
  fs_rmdir-Removes now {own} places is_directory there empty small small' =
      let (h, run, (freed, same)) =
        Frees-done (ptr inode 0) d _ (free_blk-Frees (ptr inode 0) d places.map_there small) in
      let there' : 1 < h.blocks = rw same.same_blocks places.map_there in
      let (g, run', (bits, files)) = Frees-done n h _ (free_blk-Frees n h there' small') in
      let bits' : (j : ℕ) → in_use g j ≡ (not ((n == j) || (ptr inode 0 == j)) && in_use d j) =
        λ j. bits j ∙ ap (λ b. not (n == j) && b) (freed j) ∙ not-or (n == j) _ _ in
      rw
        (
          before_removal-done r,
          is_directory,
          read_unchecked-Holds there,
          any_valid-none own empty,
          run,
          run',
          block_read-Holds (entries_stay r places now g _ bits' (SameFiles-trans same files)),
        )
        (drop_entry-Removes r places now g _ bits' (SameFiles-trans same files))

  -- For a path to a directory, whose entries can be read and one of whose 128 entries is valid,
  -- whichever it is, `fs_rmdir` returns -ENOTEMPTY, and the image stays as it was.
  pub fs_rmdir-not_empty :
      (now : ℕ) {own : Block}
      → is_dir inode ≡ true
      → Holds d (ptr inode 0) own
      → (j : ℕ) → j < num_dirents
      → valid own j ≡ true
      → fs_rmdir now (slashed (names ++ name ∷ [])) d ≡ failed enotempty d
  unfolding fs_rmdir
  fs_rmdir-not_empty now {own} is_directory there j lt used = rw (
    before_removal-done r,
    is_directory,
    read_unchecked-Holds there,
    any_valid-some own j lt used,
  )
