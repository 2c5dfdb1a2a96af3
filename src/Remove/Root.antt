-- ===== src/Remove/Root.antt =====
-- `fs_rmdir` of the root directory.
use unix_like_file_system.Base.{
  ℕ, ◌<◌, ◌≡◌, refl, ap, ◌∙◌, true, not, ◌&&◌, ◌||◌, ◌==◌, [], ◌∷◌, arith,
}
use unix_like_file_system.Block.{Block, set_u32}
use unix_like_file_system.Disk.{Disk, Outcome, done, write_at}
use unix_like_file_system.Disk.Reads.{Holds, read_unchecked-Holds, block_read-Holds}
use unix_like_file_system.Disk.Writes.{block_write-done, write_at-ne, write_at-inside}
use unix_like_file_system.Bitmap.{map_bits, bit_test}
use unix_like_file_system.Bitmap.Alloc.{in_use, Holds-SameFiles, free_blk-Frees}
use unix_like_file_system.Inode.{ptr, is_dir}
use unix_like_file_system.Path.{slash, tokenise, tokens, strtok, skip}
use unix_like_file_system.Lookup.{root_inum}
use unix_like_file_system.Lookup.Paths.{path2inum-slash}
use unix_like_file_system.Content.Free.{Frees-done}
use unix_like_file_system.Entry.{split_path, parent_inode, parent_of, parent_length}
use unix_like_file_system.Remove.{before_removal, clear_entry, drop_entry, fs_rmdir}
use unix_like_file_system.Remove.Searches.{IsEmpty, any_valid-none, find_inode-none}
use unix_like_file_system.Remove.Dropped.{not-or, SameFiles-trans}

-- For "/" the parent and the directory to be removed are both the root.
before_removal-slash :
    {d : Disk} {root : Block}
    → Holds d root_inum root
    → is_dir root ≡ true
    → before_removal (slash ∷ []) d ≡ done (root_inum, root, root_inum, root) d
unfolding before_removal parent_inode split_path parent_of parent_length tokenise tokens strtok skip
before_removal-slash {d} there directory =
    rw
      (
        path2inum-slash d,
        read_unchecked-Holds there,
        directory,
        path2inum-slash d,
        read_unchecked-Holds there,
      )
      refl

-- The blocks `a` and `b` are free, and no other block is marked otherwise than before.
abbrev pub FreesBoth : ℕ → ℕ → Disk → Outcome (Unit {0}) → Type 0
FreesBoth a b d (done _ g) = (j : ℕ) → in_use g j ≡ (not ((a == j) || (b == j)) && in_use d j)
FreesBoth a b d _ = ⊥

module _ {d : Disk} {root own : Block} (there : Holds d root_inum root)
    (directory : is_dir root ≡ true) (entries : Holds d (ptr root 0) own) (empty : IsEmpty own)
    (map_there : 1 < d.blocks) (range : (2 < ptr root 0) × (ptr root 0 < map_bits)) where
  -- When the root directory has no valid entry, and its block of entries lies behind its inode and has a
  -- bit in the map, `fs_rmdir` of "/" succeeds, and marks these two blocks, the root's inode
  -- among them, as free, and no others.
  pub fs_rmdir_root : (now : ℕ) → FreesBoth root_inum (ptr root 0) d (fs_rmdir now (slash ∷ []) d)
  unfolding fs_rmdir drop_entry clear_entry
  fs_rmdir_root now =
      let (h, run, (freed, same)) =
        Frees-done (ptr root 0) d _ (free_blk-Frees (ptr root 0) d map_there range.1) in
      let (g, run', (bits, files)) =
        Frees-done root_inum h _
          (free_blk-Frees root_inum h (rw (same.same_blocks) map_there) (omega arith)) in
      let all = SameFiles-trans same files in
      let stays : Holds g (ptr root 0) own =
        Holds-SameFiles all entries (λ e. absurd (omega (arith, range))) in
      let in_g : 1 < g.blocks = rw (all.same_blocks) map_there in
      let with_entry = write_at (ptr root 0) own g in
      rw
        (
          before_removal-slash there directory,
          directory,
          read_unchecked-Holds entries,
          any_valid-none own empty,
          run,
          run',
          block_read-Holds stays,
          find_inode-none own root_inum empty,
          block_write-done (ptr root 0) own g (omega (arith, range)) (omega (arith, range)),
          block_write-done root_inum (set_u32 root 12 now) with_entry (omega arith) (omega arith),
        )
        (λ j.
          ap (λ b. bit_test b j)
            (write_at-ne root_inum 1 (set_u32 root 12 now) with_entry (λ e. absurd (omega arith))
                (write_at-inside (ptr root 0) 1 own g in_g)
              ∙ write_at-ne (ptr root 0) 1 own g (λ e. absurd (omega (arith, range))) in_g)
          ∙ bits j
          ∙ ap (λ b. not (root_inum == j) && b) (freed j)
          ∙ not-or (root_inum == j) _ _)
