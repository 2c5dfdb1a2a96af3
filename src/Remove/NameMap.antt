-- ===== src/Remove/NameMap.antt =====
-- `fs_unlink` and `fs_rmdir` as changes of the map from names to inode numbers that the parent
-- directory is.
use unix_like_file_system.Base.{
  ℕ, ◌*◌, ◌≤◌, ◌<◌, ◌≡◌, Bool, true, false, none, List, [], ◌∷◌, ◌++◌, length,
}
use unix_like_file_system.Block.{Block, block_size}
use unix_like_file_system.Disk.{Disk, Outcome, done, failed, aborted, fault}
use unix_like_file_system.Disk.Reads.{Holds}
use unix_like_file_system.Bitmap.{map_bits}
use unix_like_file_system.Inode.{num_ptrs, ptr, size, is_dir}
use unix_like_file_system.Inode.Entries.{IsText}
use unix_like_file_system.Path.{Text}
use unix_like_file_system.Path.Tokens.{slashed}
use unix_like_file_system.Lookup.Resolves.{entry_matches}
use unix_like_file_system.Lookup.Names.{number_of}
use unix_like_file_system.Content.Free.{InMap}
use unix_like_file_system.Entry.Updates.{changed, IsMap, IsOnly, cleared-IsMap}
use unix_like_file_system.Remove.Searches.{IsEmpty}
use unix_like_file_system.Remove.{fs_unlink, fs_rmdir}
use unix_like_file_system.Remove.Dropped.{Removing, Places, Removes}
use unix_like_file_system.Remove.Unlink.{file-Marks, fs_unlink-Removes}
use unix_like_file_system.Remove.Rmdir.{fs_rmdir-Removes}

-- The call succeeds, and the map of the entries in block `entries` is the old one without the name.
abbrev pub DropsName : Text → ℕ → Block → Outcome (Unit {0}) → Type 0
DropsName name entries dirs (done _ g) =
    (new : Block) × Holds g entries new × IsMap new (changed name none (number_of dirs))
DropsName name entries dirs _ = ⊥

module _ {d : Disk} {names : List Text} {name : Text} {inum n k : ℕ} {parent dirs inode : Block}
    (r : Removing d names name inum n k parent dirs inode) (text : IsText name)
    (short : length name ≤ 27) (hit : entry_matches name dirs k ≡ true)
    (only : IsOnly name dirs k) where
  Removes-DropsName :
      (now : ℕ) (gone : ℕ → Bool) (o : Outcome (Unit {0}))
      → Removes d now inum k parent dirs gone o
      → DropsName name (ptr parent 0) dirs o
  Removes-DropsName now gone (done u g) h =
      (h.new_dirs, h.dirs_there, cleared-IsMap d name text short h.cleared h.others hit only)
  Removes-DropsName now gone (failed e g) h = absurd h
  Removes-DropsName now gone (aborted g) h = absurd h
  Removes-DropsName now gone fault h = absurd h

  -- For a path to a file in a directory, where the first valid entry with the file's number carries the
  -- path's last name and no other entry does, the blocks of the file lie in the map and the parent is
  -- apart from the map, `fs_unlink` succeeds, and the parent's map from names to inode numbers is the old one
  -- without the name.
  pub fs_unlink-DropsName :
      (now : ℕ)
      → Places d inum (ptr parent 0)
      → is_dir inode ≡ false
      → size inode ≤ block_size * num_ptrs
      → InMap inode
      → n < map_bits
      → DropsName name (ptr parent 0) dirs (fs_unlink now (slashed (names ++ name ∷ [])) d)
  fs_unlink-DropsName now places is_file fits in_map small =
      Removes-DropsName now _ _
        (fs_unlink-Removes r now _ (file-Marks n inode fits) places is_file fits in_map small)

  -- For a path to a directory without valid entries, under the same conditions on its parent,
  -- `fs_rmdir` succeeds, and the parent's map is the old one without the name.
  fs_rmdir-DropsName :
      (now : ℕ) {own : Block}
      → Places d inum (ptr parent 0)
      → is_dir inode ≡ true
      → Holds d (ptr inode 0) own
      → IsEmpty own
      → ptr inode 0 < map_bits
      → n < map_bits
      → DropsName name (ptr parent 0) dirs (fs_rmdir now (slashed (names ++ name ∷ [])) d)
  fs_rmdir-DropsName now places is_directory there empty small small' =
      Removes-DropsName now _ _
        (fs_rmdir-Removes r now places is_directory there empty small small')
