-- ===== src/Tree/Home.antt =====
-- The directory that `fs_create` and `fs_mkdir` work in.
use unix_like_file_system.Base.{ℕ, ◌≡◌, sym, true, none}
use unix_like_file_system.Disk.{Disk}
use unix_like_file_system.Disk.Reads.{Holds, read_unchecked-Holds}
use unix_like_file_system.Inode.{num_dirents, ptr, is_dir}
use unix_like_file_system.Path.{Text}
use unix_like_file_system.Entry.{find_unused, add_entry}
use unix_like_file_system.Entry.Create.{Apart}
use unix_like_file_system.Tree.{Role, listing, IsInode, Marked, IsTree, Consistent, Keeps}
use unix_like_file_system.Tree.Find.{inode-Marked, entries_of, listing-Marked}
use unix_like_file_system.Tree.Change.{listing-ne-inode}

-- The directory `inum`, in which a new entry is made.
pub record Home (d : Disk) (role : ℕ → Role) (inum : ℕ) : Type 0 where
  pub is_listing : role (ptr (d.block inum) 0) ≡ listing inum
  pub marked : Marked d inum
  pub entries : Marked d (ptr (d.block inum) 0)
  pub apart : Apart d inum (ptr (d.block inum) 0)

module _ {d : Disk} {role : ℕ → Role} (t : IsTree d role) where
  pub parent-Home :
      {inum : ℕ} → IsInode (role inum) → is_dir (d.block inum) ≡ true → Home d role inum
  parent-Home {inum} is directory =
      let is_listing = entries_of t inum is directory in
      let there = listing-Marked t is_listing in
      let marked = inode-Marked t inum is in
      record {
        is_listing = is_listing;
        marked = marked;
        entries = there;
        apart = record {
          map_there = t.map_there;
          inum_range = marked.range;
          entries_range = there.range;
          differ = λ e. listing-ne-inode role is_listing is (sym e);
          inum_used = marked.used;
          entries_used = there.used;
        };
      }

  -- The directory is full: the blocks that were allocated stay marked, and no entry names them.
  pub not_added :
      (name : Text) (n inum : ℕ) (g : Disk)
      → Holds g (ptr (d.block inum) 0) (d.block (ptr (d.block inum) 0))
      → find_unused num_dirents 0 (d.block (ptr (d.block inum) 0)) ≡ none
      → Consistent g
      → Keeps (add_entry name n inum (d.block inum) g)
  unfolding add_entry
  not_added name n inum g holds full stays = rw (read_unchecked-Holds holds, full) stays
