-- ===== src/Serve/Reading.antt =====
-- The parts that only read keep every invariant, and so the calls that consist of them.
use unix_like_file_system.Base.{ℕ, zero, suc, ◌+◌, Option, none, some, List, [], ◌∷◌}
use unix_like_file_system.Block.{Block}
use unix_like_file_system.Disk.{
  Disk, Errno, Code, nat, err, enoent, enotdir, eisdir, einval, eio, eexist, enospc, enotempty,
  eopnotsupp,
}
use unix_like_file_system.Path.{Text}
use unix_like_file_system.Attr.{
  existing, inode_of, inode2stat, nonnegative, existing_or_enoent, list_entry, visit_entry,
  list_from, fs_statfs, fs_getattr, fs_readdir,
}
use unix_like_file_system.Attr.Named.{existing-err}
use unix_like_file_system.Content.{Buffer, read_loop, fs_read}
use unix_like_file_system.Entry.{
  split_path, last_token, parent_inode, before_new, copy_name, rename_entry, existing_source,
}
use unix_like_file_system.Remove.{before_removal}
use unix_like_file_system.Serve.Preserves.{
  Preserves, returned, refused, steps, bind, pure-Preserves, undefined-Preserves,
}

module _ {I : Disk → Type 0} where
  existing-Preserves : (i : Code) → Preserves I (existing i)
  unfolding existing
  existing-Preserves (nat zero) d h = refused h
  existing-Preserves (nat (suc n)) d h = returned h
  existing-Preserves (err e) d h = rw (existing-err e d) (refused h)

  pub nonnegative-Preserves : (e : Errno) (i : Code) → Preserves I (nonnegative e i)
  nonnegative-Preserves e (nat n) d h = returned h
  nonnegative-Preserves e (err f) d h = refused h

  existing_or_enoent-Preserves : (i : Code) → Preserves I (existing_or_enoent i)
  unfolding existing_or_enoent
  existing_or_enoent-Preserves (nat zero) d h = refused h
  existing_or_enoent-Preserves (nat (suc n)) d h = returned h
  existing_or_enoent-Preserves (err e) d h = refused h

  pub existing_source-Preserves : (i : Code) → Preserves I (existing_source i)
  unfolding existing_source
  existing_source-Preserves (nat zero) d h = refused h
  existing_source-Preserves (nat (suc n)) d h = returned h
  existing_source-Preserves (err enoent) d h = refused h
  existing_source-Preserves (err eio) d h = refused h
  existing_source-Preserves (err eexist) d h = refused h
  existing_source-Preserves (err enotdir) d h = refused h
  existing_source-Preserves (err eisdir) d h = refused h
  existing_source-Preserves (err einval) d h = refused h
  existing_source-Preserves (err enospc) d h = refused h
  existing_source-Preserves (err enotempty) d h = refused h
  existing_source-Preserves (err eopnotsupp) d h = refused h

  pub inode_of-Preserves : (path : Text) (e : Errno) → Preserves I (inode_of path e)
  unfolding inode_of
  inode_of-Preserves path e = search (steps, existing-Preserves)

  inode2stat-Preserves : (inode : Block) (n : ℕ) → Preserves I (inode2stat inode n)
  unfolding inode2stat
  inode2stat-Preserves inode n = search steps

  pub fs_statfs-Preserves : Preserves I fs_statfs
  unfolding fs_statfs
  fs_statfs-Preserves = search steps

  pub fs_getattr-Preserves : (path : Text) → Preserves I (fs_getattr path)
  unfolding fs_getattr
  fs_getattr-Preserves path = search (steps, inode_of-Preserves, inode2stat-Preserves)

  list_entry-Preserves :
      (dirs : Block) (k : ℕ) (read : Option Block) → Preserves I (list_entry dirs k read)
  unfolding list_entry
  list_entry-Preserves dirs k none = search steps
  list_entry-Preserves dirs k (some inode) = search (steps, inode2stat-Preserves)

  visit_entry-Preserves : (dirs : Block) (k : ℕ) → Preserves I (visit_entry dirs k)
  unfolding visit_entry
  visit_entry-Preserves dirs k = search (steps, list_entry-Preserves)

  list_from-Preserves : (rounds k : ℕ) (dirs : Block) → Preserves I (list_from rounds k dirs)
  unfolding list_from
  list_from-Preserves zero k dirs = search steps
  list_from-Preserves (suc rounds) k dirs =
      search (steps, visit_entry-Preserves, list_from-Preserves rounds (k + 1) dirs)

  pub fs_readdir-Preserves : (path : Text) → Preserves I (fs_readdir path)
  unfolding fs_readdir
  fs_readdir-Preserves path =
      search (steps, existing_or_enoent-Preserves, list_from-Preserves) depth 12

  read_loop-Preserves :
      (fuel : ℕ) (inode : Block) (len offset nread block_num block_offset : ℕ) (buffer : Block)
      (buf : Buffer)
      → Preserves I (read_loop fuel inode len offset nread block_num block_offset buffer buf)
  unfolding read_loop
  read_loop-Preserves zero inode len offset nread block_num block_offset buffer buf = search steps
  read_loop-Preserves (suc fuel) inode len offset nread block_num block_offset buffer buf =
      search (steps, read_loop-Preserves fuel inode len offset)

  pub fs_read-Preserves :
      (stack : Block) (path : Text) (buf : Buffer) (len offset : ℕ)
      → Preserves I (fs_read stack path buf len offset)
  unfolding fs_read
  fs_read-Preserves stack path buf len offset =
      search (steps, inode_of-Preserves, read_loop-Preserves)

  pub split_path-Preserves : (path : Text) → Preserves I (split_path path)
  unfolding split_path
  split_path-Preserves [] = search steps
  split_path-Preserves (c ∷ s) = search steps

  pub last_token-Preserves : (tokens : List Text) → Preserves I (last_token tokens)
  unfolding last_token
  last_token-Preserves [] = search steps
  last_token-Preserves (t ∷ []) = search steps
  last_token-Preserves (t ∷ u ∷ ts) = last_token-Preserves (u ∷ ts)

  pub parent_inode-Preserves :
      (path : Text) (tokens : List Text) → Preserves I (parent_inode path tokens)
  unfolding parent_inode
  parent_inode-Preserves path tokens = search (steps, nonnegative-Preserves)

  pub before_new-Preserves : (path : Text) → Preserves I (before_new path)
  unfolding before_new
  before_new-Preserves path =
      search (steps, split_path-Preserves, last_token-Preserves, parent_inode-Preserves) depth 12

  pub copy_name-Preserves :
      (name : Text) (k : ℕ) (dirs : Block) → Preserves I (copy_name name k dirs)
  unfolding copy_name
  copy_name-Preserves name k dirs = search steps

  pub rename_entry-Preserves :
      (o : Option ℕ) (name : Text) (dirs : Block) → Preserves I (rename_entry o name dirs)
  unfolding rename_entry
  rename_entry-Preserves none name dirs = search steps
  rename_entry-Preserves (some k) name dirs = copy_name-Preserves name k dirs

  pub before_removal-Preserves : (path : Text) → Preserves I (before_removal path)
  unfolding before_removal
  before_removal-Preserves path =
      search (steps, split_path-Preserves, parent_inode-Preserves, nonnegative-Preserves) depth 12

-- The rules for the parts that the writing calls share.
pub ruleset parts = (
  steps, existing_source-Preserves, nonnegative-Preserves, inode_of-Preserves, split_path-Preserves,
  last_token-Preserves, parent_inode-Preserves, before_new-Preserves, copy_name-Preserves,
  rename_entry-Preserves, before_removal-Preserves,
)
