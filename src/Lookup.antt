-- ===== src/Lookup.antt =====
-- fs5600.c, `path2inum`: from a path to the number of its inode.
pub mod Resolves
pub mod Paths
pub mod Behind
pub mod Names
pub mod Frame
pub mod Missing
use unix_like_file_system.Base.{
  ℕ, zero, suc, ◌+◌, Bool, true, false, not, ◌&&◌, Option, none, some, List, [], ◌∷◌, ltb, ◌==◌,
  length, if◌then◌else◌,
}
use unix_like_file_system.Block.{Block}
use unix_like_file_system.Disk.{
  M, Errno, enoent, enotdir, eopnotsupp, pure, fail, ◌>>=◌, ◌>>◌, fail_if, undefined_if, block_read,
}
use unix_like_file_system.Inode.{
  num_dirents, is_dir, size, ptr, valid, entry_inode, name_at, same_text,
}
use unix_like_file_system.Path.{Text, slash, tokenise}

-- The loop over `dirs`, from entry `k`.
unfoldable pub find_entry : ℕ → ℕ → Text → Block → Option ℕ
find_entry zero k name dirs = none
find_entry (suc rounds) k name dirs =
    let rest = find_entry rounds (k + 1) name dirs in
    if valid dirs k && same_text name dirs (name_at k) then some k else rest

abbrev pub find : Text → Block → Option ℕ
find = find_entry num_dirents 0

abbrev pub is_last : List Text → Bool
is_last [] = true
is_last (t ∷ ts) = false

-- `if (j < i-1) return -ENOTDIR; return -ENOENT;` where `rest` are the tokens behind the current.
abbrev pub broken_off : List Text → Errno
broken_off rest = if is_last rest then enoent else enotdir

-- `if (i > 1 && j == i-1) return -ENOTDIR; return -ENOENT;`
abbrev pub not_found : Bool → List Text → Errno
not_found several rest = if several && is_last rest then enotdir else enoent

abbrev pub or_fail : {A : Type 0} → Errno → Option A → M A
or_fail e none = fail e
or_fail e (some a) = pure a

-- The directory block of `current`, with the checks that precede it.
unfoldable pub enter : Text → List Text → Block → M Block
enter name rest current = do
  fail_if (ltb 27 (length name)) (broken_off rest)
  fail_if (not (is_dir current) && not (is_last rest)) enotdir
  fail_if (size current == 0) (broken_off rest)
  dirs ← block_read (ptr current 0)
  or_fail (broken_off rest) dirs

-- One round: the number that the entry `name` of the directory `current` gives.
unfoldable pub lookup_entry : Bool → Text → List Text → Block → M ℕ
lookup_entry several name rest current = do
  dirs ← enter name rest current
  k ← or_fail (not_found several rest) (find name dirs)
  pure (entry_inode dirs k)

-- Reading the inode of an intermediate directory.
unfoldable pub descend : ℕ → M Block
descend inum = do
  read ← block_read inum
  current ← or_fail eopnotsupp read
  fail_if (not (is_dir current)) enotdir
  pure current

-- The loop over the tokens; `several` is `i > 1`.
unfoldable pub walk : Bool → List Text → Block → M ℕ
walk several [] current = fail eopnotsupp
walk several (name ∷ []) current = lookup_entry several name [] current
walk several (name ∷ next ∷ rest) current = do
  inum ← lookup_entry several name (next ∷ rest) current
  dir ← descend inum
  walk several (next ∷ rest) dir

abbrev pub root_inum : ℕ
root_inum = 2

-- From the root, once the path has been cut into tokens.
unfoldable pub from_root : List Text → M ℕ
from_root [] = pure root_inum
from_root (name ∷ rest) = do
  read ← block_read root_inum
  root ← or_fail eopnotsupp read
  walk (not (is_last rest)) (name ∷ rest) root

-- `path_copy` has 300 bytes and `paths` 11 places: a longer path, and one of more tokens, are
-- written out of bounds.
unfoldable pub path2inum : Text → M ℕ
path2inum [] = fail enoent
path2inum (c ∷ s) = do
  fail_if (not (c == slash)) enoent
  undefined_if (ltb 299 (length s))
  undefined_if (ltb 11 (length (tokenise s)))
  from_root (tokenise s)
