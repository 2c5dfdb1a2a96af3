-- ===== src/Entry.antt =====
-- fs5600.c, the calls that add and rename directory entries: `fs_create`, `fs_mkdir`, `fs_rename`,
-- and how they take a path apart.
pub mod SameName
pub mod Parent
pub mod Vacant
pub mod Full
pub mod Unused
pub mod Create
pub mod Make
pub mod MadeDir
pub mod MakeDir
pub mod NewFile
pub mod NoEntry
pub mod Updates
pub mod NameMap
pub mod Found
pub mod Rename
use unix_like_file_system.Base.{
  ℕ, zero, suc, ◌+◌, ◌^◌, bit_and, bit_or, Bool, true, false, not, ◌&&◌, Option, none, some, List,
  [], ◌∷◌, ltb, leb, ◌==◌, if◌then◌else◌, length, take,
}
use unix_like_file_system.Block.{Block, set_u16, set_u32}
use unix_like_file_system.Disk.{
  M, Errno, Outcome, done, failed, aborted, fault, Code, nat, err, enoent, eexist, enotdir, einval,
  pure, fail, ◌>>=◌, ◌>>◌, call, fail_if, undefined, undefined_if, zero_block, block_read,
  block_write, read_unchecked, pattern_of,
}
use unix_like_file_system.Bitmap.{alloc_blk}
use unix_like_file_system.Inode.{
  ptr, set_ptr, is_dir, num_dirents, name_size, name_at, valid, set_valid, set_entry_inode,
  copy_text,
}
use unix_like_file_system.Path.{Text, slash, tokenise}
use unix_like_file_system.Lookup.{find, or_fail, path2inum}
use unix_like_file_system.Attr.{nonnegative}

-- `strcpy(src_copy, path + 1); src_count = tokenise(src_copy, src_tokens);` with arrays of 300 bytes
-- and 11 tokens. Behind an empty path there is nothing to copy.
unfoldable pub split_path : Text → M (List Text)
split_path [] = undefined
split_path (c ∷ s) = do
  undefined_if (ltb 299 (length s))
  undefined_if (ltb 11 (length (tokenise s)))
  pure (tokenise s)

-- The sum of `strlen(src_tokens[i]) + 1` over all tokens but the last.
unfoldable pub parent_length : List Text → ℕ
parent_length [] = 0
parent_length (t ∷ []) = 0
parent_length (t ∷ u ∷ ts) = length t + 1 + parent_length (u ∷ ts)

-- `strncpy(parent, path, length)` with `length` one more than that sum.
unfoldable pub parent_of : Text → List Text → Text
parent_of path tokens = take (parent_length tokens + 1) path

-- `src_tokens[src_count - 1]`, out of bounds if there is no token.
unfoldable pub last_token : List Text → M Text
last_token [] = undefined
last_token (t ∷ []) = pure t
last_token (t ∷ u ∷ ts) = last_token (u ∷ ts)

abbrev pub is_positive : Code → Bool
is_positive (nat zero) = false
is_positive (nat (suc n)) = true
is_positive (err e) = false

abbrev pub starts_with_slash : Text → Bool
starts_with_slash [] = false
starts_with_slash (c ∷ s) = c == slash

-- The inode of the directory in which a call works, and its number.
unfoldable pub parent_inode : Text → List Text → M (ℕ × Block)
parent_inode path tokens = do
  found ← call (path2inum (parent_of path tokens))
  inum ← nonnegative enoent found
  inode ← read_unchecked inum
  fail_if (not (is_dir inode)) enotdir
  pure (inum, inode)

-- The checks that `fs_create` and `fs_mkdir` begin with: the new name, and the parent.
unfoldable pub before_new : Text → M (Text × ℕ × Block)
before_new path = do
  fail_if (not (starts_with_slash path)) enoent
  found ← call (path2inum path)
  fail_if (is_positive found) eexist
  tokens ← split_path path
  name ← last_token tokens
  fail_if (ltb 27 (length name)) einval
  (inum, parent) ← parent_inode path tokens
  pure (name, inum, parent)

-- The loop that looks for an entry whose `valid` is 0.
unfoldable pub find_unused : ℕ → ℕ → Block → Option ℕ
find_unused zero k dirs = none
find_unused (suc rounds) k dirs =
    let rest = find_unused rounds (k + 1) dirs in if valid dirs k then rest else some k

-- `strcpy(dirs[k].name, s)`, which needs the NUL to fit.
unfoldable pub copy_name : Text → ℕ → Block → M Block
copy_name name k dirs = do
  undefined_if (leb name_size (length name))
  pure (copy_text name dirs (name_at k))

-- The end of `fs_create` and `fs_mkdir`: the new entry is written, and the parent's inode.
unfoldable pub add_entry : Text → ℕ → ℕ → Block → M (Unit {0})
add_entry name new_inum parent_inum parent = do
  dirs ← read_unchecked (ptr parent 0)
  k ← or_fail einval (find_unused num_dirents 0 dirs)
  named ← copy_name name k (set_valid dirs k 1)
  block_write (ptr parent 0) (set_entry_inode named k new_inum)
  block_write parent_inum parent

-- What FUSE and the clock tell: the caller and the time.
pub record Context : Type 0 where
  pub caller_uid : ℕ
  pub caller_gid : ℕ
  pub now : ℕ

-- A new inode: `kind` is the bit for a file or a directory. Its other fields are what the local
-- variable held.
unfoldable pub new_inode : Block → Context → ℕ → ℕ → ℕ → Block
new_inode stack ctx permissions kind bytes =
    let owned = set_u16 (set_u16 stack 0 (ctx.caller_uid)) 2 (ctx.caller_gid) in
    let moded = set_u32 owned 4 (bit_or (bit_and 0xfff permissions) kind) in
    let sized = set_u32 moded 16 bytes in set_u32 (set_u32 sized 8 (ctx.now)) 12 (ctx.now)

-- `stack` is what the uninitialised `new_file` holds. The number that `alloc_blk` returns is used
-- without a test.
unfoldable pub fs_create : Block → Context → Text → ℕ → M (Unit {0})
fs_create stack ctx path permissions = do
  (name, parent_inum, parent) ← before_new path
  found ← call alloc_blk
  block_write (pattern_of found) (new_inode stack ctx permissions (2 ^ 15) 0)
  add_entry name (pattern_of found) parent_inum parent

unfoldable pub fs_mkdir : Block → Context → Text → ℕ → M (Unit {0})
fs_mkdir stack ctx path permissions = do
  (name, parent_inum, parent) ← before_new path
  found ← call alloc_blk
  entries ← call alloc_blk
  block_write (pattern_of entries) zero_block
  block_write (pattern_of found)
      (set_ptr (new_inode stack ctx permissions (2 ^ 14) 4096) 0 (pattern_of entries))
  add_entry name (pattern_of found) parent_inum parent

abbrev pub same_name : Text → Text → Bool
same_name [] [] = true
same_name [] (d ∷ t) = false
same_name (c ∷ s) [] = false
same_name (c ∷ s) (d ∷ t) = (c == d) && same_name s t

-- Every token but the last is the same in both lists, which are equally long.
unfoldable pub same_parents : List Text → List Text → Bool
same_parents (s ∷ s' ∷ src) (d ∷ dst) = same_name s d && same_parents (s' ∷ src) dst
same_parents src dst = true

-- The loop of `fs_rename`: the entry that was found gets its new name; if there is none, nothing
-- changes.
unfoldable pub rename_entry : Option ℕ → Text → Block → M Block
rename_entry none name dirs = pure dirs
rename_entry (some k) name dirs = copy_name name k dirs

-- `if (inode_num1 <= 0) { if (inode_num1 == -ENOTDIR) return -EINVAL; return -ENOENT; }`
unfoldable pub existing_source : Code → M ℕ
existing_source (nat zero) = fail enoent
existing_source (nat (suc n)) = pure (suc n)
existing_source (err enotdir) = fail einval
existing_source (err _) = fail enoent

-- A write, and an early return if its result is not 0.
abbrev pub unless_written : Errno → Outcome (Unit {0}) → Outcome (Unit {0})
unless_written e (done u d) = done u d
unless_written e (failed x d) = failed e d
unless_written e (aborted d) = aborted d
unless_written e fault = fault

abbrev pub checked_write : Errno → ℕ → Block → M (Unit {0})
checked_write e lba b d = unless_written e (block_write lba b d)

-- The last part of `fs_rename`, in the directory that both paths name.
unfoldable pub rename_in : Text → List Text → List Text → M (Unit {0})
rename_in path src dst = do
  found ← call (path2inum (parent_of path src))
  inum ← nonnegative einval found
  read ← block_read inum
  parent ← or_fail einval read
  read ← block_read (ptr parent 0)
  dirs ← or_fail einval read
  old ← last_token src
  new ← last_token dst
  renamed ← rename_entry (find old dirs) new dirs
  checked_write einval (ptr parent 0) renamed

unfoldable pub fs_rename : Text → Text → M (Unit {0})
fs_rename src_path dst_path = do
  found ← call (path2inum src_path)
  _ ← existing_source found
  found ← call (path2inum dst_path)
  fail_if (is_positive found) eexist
  src ← split_path src_path
  dst ← split_path dst_path
  fail_if (not (length dst == length src)) einval
  fail_if (not (same_parents src dst)) einval
  rename_in src_path src dst
