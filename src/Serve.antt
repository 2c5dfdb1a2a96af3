-- ===== src/Serve.antt =====
-- fs5600.c, `fs_ops`: the calls that FUSE makes, as requests that one function serves.
pub mod Preserves
pub mod Reading
pub mod Calls
pub mod History
use unix_like_file_system.Base.{ℕ, Bool, Option}
use unix_like_file_system.Block.{Block}
use unix_like_file_system.Disk.{M, pure, ◌>>=◌}
use unix_like_file_system.Path.{Text}
use unix_like_file_system.Attr.{
  Stat, StatVfs, Listing, fs_statfs, fs_getattr, fs_readdir, fs_chmod, fs_utime,
}
use unix_like_file_system.Content.{Buffer, fs_read, fs_write, fs_truncate}
use unix_like_file_system.Entry.{Context, fs_create, fs_mkdir, fs_rename}
use unix_like_file_system.Remove.{fs_unlink, fs_rmdir}

-- The members of `fs_ops` but `init`, with the arguments that the code looks at. `truncate` has the
-- test of its length.
pub data Request : Type 0 where
  statfs : Request
  getattr : Text → Request
  readdir : Text → Request
  read : Text → Buffer → ℕ → ℕ → Request
  rename : Text → Text → Request
  chmod : Text → ℕ → Request
  create : Text → ℕ → Request
  mkdir : Text → ℕ → Request
  unlink : Text → Request
  rmdir : Text → Request
  write : Text → Buffer → ℕ → ℕ → Request
  truncate : Text → Bool → Request
  utime : Text → Option ℕ → Request

-- What a call that succeeds hands back.
pub data Reply : Type 0 where
  finished : Reply
  figures : StatVfs → Reply
  attributes : Stat → Reply
  entries : Listing → Reply
  bytes : ℕ → Buffer → Reply
  count : ℕ → Reply

-- `stack` is what the local variables hold that the call does not fill.
unfoldable pub serve : Block → Context → Request → M Reply
serve stack ctx statfs = do st ← fs_statfs; pure (figures st)
serve stack ctx (getattr path) = do sb ← fs_getattr path; pure (attributes sb)
serve stack ctx (readdir path) = do list ← fs_readdir path; pure (entries list)
serve stack ctx (read path buf len offset) = do
  (n, out) ← fs_read stack path buf len offset
  pure (bytes n out)
serve stack ctx (rename src dst) = do _ ← fs_rename src dst; pure finished
serve stack ctx (chmod path mode) = do _ ← fs_chmod path mode; pure finished
serve stack ctx (create path mode) = do _ ← fs_create stack ctx path mode; pure finished
serve stack ctx (mkdir path mode) = do _ ← fs_mkdir stack ctx path mode; pure finished
serve stack ctx (unlink path) = do _ ← fs_unlink (ctx.now) path; pure finished
serve stack ctx (rmdir path) = do _ ← fs_rmdir (ctx.now) path; pure finished
serve stack ctx (write path buf len offset) = do
  n ← fs_write (ctx.now) stack path buf len offset
  pure (count n)
serve stack ctx (truncate path len_is_zero) = do _ ← fs_truncate path len_is_zero; pure finished
serve stack ctx (utime path modtime) = do _ ← fs_utime (ctx.now) path modtime; pure finished
