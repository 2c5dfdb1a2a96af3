-- ===== src/Attr.antt =====
-- fs5600.c, the calls that look at or change attributes: `inode2stat`, `fs_init`, `fs_statfs`,
-- `fs_getattr`, `fs_readdir`, `fs_chmod` and `fs_utime`.
pub mod Named
pub mod Stats
pub mod Mode
pub mod Count
pub mod Texts
pub mod Shown
pub mod Listing
use unix_like_file_system.Base.{
  ℕ, zero, suc, ◌+◌, ◌-◌, ◌/◌, ◌%◌, ◌^◌, bit_and, bit_or, not, ◌&&◌, Option, none, some, List, [],
  ◌∷◌, ◌++◌, ltb, ◌==◌, if◌then◌else◌,
}
use unix_like_file_system.Base.Int.{ℤ, pos, negsuc, int32}
use unix_like_file_system.Block.{Block, block_size, byte, get_u32, set_u32}
use unix_like_file_system.Disk.{
  M, Code, nat, err, Errno, enoent, enotdir, eisdir, eopnotsupp, pure, fail, ◌>>=◌, ◌>>◌, call,
  fail_if, undefined, undefined_if, block_read, block_write, read_unchecked,
}
use unix_like_file_system.Bitmap.{map_bits, bit_test}
use unix_like_file_system.Inode.{
  uid, gid, mode, ctime, mtime, size, ptr, is_dir, size_overflows, num_dirents, name_size, valid,
  entry_inode, name_at,
}
use unix_like_file_system.Path.{Text}
use unix_like_file_system.Lookup.{path2inum, or_fail}

-- The fields of `struct stat` that the code sets; the others are 0.
pub record Stat : Type 0 where
  pub ino : ℕ
  pub st_mode : ℕ
  pub nlink : ℕ
  pub st_uid : ℕ
  pub st_gid : ℕ
  pub st_size : ℤ
  pub st_blocks : ℤ
  pub atime : ℕ
  pub st_mtime : ℕ
  pub st_ctime : ℕ

-- `DIV_ROUND_UP(in->size, FS_BLOCK_SIZE)`: int division, which rounds towards 0.
unfoldable pub div_round_up : ℕ → ℤ
div_round_up w =
    if ltb w (2 ^ 31)
    then pos ((w + block_size - 1) / block_size)
    else let below = (2 ^ 32 - w - (block_size - 1)) / block_size in
      if below == 0 then pos 0 else negsuc (below - 1)

unfoldable pub inode2stat : Block → ℕ → M Stat
inode2stat inode inum = do
  undefined_if (not (is_dir inode) && size_overflows inode)
  pure (record {
    ino = inum;
    st_mode = mode inode;
    nlink = 1;
    st_uid = uid inode;
    st_gid = gid inode;
    st_size = int32 (size inode);
    st_blocks = if is_dir inode then pos 1 else div_round_up (size inode);
    atime = ctime inode;
    st_mtime = mtime inode;
    st_ctime = ctime inode;
  })

abbrev pub fs_magic : ℕ
fs_magic = 0x30303635

pub data Start : Type 0 where
  mounted exits : Start

abbrev pub check_magic : Option Block → Start
check_magic none = exits
check_magic (some b) = if get_u32 b 0 == fs_magic then mounted else exits

unfoldable pub fs_init : M Start
fs_init = do read ← block_read 0; pure (check_magic read)

-- The fields of `struct statvfs` that the code sets.
pub record StatVfs : Type 0 where
  pub bsize : ℕ
  pub namemax : ℕ
  pub f_blocks : ℕ
  pub bfree : ℕ
  pub bavail : ℕ

-- The loop of `fs_statfs`, from bit `i` with `used` counted so far.
unfoldable pub count_used : ℕ → ℕ → Block → ℕ → ℕ
count_used zero i map used = used
count_used (suc rounds) i map used =
    count_used rounds (i + 1) map (if bit_test map i then (used + 1) % 2 ^ 32 else used)

-- `disk_size - 2` is an unsigned int, the two counts are 64 bits wide.
unfoldable pub fs_statfs : M StatVfs
fs_statfs = do
  read ← block_read 0
  super ← or_fail eopnotsupp read
  read ← block_read 1
  map ← or_fail eopnotsupp read
  let f_blocks = (get_u32 super 4 + 2 ^ 32 - 2) % 2 ^ 32
  let bfree = (f_blocks + 2 ^ 64 - count_used (map_bits - 2) 2 map 0) % 2 ^ 64
  pure (record {
    bsize = block_size;
    namemax = 27;
    f_blocks = f_blocks;
    bfree = bfree;
    bavail = bfree;
  })

-- `if (inode_num <= 0) { if (inode_num == -ENOTDIR) return -ENOTDIR; return -ENOENT; }`
unfoldable pub existing : Code → M ℕ
existing (nat zero) = fail enoent
existing (nat (suc n)) = pure (suc n)
existing (err enotdir) = fail enotdir
existing (err _) = fail enoent

-- The number and the inode of a path, as four of the calls get them; `e` is returned where the
-- inode cannot be read.
unfoldable pub inode_of : Text → Errno → M (ℕ × Block)
inode_of path e = do
  found ← call (path2inum path)
  inum ← existing found
  read ← block_read inum
  inode ← or_fail e read
  pure (inum, inode)

unfoldable pub fs_getattr : Text → M Stat
fs_getattr path = do (inum, inode) ← inode_of path enoent; inode2stat inode inum

-- The text at an offset, of fewer than `room` bytes.
unfoldable pub text_at : ℕ → ℕ → Block → Option Text
text_at zero o b = none
text_at (suc room) o b =
    let rest = text_at room (o + 1) b in
    if byte b o == 0 then some [] else elim rest [ none ↦ none | some t ↦ some (byte b o ∷ t) ]

-- A name without a NUL is read past its array.
abbrev pub or_undefined : {A : Type 0} → Option A → M A
or_undefined none = undefined
or_undefined (some a) = pure a

abbrev pub Listing : Type 0
Listing = List (Text × Stat)

-- The entry `k` of a directory: what `filler` is called with, or nothing.
unfoldable pub list_entry : Block → ℕ → Option Block → M Listing
list_entry dirs k none = pure []
list_entry dirs k (some inode) = do
  stat ← inode2stat inode (entry_inode dirs k)
  name ← or_undefined (text_at name_size (name_at k) dirs)
  pure ((name, stat) ∷ [])

unfoldable pub visit_entry : Block → ℕ → M Listing
visit_entry dirs k =
    if valid dirs k
    then (do read ← block_read (entry_inode dirs k); list_entry dirs k read)
    else pure []

-- The loop over the entries from `k` on: the arguments of the calls of `filler`, in order.
unfoldable pub list_from : ℕ → ℕ → Block → M Listing
list_from zero k dirs = pure []
list_from (suc rounds) k dirs = do
  here ← visit_entry dirs k
  rest ← list_from rounds (k + 1) dirs
  pure (here ++ rest)

-- `if (inode_num <= 0) return -ENOENT;`
unfoldable pub existing_or_enoent : Code → M ℕ
existing_or_enoent (nat zero) = fail enoent
existing_or_enoent (nat (suc n)) = pure (suc n)
existing_or_enoent (err _) = fail enoent

unfoldable pub fs_readdir : Text → M Listing
fs_readdir path = do
  found ← call (path2inum path)
  inum ← existing_or_enoent found
  read ← block_read inum
  inode ← or_fail enotdir read
  fail_if (not (is_dir inode)) enotdir
  read ← block_read (ptr inode 0)
  dirs ← or_fail enoent read
  list_from num_dirents 0 dirs

-- `if (inode_num < 0) return -ENOENT;`
abbrev pub nonnegative : Errno → Code → M ℕ
nonnegative e (nat n) = pure n
nonnegative e (err _) = fail e

-- The permission bits of `permissions` replace those of a mode.
unfoldable pub with_permissions : ℕ → ℕ → ℕ
with_permissions m permissions = bit_or (bit_and m 0xfffff000) (bit_and 0xfff permissions)

unfoldable pub fs_chmod : Text → ℕ → M (Unit {0})
fs_chmod path permissions = do
  found ← call (path2inum path)
  inum ← nonnegative enoent found
  inode ← read_unchecked inum
  block_write inum (set_u32 inode 4 (with_permissions (mode inode) permissions))

-- `modtime` is none for a null `ut`; `now` is what `time(NULL)` returns.
abbrev pub time_of : ℕ → Option ℕ → ℕ
time_of now none = now
time_of now (some modtime) = modtime

unfoldable pub fs_utime : ℕ → Text → Option ℕ → M (Unit {0})
fs_utime now path modtime = do
  (inum, inode) ← inode_of path eopnotsupp
  fail_if (is_dir inode) eisdir
  block_write inum (set_u32 inode 12 (time_of now modtime % 2 ^ 32))
