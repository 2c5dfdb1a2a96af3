-- ===== src/Attr/Stats.antt =====
-- `fs_getattr`: the attributes of the inode that a path names.
use unix_like_file_system.Base.{
  ℕ, ◌+◌, ◌-◌, ◌*◌, ◌^◌, ◌≤◌, ◌<◌, ◌≡◌, refl, inl, inr, Bool-cases, Bool, true, false, not, ◌&&◌,
  arith,
}
use unix_like_file_system.Base.Int.{ℤ, pos, int32}
use unix_like_file_system.Block.{Block, block_size}
use unix_like_file_system.Disk.{Disk, Outcome, done, failed, Errno, enoent}
use unix_like_file_system.Inode.{mode, uid, gid, ctime, mtime, size, is_dir, size_overflows}
use unix_like_file_system.Path.{Text}
use unix_like_file_system.Lookup.{path2inum}
use unix_like_file_system.Attr.{Stat, inode2stat, div_round_up, fs_getattr}
use unix_like_file_system.Attr.Named.{Named, inode_of-done, inode_of-failed, passed_on}

-- The number of blocks is the least that hold the bytes; a directory counts one.
abbrev pub HoldsBytes : ℕ → ℤ → Type 0
HoldsBytes bytes (pos blocks) =
    (bytes ≤ blocks * block_size) × (blocks * block_size < bytes + block_size)
HoldsBytes bytes _ = ⊥

abbrev pub CountsBlocks : Bool → ℕ → ℤ → Type 0
CountsBlocks true bytes n = n ≡ pos 1
CountsBlocks false bytes n = HoldsBytes bytes n

-- The attributes that belong to an inode with its number.
pub record Describes (n : ℕ) (inode : Block) (s : Stat) : Type 0 where
  pub number : s.ino ≡ n
  pub kind : s.st_mode ≡ mode inode
  pub owner : (s.st_uid ≡ uid inode) × (s.st_gid ≡ gid inode)
  pub one_link : s.nlink ≡ 1
  pub bytes : s.st_size ≡ pos (size inode)
  pub blocks : CountsBlocks (is_dir inode) (size inode) s.st_blocks
  pub times : (s.atime ≡ ctime inode) × (s.st_mtime ≡ mtime inode) × (s.st_ctime ≡ ctime inode)

abbrev pub Answers : Disk → ℕ → Block → Outcome Stat → Type 0
Answers d n inode (done s g) = (g ≡ d) × Describes n inode s
Answers d n inode _ = ⊥

-- For a path to an inode of fewer than 2 GiB - 4 KiB, `fs_getattr` returns the inode's number and
-- fields, with the least number of blocks that hold a file's bytes and one block for a directory;
-- the access time is the creation time. The image stays as it was.
pub fs_getattr-Answers :
    (d : Disk) (path : Text) (n : ℕ) (inode : Block)
    → Named d path n inode
    → size inode < 2 ^ 31 - block_size
    → Answers d n inode (fs_getattr path d)
unfolding fs_getattr inode2stat int32 div_round_up
fs_getattr-Answers d path n inode named small =
    let sane : (not (is_dir inode) && size_overflows inode) ≡ false = ground arith in
    rw (inode_of-done enoent named, sane)
      (
        refl,
        record {
          number = refl;
          kind = refl;
          owner = (refl, refl);
          one_link = refl;
          bytes = ground arith;
          blocks = elim (Bool-cases (is_dir inode)) [
            | inl e ↦ rw e refl
            | inr e ↦ rw e (ground arith)
          ];
          times = (refl, refl, refl);
        },
      )

-- Where the path's translation fails, `fs_getattr` returns -ENOTDIR if that was the error and
-- -ENOENT for every other error, and the image stays as it was.
fs_getattr-failed :
    (d : Disk) (path : Text) (e : Errno)
    → path2inum path d ≡ failed e d
    → fs_getattr path d ≡ failed (passed_on e) d
unfolding fs_getattr
fs_getattr-failed d path e h = rw (inode_of-failed path enoent h)
