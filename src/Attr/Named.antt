-- ===== src/Attr/Named.antt =====
-- The inode that a path names, as the calls on attributes and contents get it.
use unix_like_file_system.Base.{ℕ, zero, suc, ◌<◌, ◌≡◌, refl, arith}
use unix_like_file_system.Block.{Block}
use unix_like_file_system.Disk.{
  Disk, Errno, enoent, enotdir, done, failed, Code, nat, err, eio, eexist, eisdir, einval, enospc,
  enotempty, eopnotsupp,
}
use unix_like_file_system.Disk.Reads
use unix_like_file_system.Disk.Reads.{
  Reads, gives, fails, faults, call-Reads, block_read-Reads, OfCode, Holds, block_read-Holds,
}
use unix_like_file_system.Path.{Text}
use unix_like_file_system.Lookup.{path2inum}
use unix_like_file_system.Lookup.Resolves.{or_fail-Reads}
use unix_like_file_system.Lookup.Paths.{path2inum-Reads}
use unix_like_file_system.Attr.{existing, inode_of}

-- The path leads to inode `n`, which is `inode`.
pub record Named (d : Disk) (path : Text) (n : ℕ) (inode : Block) : Type 0 where
  pub found : path2inum path d ≡ done n d
  pub positive : 0 < n
  pub holds : Holds d n inode

existing-pos : (n : ℕ) (d : Disk) → 0 < n → existing (nat n) d ≡ done n d
unfolding existing
existing-pos zero d h = absurd (omega arith)
existing-pos (suc n) d h = refl

pub inode_of-done :
    {d : Disk} {path : Text} {n : ℕ} {inode : Block} (e : Errno)
    → Named d path n inode
    → inode_of path e d ≡ done (n, inode) d
unfolding inode_of
inode_of-done {d} {n} e named =
    rw (named.found, existing-pos n d named.positive, block_read-Holds named.holds)

-- The error of a path that leads nowhere: -ENOTDIR is passed on, all others become -ENOENT.
abbrev pub passed_on : Errno → Errno
passed_on enotdir = enotdir
passed_on _ = enoent

pub existing-err : (e : Errno) (d : Disk) → existing (err e) d ≡ failed (passed_on e) d
unfolding existing
existing-err enoent d = refl
existing-err eio d = refl
existing-err eexist d = refl
existing-err enotdir d = refl
existing-err eisdir d = refl
existing-err einval d = refl
existing-err enospc d = refl
existing-err enotempty d = refl
existing-err eopnotsupp d = refl

pub inode_of-failed :
    {d : Disk} (path : Text) {e : Errno} (e' : Errno)
    → path2inum path d ≡ failed e d
    → inode_of path e' d ≡ failed (passed_on e) d
unfolding inode_of
inode_of-failed {d} path {e} e' h = rw (h, existing-err e d)

inode_of-Reads : (path : Text) (e : Errno) (d : Disk) → Reads d (λ r. Unit {0}) (inode_of path e d)
unfolding inode_of
inode_of-Reads path e d = Reads.bind _ (call-Reads (path2inum-Reads path d)) λ found _.
    Reads.bind _ (existing-Reads found) λ inum _.
      Reads.bind _ (block_read-Reads d inum)
        λ read _. Reads.bind _ (or_fail-Reads d e read) λ inode _. gives tt
  where
    existing-Reads : (i : Code) → Reads d (λ r. Unit {0}) (existing i d)
    existing-Reads (nat zero) = unfold existing in fails
    existing-Reads (nat (suc n)) = unfold existing in gives tt
    existing-Reads (err e) = rw (existing-err e d) fails
