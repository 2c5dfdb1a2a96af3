-- ===== src/Tree/Looks.antt =====
-- How the lookup of a path ends in a consistent image.
use unix_like_file_system.Base.{ℕ, ◌≡◌, refl, List, [], ◌∷◌, ◌++◌, arith}
use unix_like_file_system.Disk.{Disk, Outcome, Errno, done, failed, aborted, fault}
use unix_like_file_system.Disk.Finds.{Finds, gets, lacks}
use unix_like_file_system.Path.{Text, slash}
use unix_like_file_system.Path.Tokens.{slashed}
use unix_like_file_system.Lookup.{path2inum}
use unix_like_file_system.Lookup.Missing.{not_last}
use unix_like_file_system.Lookup.Paths.{Fits, path2inum-from_root, path2inum-slash}
use unix_like_file_system.Attr.Named.{Named}
use unix_like_file_system.Tree.{Role, IsInode, Marked, IsTree}
use unix_like_file_system.Tree.Find.{root-IsInode, root_holds, inode-Marked, Marked-Holds}
use unix_like_file_system.Tree.Walk.{from_root-Finds}

-- The paths that FUSE passes: "/", or names with a slash in front of each.
pub data IsNormal : Text → Type 0 where
  top : IsNormal (slash ∷ [])
  below :
      (names : List Text) (name : Text)
      → Fits (names ++ name ∷ [])
      → IsNormal (slashed (names ++ name ∷ []))

-- The path leads to an inode, or to an error.
pub data Looks (d : Disk) (role : ℕ → Role) (path : Text) : Type 0 where
  leads : (n : ℕ) → Named d path n (d.block n) → IsInode (role n) → Marked d n → Looks d role path
  misses : (e : Errno) → path2inum path d ≡ failed e d → Looks d role path

module _ {d : Disk} {role : ℕ → Role} (t : IsTree d role) where
  path2inum-Finds :
      {path : Text} → IsNormal path → Finds d (λ n. IsInode (role n)) (path2inum path d)
  path2inum-Finds top = rw (path2inum-slash d) (gets (root-IsInode t))
  path2inum-Finds (below names name fits) =
      rw (path2inum-from_root d (root_holds t) (names ++ name ∷ []) fits (not_last names name))
        (from_root-Finds d t (names ++ name ∷ []))

  pub path-Looks : {path : Text} → IsNormal path → Looks d role path
  path-Looks {path} normal = ending (path2inum path d) refl (path2inum-Finds normal)
    where
      ending :
          (r : Outcome ℕ)
          → path2inum path d ≡ r
          → Finds d (λ n. IsInode (role n)) r
          → Looks d role path
      ending (done n g) found (gets is) =
          let m = inode-Marked t n is in
          leads n
            (record { found = found; positive = omega (arith, m.range); holds = Marked-Holds t m })
            is m
      ending (failed e g) found lacks = misses e found
      ending (aborted g) found h = elim h [ ]
      ending fault found h = elim h [ ]
