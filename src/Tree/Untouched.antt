-- ===== src/Tree/Untouched.antt =====
-- Calls that do not change what a file holds, and reading that file.
use unix_like_file_system.Base.{
  ◌⊎◌, ◌/◌, Bool, true, Option, ℕ, ◌+◌, ◌^◌, ◌<◌, ◌≡◌, ◌≢◌, refl, sym, ap, ◌∙◌, inl, inr, false,
  List, [], ◌∷◌, ◌++◌, arith, Bool-cases,
}
use unix_like_file_system.Inode.{mode, ptr, is_dir}
use unix_like_file_system.Tree.{Marked, Role, IsInode, IsTree}
use unix_like_file_system.Tree.Find.{inode-Marked, content-Marked}
use unix_like_file_system.Tree.Looks.{below, IsNormal, leads, misses, path-Looks}
use unix_like_file_system.Tree.Files.{found-IsInode, SameRead}
use unix_like_file_system.Tree.Fields.{Rewrites-Carries, Rewrites-Alike}
use unix_like_file_system.Attr.{fs_chmod, inode_of, fs_utime}
use unix_like_file_system.Attr.Mode.{fs_chmod-Writes, Writes, fs_utime-Writes_field}
use mathlib.Core.Path.{subst}
use unix_like_file_system.Block.{Block}
use unix_like_file_system.Disk.{Disk, Outcome, done, failed, aborted, fault, eopnotsupp}
use unix_like_file_system.Path.{Text}
use unix_like_file_system.Path.Tokens.{slashed}
use unix_like_file_system.Lookup.{path2inum}
use unix_like_file_system.Lookup.Paths.{Fits}
use unix_like_file_system.Attr.Named.{Named, inode_of-done, inode_of-failed}
use unix_like_file_system.Content.{Buffer, fs_read, fs_write, fs_truncate}
use unix_like_file_system.Content.Save.{Saves}
use unix_like_file_system.Tree.Write.{fs_write-cases}
use unix_like_file_system.Tree.Spares.{Saved-Spares, Unsaved-Spares, Truncated-Spares}
use unix_like_file_system.Tree.Truncate.{truncated}
use unix_like_file_system.Content.Free.{Truncates}
use unix_like_file_system.Tree.Spared.{KeepsFile, spared_file, carried_file, spared_self}

-- The path to the file `m`, and what is read of it.
module _ {d : Disk} {role : ℕ → Role} (t : IsTree d role) (names : List Text) (name : Text) {m : ℕ}
    (fits : Fits (names ++ name ∷ []))
    (found : path2inum (slashed (names ++ name ∷ [])) d ≡ done m d)
    (file : is_dir (d.block m) ≡ false) (stack : Block) (out : Buffer) (len offset : ℕ) where
  abbrev path : Text
  path = slashed (names ++ name ∷ [])

  pub own :
      (path2inum path d ≡ done m d)
      × SameRead (fs_read stack path out len offset d) (fs_read stack path out len offset d)
  own = spared_self t names name fits found file stack out len offset

  Saves-KeepsFile :
      {n : ℕ} (buf : Buffer) (offset' len' now : ℕ) (r : Outcome ℕ)
      → IsInode (role n)
      → is_dir (d.block n) ≡ false
      → m ≢ n
      → Saves d n (d.block n) buf offset' len' now r
      → KeepsFile stack path m out len offset d r
  Saves-KeepsFile buf offset' len' now (done k g) is' file' ne (count, saved) =
      spared_file t names name fits found file stack out len offset is' file' ne
        (Saved-Spares t is' file' saved)
  Saves-KeepsFile buf offset' len' now (failed e g) is' file' ne h = absurd h
  Saves-KeepsFile buf offset' len' now (aborted g) is' file' ne (full, left) =
      spared_file t names name fits found file stack out len offset is' file' ne
        (Unsaved-Spares t is' file' left)
  Saves-KeepsFile buf offset' len' now fault is' file' ne h = absurd h

  -- An inode that another path leads to.
  other_file :
      {other : Text} {n : ℕ} {b : Block} → Named d other n b → path2inum other d ≢ done m d → m ≢ n
  other_file named' elsewhere e = elsewhere (named'.found ∙ ap (λ k. done k d) (sym e))

  pub fs_write-KeepsFile :
      {other : Text} (stack' : Block) (buf : Buffer) (len' offset' now : ℕ)
      → IsNormal other
      → offset' + len' < 2 ^ 64
      → path2inum other d ≢ done m d
      → KeepsFile stack path m out len offset d (fs_write now stack' other buf len' offset' d)
  fs_write-KeepsFile {other} stack' buf len' offset' now normal sane elsewhere =
      elim (fs_write-cases t now stack' buf len' offset' normal sane) [
        | inl (inl same) ↦ rw same own
        | inl (inr (e, same)) ↦ rw same own
        | inr (n, named', is', file', saves) ↦
            Saves-KeepsFile buf offset' len' now _ is' file' (other_file named' elsewhere) saves
      ]

  Truncates-KeepsFile :
      {n : ℕ} (gone : ℕ → Bool) (r : Outcome (Unit {0}))
      → IsInode (role n)
      → is_dir (d.block n) ≡ false
      → m ≢ n
      → Truncates d n gone (d.block n) r
      → KeepsFile stack path m out len offset d r
  Truncates-KeepsFile gone (done u g) is' file' ne h =
      spared_file t names name fits found file stack out len offset is' file' ne
        (Truncated-Spares t is' file' h)
  Truncates-KeepsFile gone (failed e g) is' file' ne h = absurd h
  Truncates-KeepsFile gone (aborted g) is' file' ne h = absurd h
  Truncates-KeepsFile gone fault is' file' ne h = absurd h

  pub fs_truncate-KeepsFile :
      {other : Text} (len_is_zero : Bool)
      → IsNormal other
      → path2inum other d ≢ done m d
      → KeepsFile stack path m out len offset d (fs_truncate other len_is_zero d)
  unfolding fs_truncate inode_of
  fs_truncate-KeepsFile {other} false normal elsewhere = own
  fs_truncate-KeepsFile {other} true normal elsewhere = elim (path-Looks t normal) [
    | leads n named' is' m' ↦ elim (Bool-cases (is_dir (d.block n))) [
      | inl directory ↦ rw (inode_of-done eopnotsupp named', directory) own
      | inr file' ↦
          Truncates-KeepsFile _ _ is' file' (other_file named' elsewhere)
            (truncated t is' file' named')
    ]
    | misses e found' ↦ rw (inode_of-failed other eopnotsupp found') own
  ]

  -- Four bytes of an inode are written, of this file's or another's: the time, or permissions.
  Writes-KeepsFile :
      (n o v : ℕ) (r : Outcome (Unit {0}))
      → IsInode (role n)
      → Marked d n
      → (o ≡ 12) ⊎ ((o ≡ 4) × (v / 2 ^ 12 ≡ mode (d.block n) / 2 ^ 12))
      → Writes d n (d.block n) o v r
      → KeepsFile stack path m out len offset d r
  Writes-KeepsFile n o v (done u g) is' m' field h =
      carried_file t names name fits found file stack out len offset
        (Rewrites-Carries t is' m' h field)
        (Rewrites-Alike t is' m' h field m
          (inode-Marked t m (found-IsInode t (below names name fits) found)))
        (λ b mine.
          h.same_files (ptr (d.block m) b) (λ e. subst IsInode (ap role (sym e) ∙ mine) is')
            (content-Marked t mine).inside)
  Writes-KeepsFile n o v (failed e g) is' m' field h = absurd h
  Writes-KeepsFile n o v (aborted g) is' m' field h = absurd h
  Writes-KeepsFile n o v fault is' m' field h = absurd h

  pub fs_utime-KeepsFile :
      {other : Text} (now : ℕ) (modtime : Option ℕ)
      → IsNormal other
      → KeepsFile stack path m out len offset d (fs_utime now other modtime d)
  unfolding fs_utime inode_of
  fs_utime-KeepsFile {other} now modtime normal = elim (path-Looks t normal) [
    | leads n named' is' m' ↦ elim (Bool-cases (is_dir (d.block n))) [
      | inl directory ↦ rw (inode_of-done eopnotsupp named', directory) own
      | inr file' ↦
          Writes-KeepsFile n _ _ _ is' m' (inl refl)
            (fs_utime-Writes_field named' (omega (arith, m'.range)) now modtime file')
    ]
    | misses e found' ↦ rw (inode_of-failed other eopnotsupp found') own
  ]

  pub fs_chmod-KeepsFile :
      {other : Text} (permissions : ℕ)
      → IsNormal other
      → KeepsFile stack path m out len offset d (fs_chmod other permissions d)
  unfolding fs_chmod
  fs_chmod-KeepsFile {other} permissions normal = elim (path-Looks t normal) [
    | leads n named' is' m' ↦
        Writes-KeepsFile n _ _ _ is' m' (inr (refl, omega arith))
          (fs_chmod-Writes named' (omega (arith, m'.range)) permissions)
    | misses e found' ↦ rw found' own
  ]
