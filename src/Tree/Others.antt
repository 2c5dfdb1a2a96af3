-- ===== src/Tree/Others.antt =====
-- Requests that do not change what a file holds, and reading that file.
use unix_like_file_system.Base.{true, some, ℕ, ◌≡◌, ◌≢◌, refl, sym, false, List, [], ◌∷◌, ◌++◌}
use unix_like_file_system.Inode.{mode, is_dir}
use unix_like_file_system.Tree.{Role, IsTree, Consistent, Keeps}
use unix_like_file_system.Tree.Files.{SameRead}
use mathlib.Core.Path.{subst}
use unix_like_file_system.Block.{Block}
use unix_like_file_system.Disk.{Disk, Outcome, done, failed, aborted, fault, M, and_then}
use unix_like_file_system.Path.{Text}
use unix_like_file_system.Path.Tokens.{slashed}
use unix_like_file_system.Lookup.{path2inum}
use unix_like_file_system.Lookup.Paths.{Fits}
use unix_like_file_system.Content.{Buffer, fs_read}
use unix_like_file_system.Tree.Requests.{Session, Session-Consistent, IsProper, serve-Keeps}
use unix_like_file_system.Tree.Change.{unchanged}
use unix_like_file_system.Entry.{Context}
use unix_like_file_system.Serve.{
  Request, serve, statfs, getattr, readdir, read, rename, chmod, create, mkdir, unlink, rmdir,
  write, truncate, utime,
}
use unix_like_file_system.Serve.History.{image_of, is_query, query_unchanged}
use unix_like_file_system.Tree.Spared.{KeepsFile}
use unix_like_file_system.Tree.Untouched.{
  own, fs_write-KeepsFile, fs_truncate-KeepsFile, fs_utime-KeepsFile, fs_chmod-KeepsFile,
}

-- The request only asks, or sets a mode or a time, or it writes or truncates at a path that does not
-- lead to inode `m`.
abbrev pub Elsewhere : Disk → ℕ → Request → Type 0
Elsewhere d m statfs = Unit
Elsewhere d m (getattr path) = Unit
Elsewhere d m (readdir path) = Unit
Elsewhere d m (read path buf len offset) = Unit
Elsewhere d m (write path buf len offset) = path2inum path d ≢ done m d
Elsewhere d m (truncate path len_is_zero) = path2inum path d ≢ done m d
Elsewhere d m (utime path modtime) = Unit
Elsewhere d m (chmod path mode) = Unit
Elsewhere d m _ = ⊥

-- The path to the file `m`, and what is read of it.
module _ {d : Disk} {role : ℕ → Role} (t : IsTree d role) (names : List Text) (name : Text) {m : ℕ}
    (fits : Fits (names ++ name ∷ []))
    (found : path2inum (slashed (names ++ name ∷ [])) d ≡ done m d)
    (file : is_dir (d.block m) ≡ false) (stack : Block) (out : Buffer) (len offset : ℕ) where
  abbrev path : Text
  path = slashed (names ++ name ∷ [])

  same_image :
      {g : Disk}
      → g ≡ d
      → (path2inum path g ≡ done m g)
        × SameRead (fs_read stack path out len offset d) (fs_read stack path out len offset g)
  same_image e =
      subst
        (λ h.
          (path2inum path h ≡ done m h)
          × SameRead (fs_read stack path out len offset d) (fs_read stack path out len offset h))
        (sym e) (own t names name fits found file stack out len offset)

  Unchanged-KeepsFile :
      {A : Type 0} (r : Outcome A)
      → Keeps r
      → ((g : Disk) → image_of r ≡ some g → g ≡ d)
      → KeepsFile stack path m out len offset d r
  Unchanged-KeepsFile (done a g) k same = same_image (same g refl)
  Unchanged-KeepsFile (failed e g) k same = same_image (same g refl)
  Unchanged-KeepsFile (aborted g) k same = same_image (same g refl)
  Unchanged-KeepsFile fault k same = absurd k

  and_then-KeepsFile :
      {A B : Type 0} (r : Outcome A) (k : A → M B)
      → KeepsFile stack path m out len offset d r
      → ((a : A) (g : Disk)
          → KeepsFile stack path m out len offset d (done a g)
          → KeepsFile stack path m out len offset d (k a g))
      → KeepsFile stack path m out len offset d (and_then r k)
  and_then-KeepsFile (done a g) k h next = next a g h
  and_then-KeepsFile (failed e g) k h next = h
  and_then-KeepsFile (aborted g) k h next = h
  and_then-KeepsFile fault k h next = h

  module _ (stack' : Block) (ctx : Context) where
    asked :
        (q : Request)
        → is_query q ≡ true
        → IsProper q
        → KeepsFile stack path m out len offset d (serve stack' ctx q d)
    asked q is proper =
        Unchanged-KeepsFile (serve stack' ctx q d) (serve-Keeps stack' ctx q (unchanged t) proper)
          (λ g e. query_unchanged stack' ctx q d is e)

    serve-KeepsFile :
        (q : Request)
        → IsProper q
        → Elsewhere d m q
        → KeepsFile stack path m out len offset d (serve stack' ctx q d)
    unfolding serve
    serve-KeepsFile statfs proper e = asked statfs refl proper
    serve-KeepsFile (getattr p) proper e = asked (getattr p) refl proper
    serve-KeepsFile (readdir p) proper e = asked (readdir p) refl proper
    serve-KeepsFile (read p buf l o) proper e = asked (read p buf l o) refl proper
    serve-KeepsFile (write p buf l o) (normal, sane) e =
        and_then-KeepsFile _ _
          (fs_write-KeepsFile t names name fits found file stack out len offset stack' buf l o
            ctx.now normal sane e)
          λ a g h. h
    serve-KeepsFile (truncate p b) proper e =
        and_then-KeepsFile _ _
          (fs_truncate-KeepsFile t names name fits found file stack out len offset b proper e)
          λ a g h. h
    serve-KeepsFile (utime p modtime) proper e =
        and_then-KeepsFile _ _
          (fs_utime-KeepsFile t names name fits found file stack out len offset ctx.now modtime
            proper)
          λ a g h. h
    serve-KeepsFile (rename src dst) proper e = absurd e
    serve-KeepsFile (chmod p mode) proper e =
        and_then-KeepsFile _ _
          (fs_chmod-KeepsFile t names name fits found file stack out len offset mode proper)
          λ a g h. h
    serve-KeepsFile (create p mode) proper e = absurd e
    serve-KeepsFile (mkdir p mode) proper e = absurd e
    serve-KeepsFile (unlink p) proper e = absurd e
    serve-KeepsFile (rmdir p) proper e = absurd e

-- After any proper requests to a consistent image, the next one, when it only asks, or sets a mode or
-- a time, or writes or truncates at a path that does not lead to a certain file, leaves what this file
-- holds, however it ends: its path leads to the same inode as before, and `fs_read` of it, anywhere,
-- returns the same number of bytes and the same bytes.
pub Session-KeepsFile :
    {d g : Disk} {m : ℕ} (names : List Text) (name : Text) (stack stack' : Block) (out : Buffer)
    (len offset : ℕ) (ctx : Context) (q : Request)
    → Consistent d
    → Session d g
    → Fits (names ++ name ∷ [])
    → path2inum (slashed (names ++ name ∷ [])) g ≡ done m g
    → is_dir (g.block m) ≡ false
    → IsProper q
    → Elsewhere g m q
    → KeepsFile stack (slashed (names ++ name ∷ [])) m out len offset g (serve stack' ctx q g)
Session-KeepsFile names name stack stack' out len offset ctx q c session fits found file =
    serve-KeepsFile (Session-Consistent c session).is_tree names name fits found file stack out len
      offset stack' ctx q
