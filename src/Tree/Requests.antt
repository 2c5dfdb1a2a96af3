-- ===== src/Tree/Requests.antt =====
-- Requests that are served one after the other, from a consistent image on.
use unix_like_file_system.Base.{
  ℕ, ◌+◌, ◌^◌, ◌≤◌, ◌<◌, ◌≡◌, ◌≢◌, sym, ap, ◌∙◌, false, true, some, List, [], ◌∷◌, ◌++◌, length,
  arith,
}
use mathlib.Core.Path.{subst}
use unix_like_file_system.Block.{Block}
use unix_like_file_system.Disk.{Disk, Outcome, done, failed, aborted, fault, M, and_then}
use unix_like_file_system.Bitmap.Alloc.{in_use}
use unix_like_file_system.Inode.{size, ptr, is_dir, rounds_up}
use unix_like_file_system.Inode.Entries.{IsText}
use unix_like_file_system.Path.{Text}
use unix_like_file_system.Path.Tokens.{slashed}
use unix_like_file_system.Lookup.{path2inum}
use unix_like_file_system.Lookup.Paths.{Fits}
use unix_like_file_system.Entry.{Context}
use unix_like_file_system.Serve.{
  Request, statfs, getattr, readdir, read, rename, chmod, create, mkdir, unlink, rmdir, write,
  truncate, utime, serve,
}
use unix_like_file_system.Serve.History.{image_of}
use unix_like_file_system.Tree.{Role, content, IsInode, IsTree, Consistent, Keeps}
use unix_like_file_system.Tree.Apart.{content_inj}
use unix_like_file_system.Tree.Find.{content-Marked}
use unix_like_file_system.Tree.Looks.{IsNormal, leads, misses, path-Looks}
use unix_like_file_system.Tree.Fields.{fs_chmod-Keeps, fs_utime-Keeps}
use unix_like_file_system.Tree.Rename.{fs_rename-Keeps}
use unix_like_file_system.Tree.Remove.{fs_unlink-Keeps, fs_rmdir-Keeps}
use unix_like_file_system.Tree.Truncate.{fs_truncate-Keeps}
use unix_like_file_system.Tree.Write.{fs_write-Keeps}
use unix_like_file_system.Tree.Create.{fs_create-Keeps}
use unix_like_file_system.Tree.MakeDir.{fs_mkdir-Keeps}
use unix_like_file_system.Tree.Query.{
  Finds-Keeps, fs_statfs-Finds, fs_getattr-Finds, fs_readdir-Finds, fs_read-Finds,
}

-- A path below the root, with something that is asked of its last name.
pub data IsBelow (P : Text → Type 0) : Text → Type 0 where
  under :
      (names : List Text) (name : Text)
      → Fits (names ++ name ∷ [])
      → P name
      → IsBelow P (slashed (names ++ name ∷ []))

abbrev pub IsAny : Text → Type 0
IsAny name = Unit

-- What an entry's array has room for.
abbrev pub IsShort : Text → Type 0
IsShort name = length name ≤ 27

-- The path is "/" or names with a slash in front of each, for which the arrays have room; a call
-- that adds or removes a name does so below the root, and an offset and a length fit a size_t. The
-- new name of a rename fits an entry, which the code does not test.
abbrev pub IsProper : Request → Type 0
IsProper statfs = Unit
IsProper (getattr path) = IsNormal path
IsProper (readdir path) = IsNormal path
IsProper (read path buf len offset) = IsNormal path
IsProper (rename src dst) = IsBelow IsAny src × IsBelow IsShort dst
IsProper (chmod path mode) = IsNormal path
IsProper (create path mode) = IsBelow IsText path
IsProper (mkdir path mode) = IsBelow IsText path
IsProper (unlink path) = IsBelow IsAny path
IsProper (rmdir path) = IsBelow IsAny path
IsProper (write path buf len offset) = IsNormal path × (offset + len < 2 ^ 64)
IsProper (truncate path len_is_zero) = IsNormal path
IsProper (utime path modtime) = IsNormal path

-- A reply is made of what a call returns.
and_then-Keeps :
    {A B : Type 0} (r : Outcome A) (k : A → M B)
    → Keeps r
    → ((a : A) (g : Disk) → Consistent g → Keeps (k a g))
    → Keeps (and_then r k)
and_then-Keeps (done a g) k h next = next a g h
and_then-Keeps (failed e g) k h next = h
and_then-Keeps (aborted g) k h next = h
and_then-Keeps fault k h next = h

module _ {d : Disk} {role : ℕ → Role} (t : IsTree d role) (stack : Block) (ctx : Context) where
  served : (q : Request) → IsProper q → Keeps (serve stack ctx q d)
  unfolding serve
  served statfs proper = and_then-Keeps _ _ (Finds-Keeps t (fs_statfs-Finds t)) λ a g h. h
  served (getattr path) proper =
      and_then-Keeps _ _ (Finds-Keeps t (fs_getattr-Finds t proper)) λ a g h. h
  served (readdir path) proper =
      and_then-Keeps _ _ (Finds-Keeps t (fs_readdir-Finds t proper)) λ a g h. h
  served (read path buf len offset) proper =
      and_then-Keeps _ _ (Finds-Keeps t (fs_read-Finds t stack buf len offset proper)) λ a g h. h
  served (rename src dst) (under names old fits any, under names' new fits' short) =
      and_then-Keeps _ _ (fs_rename-Keeps t names old names' new fits fits' short) λ a g h. h
  served (chmod path mode) proper = and_then-Keeps _ _ (fs_chmod-Keeps t mode proper) λ a g h. h
  served (create path mode) (under names name fits text) =
      and_then-Keeps _ _ (fs_create-Keeps t names name fits text stack ctx mode) λ a g h. h
  served (mkdir path mode) (under names name fits text) =
      and_then-Keeps _ _ (fs_mkdir-Keeps t names name fits text stack ctx mode) λ a g h. h
  served (unlink path) (under names name fits any) =
      and_then-Keeps _ _ (fs_unlink-Keeps t ctx.now names name fits) λ a g h. h
  served (rmdir path) (under names name fits any) =
      and_then-Keeps _ _ (fs_rmdir-Keeps t ctx.now names name fits) λ a g h. h
  served (write path buf len offset) (normal, sane) =
      and_then-Keeps _ _ (fs_write-Keeps t ctx.now stack buf len offset normal sane) λ a g h. h
  served (truncate path len_is_zero) proper =
      and_then-Keeps _ _ (fs_truncate-Keeps t len_is_zero proper) λ a g h. h
  served (utime path modtime) proper =
      and_then-Keeps _ _ (fs_utime-Keeps t ctx.now modtime proper) λ a g h. h

-- In a consistent image, whatever proper request comes: the code does nothing undefined; it returns,
-- with or without an error, or an assertion stops it because no block is free; and the image that it
-- leaves is consistent.
pub serve-Keeps :
    {d : Disk} (stack : Block) (ctx : Context) (q : Request)
    → Consistent d
    → IsProper q
    → Keeps (serve stack ctx q d)
serve-Keeps stack ctx q c proper = served c.is_tree stack ctx q proper

-- From the image `d`, proper requests lead to the image `g`.
pub data Session (d : Disk) : Disk → Type 0 where
  fresh : Session d d
  then_serve :
      {g h : Disk} (stack : Block) (ctx : Context) (q : Request)
      → Session d g
      → IsProper q
      → image_of (serve stack ctx q g) ≡ some h
      → Session d h

Keeps-image_of :
    {A : Type 0} {h : Disk} (r : Outcome A) → Keeps r → image_of r ≡ some h → Consistent h
Keeps-image_of (done a g) c e = subst Consistent (cc) c
Keeps-image_of (failed x g) c e = subst Consistent (cc) c
Keeps-image_of (aborted g) (full, c) e = subst Consistent (cc) c
Keeps-image_of fault c e = absurd c

-- Proper requests, one after the other, lead from a consistent image only to consistent images,
-- whether each returns, fails or is stopped by an assertion.
pub Session-Consistent : {d g : Disk} → Consistent d → Session d g → Consistent g
Session-Consistent c fresh = c
Session-Consistent c (then_serve {g} stack ctx q session proper e) =
    Keeps-image_of (serve stack ctx q g)
      (serve-Keeps stack ctx q (Session-Consistent c session) proper) e

-- The file that a path leads to in a consistent image, and the roles of its blocks.
module _ {d : Disk} {role : ℕ → Role} (t : IsTree d role) where
  its_blocks :
      {path : Text} {n : ℕ}
      → IsNormal path
      → path2inum path d ≡ done n d
      → is_dir (d.block n) ≡ false
      → (i : ℕ) → i < rounds_up (size (d.block n))
      → role (ptr (d.block n) i) ≡ content n i
  its_blocks {path} {n} normal found file i lt = elim (path-Looks t normal) [
    | misses e other ↦ absurd (done≢failed (sym found ∙ other))
    | leads m named is marked ↦
        let same : m ≡ n = value_of (sym named.found ∙ found) in
        (t.node n (subst (λ l. IsInode (role l)) same is)).contents file i lt
  ]
    where
      done≢failed : {e : _} → done n d ≢ failed e d
      done≢failed h = cc

      value_of : {a b : ℕ} → done a d ≡ done b d → a ≡ b
      value_of h = ground arith

-- After any proper requests to a consistent image, the blocks of the files at two paths that lead to
-- different inodes are in use and are not shared.
pub Session-apart :
    {d g : Disk} {p q : Text} {n m : ℕ}
    → Consistent d
    → Session d g
    → IsNormal p
    → IsNormal q
    → path2inum p g ≡ done n g
    → path2inum q g ≡ done m g
    → n ≢ m
    → is_dir (g.block n) ≡ false
    → is_dir (g.block m) ≡ false
    → (i j : ℕ) → i < rounds_up (size (g.block n))
    → j < rounds_up (size (g.block m))
    → (in_use g (ptr (g.block n) i) ≡ true) × (ptr (g.block n) i ≢ ptr (g.block m) j)
Session-apart {d} {g} c session at at' found found' ne file file' i j lt lt' =
    let c' = Session-Consistent c session in
    let t = c'.is_tree in
    let mine = its_blocks t at found file i lt in
    let other = its_blocks t at' found' file' j lt' in
    ((content-Marked t mine).used, λ same. ne (content_inj (sym mine ∙ ap c'.role same ∙ other)).0)
