-- ===== src/Tree/Files.antt =====
-- Files in a consistent image: what is written to one is read back, and what is read of another stays.
use unix_like_file_system.Base.{
  ℕ, ◌+◌, ◌*◌, ◌≤◌, ◌≡◌, ◌≢◌, sym, ◌∙◌, false, List, [], ◌∷◌, ◌++◌, arith,
}
use mathlib.Core.Path.{subst}
use unix_like_file_system.Block.{Block, block_size, byte}
use unix_like_file_system.Disk.{Disk, Outcome, Errno, done, failed}
use unix_like_file_system.Inode.{num_ptrs, size, is_dir}
use unix_like_file_system.Path.{Text}
use unix_like_file_system.Path.Tokens.{slashed}
use unix_like_file_system.Lookup.{path2inum, root_inum}
use unix_like_file_system.Lookup.Missing.{not_last}
use unix_like_file_system.Lookup.Paths.{Fits, path2inum-Resolves}
use unix_like_file_system.Lookup.Resolves.{Resolves}
use unix_like_file_system.Content.{Buffer, fs_write}
use unix_like_file_system.Content.Back.{ReadsBack, fs_write-ReadsBack}
use unix_like_file_system.Tree.{Role, IsInode, IsTree, Consistent}
use unix_like_file_system.Tree.Find.{root_holds, inode-Marked, Marked-Holds}
use unix_like_file_system.Tree.Looks.{IsNormal, below, leads, misses, path-Looks}
use unix_like_file_system.Tree.Write.{file-IsStored}
use unix_like_file_system.Tree.Requests.{Session, Session-Consistent}
use unix_like_file_system.Tree.Visited.{path-IsClear}

-- Both reads return the same number of bytes, and the same bytes.
abbrev pub SameRead : Outcome (ℕ × Buffer) → Outcome (ℕ × Buffer) → Type 0
SameRead (done (n, out) d) (done (m, out') g) = (n ≡ m) × ((i : ℕ) → byte out i ≡ byte out' i)
SameRead _ _ = ⊥

module _ {d : Disk} {role : ℕ → Role} (t : IsTree d role) where
  pub found-IsInode :
      {path : Text} {n : ℕ} → IsNormal path → path2inum path d ≡ done n d → IsInode (role n)
  found-IsInode {path} {n} normal found = elim (path-Looks t normal) [
    | misses e other ↦ absurd (done≢failed (sym found ∙ other))
    | leads m named is marked ↦
        subst (λ l. IsInode (role l)) (value_of (sym named.found ∙ found)) is
  ]
    where
      done≢failed : {e : Errno} → done n d ≢ failed e d
      done≢failed h = cc

      value_of : {a b : ℕ} → done a d ≡ done b d → a ≡ b
      value_of h = ground arith

  pub path_leads :
      (names : List Text) (name : Text) {n : ℕ}
      → Fits (names ++ name ∷ [])
      → path2inum (slashed (names ++ name ∷ [])) d ≡ done n d
      → Resolves d (d.block root_inum) (names ++ name ∷ []) n
  path_leads names name {n} fits found =
      ((path2inum-Resolves d (root_holds t) (names ++ name ∷ []) n d fits (not_last names name)).0
        found).0

  written_read :
      (names : List Text) (name : Text) {n : ℕ} (stack : Block) (buf out : Buffer)
      (offset len now : ℕ)
      → Fits (names ++ name ∷ [])
      → path2inum (slashed (names ++ name ∷ [])) d ≡ done n d
      → is_dir (d.block n) ≡ false
      → offset ≤ size (d.block n)
      → offset + len ≤ block_size * num_ptrs
      → ReadsBack stack
          (slashed (names ++ name ∷ []))
          out
          buf
          len
          offset
          (fs_write now stack (slashed (names ++ name ∷ [])) buf len offset d)
  written_read names name {n} stack buf out offset len now fits found file behind room =
      let is = found-IsInode (below names name fits) found in
      fs_write-ReadsBack (file-IsStored t is file)
        (path-IsClear t is file (path_leads names name fits found)) fits (not_last names name)
        (Marked-Holds t (inode-Marked t n is)) file stack buf out offset len now room behind

-- After any proper requests to a consistent image, when `fs_write` of a path to a file has returned,
-- with an offset within the file and an end within the largest size of a file, `fs_read` of the same
-- path, place and length returns the bytes that were written; and when an assertion has stopped it,
-- no block is free.
pub Session-ReadsBack :
    {d g : Disk} {n : ℕ} (names : List Text) (name : Text) (stack : Block) (buf out : Buffer)
    (offset len now : ℕ)
    → Consistent d
    → Session d g
    → Fits (names ++ name ∷ [])
    → path2inum (slashed (names ++ name ∷ [])) g ≡ done n g
    → is_dir (g.block n) ≡ false
    → offset ≤ size (g.block n)
    → offset + len ≤ block_size * num_ptrs
    → ReadsBack stack
        (slashed (names ++ name ∷ []))
        out
        buf
        len
        offset
        (fs_write now stack (slashed (names ++ name ∷ [])) buf len offset g)
Session-ReadsBack names name stack buf out offset len now c session =
    written_read (Session-Consistent c session).is_tree names name stack buf out offset len now
