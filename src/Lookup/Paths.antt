-- ===== src/Lookup/Paths.antt =====
-- `path2inum` on whole paths.
use unix_like_file_system.Base.{
  ℕ, ◌≤◌, ◌≡◌, refl, sym, ap, ◌∙◌, ◌↔◌, Bool, true, false, not, List, [], ◌∷◌, ◌++◌, ltb, ◌==◌,
  length, if◌then◌else◌, arith,
}
use unix_like_file_system.Block.{Block}
use unix_like_file_system.Disk.{Disk, done, failed, enoent, enotdir, eopnotsupp}
use unix_like_file_system.Disk.Reads
use unix_like_file_system.Disk.Reads.{
  Reads, gives, fails, faults, fail_if-Reads, undefined_if-Reads, block_read-Reads, Holds,
  block_read-Holds,
}
use unix_like_file_system.Path.{Text, slash, tokenise, tokens, strtok, skip}
use unix_like_file_system.Path.Tokens.{AllNames, slashed, joined, tokenise-joined}
use unix_like_file_system.Lookup.{walk, from_root, path2inum, root_inum, is_last}
use unix_like_file_system.Lookup.Resolves.{Resolves, or_fail-Reads, walk-Resolves}
use unix_like_file_system.Lookup.Missing.{Leads, IsMissing, walk-done, walk-missing, not_last}

-- Whether the names, written as a path, fit the arrays of `path2inum`.
pub record Fits (names : List Text) : Type 0 where
  pub are_names : AllNames names
  pub short : length (joined names) ≤ 299
  pub few : length names ≤ 11

from_root-Reads : (d : Disk) (names : List Text) → Reads d (λ n. Unit {0}) (from_root names d)
unfolding from_root
from_root-Reads d [] = gives tt
from_root-Reads d (name ∷ rest) = Reads.bind _ (block_read-Reads d root_inum) λ read _.
    Reads.bind _ (or_fail-Reads d eopnotsupp read)
      λ root _. Reads.weaken (walk-Resolves d (not (is_last rest)) (name ∷ rest) root) λ n r. tt

-- Whatever the path, `path2inum` does not change the image, and no assertion stops it.
pub path2inum-Reads : (path : Text) (d : Disk) → Reads d (λ n. Unit {0}) (path2inum path d)
unfolding path2inum
path2inum-Reads [] d = fails
path2inum-Reads (c ∷ s) d = Reads.bind _ (fail_if-Reads d (not (c == slash)) enoent) λ _ _.
    Reads.bind _ (undefined_if-Reads d (ltb 299 (length s))) λ _ _.
      Reads.bind _ (undefined_if-Reads d (ltb 11 (length (tokenise s))))
        λ _ _. from_root-Reads d (tokenise s)

module _ (d : Disk) {root : Block} (there : Holds d root_inum root) where
  pub from_root-walk :
      (names : List Text)
      → is_last names ≡ false
      → (several : Bool) × (from_root names d ≡ walk several names root d)
  unfolding from_root
  from_root-walk [] more = cc
  from_root-walk (name ∷ rest) more = (not (is_last rest), rw (block_read-Holds there))

  from_root-missing :
      (names : List Text) {dir : Block} (name : Text)
      → Leads d root names dir
      → IsMissing d dir name
      → from_root (names ++ name ∷ []) d ≡ failed (if is_last names then enoent else enotdir) d
  unfolding from_root
  from_root-missing [] name leads h =
      rw (block_read-Holds there) (walk-missing d false name leads h)
  from_root-missing (t ∷ ts) name leads h =
      rw (block_read-Holds there, not_last ts name) (walk-missing d true name leads h)

  pub path2inum-from_root :
      (names : List Text)
      → Fits names
      → is_last names ≡ false
      → path2inum (slashed names) d ≡ from_root names d
  unfolding path2inum
  path2inum-from_root [] fits more = cc
  path2inum-from_root (t ∷ ts) fits more =
      let short : ltb 299 (length (t ++ slashed ts)) ≡ false = ground (arith, fits.short) in
      let few : ltb 11 (length (t ∷ ts)) ≡ false = ground (arith, fits.few) in
      rw (tokenise-joined (t ∷ ts) fits.are_names, short, few)

  -- For a path of at most 11 names and 300 bytes, in an image whose block 2 is `root`, `path2inum`
  -- returns `n` exactly when the names lead from `root` through directories to an entry with the
  -- number `n`; the image stays as it was.
  pub path2inum-Resolves :
      (names : List Text) (n : ℕ) (g : Disk)
      → Fits names
      → is_last names ≡ false
      → (path2inum (slashed names) d ≡ done n g) ↔ (Resolves d root names n × (g ≡ d))
  path2inum-Resolves names n g fits more =
      let (several, e) = from_root-walk names more in
      let run = path2inum-from_root names fits more ∙ e in
      (
        λ h. Reads.of_done (walk-Resolves d several names root) (sym run ∙ h),
        λ (r, same). run ∙ walk-done d several r ∙ ap (λ d'. done n d') (sym same),
      )

  -- Where a path's last name is missing from the directory that the other names lead to,
  -- `path2inum` returns -ENOENT if there are no other names, and -ENOTDIR if there are.
  pub path2inum-missing :
      (names : List Text) {dir : Block} (name : Text)
      → Fits (names ++ name ∷ [])
      → Leads d root names dir
      → IsMissing d dir name
      → path2inum (slashed (names ++ name ∷ [])) d
        ≡ failed (if is_last names then enoent else enotdir) d
  path2inum-missing names name fits leads h =
      path2inum-from_root (names ++ name ∷ []) fits (not_last names name)
      ∙ from_root-missing names name leads h

-- The path "/" leads to the root.
pub path2inum-slash : (d : Disk) → path2inum (slash ∷ []) d ≡ done root_inum d
unfolding path2inum from_root tokenise tokens strtok skip
path2inum-slash d = refl
