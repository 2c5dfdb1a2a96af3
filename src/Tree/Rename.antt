-- ===== src/Tree/Rename.antt =====
-- `fs_rename` keeps the roles.
use unix_like_file_system.Base.{
  ℕ, ◌+◌, ◌*◌, ◌/◌, ◌%◌, ◌^◌, ◌≤◌, ◌≡◌, refl, sym, ap, ◌∙◌, inl, inr, false, not, Option, none,
  some, List, [], ◌∷◌, ◌++◌, leb, length, arith, Bool-cases, ◌==◌, ==→eq,
}
use unix_like_file_system.Block.{Block, byte, set_byte, get_u32}
use mathlib.Core.Path.{subst}
use unix_like_file_system.Block.Words.{get_u32_cong}
use unix_like_file_system.Disk.{
  Disk, Outcome, done, aborted, fault, Errno, fail_if, ◌>>◌, err, enoent, eio, eexist, enotdir,
  eisdir, einval, enospc, enotempty, eopnotsupp, failed, and_then, block_write,
}
use unix_like_file_system.Disk.Reads.{block_read-Holds}
use unix_like_file_system.Disk.Writes.{block_write-done, write_at-ne, Holds-write_at_self}
use unix_like_file_system.Bitmap.{bit_test}
use unix_like_file_system.Inode.{ptr, valid, name_at, copy_text}
use unix_like_file_system.Inode.Entries.{copy_text-outside}
use unix_like_file_system.Path.{Text}
use unix_like_file_system.Path.Tokens.{slashed}
use unix_like_file_system.Lookup.{find}
use unix_like_file_system.Lookup.Missing.{not_last}
use unix_like_file_system.Lookup.Paths.{Fits}
use unix_like_file_system.Entry.{
  existing_source, same_parents, unless_written, checked_write, rename_in, rename_entry, copy_name,
  fs_rename,
}
use unix_like_file_system.Entry.Parent.{path2inum-parent_of, split_path-slashed, last_token-append}
use unix_like_file_system.Entry.Rename.{existing_source-pos}
use unix_like_file_system.Tree.{Role, listing, IsNamed, IsTree, Keeps}
use unix_like_file_system.Tree.Shrink.{EntryStays}
use unix_like_file_system.Tree.Looks.{below, leads, misses, path-Looks}
use unix_like_file_system.Tree.Find.{
  listing-Marked, Place, path-Place, entries_of, inode-Marked, Marked-Holds,
}
use unix_like_file_system.Tree.Reading.{is_positive-pos}
use unix_like_file_system.Tree.Change.{
  none_gone, Gentle-Consistent, listing-Gentle, unchanged, fail_if-Keeps,
}

-- A name written into an entry leaves the other four bytes of every entry.
copy_text-word :
    (name : Text) (dirs : Block) (k j : ℕ)
    → length name ≤ 27
    → get_u32 (copy_text name dirs (name_at k)) (32 * j) ≡ get_u32 dirs (32 * j)
copy_text-word name dirs k j short =
    let outside = copy_text-outside name dirs (name_at k) in
    get_u32_cong _ dirs (32 * j) (outside (32 * j) (omega arith))
      (outside (32 * j + 1) (omega arith)) (outside (32 * j + 2) (omega arith))
      (outside (32 * j + 3) (omega arith))

copy_text-end : (s : Text) (b : Block) (o : ℕ) → byte (copy_text s b o) (o + length s) ≡ 0
unfolding copy_text set_byte
copy_text-end [] b o = ground arith
copy_text-end (c ∷ s) b o =
    let next : o + 1 + length s ≡ o + length (c ∷ s) = omega arith in
    subst (λ i. byte (copy_text s (set_byte b o c) (o + 1)) i ≡ 0) next
      (copy_text-end s (set_byte b o c) (o + 1))

-- A name written into an entry ends with a NUL, and so do the names of the other entries still.
copy_text-IsNamed :
    (name : Text) (dirs : Block) (k j : ℕ)
    → length name ≤ 27
    → IsNamed dirs j
    → IsNamed (copy_text name dirs (name_at k)) j
copy_text-IsNamed name dirs k j short (p, lt, nul) = elim (Bool-cases (j == k)) [
  | inl e ↦ (
    length name,
    omega arith,
    ap (λ i. byte (copy_text name dirs (name_at k)) (name_at i + length name)) (==→eq j k e)
        ∙ copy_text-end name dirs (name_at k),
  )
  | inr ne ↦ (
    p,
    lt,
    ap (λ v. v % 2 ^ 8) (copy_text-outside name dirs (name_at k) (name_at j + p) (ground arith))
        ∙ nul,
  )
]

EntryStays-word :
    (dirs dirs' : Block) (k : ℕ)
    → get_u32 dirs' (32 * k) ≡ get_u32 dirs (32 * k)
    → (IsNamed dirs k → IsNamed dirs' k)
    → EntryStays none_gone dirs dirs' k
EntryStays-word dirs dirs' k same names = elim (Bool-cases (valid dirs' k)) [
  | inl used ↦ inr (rw (sym same) used, ap (λ w. w / 2) same, refl, names)
  | inr unused ↦ inl unused
]

-- A source that cannot be looked up is an error, and so is a destination that can.
existing_source-err :
    (e : Errno) (d : Disk) → (e' : Errno) × (existing_source (err e) d ≡ failed e' d)
unfolding existing_source
existing_source-err enoent d = (enoent, refl)
existing_source-err eio d = (enoent, refl)
existing_source-err eexist d = (enoent, refl)
existing_source-err enotdir d = (einval, refl)
existing_source-err eisdir d = (enoent, refl)
existing_source-err einval d = (enoent, refl)
existing_source-err enospc d = (enoent, refl)
existing_source-err enotempty d = (enoent, refl)
existing_source-err eopnotsupp d = (enoent, refl)

module _ {d : Disk} {role : ℕ → Role} (t : IsTree d role) where
  -- The entry block `e` is written with all of its entries as they were, but for their names.
  words_kept :
      (e m : ℕ) (new : Block)
      → role e ≡ listing m
      → ((k : ℕ) → get_u32 new (32 * k) ≡ get_u32 (d.block e) (32 * k))
      → ((k : ℕ) → IsNamed (d.block e) k → IsNamed new k)
      → Keeps (block_write e new d)
  words_kept e m new is words names =
      let marked = listing-Marked t is in
      let written = (Holds-write_at_self e new d (omega (arith, marked.range))).content in
      rw (block_write-done e new d (omega (arith, marked.range)) (omega (arith, marked.range))) (
        Gentle-Consistent t (
          listing-Gentle t e m is (ground arith)
            (λ l used.
              ap (λ b. bit_test b l)
                (write_at-ne e 1 new d (λ f. absurd (omega (arith, marked.range))) t.map_there)
              ∙ used)
            (λ l ne at. write_at-ne e l new d ne at.inside)
            (λ k lt.
              EntryStays-word (d.block e) _ k (ap (λ b. get_u32 b (32 * k)) written ∙ words k)
                (λ h. subst (λ b. IsNamed b k) (sym written) (names k h)))))

  unless_written-Keeps : (x : Errno) (r : Outcome (Unit {0})) → Keeps r → Keeps (unless_written x r)
  unless_written-Keeps x (done u g) h = h
  unless_written-Keeps x (failed e g) h = h
  unless_written-Keeps x (aborted g) h = h
  unless_written-Keeps x fault h = h

  renamed_entry :
      (e m : ℕ) (slot : Option ℕ) (name : Text)
      → role e ≡ listing m
      → length name ≤ 27
      → Keeps (and_then (rename_entry slot name (d.block e) d) (checked_write einval e))
  unfolding rename_entry copy_name
  renamed_entry e m none name is short =
      unless_written-Keeps _ _ (words_kept e m (d.block e) is (λ k. refl) (λ k h. h))
  renamed_entry e m (some k) name is short =
      let fits : leb 28 (length name) ≡ false = ground arith in
      rw fits (
        unless_written-Keeps _ _ (
          words_kept e m _ is (λ j. copy_text-word name (d.block e) k j short)
            (λ j h. copy_text-IsNamed name (d.block e) k j short h)))

  rename_in-Keeps :
      (names : List Text) (old : Text) (names' : List Text) (new : Text) {n : ℕ}
      → Fits (names ++ old ∷ [])
      → length new ≤ 27
      → Place t names n
      → Keeps (rename_in (slashed (names ++ old ∷ [])) (names ++ old ∷ []) (names' ++ new ∷ []) d)
  unfolding rename_in
  rename_in-Keeps names old names' new fits short p =
      let is = entries_of t p.parent p.entry.is_inode p.entry.directory in
      rw
        (
          path2inum-parent_of d names old fits,
          p.found,
          block_read-Holds (Marked-Holds t (inode-Marked t p.parent p.entry.is_inode)),
          block_read-Holds (Marked-Holds t (listing-Marked t is)),
          last_token-append d names old,
          last_token-append d names' new,
        )
        (renamed_entry (ptr (d.block p.parent) 0) p.parent (find old _) new is short)

  pub fs_rename-Keeps :
      (names : List Text) (old : Text) (names' : List Text) (new : Text)
      → Fits (names ++ old ∷ [])
      → Fits (names' ++ new ∷ [])
      → length new ≤ 27
      → Keeps (fs_rename (slashed (names ++ old ∷ [])) (slashed (names' ++ new ∷ [])) d)
  unfolding fs_rename
  fs_rename-Keeps names old names' new fits fits' short =
      elim (path-Looks t (below names old fits)) [
        | misses e found ↦ rw (found, (existing_source-err e d).1) (unchanged t)
        | leads n named is m ↦ elim (path-Looks t (below names' new fits')) [
          | leads n' named' is' m' ↦
              rw
                (
                  named.found,
                  existing_source-pos n d named.positive,
                  named'.found,
                  is_positive-pos n' named'.positive,
                )
                (unchanged t)
          | misses e found' ↦
              rw
                (
                  named.found,
                  existing_source-pos n d named.positive,
                  found',
                  split_path-slashed d (names ++ old ∷ []) fits (not_last names old),
                  split_path-slashed d (names' ++ new ∷ []) fits' (not_last names' new),
                )
                (let rest =
                    rename_in (slashed (names ++ old ∷ [])) (names ++ old ∷ [])
                      (names' ++ new ∷ []) in
                  fail_if-Keeps t (not (length (names' ++ new ∷ []) == length (names ++ old ∷ [])))
                    einval
                    (fail_if (not (same_parents (names ++ old ∷ []) (names' ++ new ∷ []))) einval
                      >> rest)
                    (fail_if-Keeps t (not (same_parents (names ++ old ∷ []) (names' ++ new ∷ [])))
                      einval rest
                      (rename_in-Keeps names old names' new fits short
                        (path-Place t names old fits named.found))))
        ]
      ]
