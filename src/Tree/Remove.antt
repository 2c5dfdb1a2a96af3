-- ===== src/Tree/Remove.antt =====
-- `fs_unlink` and `fs_rmdir` keep an image consistent.
use unix_like_file_system.Base.{
  ℕ, ◌≡◌, refl, sym, ap, ◌∙◌, inl, inr, Bool, true, ◌||◌, List, [], ◌∷◌, ◌++◌, arith, Bool-cases,
  ◌==◌, ==→eq, ==-refl,
}
use unix_like_file_system.Disk.{Disk, Outcome, done, failed, aborted, fault}
use unix_like_file_system.Inode.{size, ptr, is_dir, rounds_up}
use unix_like_file_system.Path.{Text}
use unix_like_file_system.Path.Tokens.{slashed}
use unix_like_file_system.Lookup.{path2inum}
use unix_like_file_system.Lookup.Paths.{Fits}
use unix_like_file_system.Content.Free.{among, among-ptr, or_right}
use unix_like_file_system.Remove.Searches.{IsFirstWith, lowest_entry, entries-cases}
use unix_like_file_system.Remove.{fs_unlink, fs_rmdir}
use unix_like_file_system.Remove.Dropped.{Removing, Places, Removes, before_removal-done}
use unix_like_file_system.Tree.Find.{
  file-InMap, listing-Marked, Place, path-Place, entries_of, inode-Marked, Marked-Holds,
}
use unix_like_file_system.Remove.Unlink.{file-Marks, fs_unlink-Removes}
use unix_like_file_system.Remove.Rmdir.{fs_rmdir-Removes, fs_rmdir-not_empty}
use unix_like_file_system.Tree.{Role, listing, IsInode, Node, IsTree, Keeps}
use unix_like_file_system.Tree.Looks.{below, leads, misses, path-Looks}
use unix_like_file_system.Tree.Change.{listing-ne-inode, unchanged}
use unix_like_file_system.Tree.Reading.{before_removal-missing, reading-Keeps}
use unix_like_file_system.Tree.Dropped.{IsPart, Removed-Consistent}

module _ {d : Disk} {role : ℕ → Role} (t : IsTree d role) where
  -- What the two calls need, where the path leads to an inode that entry `slot` of the parent names.
  module _ (names : List Text) (name : Text) (n : ℕ) (fits : Fits (names ++ name ∷ []))
      (found : path2inum (slashed (names ++ name ∷ [])) d ≡ done n d) (is : IsInode (role n))
      (p : Place t names n) where
    abbrev inum : ℕ
    inum = p.parent

    abbrev entries_at : ℕ
    entries_at = ptr (d.block inum) 0

    entries_role : role entries_at ≡ listing inum
    entries_role = entries_of t inum p.entry.is_inode p.entry.directory

    first : (j : ℕ) × IsFirstWith (d.block entries_at) n j
    first = lowest_entry (d.block entries_at) n p.slot p.entry.below p.entry.used p.entry.number

    removing : Removing d names name inum n first.0 (d.block inum) (d.block entries_at) (d.block n)
    removing = record {
      fits = fits;
      found = p.found;
      holds = Marked-Holds t (inode-Marked t inum p.entry.is_inode);
      directory = p.entry.directory;
      target = found;
      there = Marked-Holds t (inode-Marked t n is);
      entries = Marked-Holds t (listing-Marked t entries_role);
      entry = first.1;
    }

    places : Places d inum entries_at
    places = record {
      map_there = t.map_there;
      inum_range = (inode-Marked t inum p.entry.is_inode).range;
      entries_range = (listing-Marked t entries_role).range;
      differ = λ e. listing-ne-inode role entries_role p.entry.is_inode (sym e);
    }

    Removes-Keeps :
        (now : ℕ) (gone : ℕ → Bool)
        → ((l : ℕ) → gone l ≡ true → IsPart role n l)
        → gone n ≡ true
        → (r : Outcome (Unit {0}))
        → Removes d now inum first.0 (d.block inum) (d.block entries_at) gone r
        → Keeps r
    Removes-Keeps now gone parts whole (done u g) h =
        let f = first.1 in Removed-Consistent t p.entry h f.below f.used f.number parts whole
    Removes-Keeps now gone parts whole (failed e g) h = absurd h
    Removes-Keeps now gone parts whole (aborted g) h = absurd h
    Removes-Keeps now gone parts whole fault h = absurd h

    node : Node role n (d.block n)
    node = t.node n is

    unlinked : (now : ℕ) → Keeps (fs_unlink now (slashed (names ++ name ∷ [])) d)
    unfolding fs_unlink
    unlinked now = elim (Bool-cases (is_dir (d.block n))) [
      | inl directory ↦ rw (before_removal-done removing, directory) (unchanged t)
      | inr file ↦
          let rounds = rounds_up (size (d.block n)) in
          let whole : ((n == n) || among rounds 0 (d.block n) n) ≡ true = rw (==-refl n) refl in
          Removes-Keeps now (λ j. (n == j) || among rounds 0 (d.block n) j)
            (λ l gone. elim (Bool-cases (n == l)) [
              | inl e ↦ inl (sym (==→eq n l e))
              | inr ne ↦
                  let (q, low, high, same) = among-ptr rounds 0 (d.block n) l (or_right ne gone) in
                  inr (inr (q, ap role (sym same) ∙ node.contents file q (omega arith)))
            ])
            whole _
            (fs_unlink-Removes removing now _ (file-Marks n (d.block n) (node.fits file)) places
              file (node.fits file) (file-InMap t n is file) (inode-Marked t n is).range.1)
    ]

    removed_dir : (now : ℕ) → Keeps (fs_rmdir now (slashed (names ++ name ∷ [])) d)
    unfolding fs_rmdir
    removed_dir now = elim (Bool-cases (is_dir (d.block n))) [
      | inr file ↦ rw (before_removal-done removing, file) (unchanged t)
      | inl directory ↦
          let own = node.directory directory in
          let there = Marked-Holds t (listing-Marked t own) in
          elim (entries-cases (d.block (ptr (d.block n) 0))) [
            | inr (j, lt, used) ↦
                rw (fs_rmdir-not_empty removing now directory there j lt used) (unchanged t)
            | inl empty ↦
                let whole : ((n == n) || (ptr (d.block n) 0 == n)) ≡ true = rw (==-refl n) refl in
                Removes-Keeps now (λ j. (n == j) || (ptr (d.block n) 0 == j))
                  (λ l gone. elim (Bool-cases (n == l)) [
                    | inl e ↦ inl (sym (==→eq n l e))
                    | inr ne ↦
                        let same : (ptr (d.block n) 0 == l) ≡ true = or_right ne gone in
                        inr (inl (ap role (sym (==→eq (ptr (d.block n) 0) l same)) ∙ own))
                  ])
                  whole _
                  (fs_rmdir-Removes removing now places directory there empty
                    (listing-Marked t own).range.1 (inode-Marked t n is).range.1)
          ]
    ]

  module _ (now : ℕ) (names : List Text) (name : Text) (fits : Fits (names ++ name ∷ [])) where
    -- In a consistent image, `fs_unlink` of a path below the root, whether it returns, with or
    -- without an error, or is stopped by an assertion, leaves a consistent image.
    pub fs_unlink-Keeps : Keeps (fs_unlink now (slashed (names ++ name ∷ [])) d)
    unfolding fs_unlink
    fs_unlink-Keeps = elim (path-Looks t (below names name fits)) [
      | leads n named is m ↦
          unlinked names name n fits named.found is (path-Place t names name fits named.found) now
      | misses e found ↦
          reading-Keeps _ _ t (before_removal-missing t names name fits found) (λ r h. absurd h)
    ]

    -- In a consistent image, `fs_rmdir` of a path below the root, whether it returns, with or
    -- without an error, or is stopped by an assertion, leaves a consistent image.
    pub fs_rmdir-Keeps : Keeps (fs_rmdir now (slashed (names ++ name ∷ [])) d)
    unfolding fs_rmdir
    fs_rmdir-Keeps = elim (path-Looks t (below names name fits)) [
      | leads n named is m ↦
          removed_dir names name n fits named.found is (path-Place t names name fits named.found)
            now
      | misses e found ↦
          reading-Keeps _ _ t (before_removal-missing t names name fits found) (λ r h. absurd h)
    ]
