-- ===== src/Tree/Visited.antt =====
-- The blocks in which a path is looked up are no blocks of files.
use unix_like_file_system.Base.{
  ℕ, ◌<◌, ◌≡◌, ◌≢◌, ◌⊎◌, inl, inr, refl, sym, ap, ◌∙◌, true, false, List, arith,
}
use mathlib.Core.Path.{subst}
use mathlib.Core.Bool.{false≢true}
use unix_like_file_system.Block.{Block}
use unix_like_file_system.Disk.{Disk}
use unix_like_file_system.Inode.{size, ptr, is_dir, rounds_up}
use unix_like_file_system.Path.{Text}
use unix_like_file_system.Lookup.{root_inum}
use unix_like_file_system.Lookup.Resolves.{Resolves, here, into}
use unix_like_file_system.Lookup.Frame.{Visits}
use unix_like_file_system.Content.Back.{IsClear}
use unix_like_file_system.Tree.{Role, listing, content, IsInode, Marked, IsTree}
use unix_like_file_system.Tree.Apart.{listing≢content}
use unix_like_file_system.Tree.Find.{
  IsIn-Entry, Entry-IsInode, entries_of, root-IsInode, root_holds, inode-Marked, listing-Marked,
}
use unix_like_file_system.Tree.Change.{listing-ne-inode}

-- A directory's inode, or its entries.
abbrev pub IsPlace : Disk → (ℕ → Role) → ℕ → Type 0
IsPlace d role l =
    (IsInode (role l) × (is_dir (d.block l) ≡ true)) ⊎ ((m : ℕ) × (role l ≡ listing m))

module _ {d : Disk} {role : ℕ → Role} (t : IsTree d role) where
  Visits-IsPlace :
      (m : ℕ) {current : Block} {names : List Text} {n : ℕ}
      → d.block m ≡ current
      → IsInode (role m)
      → is_dir current ≡ true
      → (r : Resolves d current names n) (l : ℕ) → Visits r l
      → IsPlace d role l
  Visits-IsPlace m at is directory (here lists entry) l v = inr (
    m,
    ap role (sym v)
        ∙ ap (λ b. role (ptr b 0)) (sym at)
        ∙ entries_of t m is (ap is_dir at ∙ directory),
  )
  Visits-IsPlace m at is directory (into is' lists entry holds is'' r) l (inl v) = inr (
    m,
    ap role (sym v)
        ∙ ap (λ b. role (ptr b 0)) (sym at)
        ∙ entries_of t m is (ap is_dir at ∙ directory),
  )
  Visits-IsPlace m at is directory (into {dirs} {name} {m = next} is' lists entry holds is'' r) l
        (inr (inl v)) =
      let (k, e) = IsIn-Entry t m name at is directory (dirs, lists, entry) in
      inl (
        subst (λ i. IsInode (role i)) v (Entry-IsInode t e),
        ap (λ i. is_dir (d.block i)) (sym v) ∙ ap is_dir holds.content ∙ is'',
      )
  Visits-IsPlace m at is directory (into {dirs} {name} {m = next} is' lists entry holds is'' r) l
        (inr (inr v)) =
      let (k, e) = IsIn-Entry t m name at is directory (dirs, lists, entry) in
      Visits-IsPlace next holds.content (Entry-IsInode t e) is'' r l v

  place-Marked : {l : ℕ} → IsPlace d role l → Marked d l
  place-Marked (inl (is, directory)) = inode-Marked t _ is
  place-Marked (inr (m, is)) = listing-Marked t is

  -- What a path is looked up in.
  looked_in :
      {names : List Text} {n : ℕ} (r : Resolves d (d.block root_inum) names n) (l : ℕ)
      → (root_inum ≡ l) ⊎ Visits r l
      → IsPlace d role l
  looked_in r l (inl e) = subst (IsPlace d role) e (inl (root-IsInode t, t.root_dir))
  looked_in r l (inr v) = Visits-IsPlace root_inum refl (root-IsInode t) t.root_dir r l v

  module _ {n : ℕ} (is : IsInode (role n)) (file : is_dir (d.block n) ≡ false) where
    place-other :
        {l : ℕ}
        → IsPlace d role l
        → (l ≢ 1) × (l ≢ n) × ((b : ℕ) → b < rounds_up (size (d.block n)) → ptr (d.block n) b ≢ l)
    place-other {l} p = (
      λ e. absurd (omega (arith, (place-Marked p).range)),
      elim p [
        | inl (is', directory) ↦
            λ e. false≢true (sym file ∙ ap (λ i. is_dir (d.block i)) (sym e) ∙ directory)
        | inr (m, at) ↦ listing-ne-inode role at is
      ],
      λ b lt same.
          let mine : role l ≡ content n b = ap role (sym same) ∙ (t.node n is).contents file b lt in
          elim p [
            | inl (is', directory) ↦ subst IsInode mine is'
            | inr (m, at) ↦ listing≢content (sym at ∙ mine)
          ],
    )

    pub path-IsClear :
        {names : List Text}
        → Resolves d (d.block root_inum) names n
        → IsClear d (d.block root_inum) (d.block n) names n
    path-IsClear r = record {
      root_there = root_holds t;
      resolves = r;
      used = λ l v. (place-Marked (looked_in r l v)).used;
      not_file = λ l v. place-other (looked_in r l v);
    }
