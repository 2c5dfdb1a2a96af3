-- ===== src/Attr/Shown.antt =====
-- The loop of `fs_readdir`: its items are those of the valid entries.
use unix_like_file_system.Base.{
  ℕ, zero, suc, ◌+◌, ◌-◌, ◌^◌, ◌≤◌, ◌<◌, ◌≡◌, ◌≢◌, refl, sym, ap, ◌∙◌, inl, inr, Bool, true, false,
  not, ◌&&◌, ◌==◌, List, [], ◌∷◌, ◌++◌, length, arith, Bool-cases, ==→eq,
}
use mathlib.Core.Bool.{false≢true}
use mathlib.Core.Path.{subst}
use mathlib.Core.List.{Memᴰ}
use mathlib.Core.List.Memᴰ
use unix_like_file_system.Block.{Block, block_size}
use unix_like_file_system.Disk.{
  Disk, Outcome, done, failed, aborted, fault, pure, and_then, ◌>>=◌, undefined_if,
}
use unix_like_file_system.Disk.Reads.{Holds, block_read-Holds}
use unix_like_file_system.Inode.{
  num_dirents, name_size, is_dir, size, ptr, valid, entry_inode, name_at, size_overflows,
}
use unix_like_file_system.Path.{Text}
use unix_like_file_system.Lookup.{root_inum}
use unix_like_file_system.Lookup.Missing.{Leads}
use unix_like_file_system.Lookup.Paths.{Fits}
use unix_like_file_system.Attr.{Stat, Listing, inode2stat, list_entry, visit_entry, list_from}
use unix_like_file_system.Attr.Texts.{IsTextAt, text_at-IsTextAt}

-- The names lead to the directory `dir` with the entries `dirs`. Each valid entry `k` has the name
-- `name k`, as no other has, and the number of the inode `node k`, which is in the image.
pub record Directory (d : Disk) (names : List Text) (dir dirs : Block) (name : ℕ → Text)
    (node : ℕ → Block) : Type 0 where
  pub root : Block
  pub root_there : Holds d root_inum root
  pub leads : Leads d root names dir
  pub nonempty : size dir ≢ 0
  pub dirs_there : Holds d (ptr dir 0) dirs
  pub has_name :
      (k : ℕ) → k < num_dirents → valid dirs k ≡ true → IsTextAt (name k) dirs (name_at k)
  pub short : (k : ℕ) → k < num_dirents → valid dirs k ≡ true → length (name k) ≤ 27
  pub fits : (k : ℕ) → k < num_dirents → valid dirs k ≡ true → Fits (names ++ name k ∷ [])
  pub distinct :
      (j k : ℕ)
      → j < num_dirents
      → k < num_dirents
      → valid dirs j ≡ true
      → valid dirs k ≡ true
      → name j ≡ name k
      → j ≡ k
  pub has_node :
      (k : ℕ) → k < num_dirents → valid dirs k ≡ true → Holds d (entry_inode dirs k) (node k)
  pub numbered : (k : ℕ) → k < num_dirents → valid dirs k ≡ true → 0 < entry_inode dirs k
  pub sane : (k : ℕ) → k < num_dirents → valid dirs k ≡ true → size (node k) < 2 ^ 31 - block_size

checked :
    (t : Bool) (stat : Stat) (d : Disk)
    → t ≡ false
    → (s : Stat) × ((undefined_if t >>= (λ _. pure stat)) d ≡ done s d)
checked true stat d e = cc
checked false stat d e = (stat, refl)

inode2stat-done :
    (d : Disk) (inode : Block) (n : ℕ)
    → size inode < 2 ^ 31 - block_size
    → (s : Stat) × (inode2stat inode n d ≡ done s d)
unfolding inode2stat
inode2stat-done d inode n small =
    checked (not (is_dir inode) && size_overflows inode) _ d (ground arith)

module _ {d : Disk} {names : List Text} {dir dirs : Block} {name : ℕ → Text} {node : ℕ → Block}
    (dr : Directory d names dir dirs name node) where
  -- An item for the entry `k`.
  abbrev pub Item : ℕ → Text × Stat → Type 0
  Item k x =
      (valid dirs k ≡ true)
      × (x.0 ≡ name k)
      × (inode2stat (node k) (entry_inode dirs k) d ≡ done x.1 d)

  -- The items are those of the valid entries from `lo` to before `hi`.
  pub record Shows (lo hi : ℕ) (items : Listing) : Type 0 where
    pub sound : (x : Text × Stat) → Memᴰ x items → (k : ℕ) × (lo ≤ k) × (k < hi) × Item k x
    pub complete :
        (k : ℕ)
        → lo ≤ k
        → k < hi
        → valid dirs k ≡ true
        → (s : Stat) × Memᴰ (name k, s) items × Item k (name k, s)

  abbrev pub IsListing : ℕ → ℕ → Outcome Listing → Type 0
  IsListing lo hi (done items g) = (g ≡ d) × Shows lo hi items
  IsListing lo hi _ = ⊥

  Shows-none : (lo hi : ℕ) → hi ≤ lo → Shows lo hi []
  Shows-none lo hi le = record {
    sound = λ x m. absurd (Memᴰ.not-nil m);
    complete = λ k p q v. absurd (omega arith);
  }

  Shows-skip :
      {lo hi : ℕ} {items : Listing}
      → valid dirs lo ≡ false
      → Shows (lo + 1) hi items
      → Shows lo hi items
  Shows-skip {lo} unused rest = record {
    sound = λ x m. let (k, p, q, item) = rest.sound x m in (k, omega arith, q, item);
    complete = λ k p q v. elim (Bool-cases (k == lo)) [
      | inl e ↦ absurd (false≢true (sym unused ∙ ap (valid dirs) (sym (==→eq k lo e)) ∙ v))
      | inr ne ↦ rest.complete k (ground arith) q v
    ];
  }

  Shows-cons :
      {lo hi : ℕ} {items : Listing} (s : Stat)
      → lo < hi
      → Item lo (name lo, s)
      → Shows (lo + 1) hi items
      → Shows lo hi ((name lo, s) ∷ items)
  Shows-cons {lo} {items = items} s lt item rest = record {
    sound = λ x m. elim (Memᴰ.cases_cons m) [
      | inl e ↦ (lo, omega arith, lt, subst (Item lo) (sym e) item)
      | inr m' ↦ let (k, p, q, other) = rest.sound x m' in (k, omega arith, q, other)
    ];
    complete = λ k p q v. elim (Bool-cases (k == lo)) [
      | inl e ↦
          subst (λ j. (s' : Stat) × Memᴰ (name j, s') ((name lo, s) ∷ items) × Item j (name j, s'))
            (sym (==→eq k lo e)) (s, Memᴰ.head refl, item)
      | inr ne ↦ let (s', m, other) = rest.complete k (ground arith) q v in (s', Memᴰ.tail m, other)
    ];
  }

  -- The listing of the entries behind `lo`, with nothing or an item in front of it.
  IsListing-skip :
      (lo hi : ℕ) (r : Outcome Listing)
      → valid dirs lo ≡ false
      → IsListing (lo + 1) hi r
      → IsListing lo hi (and_then r (λ rest. pure rest))
  IsListing-skip lo hi (done items g) unused (same, rest) = (same, Shows-skip unused rest)
  IsListing-skip lo hi (failed e g) unused h = absurd h
  IsListing-skip lo hi (aborted g) unused h = absurd h
  IsListing-skip lo hi fault unused h = absurd h

  IsListing-cons :
      {lo hi : ℕ} (s : Stat) (r : Outcome Listing)
      → lo < hi
      → Item lo (name lo, s)
      → IsListing (lo + 1) hi r
      → IsListing lo hi (and_then r (λ rest. pure ((name lo, s) ∷ rest)))
  IsListing-cons s (done items g) lt item (same, rest) = (same, Shows-cons s lt item rest)
  IsListing-cons s (failed e g) lt item h = absurd h
  IsListing-cons s (aborted g) lt item h = absurd h
  IsListing-cons s fault lt item h = absurd h

  pub list_from-IsListing :
      (rounds lo : ℕ)
      → lo + rounds ≡ num_dirents
      → IsListing lo num_dirents (list_from rounds lo dirs d)
  unfolding list_from visit_entry list_entry
  list_from-IsListing zero lo at = (refl, Shows-none lo num_dirents (omega arith))
  list_from-IsListing (suc rounds) lo at = elim (Bool-cases (valid dirs lo)) [
    | inr unused ↦
        rw unused (
          IsListing-skip lo num_dirents _ unused
            (list_from-IsListing rounds (lo + 1) (omega arith)))
    | inl used ↦
        let lt : lo < num_dirents = omega arith in
        let (s, stat) = inode2stat-done d (node lo) (entry_inode dirs lo) (dr.sane lo lt used) in
        let text =
          text_at-IsTextAt name_size (name lo) dirs (name_at lo)
            (omega (arith, dr.short lo lt used)) (dr.has_name lo lt used) in
        rw (used, block_read-Holds (dr.has_node lo lt used), stat, text)
          (IsListing-cons s _ lt (used, refl, stat)
            (list_from-IsListing rounds (lo + 1) (omega arith)))
  ]
