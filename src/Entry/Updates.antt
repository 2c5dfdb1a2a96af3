-- ===== src/Entry/Updates.antt =====
-- What a change of one directory entry does to the map from names to inode numbers.
use unix_like_file_system.Base.{
  ℕ, ◌≤◌, ◌<◌, ◌≡◌, ◌≢◌, ◌/◌, refl, sym, ap, ◌∙◌, inl, inr, true, false, Option, none, some, length,
  arith, Bool-cases, if◌then◌else◌, ◌==◌, ==→eq, ==-refl,
}
use mathlib.Core.Bool.{false≢true}
use unix_like_file_system.Block.{Block}
use unix_like_file_system.Disk.{Disk}
use unix_like_file_system.Inode.{num_dirents, valid, entry_inode, name_at, same_text}
use unix_like_file_system.Inode.Entries.{IsText, SameEntry, IsFilled, IsRenamed}
use unix_like_file_system.Path.{Text}
use unix_like_file_system.Lookup.Resolves.{entry_matches, HasEntry}
use unix_like_file_system.Lookup.Names.{
  number_of, number_of-HasEntry, number_of-absent, entry_matches-other, number_of-other,
}
use unix_like_file_system.Attr.Texts.{same_text-other}
use unix_like_file_system.Entry.{same_name}
use unix_like_file_system.Entry.SameName.{same_name_refl, same_name→eq}
use unix_like_file_system.Entry.Found.{filled-HasEntry}

-- The map `f` with another value for the name.
abbrev pub changed : Text → Option ℕ → (Text → Option ℕ) → Text → Option ℕ
changed name v f t = if same_name t name then v else f t

-- The entries' map, on the names that an entry can hold.
abbrev pub IsMap : Block → (Text → Option ℕ) → Type 0
IsMap dirs f = (t : Text) → IsText t → length t ≤ 27 → number_of dirs t ≡ f t

-- A name that no valid entry has.
abbrev pub IsAbsent : Text → Block → Type 0
IsAbsent name dirs = (j : ℕ) → j < num_dirents → entry_matches name dirs j ≡ false

-- A name that no valid entry but `k` has.
abbrev pub IsOnly : Text → Block → ℕ → Type 0
IsOnly name dirs k = (j : ℕ) → j < num_dirents → j ≢ k → entry_matches name dirs j ≡ false

differs : (t name : Text) → same_name t name ≡ false → t ≢ name
differs t name other e = false≢true (sym other ∙ ap (λ u. same_name u name) e ∙ same_name_refl name)

no_match :
    (t : Text) (b : Block) (k : ℕ) → same_text t b (name_at k) ≡ false → entry_matches t b k ≡ false
no_match t b k h = ground (arith, h)

invalid : (t : Text) (b : Block) (k : ℕ) → valid b k ≡ false → entry_matches t b k ≡ false
invalid t b k h = ground (arith, h)

-- A name that only entry `k` had, when entry `k` has it no more.
IsAbsent-only :
    {dirs new : Block} {k : ℕ} (t : Text)
    → ((j : ℕ) → j ≢ k → SameEntry new dirs j)
    → length t ≤ 27
    → entry_matches t new k ≡ false
    → IsOnly t dirs k
    → IsAbsent t new
IsAbsent-only {new = new} {k = k} t others short miss only j lt = elim (Bool-cases (j == k)) [
  | inl e ↦ ap (entry_matches t new) (==→eq j k e) ∙ miss
  | inr other ↦
      let ne : j ≢ k = λ e. false≢true (sym other ∙ rw (e, ==-refl k) refl) in
      entry_matches-other k others t short j ne ∙ only j lt ne
]

module _ (d : Disk) {dirs new : Block} {k : ℕ} (name : Text) (text : IsText name)
    (short : length name ≤ 27) where
  pub filled-IsMap :
      {n : ℕ}
      → k < num_dirents
      → valid dirs k ≡ false
      → IsAbsent name dirs
      → IsFilled dirs new k name n
      → IsMap new (changed name (some n) (number_of dirs))
  filled-IsMap below unused absent f t text' short' = elim (Bool-cases (same_name t name)) [
    | inl same ↦ rw same (
        ap (number_of new) (same_name→eq t name same)
        ∙ number_of-HasEntry d (filled-HasEntry short below f absent))
    | inr other ↦ rw other (
        number_of-other k f.others t short'
          (no_match t new k
            (same_text-other t name new (name_at k) text' text f.named (differs t name other)))
          (invalid t dirs k unused))
  ]

  pub cleared-IsMap :
      valid new k ≡ false
      → ((j : ℕ) → j ≢ k → SameEntry new dirs j)
      → entry_matches name dirs k ≡ true
      → IsOnly name dirs k
      → IsMap new (changed name none (number_of dirs))
  cleared-IsMap cleared others hit only t text' short' =
      let there : same_text name dirs (name_at k) ≡ true = ground (arith, hit) in
      elim (Bool-cases (same_name t name)) [
        | inl same ↦ rw same (
            ap (number_of new) (same_name→eq t name same)
            ∙ number_of-absent d new name
                (IsAbsent-only name others short (invalid name new k cleared) only))
        | inr other ↦ rw other (
            number_of-other k others t short' (invalid t new k cleared) (
              no_match t dirs k
                (same_text-other t name dirs (name_at k) text' text there (differs t name other))))
      ]

  -- Entry `k` has had the name `old` and gets the name `name`.
  pub renamed-IsMap :
      (old : Text)
      → IsText old
      → length old ≤ 27
      → k < num_dirents
      → entry_matches old dirs k ≡ true
      → IsOnly old dirs k
      → IsAbsent name dirs
      → IsRenamed dirs new k name
      → IsMap new (changed name (some (entry_inode dirs k)) (changed old none (number_of dirs)))
  renamed-IsMap old text_old short_old below hit only absent f t text' short' =
      let at_old : same_text old dirs (name_at k) ≡ true = ground (arith, hit) in
      let used : valid dirs k ≡ true = ground (arith, hit) in
      let still_used : valid new k ≡ true = rw (f.same_word) used in
      let differ : old ≢ name =
        λ e. false≢true (sym (absent k below) ∙ ap (λ u. entry_matches u dirs k) (sym e) ∙ hit) in
      let entry : HasEntry new name (entry_inode dirs k) = record {
        index = k;
        in_range = below;
        matches = rw (still_used, f.named) refl;
        earlier = λ j lt.
            entry_matches-other k f.others name short j (λ e. absurd (omega arith))
            ∙ absent j (omega arith);
        number = ap (λ w. w / 2) f.same_word;
      } in
      elim (Bool-cases (same_name t name)) [
        | inl same ↦
            rw same (ap (number_of new) (same_name→eq t name same) ∙ number_of-HasEntry d entry)
        | inr other ↦
            let moved : (u : Text) → IsText u → u ≢ name → entry_matches u new k ≡ false =
              λ u text_u ne.
                no_match u new k (same_text-other u name new (name_at k) text_u text f.named ne) in
            elim (Bool-cases (same_name t old)) [
              | inl same ↦
                  rw (other, same)
                    (ap (number_of new) (same_name→eq t old same)
                      ∙ number_of-absent d new old
                          (IsAbsent-only old f.others short_old (moved old text_old differ) only))
              | inr other' ↦
                  rw (other, other')
                    (number_of-other k f.others t short' (moved t text' (differs t name other)) (
                      no_match t dirs k (
                        same_text-other t old dirs (name_at k) text' text_old at_old
                          (differs t old other'))))
            ]
      ]
