-- ===== src/Lookup/Missing.antt =====
-- Looking up a path that leads to an inode, and a name that is missing.
use unix_like_file_system.Base.{
  ℕ, ◌<◌, ◌≡◌, refl, sym, ap, ◌∙◌, inl, inr, Bool, true, false, not, ◌&&◌, Option, none, some, List,
  [], ◌∷◌, ◌++◌, ltb, ◌==◌, length, arith, Bool-cases, ltb→lt,
}
use mathlib.Core.Bool.{false≢true}
use unix_like_file_system.Block.{Block}
use unix_like_file_system.Disk.{Disk, done, failed}
use unix_like_file_system.Disk.Reads.{Holds, block_read-Holds}
use unix_like_file_system.Inode.{num_dirents, is_dir, size, entry_inode}
use unix_like_file_system.Path.{Text}
use unix_like_file_system.Lookup.{find, enter, lookup_entry, descend, walk, is_last, not_found}
use unix_like_file_system.Lookup.Resolves.{
  entry_matches, HasEntry, Lists, Resolves, here, into, Found, find_entry-Found,
}

module _ (d : Disk) where
  Found-entry :
      (dirs : Block) (name : Text) {n : ℕ} (r : Option ℕ)
      → HasEntry dirs name n
      → Found 0 num_dirents name dirs r
      → (k : ℕ) × (r ≡ some k) × (entry_inode dirs k ≡ n)
  Found-entry dirs name none h found =
      absurd (false≢true (sym (found h.index (omega arith) h.in_range) ∙ h.matches))
  Found-entry dirs name (some i) h (p, q, hit, least) = elim (Bool-cases (ltb i h.index)) [
    | inl below ↦ absurd (false≢true (sym (h.earlier i (ltb→lt i h.index below)) ∙ hit))
    | inr not_below ↦ elim (Bool-cases (ltb h.index i)) [
      | inl above ↦
          absurd
            (false≢true (sym (least h.index (omega arith) (ltb→lt h.index i above)) ∙ h.matches))
      | inr not_above ↦
          let same : i ≡ h.index = ground arith in
          (i, refl, ap (λ k. entry_inode dirs k) same ∙ h.number)
    ]
  ]

  pub find-HasEntry :
      {dirs : Block} {name : Text} {n : ℕ}
      → HasEntry dirs name n
      → (k : ℕ) × (find name dirs ≡ some k) × (entry_inode dirs k ≡ n)
  find-HasEntry {dirs} {name} h =
      Found-entry dirs name _ h (find_entry-Found name dirs num_dirents 0 num_dirents refl)

  enter-done :
      {current dirs : Block} {name : Text} (rest : List Text)
      → Lists d current name dirs
      → (not (is_dir current) && not (is_last rest)) ≡ false
      → enter name rest current d ≡ done dirs d
  unfolding enter
  enter-done {current} {name} rest h dir =
      let short : ltb 27 (length name) ≡ false = ground (arith, h.short) in
      let full : (size current == 0) ≡ false = ground (arith, h.nonempty) in
      rw (short, dir, full, block_read-Holds h.entries)

  lookup_entry-done :
      (several : Bool) {current dirs : Block} {name : Text} {n : ℕ} (rest : List Text)
      → Lists d current name dirs
      → (not (is_dir current) && not (is_last rest)) ≡ false
      → HasEntry dirs name n
      → lookup_entry several name rest current d ≡ done n d
  unfolding lookup_entry
  lookup_entry-done several rest h dir entry =
      let (k, found, number) = find-HasEntry entry in rw (enter-done rest h dir, found, number)

  descend-done :
      {m : ℕ} {dir : Block} → Holds d m dir → is_dir dir ≡ true → descend m d ≡ done dir d
  unfolding descend
  descend-done h is = rw (block_read-Holds h, is)

  pub walk-done :
      (several : Bool) {names : List Text} {current : Block} {n : ℕ}
      → Resolves d current names n
      → walk several names current d ≡ done n d
  unfolding walk
  walk-done several (here {current} lists entry) =
      lookup_entry-done several [] lists (ground arith) entry
  walk-done several (into {current} {next} {rest} is lists entry holds is' r) =
      rw
        (lookup_entry-done several (next ∷ rest) lists (ground arith) entry, descend-done holds is')
        (walk-done several r)

-- From the directory `current` the names lead to the directory `dir`.
pub data Leads (d : Disk) : Block → List Text → Block → Type 0 where
  stay : {current : Block} → Leads d current [] current
  enter_dir :
      {current dirs next dir : Block} {name : Text} {rest : List Text} {m : ℕ}
      → is_dir current ≡ true
      → Lists d current name dirs
      → HasEntry dirs name m
      → Holds d m next
      → is_dir next ≡ true
      → Leads d next rest dir
      → Leads d current (name ∷ rest) dir

pub not_last : (ts : List Text) (t : Text) → is_last (ts ++ t ∷ []) ≡ false
not_last [] t = refl
not_last (u ∷ ts) t = refl

-- The name stands in no entry of the directory, which can be read.
pub record IsMissing (d : Disk) (dir : Block) (name : Text) : Type 0 where
  pub dirs : Block
  pub listed : Lists d dir name dirs
  pub absent : (k : ℕ) → k < num_dirents → entry_matches name dirs k ≡ false

module _ (d : Disk) where
  pub find-missing :
      (name : Text) (dirs : Block) (r : Option ℕ)
      → ((k : ℕ) → k < num_dirents → entry_matches name dirs k ≡ false)
      → Found 0 num_dirents name dirs r
      → r ≡ none
  find-missing name dirs none absent found = refl
  find-missing name dirs (some i) absent (p, q, hit, least) =
      absurd (false≢true (sym (absent i q) ∙ hit))

  lookup_entry-missing :
      (several : Bool) {dir : Block} {name : Text}
      → IsMissing d dir name
      → lookup_entry several name [] dir d ≡ failed (not_found several []) d
  unfolding lookup_entry
  lookup_entry-missing several {dir} {name} h = rw (
    enter-done d [] h.listed (ground arith),
    find-missing name h.dirs _ h.absent
        (find_entry-Found name h.dirs num_dirents 0 num_dirents refl),
  )

  walk-into :
      (several : Bool) (ts : List Text) {current dirs dir : Block} {name : Text} {m : ℕ}
      → is_last ts ≡ false
      → is_dir current ≡ true
      → Lists d current name dirs
      → HasEntry dirs name m
      → Holds d m dir
      → is_dir dir ≡ true
      → walk several (name ∷ ts) current d ≡ walk several ts dir d
  unfolding walk
  walk-into several [] more is lists entry holds is' = cc
  walk-into several (t ∷ ts) more is lists entry holds is' =
      rw (lookup_entry-done d several (t ∷ ts) lists (ground arith) entry, descend-done d holds is')

  -- With the last name missing, the call fails as `not_found` says.
  pub walk-missing :
      (several : Bool) {names : List Text} {current dir : Block} (name : Text)
      → Leads d current names dir
      → IsMissing d dir name
      → walk several (names ++ name ∷ []) current d ≡ failed (not_found several []) d
  walk-missing several name stay h = unfold walk in lookup_entry-missing several h
  walk-missing several name (enter_dir {rest} is lists entry holds is' leads) h =
      walk-into several (rest ++ name ∷ []) (not_last rest name) is lists entry holds is'
      ∙ walk-missing several name leads h
