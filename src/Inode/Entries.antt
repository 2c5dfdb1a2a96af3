-- ===== src/Inode/Entries.antt =====
-- Directory entries: what writing one entry does to it and to the others.
use unix_like_file_system.Base.{
  ℕ, ◌+◌, ◌*◌, ◌%◌, ◌^◌, ◌≤◌, ◌<◌, ◌≡◌, ◌≢◌, ap, ◌∙◌, ◌⊎◌, inl, true, ◌&&◌, List, [], ◌∷◌, length,
  ◌==◌, arith,
}
use unix_like_file_system.Block.{Block, byte, set_byte, get_u32}
use unix_like_file_system.Block.Words.{get_u32_cong, get_u32-set_u32, set_u32-outside}
use unix_like_file_system.Inode.{
  valid, entry_inode, name_at, set_valid, set_entry_inode, same_text, copy_text,
}

-- Bytes of a C string: not zero.
abbrev pub IsText : List ℕ → Type 0
IsText [] = Unit
IsText (c ∷ s) = (0 < c) × (c < 2 ^ 8) × IsText s

pub copy_text-outside :
    (s : List ℕ) (b : Block) (o i : ℕ) → (i < o) ⊎ (o + length s < i) → copy_text s b o i ≡ b i
unfolding copy_text set_byte
copy_text-outside [] b o i apart = ground arith
copy_text-outside (c ∷ s) b o i apart =
    copy_text-outside s (set_byte b o c) (o + 1) i (omega arith) ∙ ground arith

same_text_cong :
    (s : List ℕ) (b c : Block) (o : ℕ)
    → ((i : ℕ) → o ≤ i → i ≤ o + length s → b i ≡ c i)
    → same_text s b o ≡ same_text s c o
unfolding same_text
same_text_cong [] b c o h = rw (h o (omega arith) (omega arith))
same_text_cong (x ∷ s) b c o h = rw (h o (omega arith) (omega arith)) (
    ap (λ t. (byte c o == x) && t)
      (same_text_cong s b c (o + 1) (λ i p q. h i (omega arith) (omega arith))))

same_text-copy_text :
    (s : List ℕ) (b : Block) (o : ℕ) → IsText s → same_text s (copy_text s b o) o ≡ true
unfolding same_text copy_text set_byte
same_text-copy_text [] b o h = ground arith
same_text-copy_text (c ∷ s) b o h =
    rw (copy_text-outside s (set_byte b o c) (o + 1) o (omega arith))
      (ground (arith, same_text-copy_text s (set_byte b o c) (o + 1) h.2))

-- The 32 bytes of entry `j` are the same in both blocks.
pub record SameEntry (b c : Block) (j : ℕ) : Type 0 where
  pub same_bytes : (i : ℕ) → 32 * j ≤ i → i < 32 * j + 32 → b i ≡ c i

pub SameEntry-word :
    {b c : Block} (j : ℕ) → SameEntry b c j → get_u32 b (32 * j) ≡ get_u32 c (32 * j)
SameEntry-word {b} {c} j same =
    get_u32_cong b c (32 * j) (same.same_bytes (32 * j) (omega arith) (omega arith))
      (same.same_bytes (32 * j + 1) (omega arith) (omega arith))
      (same.same_bytes (32 * j + 2) (omega arith) (omega arith))
      (same.same_bytes (32 * j + 3) (omega arith) (omega arith))

pub SameEntry-text :
    {b c : Block} (j : ℕ) (s : List ℕ)
    → length s ≤ 27
    → SameEntry b c j
    → same_text s b (name_at j) ≡ same_text s c (name_at j)
SameEntry-text {b} {c} j s short same =
    same_text_cong s b c (name_at j) (λ i p q. same.same_bytes i (omega arith) (omega arith))

-- Entry `k` as `fs_create` and `fs_mkdir` fill it in.
abbrev pub filled : Block → ℕ → List ℕ → ℕ → Block
filled dirs k name n = set_entry_inode (copy_text name (set_valid dirs k 1) (name_at k)) k n

-- The entry is valid, with the name and the number; the other entries are untouched.
pub record IsFilled (dirs new : Block) (k : ℕ) (name : List ℕ) (n : ℕ) : Type 0 where
  pub is_valid : valid new k ≡ true
  pub number : entry_inode new k ≡ n
  pub named : same_text name new (name_at k) ≡ true
  pub others : (j : ℕ) → j ≢ k → SameEntry new dirs j

module _ (dirs : Block) (k : ℕ) (name : List ℕ) (n : ℕ) (text : IsText name)
    (short : length name ≤ 27) (small : n < 2 ^ 31) where
  abbrev named_entry : Block
  named_entry = copy_text name (set_valid dirs k 1) (name_at k)

  filled-outside : (i : ℕ) → (i < 32 * k) ⊎ (32 * k + 32 ≤ i) → filled dirs k name n i ≡ dirs i
  unfolding set_valid set_entry_inode
  filled-outside i apart =
      set_u32-outside named_entry (32 * k) _ i (omega arith)
      ∙ copy_text-outside name (set_valid dirs k 1) (name_at k) i (omega arith)
      ∙ set_u32-outside dirs (32 * k) _ i (omega arith)

  named-word : get_u32 named_entry (32 * k) % 2 ≡ 1
  unfolding set_valid
  named-word =
      let flagged = set_valid dirs k 1 in
      let keeps =
        λ (i : ℕ) (h : i < name_at k). copy_text-outside name flagged (name_at k) i (inl h) in
      let kept : get_u32 named_entry (32 * k) ≡ get_u32 flagged (32 * k) =
        get_u32_cong named_entry flagged (32 * k) (keeps (32 * k) (omega arith))
          (keeps (32 * k + 1) (omega arith)) (keeps (32 * k + 2) (omega arith))
          (keeps (32 * k + 3) (omega arith)) in
      rw (kept, get_u32-set_u32 dirs (32 * k)) (omega arith)

  filled-word : get_u32 (filled dirs k name n) (32 * k) ≡ n * 2 + 1
  unfolding set_entry_inode
  filled-word = rw (get_u32-set_u32 named_entry (32 * k), named-word) (omega arith)

  filled-named : same_text name (filled dirs k name n) (name_at k) ≡ true
  unfolding set_entry_inode
  filled-named =
      same_text_cong name _ named_entry (name_at k)
        (λ i p q. set_u32-outside named_entry (32 * k) _ i (omega arith))
      ∙ same_text-copy_text name (set_valid dirs k 1) (name_at k) text

  -- Filling in an entry with a name of at most 27 bytes and a number below 2 ^ 31 makes it valid, with
  -- the name and the number, and leaves the 32 bytes of every other entry as they were.
  pub filled-IsFilled : IsFilled dirs (filled dirs k name n) k name n
  filled-IsFilled = record {
    is_valid = rw filled-word (ground arith);
    number = rw filled-word (omega arith);
    named = filled-named;
    others = λ j ne. record { same_bytes = λ i p q. filled-outside i (ground arith) };
  }

-- Entry `k` has another name; its word and the other entries are untouched.
pub record IsRenamed (dirs new : Block) (k : ℕ) (name : List ℕ) : Type 0 where
  pub same_word : get_u32 new (32 * k) ≡ get_u32 dirs (32 * k)
  pub named : same_text name new (name_at k) ≡ true
  pub others : (j : ℕ) → j ≢ k → SameEntry new dirs j

pub copy_text-IsRenamed :
    (dirs : Block) (k : ℕ) (name : List ℕ)
    → IsText name
    → length name ≤ 27
    → IsRenamed dirs (copy_text name dirs (name_at k)) k name
copy_text-IsRenamed dirs k name text short =
    let outside = copy_text-outside name dirs (name_at k) in
    record {
      same_word =
          get_u32_cong (copy_text name dirs (name_at k)) dirs (32 * k)
            (outside (32 * k) (omega arith)) (outside (32 * k + 1) (omega arith))
            (outside (32 * k + 2) (omega arith)) (outside (32 * k + 3) (omega arith));
      named = same_text-copy_text name dirs (name_at k) text;
      others = λ j ne. record { same_bytes = λ i p q. outside i (ground arith) };
    }
