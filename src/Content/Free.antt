-- ===== src/Content/Free.antt =====
-- Freeing the blocks of a file, and `fs_truncate`.
use unix_like_file_system.Base.{
  ℕ, zero, suc, ◌+◌, ◌-◌, ◌*◌, ◌^◌, ◌<◌, ◌≤◌, ◌≡◌, ◌≢◌, refl, sym, ap, ◌∙◌, inl, inr, ◌⊎◌, true,
  false, not, arith, ◌&&◌, ◌||◌, ◌==◌, ==→eq, ==-refl, leb, Bool, Bool-cases,
}
use mathlib.Core.Path.{subst}
use mathlib.Core.Bool.{false≢true}
use unix_like_file_system.Block.{Block, block_size, get_u32}
use unix_like_file_system.Disk.{Disk, Outcome, done, failed, aborted, fault, eopnotsupp}
use unix_like_file_system.Disk.Reads.{Holds}
use unix_like_file_system.Bitmap.{map_bits, bit_test}
use unix_like_file_system.Bitmap.Alloc.{in_use, Frees, free_blk-Frees, SameFiles, Holds-SameFiles}
use unix_like_file_system.Inode.{num_ptrs, ptr, size, is_dir, rounds_up}
use unix_like_file_system.Path.{Text}
use unix_like_file_system.Attr.Named.{Named, inode_of-done}
use unix_like_file_system.Attr.Mode.{Writes, block_write-Writes}
use unix_like_file_system.Content.{free_ptrs, fs_truncate}

-- Whether a block is among `rounds` pointers of an inode, from the pointer `i` on.
abbrev pub among : ℕ → ℕ → Block → ℕ → Bool
among zero i inode j = false
among (suc rounds) i inode j = (ptr inode i == j) || among rounds (i + 1) inode j

-- Block `j` holds bytes of the file: pointer `i` names it, and byte `i * 4096` is before the end.
abbrev pub IsOfFile : Block → ℕ → Type 0
IsOfFile inode j = (i : ℕ) × (i * block_size < size inode) × (ptr inode i ≡ j)

-- The test `gone` says whether a block has the property.
abbrev pub Marks : (ℕ → Bool) → (ℕ → Type 0) → Type 0
Marks gone P = (j : ℕ) → (gone j ≡ true → P j) × (P j → gone j ≡ true)

-- The blocks of the file have bits in the map.
abbrev pub InMap : Block → Type 0
InMap inode = (i : ℕ) → i * block_size < size inode → ptr inode i < map_bits

-- The pointers below `hi` are block numbers that the map has bits for.
abbrev InMapBelow : ℕ → Block → Type 0
InMapBelow hi inode = (i : ℕ) → i < hi → ptr inode i < map_bits

pub or_right : {a b : Bool} → a ≡ false → (a || b) ≡ true → b ≡ true
or_right {a} {b} off h = sym (ap (λ c. c || b) off) ∙ h

pub among-ptr :
    (rounds i : ℕ) (inode : Block) (l : ℕ)
    → among rounds i inode l ≡ true
    → (q : ℕ) × (i ≤ q) × (q < i + rounds) × (ptr inode q ≡ l)
among-ptr zero i inode l h = cc
among-ptr (suc rounds) i inode l h = elim (Bool-cases (ptr inode i == l)) [
  | inl e ↦ (i, omega arith, omega arith, ==→eq (ptr inode i) l e)
  | inr ne ↦
      let (q, low, high, same) = among-ptr rounds (i + 1) inode l (or_right ne h) in
      (q, omega arith, omega arith, same)
]

ptr-among :
    (rounds i : ℕ) (inode : Block) (q : ℕ)
    → i ≤ q
    → q < i + rounds
    → among rounds i inode (ptr inode q) ≡ true
ptr-among zero i inode q low high = absurd (omega arith)
ptr-among (suc rounds) i inode q low high = elim (Bool-cases (i == q)) [
  | inl at ↦
      let same : (ptr inode i == ptr inode q) ≡ true =
        ap (λ l. l == ptr inode q) (ap (ptr inode) (==→eq i q at)) ∙ ==-refl (ptr inode q) in
      rw same refl
  | inr ne ↦
      let further = ptr-among rounds (i + 1) inode q (ground (arith, low, ne)) (omega arith) in
      ap (λ b. (ptr inode i == ptr inode q) || b) further ∙ or_true (ptr inode i == ptr inode q)
]
  where
    or_true : (a : Bool) → (a || true) ≡ true
    or_true a = ground arith

module _ (inode : Block) (fits : size inode ≤ block_size * num_ptrs) where
  -- The pointers that the loop goes through are those of the blocks that hold bytes of the file.
  pub among-Marks : Marks (among (rounds_up (size inode)) 0 inode) (IsOfFile inode)
  unfolding rounds_up
  among-Marks j = (
    λ h.
        let (q, low, high, same) = among-ptr (rounds_up (size inode)) 0 inode j h in
        (q, ground (arith, high, fits), same),
    λ (i, lt, same).
        subst (λ l. among (rounds_up (size inode)) 0 inode l ≡ true) same
          (ptr-among (rounds_up (size inode)) 0 inode i (omega arith) (ground (arith, lt, fits))),
  )

  pub few_rounds : rounds_up (size inode) ≤ num_ptrs
  unfolding rounds_up
  few_rounds = ground arith

  pub InMap-below : InMap inode → InMapBelow (rounds_up (size inode)) inode
  unfolding rounds_up
  InMap-below in_map i lt = in_map i (ground (arith, lt, fits))

-- Two tests for the same property give the same answers.
pub Marks-eq :
    (gone gone' : ℕ → Bool) (P : ℕ → Type 0)
    → Marks gone P
    → Marks gone' P
    → (j : ℕ) → gone j ≡ gone' j
Marks-eq gone gone' P m m' j = elim (Bool-cases (gone j)) [
  | inl on ↦ on ∙ sym ((m' j).1 ((m j).0 on))
  | inr off ↦ elim (Bool-cases (gone' j)) [
    | inl on ↦ absurd (false≢true (sym off ∙ (m j).1 ((m' j).0 on)))
    | inr off' ↦ off ∙ sym off'
  ]
]

abbrev pub FreesAll : ℕ → ℕ → Block → Disk → Outcome (Unit {0}) → Type 0
FreesAll rounds i inode d (done _ g) =
    ((j : ℕ) → in_use g j ≡ (not (among rounds i inode j) && in_use d j)) × SameFiles d g
FreesAll rounds i inode d _ = ⊥

pub Frees-done :
    (i : ℕ) (d : Disk) (r : Outcome (Unit {0}))
    → Frees i d r
    → (g : Disk) × (r ≡ done tt g) × Frees i d (done tt g)
Frees-done i d (done u g) h = (g, refl, h)
Frees-done i d (failed e g) h = absurd h
Frees-done i d (aborted g) h = absurd h
Frees-done i d fault h = absurd h

FreesAll-cons :
    (rounds i : ℕ) (inode : Block) (d g : Disk) (r : Outcome (Unit {0}))
    → Frees (ptr inode i) d (done tt g)
    → FreesAll rounds (i + 1) inode g r
    → FreesAll (suc rounds) i inode d r
FreesAll-cons rounds i inode d g (done u h) (bits, files) (bits', files') = (
  λ j. bits' j ∙ ap (λ b. not (among rounds (i + 1) inode j) && b) (bits j) ∙ regroup j,
  record {
    same_blocks = files'.same_blocks ∙ files.same_blocks;
    same_block =
        λ l ne lt. files'.same_block l ne (rw files.same_blocks lt) ∙ files.same_block l ne lt;
  },
)
  where
    regroup :
        (j : ℕ)
        → (not (among rounds (i + 1) inode j) && (not (ptr inode i == j) && in_use d j))
          ≡ (not ((ptr inode i == j) || among rounds (i + 1) inode j) && in_use d j)
    regroup j = elim (Bool-cases (ptr inode i == j)) [
      | inl e ↦
          rw e (elim (Bool-cases (among rounds (i + 1) inode j)) [ inl a ↦ rw a | inr a ↦ rw a ])
      | inr e ↦ rw e
    ]
FreesAll-cons rounds i inode d g (failed e h) f r = absurd r
FreesAll-cons rounds i inode d g (aborted h) f r = absurd r
FreesAll-cons rounds i inode d g fault f r = absurd r

pub free_ptrs-FreesAll :
    (rounds i hi : ℕ) (inode : Block) (d : Disk)
    → i + rounds ≡ hi
    → hi ≤ num_ptrs
    → InMapBelow hi inode
    → 1 < d.blocks
    → FreesAll rounds i inode d (free_ptrs rounds i inode d)
unfolding free_ptrs
free_ptrs-FreesAll zero i hi inode d e fits in_map there =
    (λ j. refl, record { same_blocks = refl; same_block = λ l ne lt. refl })
free_ptrs-FreesAll (suc rounds) i hi inode d e fits in_map there =
    let within : leb num_ptrs i ≡ false = ground arith in
    let (g, run, frees) =
      Frees-done (ptr inode i) d _
        (free_blk-Frees (ptr inode i) d there (in_map i (omega arith))) in
    let there' : 1 < g.blocks = rw frees.1.same_blocks there in
    rw (within, run)
      (FreesAll-cons rounds i inode d g _ frees
        (free_ptrs-FreesAll rounds (i + 1) hi inode g (omega arith) fits in_map there'))

pub FreesAll-done :
    (rounds i : ℕ) (inode : Block) (d : Disk) (r : Outcome (Unit {0}))
    → FreesAll rounds i inode d r
    → (g : Disk) × (r ≡ done tt g) × FreesAll rounds i inode d (done tt g)
FreesAll-done rounds i inode d (done u g) h = (g, refl, h)
FreesAll-done rounds i inode d (failed e g) h = absurd h
FreesAll-done rounds i inode d (aborted g) h = absurd h
FreesAll-done rounds i inode d fault h = absurd h

-- The file has size 0, the blocks `gone` are free, and nothing else has changed.
pub record Truncated (d g : Disk) (n : ℕ) (gone : ℕ → Bool) (inode : Block) : Type 0 where
  pub empty : get_u32 (g.block n) 16 ≡ 0
  pub same_fields : (i : ℕ) → (i < 16) ⊎ (20 ≤ i) → g.block n i ≡ inode i
  pub freed : (j : ℕ) → in_use g j ≡ (not (gone j) && in_use d j)
  pub same_files : (l : ℕ) → l ≢ 1 → l ≢ n → l < d.blocks → g.block l ≡ d.block l
  pub same_blocks : g.blocks ≡ d.blocks

abbrev pub Truncates : Disk → ℕ → (ℕ → Bool) → Block → Outcome (Unit {0}) → Type 0
Truncates d n gone inode (done _ g) = Truncated d g n gone inode
Truncates d n gone inode _ = ⊥

Writes-Truncates :
    (d g : Disk) (n rounds : ℕ) (gone : ℕ → Bool) (inode : Block) (r : Outcome (Unit {0}))
    → ((j : ℕ) → gone j ≡ among rounds 0 inode j)
    → FreesAll rounds 0 inode d (done tt g)
    → 1 < d.blocks
    → 1 ≢ n
    → Writes g n inode 16 0 r
    → Truncates d n gone inode r
Writes-Truncates d g n rounds gone inode (done u h) same (bits, files) there ne w = record {
  empty = w.field;
  same_fields = w.same_fields;
  freed = λ j.
      ap (λ b. bit_test b j) (w.same_files 1 ne (rw files.same_blocks there))
      ∙ bits j
      ∙ ap (λ b. not b && in_use d j) (sym (same j));
  same_files = λ l a b lt. w.same_files l b (rw files.same_blocks lt) ∙ files.same_block l a lt;
  same_blocks = w.same_blocks ∙ files.same_blocks;
}
Writes-Truncates d g n rounds gone inode (failed e h) same f there ne w = absurd w
Writes-Truncates d g n rounds gone inode (aborted h) same f there ne w = absurd w
Writes-Truncates d g n rounds gone inode fault same f there ne w = absurd w

module _ (d : Disk) (path : Text) (n : ℕ) (inode : Block) (named : Named d path n inode) where
  -- For a path to a file of at most the largest size, whose blocks have bits in the map, `fs_truncate`
  -- to length 0 sets the size to 0 and frees exactly the blocks that hold bytes of the file, those
  -- that a pointer `i` with `i * 4096` below the size names; all other bytes of the inode and all
  -- other blocks but the map stay. The inode is behind the map and block_write can reach it.
  pub fs_truncate-Truncates :
      (gone : ℕ → Bool)
      → Marks gone (IsOfFile inode)
      → is_dir inode ≡ false
      → size inode ≤ block_size * num_ptrs
      → InMap inode
      → 1 < n
      → n < 2 ^ 19 - 1
      → 1 < d.blocks
      → Truncates d n gone inode (fs_truncate path true d)
  unfolding fs_truncate
  fs_truncate-Truncates gone marks is_file fits in_map pos reach there =
      let rounds = rounds_up (size inode) in
      let (g, run, frees) = FreesAll-done rounds 0 inode d _ (
        free_ptrs-FreesAll rounds 0 rounds inode d (omega arith) (few_rounds inode fits)
          (InMap-below inode fits in_map) there) in
      let held : Holds g n inode =
        Holds-SameFiles frees.1 named.holds (λ e. absurd (omega arith)) in
      let same = Marks-eq gone _ (IsOfFile inode) marks (among-Marks inode fits) in
      rw (inode_of-done eopnotsupp named, is_file, run)
        (Writes-Truncates d g n rounds gone inode _ same frees there (λ e. absurd (omega arith))
          (block_write-Writes g n inode 16 0 held (omega arith) reach (omega arith)))
