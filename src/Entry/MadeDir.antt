-- ===== src/Entry/MadeDir.antt =====
-- What `fs_mkdir` leaves in the image when it succeeds.
use unix_like_file_system.Base.{
  ℕ, ◌≤◌, ◌<◌, ◌≡◌, ◌≢◌, sym, ap, ◌∙◌, true, false, ◌||◌, ◌==◌, length, arith, ==-refl, ==→eq,
  Bool-cases, inl, inr,
}
use mathlib.Core.Bool.{false≢true}
use unix_like_file_system.Block.{Block}
use unix_like_file_system.Disk.{Disk, done, write_at, zero_block}
use unix_like_file_system.Disk.Reads.{Holds}
use unix_like_file_system.Disk.Writes.{
  Holds-write_at, Holds-write_at_self, write_at-ne, write_at-inside,
}
use unix_like_file_system.Bitmap.{map_bits, bit_test}
use unix_like_file_system.Bitmap.Alloc.{Allocates, Holds-SameFiles, in_use}
use unix_like_file_system.Inode.{num_dirents, ptr, valid}
use unix_like_file_system.Inode.Entries.{IsText, filled, IsFilled, filled-IsFilled}
use unix_like_file_system.Path.{Text}
use unix_like_file_system.Entry.Create.{Apart, used-ne-free}

-- The image `g` is `d` with the new inode in block `i` and a block `e` without entries, both marked as
-- used, and entry `k` of the parent's entries filled in.
pub record MadeDir (d g : Disk) (name : Text) (entries i e k : ℕ) (dirs node : Block) : Type 0 where
  pub new_blocks : (i < map_bits) × (e < map_bits) × (i ≢ e)
  pub were_free : (3 ≤ i) × (3 ≤ e) × (in_use d i ≡ false) × (in_use d e ≡ false)
  pub marks : (j : ℕ) → in_use g j ≡ ((e == j) || ((i == j) || in_use d j))
  pub node_there : Holds g i node
  pub points : ptr node 0 ≡ e
  pub no_entries : Holds g e zero_block
  pub unused : (k < num_dirents) × (valid dirs k ≡ false)
  pub new_dirs : Block
  pub dirs_there : Holds g entries new_dirs
  pub entry : IsFilled dirs new_dirs k name i
  pub same_files :
      (l : ℕ) → l ≢ 1 → l ≢ i → l ≢ e → l ≢ entries → l < d.blocks → g.block l ≡ d.block l
  pub not_smaller : (l : ℕ) → l < d.blocks → l < g.blocks

module _ {d g h : Disk} {inum i e k : ℕ} (name : Text) (parent dirs node : Block)
    (apart : Apart d inum (ptr parent 0)) (first : Allocates d (done i g))
    (second : Allocates g (done e h)) (points : ptr node 0 ≡ e)
    (unused : (k < num_dirents) × (valid dirs k ≡ false)) (there : Holds d (ptr parent 0) dirs)
    (home : Holds d inum parent) (text : IsText name) (short : length name ≤ 27) where
  abbrev pub cleared : Disk
  cleared = write_at e zero_block h

  abbrev pub with_dir : Disk
  with_dir = write_at i node cleared

  abbrev with_entry : Disk
  with_entry = write_at (ptr parent 0) (filled dirs k name i) with_dir

  abbrev with_parent : Disk
  with_parent = write_at inum parent with_entry

  entries-ne-i : ptr parent 0 ≢ i
  entries-ne-i = used-ne-free d (ptr parent 0) i apart.entries_used first.2

  inum-ne-i : inum ≢ i
  inum-ne-i = used-ne-free d inum i apart.inum_used first.2

  -- What was in use, or was taken by the first allocation, is not taken by the second.
  ne-e : (l : ℕ) → ((i == l) || in_use d l) ≡ true → l ≢ e
  ne-e l used = used-ne-free g l e (first.4 l ∙ used) second.2

  entries-ne-e : ptr parent 0 ≢ e
  entries-ne-e = ne-e (ptr parent 0) (ground (arith, apart.entries_used))

  inum-ne-e : inum ≢ e
  inum-ne-e = ne-e inum (ground (arith, apart.inum_used))

  i-ne-e : i ≢ e
  i-ne-e = ne-e i (ground arith)

  free_before : in_use d e ≡ false
  free_before = ground (arith, first.4 e, second.2)

  still_inside : (l : ℕ) → l < d.blocks → l < h.blocks
  still_inside l lt = rw (second.5.same_blocks, first.5.same_blocks) lt

  same_block : (l : ℕ) → l ≢ 1 → l < d.blocks → h.block l ≡ d.block l
  same_block l ne lt =
      second.5.same_block l ne (rw (first.5.same_blocks) lt) ∙ first.5.same_block l ne lt

  pub entries_stay : Holds with_dir (ptr parent 0) dirs
  entries_stay =
      Holds-write_at i node
        (Holds-write_at e zero_block
          (Holds-SameFiles second.5
            (Holds-SameFiles first.5 there (λ f. absurd (omega (arith, apart.entries_range))))
            (λ f. absurd (omega (arith, apart.entries_range))))
          entries-ne-e)
        entries-ne-i

  untouched :
      (l : ℕ)
      → l ≢ i
      → l ≢ e
      → l ≢ ptr parent 0
      → l ≢ inum
      → l < d.blocks
      → with_parent.block l ≡ h.block l
  untouched l a b c f lt =
      let in_cleared = write_at-inside e l zero_block h (still_inside l lt) in
      let in_dir = write_at-inside i l node cleared in_cleared in
      let in_entry = write_at-inside (ptr parent 0) l (filled dirs k name i) with_dir in_dir in
      write_at-ne inum l parent with_entry f in_entry
      ∙ write_at-ne (ptr parent 0) l (filled dirs k name i) with_dir c in_dir
      ∙ write_at-ne i l node cleared a in_cleared
      ∙ write_at-ne e l zero_block h b (still_inside l lt)

  same_elsewhere :
      (l : ℕ)
      → l ≢ 1
      → l ≢ i
      → l ≢ e
      → l ≢ ptr parent 0
      → l < d.blocks
      → with_parent.block l ≡ d.block l
  same_elsewhere l a b b' c lt = elim (Bool-cases (l == inum)) [
    | inl at ↦ rw (==→eq l inum at, ==-refl inum) (sym home.content)
    | inr ne ↦
        untouched l b b' c (λ f. false≢true (sym ne ∙ rw (f, ==-refl inum))) lt ∙ same_block l a lt
  ]

  -- What holds of one of the new blocks is not changed by the writes to the parent.
  stays :
      {l : ℕ} {b : Block} → Holds with_dir l b → l ≢ ptr parent 0 → l ≢ inum → Holds with_parent l b
  stays held a b = Holds-write_at inum parent (Holds-write_at (ptr parent 0) _ held a) b

  pub made : MadeDir d with_parent name (ptr parent 0) i e k dirs node
  made = record {
    new_blocks = (first.1, second.1, i-ne-e);
    were_free = (first.0, second.0, first.2, free_before);
    marks = λ j.
        ap (λ b. bit_test b j)
          (untouched 1 (omega (arith, first.0)) (omega (arith, second.0))
            (omega (arith, apart.entries_range)) (omega (arith, apart.inum_range)) apart.map_there)
        ∙ second.4 j
        ∙ ap (λ u. (e == j) || u) (first.4 j);
    node_there =
        stays (Holds-write_at_self i node cleared (omega (arith, first.1)))
          (λ f. entries-ne-i (sym f)) (λ f. inum-ne-i (sym f));
    points = points;
    no_entries =
        stays
          (Holds-write_at i node (Holds-write_at_self e zero_block h (omega (arith, second.1)))
            (λ f. i-ne-e (sym f)))
          (λ f. entries-ne-e (sym f)) (λ f. inum-ne-e (sym f));
    unused = unused;
    new_dirs = filled dirs k name i;
    dirs_there =
        Holds-write_at inum parent
          (Holds-write_at_self (ptr parent 0) _ with_dir (omega (arith, apart.entries_range)))
          (λ f. apart.differ (sym f));
    entry = filled-IsFilled dirs k name i text short (omega (arith, first.1));
    same_files = same_elsewhere;
    not_smaller = λ l lt. write_at-inside inum l parent with_entry (
        write_at-inside (ptr parent 0) l (filled dirs k name i) with_dir (
          write_at-inside i l node cleared (write_at-inside e l zero_block h (still_inside l lt))));
  }
