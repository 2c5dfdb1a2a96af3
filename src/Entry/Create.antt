-- ===== src/Entry/Create.antt =====
-- What `fs_create` leaves in the image when it succeeds.
use unix_like_file_system.Base.{
  ℕ, ◌≤◌, ◌<◌, ◌≡◌, ◌≢◌, sym, ap, ◌∙◌, true, false, leb, inl, inr, ◌||◌, ◌==◌, some, length, arith,
  ==-refl, ==→eq, Bool-cases,
}
use mathlib.Core.Bool.{false≢true}
use unix_like_file_system.Block.{Block}
use unix_like_file_system.Disk.{Disk, done, write_at}
use unix_like_file_system.Disk.Reads.{Holds, read_unchecked-Holds}
use unix_like_file_system.Disk.Writes.{
  block_write-done, Holds-write_at, Holds-write_at_self, write_at-ne, write_at-inside,
}
use unix_like_file_system.Bitmap.{map_bits, bit_test}
use unix_like_file_system.Bitmap.Alloc.{Allocates, Holds-SameFiles, in_use}
use unix_like_file_system.Inode.{num_dirents, ptr, valid}
use unix_like_file_system.Inode.Entries.{IsText, filled, IsFilled, filled-IsFilled}
use unix_like_file_system.Path.{Text}
use unix_like_file_system.Entry.{find_unused, copy_name, add_entry}

-- The places that a call touches are apart: the map, the parent's inode and its entries; the parent
-- and its entries are marked as used.
pub record Apart (d : Disk) (inum entries : ℕ) : Type 0 where
  pub map_there : 1 < d.blocks
  pub inum_range : (1 < inum) × (inum < map_bits)
  pub entries_range : (1 < entries) × (entries < map_bits)
  pub differ : inum ≢ entries
  pub inum_used : in_use d inum ≡ true
  pub entries_used : in_use d entries ≡ true

-- The image `g` is `d` with the new inode in block `i`, marked as used, and entry `k` of the parent's
-- entries filled in.
pub record Created (d g : Disk) (name : Text) (inum entries i k : ℕ) (dirs node : Block)
    : Type 0 where
  pub new_block : (3 ≤ i) × (i < map_bits) × (in_use d i ≡ false)
  pub marks : (j : ℕ) → in_use g j ≡ ((i == j) || in_use d j)
  pub node_there : Holds g i node
  pub unused : (k < num_dirents) × (valid dirs k ≡ false)
  pub new_dirs : Block
  pub dirs_there : Holds g entries new_dirs
  pub entry : IsFilled dirs new_dirs k name i
  pub same_files : (l : ℕ) → l ≢ 1 → l ≢ i → l ≢ entries → l < d.blocks → g.block l ≡ d.block l
  pub not_smaller : (l : ℕ) → l < d.blocks → l < g.blocks

pub add_entry-done :
    (d : Disk) (name : Text) (n inum : ℕ) (parent dirs : Block) (k : ℕ)
    → Holds d (ptr parent 0) dirs
    → length name ≤ 27
    → find_unused num_dirents 0 dirs ≡ some k
    → (0 < inum) × (inum < map_bits)
    → (0 < ptr parent 0) × (ptr parent 0 < map_bits)
    → add_entry name n inum parent d
      ≡ done tt (write_at inum parent (write_at (ptr parent 0) (filled dirs k name n) d))
unfolding add_entry copy_name
add_entry-done d name n inum parent dirs k holds short found (p, q) (p', q') =
    let fits : leb 28 (length name) ≡ false = ground arith in
    let new = filled dirs k name n in
    rw (
      read_unchecked-Holds holds,
      found,
      fits,
      block_write-done (ptr parent 0) new d p' (omega arith),
      block_write-done inum parent (write_at (ptr parent 0) new d) p (omega arith),
    )

-- A block in use is not one that was free.
pub used-ne-free : (d : Disk) (l i : ℕ) → in_use d l ≡ true → in_use d i ≡ false → l ≢ i
used-ne-free d l i used free e = false≢true (sym free ∙ ap (in_use d) (sym e) ∙ used)

module _ {d g : Disk} {inum i k : ℕ} (name : Text) (parent dirs node : Block)
    (apart : Apart d inum (ptr parent 0)) (alloc : Allocates d (done i g))
    (unused : (k < num_dirents) × (valid dirs k ≡ false)) (there : Holds d (ptr parent 0) dirs)
    (home : Holds d inum parent) (text : IsText name) (short : length name ≤ 27) where
  abbrev pub with_node : Disk
  with_node = write_at i node g

  abbrev with_entry : Disk
  with_entry = write_at (ptr parent 0) (filled dirs k name i) with_node

  abbrev with_parent : Disk
  with_parent = write_at inum parent with_entry

  ne_entries : ptr parent 0 ≢ i
  ne_entries = used-ne-free d (ptr parent 0) i apart.entries_used alloc.2

  ne_inum : inum ≢ i
  ne_inum = used-ne-free d inum i apart.inum_used alloc.2

  pub entries_stay : Holds with_node (ptr parent 0) dirs
  entries_stay =
      Holds-write_at i node
        (Holds-SameFiles alloc.5 there (λ e. absurd (omega (arith, apart.entries_range))))
        ne_entries

  still_inside : (l : ℕ) → l < d.blocks → l < g.blocks
  still_inside l h = rw (alloc.5.same_blocks) h

  untouched :
      (l : ℕ) → l ≢ i → l ≢ ptr parent 0 → l ≢ inum → l < d.blocks → with_parent.block l ≡ g.block l
  untouched l a b c h =
      let in_g = still_inside l h in
      let in_node = write_at-inside i l node g in_g in
      let in_entry = write_at-inside (ptr parent 0) l (filled dirs k name i) with_node in_node in
      write_at-ne inum l parent with_entry c in_entry
      ∙ write_at-ne (ptr parent 0) l (filled dirs k name i) with_node b in_node
      ∙ write_at-ne i l node g a in_g

  parent_stays : with_parent.block inum ≡ d.block inum
  parent_stays = rw (==-refl inum) (sym home.content)

  same_elsewhere :
      (l : ℕ) → l ≢ 1 → l ≢ i → l ≢ ptr parent 0 → l < d.blocks → with_parent.block l ≡ d.block l
  same_elsewhere l a b c h = elim (Bool-cases (l == inum)) [
    | inl e ↦ rw (==→eq l inum e) parent_stays
    | inr ne ↦
        untouched l b c (λ e. false≢true (sym ne ∙ rw (e, ==-refl inum))) h
        ∙ alloc.5.same_block l a h
  ]

  pub created : Created d with_parent name inum (ptr parent 0) i k dirs node
  created = record {
    new_block = (alloc.0, alloc.1, alloc.2);
    marks = λ j.
        ap (λ b. bit_test b j)
          (untouched 1 (omega (arith, alloc.0)) (omega (arith, apart.entries_range))
            (omega (arith, apart.inum_range)) apart.map_there)
        ∙ alloc.4 j;
    node_there =
        Holds-write_at inum parent
          (Holds-write_at (ptr parent 0) _ (Holds-write_at_self i node g (omega (arith, alloc.1)))
            (λ e. ne_entries (sym e)))
          (λ e. ne_inum (sym e));
    unused = unused;
    new_dirs = filled dirs k name i;
    dirs_there =
        Holds-write_at inum parent
          (Holds-write_at_self (ptr parent 0) _ with_node (omega (arith, apart.entries_range)))
          (λ e. apart.differ (sym e));
    entry = filled-IsFilled dirs k name i text short (omega (arith, alloc.1));
    same_files = same_elsewhere;
    not_smaller = λ l h. write_at-inside inum l parent with_entry (
        write_at-inside (ptr parent 0) l (filled dirs k name i) with_node
          (write_at-inside i l node g (still_inside l h)));
  }
