-- ===== src/Remove/Dropped.antt =====
-- What `fs_unlink` and `fs_rmdir` ask for, and what they leave in the parent directory.
use unix_like_file_system.Base.{
  ℕ, ◌*◌, ◌≤◌, ◌<◌, ◌≡◌, ◌≢◌, sym, ap, ◌∙◌, true, false, not, ◌&&◌, ◌||◌, Bool, some, List, [], ◌∷◌,
  ◌++◌, arith,
}
use unix_like_file_system.Block.{Block, set_u32}
use unix_like_file_system.Block.Words.{get_u32-set_u32, set_u32-outside}
use unix_like_file_system.Disk.{Disk, Outcome, done, write_at}
use unix_like_file_system.Disk.Reads.{Holds, read_unchecked-Holds}
use unix_like_file_system.Disk.Writes.{
  block_write-done, Holds-write_at, Holds-write_at_self, write_at-ne, write_at-inside,
}
use unix_like_file_system.Bitmap.{map_bits, bit_test}
use unix_like_file_system.Bitmap.Alloc.{in_use, SameFiles, Holds-SameFiles}
use unix_like_file_system.Inode.{num_dirents, ptr, valid, is_dir, set_valid}
use unix_like_file_system.Inode.Entries.{SameEntry}
use unix_like_file_system.Path.{Text}
use unix_like_file_system.Path.Tokens.{slashed}
use unix_like_file_system.Lookup.{path2inum, from_root}
use unix_like_file_system.Lookup.Missing.{not_last}
use unix_like_file_system.Lookup.Paths.{Fits}
use unix_like_file_system.Entry.{parent_inode}
use unix_like_file_system.Entry.Parent.{path2inum-parent_of, split_path-slashed}
use unix_like_file_system.Remove.Searches.{IsFirstWith, find_inode-some}
use unix_like_file_system.Remove.{before_removal, find_inode, clear_entry, drop_entry}

-- The path leads to inode `n`, its parent is inode `inum`, and entry `k` of the parent is the first
-- valid one with that number.
pub record Removing (d : Disk) (names : List Text) (name : Text) (inum n k : ℕ)
    (parent dirs inode : Block) : Type 0 where
  pub fits : Fits (names ++ name ∷ [])
  pub found : from_root names d ≡ done inum d
  pub holds : Holds d inum parent
  pub directory : is_dir parent ≡ true
  pub target : path2inum (slashed (names ++ name ∷ [])) d ≡ done n d
  pub there : Holds d n inode
  pub entries : Holds d (ptr parent 0) dirs
  pub entry : IsFirstWith dirs n k

-- The parent's inode and its entries are outside of the map and apart.
pub record Places (d : Disk) (inum entries : ℕ) : Type 0 where
  pub map_there : 1 < d.blocks
  pub inum_range : (1 < inum) × (inum < map_bits)
  pub entries_range : (1 < entries) × (entries < map_bits)
  pub differ : inum ≢ entries

-- The image `g` is `d` with the blocks `gone` free, entry `k` of the parent not valid, and the
-- parent's `mtime` set.
pub record Removed (d g : Disk) (now inum k : ℕ) (parent dirs : Block) (gone : ℕ → Bool)
    : Type 0 where
  pub not_smaller : d.blocks ≤ g.blocks
  pub freed : (j : ℕ) → in_use g j ≡ (not (gone j) && in_use d j)
  pub stamped : Holds g inum (set_u32 parent 12 now)
  pub new_dirs : Block
  pub dirs_there : Holds g (ptr parent 0) new_dirs
  pub cleared : valid new_dirs k ≡ false
  pub others : (j : ℕ) → j ≢ k → SameEntry new_dirs dirs j
  pub same_files :
      (l : ℕ) → l ≢ 1 → l ≢ inum → l ≢ ptr parent 0 → l < d.blocks → g.block l ≡ d.block l

abbrev pub Removes : Disk → ℕ → ℕ → ℕ → Block → Block → (ℕ → Bool) → Outcome (Unit {0}) → Type 0
Removes d now inum k parent dirs gone (done _ g) = Removed d g now inum k parent dirs gone
Removes d now inum k parent dirs gone _ = ⊥

pub SameFiles-trans : {d h g : Disk} → SameFiles d h → SameFiles h g → SameFiles d g
SameFiles-trans s t = record {
  same_blocks = t.same_blocks ∙ s.same_blocks;
  same_block = λ l ne lt. t.same_block l ne (rw s.same_blocks lt) ∙ s.same_block l ne lt;
}

-- One more block that is free.
pub not-or : (a b c : Bool) → (not a && (not b && c)) ≡ (not (a || b) && c)
not-or a b c = ground arith

set_valid-cleared : (dirs : Block) (k : ℕ) → valid (set_valid dirs k 0) k ≡ false
unfolding set_valid
set_valid-cleared dirs k = rw (get_u32-set_u32 dirs (32 * k)) (ground arith)

set_valid-SameEntry : (dirs : Block) (k v j : ℕ) → j ≢ k → SameEntry (set_valid dirs k v) dirs j
unfolding set_valid
set_valid-SameEntry dirs k v j ne = record {
  same_bytes = λ i p q. set_u32-outside dirs (32 * k) _ i (ground arith);
}

drop_entry-done :
    (d : Disk) (now n inum k : ℕ) (parent dirs : Block)
    → find_inode num_dirents 0 n dirs ≡ some k
    → (1 < inum) × (inum < map_bits)
    → (1 < ptr parent 0) × (ptr parent 0 < map_bits)
    → drop_entry now n inum parent dirs d
      ≡ done tt
          (write_at inum (set_u32 parent 12 now) (write_at (ptr parent 0) (set_valid dirs k 0) d))
unfolding drop_entry clear_entry
drop_entry-done d now n inum k parent dirs found (p, q) (p', q') =
    let new = set_valid dirs k 0 in
    rw (
      found,
      block_write-done (ptr parent 0) new d (omega arith) (omega arith),
      block_write-done inum (set_u32 parent 12 now) (write_at (ptr parent 0) new d) (omega arith)
          (omega arith),
    )

module _ {d : Disk} {names : List Text} {name : Text} {inum n k : ℕ} {parent dirs inode : Block}
    (r : Removing d names name inum n k parent dirs inode) where
  pub before_removal-done :
      before_removal (slashed (names ++ name ∷ [])) d ≡ done (inum, parent, n, inode) d
  unfolding before_removal parent_inode
  before_removal-done = rw (
    split_path-slashed d (names ++ name ∷ []) r.fits (not_last names name),
    path2inum-parent_of d names name r.fits,
    r.found,
    read_unchecked-Holds r.holds,
    r.directory,
    r.target,
    read_unchecked-Holds r.there,
  )

  module _ (places : Places d inum (ptr parent 0)) (now : ℕ) (g : Disk) (gone : ℕ → Bool)
      (bits : (j : ℕ) → in_use g j ≡ (not (gone j) && in_use d j)) (files : SameFiles d g) where
    abbrev with_entry : Disk
    with_entry = write_at (ptr parent 0) (set_valid dirs k 0) g

    inside_g : (l : ℕ) → l < d.blocks → l < g.blocks
    inside_g l lt = rw files.same_blocks lt

    untouched :
        (l : ℕ)
        → l ≢ inum
        → l ≢ ptr parent 0
        → l < d.blocks
        → (write_at inum (set_u32 parent 12 now) with_entry).block l ≡ g.block l
    untouched l a b lt =
        write_at-ne inum l _ with_entry a
          (write_at-inside (ptr parent 0) l (set_valid dirs k 0) g (inside_g l lt))
        ∙ write_at-ne (ptr parent 0) l _ g b (inside_g l lt)

    removed :
        Removed d (write_at inum (set_u32 parent 12 now) with_entry) now inum k parent dirs gone
    removed = record {
      not_smaller = ground (arith, files.same_blocks);
      freed = λ j.
          ap (λ b. bit_test b j)
            (untouched 1 (omega (arith, places.inum_range)) (omega (arith, places.entries_range))
              places.map_there)
          ∙ bits j;
      stamped = Holds-write_at_self inum _ with_entry (omega (arith, places.inum_range));
      new_dirs = set_valid dirs k 0;
      dirs_there =
          Holds-write_at inum _
            (Holds-write_at_self (ptr parent 0) _ g (omega (arith, places.entries_range)))
            (λ e. places.differ (sym e));
      cleared = set_valid-cleared dirs k;
      others = λ j ne. set_valid-SameEntry dirs k 0 j ne;
      same_files = λ l a b c lt. untouched l b c lt ∙ files.same_block l a lt;
    }

    pub entries_stay : Holds g (ptr parent 0) dirs
    entries_stay =
        Holds-SameFiles files r.entries (λ e. absurd (omega (arith, places.entries_range)))

    -- Where the blocks are free already, clearing the entry is all that is left.
    pub drop_entry-Removes :
        Removes d now inum k parent dirs gone (drop_entry now n inum parent dirs g)
    drop_entry-Removes =
        rw
          (drop_entry-done g now n inum k parent dirs (find_inode-some dirs n r.entry)
            places.inum_range places.entries_range)
          removed
