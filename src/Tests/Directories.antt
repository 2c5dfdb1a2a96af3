-- ===== src/Tests/Directories.antt =====
-- Listing the sample image's root directory, and making a directory in it.
use unix_like_file_system.Base.{
  ℕ, ◌-◌, ◌^◌, ◌≤◌, ◌<◌, ◌≡◌, ◌≢◌, ◌⊎◌, inl, inr, refl, sym, ap, ◌∙◌, [], ◌∷◌, true, not, ◌||◌,
  ◌==◌, arith, if◌then◌else◌, length,
}
use mathlib.Core.Path.{subst}
use unix_like_file_system.Base.Bits.{holds_below, holds_below_lem}
use unix_like_file_system.Block.{Block, get_u32, set_u32, set_byte}
use unix_like_file_system.Disk.{
  Disk, done, zero_block, write_at, read_unchecked, block_read, block_write,
}
use unix_like_file_system.Disk.Reads.{Holds}
use unix_like_file_system.Bitmap.{alloc_blk, bit_set, bit_test, first_free, take_block}
use unix_like_file_system.Inode.{num_dirents, size, ptr, valid, entry_inode, name_at}
use unix_like_file_system.Path.{Text, slash, skip, strtok, tokens, tokenise}
use unix_like_file_system.Path.Tokens.{slashed}
use unix_like_file_system.Lookup.{path2inum, from_root}
use unix_like_file_system.Lookup.Missing.{stay}
use unix_like_file_system.Lookup.Paths.{Fits}
use unix_like_file_system.Attr.{fs_readdir}
use unix_like_file_system.Attr.Named.{Named}
use unix_like_file_system.Attr.Texts.{IsTextAt}
use unix_like_file_system.Attr.Shown.{Directory}
use unix_like_file_system.Attr.Listing.{ListsAll, fs_readdir-ListsAll}
use unix_like_file_system.Entry.{fs_mkdir}
use unix_like_file_system.Entry.MakeDir.{Makes, fs_mkdir-Makes}
use unix_like_file_system.Sample.{image, map, root_entries, inode, name_a, name_d, name_x}
use unix_like_file_system.Tests.Facts.{
  root, root_there, node_a, node_d, a_there, names_a-Fits, name_d-Fits, listed,
}
use unix_like_file_system.Tests.Places.{
  vacant_x, root-Apart, name_x-IsText, allocated, allocated_8, unused_2, caller, root_is_dir,
}

abbrev allocated_two : Disk
allocated_two = write_at 1 (bit_set (bit_set map 8) 9) allocated

pub allocated_9 : alloc_blk allocated ≡ done 9 allocated_two
unfolding alloc_blk first_free take_block read_unchecked block_read block_write image map set_byte
    bit_test bit_set
allocated_9 = refl

fs_mkdir-Makes_example :
    Makes image name_x
      (ptr root 0)
      root_entries
      caller
      448
      (fs_mkdir zero_block caller (slashed (name_x ∷ [])) 448 image)
fs_mkdir-Makes_example =
    fs_mkdir-Makes vacant_x root-Apart name_x-IsText allocated_8 allocated_9 unused_2 zero_block
      caller 448

-- The root directory's two entries.
abbrev name_of : ℕ → Text
name_of k = if k == 0 then name_a else name_d

abbrev node_of : ℕ → Block
node_of k = if k == 0 then node_a else node_d

few_valid :
    holds_below num_dirents (λ k. not (valid root_entries k) || ((k == 0) || (k == 1))) ≡ true
unfolding root_entries get_u32 set_u32 holds_below
few_valid = refl

zero_or_one : (k : ℕ) → k < num_dirents → valid root_entries k ≡ true → (k ≡ 0) ⊎ (k ≡ 1)
zero_or_one k lt used =
    let h =
      holds_below_lem num_dirents (λ j. not (valid root_entries j) || ((j == 0) || (j == 1))) k
        few_valid lt in
    ground (arith, h, used)

-- What holds of the two entries holds of every valid one.
pub for_both :
    (P : ℕ → Type 0) → P 0 → P 1 → (k : ℕ) → k < num_dirents → valid root_entries k ≡ true → P k
for_both P p0 p1 k lt used = elim (zero_or_one k lt used) [
  | inl e ↦ subst P (sym e) p0
  | inr e ↦ subst P (sym e) p1
]

d_there : Holds image 6 node_d
unfolding image
d_there = record { inside = omega arith; reachable = omega arith; content = refl }

pub entry_numbers : (entry_inode root_entries 0 ≡ 4) × (entry_inode root_entries 1 ≡ 6)
unfolding root_entries get_u32 set_u32
entry_numbers = (refl, refl)

name_a_at : IsTextAt name_a root_entries (name_at 0)
unfolding root_entries set_u32
name_a_at = (refl, (λ e. absurd (omega arith)), refl)

name_d_at : IsTextAt name_d root_entries (name_at 1)
unfolding root_entries set_u32
name_d_at = (refl, (λ e. absurd (omega arith)), refl)

sizes : (size node_a < 2 ^ 31 - 4096) × (size node_d < 2 ^ 31 - 4096) × (size root ≢ 0)
unfolding get_u32 inode set_u32
sizes = (omega arith, omega arith, λ e. absurd (omega arith))

-- The first byte of a text, or 0.
abbrev initial : Text → ℕ
initial [] = 0
initial (c ∷ s) = c

names_differ : name_a ≢ name_d
names_differ e =
    let same : initial name_a ≡ initial name_d = ap initial e in absurd (omega (arith, same))

distinct_names :
    (j k : ℕ)
    → j < num_dirents
    → k < num_dirents
    → valid root_entries j ≡ true
    → valid root_entries k ≡ true
    → name_of j ≡ name_of k
    → j ≡ k
distinct_names j k p q used used' same = elim (zero_or_one j p used) [
  | inl e ↦ elim (zero_or_one k q used') [
    | inl f ↦ e ∙ sym f
    | inr f ↦ absurd (names_differ (ap name_of (sym e) ∙ same ∙ ap name_of f))
  ]
  | inr e ↦ elim (zero_or_one k q used') [
    | inl f ↦ absurd (names_differ (sym (ap name_of (sym e) ∙ same ∙ ap name_of f)))
    | inr f ↦ e ∙ sym f
  ]
]

abbrev root-Directory : Directory image [] root root_entries name_of node_of
root-Directory = record {
  root = root;
  root_there = root_there;
  leads = stay;
  nonempty = sizes.2;
  dirs_there = (listed name_a (omega arith)).entries;
  has_name = for_both (λ k. IsTextAt (name_of k) root_entries (name_at k)) name_a_at name_d_at;
  short = for_both (λ k. length (name_of k) ≤ 27) (omega arith) (omega arith);
  fits = for_both (λ k. Fits (name_of k ∷ [])) names_a-Fits name_d-Fits;
  distinct = distinct_names;
  has_node =
      for_both (λ k. Holds image (entry_inode root_entries k) (node_of k))
        (rw (entry_numbers.0) a_there) (rw (entry_numbers.1) d_there);
  numbered =
      for_both (λ k. 0 < entry_inode root_entries k) (omega (arith, entry_numbers.0))
        (omega (arith, entry_numbers.1));
  sane = for_both (λ k. size (node_of k) < 2 ^ 31 - 4096) sizes.0 sizes.1;
}

slash_path : path2inum (slash ∷ []) image ≡ done 2 image
unfolding path2inum from_root tokenise tokens strtok skip
slash_path = refl

root-Named : Named image (slash ∷ []) 2 root
root-Named = record { found = slash_path; positive = omega arith; holds = root_there }

fs_readdir-ListsAll_example : ListsAll image [] root_entries name_of (fs_readdir (slash ∷ []) image)
fs_readdir-ListsAll_example = fs_readdir-ListsAll root-Directory root-Named root_is_dir
