-- ===== src/Tests/Removals.antt =====
-- `fs_unlink` and `fs_rmdir` at concrete inputs.
use mathlib.Core.Bool.{false≢true}
use unix_like_file_system.Base.{
  ℕ, zero, suc, ◌⊎◌, inl, inr, sym, ap, ◌∙◌, ==→eq, Bool-cases, ◌≢◌, ◌<◌, ◌≡◌, refl, [], ◌∷◌, true,
  ◌||◌, ◌==◌, arith,
}
use unix_like_file_system.Block.{get_u32, set_u32}
use unix_like_file_system.Disk.{Disk, failed, enotempty, write_at, zero_block}
use unix_like_file_system.Disk.Reads.{Holds}
use unix_like_file_system.Disk.Writes.{Holds-write_at, Holds-write_at_self, write_at-inside}
use unix_like_file_system.Bitmap.{map_bits}
use unix_like_file_system.Inode.{ptr, is_dir, valid, entry_inode}
use unix_like_file_system.Path.{slash}
use unix_like_file_system.Path.Tokens.{slashed}
use unix_like_file_system.Lookup.{from_root}
use unix_like_file_system.Content.Free.{IsOfFile, Marks, or_right}
use unix_like_file_system.Remove.Searches.{IsEmpty, IsFirstWith}
use unix_like_file_system.Remove.{fs_unlink, fs_rmdir}
use unix_like_file_system.Remove.Dropped.{Removing, Places, Removes}
use unix_like_file_system.Remove.Unlink.{fs_unlink-Removes}
use unix_like_file_system.Remove.Rmdir.{fs_rmdir-Removes, fs_rmdir-not_empty}
use unix_like_file_system.Remove.Root.{FreesBoth, fs_rmdir_root}
use unix_like_file_system.Sample.{name_a, name_d, image, root_entries, inode}
use unix_like_file_system.Tests.Facts.{
  image_has_map, looked_up, root, node_a, node_d, names_a, names_a-Fits, name_d-Fits, root_there,
  a_there, path_a, x_missing, a_is_file, fits_in_a, node_a-InMap, node_a-Marks,
}
use unix_like_file_system.Tests.Places.{root-Apart, root_is_dir}

entry_of_a : IsFirstWith root_entries 4 0
unfolding get_u32 set_u32 root_entries
entry_of_a = record {
  below = omega arith;
  used = refl;
  number = refl;
  earlier = λ j lt. absurd (omega arith);
}

-- Entry 0 is valid, and has another number.
entry_of_d : IsFirstWith root_entries 6 1
unfolding get_u32 set_u32 root_entries
entry_of_d = record { below = omega arith; used = refl; number = refl; earlier = first_is_a }
  where
    first_is_a : (j : ℕ) → j < 1 → valid root_entries j ≡ true → entry_inode root_entries j ≢ 6
    first_is_a zero lt used same = absurd (omega (arith, same))
    first_is_a (suc j) lt used same = absurd (omega arith)

pub node_a-Removing : Removing image [] name_a 2 4 0 root root_entries node_a
unfolding from_root is_dir get_u32 inode set_u32 root_entries
node_a-Removing = record {
  fits = names_a-Fits;
  found = refl;
  holds = root_there;
  directory = refl;
  target = path_a;
  there = a_there;
  entries = x_missing.listed.entries;
  entry = entry_of_a;
}

pub root-Places : Places image 2 (ptr root 0)
root-Places = record {
  map_there = root-Apart.map_there;
  inum_range = root-Apart.inum_range;
  entries_range = root-Apart.entries_range;
  differ = root-Apart.differ;
}

-- The inode of "a" is block 4, and its only block is block 5.
removed_a : Marks (λ j. (4 == j) || (5 == j)) (λ j. (4 ≡ j) ⊎ IsOfFile node_a j)
removed_a j = elim (Bool-cases (4 == j)) [
  | inl e ↦ (λ h. inl (==→eq 4 j e), λ p. rw e refl)
  | inr ne ↦ (
    λ h. inr ((node_a-Marks j).0 (or_right ne h)),
    λ p. elim p [
      | inl same ↦ absurd (false≢true (sym ne ∙ ap (λ i. 4 == i) (sym same)))
      | inr of_a ↦ ap (λ b. b || (5 == j)) ne ∙ (node_a-Marks j).1 of_a
    ],
  )
]

fs_unlink-Removes_example :
    Removes image 1000 2 0 root root_entries
      (λ j. (4 == j) || (5 == j))
      (fs_unlink 1000 (slashed names_a) image)
fs_unlink-Removes_example =
    fs_unlink-Removes node_a-Removing 1000 (λ j. (4 == j) || (5 == j)) removed_a root-Places
      a_is_file fits_in_a node_a-InMap (omega arith)

node_d-Removing : Removing image [] name_d 2 6 1 root root_entries node_d
unfolding looked_up from_root is_dir get_u32 inode set_u32 root_entries
node_d-Removing = record {
  fits = name_d-Fits;
  found = refl;
  holds = root_there;
  directory = refl;
  target = refl;
  there = record { inside = omega arith; reachable = omega arith; content = refl };
  entries = x_missing.listed.entries;
  entry = entry_of_d;
}

node_d-is_dir : is_dir node_d ≡ true
unfolding is_dir get_u32 inode set_u32
node_d-is_dir = refl

entries_of_d : Holds image (ptr node_d 0) zero_block
unfolding image get_u32 inode set_u32
entries_of_d = record { inside = omega arith; reachable = omega arith; content = refl }

no_entries : IsEmpty zero_block
unfolding get_u32
no_entries k lt = refl

place_of_d : ptr node_d 0 < map_bits
unfolding get_u32 inode set_u32
place_of_d = omega arith

fs_rmdir-Removes_example :
    Removes image 1000 2 1 root root_entries
      (λ j. (6 == j) || (ptr node_d 0 == j))
      (fs_rmdir 1000 (slashed (name_d ∷ [])) image)
fs_rmdir-Removes_example =
    fs_rmdir-Removes node_d-Removing 1000 root-Places node_d-is_dir entries_of_d no_entries
      place_of_d (omega arith)

-- The image with the entries of the root in the directory "d" too.
abbrev filled_d : Disk
filled_d = write_at 6 root image

filled_d-Removing : Removing filled_d [] name_d 2 6 1 root root_entries root
unfolding looked_up from_root is_dir get_u32 inode set_u32 root_entries
filled_d-Removing = record {
  fits = name_d-Fits;
  found = refl;
  holds = record { inside = omega arith; reachable = omega arith; content = refl };
  directory = refl;
  target = refl;
  there = record { inside = omega arith; reachable = omega arith; content = refl };
  entries = record { inside = omega arith; reachable = omega arith; content = refl };
  entry = entry_of_d;
}

entries_of_filled : Holds filled_d (ptr root 0) root_entries
unfolding image get_u32 inode set_u32
entries_of_filled = record { inside = omega arith; reachable = omega arith; content = refl }

some_entry : valid root_entries 1 ≡ true
unfolding get_u32 set_u32 root_entries
some_entry = refl

fs_rmdir-not_empty_example :
    fs_rmdir 1000 (slashed (name_d ∷ [])) filled_d ≡ failed enotempty filled_d
fs_rmdir-not_empty_example =
    fs_rmdir-not_empty filled_d-Removing 1000 root_is_dir entries_of_filled 1 (omega arith)
      some_entry

-- The image with an empty root directory.
abbrev emptied : Disk
emptied = write_at 3 zero_block image

emptied_root : Holds emptied 2 root
emptied_root = Holds-write_at 3 zero_block root_there (λ e. absurd (omega arith))

emptied_entries : Holds emptied (ptr root 0) zero_block
unfolding get_u32 inode set_u32
emptied_entries = Holds-write_at_self 3 zero_block image (omega arith)

emptied_has_map : 1 < emptied.blocks
emptied_has_map = write_at-inside 3 1 zero_block image image_has_map

entries_behind : (2 < ptr root 0) × (ptr root 0 < map_bits)
unfolding get_u32 inode set_u32
entries_behind = (omega arith, omega arith)

fs_rmdir_root_example : FreesBoth 2 (ptr root 0) emptied (fs_rmdir 1000 (slash ∷ []) emptied)
fs_rmdir_root_example =
    fs_rmdir_root emptied_root root_is_dir emptied_entries no_entries emptied_has_map entries_behind
      1000
