-- ===== src/Tests/Writes.antt =====
-- Writing to the sample image's file, and reading it back.
use unix_like_file_system.Base.{
  ◌≤◌, ◌+◌, ◌*◌, [], ◌∷◌, ℕ, ◌<◌, ◌≡◌, ◌⊎◌, inl, inr, refl, sym, ◌∙◌, true, arith, zero, suc,
}
use mathlib.Core.Path.{subst}
use unix_like_file_system.Block.{block_size, get_u32, set_u32, set_byte}
use unix_like_file_system.Disk.{Disk, Errno, failed, enospc, zero_block}
use unix_like_file_system.Bitmap.{bit_test}
use unix_like_file_system.Bitmap.Alloc.{in_use}
use unix_like_file_system.Inode.{num_ptrs, size, ptr, rounds_up}
use unix_like_file_system.Path.Tokens.{slashed}
use unix_like_file_system.Lookup.{root_inum}
use unix_like_file_system.Lookup.Resolves.{Resolves, here}
use unix_like_file_system.Lookup.Frame.{Visits}
use unix_like_file_system.Content.{fs_write}
use unix_like_file_system.Content.Owns.{Owns}
use unix_like_file_system.Content.Refused.{fs_write_refused}
use unix_like_file_system.Content.Saved.{IsStored}
use unix_like_file_system.Content.Save.{Saves, fs_write-Saves}
use unix_like_file_system.Content.Back.{IsClear}
use unix_like_file_system.Entry.{fs_create}
use unix_like_file_system.Entry.NewFile.{IsWritable, fs_create-IsWritable}
use unix_like_file_system.Sample.{hello, name_x, image, map, inode, name_a}
use unix_like_file_system.Tests.Facts.{
  root, root_there, node_a, names_a, node_a-Named, a_is_file, image_has_map, size_a, node_a-IsFile,
  listed, entry_a,
}
use unix_like_file_system.Tests.Places.{
  vacant_x, root-Apart, name_x-IsText, allocated_8, unused_2, caller,
}

one_block : rounds_up (size node_a) ≡ 1
unfolding rounds_up
one_block = ground (arith, size_a)

first_of_a : (b : ℕ) → b < 1 → ptr node_a b ≡ 5
unfolding get_u32 inode set_u32
first_of_a zero lt = refl
first_of_a (suc b) lt = absurd (omega arith)

in_use_below_8 :
    (in_use image 2 ≡ true)
    × (in_use image 3 ≡ true)
    × (in_use image 4 ≡ true)
    × (in_use image 5 ≡ true)
unfolding image map set_byte bit_test
in_use_below_8 = (refl, refl, refl, refl)

node_a-Owns : Owns image 4 node_a 1
node_a-Owns = record {
  range = λ b lt. rw (first_of_a b lt) (omega arith, omega arith);
  used = λ b lt. rw (first_of_a b lt) in_use_below_8.3;
  apart = λ b lt e. absurd (omega (arith, first_of_a b lt));
  distinct = λ b c p q e. omega arith;
}

node_a-IsStored : IsStored image 4 node_a
node_a-IsStored = record {
  file = node_a-IsFile;
  owns = subst (Owns image 4 node_a) (sym one_block) node_a-Owns;
  inode_used = in_use_below_8.2;
  place = (omega arith, omega arith);
  map_there = image_has_map;
}

resolves_a : Resolves image root names_a 4
resolves_a = here (listed name_a (omega arith)) entry_a

root_entries_at : ptr root 0 ≡ 3
unfolding get_u32 inode set_u32
root_entries_at = refl

two_or_three : (l : ℕ) → (root_inum ≡ l) ⊎ Visits resolves_a l → (l ≡ 2) ⊎ (l ≡ 3)
unfolding resolves_a
two_or_three l (inl e) = inl (sym e)
two_or_three l (inr e) = inr (sym e ∙ root_entries_at)

path_a-IsClear : IsClear image root node_a names_a 4
path_a-IsClear = record {
  root_there = root_there;
  resolves = resolves_a;
  used = λ l v. elim (two_or_three l v) [
    | inl e ↦ rw e in_use_below_8.0
    | inr e ↦ rw e in_use_below_8.1
  ];
  not_file = λ l v.
      let at = two_or_three l v in
      (
        λ e. absurd (ground (arith, at)),
        λ e. absurd (ground (arith, at)),
        λ b lt e. absurd (ground (arith, at, first_of_a b (subst (λ n. b < n) one_block lt))),
      );
}

fs_write-Saves_example :
    Saves image 4 node_a zero_block 3 5000 9
      (fs_write 9 zero_block (slashed names_a) zero_block 5000 3 image)
fs_write-Saves_example =
    fs_write-Saves node_a-IsStored zero_block 3 5000 9 (omega arith) zero_block node_a-Named
      a_is_file (omega (arith, size_a))

fs_write_refused_example :
    ((0 ≤ size node_a) × (block_size * num_ptrs < 0 + 5000000)
      → fs_write 9 zero_block (slashed names_a) zero_block 5000000 0 image ≡ failed enospc image)
    × ((e : Errno) (g : Disk)
        → fs_write 9 zero_block (slashed names_a) zero_block 5000000 0 image ≡ failed e g
        → (0 ≤ size node_a) × (block_size * num_ptrs < 0 + 5000000))
fs_write_refused_example =
    fs_write_refused node_a-IsStored zero_block zero_block 9 5000000 0 node_a-Named a_is_file
      (omega arith)

fs_create-IsWritable_example :
    IsWritable
      (slashed (name_x ∷ []))
      zero_block
      hello
      zero_block
      9000
      7
      (fs_create zero_block caller (slashed (name_x ∷ [])) 420 image)
fs_create-IsWritable_example =
    fs_create-IsWritable vacant_x root-Apart name_x-IsText allocated_8 unused_2 zero_block hello
      zero_block 9000 7 (omega arith) caller 420
