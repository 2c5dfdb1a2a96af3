-- ===== src/Tests/Places.antt =====
-- What `fs_create` and `fs_rename` ask for, on the sample image and on the full one.
use unix_like_file_system.Base.{
  ℕ, ◌-◌, ◌^◌, ◌<◌, ◌≡◌, refl, [], ◌∷◌, some, true, false, arith, zero, suc,
}
use unix_like_file_system.Block.{get_u32, set_byte, set_u32}
use unix_like_file_system.Disk.{
  Disk, done, enoent, write_at, block_write, block_read, read_unchecked,
}
use unix_like_file_system.Bitmap.{
  alloc_blk, free_blk, bit_test, bit_set, bit_clear, first_free, take_block,
}
use unix_like_file_system.Inode.{is_dir, ptr, num_dirents, same_text}
use unix_like_file_system.Inode.Entries.{IsText}
use unix_like_file_system.Path.{Text}
use unix_like_file_system.Path.Tokens.{NoSlash}
use unix_like_file_system.Lookup.{from_root}
use unix_like_file_system.Lookup.Missing.{stay}
use unix_like_file_system.Entry.{Context, find_unused}
use unix_like_file_system.Entry.Vacant.{Vacant}
use unix_like_file_system.Entry.Create.{Apart}
use unix_like_file_system.Entry.Rename.{Renaming}
use unix_like_file_system.Sample.{name_a, name_x, image, root_entries, inode, map}
use unix_like_file_system.Tests.Facts.{
  looked_up, root, root_there, names_a-Fits, name_x-Fits, x_missing, path_a, path_x,
}

pub root_found : from_root [] image ≡ done 2 image
unfolding from_root
root_found = refl

pub root_is_dir : is_dir root ≡ true
unfolding is_dir get_u32 inode set_u32
root_is_dir = refl

abbrev pub vacant_x : Vacant image [] name_x 2 root
vacant_x = record {
  fits = name_x-Fits;
  root = root;
  root_there = root_there;
  leads = stay;
  found = root_found;
  holds = root_there;
  directory = root_is_dir;
  missing = x_missing;
}

pub root-Apart : Apart image 2 (ptr root 0)
unfolding image map inode get_u32 set_u32 set_byte bit_test
root-Apart = record {
  map_there = omega arith;
  inum_range = (omega arith, omega arith);
  entries_range = (omega arith, omega arith);
  differ = λ e. absurd (omega arith);
  inum_used = refl;
  entries_used = refl;
}

abbrev pub allocated : Disk
allocated = write_at 1 (bit_set map 8) image

pub allocated_8 : alloc_blk image ≡ done 8 allocated
unfolding alloc_blk first_free take_block read_unchecked block_read block_write image map set_byte
    bit_test
allocated_8 = refl

pub unused_2 : find_unused num_dirents 0 root_entries ≡ some 2
unfolding find_unused root_entries get_u32 set_u32 same_text
unused_2 = refl

pub name_x-IsText : IsText name_x
name_x-IsText = (omega arith, omega arith, tt)

abbrev pub caller : Context
caller = record { now = 1000; caller_uid = 501; caller_gid = 20 }

pub renaming : Renaming image [] name_a name_x 2 root root_entries 0
unfolding looked_up root_entries get_u32 set_u32 same_text from_root
renaming = record {
  fits = names_a-Fits;
  fits' = name_x-Fits;
  source = (4, omega arith, path_a);
  vacant = (enoent, path_x);
  found = refl;
  holds = root_there;
  entries = x_missing.listed.entries;
  entry = refl;
}

abbrev repeat_a : ℕ → Text
repeat_a zero = []
repeat_a (suc n) = b'a' ∷ repeat_a n

NoSlash-repeat_a : (n : ℕ) → NoSlash (repeat_a n)
NoSlash-repeat_a zero = tt
NoSlash-repeat_a (suc n) = (refl, NoSlash-repeat_a n)

abbrev pub name_long : Text
name_long = repeat_a 28

pub name_long-Renaming : Renaming image [] name_a name_long 2 root root_entries 0
unfolding looked_up root_entries get_u32 set_u32 same_text from_root
name_long-Renaming = record {
  fits = names_a-Fits;
  fits' = record { are_names = (NoSlash-repeat_a 28, tt); short = omega arith; few = omega arith };
  source = (4, omega arith, path_a);
  vacant = (enoent, refl);
  found = refl;
  holds = root_there;
  entries = x_missing.listed.entries;
  entry = refl;
}

abbrev pub freed : Disk
freed = write_at 1 (bit_clear map 4) image

pub freed_4 : free_blk 4 image ≡ done tt freed
unfolding free_blk read_unchecked block_read block_write image map set_byte bit_clear
freed_4 = refl

clear_8 : bit_test map 8 ≡ false
unfolding map set_byte bit_test
clear_8 = refl

pub entries_place : (0 < ptr root 0) × (ptr root 0 < 2 ^ 19 - 1)
unfolding inode get_u32 set_u32
entries_place = (omega arith, omega arith)
