-- ===== src/Tests/FullPlaces.antt =====
-- What `fs_create` and `fs_write` ask for, on the sample image with every block in use.
use unix_like_file_system.Base.{◌^◌, ◌%◌, ◌<◌, ◌≡◌, refl, [], false, arith, not, bit_and, ◌==◌}
use unix_like_file_system.Base.Bits.{holds_below, holds_below_lem}
use unix_like_file_system.Block.{Block, get_u32, set_u32}
use unix_like_file_system.Disk.Reads.{Holds}
use unix_like_file_system.Bitmap.{bit_test}
use unix_like_file_system.Bitmap.Alloc.{AllUsed}
use unix_like_file_system.Inode.{is_dir, size}
use unix_like_file_system.Path.Tokens.{slashed}
use unix_like_file_system.Lookup.{from_root}
use unix_like_file_system.Lookup.Missing.{stay, IsMissing}
use unix_like_file_system.Attr.Named.{Named}
use unix_like_file_system.Entry.Vacant.{Vacant}
use unix_like_file_system.Sample.{name_x, full_image, root_entries, inode}
use unix_like_file_system.Tests.Facts.{looked_up, root, names_a, name_x-Fits, no_entry_x}

abbrev pub empty_a : Block
empty_a = inode 0x81a4 0 5

root_full : Holds full_image 2 root
unfolding full_image
root_full = record { inside = omega arith; reachable = omega arith; content = refl }

x_missing_full : IsMissing full_image root name_x
unfolding full_image get_u32 inode set_u32
x_missing_full = record {
  dirs = root_entries;
  listed = record {
    short = omega arith;
    nonempty = λ e. absurd (omega arith);
    entries = record { inside = omega arith; reachable = omega arith; content = refl };
  };
  absent = no_entry_x;
}

pub vacant_full : Vacant full_image [] name_x 2 root
unfolding from_root is_dir get_u32 inode set_u32
vacant_full = record {
  fits = name_x-Fits;
  root = root;
  root_there = root_full;
  leads = stay;
  found = refl;
  holds = root_full;
  directory = refl;
  missing = x_missing_full;
}

pub all_used : AllUsed full_image
unfolding full_image bit_test holds_below
all_used j lo hi =
    holds_below_lem 8 (λ k. not (bit_and 255 (2 ^ k) == 0)) (j % 8) refl (omega arith)

pub full_has_map : 1 < full_image.blocks
unfolding full_image
full_has_map = omega arith

pub empty_a-Named : Named full_image (slashed names_a) 4 empty_a
unfolding full_image looked_up
empty_a-Named = record {
  found = refl;
  positive = omega arith;
  holds = record { inside = omega arith; reachable = omega arith; content = refl };
}

pub empty_is_file : is_dir empty_a ≡ false
unfolding is_dir get_u32 inode set_u32
empty_is_file = refl

pub empty_size : 0 ≡ size empty_a
unfolding get_u32 inode set_u32
empty_size = refl

pub empty_aligned : size empty_a % 4096 ≡ 0
unfolding get_u32 inode set_u32
empty_aligned = refl
