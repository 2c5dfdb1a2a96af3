-- ===== src/Tests/Crowded.antt =====
-- `fs_create` on the sample image with a root directory that has no unused entry.
use unix_like_file_system.Base.{ℕ, ◌<◌, ◌≡◌, refl, [], ◌∷◌, true, false, arith}
use unix_like_file_system.Block.{Block, get_u32, set_u32, set_byte}
use unix_like_file_system.Disk.{
  Disk, done, write_at, zero_block, read_unchecked, block_read, block_write,
}
use unix_like_file_system.Disk.Reads.{Holds}
use unix_like_file_system.Disk.Writes.{Holds-write_at, Holds-write_at_self}
use unix_like_file_system.Bitmap.{alloc_blk, bit_test, bit_set, first_free, take_block}
use unix_like_file_system.Inode.{num_dirents, ptr, valid, same_text}
use unix_like_file_system.Path.Tokens.{slashed}
use unix_like_file_system.Lookup.{from_root}
use unix_like_file_system.Lookup.Resolves.{entry_matches}
use unix_like_file_system.Lookup.Missing.{stay, IsMissing}
use unix_like_file_system.Entry.{fs_create}
use unix_like_file_system.Entry.Vacant.{Vacant}
use unix_like_file_system.Entry.Create.{Apart}
use unix_like_file_system.Entry.NoEntry.{LosesBlock, fs_create-LosesBlock}
use unix_like_file_system.Sample.{name_x, image, map, inode}
use unix_like_file_system.Tests.Facts.{root, root_there, name_x-Fits, listed}
use unix_like_file_system.Tests.Places.{caller, root_is_dir}

-- Every byte is 1: all entries are valid, and no name ends.
abbrev ones : Block
ones i = 1

abbrev crowded : Disk
crowded = write_at 3 ones image

root_stays : Holds crowded 2 root
root_stays = Holds-write_at 3 ones root_there (λ e. absurd (omega arith))

all_valid : (k : ℕ) → k < num_dirents → valid ones k ≡ true
unfolding get_u32
all_valid k lt = refl

no_x : (k : ℕ) → k < num_dirents → entry_matches name_x ones k ≡ false
unfolding get_u32 same_text
no_x k lt = refl

entries_there : Holds crowded (ptr root 0) ones
unfolding get_u32 inode set_u32
entries_there = Holds-write_at_self 3 ones image (omega arith)

abbrev x_missing_crowded : IsMissing crowded root name_x
x_missing_crowded = record {
  dirs = ones;
  listed = record {
    short = omega arith;
    nonempty = (listed name_x (omega arith)).nonempty;
    entries = entries_there;
  };
  absent = no_x;
}

root_found : from_root [] crowded ≡ done 2 crowded
unfolding from_root
root_found = refl

abbrev vacant_crowded : Vacant crowded [] name_x 2 root
vacant_crowded = record {
  fits = name_x-Fits;
  root = root;
  root_there = root_stays;
  leads = stay;
  found = root_found;
  holds = root_stays;
  directory = root_is_dir;
  missing = x_missing_crowded;
}

crowded-Apart : Apart crowded 2 (ptr root 0)
unfolding image map inode get_u32 set_u32 set_byte bit_test
crowded-Apart = record {
  map_there = omega arith;
  inum_range = (omega arith, omega arith);
  entries_range = (omega arith, omega arith);
  differ = λ e. absurd (omega arith);
  inum_used = refl;
  entries_used = refl;
}

abbrev crowded_8 : Disk
crowded_8 = write_at 1 (bit_set map 8) crowded

allocated_8 : alloc_blk crowded ≡ done 8 crowded_8
unfolding alloc_blk first_free take_block read_unchecked block_read block_write image map set_byte
    bit_test bit_set
allocated_8 = refl

fs_create-LosesBlock_example :
    LosesBlock crowded (fs_create zero_block caller (slashed (name_x ∷ [])) 420 crowded)
fs_create-LosesBlock_example =
    fs_create-LosesBlock vacant_crowded crowded-Apart allocated_8 all_valid zero_block caller 420
