-- ===== src/Tests/Calls.antt =====
-- Allocation, the calls that change directories, and the calls at their limits at concrete inputs.
use unix_like_file_system.Base.{◌≡◌, [], ◌∷◌, arith}
use unix_like_file_system.Disk.{aborted, fault, zero_block}
use unix_like_file_system.Bitmap.{alloc_blk}
use unix_like_file_system.Bitmap.Alloc.{Allocates, alloc_blk-Allocates}
use unix_like_file_system.Bitmap.Undo.{Succeeds, alloc_blk-free_blk}
use unix_like_file_system.Inode.{ptr}
use unix_like_file_system.Path.Tokens.{slashed}
use unix_like_file_system.Content.{fs_write}
use unix_like_file_system.Content.Limits.{fs_write_full}
use unix_like_file_system.Entry.{fs_create, fs_mkdir, fs_rename}
use unix_like_file_system.Entry.Make.{Creates, fs_create-Creates}
use unix_like_file_system.Entry.Full.{create_full}
use unix_like_file_system.Entry.Rename.{Renames, fs_rename-Renames, fs_rename_long}
use unix_like_file_system.Sample.{name_x, image, full_image, root_entries}
use unix_like_file_system.Tests.Facts.{root, names_a, image_has_map}
use unix_like_file_system.Tests.Places.{
  vacant_x, root-Apart, allocated_8, unused_2, name_x-IsText, caller, renaming, name_long-Renaming,
  name_long, freed, freed_4, entries_place,
}
use unix_like_file_system.Tests.FullPlaces.{
  empty_a, vacant_full, all_used, full_has_map, empty_a-Named, empty_is_file, empty_size,
  empty_aligned,
}

alloc_blk-Allocates_example : Allocates image (alloc_blk image)
alloc_blk-Allocates_example = alloc_blk-Allocates image image_has_map

alloc_blk-free_blk_example : Succeeds 4 (alloc_blk freed)
alloc_blk-free_blk_example =
    alloc_blk-free_blk 4 image image_has_map (omega arith) (omega arith) freed_4

fs_create-Creates_example :
    Creates image name_x 2
      (ptr root 0)
      root_entries
      caller
      420
      (fs_create zero_block caller (slashed (name_x ∷ [])) 420 image)
fs_create-Creates_example =
    fs_create-Creates vacant_x root-Apart name_x-IsText allocated_8 unused_2 zero_block caller 420

create_full_example :
    (fs_create zero_block caller (slashed (name_x ∷ [])) 420 full_image ≡ aborted full_image)
    × (fs_mkdir zero_block caller (slashed (name_x ∷ [])) 420 full_image ≡ aborted full_image)
create_full_example = create_full vacant_full full_has_map all_used zero_block caller 420

fs_rename-Renames_example :
    Renames image name_x
      (ptr root 0)
      root_entries
      0
      (fs_rename (slashed names_a) (slashed (name_x ∷ [])) image)
fs_rename-Renames_example =
    fs_rename-Renames renaming name_x-IsText (omega arith) entries_place.0 entries_place.1

fs_rename_long_example : fs_rename (slashed names_a) (slashed (name_long ∷ [])) image ≡ fault
fs_rename_long_example = fs_rename_long name_long-Renaming (omega arith)

fs_write_full_example :
    fs_write 9 zero_block (slashed names_a) zero_block 3 0 full_image ≡ aborted full_image
fs_write_full_example =
    fs_write_full full_image (slashed names_a) 4 empty_a zero_block zero_block 9 3 0 empty_a-Named
      empty_is_file full_has_map all_used empty_size empty_aligned (omega arith) (omega arith)
