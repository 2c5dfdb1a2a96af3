-- ===== src/Tests/NameMaps.antt =====
-- The calls as changes of the sample image's root directory.
use unix_like_file_system.Base.{◌≡◌, refl, [], ◌∷◌, Bool, true, false, not, ◌||◌, ◌==◌, arith}
use unix_like_file_system.Base.Bits.{holds_below, holds_below_lem}
use unix_like_file_system.Block.{get_u32, set_u32}
use unix_like_file_system.Disk.{zero_block}
use unix_like_file_system.Inode.{num_dirents, ptr, same_text}
use unix_like_file_system.Inode.Entries.{IsText}
use unix_like_file_system.Path.Tokens.{slashed}
use unix_like_file_system.Lookup.Resolves.{entry_matches}
use unix_like_file_system.Entry.{fs_create, fs_mkdir, fs_rename}
use unix_like_file_system.Entry.Updates.{IsOnly}
use unix_like_file_system.Entry.NameMap.{AddsName, create-AddsName, MovesName, fs_rename-MovesName}
use unix_like_file_system.Remove.{fs_unlink}
use unix_like_file_system.Remove.NameMap.{DropsName, fs_unlink-DropsName}
use unix_like_file_system.Sample.{image, root_entries, name_a, name_x}
use unix_like_file_system.Tests.Facts.{
  root, names_a, no_entry_x, a_is_file, fits_in_a, node_a-InMap,
}
use unix_like_file_system.Tests.Places.{
  vacant_x, root-Apart, name_x-IsText, allocated_8, unused_2, caller, renaming, entries_place,
}
use unix_like_file_system.Tests.Directories.{allocated_9}
use unix_like_file_system.Tests.Removals.{node_a-Removing, root-Places}

name_a-IsText : IsText name_a
name_a-IsText = (omega arith, omega arith, tt)

alone_a :
    holds_below num_dirents (λ j. (j == 0) || not (entry_matches name_a root_entries j)) ≡ true
unfolding root_entries get_u32 same_text set_u32 holds_below
alone_a = refl

first_matches : entry_matches name_a root_entries 0 ≡ true
unfolding root_entries get_u32 same_text set_u32
first_matches = refl

-- What the test says of one entry.
other_entry : (is_zero hit : Bool) → (is_zero || not hit) ≡ true → is_zero ≡ false → hit ≡ false
other_entry is_zero hit either nonzero = ground (arith, either, nonzero)

name_a-IsOnly : IsOnly name_a root_entries 0
name_a-IsOnly j lt ne =
    other_entry (j == 0) (entry_matches name_a root_entries j)
      (holds_below_lem num_dirents (λ i. (i == 0) || not (entry_matches name_a root_entries i)) j
        alone_a lt)
      (ground (arith, ne))

create-AddsName_example :
    AddsName image name_x
      (ptr root 0)
      root_entries
      (fs_create zero_block caller (slashed (name_x ∷ [])) 420 image)
    × AddsName image name_x
        (ptr root 0)
        root_entries
        (fs_mkdir zero_block caller (slashed (name_x ∷ [])) 420 image)
create-AddsName_example =
    create-AddsName vacant_x root-Apart name_x-IsText allocated_8 unused_2 zero_block caller 420
      allocated_9

fs_rename-MovesName_example :
    MovesName image name_a name_x
      (ptr root 0)
      root_entries
      (fs_rename (slashed names_a) (slashed (name_x ∷ [])) image)
fs_rename-MovesName_example =
    fs_rename-MovesName renaming name_x-IsText (omega arith) name_a-IsText (omega arith)
      name_a-IsOnly no_entry_x entries_place.0 entries_place.1

fs_unlink-DropsName_example :
    DropsName name_a (ptr root 0) root_entries (fs_unlink 1000 (slashed names_a) image)
fs_unlink-DropsName_example =
    fs_unlink-DropsName node_a-Removing name_a-IsText (omega arith) first_matches name_a-IsOnly 1000
      root-Places a_is_file fits_in_a node_a-InMap (omega arith)
