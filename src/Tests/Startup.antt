-- ===== src/Tests/Startup.antt =====
-- The program's start at concrete arguments.
use unix_like_file_system.Base.{◌≡◌, refl, Option, none, some, List, [], ◌∷◌, ◌↔◌, if◌then◌else◌}
use unix_like_file_system.Disk.{Disk}
use unix_like_file_system.Path.{Text}
use unix_like_file_system.Entry.{same_name}
use unix_like_file_system.Main.{runs, bad_name, img, main, block_init, after_parse}
use unix_like_file_system.Main.Starts.{Starts, main-Starts}
use unix_like_file_system.Sample.{image}

-- An `open` and a `fuse_opt_parse` for the tests: there is one image, and the third argument is
-- its name.
abbrev open_image : Text → Option Disk
open_image file = if same_name file (b'a' ∷ img) then some image else none

abbrev parse : List Text → Option (Option Text × List Text)
parse (program ∷ option ∷ file ∷ rest) = some (some file, program ∷ rest)
parse argv = none

abbrev argv_a : List Text
argv_a = (b'l' ∷ []) ∷ (b'-' ∷ []) ∷ (b'a' ∷ img) ∷ (b'm' ∷ []) ∷ []

abbrev args_a : List Text
args_a = (b'l' ∷ []) ∷ (b'm' ∷ []) ∷ []

starts_a : main open_image parse argv_a ≡ runs args_a image
unfolding main after_parse block_init
starts_a = refl

name_without_img : main open_image parse ([] ∷ [] ∷ (b'a' ∷ []) ∷ [] ∷ []) ≡ bad_name
unfolding main after_parse block_init
name_without_img = refl

main-Starts_example :
    (main open_image parse argv_a ≡ runs args_a image) ↔ Starts open_image parse argv_a args_a image
main-Starts_example = main-Starts open_image parse argv_a args_a image
