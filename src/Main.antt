-- ===== src/Main.antt =====
-- lab4fuse.c, `main`, and misc.c, `block_init`: the checks before FUSE is started. The functions that
-- they call, `open`, `fuse_opt_parse` and `fuse_main`, are parameters or are left to the caller.
pub mod Starts
use unix_like_file_system.Base.{
  ◌-◌, Option, none, some, List, [], ◌∷◌, ltb, ◌==◌, ◌||◌, not, if◌then◌else◌, length, drop,
}
use unix_like_file_system.Disk.{Disk}
use unix_like_file_system.Path.{Text}
use unix_like_file_system.Entry.{same_name}

-- How far the program gets: FUSE is started with these arguments on this image; `main` shows how
-- it is used, and exits; `block_init` says that the image's name is bad or that the image cannot be
-- opened, and exits; it is given no name, and reads through a null pointer.
pub data Launch : Type 0 where
  runs : List Text → Disk → Launch
  shows_usage bad_name cannot_open no_name : Launch

abbrev pub img : Text
img = b'.' ∷ b'i' ∷ b'm' ∷ b'g' ∷ []

module _ (open_image : Text → Option Disk) where
  -- What becomes of the result of `open(file, O_RDWR)`, which is none if it is negative.
  abbrev opened : List Text → Option Disk → Launch
  opened args none = cannot_open
  opened args (some d) = runs args d

  -- `block_init(file)`, and the arguments that `main` goes on with.
  unfoldable pub block_init : List Text → Text → Launch
  block_init args file =
      if ltb (length file) 4 || not (same_name (drop (length file - 4) file) img)
      then bad_name
      else opened args (open_image file)

  -- What `main` does with the result of `fuse_opt_parse`: none is -1; else it is the name that
  -- follows `-image`, if there is one, and the other arguments.
  unfoldable pub after_parse : Option (Option Text × List Text) → Launch
  after_parse none = shows_usage
  after_parse (some (none, args)) = no_name
  after_parse (some (some file, args)) = block_init args file

  unfoldable pub main : (List Text → Option (Option Text × List Text)) → List Text → Launch
  main fuse_opt_parse argv =
      if not (length argv == 4) then shows_usage else after_parse (fuse_opt_parse argv)
