-- ===== src/Entry/NameMap.antt =====
-- `fs_create`, `fs_mkdir` and `fs_rename` as changes of the map from names to inode numbers that the
-- parent directory is.
use unix_like_file_system.Base.{
  ℕ, ◌^◌, ◌-◌, ◌≤◌, ◌<◌, ◌≡◌, refl, ap, true, false, none, some, List, [], ◌∷◌, ◌++◌, length,
}
use mathlib.Core.Path.{subst}
use unix_like_file_system.Block.{Block}
use unix_like_file_system.Disk.{Disk, Outcome, done, failed, aborted, fault}
use unix_like_file_system.Disk.Reads.{Holds}
use unix_like_file_system.Bitmap.{alloc_blk}
use unix_like_file_system.Bitmap.Alloc.{in_use}
use unix_like_file_system.Inode.{num_dirents, ptr, entry_inode}
use unix_like_file_system.Inode.Entries.{IsText}
use unix_like_file_system.Path.{Text}
use unix_like_file_system.Path.Tokens.{slashed}
use unix_like_file_system.Lookup.{find}
use unix_like_file_system.Lookup.Resolves.{entry_matches, Found, find_entry-Found}
use unix_like_file_system.Lookup.Names.{number_at, number_of}
use unix_like_file_system.Entry.{Context, find_unused, fs_create, fs_mkdir, fs_rename}
use unix_like_file_system.Entry.Vacant.{Vacant}
use unix_like_file_system.Entry.Create.{Apart}
use unix_like_file_system.Entry.Make.{Creates, fs_create-Creates}
use unix_like_file_system.Entry.MakeDir.{Makes, fs_mkdir-Makes}
use unix_like_file_system.Entry.Rename.{Renaming, Renames, fs_rename-Renames}
use unix_like_file_system.Entry.Updates.{
  changed, IsMap, IsAbsent, IsOnly, filled-IsMap, renamed-IsMap,
}

-- The call succeeds, and the map of the entries in block `entries` is the old one with the name
-- leading to a block that was free.
abbrev pub AddsName : Disk → Text → ℕ → Block → Outcome (Unit {0}) → Type 0
AddsName d name entries dirs (done _ g) =
    (i : ℕ) × (new : Block) × (in_use d i ≡ false)
    × Holds g entries new
    × IsMap new (changed name (some i) (number_of dirs))
AddsName d name entries dirs _ = ⊥

module _ {d g : Disk} {names : List Text} {name : Text} {inum i k : ℕ} {parent : Block}
    (v : Vacant d names name inum parent) (apart : Apart d inum (ptr parent 0)) (text : IsText name)
    (allocated : alloc_blk d ≡ done i g)
    (unused : find_unused num_dirents 0 v.missing.dirs ≡ some k) where
  Creates-AddsName :
      (ctx : Context) (permissions : ℕ) (r : Outcome (Unit {0}))
      → Creates d name inum (ptr parent 0) v.missing.dirs ctx permissions r
      → AddsName d name (ptr parent 0) v.missing.dirs r
  Creates-AddsName ctx permissions (done u h) (j, m, node, c, new) = (
    j,
    c.new_dirs,
    c.new_block.2,
    c.dirs_there,
    filled-IsMap d name text v.missing.listed.short c.unused.0 c.unused.1 v.missing.absent c.entry,
  )
  Creates-AddsName ctx permissions (failed e h) c = absurd c
  Creates-AddsName ctx permissions (aborted h) c = absurd c
  Creates-AddsName ctx permissions fault c = absurd c

  Makes-AddsName :
      (ctx : Context) (permissions : ℕ) (r : Outcome (Unit {0}))
      → Makes d name (ptr parent 0) v.missing.dirs ctx permissions r
      → AddsName d name (ptr parent 0) v.missing.dirs r
  Makes-AddsName ctx permissions (done u h) (j, e, m, node, c, new) = (
    j,
    c.new_dirs,
    c.were_free.2,
    c.dirs_there,
    filled-IsMap d name text v.missing.listed.short c.unused.0 c.unused.1 v.missing.absent c.entry,
  )
  Makes-AddsName ctx permissions (failed e h) c = absurd c
  Makes-AddsName ctx permissions (aborted h) c = absurd c
  Makes-AddsName ctx permissions fault c = absurd c

  -- At a vacant path, when there are two free blocks and an unused entry, `fs_create` and `fs_mkdir`
  -- succeed, and the parent's map from names to inode numbers is the old one with the new name leading
  -- to a block that was free.
  pub create-AddsName :
      {e : ℕ} {h : Disk} (stack : Block) (ctx : Context) (permissions : ℕ)
      → alloc_blk g ≡ done e h
      → AddsName d name
          (ptr parent 0)
          v.missing.dirs
          (fs_create stack ctx (slashed (names ++ name ∷ [])) permissions d)
        × AddsName d name
            (ptr parent 0)
            v.missing.dirs
            (fs_mkdir stack ctx (slashed (names ++ name ∷ [])) permissions d)
  create-AddsName stack ctx permissions second = (
    Creates-AddsName ctx permissions _
        (fs_create-Creates v apart text allocated unused stack ctx permissions),
    Makes-AddsName ctx permissions _
        (fs_mkdir-Makes v apart text allocated second unused stack ctx permissions),
  )

-- The call succeeds, and the map of the entries is the old one with the number of the name `old` now
-- belonging to the name `new`.
abbrev pub MovesName : Disk → Text → Text → ℕ → Block → Outcome (Unit {0}) → Type 0
MovesName d old new entries dirs (done _ g) =
    (n : ℕ) × (renamed : Block) × (number_of dirs old ≡ some n)
    × Holds g entries renamed
    × IsMap renamed (changed new (some n) (changed old none (number_of dirs)))
MovesName d old new entries dirs _ = ⊥

find-matches :
    (old : Text) (dirs : Block) (k : ℕ)
    → find old dirs ≡ some k
    → (k < num_dirents) × (entry_matches old dirs k ≡ true)
find-matches old dirs k found =
    let f : Found 0 num_dirents old dirs (some k) =
      subst (Found 0 num_dirents old dirs) found
        (find_entry-Found old dirs num_dirents 0 num_dirents refl) in
    (f.1, f.2)

module _ {d : Disk} {names : List Text} {old new : Text} {inum : ℕ} {parent dirs : Block} {k : ℕ}
    (r : Renaming d names old new inum parent dirs k) (text : IsText new) (short : length new ≤ 27)
    (text_old : IsText old) (short_old : length old ≤ 27) (only : IsOnly old dirs k)
    (absent : IsAbsent new dirs) where
  Renames-MovesName :
      (o : Outcome (Unit {0}))
      → Renames d new (ptr parent 0) dirs k o
      → MovesName d old new (ptr parent 0) dirs o
  Renames-MovesName (done u g) (renamed, there, f, same, blocks) =
      let (below, hit) = find-matches old dirs k r.entry in
      (
        entry_inode dirs k,
        renamed,
        ap (number_at dirs) r.entry,
        there,
        renamed-IsMap d new text short old text_old short_old below hit only absent f,
      )
  Renames-MovesName (failed e h) c = absurd c
  Renames-MovesName (aborted h) c = absurd c
  Renames-MovesName fault c = absurd c

  -- When the source is the only entry with its name and the destination, a name of at most 27 bytes
  -- in the same directory, does not exist, `fs_rename` succeeds, and the directory's map from names to
  -- inode numbers is the old one with the source's number moved to the new name.
  pub fs_rename-MovesName :
      0 < ptr parent 0
      → ptr parent 0 < 2 ^ 19 - 1
      → MovesName d old new
          (ptr parent 0)
          dirs
          (fs_rename (slashed (names ++ old ∷ [])) (slashed (names ++ new ∷ [])) d)
  fs_rename-MovesName pos reach = Renames-MovesName _ (fs_rename-Renames r text short pos reach)
