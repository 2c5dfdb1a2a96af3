-- ===== src/Entry/Rename.antt =====
-- `fs_rename`: the refusals, the new name, and a name that is too long.
use unix_like_file_system.Base.{
  ℕ, zero, suc, ◌-◌, ◌^◌, ◌<◌, ◌≤◌, ◌≡◌, ◌≢◌, refl, true, false, some, List, [], ◌∷◌, ◌++◌, length,
  length-append, lt→ltb, arith, ◌==◌, leb,
}
use unix_like_file_system.Block.{Block}
use unix_like_file_system.Disk.{Disk, Outcome, done, failed, fault, nat, Errno, einval, and_then}
use unix_like_file_system.Disk.Reads.{Holds, block_read-Holds}
use unix_like_file_system.Disk.Writes.{block_write-done, Holds-write_at_self, write_at-ne}
use unix_like_file_system.Inode.{ptr, copy_text, name_at}
use unix_like_file_system.Inode.Entries.{IsText, IsRenamed, copy_text-IsRenamed}
use unix_like_file_system.Path.{Text}
use unix_like_file_system.Path.Tokens.{slashed}
use unix_like_file_system.Lookup.{path2inum, from_root, find}
use unix_like_file_system.Lookup.Missing.{not_last}
use unix_like_file_system.Lookup.Paths.{Fits}
use unix_like_file_system.Entry.{
  existing_source, same_parents, checked_write, rename_in, rename_entry, copy_name, fs_rename,
}
use unix_like_file_system.Entry.SameName.{same_name_refl}
use unix_like_file_system.Entry.Parent.{path2inum-parent_of, split_path-slashed, last_token-append}

-- The source exists, and the destination, in the directory that `names` lead to, does not.
pub record Renaming (d : Disk) (names : List Text) (old new : Text) (inum : ℕ) (parent dirs : Block)
    (k : ℕ) : Type 0 where
  pub fits : Fits (names ++ old ∷ [])
  pub fits' : Fits (names ++ new ∷ [])
  pub source : (n : ℕ) × (0 < n) × (path2inum (slashed (names ++ old ∷ [])) d ≡ done n d)
  pub vacant : (e : Errno) × (path2inum (slashed (names ++ new ∷ [])) d ≡ failed e d)
  pub found : from_root names d ≡ done inum d
  pub holds : Holds d inum parent
  pub entries : Holds d (ptr parent 0) dirs
  pub entry : find old dirs ≡ some k

-- What a successful renaming leaves: entry `k` of the block `entries` renamed, all else the same.
abbrev pub Renames : Disk → Text → ℕ → Block → ℕ → Outcome (Unit {0}) → Type 0
Renames d new entries dirs k (done _ g) =
    (renamed : Block) × Holds g entries renamed
    × IsRenamed dirs renamed k new
    × ((l : ℕ) → l ≢ entries → l < d.blocks → g.block l ≡ d.block l)
    × (g.blocks ≡ d.blocks)
Renames d new entries dirs k _ = ⊥

pub existing_source-pos : (n : ℕ) (d : Disk) → 0 < n → existing_source (nat n) d ≡ done n d
unfolding existing_source
existing_source-pos zero d h = absurd (omega arith)
existing_source-pos (suc n) d h = refl

same_parents-append :
    (names : List Text) (s t : Text) → same_parents (names ++ s ∷ []) (names ++ t ∷ []) ≡ true
unfolding same_parents
same_parents-append [] s t = refl
same_parents-append (u ∷ []) s t = rw (same_name_refl u)
same_parents-append (u ∷ w ∷ names) s t =
    rw (same_name_refl u) (same_parents-append (w ∷ names) s t)

module _ {d : Disk} {names : List Text} {old new : Text} {inum : ℕ} {parent dirs : Block} {k : ℕ}
    (r : Renaming d names old new inum parent dirs k) where
  fs_rename-rename_in :
      fs_rename (slashed (names ++ old ∷ [])) (slashed (names ++ new ∷ [])) d
      ≡ rename_in (slashed (names ++ old ∷ [])) (names ++ old ∷ []) (names ++ new ∷ []) d
  unfolding fs_rename
  fs_rename-rename_in =
      let same_length : (length (names ++ new ∷ []) == length (names ++ old ∷ [])) ≡ true =
        ground (arith, length-append names (new ∷ []), length-append names (old ∷ [])) in
      rw (
        r.source.2,
        existing_source-pos r.source.0 d r.source.1,
        r.vacant.1,
        split_path-slashed d (names ++ old ∷ []) r.fits (not_last names old),
        split_path-slashed d (names ++ new ∷ []) r.fits' (not_last names new),
        same_length,
        same_parents-append names old new,
      )

  rename_in-copy_name :
      rename_in (slashed (names ++ old ∷ [])) (names ++ old ∷ []) (names ++ new ∷ []) d
      ≡ and_then (copy_name new k dirs d) (checked_write einval (ptr parent 0))
  unfolding rename_in rename_entry
  rename_in-copy_name = rw (
    path2inum-parent_of d names old r.fits,
    r.found,
    block_read-Holds r.holds,
    block_read-Holds r.entries,
    last_token-append d names old,
    last_token-append d names new,
    r.entry,
  )

  -- When the source exists and the destination, a name of at most 27 bytes in the same directory,
  -- does not, `fs_rename` succeeds: the entry that was found gets the new name and keeps its inode
  -- number, the other entries keep all their bytes, and so do all other blocks.
  pub fs_rename-Renames :
      IsText new
      → length new ≤ 27
      → 0 < ptr parent 0
      → ptr parent 0 < 2 ^ 19 - 1
      → Renames d new
          (ptr parent 0)
          dirs
          k
          (fs_rename (slashed (names ++ old ∷ [])) (slashed (names ++ new ∷ [])) d)
  unfolding copy_name
  fs_rename-Renames text short pos reach =
      let fits : leb 28 (length new) ≡ false = ground arith in
      let renamed = copy_text new dirs (name_at k) in
      rw
        (
          fs_rename-rename_in,
          rename_in-copy_name,
          fits,
          block_write-done (ptr parent 0) renamed d pos reach,
        )
        (
          renamed,
          Holds-write_at_self (ptr parent 0) renamed d (omega arith),
          copy_text-IsRenamed dirs k new text short,
          (λ l ne below. write_at-ne (ptr parent 0) l renamed d ne below),
          rw (lt→ltb (ptr parent 0) d.blocks r.entries.inside),
        )

  -- When the source exists and the destination, in the same directory, does not, a new name of 28
  -- bytes or more is not refused: copying it runs over the end of the entry's name, which is undefined.
  pub fs_rename_long :
      28 ≤ length new
      → fs_rename (slashed (names ++ old ∷ [])) (slashed (names ++ new ∷ [])) d ≡ fault
  unfolding copy_name
  fs_rename_long long =
      let over : leb 28 (length new) ≡ true = ground arith in
      rw (fs_rename-rename_in, rename_in-copy_name, over)
