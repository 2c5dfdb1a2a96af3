-- ===== src/Entry/Found.antt =====
-- Looking up a file that was made in the root directory.
use unix_like_file_system.Base.{
  ℕ, ◌^◌, ◌<◌, ◌≤◌, ◌≡◌, refl, sym, ◌∙◌, false, some, [], ◌∷◌, length, arith,
}
use unix_like_file_system.Block.{Block}
use unix_like_file_system.Disk.{Disk, Outcome, done, failed, aborted, fault}
use unix_like_file_system.Disk.Reads.{Holds}
use unix_like_file_system.Bitmap.{alloc_blk}
use unix_like_file_system.Bitmap.Alloc.{in_use}
use unix_like_file_system.Inode.{num_dirents, ptr}
use unix_like_file_system.Inode.Entries.{
  IsText, IsFilled, SameEntry, SameEntry-word, SameEntry-text,
}
use unix_like_file_system.Path.{Text}
use unix_like_file_system.Path.Tokens.{slashed}
use unix_like_file_system.Lookup.{path2inum, root_inum}
use unix_like_file_system.Lookup.Resolves.{HasEntry, Lists, here, entry_matches}
use unix_like_file_system.Lookup.Paths.{path2inum-Resolves}
use unix_like_file_system.Entry.{Context, find_unused, fs_create}
use unix_like_file_system.Entry.Vacant.{Vacant}
use unix_like_file_system.Entry.Create.{Created, Apart, used-ne-free}
use unix_like_file_system.Entry.Make.{Creates, IsNew, fs_create-Creates}

entry_matches-same :
    {b c : Block} (j : ℕ) (t : Text)
    → length t ≤ 27
    → SameEntry b c j
    → entry_matches t b j ≡ entry_matches t c j
entry_matches-same j t short same = rw (SameEntry-word j same, SameEntry-text j t short same)

-- In the entries with the new one filled in, the new name leads to the new number.
pub filled-HasEntry :
    {dirs new : Block} {name : Text} {n k : ℕ}
    → length name ≤ 27
    → k < num_dirents
    → IsFilled dirs new k name n
    → ((j : ℕ) → j < num_dirents → entry_matches name dirs j ≡ false)
    → HasEntry new name n
filled-HasEntry {name} {k} short below f absent = record {
  index = k;
  in_range = below;
  matches = rw (f.is_valid, f.named);
  earlier = λ j lt.
      entry_matches-same j name short (f.others j (λ e. absurd (omega arith)))
      ∙ absent j (omega arith);
  number = f.number;
}

-- The path leads to a new regular file.
abbrev pub FindsFile : Text → Disk → Context → ℕ → Outcome (Unit {0}) → Type 0
FindsFile path d ctx permissions (done _ g) =
    (i : ℕ) × (node : Block) × (path2inum path g ≡ done i g)
    × Holds g i node
    × (in_use d i ≡ false)
    × IsNew node ctx permissions (2 ^ 15) 0
FindsFile path d ctx permissions _ = ⊥

module _ {d : Disk} {name : Text} {parent : Block} (v : Vacant d [] name root_inum parent)
    (apart : Apart d root_inum (ptr parent 0)) where
  root-eq : v.root ≡ parent
  root-eq = sym v.root_there.content ∙ v.holds.content

  module _ {g : Disk} {i k : ℕ} {node : Block}
      (c : Created d g name root_inum (ptr parent 0) i k v.missing.dirs node) where
    pub root_stays : Holds g root_inum parent
    root_stays = record {
      inside = c.not_smaller root_inum v.holds.inside;
      reachable = omega arith;
      content =
          c.same_files root_inum (omega arith)
            (used-ne-free d root_inum i apart.inum_used c.new_block.2) apart.differ v.holds.inside
          ∙ v.holds.content;
    }

    pub entry_there : HasEntry c.new_dirs name i
    entry_there = filled-HasEntry v.missing.listed.short c.unused.0 c.entry v.missing.absent

    pub listed_there : Lists g parent name c.new_dirs
    listed_there = record {
      short = v.missing.listed.short;
      nonempty = v.missing.listed.nonempty;
      entries = c.dirs_there;
    }

  Creates-FindsFile :
      (ctx : Context) (permissions : ℕ) (r : Outcome (Unit {0}))
      → Creates d name root_inum (ptr parent 0) v.missing.dirs ctx permissions r
      → FindsFile (slashed (name ∷ [])) d ctx permissions r
  Creates-FindsFile ctx permissions (done u g) (i, k, node, c, new) = (
    i,
    node,
    (path2inum-Resolves g (root_stays c) (name ∷ []) i g v.fits refl).1
        (here (listed_there c) (entry_there c), refl),
    c.node_there,
    c.new_block.2,
    new,
  )
  Creates-FindsFile ctx permissions (failed e g) h = absurd h
  Creates-FindsFile ctx permissions (aborted g) h = absurd h
  Creates-FindsFile ctx permissions fault h = absurd h

  -- After `fs_create` at a vacant path in the root directory, with a free block and an unused entry,
  -- `path2inum` of that path returns the number of a block that was free, and that block holds the
  -- new file's inode.
  fs_create-found :
      {g : Disk} {i k : ℕ}
      → IsText name
      → alloc_blk d ≡ done i g
      → find_unused num_dirents 0 v.missing.dirs ≡ some k
      → (stack : Block) (ctx : Context) (permissions : ℕ)
      → FindsFile
          (slashed (name ∷ []))
          d
          ctx
          permissions
          (fs_create stack ctx (slashed (name ∷ [])) permissions d)
  fs_create-found text allocated unused stack ctx permissions =
      Creates-FindsFile ctx permissions _
        (fs_create-Creates v apart text allocated unused stack ctx permissions)
