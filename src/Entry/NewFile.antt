-- ===== src/Entry/NewFile.antt =====
-- A file that is made, written and read.
use unix_like_file_system.Base.{
  ℕ, ◌*◌, ◌^◌, ◌≤◌, ◌<◌, ◌≡◌, refl, ◌∙◌, ◌⊎◌, inl, inr, true, false, some, [], ◌∷◌, arith,
}
use mathlib.Core.Path.{subst}
use unix_like_file_system.Block.{Block, block_size}
use unix_like_file_system.Disk.{Disk, Outcome, done, failed, aborted, fault}
use unix_like_file_system.Bitmap.{alloc_blk}
use unix_like_file_system.Bitmap.Alloc.{in_use}
use unix_like_file_system.Inode.{num_ptrs, num_dirents, ptr, size, is_dir, rounds_up}
use unix_like_file_system.Inode.Entries.{IsText}
use unix_like_file_system.Path.{Text}
use unix_like_file_system.Path.Tokens.{slashed}
use unix_like_file_system.Lookup.{root_inum}
use unix_like_file_system.Lookup.Resolves.{here}
use unix_like_file_system.Content.{Buffer, fs_write}
use unix_like_file_system.Content.Saved.{IsStored}
use unix_like_file_system.Content.Back.{IsClear, ReadsBack, fs_write-ReadsBack}
use unix_like_file_system.Entry.{Context, find_unused, fs_create}
use unix_like_file_system.Entry.Vacant.{Vacant}
use unix_like_file_system.Entry.Create.{Created, Apart, used-ne-free}
use unix_like_file_system.Entry.Make.{Creates, IsNew, fs_create-Creates}
use unix_like_file_system.Entry.Found.{root_stays, entry_there, listed_there}

module _ {d g : Disk} {name : Text} {i k : ℕ} {parent node : Block} {ctx : Context}
    {permissions : ℕ} (v : Vacant d [] name root_inum parent)
    (apart : Apart d root_inum (ptr parent 0))
    (c : Created d g name root_inum (ptr parent 0) i k v.missing.dirs node)
    (new : IsNew node ctx permissions (2 ^ 15) 0) where
  empty : size node ≡ 0
  empty = new.has_size

  no_blocks : rounds_up (size node) ≡ 0
  unfolding rounds_up
  no_blocks = ground (arith, empty)

  is_file : is_dir node ≡ false
  unfolding is_dir
  is_file = ground (arith, new.has_mode)

  no_block : {A : Type 0} (b : ℕ) → b < rounds_up (size node) → A
  no_block b lt = absurd (omega (arith, no_blocks))

  node-IsStored : IsStored g i node
  node-IsStored = record {
    file = record { fits = omega (arith, empty); in_image = λ b lt. absurd (omega (arith, empty)) };
    owns = record {
      range = λ b lt. no_block b lt;
      used = λ b lt. no_block b lt;
      apart = λ b lt. no_block b lt;
      distinct = λ b b' lt lt' e. no_block b lt;
    };
    inode_used = c.marks i ∙ ground arith;
    place = (omega (arith, c.new_block.0), c.new_block.1);
    map_there = c.not_smaller 1 apart.map_there;
  }

  -- The root directory's inode and its entries.
  place : (l : ℕ) → (root_inum ≡ l) ⊎ (ptr parent 0 ≡ l) → (in_use d l ≡ true) × (1 < l)
  place l (inl e) = subst (λ m. (in_use d m ≡ true) × (1 < m)) e (apart.inum_used, omega arith)
  place l (inr e) =
      subst (λ m. (in_use d m ≡ true) × (1 < m)) e (apart.entries_used, apart.entries_range.0)

  path-IsClear : IsClear g parent node (name ∷ []) i
  path-IsClear = record {
    root_there = root_stays v apart c;
    resolves = here (listed_there v apart c) (entry_there v apart c);
    used = λ l at. c.marks l ∙ ground (arith, place l at);
    not_file = λ l at.
        let (used, behind_map) = place l at in
        (
          (λ e. absurd (omega (arith, behind_map))),
          used-ne-free d l i used c.new_block.2,
          λ b lt. no_block b lt,
        );
  }

-- The file can be written from its start, and what was written is read.
abbrev pub IsWritable : Text → Block → Buffer → Buffer → ℕ → ℕ → Outcome (Unit {0}) → Type 0
IsWritable path stack buf out len now (done _ g) =
    ReadsBack stack path out buf len 0 (fs_write now stack path buf len 0 g)
IsWritable path stack buf out len now _ = ⊥

module _ {d g : Disk} {name : Text} {i k : ℕ} {parent : Block}
    (v : Vacant d [] name root_inum parent) (apart : Apart d root_inum (ptr parent 0))
    (text : IsText name) (allocated : alloc_blk d ≡ done i g)
    (unused : find_unused num_dirents 0 v.missing.dirs ≡ some k) (stack : Block) (buf out : Buffer)
    (len now : ℕ) (room : len ≤ block_size * num_ptrs) where
  Creates-IsWritable :
      (ctx : Context) (permissions : ℕ) (r : Outcome (Unit {0}))
      → Creates d name root_inum (ptr parent 0) v.missing.dirs ctx permissions r
      → IsWritable (slashed (name ∷ [])) stack buf out len now r
  Creates-IsWritable ctx permissions (done u h) (j, m, node, c, new) =
      fs_write-ReadsBack (node-IsStored v apart c new) (path-IsClear v apart c new) v.fits refl
        c.node_there (is_file v apart c new) stack buf out 0 len now (omega (arith, room))
        (omega arith)
  Creates-IsWritable ctx permissions (failed e h) n = absurd n
  Creates-IsWritable ctx permissions (aborted h) n = absurd n
  Creates-IsWritable ctx permissions fault n = absurd n

  -- After `fs_create` at a vacant path in the root directory, with a free block and an unused entry,
  -- `fs_write` of at most the largest size of a file from offset 0 on returns the number of bytes, and
  -- `fs_read` then returns them; or an assertion stops `fs_write`, and then no block is free.
  pub fs_create-IsWritable :
      (ctx : Context) (permissions : ℕ)
      → IsWritable
          (slashed (name ∷ []))
          stack
          buf
          out
          len
          now
          (fs_create stack ctx (slashed (name ∷ [])) permissions d)
  fs_create-IsWritable ctx permissions =
      Creates-IsWritable ctx permissions _
        (fs_create-Creates v apart text allocated unused stack ctx permissions)
