-- ===== src/Entry/Make.antt =====
-- `fs_create` as a whole, and that the new file is found under its path.
use unix_like_file_system.Base.{
  ℕ, ◌+◌, ◌*◌, ◌%◌, ◌^◌, ◌<◌, ◌≡◌, refl, some, List, [], ◌∷◌, ◌++◌, bit_and, bit_or, arith,
}
use mathlib.Core.Path.{subst}
use unix_like_file_system.Base.Masks.{low_and, or_low, or_comm}
use unix_like_file_system.Block.{Block, get_u16, get_u32, set_u16, set_u32}
use unix_like_file_system.Disk.{Disk, Outcome, done, pattern_of}
use unix_like_file_system.Disk.Writes.{block_write-done}
use unix_like_file_system.Bitmap.{alloc_blk}
use unix_like_file_system.Bitmap.Alloc.{Allocates, alloc_blk-Allocates}
use unix_like_file_system.Inode.{num_dirents, ptr, uid, gid, mode, size, ctime, mtime}
use unix_like_file_system.Inode.Entries.{IsText}
use unix_like_file_system.Path.{Text}
use unix_like_file_system.Path.Tokens.{slashed}
use unix_like_file_system.Entry.{Context, find_unused, new_inode, fs_create}
use unix_like_file_system.Entry.Vacant.{Vacant, before_new-done}
use unix_like_file_system.Entry.Unused.{IsUnused, find_unused-IsUnused}
use unix_like_file_system.Entry.Create.{Created, Apart, add_entry-done, created, entries_stay}

-- An inode as it is made: the caller's, with the permission bits and the kind, of a given size.
pub record IsNew (node : Block) (ctx : Context) (permissions kind bytes : ℕ) : Type 0 where
  pub owner : (uid node ≡ ctx.caller_uid % 2 ^ 16) × (gid node ≡ ctx.caller_gid % 2 ^ 16)
  pub has_mode : mode node ≡ kind + permissions % 2 ^ 12
  pub has_size : size node ≡ bytes % 2 ^ 32
  pub stamped : (ctime node ≡ ctx.now % 2 ^ 32) × (mtime node ≡ ctx.now % 2 ^ 32)

kind-mode :
    (permissions q : ℕ)
    → bit_or (bit_and 0xfff permissions) (q * 2 ^ 12) ≡ q * 2 ^ 12 + permissions % 2 ^ 12
kind-mode permissions q =
    rw (low_and permissions, or_comm (permissions % 2 ^ 12) (q * 2 ^ 12))
      (or_low 12 q (permissions % 2 ^ 12) (omega arith))

pub new_inode-IsNew :
    (stack : Block) (ctx : Context) (permissions q bytes : ℕ)
    → q < 16
    → IsNew (new_inode stack ctx permissions (q * 2 ^ 12) bytes) ctx permissions (q * 2 ^ 12) bytes
unfolding new_inode get_u16 get_u32 set_u16 set_u32
new_inode-IsNew stack ctx permissions q bytes h =
    let m = kind-mode permissions q in
    rw m (record {
      owner = (omega arith, omega arith);
      has_mode = omega arith;
      has_size = omega arith;
      stamped = (omega arith, omega arith);
    })

-- What `fs_create` at a vacant path does.
abbrev pub Creates : Disk → Text → ℕ → ℕ → Block → Context → ℕ → Outcome (Unit {0}) → Type 0
Creates d name inum entries dirs ctx permissions (done _ g) =
    (i : ℕ) × (k : ℕ) × (node : Block) × Created d g name inum entries i k dirs node
    × IsNew node ctx permissions (2 ^ 15) 0
Creates d name inum entries dirs ctx permissions _ = ⊥

module _ {d g : Disk} {names : List Text} {name : Text} {inum i k : ℕ} {parent : Block}
    (v : Vacant d names name inum parent) (apart : Apart d inum (ptr parent 0)) (text : IsText name)
    (allocated : alloc_blk d ≡ done i g)
    (unused : find_unused num_dirents 0 v.missing.dirs ≡ some k) where
  -- At a vacant path, when there is a free block and an unused entry, `fs_create` succeeds: a
  -- block that was free holds a regular file's inode of size 0, with the caller's ids, the permission
  -- bits and the time, and is marked as used; an entry of the parent that was unused names it, and
  -- the other entries stay; no block but these two and the map changes.
  pub fs_create-Creates :
      (stack : Block) (ctx : Context) (permissions : ℕ)
      → Creates d name inum
          (ptr parent 0)
          v.missing.dirs
          ctx
          permissions
          (fs_create stack ctx (slashed (names ++ name ∷ [])) permissions d)
  unfolding fs_create pattern_of
  fs_create-Creates stack ctx permissions =
      let alloc : Allocates d (done i g) =
        subst (Allocates d) allocated (alloc_blk-Allocates d apart.map_there) in
      let slot : IsUnused 0 num_dirents v.missing.dirs (some k) =
        subst (IsUnused 0 num_dirents v.missing.dirs) unused
          (find_unused-IsUnused num_dirents 0 num_dirents v.missing.dirs refl) in
      let node = new_inode stack ctx permissions (2 ^ 15) 0 in
      let short = v.missing.listed.short in
      let there = v.missing.listed.entries in
      rw
        (
          before_new-done v,
          allocated,
          block_write-done i node g (omega (arith, alloc.0)) (omega (arith, alloc.1)),
          add_entry-done _ name i inum parent v.missing.dirs k
              (entries_stay name parent v.missing.dirs node apart alloc (slot.1, slot.2) there
                v.holds text short)
              short unused (omega (arith, apart.inum_range), apart.inum_range.1)
              (omega (arith, apart.entries_range), apart.entries_range.1),
        )
        (
          i,
          k,
          node,
          created name parent v.missing.dirs node apart alloc (slot.1, slot.2) there v.holds text
              short,
          new_inode-IsNew stack ctx permissions 8 0 (omega arith),
        )
