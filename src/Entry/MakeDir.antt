-- ===== src/Entry/MakeDir.antt =====
-- `fs_mkdir` as a whole.
use unix_like_file_system.Base.{ℕ, ◌^◌, ◌≡◌, refl, some, List, [], ◌∷◌, ◌++◌, arith}
use mathlib.Core.Path.{subst}
use unix_like_file_system.Block.{Block, get_u16, get_u32, set_u32}
use unix_like_file_system.Disk.{Disk, Outcome, done, pattern_of, zero_block}
use unix_like_file_system.Disk.Writes.{block_write-done}
use unix_like_file_system.Bitmap.{alloc_blk}
use unix_like_file_system.Bitmap.Alloc.{Allocates, alloc_blk-Allocates}
use unix_like_file_system.Inode.{num_dirents, ptr, set_ptr}
use unix_like_file_system.Inode.Entries.{IsText}
use unix_like_file_system.Path.{Text}
use unix_like_file_system.Path.Tokens.{slashed}
use unix_like_file_system.Inode.Pointers.{ptr-set_ptr}
use unix_like_file_system.Entry.{Context, find_unused, new_inode, fs_mkdir}
use unix_like_file_system.Entry.Vacant.{Vacant, before_new-done}
use unix_like_file_system.Entry.Unused.{IsUnused, find_unused-IsUnused}
use unix_like_file_system.Entry.Create.{Apart, add_entry-done}
use unix_like_file_system.Entry.MadeDir.{MadeDir, cleared, entries_stay, made}
use unix_like_file_system.Entry.Make.{IsNew, new_inode-IsNew}

pub IsNew-set_ptr :
    {node : Block} {ctx : Context} {permissions kind bytes : ℕ} (e : ℕ)
    → IsNew node ctx permissions kind bytes
    → IsNew (set_ptr node 0 e) ctx permissions kind bytes
unfolding get_u16 get_u32 set_u32
IsNew-set_ptr e new = record {
  owner = new.owner;
  has_mode = new.has_mode;
  has_size = new.has_size;
  stamped = new.stamped;
}

-- What `fs_mkdir` at a vacant path does.
abbrev pub Makes : Disk → Text → ℕ → Block → Context → ℕ → Outcome (Unit {0}) → Type 0
Makes d name entries dirs ctx permissions (done _ g) =
    (i : ℕ) × (e : ℕ) × (k : ℕ) × (node : Block) × MadeDir d g name entries i e k dirs node
    × IsNew node ctx permissions (2 ^ 14) 4096
Makes d name entries dirs ctx permissions _ = ⊥

module _ {d g h : Disk} {names : List Text} {name : Text} {inum i e k : ℕ} {parent : Block}
    (v : Vacant d names name inum parent) (apart : Apart d inum (ptr parent 0)) (text : IsText name)
    (allocated : alloc_blk d ≡ done i g) (entries_allocated : alloc_blk g ≡ done e h)
    (unused : find_unused num_dirents 0 v.missing.dirs ≡ some k) where
  -- At a vacant path, when there are two free blocks and an unused entry, `fs_mkdir` succeeds: one
  -- block that was free holds a directory's inode of size 4096, with the caller's ids, the
  -- permission bits and the time, and its first pointer is the number of the other, which holds no
  -- entries; both are marked as used; an entry of the parent that was unused names the inode, and the
  -- other entries stay; no block but these three and the map changes.
  pub fs_mkdir-Makes :
      (stack : Block) (ctx : Context) (permissions : ℕ)
      → Makes d name
          (ptr parent 0)
          v.missing.dirs
          ctx
          permissions
          (fs_mkdir stack ctx (slashed (names ++ name ∷ [])) permissions d)
  unfolding fs_mkdir pattern_of
  fs_mkdir-Makes stack ctx permissions =
      let first : Allocates d (done i g) =
        subst (Allocates d) allocated (alloc_blk-Allocates d apart.map_there) in
      let second : Allocates g (done e h) =
        subst (Allocates g) entries_allocated
          (alloc_blk-Allocates g (rw (first.5.same_blocks) (apart.map_there))) in
      let slot : IsUnused 0 num_dirents v.missing.dirs (some k) =
        subst (IsUnused 0 num_dirents v.missing.dirs) unused
          (find_unused-IsUnused num_dirents 0 num_dirents v.missing.dirs refl) in
      let node = set_ptr (new_inode stack ctx permissions (2 ^ 14) 4096) 0 e in
      let points : ptr node 0 ≡ e =
        ptr-set_ptr (new_inode stack ctx permissions (2 ^ 14) 4096) 0 e (omega (arith, second.1)) in
      let short = v.missing.listed.short in
      let there = v.missing.listed.entries in
      let dirs = v.missing.dirs in
      rw
        (
          before_new-done v,
          allocated,
          entries_allocated,
          block_write-done e zero_block h (omega (arith, second.0)) (omega (arith, second.1)),
          block_write-done i node
              (cleared name parent dirs node apart first second points (slot.1, slot.2) there
                v.holds text short)
              (omega (arith, first.0)) (omega (arith, first.1)),
          add_entry-done _ name i inum parent dirs k
              (entries_stay name parent dirs node apart first second points (slot.1, slot.2) there
                v.holds text short)
              short unused (omega (arith, apart.inum_range), apart.inum_range.1)
              (omega (arith, apart.entries_range), apart.entries_range.1),
        )
        (
          i,
          e,
          k,
          node,
          made name parent dirs node apart first second points (slot.1, slot.2) there v.holds text
              short,
          IsNew-set_ptr e (new_inode-IsNew stack ctx permissions 4 4096 (omega arith)),
        )
