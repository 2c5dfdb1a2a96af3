-- ===== src/Entry/NoEntry.antt =====
-- `fs_create` in a directory that has no unused entry left.
use unix_like_file_system.Base.{
  ℕ, ◌^◌, ◌<◌, ◌≡◌, ◌≢◌, sym, ap, ◌∙◌, refl, true, false, ◌||◌, ◌==◌, Option, none, some, List, [],
  ◌∷◌, ◌++◌, arith,
}
use mathlib.Core.Path.{subst}
use mathlib.Core.Bool.{false≢true}
use unix_like_file_system.Block.{Block}
use unix_like_file_system.Disk.{Disk, Outcome, done, failed, einval, pattern_of, write_at}
use unix_like_file_system.Disk.Reads.{Holds, read_unchecked-Holds}
use unix_like_file_system.Disk.Writes.{block_write-done, write_at-ne, Holds-write_at}
use unix_like_file_system.Bitmap.{alloc_blk, bit_test}
use unix_like_file_system.Bitmap.Alloc.{Allocates, Holds-SameFiles, in_use, alloc_blk-Allocates}
use unix_like_file_system.Inode.{num_dirents, ptr, valid}
use unix_like_file_system.Path.{Text}
use unix_like_file_system.Path.Tokens.{slashed}
use unix_like_file_system.Entry.{Context, find_unused, add_entry, new_inode, fs_create}
use unix_like_file_system.Entry.Vacant.{Vacant, before_new-done}
use unix_like_file_system.Entry.Unused.{IsUnused, find_unused-IsUnused}
use unix_like_file_system.Entry.Create.{Apart, used-ne-free}

find_unused-full :
    (dirs : Block) (r : Option ℕ)
    → ((k : ℕ) → k < num_dirents → valid dirs k ≡ true)
    → IsUnused 0 num_dirents dirs r
    → r ≡ none
find_unused-full dirs none full h = refl
find_unused-full dirs (some k) full (p, q, clear, rest) = absurd (false≢true (sym clear ∙ full k q))

add_entry-full :
    (d : Disk) (name : Text) (n inum : ℕ) (parent dirs : Block)
    → Holds d (ptr parent 0) dirs
    → find_unused num_dirents 0 dirs ≡ none
    → add_entry name n inum parent d ≡ failed einval d
unfolding add_entry
add_entry-full d name n inum parent dirs holds full = rw (read_unchecked-Holds holds, full) refl

-- The call fails with -EINVAL, and a block that was free is marked as used; no block but this one and
-- the map changes.
abbrev pub LosesBlock : Disk → Outcome (Unit {0}) → Type 0
LosesBlock d (failed einval g) =
    (i : ℕ) × (in_use d i ≡ false)
    × ((j : ℕ) → in_use g j ≡ ((i == j) || in_use d j))
    × ((l : ℕ) → l ≢ 1 → l ≢ i → l < d.blocks → g.block l ≡ d.block l)
LosesBlock d _ = ⊥

module _ {d g : Disk} {names : List Text} {name : Text} {inum i : ℕ} {parent : Block}
    (v : Vacant d names name inum parent) (apart : Apart d inum (ptr parent 0))
    (allocated : alloc_blk d ≡ done i g)
    (full : (k : ℕ) → k < num_dirents → valid v.missing.dirs k ≡ true) where
  -- At a vacant path in a directory whose 128 entries are all valid, when there is a free block,
  -- `fs_create` returns -EINVAL after it has taken the block: the block stays marked as used, and no
  -- block but this one and the map changes.
  pub fs_create-LosesBlock :
      (stack : Block) (ctx : Context) (permissions : ℕ)
      → LosesBlock d (fs_create stack ctx (slashed (names ++ name ∷ [])) permissions d)
  unfolding fs_create pattern_of
  fs_create-LosesBlock stack ctx permissions =
      let alloc : Allocates d (done i g) =
        subst (Allocates d) allocated (alloc_blk-Allocates d apart.map_there) in
      let none_left : find_unused num_dirents 0 v.missing.dirs ≡ none =
        find_unused-full v.missing.dirs _ full
          (find_unused-IsUnused num_dirents 0 num_dirents v.missing.dirs refl) in
      let node = new_inode stack ctx permissions (2 ^ 15) 0 in
      let stays : Holds (write_at i node g) (ptr parent 0) v.missing.dirs =
        Holds-write_at i node
          (Holds-SameFiles alloc.5 v.missing.listed.entries
            (λ e. absurd (omega (arith, apart.entries_range))))
          (used-ne-free d (ptr parent 0) i apart.entries_used alloc.2) in
      rw
        (
          before_new-done v,
          allocated,
          block_write-done i node g (omega (arith, alloc.0)) (omega (arith, alloc.1)),
          add_entry-full (write_at i node g) name i inum parent v.missing.dirs stays none_left,
        )
        (
          i,
          alloc.2,
          (λ j.
              ap (λ b. bit_test b j)
                (write_at-ne i 1 node g (λ e. absurd (omega (arith, alloc.0)))
                  (rw (alloc.5.same_blocks) (apart.map_there)))
              ∙ alloc.4 j),
          λ l a b lt.
              write_at-ne i l node g b (rw (alloc.5.same_blocks) lt) ∙ alloc.5.same_block l a lt,
        )
