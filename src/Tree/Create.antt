-- ===== src/Tree/Create.antt =====
-- `fs_create` keeps an image consistent.
use unix_like_file_system.Base.{
  ℕ, ◌^◌, ◌≤◌, ◌<◌, ◌≡◌, refl, sym, ap, ◌∙◌, inl, inr, arith, length, List, [], ◌∷◌, ◌++◌, Option,
  none, some,
}
use unix_like_file_system.Block.{Block}
use unix_like_file_system.Disk.{Disk, done, pattern_of, write_at, block_write, number}
use unix_like_file_system.Disk.Reads.{Holds}
use unix_like_file_system.Disk.Writes.{block_write-done, write_at-ne, write_at-inside}
use unix_like_file_system.Bitmap.{bit_test}
use unix_like_file_system.Bitmap.Alloc.{Allocates, alloc_blk-Allocates}
use unix_like_file_system.Inode.{num_dirents, ptr, is_dir}
use unix_like_file_system.Inode.Entries.{IsText}
use unix_like_file_system.Path.{Text}
use unix_like_file_system.Path.Tokens.{slashed}
use unix_like_file_system.Lookup.Paths.{Fits}
use unix_like_file_system.Content.Round.{Allocates-cases}
use unix_like_file_system.Entry.{Context, find_unused, add_entry, new_inode, fs_create}
use unix_like_file_system.Entry.Unused.{IsUnused, find_unused-IsUnused}
use unix_like_file_system.Entry.Create.{add_entry-done, created}
use unix_like_file_system.Entry.Make.{IsNew, new_inode-IsNew}
use unix_like_file_system.Tree.{Role, Marked, IsTree, Consistent, Keeps}
use unix_like_file_system.Tree.Find.{Marked-Holds}
use unix_like_file_system.Tree.Change.{unchanged, same-Consistent}
use unix_like_file_system.Tree.Reading.{before_new-Finds, reading-Keeps}
use unix_like_file_system.Tree.Added.{Marked-ne-free, behind_map}
use unix_like_file_system.Tree.NewFile.{Created-Consistent}
use unix_like_file_system.Tree.Home.{Home, parent-Home, not_added}

-- A new file in the directory `inum`.
module _ {d : Disk} {role : ℕ → Role} (t : IsTree d role) (name : Text) (text : IsText name)
    (short : length name ≤ 27) (inum : ℕ) (home : Home d role inum) where
  abbrev parent : Block
  parent = d.block inum

  abbrev entries : ℕ
  entries = ptr parent 0

  abbrev dirs : Block
  dirs = d.block entries

  module _ {i : ℕ} {g : Disk} (alloc : Allocates d (done i g)) {ctx : Context} {permissions : ℕ}
      (node : Block) (new : IsNew node ctx permissions (2 ^ 15) 0) where
    abbrev with_node : Disk
    with_node = write_at i node g

    inside : (l : ℕ) → l < d.blocks → l < g.blocks
    inside l lt = rw (alloc.5.same_blocks) lt

    same_block : (l : ℕ) → Marked d l → with_node.block l ≡ d.block l
    same_block l m =
        write_at-ne i l node g (Marked-ne-free m alloc.2) (inside l m.inside)
        ∙ alloc.5.same_block l (behind_map m) m.inside

    node_unnamed : Consistent with_node
    node_unnamed =
        same-Consistent t (ground (arith, alloc.5.same_blocks))
          (λ l used.
            ap (λ b. bit_test b l)
              (write_at-ne i 1 node g (λ f. absurd (omega (arith, alloc.0))) (inside 1 t.map_there))
            ∙ alloc.4 l
            ∙ ground (arith, used))
          same_block

    entries_held : Holds with_node entries dirs
    entries_held = record {
      inside = write_at-inside i entries node g (inside entries home.entries.inside);
      reachable = omega (arith, home.entries.range);
      content = same_block entries home.entries;
    }

    added :
        (o : Option ℕ)
        → find_unused num_dirents 0 dirs ≡ o
        → IsUnused 0 num_dirents dirs o
        → Keeps (add_entry name i inum parent with_node)
    added none full slot = not_added t name i inum with_node entries_held full node_unnamed
    added (some k) unused slot =
        rw
          (add_entry-done with_node name i inum parent dirs k entries_held short unused
            (omega (arith, home.marked.range), home.marked.range.1)
            (omega (arith, home.entries.range), home.entries.range.1))
          (Created-Consistent t home.is_listing short
            (created name parent dirs node home.apart alloc (slot.1, slot.2)
              (Marked-Holds t home.entries) (Marked-Holds t home.marked) text short)
            new)

module _ {d : Disk} {role : ℕ → Role} (t : IsTree d role) (names : List Text) (name : Text)
    (fits : Fits (names ++ name ∷ [])) (text : IsText name) (stack : Block) (ctx : Context)
    (permissions : ℕ) where
  -- In a consistent image, `fs_create` of a path below the root, whether it returns, with or
  -- without an error, or is stopped by an assertion, leaves a consistent image.
  pub fs_create-Keeps : Keeps (fs_create stack ctx (slashed (names ++ name ∷ [])) permissions d)
  unfolding fs_create block_write pattern_of number
  fs_create-Keeps =
      reading-Keeps _ _ t (before_new-Finds t names name fits)
        λ (nm, inum, parent) (same, short, (found, is, at, directory)).
          elim (Allocates-cases d _ (alloc_blk-Allocates d t.map_there)) [
            | inr (run, full) ↦ rw run (full, unchanged t)
            | inl (i, g, run, alloc) ↦
                let node = new_inode stack ctx permissions (2 ^ 15) 0 in
                rw
                  (
                    run,
                    block_write-done i node g (omega (arith, alloc.0)) (omega (arith, alloc.1)),
                    same,
                    sym at,
                  )
                  (added t name text short inum (parent-Home t is (ap is_dir at ∙ directory)) alloc
                    node (new_inode-IsNew stack ctx permissions 8 0 (omega arith))
                    (find_unused num_dirents 0 (d.block (ptr (d.block inum) 0))) refl
                    (find_unused-IsUnused num_dirents 0 num_dirents _ refl))
          ]
