-- ===== src/Tree/MakeDir.antt =====
-- `fs_mkdir` keeps an image consistent.
use unix_like_file_system.Base.{
  ℕ, ◌^◌, ◌≤◌, ◌<◌, ◌≡◌, ◌≢◌, refl, sym, ap, ◌∙◌, inl, inr, false, ◌||◌, arith, ◌==◌, length, List,
  [], ◌∷◌, ◌++◌, Option, none, some,
}
use unix_like_file_system.Block.{Block}
use unix_like_file_system.Disk.{Disk, done, zero_block, pattern_of, write_at, block_write, number}
use unix_like_file_system.Disk.Reads.{Holds}
use unix_like_file_system.Disk.Writes.{block_write-done, write_at-ne, write_at-inside}
use unix_like_file_system.Bitmap.{bit_test}
use unix_like_file_system.Bitmap.Alloc.{in_use, Allocates, alloc_blk-Allocates}
use unix_like_file_system.Inode.{num_dirents, ptr, set_ptr, is_dir}
use unix_like_file_system.Inode.Entries.{IsText}
use unix_like_file_system.Path.{Text}
use unix_like_file_system.Path.Tokens.{slashed}
use unix_like_file_system.Lookup.Paths.{Fits}
use unix_like_file_system.Content.Round.{Allocates-cases}
use unix_like_file_system.Entry.{Context, find_unused, add_entry, new_inode, fs_mkdir}
use unix_like_file_system.Entry.Unused.{IsUnused, find_unused-IsUnused}
use unix_like_file_system.Entry.Create.{add_entry-done}
use unix_like_file_system.Entry.MadeDir.{made}
use unix_like_file_system.Entry.Make.{IsNew, new_inode-IsNew}
use unix_like_file_system.Entry.MakeDir.{IsNew-set_ptr}
use unix_like_file_system.Inode.Pointers.{ptr-set_ptr}
use unix_like_file_system.Tree.{Role, Marked, IsTree, Consistent, Keeps}
use unix_like_file_system.Tree.Find.{Marked-Holds}
use unix_like_file_system.Tree.Change.{unchanged, same-Consistent}
use unix_like_file_system.Tree.Reading.{before_new-Finds, reading-Keeps}
use unix_like_file_system.Tree.Added.{Marked-ne-free, behind_map}
use unix_like_file_system.Tree.NewDir.{MadeDir-Consistent}
use unix_like_file_system.Tree.Home.{Home, parent-Home, not_added}

-- The first of the two blocks is marked, and there is no second one.
only_marked :
    {d : Disk} {role : ℕ → Role} {i : ℕ} {g : Disk}
    → IsTree d role
    → Allocates d (done i g)
    → Consistent g
only_marked t alloc =
    same-Consistent t (omega (arith, alloc.5.same_blocks))
      (λ l used. alloc.4 l ∙ ground (arith, used))
      (λ l m. alloc.5.same_block l (behind_map m) m.inside)

-- A new directory in the directory `inum`.
module _ {d : Disk} {role : ℕ → Role} (t : IsTree d role) (name : Text) (text : IsText name)
    (short : length name ≤ 27) (inum : ℕ) (home : Home d role inum) where
  abbrev parent : Block
  parent = d.block inum

  abbrev entries : ℕ
  entries = ptr parent 0

  abbrev dirs : Block
  dirs = d.block entries

  module _ {i e : ℕ} {g h : Disk} (first : Allocates d (done i g)) (second : Allocates g (done e h))
      {ctx : Context} {permissions : ℕ} (node : Block) (points : ptr node 0 ≡ e)
      (new : IsNew node ctx permissions (2 ^ 14) 4096) where
    abbrev cleared : Disk
    cleared = write_at e zero_block h

    abbrev with_dir : Disk
    with_dir = write_at i node cleared

    inside : (l : ℕ) → l < d.blocks → l < h.blocks
    inside l lt = rw (second.5.same_blocks, first.5.same_blocks) lt

    free_before : in_use d e ≡ false
    free_before = ground (arith, first.4 e, second.2)

    written : (l : ℕ) → l ≢ i → l ≢ e → l < d.blocks → with_dir.block l ≡ h.block l
    written l a b lt =
        write_at-ne i l node cleared a (write_at-inside e l zero_block h (inside l lt))
        ∙ write_at-ne e l zero_block h b (inside l lt)

    same_block : (l : ℕ) → Marked d l → with_dir.block l ≡ d.block l
    same_block l m =
        written l (Marked-ne-free m first.2) (Marked-ne-free m free_before) m.inside
        ∙ second.5.same_block l (behind_map m) (rw (first.5.same_blocks) m.inside)
        ∙ first.5.same_block l (behind_map m) m.inside

    dir_unnamed : Consistent with_dir
    dir_unnamed =
        same-Consistent t (ground (arith, second.5.same_blocks, first.5.same_blocks))
          (λ l used.
            ap (λ b. bit_test b l)
              (written 1 (λ f. absurd (omega (arith, first.0)))
                (λ f. absurd (omega (arith, second.0))) t.map_there)
            ∙ second.4 l
            ∙ ap (λ u. (e == l) || u) (first.4 l)
            ∙ ground (arith, used))
          same_block

    entries_held : Holds with_dir entries dirs
    entries_held = record {
      inside =
          write_at-inside i entries node cleared
            (write_at-inside e entries zero_block h (inside entries home.entries.inside));
      reachable = omega (arith, home.entries.range);
      content = same_block entries home.entries;
    }

    added :
        (o : Option ℕ)
        → find_unused num_dirents 0 dirs ≡ o
        → IsUnused 0 num_dirents dirs o
        → Keeps (add_entry name i inum parent with_dir)
    added none full slot = not_added t name i inum with_dir entries_held full dir_unnamed
    added (some k) unused slot =
        rw
          (add_entry-done with_dir name i inum parent dirs k entries_held short unused
            (omega (arith, home.marked.range), home.marked.range.1)
            (omega (arith, home.entries.range), home.entries.range.1))
          (MadeDir-Consistent t home.is_listing short
            (made name parent dirs node home.apart first second points (slot.1, slot.2)
              (Marked-Holds t home.entries) (Marked-Holds t home.marked) text short)
            new)

module _ {d : Disk} {role : ℕ → Role} (t : IsTree d role) (names : List Text) (name : Text)
    (fits : Fits (names ++ name ∷ [])) (text : IsText name) (stack : Block) (ctx : Context)
    (permissions : ℕ) where
  -- In a consistent image, `fs_mkdir` of a path below the root, whether it returns, with or
  -- without an error, or is stopped by an assertion, leaves a consistent image.
  pub fs_mkdir-Keeps : Keeps (fs_mkdir stack ctx (slashed (names ++ name ∷ [])) permissions d)
  unfolding fs_mkdir block_write pattern_of number
  fs_mkdir-Keeps =
      reading-Keeps _ _ t (before_new-Finds t names name fits)
        λ (nm, inum, parent) (same, short, (found, is, at, directory)).
          elim (Allocates-cases d _ (alloc_blk-Allocates d t.map_there)) [
            | inr (run, full) ↦ rw (run, run) (full, unchanged t)
            | inl (i, g, run, first) ↦
                elim (Allocates-cases g _
                  (alloc_blk-Allocates g (rw (first.5.same_blocks) t.map_there))) [
                    | inr (run', full) ↦ rw (run, run') (full, only_marked t first)
                    | inl (e, h, run', second) ↦
                        let old = new_inode stack ctx permissions (2 ^ 14) 4096 in
                        let node = set_ptr old 0 e in
                        let cleared = write_at e zero_block h in
                        rw
                          (
                            run,
                            run',
                            block_write-done e zero_block h (omega (arith, second.0))
                                (omega (arith, second.1)),
                            block_write-done i node cleared (omega (arith, first.0))
                                (omega (arith, first.1)),
                            same,
                            sym at,
                          )
                          (added t name text short inum
                            (parent-Home t is (ap is_dir at ∙ directory)) first second node
                            (ptr-set_ptr old 0 e (omega (arith, second.1)))
                            (IsNew-set_ptr e
                              (new_inode-IsNew stack ctx permissions 4 4096 (omega arith)))
                            (find_unused num_dirents 0 (d.block (ptr (d.block inum) 0))) refl
                            (find_unused-IsUnused num_dirents 0 num_dirents _ refl))
                  ]
          ]
