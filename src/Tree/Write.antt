-- ===== src/Tree/Write.antt =====
-- `fs_write` keeps an image consistent.
use unix_like_file_system.Base.{
  ℕ, ◌+◌, ◌*◌, ◌^◌, ◌<◌, ◌≡◌, ◌≢◌, refl, sym, ap, ◌∙◌, ◌⊎◌, inl, inr, false, arith, Bool-cases, leb,
}
use mathlib.Core.Path.{subst}
use unix_like_file_system.Block.{Block, block_size}
use unix_like_file_system.Disk.{
  Disk, Outcome, Errno, done, failed, aborted, fault, eopnotsupp, eisdir, enospc,
}
use unix_like_file_system.Inode.{num_ptrs, size, is_dir, rounds_up}
use unix_like_file_system.Path.{Text}
use unix_like_file_system.Attr.{inode_of}
use unix_like_file_system.Attr.Named.{Named, inode_of-done, inode_of-failed, passed_on}
use unix_like_file_system.Content.{Buffer, fs_write}
use unix_like_file_system.Content.Owns.{Unsaved}
use unix_like_file_system.Content.Saved.{IsStored}
use unix_like_file_system.Content.Save.{Saves, fs_write-Saves}
use unix_like_file_system.Content.Limits.{fs_write_behind, fs_write_too_large}
use unix_like_file_system.Tree.{Role, content, IsInode, Marked, IsTree, Consistent, Keeps}
use unix_like_file_system.Tree.Apart.{listing≢content, content_inj}
use unix_like_file_system.Tree.Written.{Saved-Consistent}
use unix_like_file_system.Tree.Looks.{IsNormal, leads, misses, path-Looks}
use unix_like_file_system.Tree.Find.{listing-Marked, content-Marked, inode-Marked, Marked-Holds}
use unix_like_file_system.Tree.Change.{
  Gentle-Consistent, Alike, Alike-refl, EntryStays-same, unchanged,
}

module _ {d : Disk} {role : ℕ → Role} (t : IsTree d role) where
  pub file-IsStored :
      {n : ℕ} → IsInode (role n) → is_dir (d.block n) ≡ false → IsStored d n (d.block n)
  unfolding rounds_up
  file-IsStored {n} is file =
      let node = t.node n is in
      let marked = inode-Marked t n is in
      let mine = λ (i : ℕ) (lt : i < rounds_up (size (d.block n))). node.contents file i lt in
      let fits = node.fits file in
      record {
        file = record {
          fits = fits;
          in_image = λ b lt.
              let lt' : b < rounds_up (size (d.block n)) = ground (arith, lt, fits) in
              Marked-Holds t (content-Marked t (mine b lt'));
        };
        owns = record {
          range = λ b lt. (content-Marked t (mine b lt)).range;
          used = λ b lt. (content-Marked t (mine b lt)).used;
          apart = λ b lt same. subst IsInode (sym (ap role same) ∙ mine b lt) is;
          distinct =
              λ b c lt lt' same. (content_inj (sym (mine b lt) ∙ ap role same ∙ mine c lt')).1;
        };
        inode_used = marked.used;
        place = marked.range;
        map_there = t.map_there;
      }

  -- No inode and no entry block has changed.
  Unsaved-Consistent :
      {n : ℕ} {g : Disk}
      → IsInode (role n)
      → is_dir (d.block n) ≡ false
      → Unsaved d g (d.block n)
      → Consistent g
  Unsaved-Consistent {n} {g} is file left =
      let same : (l : ℕ) → Marked d l → ((i : ℕ) → role l ≢ content n i) → g.block l ≡ d.block l =
        λ l m other.
          left.same_files l (λ e. absurd (omega (arith, m.range))) m.used
            (λ b lt at. other b (ap role (sym at) ∙ (t.node n is).contents file b lt)) m.inside in
      Gentle-Consistent t (record {
        not_smaller = left.not_smaller;
        still_used = left.still_used;
        inodes = λ m inode.
            subst (Alike (d.block m))
              (sym (same m (inode-Marked t m inode) (λ i f. subst IsInode f inode)))
              (Alike-refl (d.block m));
        entries = λ e m k at below.
            EntryStays-same k (same e (listing-Marked t at) (λ i f. listing≢content (sym at ∙ f)));
      })

  Saves-Keeps :
      (n : ℕ) (buf : Buffer) (offset len now : ℕ)
      → IsInode (role n)
      → is_dir (d.block n) ≡ false
      → (r : Outcome ℕ) → Saves d n (d.block n) buf offset len now r
      → Keeps r
  Saves-Keeps n buf offset len now is file (done m g) (same, saved) =
      Saved-Consistent t is file saved
  Saves-Keeps n buf offset len now is file (failed e g) h = absurd h
  Saves-Keeps n buf offset len now is file (aborted g) (full, left) =
      (full, Unsaved-Consistent is file left)
  Saves-Keeps n buf offset len now is file fault h = absurd h

  -- Either the call changes nothing, or it writes to a file.
  abbrev pub WriteCases : Text → Buffer → ℕ → ℕ → ℕ → Outcome ℕ → Type 0
  WriteCases path buf offset len now r =
      ((r ≡ done 0 d) ⊎ ((e : Errno) × (r ≡ failed e d)))
      ⊎ ((n : ℕ) × Named d path n (d.block n)
          × IsInode (role n)
          × (is_dir (d.block n) ≡ false)
          × Saves d n (d.block n) buf offset len now r)

  module _ {path : Text} (now : ℕ) (stack : Block) (buf : Buffer) (len offset : ℕ)
      (normal : IsNormal path) (sane : offset + len < 2 ^ 64) where
    pub fs_write-cases :
        WriteCases path buf offset len now (fs_write now stack path buf len offset d)
    unfolding fs_write inode_of
    fs_write-cases = elim (path-Looks t normal) [
      | misses e found ↦ inl (inr (passed_on e, rw (inode_of-failed path eopnotsupp found) refl))
      | leads n named is m ↦ elim (Bool-cases (is_dir (d.block n))) [
        | inl directory ↦ inl (inr (eisdir, rw (inode_of-done eopnotsupp named, directory) refl))
        | inr file ↦
            let fits = (t.node n is).fits file in
            elim (Bool-cases (leb offset (size (d.block n)))) [
              | inr behind ↦ inl (
                  inl (
                    fs_write_behind d path n (d.block n) stack buf now len offset named file
                      (ground (arith, behind))))
              | inl in_file ↦ elim (Bool-cases (leb (offset + len) (block_size * num_ptrs))) [
                | inr large ↦ inl (
                    inr (
                      enospc,
                      fs_write_too_large d path n (d.block n) stack buf now len offset named file
                          (ground (arith, in_file)) (omega (arith, fits)) (ground (arith, large))
                          sane,
                    ))
                | inl room ↦ inr (
                  n,
                  named,
                  is,
                  file,
                  fs_write-Saves (file-IsStored is file) buf offset len now (ground (arith, room))
                      stack named file (ground (arith, in_file)),
                )
              ]
            ]
      ]
    ]

    -- In a consistent image, `fs_write` of a path as FUSE passes it, with an offset and a length whose
    -- sum fits a size_t, returns, with or without an error, or is stopped because no block is free, and
    -- leaves a consistent image.
    pub fs_write-Keeps : Keeps (fs_write now stack path buf len offset d)
    fs_write-Keeps = elim fs_write-cases [
      | inl (inl same) ↦ rw same (unchanged t)
      | inl (inr (e, same)) ↦ rw same (unchanged t)
      | inr (n, named, is, file, saves) ↦ Saves-Keeps n buf offset len now is file _ saves
    ]
