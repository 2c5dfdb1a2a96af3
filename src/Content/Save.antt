-- ===== src/Content/Save.antt =====
-- `fs_write` as a whole.
use unix_like_file_system.Base.{
  ℕ, ◌+◌, ◌-◌, ◌*◌, ◌/◌, ◌%◌, ◌^◌, ◌≤◌, ◌<◌, ◌≡◌, ◌≢◌, refl, sym, ap, ◌∙◌, ◌⊎◌, inl, inr, Bool,
  false, ltb, leb, ◌&&◌, ◌||◌, if◌then◌else◌, arith, max,
}
use mathlib.Core.Path.{subst}
use unix_like_file_system.Block.{Block, block_size, byte}
use unix_like_file_system.Disk.{Disk, Outcome, done, failed, aborted, fault, eopnotsupp, write_at}
use unix_like_file_system.Disk.Reads.{Holds}
use unix_like_file_system.Disk.Writes.{
  block_write-done, write_at-ne, write_at-inside, Holds-write_at_self,
}
use unix_like_file_system.Bitmap.{bit_test}
use unix_like_file_system.Bitmap.Alloc.{in_use, AllUsed}
use unix_like_file_system.Inode.{num_ptrs, size, ptr, is_dir, is_negative, rounds_up}
use unix_like_file_system.Path.{Text}
use unix_like_file_system.Attr.Named.{Named, inode_of-done}
use unix_like_file_system.Content.{Buffer, resized, fs_write}
use unix_like_file_system.Content.Read.{file_byte}
use unix_like_file_system.Content.Owns.{Owns, IsCovered, expected, Written, Unsaved, other_block}
use unix_like_file_system.Content.Saved.{
  IsStored, Saved, size-resized, resized-ptr, mtime-resized, resized_outside,
}
use unix_like_file_system.Content.Write.{Finishes, same_size, write_loop-Runs}

abbrev pub Saves : Disk → ℕ → Block → Buffer → ℕ → ℕ → ℕ → Outcome ℕ → Type 0
Saves d n inode buf offset len now (done m g) = (m ≡ len) × Saved d g n inode buf offset len now
Saves d n inode buf offset len now (aborted g) = AllUsed g × Unsaved d g inode
Saves d n inode buf offset len now _ = ⊥

module _ {d : Disk} {n : ℕ} {inode : Block} (stored : IsStored d n inode) (buf : Buffer)
    (offset len now : ℕ) (room : offset + len ≤ block_size * num_ptrs) where
  first-Written :
      offset ≤ size inode
      → Written d n inode buf offset (offset + 0) (rounds_up (size inode)) d inode
  unfolding rounds_up
  first-Written behind = record {
    owns = stored.owns;
    bound = (ground (arith, stored.file.fits), ground (arith, stored.file.fits));
    inside = λ o covered. (stored.file.in_image (o / block_size) (omega arith)).inside;
    content = λ o covered.
        let none_yet : (leb offset o && ltb o (offset + 0)) ≡ false = ground arith in
        ap (λ (t : Bool). if t then byte buf (o - offset) else file_byte d inode o) (sym none_yet);
    same_ptrs = λ b lt. refl;
    fresh = λ b ge lt. absurd (omega arith);
    inode_used = stored.inode_used;
    same_fields = λ i lt. refl;
    no_smaller = omega arith;
    still_used = λ l used. used;
    same_files = λ l a used b lt. refl;
  }

  module _ {held : ℕ} {e : Disk} {node : Block}
      (w : Written d n inode buf offset (offset + len) held e node)
      (same : size node ≡ size inode) where
    abbrev new_inode : Block
    new_inode = resized now (offset + len) node

    abbrev after : Disk
    after = write_at n new_inode e

    small_end : offset + len < 2 ^ 31
    small_end = omega arith

    final_size : size new_inode ≡ max (size inode) (offset + len)
    final_size =
        size-resized now (offset + len) node small_end ∙ ap (λ s. max s (offset + len)) same

    covered : (o : ℕ) → o < size new_inode → IsCovered (size inode) (offset + len) o
    covered o lt = ground (arith, final_size)

    pointer : (b : ℕ) → ptr new_inode b ≡ ptr node b
    pointer = resized-ptr now (offset + len) node small_end

    owned : (o : ℕ) → o < size new_inode → o / block_size < held
    owned o lt = ground (arith, covered o lt, w.bound)

    same_block : (l : ℕ) → l ≢ n → l < e.blocks → after.block l ≡ e.block l
    same_block l ne lt = write_at-ne n l new_inode e ne lt

    byte_after :
        (o : ℕ)
        → o < size new_inode
        → file_byte after new_inode o ≡ expected d inode buf offset (offset + len) o
    byte_after o lt =
        ap (λ p. byte (after.block p) (o % block_size)) (pointer (o / block_size))
        ∙ ap (λ b. byte b (o % block_size))
            (same_block (ptr node (o / block_size)) (w.owns.apart _ (owned o lt))
              (w.inside o (covered o lt)))
        ∙ w.content o (covered o lt)

    in_image :
        (b : ℕ)
        → b * block_size < size new_inode
        → Holds after (ptr new_inode b) (after.block (ptr new_inode b))
    in_image b lt =
        let at : b * block_size / block_size ≡ b = omega arith in
        let there : ptr node b < e.blocks =
          subst (λ k. ptr node k < e.blocks) at
            (w.inside (b * block_size) (covered (b * block_size) lt)) in
        let mine : b < held = omega (arith, owned (b * block_size) lt) in
        record {
          inside = rw (pointer b) (write_at-inside n _ new_inode e there);
          reachable = rw (pointer b) (omega (arith, w.owns.range b mine));
          content = refl;
        }

    same_map : (l : ℕ) → in_use after l ≡ in_use e l
    same_map l =
        ap (λ b. bit_test b l)
          (same_block 1 (λ p. absurd (omega (arith, stored.place)))
            (omega (arith, w.no_smaller, stored.map_there)))

    mine : (b : ℕ) → b < rounds_up (size new_inode) → b < held
    unfolding rounds_up
    mine b lt = ground (arith, lt, final_size, w.bound, stored.file.fits)

    Owns-after : Owns after n new_inode (rounds_up (size new_inode))
    Owns-after = record {
      range = λ b lt. rw (pointer b) (w.owns.range b (mine b lt));
      used = λ b lt. rw (pointer b) (same_map (ptr node b) ∙ w.owns.used b (mine b lt));
      apart = λ b lt. rw (pointer b) (w.owns.apart b (mine b lt));
      distinct = λ b c lt lt' same.
          w.owns.distinct b c (mine b lt) (mine c lt') (sym (pointer b) ∙ same ∙ pointer c);
    }

    saved : Saved d after n inode buf offset len now
    saved = record {
      new = new_inode;
      there = Holds-write_at_self n new_inode e (omega (arith, stored.place));
      new_size = final_size;
      stamped = mtime-resized now (offset + len) node small_end;
      same_fields = λ i lt.
          resized_outside now (offset + len) node small_end i lt ∙ w.same_fields i (omega arith);
      file = record { fits = ground (arith, final_size, stored.file.fits); in_image = in_image };
      owns = Owns-after;
      same_ptrs = λ b lt. pointer b ∙ w.same_ptrs b lt;
      fresh = λ b ge lt. ap (in_use d) (pointer b) ∙ w.fresh b ge (mine b lt);
      content = byte_after;
      not_smaller = ground (arith, w.no_smaller);
      still_used = λ l used. same_map l ∙ w.still_used l used;
      same_files = λ l a b used apart lt.
          same_block l b (omega (arith, w.no_smaller))
          ∙ w.same_files l a used (other_block w l used apart) lt;
    }

  Finishes-cases :
      (r : Outcome (ℕ × Block))
      → Finishes d n inode buf offset len stored.file.fits room r
      → ((m : ℕ) × (node : Block) × (e : Disk) × (r ≡ done (m, node) e)
          × (m ≡ len)
          × (held : ℕ) × Written d n inode buf offset (offset + len) held e node)
        ⊎ ((g : Disk) × (r ≡ aborted g) × AllUsed g × Unsaved d g inode)
  Finishes-cases (done (m, node) e) (end, held, w) = inl (m, node, e, refl, end, held, w)
  Finishes-cases (failed x g) h = absurd h
  Finishes-cases (aborted g) (full, left) = inr (g, refl, full, left)
  Finishes-cases fault h = absurd h

  -- For a path to a file that is well stored, and bytes from an offset within the file that end
  -- within the largest size of a file: either `fs_write` returns their number, and the file then holds
  -- the bytes of the buffer in their place and its old bytes elsewhere, with the new size and time, and
  -- no other block that was in use has changed but the map; or an assertion stops it, and then no
  -- block is free in the image that it leaves, and of the blocks that were in use only the map and the
  -- file's have changed.
  pub fs_write-Saves :
      {path : Text} (stack : Block)
      → Named d path n inode
      → is_dir inode ≡ false
      → offset ≤ size inode
      → Saves d n inode buf offset len now (fs_write now stack path buf len offset d)
  unfolding fs_write
  fs_write-Saves {path} stack named is_file behind =
      let past : (is_negative inode || ltb (size inode) offset) ≡ false =
        ground (arith, stored.file.fits) in
      let under : ltb (block_size * num_ptrs) ((offset + len) % 2 ^ 64) ≡ false = ground arith in
      let no_wrap : (offset + len) % 2 ^ 64 ≡ offset + len = omega arith in
      let first_block : offset / block_size ≤ rounds_up (size inode) =
        unfold rounds_up in ground (arith, stored.file.fits) in
      let loop = Finishes-cases _ (
        write_loop-Runs d n inode buf offset len stored.file.fits room (len + 1) 0
          (offset / block_size) (offset % block_size) (rounds_up (size inode)) inode stack d
          (omega arith) (omega arith) (inr (omega arith, omega arith))
          (first_block, omega arith, inl refl) stored.map_there (first-Written behind)) in
      rw (inode_of-done eopnotsupp named, is_file, past, under)
        (elim loop [
          | inl (m, node, e, run, end, held, w) ↦
              rw
                (
                  run,
                  no_wrap,
                  block_write-done n (resized now (offset + len) node) e
                      (omega (arith, stored.place)) (omega (arith, stored.place)),
                )
                (end, saved w (same_size d n inode buf offset len stored.file.fits room w))
          | inr (g, run, full, left) ↦ rw run (full, left)
        ])
