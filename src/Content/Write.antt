-- ===== src/Content/Write.antt =====
-- The loop of `fs_write`.
use unix_like_file_system.Base.{
  ℕ, zero, suc, ◌+◌, ◌*◌, ◌/◌, ◌%◌, ◌≤◌, ◌<◌, ◌≡◌, refl, ◌⊎◌, inl, inr, true, ltb, arith,
  Bool-cases, lt→ltb,
}
use mathlib.Core.Path.{subst}
use unix_like_file_system.Block.{Block, block_size, byte}
use unix_like_file_system.Block.Words.{get_u32_cong}
use unix_like_file_system.Disk.{Disk, Outcome, done, aborted, write_at}
use unix_like_file_system.Disk.Writes.{write_at-inside}
use unix_like_file_system.Bitmap.Alloc.{alloc_blk-Allocates, AllUsed}
use unix_like_file_system.Inode.{num_ptrs, size, ptr, set_ptr, rounds_up}
use unix_like_file_system.Content.{Buffer, copy_bytes, extend, write_length, write_loop}
use unix_like_file_system.Content.Read.{file_byte}
use unix_like_file_system.Content.Owns.{IsCovered, Written, Unsaved, Written-Unsaved}
use unix_like_file_system.Content.Put.{put-Written}
use unix_like_file_system.Content.Extend.{longer-Written}
use unix_like_file_system.Content.Round.{
  found_or, Takes, write_length-Takes, Allocates-cases, extend-held, extend-new, extend-none,
  round-done, round-full, round-stop,
}

module _ (d : Disk) (n : ℕ) (inode : Block) (buf : Buffer) (offset len : ℕ)
    (fits : size inode ≤ block_size * num_ptrs) (room : offset + len ≤ block_size * num_ptrs) where
  -- How the loop ends: with all bytes written, or stopped by an assertion on a full disk.
  abbrev pub Finishes : Outcome (ℕ × Block) → Type 0
  Finishes (done (m, node) e) =
      (m ≡ len) × (held : ℕ) × Written d n inode buf offset (offset + len) held e node
  Finishes (aborted g) = AllUsed g × Unsaved d g inode
  Finishes _ = ⊥

  pub same_size :
      {upto held : ℕ} {e : Disk} {node : Block}
      → Written d n inode buf offset upto held e node
      → size node ≡ size inode
  same_size {node} w =
      get_u32_cong node inode 16 (w.same_fields 16 (omega arith)) (w.same_fields 17 (omega arith))
        (w.same_fields 18 (omega arith)) (w.same_fields 19 (omega arith))

  -- Where the loop stands: at the end, or at the place that the two block variables say.
  abbrev At : ℕ → ℕ → ℕ → Type 0
  At nread block_num block_offset =
      (nread ≡ len)
      ⊎ ((offset + nread ≡ block_num * block_size + block_offset) × (block_offset < block_size))

  At-next :
      (nread block_num block_offset t : ℕ)
      → offset + nread ≡ block_num * block_size + block_offset
      → Takes len nread block_offset t
      → At (nread + t) (block_num + 1) 0
  At-next nread block_num block_offset t at takes = elim (takes.to_end) [
    | inl full ↦ inr (omega arith, omega arith)
    | inr end ↦ inl end
  ]

  -- The place of the loop among the file's blocks.
  abbrev Stands : ℕ → ℕ → Type 0
  Stands block_num held =
      (block_num ≤ held)
      × (rounds_up (size inode) ≤ held)
      × ((held ≡ rounds_up (size inode)) ⊎ (held ≡ block_num))

  -- The bytes of a block that has been read, for `put-Written`.
  found_or-kept :
      {upto held : ℕ} {e : Disk} {node : Block} (block_num : ℕ) (buffer : Block)
      → Written d n inode buf offset upto held e node
      → (o : ℕ) → IsCovered (size inode) upto o
      → o / block_size ≡ block_num
      → byte (found_or buffer (ptr node block_num) e) (o % block_size) ≡ file_byte e node o
  found_or-kept {e} {node} block_num buffer w o covered here =
      let there : ltb (ptr node block_num) e.blocks ≡ true =
        rw (← here) (lt→ltb _ _ (w.inside o covered)) in
      rw (there, here)

  -- What the loop does with `fuel` rounds, from wherever it stands.
  abbrev Runs : ℕ → Type 0
  Runs fuel =
      (nread block_num block_offset held : ℕ) (node buffer : Block) (e : Disk)
      → len < fuel + nread
      → nread ≤ len
      → At nread block_num block_offset
      → Stands block_num held
      → 1 < e.blocks
      → Written d n inode buf offset (offset + nread) held e node
      → Finishes (write_loop fuel node len offset nread block_num block_offset buffer buf e)

  -- A round in a block of the file, and those behind it.
  write_in :
      (fuel nread block_num block_offset held : ℕ) (node node' buffer : Block) (e e' : Disk)
      → Runs fuel
      → len < suc fuel + nread
      → nread < len
      → offset + nread ≡ block_num * block_size + block_offset
      → block_offset < block_size
      → block_num < held
      → rounds_up (size inode) ≤ held
      → (held ≡ rounds_up (size inode)) ⊎ (held ≡ block_num + 1)
      → 1 < e'.blocks
      → extend node block_num e ≡ done node' e'
      → Written d n inode buf offset (offset + nread) held e' node'
      → Finishes (write_loop (suc fuel) node len offset nread block_num block_offset buffer buf e)
  write_in fuel nread block_num block_offset held node node' buffer e e' rest enough more at below
        mine covers stands there run w =
      let t = write_length len nread block_offset in
      let takes = write_length-Takes len nread block_offset more below in
      let old = found_or buffer (ptr node' block_num) e' in
      let filled = copy_bytes t 0 buf nread old block_offset in
      let next = write_at (ptr node' block_num) filled e' in
      let range = w.owns.range block_num mine in
      rw
        (round-done len offset room buf fuel nread block_num block_offset buffer node node' e e'
          more run range.0 range.1)
        (rest (nread + t) (block_num + 1) 0 held node' filled next (omega (arith, takes.some_bytes))
          takes.in_len (At-next nread block_num block_offset t at takes)
          (omega arith, covers, stands) (write_at-inside (ptr node' block_num) 1 filled e' there)
          (subst (λ u. Written d n inode buf offset u held next node') (omega arith)
            (put-Written w block_num block_offset t old mine at nread refl takes.in_block there
              (found_or-kept block_num buffer w))))

  -- A round that finds the block number behind the file's blocks.
  write_behind :
      (fuel nread block_num block_offset : ℕ) (node buffer : Block) (e : Disk)
      → Runs fuel
      → len < suc fuel + nread
      → nread < len
      → offset + nread ≡ block_num * block_size + block_offset
      → block_offset < block_size
      → rounds_up (size inode) ≤ block_num
      → 1 < e.blocks
      → Written d n inode buf offset (offset + nread) block_num e node
      → Finishes (write_loop (suc fuel) node len offset nread block_num block_offset buffer buf e)
  write_behind fuel nread block_num block_offset node buffer e rest enough more at below past there
        w =
      let in_ptrs : block_num < num_ptrs = omega arith in
      let same = same_size w in
      let fits' : size node ≤ block_size * num_ptrs = rw same fits in
      let past' : rounds_up (size node) ≤ block_num = rw same past in
      elim (Allocates-cases e _ (alloc_blk-Allocates e there)) [
        | inl (i, g, run, alloc) ↦
            write_in fuel nread block_num block_offset (block_num + 1) node
              (set_ptr node block_num i) buffer e g rest enough more at below (omega arith)
              (omega arith) (inr refl) (omega (arith, alloc.5.same_blocks))
              (extend-new node block_num i e g fits' in_ptrs past' alloc.0 run)
              (longer-Written w alloc past)
        | inr (run, full) ↦
            rw
              (round-full len offset room buf fuel nread block_num block_offset buffer node e more
                (extend-none node block_num e fits' in_ptrs past' run))
              (full, Written-Unsaved w)
      ]

  write_loop-end :
      (fuel nread block_num block_offset held : ℕ) (node buffer : Block) (e : Disk)
      → nread ≡ len
      → Written d n inode buf offset (offset + nread) held e node
      → Finishes (write_loop (suc fuel) node len offset nread block_num block_offset buffer buf e)
  write_loop-end fuel nread block_num block_offset held node buffer e end w =
      rw (round-stop len offset room buf fuel nread block_num block_offset buffer node e end)
        (end, held, subst (λ m. Written d n inode buf offset (offset + m) held e node) end w)

  -- In a block of the file, or in the one behind its last.
  in_or_behind :
      (block_num held : ℕ)
      → Stands block_num held
      → ((block_num < held) × (held ≡ rounds_up (size inode)))
        ⊎ ((held ≡ block_num) × (rounds_up (size inode) ≤ block_num))
  in_or_behind block_num held (le, covers, stands) = elim (Bool-cases (ltb block_num held)) [
    | inl mine ↦ inl (ground arith, ground arith)
    | inr past ↦ inr (ground arith, ground arith)
  ]

  pub write_loop-Runs : (fuel : ℕ) → Runs fuel
  write_loop-Runs zero nread block_num block_offset held node buffer e enough le at stands there w =
      absurd (omega arith)
  write_loop-Runs (suc fuel) nread block_num block_offset held node buffer e enough le (inl end)
        stands there w =
      write_loop-end fuel nread block_num block_offset held node buffer e end w
  write_loop-Runs (suc fuel) nread block_num block_offset held node buffer e enough le
        (inr (place, below)) stands there w =
      elim (Bool-cases (ltb nread len)) [
        | inr past ↦
            write_loop-end fuel nread block_num block_offset held node buffer e (ground arith) w
        | inl more ↦ elim (in_or_behind block_num held stands) [
          | inl (mine, all) ↦
              write_in fuel nread block_num block_offset held node node buffer e e
                (write_loop-Runs fuel) enough (ground arith) place below mine stands.1 (inl all)
                there
                (extend-held node block_num e (rw (same_size w) fits) (ground arith)
                  (rw (same_size w) (omega arith)))
                w
          | inr (last, past) ↦
              write_behind fuel nread block_num block_offset node buffer e (write_loop-Runs fuel)
                enough (ground arith) place below past there
                (subst (λ h. Written d n inode buf offset (offset + nread) h e node) last w)
        ]
      ]
