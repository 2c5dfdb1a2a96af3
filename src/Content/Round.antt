-- ===== src/Content/Round.antt =====
-- One round of the loop of `fs_write`, by what `alloc_blk` does.
use unix_like_file_system.Base.{
  ℕ, suc, ◌+◌, ◌-◌, ◌*◌, ◌%◌, ◌^◌, ◌≤◌, ◌<◌, ◌≡◌, refl, ap, ◌⊎◌, inl, inr, true, false, ltb, leb,
  ◌&&◌, ◌||◌, ◌==◌, if◌then◌else◌, arith, Bool-cases, none, some,
}
use unix_like_file_system.Block.{Block, block_size}
use unix_like_file_system.Block.Words.{get_u32-set_u32}
use unix_like_file_system.Disk.{
  Disk, Outcome, done, failed, aborted, fault, enospc, write_at, keep_or, block_read, block_write,
  pattern_of, number,
}
use unix_like_file_system.Disk.Writes.{block_write-done}
use unix_like_file_system.Bitmap.{map_bits, alloc_blk}
use unix_like_file_system.Bitmap.Alloc.{Allocates, AllUsed}
use unix_like_file_system.Inode.{num_ptrs, size, ptr, set_ptr, rounds_up, size_overflows}
use unix_like_file_system.Content.{Buffer, copy_bytes, extend, write_length, write_loop}

-- What a read of an unchecked block leaves in the local array.
abbrev pub found_or : Block → ℕ → Disk → Block
found_or buffer p e = keep_or buffer (if ltb p e.blocks then some (e.block p) else none)

block_read-near :
    (l : ℕ) (d : Disk)
    → l < 2 ^ 19
    → block_read l d ≡ done (if ltb l d.blocks then some (d.block l) else none) d
unfolding block_read
block_read-near l d reach =
    let near : leb (2 ^ 32 - 2 ^ 19) l ≡ false = ground arith in
    let over : leb (2 ^ 19) l ≡ false = ground arith in
    rw (near, over) (elim (Bool-cases (ltb l d.blocks)) [ inl h ↦ rw h | inr h ↦ rw h ])

-- What `write_length` is good for, while there is something left to write.
pub record Takes (len nread block_offset t : ℕ) : Type 0 where
  pub some_bytes : 0 < t
  pub in_block : t + block_offset ≤ block_size
  pub in_len : nread + t ≤ len
  pub to_end : (t + block_offset ≡ block_size) ⊎ (nread + t ≡ len)

pub write_length-Takes :
    (len nread block_offset : ℕ)
    → nread < len
    → block_offset < block_size
    → Takes len nread block_offset (write_length len nread block_offset)
unfolding write_length
write_length-Takes len nread block_offset more below = record {
  some_bytes = ground arith;
  in_block = ground arith;
  in_len = ground arith;
  to_end = ground arith;
}

pub Allocates-cases :
    (e : Disk) (r : Outcome ℕ)
    → Allocates e r
    → ((i : ℕ) × (g : Disk) × (r ≡ done i g) × Allocates e (done i g))
      ⊎ ((r ≡ failed enospc e) × AllUsed e)
Allocates-cases e (done i g) h = inl (i, g, refl, h)
Allocates-cases e (failed enospc g) (same, full) = inr (ap (λ g'. failed enospc g') same, full)
Allocates-cases e (failed other g) h = absurd h
Allocates-cases e (aborted g) h = absurd h
Allocates-cases e fault h = absurd h

pub extend-held :
    (node : Block) (block_num : ℕ) (e : Disk)
    → size node ≤ block_size * num_ptrs
    → block_num < num_ptrs
    → block_num < rounds_up (size node)
    → extend node block_num e ≡ done node e
unfolding extend
extend-held node block_num e fits in_ptrs lt =
    let sane : (size_overflows node || leb num_ptrs block_num) ≡ false = ground arith in
    let short : leb (rounds_up (size node)) block_num ≡ false = ground arith in rw (sane, short)

pub extend-new :
    (node : Block) (block_num i : ℕ) (e g : Disk)
    → size node ≤ block_size * num_ptrs
    → block_num < num_ptrs
    → rounds_up (size node) ≤ block_num
    → 3 ≤ i
    → alloc_blk e ≡ done i g
    → extend node block_num e ≡ done (set_ptr node block_num i) g
unfolding extend pattern_of
extend-new node block_num i e g fits in_ptrs past pos run =
    let sane : (size_overflows node || leb num_ptrs block_num) ≡ false = ground arith in
    let long : leb (rounds_up (size node)) block_num ≡ true = ground arith in
    let some_block : (i == 0) ≡ false = ground arith in rw (sane, long, run, some_block)

pub extend-none :
    (node : Block) (block_num : ℕ) (e : Disk)
    → size node ≤ block_size * num_ptrs
    → block_num < num_ptrs
    → rounds_up (size node) ≤ block_num
    → alloc_blk e ≡ failed enospc e
    → extend node block_num e ≡ done (set_ptr node block_num (2 ^ 32 - 28)) e
unfolding extend pattern_of number
extend-none node block_num e fits in_ptrs past run =
    let sane : (size_overflows node || leb num_ptrs block_num) ≡ false = ground arith in
    let long : leb (rounds_up (size node)) block_num ≡ true = ground arith in rw (sane, long, run)

module _ (len offset : ℕ) (room : offset + len ≤ block_size * num_ptrs) (buf : Buffer) where
  go_on :
      (nread : ℕ)
      → nread < len
      → (ltb nread len && ltb (nread + offset) ((offset + len) % 2 ^ 64)) ≡ true
  go_on nread more = ground arith

  pub stop :
      (nread : ℕ)
      → nread ≡ len
      → (ltb nread len && ltb (nread + offset) ((offset + len) % 2 ^ 64)) ≡ false
  stop nread end = ground arith

  pub round-done :
      (fuel nread block_num block_offset : ℕ) (buffer node node' : Block) (e e' : Disk)
      → nread < len
      → extend node block_num e ≡ done node' e'
      → 1 < ptr node' block_num
      → ptr node' block_num < map_bits
      → let p = ptr node' block_num in
        let t = write_length len nread block_offset in
        let filled = copy_bytes t 0 buf nread (found_or buffer p e') block_offset in
        write_loop (suc fuel) node len offset nread block_num block_offset buffer buf e
        ≡ write_loop fuel node' len offset
            (nread + t)
            (block_num + 1)
            0
            filled
            buf
            (write_at p filled e')
  unfolding write_loop
  round-done fuel nread block_num block_offset buffer node node' e e' more run pos small = rw (
    go_on nread more,
    run,
    block_read-near (ptr node' block_num) e' (omega arith),
    block_write-done (ptr node' block_num) _ e' (omega arith) (omega arith),
  )

  pub round-full :
      (fuel nread block_num block_offset : ℕ) (buffer node : Block) (e : Disk)
      → nread < len
      → extend node block_num e ≡ done (set_ptr node block_num (2 ^ 32 - 28)) e
      → write_loop (suc fuel) node len offset nread block_num block_offset buffer buf e ≡ aborted e
  unfolding write_loop block_read block_write
  round-full fuel nread block_num block_offset buffer node e more run =
      rw (go_on nread more, run, get_u32-set_u32 node (20 + 4 * block_num) (2 ^ 32 - 28))

  pub round-stop :
      (fuel nread block_num block_offset : ℕ) (buffer node : Block) (e : Disk)
      → nread ≡ len
      → write_loop (suc fuel) node len offset nread block_num block_offset buffer buf e
        ≡ done (nread, node) e
  unfolding write_loop
  round-stop fuel nread block_num block_offset buffer node e end = rw (stop nread end)
