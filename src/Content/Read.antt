-- ===== src/Content/Read.antt =====
-- `fs_read`: the bytes that it copies.
use unix_like_file_system.Base.{
  ℕ, zero, suc, ◌+◌, ◌-◌, ◌*◌, ◌/◌, ◌%◌, ◌≤◌, ◌<◌, ◌≡◌, refl, ◌∙◌, ◌⊎◌, inl, inr, true, false, ltb,
  leb, ◌&&◌, ◌||◌, min, arith, Bool-cases, ltb→lt,
}
use unix_like_file_system.Block.{Block, block_size, byte}
use unix_like_file_system.Disk.{Disk, Outcome, done, failed, aborted, fault, eopnotsupp}
use unix_like_file_system.Disk.Reads.{Holds, block_read-Holds}
use unix_like_file_system.Inode.{num_ptrs, size, ptr, is_dir, is_negative}
use unix_like_file_system.Path.{Text}
use unix_like_file_system.Attr.Named.{Named, inode_of-done}
use unix_like_file_system.Content.{Buffer, copy_bytes, read_length, read_loop, fs_read}
use unix_like_file_system.Content.Copy.{byte-copy_bytes}

-- The byte at a place of the file with that inode.
abbrev pub file_byte : Disk → Block → ℕ → ℕ
file_byte d inode o = byte (d.block (ptr inode (o / block_size))) (o % block_size)

-- The size fits the pointers, and the blocks below it are in the image.
pub record IsFile (d : Disk) (inode : Block) : Type 0 where
  pub fits : size inode ≤ block_size * num_ptrs
  pub in_image :
      (b : ℕ) → b * block_size < size inode → Holds d (ptr inode b) (d.block (ptr inode b))

-- The number of bytes to be read.
abbrev readable : ℕ → ℕ → ℕ → ℕ
readable total len offset = min len (total - offset)

-- The buffer's places from `lo` to the number returned hold the file's bytes from `offset` on, and
-- the others what `buf` holds.
abbrev pub IsCopied : Disk → Block → ℕ → ℕ → ℕ → Buffer → Outcome (ℕ × Buffer) → Type 0
IsCopied d inode len offset lo buf (done (n, out) g) =
    (g ≡ d)
    × (n ≡ readable (size inode) len offset)
    × ((i : ℕ) → lo ≤ i → i < n → byte out i ≡ file_byte d inode (offset + i))
    × ((i : ℕ) → (i < lo) ⊎ (n ≤ i) → byte out i ≡ byte buf i)
IsCopied d inode len offset lo buf _ = ⊥

-- What `read_length` is good for, while there is something left to read.
pub record Advances (total len offset nread block_offset n : ℕ) : Type 0 where
  pub some_bytes : 0 < n
  pub in_block : n + block_offset ≤ block_size
  pub in_len : nread + n ≤ readable total len offset
  pub to_end : (n + block_offset ≡ block_size) ⊎ (nread + n ≡ readable total len offset)

read_length-Advances :
    (total len offset nread block_offset : ℕ)
    → nread < readable total len offset
    → block_offset < block_size
    → Advances total len offset nread block_offset (read_length total len offset nread block_offset)
unfolding read_length
read_length-Advances total len offset nread block_offset more below = record {
  some_bytes = ground arith;
  in_block = ground arith;
  in_len = ground arith;
  to_end = ground arith;
}

module _ (d : Disk) (inode : Block) (file : IsFile d inode) (len offset : ℕ) where
  -- Where the loop stands: at the end, or at the place that the two block variables say.
  abbrev At : ℕ → ℕ → ℕ → Type 0
  At nread block_num block_offset =
      (nread ≡ readable (size inode) len offset)
      ⊎ ((offset + nread ≡ block_num * block_size + block_offset) × (block_offset < block_size))

  -- The bytes that one round copies, and those of the rounds behind it.
  IsCopied-round :
      (nread n block_num block_offset : ℕ) (buf : Buffer) (r : Outcome (ℕ × Buffer))
      → offset + nread ≡ block_num * block_size + block_offset
      → Advances (size inode) len offset nread block_offset n
      → IsCopied d inode len offset
          (nread + n)
          (copy_bytes n 0 (d.block (ptr inode block_num)) block_offset buf nread)
          r
      → IsCopied d inode len offset nread buf r
  IsCopied-round nread n block_num block_offset buf (done (m, out) g) at adv
        (same, total, new, old) =
      (same, total, inside, outside)
    where
      source : ℕ → ℕ
      source i = byte (d.block (ptr inode block_num)) (block_offset + (i - nread))

      in_file : (i : ℕ) → nread ≤ i → i < nread + n → source i ≡ file_byte d inode (offset + i)
      in_file i p q =
          let at_block : (offset + i) / block_size ≡ block_num = omega (arith, adv.in_block) in
          let at_byte : (offset + i) % block_size ≡ block_offset + (i - nread) =
            omega (arith, adv.in_block) in
          rw (at_block, at_byte)

      inside : (i : ℕ) → nread ≤ i → i < m → byte out i ≡ file_byte d inode (offset + i)
      inside i p q = elim (Bool-cases (ltb i (nread + n))) [
        | inl here ↦
            old i (inl (ltb→lt i (nread + n) here))
            ∙ byte-copy_bytes n 0 (d.block (ptr inode block_num)) block_offset buf nread i
            ∙ ground (arith, in_file i p (ltb→lt i (nread + n) here))
        | inr later ↦ new i (ground arith) q
      ]

      outside : (i : ℕ) → (i < nread) ⊎ (m ≤ i) → byte out i ≡ byte buf i
      outside i apart =
          old i (omega (arith, adv.in_len))
          ∙ byte-copy_bytes n 0 (d.block (ptr inode block_num)) block_offset buf nread i
          ∙ ground (arith, adv.in_len)
  IsCopied-round nread n block_num block_offset buf (failed e g) at adv h = absurd h
  IsCopied-round nread n block_num block_offset buf (aborted g) at adv h = absurd h
  IsCopied-round nread n block_num block_offset buf fault at adv h = absurd h

  At-next :
      (nread block_num block_offset n : ℕ)
      → offset + nread ≡ block_num * block_size + block_offset
      → Advances (size inode) len offset nread block_offset n
      → At (nread + n) (block_num + 1) 0
  At-next nread block_num block_offset n at adv = elim adv.to_end [
    | inl full ↦ inr (omega arith, omega arith)
    | inr end ↦ inl end
  ]

  read_loop-go :
      (fuel nread block_num block_offset : ℕ) (buffer : Block) (buf : Buffer)
      → (ltb nread len && ltb (nread + offset) (size inode)) ≡ true
      → block_num * block_size < size inode
      → let filled = d.block (ptr inode block_num) in
        let n = read_length (size inode) len offset nread block_offset in
        read_loop (suc fuel) inode len offset nread block_num block_offset buffer buf d
        ≡ read_loop fuel inode len offset
            (nread + n)
            (block_num + 1)
            0
            filled
            (copy_bytes n 0 filled block_offset buf nread)
            d
  unfolding read_loop
  read_loop-go fuel nread block_num block_offset buffer buf go below =
      let in_ptrs : leb num_ptrs block_num ≡ false = ground (arith, file.fits) in
      rw (go, in_ptrs, block_read-Holds (file.in_image block_num below))

  read_loop-stop :
      (fuel nread block_num block_offset : ℕ) (buffer : Block) (buf : Buffer)
      → (ltb nread len && ltb (nread + offset) (size inode)) ≡ false
      → nread ≡ readable (size inode) len offset
      → IsCopied d inode len offset nread buf
          (read_loop (suc fuel) inode len offset nread block_num block_offset buffer buf d)
  unfolding read_loop
  read_loop-stop fuel nread block_num block_offset buffer buf stop end =
      rw stop (refl, end, (λ i p q. absurd (omega arith)), λ i p. refl)

  read_loop-IsCopied :
      (fuel nread block_num block_offset : ℕ) (buffer : Block) (buf : Buffer)
      → len < fuel + nread
      → nread ≤ readable (size inode) len offset
      → At nread block_num block_offset
      → offset ≤ size inode
      → IsCopied d inode len offset nread buf
          (read_loop fuel inode len offset nread block_num block_offset buffer buf d)
  read_loop-IsCopied zero nread block_num block_offset buffer buf fuel le at o =
      absurd (omega arith)
  read_loop-IsCopied (suc fuel) nread block_num block_offset buffer buf enough le (inl end) o =
      read_loop-stop fuel nread block_num block_offset buffer buf (ground arith) end
  read_loop-IsCopied (suc fuel) nread block_num block_offset buffer buf enough le
        (inr (place, below)) o =
      elim (Bool-cases (ltb nread len && ltb (nread + offset) (size inode))) [
        | inr stop ↦ read_loop-stop fuel nread block_num block_offset buffer buf stop (ground arith)
        | inl go ↦
            let n = read_length (size inode) len offset nread block_offset in
            let adv =
              read_length-Advances (size inode) len offset nread block_offset (ground arith)
                below in
            rw (read_loop-go fuel nread block_num block_offset buffer buf go (ground arith)) (
              IsCopied-round nread n block_num block_offset buf _ place adv (
                read_loop-IsCopied fuel (nread + n) (block_num + 1) 0 _ _
                  (omega (arith, adv.some_bytes)) adv.in_len
                  (At-next nread block_num block_offset n place adv) o))
      ]

-- For a path to a file whose blocks are in the image, `fs_read` returns how many of the `len` bytes
-- from `offset` on lie before the end of the file, and puts exactly these bytes of the file at the
-- front of the buffer; the rest of the buffer and the image stay as they were.
pub fs_read-IsCopied :
    (d : Disk) (path : Text) (n : ℕ) (inode stack : Block) (buf : Buffer) (len offset : ℕ)
    → Named d path n inode
    → is_dir inode ≡ false
    → IsFile d inode
    → IsCopied d inode len offset 0 buf (fs_read stack path buf len offset d)
unfolding fs_read
fs_read-IsCopied d path n inode stack buf len offset named is_file file =
    rw (inode_of-done eopnotsupp named, is_file)
      (elim (Bool-cases (is_negative inode || leb (size inode) offset)) [
        | inl past ↦
            rw past (refl, ground (arith, file.fits), (λ i p q. absurd (omega arith)), λ i p. refl)
        | inr inside ↦ rw inside (
            read_loop-IsCopied d inode file len offset (len + 1) 0 (offset / block_size)
              (offset % block_size) stack buf (omega arith) (omega arith)
              (inr (omega arith, omega arith)) (ground arith))
      ])
