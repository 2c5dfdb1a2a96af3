-- ===== src/Misc/Refines.antt =====
-- misc.c against the disk as the file system's model has it.
use unix_like_file_system.Base.{
  ℕ, ◌+◌, ◌-◌, ◌*◌, ◌^◌, ◌≤◌, ◌<◌, ◌≡◌, refl, ◌∙◌, inl, inr, ap, ◌≢◌, ◌⊎◌, ==→eq, Bool, true, false,
  Option, none, some, ltb, leb, ◌==◌, ◌||◌, arith, Bool-cases,
}
use mathlib.Core.Path.{subst}
use unix_like_file_system.Base.Int.{ℤ, pos, negsuc, int32}
use unix_like_file_system.Block.{Block, block_size}
use unix_like_file_system.Disk.{Disk, Outcome, done, failed, aborted, fault, write_at}
use unix_like_file_system.Disk
use unix_like_file_system.Misc.{
  Posix, KeepsOthers, is_whole, Io, returns, io_error, stopped, overflows, times_block, read_here,
  write_here, seek_twice, read_from, write_from, is_positive, end_overflows, block_read,
  block_write,
}

-- The byte offset of a block, by the range of the block's number.
start_inside : (lba : ℕ) → lba < 2 ^ 19 → times_block (int32 lba) ≡ some (pos (lba * block_size))
unfolding int32 times_block
start_inside lba h = ground arith

start_beyond : (lba : ℕ) → 2 ^ 19 ≤ lba → lba < 2 ^ 32 - 2 ^ 19 → times_block (int32 lba) ≡ none
unfolding int32 times_block
start_beyond lba lo hi = ground arith

start_negative :
    (lba : ℕ)
    → 2 ^ 32 - 2 ^ 19 ≤ lba
    → lba < 2 ^ 32
    → (n : ℕ) × (times_block (int32 lba) ≡ some (negsuc n))
unfolding int32 times_block
start_negative lba lo hi = ((2 ^ 32 - lba) * block_size - 1, ground arith)

is_positive_small : (lba : ℕ) → 0 < lba → lba < 2 ^ 19 → is_positive (int32 lba) ≡ true
unfolding int32 is_positive
is_positive_small lba some_block small = ground arith

is_positive_zero : (lba : ℕ) → (lba == 0) ≡ true → is_positive (int32 lba) ≡ false
unfolding int32 is_positive
is_positive_zero lba z = ground arith

is_positive_negative : (lba : ℕ) → 2 ^ 31 ≤ lba → is_positive (int32 lba) ≡ false
unfolding int32 is_positive
is_positive_negative lba big = ground arith

module _ (p : Posix) where
  open p use {
    File, image, lseek, read, write, place, lseek_negative, lseek_sets, read_inside, read_at_end,
    write_ends,
  }

  -- A call on the file ends as the call on the image, and leaves that image.
  abbrev pub ReadAgrees : Io File Block → Outcome (Option Block) → Type 0
  ReadAgrees (returns b f) (done (some c) d) = (b ≡ c) × (image f ≡ d)
  ReadAgrees (io_error f) (done none d) = image f ≡ d
  ReadAgrees overflows fault = Unit
  ReadAgrees _ _ = ⊥

  read_negative :
      (s : Bool × File) (d : Disk)
      → s.0 ≡ false
      → image s.1 ≡ d
      → ReadAgrees (read_here p s) (done none d)
  unfolding read_here
  read_negative (b, f) d e same = rw e same

  read_inside_lem :
      (l : ℕ) (s : Bool × File) (d : Disk)
      → s.0 ≡ true
      → image s.1 ≡ d
      → place s.1 ≡ l * block_size
      → l < d.blocks
      → ReadAgrees (read_here p s) (done (some (d.block l)) d)
  unfolding read_here
  read_inside_lem l (b, f) d e same at h =
      let (got, content, after) = read_inside l f at (rw same h) in
      rw (e, got) (content ∙ rw same refl, after ∙ same)

  read_outside :
      (l : ℕ) (s : Bool × File) (d : Disk)
      → s.0 ≡ true
      → image s.1 ≡ d
      → place s.1 ≡ l * block_size
      → d.blocks ≤ l
      → ReadAgrees (read_here p s) (done none d)
  unfolding read_here
  read_outside l (b, f) d e same at h =
      let (got, after) = read_at_end l f at (rw same h) in rw (e, got) (after ∙ same)

  -- For every block number, given as a 32-bit pattern, `block_read` of misc.c returns the block, or
  -- -EIO, or overflows, exactly as the model's `block_read` does on the image of the file.
  pub block_read-Agrees :
      (lba : ℕ) (f : File)
      → lba < 2 ^ 32
      → ReadAgrees (block_read p lba f) (Disk.block_read lba (image f))
  unfolding block_read read_from Disk.block_read
  block_read-Agrees lba f small = elim (Bool-cases (leb (2 ^ 32 - 2 ^ 19) lba)) [
    | inl e ↦
        let (n, start) = start_negative lba (ground arith) small in
        let (refused, same) = lseek_negative n f in
        rw (e, start) (read_negative (lseek (negsuc n) f) (image f) refused same)
    | inr e ↦ elim (Bool-cases (leb (2 ^ 19) lba)) [
      | inl e' ↦ rw (e, e', start_beyond lba (ground arith) (ground arith)) tt
      | inr e' ↦
          let (same, moved) = lseek_sets (lba * block_size) f in
          rw (e, e', start_inside lba (ground arith))
            (elim (Bool-cases (ltb lba (image f).blocks)) [
              | inl i ↦ rw i (elim moved [
                | inl (ok, at) ↦ read_inside_lem lba _ (image f) ok same at (ground arith)
                | inr (refused, beyond) ↦ absurd (ground (arith, i, beyond))
              ])
              | inr i ↦ rw i (elim moved [
                | inl (ok, at) ↦ read_outside lba _ (image f) ok same at (ground arith)
                | inr (refused, beyond) ↦ read_negative _ (image f) refused same
              ])
            ])
    ]
  ]

  -- The three system calls of `block_write`: two seeks, and the write.
  module _ (lba : ℕ) (b : Block) (f : File) where
    abbrev to_end : Bool × File
    to_end = lseek (pos (lba * block_size + block_size)) f

    abbrev to_start : Bool × File
    to_start = lseek (pos (lba * block_size)) to_end.1

    abbrev put : Option ℕ × File
    put = write b block_size to_start.1

    abbrev GoesWell : Type 0
    GoesWell = (to_end.0 ≡ true) × (to_start.0 ≡ true) × (put.0 ≡ some block_size)

    abbrev GoesWrong : Type 0
    GoesWrong = (to_end.0 ≡ false) ⊎ ((to_start.0 ≡ false) ⊎ (put.0 ≢ some block_size))

    -- The function returns 0 where all three go well, and -EIO where one does not.
    abbrev pub WriteAgrees : Io File (Unit {0}) → Outcome (Unit {0}) → Type 0
    WriteAgrees (returns _ g) (done _ d) = GoesWell × (image g ≡ d)
    WriteAgrees (io_error g) (done _ d) = GoesWrong × KeepsOthers lba (image f) (image g)
    WriteAgrees (stopped g) (aborted d) = image g ≡ d
    WriteAgrees overflows fault = Unit
    WriteAgrees _ _ = ⊥

  same-KeepsOthers : (l : ℕ) (d g : Disk) → g ≡ d → KeepsOthers l d g
  same-KeepsOthers l d g e = record {
    not_smaller = omega (arith, ap (λ h. h.blocks) e);
    same_block = λ j ne lt. ap (λ h. h.block j) e;
  }

  is_whole_short : (o : Option ℕ) → o ≢ some block_size → is_whole o ≡ false
  is_whole_short none ne = refl
  is_whole_short (some n) ne = elim (Bool-cases (n == block_size)) [
    | inl e ↦ absurd (ne (ap some (==→eq n block_size e)))
    | inr e ↦ e
  ]

  seek_refused :
      (b : Block) (start : ℤ) (s : Bool × File)
      → s.0 ≡ false
      → seek_twice p b start s ≡ io_error s.1
  unfolding seek_twice
  seek_refused b start (ok, f) e = rw e refl

  seek_goes :
      (b : Block) (start : ℤ) (s : Bool × File)
      → s.0 ≡ true
      → seek_twice p b start s ≡ write_here p b (lseek start s.1)
  unfolding seek_twice
  seek_goes b start (ok, f) e = rw e refl

  start_refused : (b : Block) (s : Bool × File) → s.0 ≡ false → write_here p b s ≡ io_error s.1
  unfolding write_here
  start_refused b (ok, f) e = rw e refl

  write_whole :
      (b : Block) (s : Bool × File)
      → s.0 ≡ true
      → (write b block_size s.1).0 ≡ some block_size
      → write_here p b s ≡ returns tt (write b block_size s.1).1
  unfolding write_here
  write_whole b (ok, f) e whole = rw (e, whole) refl

  write_short :
      (b : Block) (s : Bool × File)
      → s.0 ≡ true
      → (write b block_size s.1).0 ≢ some block_size
      → write_here p b s ≡ io_error (write b block_size s.1).1
  unfolding write_here
  write_short b (ok, f) e short = rw (e, is_whole_short (write b block_size f).0 short) refl

  write_seeks :
      (lba : ℕ) (b : Block) (f : File)
      → WriteAgrees lba b f
          (seek_twice p b (pos (lba * block_size)) (to_end lba b f))
          (done tt (write_at lba b (image f)))
  write_seeks lba b f =
      let (kept, moved) = lseek_sets (lba * block_size + block_size) f in
      let (kept', moved') = lseek_sets (lba * block_size) (to_end lba b f).1 in
      elim moved [
        | inr (refused, beyond) ↦
            rw (seek_refused b (pos (lba * block_size)) (to_end lba b f) refused)
              (inl refused, same-KeepsOthers lba (image f) _ kept)
        | inl (ok, at) ↦
            rw (seek_goes b (pos (lba * block_size)) (to_end lba b f) ok) (elim moved' [
              | inr (refused, beyond) ↦
                  rw (start_refused b (to_start lba b f) refused)
                    (inr (inl refused), same-KeepsOthers lba (image f) _ (kept' ∙ kept))
              | inl (ok', at') ↦ elim (write_ends lba b (to_start lba b f).1 at') [
                | inl (whole, after) ↦
                    rw (write_whole b (to_start lba b f) ok' whole)
                      ((ok, ok', whole), after ∙ ap (write_at lba b) (kept' ∙ kept))
                | inr (short, others) ↦ rw (write_short b (to_start lba b f) ok' short) (
                  inr (inr short),
                  subst (λ d. KeepsOthers lba d (image (put lba b f).1)) (kept' ∙ kept) others,
                )
              ]
            ])
      ]

  write_near :
      (lba : ℕ) (b : Block) (f : File)
      → lba < 2 ^ 19
      → WriteAgrees lba b f
          (write_from p (int32 lba) b (some (pos (lba * block_size))) f)
          (Disk.block_write lba b (image f))
  unfolding write_from end_overflows Disk.block_write
  write_near lba b f small = elim (Bool-cases (lba == 0)) [
    | inl z ↦ rw (z, is_positive_zero lba z) refl
    | inr z ↦
        let positive = is_positive_small lba (ground arith) small in
        let goes : ((lba == 0) || leb (2 ^ 32 - 2 ^ 19) lba) ≡ false = ground arith in
        elim (Bool-cases (leb (2 ^ 19 - 1) lba)) [
          | inl last ↦
              let over : leb (2 ^ 31) (lba * block_size + block_size) ≡ true = ground arith in
              rw (positive, goes, last, over) tt
          | inr room ↦
              let fits : leb (2 ^ 31) (lba * block_size + block_size) ≡ false = ground arith in
              rw (positive, goes, room, fits) (write_seeks lba b f)
        ]
  ]

  -- For every block number, given as a 32-bit pattern, `block_write` of misc.c stops at the assertion
  -- or overflows exactly where the model's `block_write` does on the image of the file. Elsewhere it
  -- returns 0 exactly if both seeks and the write of the whole block go well, and then stores the block
  -- as the model does; and it returns -EIO exactly if one of the three does not go well, and then no
  -- other block of the file has changed. A seek to an offset inside the file goes well, one beyond it
  -- may be refused, and a write may fail or fall short.
  pub block_write-Agrees :
      (lba : ℕ) (b : Block) (f : File)
      → lba < 2 ^ 32
      → WriteAgrees lba b f (block_write p lba b f) (Disk.block_write lba b (image f))
  unfolding block_write write_from Disk.block_write
  block_write-Agrees lba b f small = elim (Bool-cases (leb (2 ^ 32 - 2 ^ 19) lba)) [
    | inl e ↦
        let (n, start) = start_negative lba (ground arith) small in
        let stops : ((lba == 0) || leb (2 ^ 32 - 2 ^ 19) lba) ≡ true = ground arith in
        rw (stops, start, is_positive_negative lba (ground arith)) refl
    | inr e ↦ elim (Bool-cases (leb (2 ^ 19) lba)) [
      | inl e' ↦
          let goes : ((lba == 0) || leb (2 ^ 32 - 2 ^ 19) lba) ≡ false = ground arith in
          let far : leb (2 ^ 19 - 1) lba ≡ true = ground arith in
          rw (goes, far, start_beyond lba (ground arith) (ground arith)) tt
      | inr e' ↦ rw (start_inside lba (ground arith)) (write_near lba b f (ground arith))
    ]
  ]
