-- ===== src/Tests/ImageFile.antt =====
-- misc.c over a file that keeps the image and an offset, on a device that is full: a seek more than one
-- block beyond the end is refused, and a block that would make the file longer is not written.
use unix_like_file_system.Base.{
  ℕ, ◌+◌, ◌*◌, ◌/◌, ◌<◌, ◌≤◌, ◌≡◌, refl, Bool, true, false, Option, some, ltb, if◌then◌else◌, arith,
  none, inl, inr, ◌≢◌, ◌⊎◌, Bool-cases, lt→ltb, le→ltb,
}
use unix_like_file_system.Base.Int.{ℤ, pos, negsuc}
use unix_like_file_system.Block.{Block, block_size}
use unix_like_file_system.Disk.{Disk, write_at, zero_block}
use unix_like_file_system.Disk
use unix_like_file_system.Misc.{Posix, KeepsOthers, block_read, block_write}
use unix_like_file_system.Misc.Refines.{
  ReadAgrees, WriteAgrees, block_read-Agrees, block_write-Agrees,
}
use unix_like_file_system.Sample.{image}

abbrev seek : ℤ → Disk × ℕ → Bool × (Disk × ℕ)
seek (pos n) (d, at) =
    if ltb (d.blocks * block_size + block_size) n then (false, (d, at)) else (true, (d, n))
seek (negsuc n) f = (false, f)

abbrev read_on : ℕ → Disk × ℕ → Option ℕ × Block × (Disk × ℕ)
read_on len (d, at) = (
  some (if ltb (at / block_size) d.blocks then len else 0),
  d.block (at / block_size),
  (d, at + len),
)

abbrev write_on : Block → ℕ → Disk × ℕ → Option ℕ × (Disk × ℕ)
write_on b len (d, at) =
    if ltb (at / block_size) d.blocks
    then (some len, (write_at (at / block_size) b d, at + len))
    else (none, (d, at))

at_block : (l at : ℕ) → at ≡ l * block_size → at / block_size ≡ l
at_block l at e = omega arith

reads_inside :
    (l at : ℕ) (d : Disk)
    → at ≡ l * block_size
    → l < d.blocks
    → ((read_on block_size (d, at)).0 ≡ some block_size)
      × ((read_on block_size (d, at)).1 ≡ d.block l)
      × (d ≡ d)
reads_inside l at d e lt = rw (at_block l at e, lt→ltb l d.blocks lt) (refl, refl, refl)

reads_nothing :
    (l at : ℕ) (d : Disk)
    → at ≡ l * block_size
    → d.blocks ≤ l
    → ((read_on block_size (d, at)).0 ≡ some 0) × (d ≡ d)
reads_nothing l at d e le = rw (at_block l at e, le→ltb l d.blocks le) (refl, refl)

seeks :
    (n : ℕ) (d : Disk) (at : ℕ)
    → ((seek (pos n) (d, at)).1.0 ≡ d)
      × ((((seek (pos n) (d, at)).0 ≡ true) × ((seek (pos n) (d, at)).1.1 ≡ n))
          ⊎ (((seek (pos n) (d, at)).0 ≡ false) × (d.blocks * block_size < n)))
seeks n d at = elim (Bool-cases (ltb (d.blocks * block_size + block_size) n)) [
  | inl far ↦ rw far (refl, inr (refl, ground (arith, far)))
  | inr near ↦ rw near (refl, inl (refl, refl))
]

writes :
    (l : ℕ) (b : Block) (d : Disk) (at : ℕ)
    → at ≡ l * block_size
    → (((write_on b block_size (d, at)).0 ≡ some block_size)
        × ((write_on b block_size (d, at)).1.0 ≡ write_at l b d))
      ⊎ (((write_on b block_size (d, at)).0 ≢ some block_size)
          × KeepsOthers l d (write_on b block_size (d, at)).1.0)
writes l b d at e = elim (Bool-cases (ltb l d.blocks)) [
  | inl inside ↦ rw (at_block l at e, inside) (inl (refl, refl))
  | inr outside ↦
      rw (at_block l at e, outside)
        (inr (λ h. cc, record { not_smaller = omega arith; same_block = λ j ne lt. refl }))
]

abbrev posix : Posix
posix = record {
  File = Disk × ℕ;
  lseek = seek;
  read = read_on;
  write = write_on;
  image = λ f. f.0;
  place = λ f. f.1;
  lseek_negative = λ n f. (refl, refl);
  lseek_sets = λ n f. seeks n f.0 f.1;
  read_inside = λ l f e lt. reads_inside l f.1 f.0 e lt;
  read_at_end = λ l f e le. reads_nothing l f.1 f.0 e le;
  write_ends = λ l b f e. writes l b f.0 f.1 e;
}

block_read-Agrees_example :
    ReadAgrees posix (block_read posix 4 (image, 0)) (Disk.block_read 4 image)
block_read-Agrees_example = block_read-Agrees posix 4 (image, 0) (omega arith)

block_write-Agrees_example :
    WriteAgrees posix 4 zero_block
      (image, 0)
      (block_write posix 4 zero_block (image, 0))
      (Disk.block_write 4 zero_block image)
block_write-Agrees_example = block_write-Agrees posix 4 zero_block (image, 0) (omega arith)
