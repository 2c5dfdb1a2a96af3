-- ===== src/Disk.antt =====
-- The disk image as the file system sees it, and the outcome of a call. `block_read` and
-- `block_write` are what misc.c computes over such an image.
pub mod Reads
pub mod Finds
pub mod Writes
use unix_like_file_system.Base.{
  ℕ, ◌+◌, ◌-◌, ◌^◌, Bool, true, false, ◌||◌, Option, none, some, ltb, leb, ◌==◌, if◌then◌else◌,
}
use unix_like_file_system.Block.{Block}

-- The blocks that lie wholly inside the image file, and their contents.
pub record Disk : Type 0 where
  pub blocks : ℕ
  pub block : ℕ → Block

-- The error numbers that fs5600.c and misc.c return, negated.
pub data Errno : Type 0 where
  enoent eio eexist enotdir eisdir einval enospc enotempty eopnotsupp : Errno

-- How a call ends: it returns a value that is no error number; it returns -errno; an assert stops
-- the program; the C code does something undefined, or uses a buffer that was never filled.
pub data Outcome (A : Type 0) : Type 0 where
  done : A → Disk → Outcome A
  failed : Errno → Disk → Outcome A
  aborted : Disk → Outcome A
  fault : Outcome A

abbrev pub M : Type 0 → Type 0
M A = Disk → Outcome A

module _ {A : Type 0} where
  abbrev pub pure : A → M A
  pure a d = done a d

  abbrev pub fail : Errno → M A
  fail e d = failed e d

  abbrev pub undefined : M A
  undefined d = fault

infixl 5 ◌>>=◌ ◌>>◌
abbrev pub and_then : {A B : Type 0} → Outcome A → (A → M B) → Outcome B
and_then (done a d) f = f a d
and_then (failed e d) f = failed e d
and_then (aborted d) f = aborted d
and_then fault f = fault

abbrev pub ◌>>=◌ : {A B : Type 0} → M A → (A → M B) → M B
◌>>=◌ m f d = and_then (m d) f

abbrev pub ◌>>◌ : {B : Type 0} → M (Unit {0}) → M B → M B
m >> k = m >>= λ _. k

-- The int that a call returns, for a caller that looks at it.
pub data Code : Type 0 where
  nat : ℕ → Code
  err : Errno → Code

abbrev pub as_int : Outcome ℕ → Outcome Code
as_int (done n d) = done (nat n) d
as_int (failed e d) = done (err e) d
as_int (aborted d) = aborted d
as_int fault = fault

abbrev pub call : M ℕ → M Code
call m d = as_int (m d)

-- An early return, and a bound that the C code does not check.
abbrev pub fail_if : Bool → Errno → M (Unit {0})
fail_if true e = fail e
fail_if false e = pure tt

abbrev pub undefined_if : Bool → M (Unit {0})
undefined_if true = undefined
undefined_if false = pure tt

abbrev pub zero_block : Block
zero_block i = 0

-- `block_read(buf, lba, 1)` for an lba given as a 32-bit pattern. A negative lba and a block that
-- the image does not hold give -EIO, here `none`; the byte offset is an int, which overflows for
-- a block that starts 2 GiB or more from the image's beginning, on either side.
unfoldable pub block_read : ℕ → M (Option Block)
block_read lba d =
    if leb (2 ^ 32 - 2 ^ 19) lba
    then done none d
    else if leb (2 ^ 19) lba
    then fault
    else if ltb lba d.blocks
    then done (some (d.block lba)) d
    else done none d

abbrev pub write_at : ℕ → Block → Disk → Disk
write_at lba b d = record {
  blocks = if ltb lba d.blocks then d.blocks else lba + 1;
  block = λ i. if i == lba then b else if ltb i d.blocks then d.block i else zero_block;
}

-- `block_write(buf, lba, 1)`: an lba that is not positive fails the assertion, after the byte offset
-- is computed, and a write past the end makes the image longer. The device has room and no errors: the
-- cases in which misc.c returns -EIO are those of `Misc.Refines`.
unfoldable pub block_write : ℕ → Block → M (Unit {0})
block_write lba b d =
    if lba == 0 || leb (2 ^ 32 - 2 ^ 19) lba
    then aborted d
    else if leb (2 ^ 19 - 1) lba
    then fault
    else done tt (write_at lba b d)

-- A read whose result the code does not check: if it fails, the buffer is used unfilled.
abbrev pub fill : Option Block → M Block
fill none = undefined
fill (some b) = pure b

unfoldable pub read_unchecked : ℕ → M Block
read_unchecked lba = do b ← block_read lba; fill b

-- A read whose result is not checked, into a buffer that may hold something: the image is a whole
-- number of blocks long, so a read that fails leaves the buffer as it is.
abbrev pub keep_or : Block → Option Block → Block
keep_or old none = old
keep_or old (some b) = b

-- The error numbers of errno.h, and an int as the 32-bit pattern that a uint32_t keeps of it.
unfoldable pub number : Errno → ℕ
number enoent = 2
number eio = 5
number eexist = 17
number enotdir = 20
number eisdir = 21
number einval = 22
number enospc = 28
number enotempty = 39
number eopnotsupp = 95

unfoldable pub pattern_of : Code → ℕ
unfolding number
pattern_of (nat n) = n
pattern_of (err e) = 2 ^ 32 - number e
