-- ===== src/Disk/Finds.antt =====
-- Calls that only read what is there: they give a value or an error, and nothing goes wrong.
use unix_like_file_system.Base.{ℕ, ◌≡◌, refl, Bool, true, false, some}
use unix_like_file_system.Block.{Block}
use unix_like_file_system.Disk.{
  Disk, Errno, Outcome, done, failed, M, and_then, as_int, fail_if, block_read, read_unchecked,
}
use unix_like_file_system.Disk.Reads.{OfCode, Holds, block_read-Holds, read_unchecked-Holds}

-- A call at `d` that returns a value with `P`, or an error number, with the image as it was.
pub data Finds {A : Type 0} (d : Disk) (P : A → Type 0) : Outcome A → Type 0 where
  gets : {a : A} → P a → Finds d P (done a d)
  lacks : {e : Errno} → Finds d P (failed e d)

module _ {A : Type 0} {d : Disk} {P : A → Type 0} where
  pub bind :
      {B : Type 0} {Q : B → Type 0} {r : Outcome A} (k : A → M B)
      → Finds d P r
      → ((a : A) → P a → Finds d Q (k a d))
      → Finds d Q (and_then r k)
  bind k (gets p) next = next _ p
  bind k lacks next = lacks

  pub weaken : {Q : A → Type 0} {r : Outcome A} → Finds d P r → ((a : A) → P a → Q a) → Finds d Q r
  weaken (gets p) f = gets (f _ p)
  weaken lacks f = lacks

pub call-Finds :
    {d : Disk} {P : ℕ → Type 0} {r : Outcome ℕ} → Finds d P r → Finds d (OfCode P) (as_int r)
call-Finds (gets p) = gets p
call-Finds lacks = gets tt

pub fail_if-Finds : (d : Disk) (b : Bool) (e : Errno) → Finds d (λ _. b ≡ false) (fail_if b e d)
fail_if-Finds d true e = lacks
fail_if-Finds d false e = gets refl

pub block_read-Finds :
    {d : Disk} {l : ℕ} {b : Block} → Holds d l b → Finds d (λ o. o ≡ some b) (block_read l d)
block_read-Finds h = rw (block_read-Holds h) (gets refl)

pub read_unchecked-Finds :
    {d : Disk} {l : ℕ} {b : Block} → Holds d l b → Finds d (λ c. c ≡ b) (read_unchecked l d)
read_unchecked-Finds h = rw (read_unchecked-Holds h) (gets refl)
