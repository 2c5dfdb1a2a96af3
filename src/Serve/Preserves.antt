-- ===== src/Serve/Preserves.antt =====
-- Invariants of the image, and a rule for each step of a `do` block.
use unix_like_file_system.Base.{
  ℕ, ◌-◌, ◌^◌, ◌<◌, inl, inr, Bool, true, false, Option, none, some, leb, ◌==◌, ◌||◌, arith,
  Bool-cases, if◌then◌else◌,
}
use unix_like_file_system.Block.{Block}
use unix_like_file_system.Disk.{
  Disk, Errno, Outcome, done, failed, aborted, fault, M, pure, fail, undefined, ◌>>=◌, and_then,
  as_int, call, undefined_if, fail_if, fill, block_read, block_write, write_at, read_unchecked,
}
use unix_like_file_system.Path.{Text}
use unix_like_file_system.Lookup.{path2inum, or_fail}
use unix_like_file_system.Attr.{or_undefined}
use unix_like_file_system.Lookup.Paths.{path2inum-Reads}
use unix_like_file_system.Disk.Reads.{Reads, gives, fails, faults, block_read-Reads}

-- However the call ends, the image that it leaves has `I`.
pub data Leaves {A : Type 0} (I : Disk → Type 0) : Outcome A → Type 0 where
  returned : {a : A} {g : Disk} → I g → Leaves I (done a g)
  refused : {e : Errno} {g : Disk} → I g → Leaves I (failed e g)
  stopped : {g : Disk} → I g → Leaves I (aborted g)
  undone : Leaves I fault

-- The call keeps `I`.
abbrev pub Preserves : {A : Type 0} → (Disk → Type 0) → M A → Type 0
Preserves I m = (d : Disk) → I d → Leaves I (m d)

-- `I` survives a write to any block but the superblock.
pub record IsKept (I : Disk → Type 0) : Type 0 where
  pub written : (l : ℕ) (b : Block) (d : Disk) → 0 < l → I d → I (write_at l b d)

pub Reads-Leaves :
    {A : Type 0} {I : Disk → Type 0} {P : A → Type 0} {d : Disk} {r : Outcome A}
    → I d
    → Reads d P r
    → Leaves I r
Reads-Leaves h (gives p) = returned h
Reads-Leaves h fails = refused h
Reads-Leaves h faults = undone

module _ {I : Disk → Type 0} where
  pub and_then-Leaves :
      {A B : Type 0} {r : Outcome A} (k : A → M B)
      → Leaves I r
      → ((a : A) → Preserves I (k a))
      → Leaves I (and_then r k)
  and_then-Leaves k (returned h) next = next _ _ h
  and_then-Leaves k (refused h) next = refused h
  and_then-Leaves k (stopped h) next = stopped h
  and_then-Leaves k undone next = undone

  pub bind :
      {A B : Type 0} (m : M A) (k : A → M B)
      → Preserves I m
      → ((a : A) → Preserves I (k a))
      → Preserves I (m >>= k)
  bind m k first next = λ d h. and_then-Leaves k (first d h) next

  pub pure-Preserves : {A : Type 0} (a : A) → Preserves I (pure a)
  pure-Preserves a d h = returned h

  pub fail-Preserves : {A : Type 0} (e : Errno) → Preserves {A = A} I (fail e)
  fail-Preserves e d h = refused h

  pub undefined-Preserves : {A : Type 0} → Preserves {A = A} I undefined
  undefined-Preserves d h = undone

  pub if-Preserves :
      {A : Type 0} (b : Bool) {m k : M A}
      → Preserves I m
      → Preserves I k
      → Preserves I (if b then m else k)
  if-Preserves true p q = p
  if-Preserves false p q = q

  pub or_fail-Preserves : {A : Type 0} (e : Errno) (o : Option A) → Preserves I (or_fail e o)
  or_fail-Preserves e none d h = refused h
  or_fail-Preserves e (some a) d h = returned h

  pub or_undefined-Preserves : {A : Type 0} (o : Option A) → Preserves I (or_undefined o)
  or_undefined-Preserves none d h = undone
  or_undefined-Preserves (some a) d h = returned h

  pub fail_if-Preserves : (b : Bool) (e : Errno) → Preserves I (fail_if b e)
  fail_if-Preserves true e d h = refused h
  fail_if-Preserves false e d h = returned h

  pub undefined_if-Preserves : (b : Bool) → Preserves I (undefined_if b)
  undefined_if-Preserves true d h = undone
  undefined_if-Preserves false d h = returned h

  pub call-Leaves : {r : Outcome ℕ} → Leaves I r → Leaves I (as_int r)
  call-Leaves (returned h) = returned h
  call-Leaves (refused h) = returned h
  call-Leaves (stopped h) = stopped h
  call-Leaves undone = undone

  pub call-Preserves : (m : M ℕ) → Preserves I m → Preserves I (call m)
  call-Preserves m p d h = call-Leaves (p d h)

  pub fill-Preserves : (read : Option Block) → Preserves I (fill read)
  fill-Preserves none d h = undone
  fill-Preserves (some b) d h = returned h

  pub block_read-Preserves : (l : ℕ) → Preserves I (block_read l)
  block_read-Preserves l d h = Reads-Leaves h (block_read-Reads d l)

  pub read_unchecked-Preserves : (l : ℕ) → Preserves I (read_unchecked l)
  unfolding read_unchecked
  read_unchecked-Preserves l = bind (block_read l) fill (block_read-Preserves l) fill-Preserves

  pub block_write-Preserves : IsKept I → (l : ℕ) (b : Block) → Preserves I (block_write l b)
  unfolding block_write
  block_write-Preserves kept l b d h = elim (Bool-cases ((l == 0) || leb (2 ^ 32 - 2 ^ 19) l)) [
    | inl e ↦ rw e (stopped h)
    | inr e ↦ rw e (elim (Bool-cases (leb (2 ^ 19 - 1) l)) [
      | inl far ↦ rw far undone
      | inr near ↦ rw near (returned (kept.written l b d (ground arith) h))
    ])
  ]

  pub path2inum-Preserves : (path : Text) → Preserves I (path2inum path)
  path2inum-Preserves path d h = Reads-Leaves h (path2inum-Reads path d)

-- The rules for everything but writing.
pub ruleset steps = (
  bind, pure-Preserves, fail-Preserves, undefined-Preserves, if-Preserves, or_fail-Preserves,
  or_undefined-Preserves, fail_if-Preserves, undefined_if-Preserves, call-Preserves, fill-Preserves,
  block_read-Preserves, read_unchecked-Preserves, path2inum-Preserves,
)
