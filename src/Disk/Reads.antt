-- ===== src/Disk/Reads.antt =====
-- Calls that only read: their postconditions, and a rule for each step of a `do` block.
use unix_like_file_system.Base.{
  ℕ, ◌-◌, ◌^◌, ◌<◌, ◌≡◌, refl, inl, inr, Bool, true, false, Option, none, some, ltb, leb, arith,
  lt→ltb, Bool-cases, ltb→lt,
}
use unix_like_file_system.Block.{Block}
use unix_like_file_system.Disk.{
  Disk, Errno, Outcome, done, failed, aborted, fault, M, Code, nat, err, and_then, as_int,
  undefined_if, fail_if, block_read, read_unchecked,
}

-- A call at `d` that does not change the image: it returns a value with `P`, or an error number, or
-- it is undefined; no assertion stops it.
pub data Reads {A : Type 0} (d : Disk) (P : A → Type 0) : Outcome A → Type 0 where
  gives : {a : A} → P a → Reads d P (done a d)
  fails : {e : Errno} → Reads d P (failed e d)
  faults : Reads d P fault

module _ {A : Type 0} {d : Disk} {P : A → Type 0} where
  pub bind :
      {B : Type 0} {Q : B → Type 0} {r : Outcome A} (k : A → M B)
      → Reads d P r
      → ((a : A) → P a → Reads d Q (k a d))
      → Reads d Q (and_then r k)
  bind k (gives p) next = next _ p
  bind k fails next = fails
  bind k faults next = faults

  pub weaken : {Q : A → Type 0} {r : Outcome A} → Reads d P r → ((a : A) → P a → Q a) → Reads d Q r
  weaken (gives p) f = gives (f _ p)
  weaken fails f = fails
  weaken faults f = faults

  -- What the rule says of a call that returned.
  pub of_done : {r : Outcome A} {a : A} {g : Disk} → Reads d P r → r ≡ done a g → P a × (g ≡ d)
  of_done (gives p) e = ground arith
  of_done fails e = cc
  of_done faults e = cc

  not_aborted : {r : Outcome A} {g : Disk} → Reads d P r → r ≡ aborted g → ⊥
  not_aborted (gives p) e = cc
  not_aborted fails e = cc
  not_aborted faults e = cc

-- A postcondition of a call for the int that it returns.
abbrev pub OfCode : (ℕ → Type 0) → Code → Type 0
OfCode P (nat n) = P n
OfCode P (err e) = Unit

pub call-Reads :
    {d : Disk} {P : ℕ → Type 0} {r : Outcome ℕ} → Reads d P r → Reads d (OfCode P) (as_int r)
call-Reads (gives p) = gives p
call-Reads fails = gives tt
call-Reads faults = faults

pub fail_if-Reads : (d : Disk) (b : Bool) (e : Errno) → Reads d (λ _. b ≡ false) (fail_if b e d)
fail_if-Reads d true e = fails
fail_if-Reads d false e = gives refl

pub undefined_if-Reads : (d : Disk) (b : Bool) → Reads d (λ _. b ≡ false) (undefined_if b d)
undefined_if-Reads d true = faults
undefined_if-Reads d false = gives refl

-- Block `l` of the image can be read, and `b` is its content.
pub record Holds (d : Disk) (l : ℕ) (b : Block) : Type 0 where
  pub inside : l < d.blocks
  pub reachable : l < 2 ^ 19
  pub content : d.block l ≡ b

abbrev pub IsRead : Disk → ℕ → Option Block → Type 0
IsRead d l none = Unit
IsRead d l (some b) = Holds d l b

pub block_read-Reads : (d : Disk) (l : ℕ) → Reads d (IsRead d l) (block_read l d)
unfolding block_read
block_read-Reads d l = elim (Bool-cases (leb (2 ^ 32 - 2 ^ 19) l)) [
  | inl far ↦ rw far (gives tt)
  | inr near ↦ rw near (elim (Bool-cases (leb (2 ^ 19) l)) [
    | inl over ↦ rw over faults
    | inr reach ↦ rw reach (elim (Bool-cases (ltb l d.blocks)) [
      | inl there ↦ rw there (
          gives
            (record { inside = ltb→lt l d.blocks there; reachable = ground arith; content = refl }))
      | inr past ↦ rw past (gives tt)
    ])
  ])
]

pub block_read-Holds :
    {d : Disk} {l : ℕ} {b : Block} → Holds d l b → block_read l d ≡ done (some b) d
unfolding block_read
block_read-Holds {d} {l} h =
    let near : leb (2 ^ 32 - 2 ^ 19) l ≡ false = ground (arith, h.reachable) in
    let reach : leb (2 ^ 19) l ≡ false = ground (arith, h.reachable) in
    rw (near, reach, lt→ltb l d.blocks h.inside, h.content)

pub read_unchecked-Holds :
    {d : Disk} {l : ℕ} {b : Block} → Holds d l b → read_unchecked l d ≡ done b d
unfolding read_unchecked
read_unchecked-Holds h = rw (block_read-Holds h)
