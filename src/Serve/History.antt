-- ===== src/Serve/History.antt =====
-- Sequences of requests, whatever becomes of each, and what holds of the image after them.
use unix_like_file_system.Base.{
  ℕ, ◌≤◌, ◌<◌, ◌≡◌, ◌≢◌, refl, sym, ◌∙◌, Bool, true, false, Option, none, some, ltb, arith, lt→ltb,
  ltb→lt, ap, Bool-cases, inl, inr,
}
use mathlib.Core.Path.{subst}
use unix_like_file_system.Block.{Block}
use unix_like_file_system.Disk.{Disk, Outcome, done, failed, aborted, fault, block_read}
use unix_like_file_system.Disk.Writes.{write_at-ne}
use unix_like_file_system.Attr.{Start, mounted, exits, check_magic, fs_init}
use unix_like_file_system.Entry.{Context}
use unix_like_file_system.Serve.{
  Request, statfs, getattr, readdir, read, rename, chmod, create, mkdir, unlink, rmdir, write,
  truncate, utime, serve,
}
use unix_like_file_system.Serve.Preserves.{
  Preserves, IsKept, Leaves, returned, refused, stopped, undone, steps,
}
use unix_like_file_system.Serve.Reading.{
  fs_statfs-Preserves, fs_getattr-Preserves, fs_readdir-Preserves, fs_read-Preserves,
}
use unix_like_file_system.Serve.Calls.{serve-Preserves}

-- The image that a call leaves, also when an assertion stops it.
abbrev pub image_of : {A : Type 0} → Outcome A → Option Disk
image_of (done a g) = some g
image_of (failed e g) = some g
image_of (aborted g) = some g
image_of fault = none

-- From the image `d`, requests lead to the image `g`.
pub data History (d : Disk) : Disk → Type 0 where
  start : History d d
  later :
      {g h : Disk} (stack : Block) (ctx : Context) (q : Request)
      → History d g
      → image_of (serve stack ctx q g) ≡ some h
      → History d h

Leaves-image_of :
    {A : Type 0} {I : Disk → Type 0} {r : Outcome A} {h : Disk}
    → Leaves I r
    → image_of r ≡ some h
    → I h
Leaves-image_of {I} (returned p) e = subst I (cc) p
Leaves-image_of {I} (refused p) e = subst I (cc) p
Leaves-image_of {I} (stopped p) e = subst I (cc) p
Leaves-image_of undone e = cc

pub History-Preserves : {I : Disk → Type 0} {d g : Disk} → IsKept I → I d → History d g → I g
History-Preserves kept h start = h
History-Preserves kept h (later {g} stack ctx q history e) =
    Leaves-image_of (serve-Preserves kept stack ctx q g (History-Preserves kept h history)) e

-- The superblock is in the image and is `b`; the image has at least `n` blocks.
pub record HasSuper (b : Block) (n : ℕ) (d : Disk) : Type 0 where
  pub some_blocks : 0 < d.blocks
  pub no_fewer : n ≤ d.blocks
  pub same_super : d.block 0 ≡ b

HasSuper-IsKept : (b : Block) (n : ℕ) → IsKept (HasSuper b n)
HasSuper-IsKept b n = record {
  written = λ l c d pos h. record {
    some_blocks = ground (arith, h.some_blocks);
    no_fewer = ground (arith, h.no_fewer);
    same_super = write_at-ne l 0 c d (λ e. absurd (omega arith)) h.some_blocks ∙ h.same_super;
  };
}

-- Whatever requests are served, and whether each returns, fails or is stopped by an assertion, the
-- superblock is never overwritten and the image never gets shorter.
pub History-HasSuper : {d g : Disk} → 0 < d.blocks → History d g → HasSuper (d.block 0) d.blocks g
History-HasSuper {d} there history =
    History-Preserves (HasSuper-IsKept (d.block 0) d.blocks)
      (record { some_blocks = there; no_fewer = omega arith; same_super = refl }) history

fs_init-inside : (d : Disk) → 0 < d.blocks → fs_init d ≡ done (check_magic (some (d.block 0))) d
unfolding fs_init block_read
fs_init-inside d there = rw (lt→ltb 0 d.blocks there)

fs_init-outside : (d : Disk) → ltb 0 d.blocks ≡ false → fs_init d ≡ done exits d
unfolding fs_init block_read
fs_init-outside d nothing = rw nothing

status_of : {d : Disk} {s t : Start} → done s d ≡ done t d → s ≡ t
status_of e = ground arith

mounted_inside : (d : Disk) → fs_init d ≡ done mounted d → 0 < d.blocks
mounted_inside d e = elim (Bool-cases (ltb 0 d.blocks)) [
  | inl there ↦ ltb→lt 0 d.blocks there
  | inr nothing ↦ absurd (exits≢mounted (status_of (sym (fs_init-outside d nothing) ∙ e)))
]
  where
    exits≢mounted : exits ≢ mounted
    exits≢mounted f = cc

-- An image that `fs_init` accepts is accepted after any history of requests.
pub fs_init-History :
    {d g : Disk} → fs_init d ≡ done mounted d → History d g → fs_init g ≡ done mounted g
fs_init-History {d} {g} mounts history =
    let there = mounted_inside d mounts in
    let h = History-HasSuper there history in
    let magic : check_magic (some (d.block 0)) ≡ mounted =
      status_of (sym (fs_init-inside d there) ∙ mounts) in
    fs_init-inside g h.some_blocks
    ∙ ap (λ b. done (check_magic (some b)) g) h.same_super
    ∙ ap (λ s. done s g) magic

-- The requests that ask and do not tell.
abbrev pub is_query : Request → Bool
is_query statfs = true
is_query (getattr path) = true
is_query (readdir path) = true
is_query (read path buf len offset) = true
is_query _ = false

query-Preserves :
    {I : Disk → Type 0} (stack : Block) (ctx : Context) (q : Request)
    → is_query q ≡ true
    → Preserves I (serve stack ctx q)
unfolding serve
query-Preserves stack ctx statfs e = search (steps, fs_statfs-Preserves)
query-Preserves stack ctx (getattr path) e = search (steps, fs_getattr-Preserves)
query-Preserves stack ctx (readdir path) e = search (steps, fs_readdir-Preserves)
query-Preserves stack ctx (read path buf len offset) e = search (steps, fs_read-Preserves)
query-Preserves stack ctx (rename src dst) e = cc
query-Preserves stack ctx (chmod path mode) e = cc
query-Preserves stack ctx (create path mode) e = cc
query-Preserves stack ctx (mkdir path mode) e = cc
query-Preserves stack ctx (unlink path) e = cc
query-Preserves stack ctx (rmdir path) e = cc
query-Preserves stack ctx (write path buf len offset) e = cc
query-Preserves stack ctx (truncate path b) e = cc
query-Preserves stack ctx (utime path modtime) e = cc

-- `statfs`, `getattr`, `readdir` and `read` leave the image as it was, however they end.
pub query_unchanged :
    (stack : Block) (ctx : Context) (q : Request) (d : Disk) {g : Disk}
    → is_query q ≡ true
    → image_of (serve stack ctx q d) ≡ some g
    → g ≡ d
query_unchanged stack ctx q d query e =
    Leaves-image_of {I = λ g. g ≡ d} (query-Preserves stack ctx q query d refl) e
