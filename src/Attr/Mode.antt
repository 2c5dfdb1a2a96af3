-- ===== src/Attr/Mode.antt =====
-- `fs_chmod` and `fs_utime`: what they change in the inode, and that nothing else changes.
use unix_like_file_system.Base.{
  ℕ, ◌+◌, ◌-◌, ◌*◌, ◌/◌, ◌%◌, ◌^◌, ◌≤◌, ◌<◌, ◌≡◌, ◌≢◌, ◌⊎◌, false, leb, ◌||◌, lt→ltb, ==-refl, ◌==◌,
  arith, Option, none, some,
}
use unix_like_file_system.Base.Masks.{low_and, high_and, or_low}
use unix_like_file_system.Block.{Block, get_u32, set_u32}
use unix_like_file_system.Block.Words.{get_u32-lt, get_u32-set_u32, set_u32-outside}
use unix_like_file_system.Disk.{Disk, Outcome, done, eopnotsupp, block_write}
use unix_like_file_system.Disk.Reads.{Holds, read_unchecked-Holds}
use unix_like_file_system.Inode.{mode, is_dir}
use unix_like_file_system.Path.{Text}
use unix_like_file_system.Attr.{with_permissions, fs_chmod, fs_utime, time_of}
use unix_like_file_system.Attr.Named.{Named, inode_of-done}

-- The call succeeded and wrote the four bytes at `o` of inode `n`, and nothing else.
pub record Rewrites (d g : Disk) (n : ℕ) (inode : Block) (o v : ℕ) : Type 0 where
  pub same_blocks : g.blocks ≡ d.blocks
  pub same_files : (l : ℕ) → l ≢ n → l < d.blocks → g.block l ≡ d.block l
  pub field : get_u32 (g.block n) o ≡ v
  pub same_fields : (i : ℕ) → (i < o) ⊎ (o + 4 ≤ i) → g.block n i ≡ inode i

abbrev pub Writes : Disk → ℕ → Block → ℕ → ℕ → Outcome (Unit {0}) → Type 0
Writes d n inode o v (done _ g) = Rewrites d g n inode o v
Writes d n inode o v _ = ⊥

pub block_write-Writes :
    (d : Disk) (n : ℕ) (inode : Block) (o v : ℕ)
    → Holds d n inode
    → 0 < n
    → n < 2 ^ 19 - 1
    → v < 2 ^ 32
    → Writes d n inode o v (block_write n (set_u32 inode o v) d)
unfolding block_write
block_write-Writes d n inode o v holds pos reach small =
    let positive : ((n == 0) || leb (2 ^ 32 - 2 ^ 19) n) ≡ false = ground arith in
    let reachable : leb (2 ^ 19 - 1) n ≡ false = ground arith in
    let inside = lt→ltb n d.blocks holds.inside in
    rw (positive, reachable)
      (record {
        same_blocks = rw inside;
        same_files = λ l ne below. ground arith;
        field = rw (==-refl n, get_u32-set_u32) (omega arith);
        same_fields = λ i apart. rw (==-refl n) (set_u32-outside inode o v i apart);
      })

-- The permissions are replaced, and the bits that say what the inode is are kept.
with_permissions-arith :
    (m permissions : ℕ)
    → m < 2 ^ 32
    → with_permissions m permissions ≡ m / 2 ^ 12 * 2 ^ 12 + permissions % 2 ^ 12
unfolding with_permissions
with_permissions-arith m permissions h =
    rw (high_and m h, low_and permissions)
      (or_low 12 (m / 2 ^ 12) (permissions % 2 ^ 12) (omega arith))

module _ {d : Disk} {path : Text} {n : ℕ} {inode : Block} (named : Named d path n inode)
    (reach : n < 2 ^ 19 - 1) where
  -- For a path to an inode whose block `block_write` can reach, `fs_chmod` replaces the twelve
  -- permission bits of the inode's mode by those that it is given and keeps the other twenty; no other
  -- byte of the image changes.
  pub fs_chmod-Writes :
      (permissions : ℕ)
      → Writes d n inode 4
          (mode inode / 2 ^ 12 * 2 ^ 12 + permissions % 2 ^ 12)
          (fs_chmod path permissions d)
  unfolding fs_chmod
  fs_chmod-Writes permissions =
      rw
        (
          named.found,
          read_unchecked-Holds named.holds,
          with_permissions-arith (mode inode) permissions (get_u32-lt inode 4),
        )
        (block_write-Writes d n inode 4 _ named.holds named.positive reach
          (omega (arith, get_u32-lt inode 4)))

  pub fs_utime-Writes_field :
      (now : ℕ) (modtime : Option ℕ)
      → is_dir inode ≡ false
      → Writes d n inode 12 (time_of now modtime % 2 ^ 32) (fs_utime now path modtime d)
  unfolding fs_utime
  fs_utime-Writes_field now modtime is_file =
      rw (inode_of-done eopnotsupp named, is_file)
        (block_write-Writes d n inode 12 _ named.holds named.positive reach (omega arith))

  -- For a path to a file whose inode `block_write` can reach, `fs_utime` with a time `t` sets the
  -- modification time to `t`, and without a time to the present one, `now`, each as 32 bits; no other
  -- byte of the image changes.
  pub fs_utime-Writes :
      (now t : ℕ)
      → is_dir inode ≡ false
      → Writes d n inode 12 (t % 2 ^ 32) (fs_utime now path (some t) d)
        × Writes d n inode 12 (now % 2 ^ 32) (fs_utime now path none d)
  fs_utime-Writes now t is_file =
      (fs_utime-Writes_field now (some t) is_file, fs_utime-Writes_field now none is_file)
