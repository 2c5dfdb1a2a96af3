-- ===== src/Tree/Fields.antt =====
-- `fs_chmod` and `fs_utime` keep an image consistent, and lookups as they were.
use unix_like_file_system.Base.{
  true, ℕ, ◌+◌, ◌*◌, ◌/◌, ◌%◌, ◌^◌, ◌≤◌, ◌<◌, ◌≡◌, refl, sym, ap, ◌∙◌, ◌⊎◌, inl, inr, Option, arith,
  Bool-cases, ◌==◌,
}
use unix_like_file_system.Block.{get_u32}
use unix_like_file_system.Block.Words.{get_u32_cong}
use unix_like_file_system.Disk.{Disk, Outcome, done, failed, aborted, fault, eopnotsupp}
use unix_like_file_system.Bitmap.{bit_test}
use unix_like_file_system.Inode.{mode, is_dir}
use unix_like_file_system.Path.{Text}
use unix_like_file_system.Attr.{inode_of, fs_chmod, fs_utime}
use unix_like_file_system.Attr.Named.{inode_of-done, inode_of-failed}
use unix_like_file_system.Attr.Mode.{Rewrites, Writes, fs_chmod-Writes, fs_utime-Writes_field}
use unix_like_file_system.Tree.{Role, IsInode, Marked, IsTree, Consistent, Keeps}
use unix_like_file_system.Tree.Looks.{IsNormal, leads, misses, path-Looks}
use unix_like_file_system.Bitmap.Alloc.{in_use}
use mathlib.Core.Path.{subst}
use unix_like_file_system.Lookup.Resolves.{HasEntry}
use unix_like_file_system.Tree.Find.{inode-Marked, listing-Marked}
use unix_like_file_system.Tree.Carried.{Carries}
use unix_like_file_system.Tree.Change.{
  Alike, inode-Alike, listing-ne-inode, Gentle-Consistent, inode-Gentle, unchanged,
}

-- Four bytes of an inode are written: the time, or a mode of the same kind.
module _ {d g : Disk} {role : ℕ → Role} (t : IsTree d role) {n : ℕ} (is : IsInode (role n))
    (marked : Marked d n) {o v : ℕ} (w : Rewrites d g n (d.block n) o v) where
  field_kept :
      (p : ℕ)
      → ((i : ℕ) → p ≤ i → i ≤ p + 3 → (i < o) ⊎ (o + 4 ≤ i))
      → get_u32 (g.block n) p ≡ get_u32 (d.block n) p
  field_kept p apart =
      get_u32_cong (g.block n) (d.block n) p (w.same_fields p (apart p (omega arith) (omega arith)))
        (w.same_fields (p + 1) (apart (p + 1) (omega arith) (omega arith)))
        (w.same_fields (p + 2) (apart (p + 2) (omega arith) (omega arith)))
        (w.same_fields (p + 3) (apart (p + 3) (omega arith) (omega arith)))

  kind_kept :
      ((o ≡ 12) ⊎ ((o ≡ 4) × (v / 2 ^ 12 ≡ mode (d.block n) / 2 ^ 12)))
      → is_dir (g.block n) ≡ is_dir (d.block n)
  unfolding is_dir
  kind_kept (inl e) = ap (λ m. m / 2 ^ 12 % 2 ^ 4 == 4) (field_kept 4 (λ i p q. inl (omega arith)))
  kind_kept (inr (e, kind)) =
      ap (λ m. m % 2 ^ 4 == 4)
        (ap (λ m. m / 2 ^ 12) (ap (get_u32 (g.block n)) (sym e) ∙ w.field) ∙ kind)

  -- What is written: the time, or permissions.
  abbrev pub IsGentle : Type 0
  IsGentle = (o ≡ 12) ⊎ ((o ≡ 4) × (v / 2 ^ 12 ≡ mode (d.block n) / 2 ^ 12))

  still_used : (l : ℕ) → in_use d l ≡ true → in_use g l ≡ true
  still_used l used =
      ap (λ b. bit_test b l)
        (w.same_files 1 (λ e. absurd (omega (arith, marked.range))) t.map_there)
      ∙ used

  node-Alike : IsGentle → Alike (d.block n) (g.block n)
  node-Alike field = record {
    same_dir = kind_kept field;
    same_size = field_kept 16 (λ i p q. ground (arith, field));
    same_ptr = λ j. field_kept (20 + 4 * j) (λ i p q. ground (arith, field));
  }

  pub Rewrites-Alike : IsGentle → (m : ℕ) → Marked d m → Alike (d.block m) (g.block m)
  Rewrites-Alike field =
      inode-Alike {g = g} t n is (omega (arith, w.same_blocks)) still_used
        (λ l ne m. w.same_files l ne m.inside) (node-Alike field)

  Rewrites-Consistent : IsGentle → Consistent g
  Rewrites-Consistent field = Gentle-Consistent t (
      inode-Gentle t n is (omega (arith, w.same_blocks)) still_used
        (λ l ne m. w.same_files l ne m.inside) (node-Alike field))

  pub Rewrites-Carries : IsGentle → Carries d g role
  Rewrites-Carries field = record {
    not_smaller = omega (arith, w.same_blocks);
    inodes = λ m is' directory. Rewrites-Alike field m (inode-Marked t m is');
    entries = λ e m at name k h.
        subst (λ b. HasEntry b name k)
          (sym (w.same_files e (listing-ne-inode role at is) (listing-Marked t at).inside)) h;
  }

module _ {d : Disk} {role : ℕ → Role} (t : IsTree d role) where
  Writes-Keeps :
      (n o v : ℕ)
      → IsInode (role n)
      → Marked d n
      → ((o ≡ 12) ⊎ ((o ≡ 4) × (v / 2 ^ 12 ≡ mode (d.block n) / 2 ^ 12)))
      → (r : Outcome (Unit {0})) → Writes d n (d.block n) o v r
      → Keeps r
  Writes-Keeps n o v is m field (done u g) w = Rewrites-Consistent t is m w field
  Writes-Keeps n o v is m field (failed e g) w = absurd w
  Writes-Keeps n o v is m field (aborted g) w = absurd w
  Writes-Keeps n o v is m field fault w = absurd w

  pub fs_chmod-Keeps :
      {path : Text} (permissions : ℕ) → IsNormal path → Keeps (fs_chmod path permissions d)
  unfolding fs_chmod
  fs_chmod-Keeps {path} permissions normal = elim (path-Looks t normal) [
    | leads n named is m ↦
        Writes-Keeps n _ _ is m (inr (refl, omega arith)) _
          (fs_chmod-Writes named (omega (arith, m.range)) permissions)
    | misses e found ↦ rw found (unchanged t)
  ]

  pub fs_utime-Keeps :
      {path : Text} (now : ℕ) (modtime : Option ℕ)
      → IsNormal path
      → Keeps (fs_utime now path modtime d)
  unfolding fs_utime inode_of
  fs_utime-Keeps {path} now modtime normal = elim (path-Looks t normal) [
    | leads n named is m ↦ elim (Bool-cases (is_dir (d.block n))) [
      | inl directory ↦ rw (inode_of-done eopnotsupp named, directory) (unchanged t)
      | inr file ↦
          Writes-Keeps n _ _ is m (inl refl) _
            (fs_utime-Writes_field named (omega (arith, m.range)) now modtime file)
    ]
    | misses e found ↦ rw (inode_of-failed path eopnotsupp found) (unchanged t)
  ]
