-- ===== src/Content/Extend.antt =====
-- A block that `fs_write` adds to the file.
use unix_like_file_system.Base.{
  ℕ, ◌+◌, ◌*◌, ◌/◌, ◌%◌, ◌≤◌, ◌<◌, ◌≡◌, ◌≢◌, refl, sym, ap, ◌∙◌, inl, inr, true, false, ◌==◌, arith,
  Bool-cases, ==→eq, ==-refl,
}
use mathlib.Core.Bool.{false≢true}
use unix_like_file_system.Block.{Block, block_size, byte}
use unix_like_file_system.Block.Words.{set_u32-outside}
use unix_like_file_system.Disk.{Disk, done}
use unix_like_file_system.Bitmap.{map_bits}
use unix_like_file_system.Bitmap.Alloc.{in_use, Allocates}
use unix_like_file_system.Inode.Pointers.{ptr-set_ptr, ptr-set_ptr_ne}
use unix_like_file_system.Inode.{size, ptr, set_ptr, rounds_up}
use unix_like_file_system.Content.{Buffer}
use unix_like_file_system.Content.Read.{file_byte}
use unix_like_file_system.Content.Owns.{Owns, IsCovered, expected, Written}

module _ {d : Disk} {n : ℕ} {inode : Block} {buf : Buffer} {offset upto held i : ℕ} {e g : Disk}
    {node : Block} (w : Written d n inode buf offset upto held e node)
    (alloc : Allocates e (done i g)) where
  abbrev longer : Block
  longer = set_ptr node held i

  ptr-old : (b : ℕ) → b < held → ptr longer b ≡ ptr node b
  ptr-old b lt = ptr-set_ptr_ne node held i b (omega arith)

  ptr-new : ptr longer held ≡ i
  ptr-new = ptr-set_ptr node held i (omega (arith, alloc.1))

  -- Properties of one pointer, for the old ones and for the new.
  each :
      (P : ℕ → ℕ → Type 0)
      → ((b : ℕ) → b < held → P b (ptr node b))
      → P held i
      → (b : ℕ) → b < held + 1
      → P b (ptr longer b)
  each P old new b lt = elim (Bool-cases (b == held)) [
    | inl e' ↦ rw (==→eq b held e', ptr-new) new
    | inr ne ↦ rw (ptr-old b (ground arith)) (old b (ground arith))
  ]

  is_free : (l : ℕ) → in_use e l ≡ true → i ≢ l
  is_free l used p = false≢true (sym alloc.2 ∙ ap (in_use e) p ∙ used)

  longer-Owns : Owns g n longer (held + 1)
  longer-Owns = record {
    range = each (λ b p. (1 < p) × (p < map_bits)) w.owns.range (omega (arith, alloc.0), alloc.1);
    used =
        each (λ b p. in_use g p ≡ true)
          (λ b lt. alloc.4 (ptr node b) ∙ ground (arith, w.owns.used b lt))
          (alloc.4 i ∙ rw (==-refl i));
    apart = each (λ b p. p ≢ n) w.owns.apart (is_free n w.inode_used);
    distinct = λ b c lt lt' p.
        each (λ b p. (c : ℕ) → c < held + 1 → p ≡ ptr longer c → b ≡ c)
          (λ b lt c lt' p.
            each (λ c q. ptr node b ≡ q → b ≡ c) (λ c lt' p. w.owns.distinct b c lt lt' p)
              (λ p. absurd (is_free (ptr node b) (w.owns.used b lt) (sym p))) c lt' p)
          (λ c lt' p.
            each (λ c q. i ≡ q → held ≡ c)
              (λ c lt' p. absurd (is_free (ptr node c) (w.owns.used c lt') p)) (λ p. refl) c lt' p)
          b lt c lt' p;
  }

  same_byte :
      (o : ℕ)
      → IsCovered (size inode) upto o
      → (ptr longer (o / block_size) < g.blocks)
        × (file_byte g longer o ≡ expected d inode buf offset upto o)
  same_byte o covered =
      let lt : o / block_size < held = omega (arith, w.bound) in
      rw (ptr-old (o / block_size) lt) (
        rw (alloc.5.same_blocks) (w.inside o covered),
        ap (λ b. byte b (o % block_size))
              (alloc.5.same_block (ptr node (o / block_size))
                (λ p. absurd (omega (arith, w.owns.range _ lt))) (w.inside o covered))
            ∙ w.content o covered,
      )

  not_used : in_use d i ≡ false
  not_used = elim (Bool-cases (in_use d i)) [
    | inl used ↦ absurd (is_free i (w.still_used i used) refl)
    | inr free ↦ free
  ]

  -- With the block that was allocated behind its others, the file holds the bytes that it held.
  pub longer-Written :
      rounds_up (size inode) ≤ held → Written d n inode buf offset upto (held + 1) g longer
  longer-Written past = record {
    owns = longer-Owns;
    bound = (omega (arith, w.bound), omega (arith, w.bound));
    inside = λ o covered. (same_byte o covered).0;
    content = λ o covered. (same_byte o covered).1;
    same_ptrs = λ b lt. ptr-old b (omega arith) ∙ w.same_ptrs b lt;
    fresh = λ b ge lt.
        each (λ b p. rounds_up (size inode) ≤ b → in_use d p ≡ false) (λ b lt ge. w.fresh b ge lt)
          (λ _. not_used) b lt ge;
    inode_used = alloc.4 n ∙ ground (arith, w.inode_used);
    same_fields =
        λ j lt. set_u32-outside node (20 + 4 * held) i j (omega arith) ∙ w.same_fields j lt;
    no_smaller = omega (arith, w.no_smaller, alloc.5.same_blocks);
    still_used = λ l used. alloc.4 l ∙ ground (arith, w.still_used l used);
    same_files = λ l ne used apart lt.
        alloc.5.same_block l ne (omega (arith, w.no_smaller))
        ∙ w.same_files l ne used (λ b lt' p. apart b (omega arith) (ptr-old b lt' ∙ p)) lt;
  }
