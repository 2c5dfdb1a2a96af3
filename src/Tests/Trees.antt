-- ===== src/Tests/Trees.antt =====
-- The image with two files holds a file system; requests to it.
use unix_like_file_system.Base.{
  ℕ, ◌+◌, ◌<◌, ◌≡◌, ◌⊎◌, inl, inr, refl, sym, ap, ◌∙◌, true, false, Bool-cases, ◌==◌, ==→eq, arith,
  if◌then◌else◌, ltb, leb,
}
use mathlib.Core.Path.{subst}
use mathlib.Core.Bool.{false≢true}
use unix_like_file_system.Base.Bits.{holds_below, holds_below_lem}
use unix_like_file_system.Block.{Block, byte, get_u32, set_u32, set_byte}
use unix_like_file_system.Bitmap.{bit_test}
use unix_like_file_system.Bitmap.Alloc.{in_use}
use unix_like_file_system.Inode.{
  num_dirents, name_at, size, ptr, is_dir, rounds_up, valid, entry_inode,
}
use unix_like_file_system.Sample.{pair_image, block_of, map, root_entries, inode}
use unix_like_file_system.Tests.Directories.{for_both, entry_numbers}
use unix_like_file_system.Tree.{
  Role, unowned, root, child, listing, content, IsInode, Marked, Node, IsNamed, IsTree, Consistent,
}

-- The root with its entries, and the files "a" and "d" with their blocks.
abbrev role_of : ℕ → Role
role_of l =
    if l == 2
    then root
    else if l == 3
    then listing 2
    else if l == 4
    then child 3 0
    else if l == 5
    then content 4 0
    else if l == 6
    then child 3 1
    else if l == 7
    then content 6 0
    else unowned

used_below : holds_below 8 (λ l. in_use pair_image l) ≡ true
unfolding pair_image block_of map set_byte bit_test holds_below
used_below = refl

owned : (l : ℕ) → (role_of l ≡ unowned) ⊎ Marked pair_image l
unfolding pair_image block_of
owned l = elim (Bool-cases (ltb l 8)) [
  | inr past ↦ inl (ground (arith, past))
  | inl inside ↦ elim (Bool-cases (leb 2 l)) [
    | inr low ↦ inl (ground (arith, low))
    | inl high ↦ inr (record {
      used = holds_below_lem 8 (λ l. in_use pair_image l) l used_below (ground (arith, inside));
      range = (ground (arith, high), ground (arith, inside));
      inside = ground (arith, inside);
    })
  ]
]

which_inode : (n : ℕ) → IsInode (role_of n) → (n ≡ 2) ⊎ ((n ≡ 4) ⊎ (n ≡ 6))
which_inode n is = elim (Bool-cases (n == 2)) [
  | inl e ↦ inl (==→eq n 2 e)
  | inr a ↦ elim (Bool-cases (n == 4)) [
    | inl e ↦ inr (inl (==→eq n 4 e))
    | inr b ↦ elim (Bool-cases (n == 6)) [
      | inl e ↦ inr (inr (==→eq n 6 e))
      | inr c ↦ absurd (no_other n a b c is)
    ]
  ]
]
  where
    no_other :
        (n : ℕ) → (n == 2) ≡ false → (n == 4) ≡ false → (n == 6) ≡ false → IsInode (role_of n) → ⊥
    no_other n a b c is = elim (Bool-cases (n == 3)) [
      | inl e ↦ let r : role_of n ≡ listing 2 = rw (a, e) refl in subst IsInode r is
      | inr f ↦ elim (Bool-cases (n == 5)) [
        | inl e ↦ let r : role_of n ≡ content 4 0 = rw (a, f, b, e) refl in subst IsInode r is
        | inr g ↦ elim (Bool-cases (n == 7)) [
          | inl e ↦
              let r : role_of n ≡ content 6 0 = rw (a, f, b, g, c, e) refl in subst IsInode r is
          | inr h ↦ let r : role_of n ≡ unowned = rw (a, f, b, g, c, h) refl in subst IsInode r is
        ]
      ]
    ]

which_listing : (e m : ℕ) → role_of e ≡ listing m → (e ≡ 3) × (m ≡ 2)
which_listing e m is = ground (arith, is)

kinds :
    (is_dir (pair_image.block 2) ≡ true)
    × (is_dir (pair_image.block 4) ≡ false)
    × (is_dir (pair_image.block 6) ≡ false)
unfolding pair_image block_of get_u32 inode set_u32 is_dir
kinds = (refl, refl, refl)

pointers :
    (ptr (pair_image.block 2) 0 ≡ 3)
    × (ptr (pair_image.block 4) 0 ≡ 5)
    × (ptr (pair_image.block 6) 0 ≡ 7)
unfolding pair_image block_of get_u32 inode set_u32
pointers = (refl, refl, refl)

sizes : (size (pair_image.block 4) ≡ 5) × (size (pair_image.block 6) ≡ 3)
unfolding pair_image block_of get_u32 inode set_u32
sizes = (refl, refl)

root_node : Node role_of 2 (pair_image.block 2)
root_node = record {
  directory = λ dir. ap role_of pointers.0;
  fits = λ f. absurd (false≢true (sym f ∙ kinds.0));
  contents = λ f i lt. absurd (false≢true (sym f ∙ kinds.0));
}

-- A file of one block.
file_node :
    (n e : ℕ)
    → is_dir (pair_image.block n) ≡ false
    → size (pair_image.block n) < 4096
    → ptr (pair_image.block n) 0 ≡ e
    → role_of e ≡ content n 0
    → Node role_of n (pair_image.block n)
unfolding rounds_up
file_node n e file few at is = record {
  directory = λ dir. absurd (false≢true (sym file ∙ dir));
  fits = λ f. omega (arith, few);
  contents = λ f i lt.
      let first : i ≡ 0 = ground (arith, lt, few) in
      subst (λ j. role_of (ptr (pair_image.block n) j) ≡ content n j) (sym first)
        (ap role_of at ∙ is);
}

nodes : (n : ℕ) → IsInode (role_of n) → Node role_of n (pair_image.block n)
nodes n is = elim (which_inode n is) [
  | inl e ↦ subst (λ m. Node role_of m (pair_image.block m)) (sym e) root_node
  | inr (inl e) ↦
      subst (λ m. Node role_of m (pair_image.block m)) (sym e)
        (file_node 4 5 kinds.1 (omega (arith, sizes.0)) pointers.1 refl)
  | inr (inr e) ↦
      subst (λ m. Node role_of m (pair_image.block m)) (sym e)
        (file_node 6 7 kinds.2 (omega (arith, sizes.1)) pointers.2 refl)
]

root_listed : pair_image.block 3 ≡ root_entries
unfolding pair_image block_of
root_listed = refl

-- What holds of the root's two entries holds of every valid entry.
each_entry :
    (P : ℕ → Block → ℕ → Type 0)
    → P 3 root_entries 0
    → P 3 root_entries 1
    → (e m k : ℕ) → role_of e ≡ listing m
    → k < num_dirents
    → valid (pair_image.block e) k ≡ true
    → P e (pair_image.block e) k
each_entry P p0 p1 e m k is lt used =
    let (at, of) = which_listing e m is in
    let same : pair_image.block e ≡ root_entries = ap (pair_image.block) at ∙ root_listed in
    subst (λ l. P l (pair_image.block e) k) (sym at)
      (subst (λ b. P 3 b k) (sym same)
        (for_both (P 3 root_entries) p0 p1 k lt (ap (λ b. valid b k) (sym same) ∙ used)))

ends : (byte root_entries (name_at 0 + 1) ≡ 0) × (byte root_entries (name_at 1 + 1) ≡ 0)
unfolding root_entries set_u32
ends = (refl, refl)

pub there : 1 < pair_image.blocks
unfolding pair_image
there = omega arith

pair_image-IsTree : IsTree pair_image role_of
pair_image-IsTree = record {
  map_there = there;
  owned = owned;
  root_there = refl;
  root_dir = kinds.0;
  node = nodes;
  entry =
      each_entry (λ e b k. role_of (entry_inode b k) ≡ child e k) (ap role_of entry_numbers.0)
        (ap role_of entry_numbers.1);
  named = each_entry (λ e b k. IsNamed b k) (1, omega arith, ends.0) (1, omega arith, ends.1);
}

pub pair_image-Consistent : Consistent pair_image
pair_image-Consistent = record { role = role_of; is_tree = pair_image-IsTree }
