-- ===== src/Tree/Change.antt =====
-- Images that differ in what the roles do not depend on.
use unix_like_file_system.Base.{
  ℕ, ◌≤◌, ◌<◌, ◌≡◌, ◌≢◌, refl, sym, ap, ◌∙◌, inl, inr, Bool, true, false, arith, Bool-cases, ◌==◌,
  ==→eq, ==-refl,
}
use mathlib.Core.Path.{subst}
use mathlib.Core.Bool.{false≢true}
use unix_like_file_system.Block.{Block}
use unix_like_file_system.Disk.{Disk, Errno, M, fail_if, ◌>>◌}
use unix_like_file_system.Bitmap.Alloc.{in_use}
use unix_like_file_system.Inode.{num_dirents, size, ptr, is_dir, rounds_up, valid, entry_inode}
use unix_like_file_system.Tree.{
  Role, listing, IsInode, Marked, Node, IsNamed, IsTree, Consistent, Keeps,
}
use unix_like_file_system.Tree.Shrink.{Stays, EntryStays, Shrinks-IsTree}
use unix_like_file_system.Tree.Find.{listing-Marked, inode-Marked}

-- No block is given up.
abbrev pub none_gone : ℕ → Bool
none_gone l = false

-- The two inodes have the same kind, size and pointers.
pub record Alike (b b' : Block) : Type 0 where
  pub same_dir : is_dir b' ≡ is_dir b
  pub same_size : size b' ≡ size b
  pub same_ptr : (i : ℕ) → ptr b' i ≡ ptr b i

pub Alike-refl : (b : Block) → Alike b b
Alike-refl b = record { same_dir = refl; same_size = refl; same_ptr = λ i. refl }

module _ {role : ℕ → Role} {n : ℕ} {b b' : Block} (node : Node role n b) where
  Alike-Stays : Alike b b' → Stays none_gone b b'
  Alike-Stays a = record {
    same_dir = a.same_dir;
    directory = λ is. (a.same_ptr 0, refl);
    fits = λ is. omega (arith, node.fits is, a.same_size);
    contents = λ is i lt. (subst (λ s. i < rounds_up s) a.same_size lt, a.same_ptr i, refl);
  }

pub EntryStays-same :
    {dirs dirs' : Block} (k : ℕ) → dirs' ≡ dirs → EntryStays none_gone dirs dirs' k
EntryStays-same {dirs} {dirs'} k same = elim (Bool-cases (valid dirs' k)) [
  | inl used ↦ inr (
    ap (λ b. valid b k) (sym same) ∙ used,
    ap (λ b. entry_inode b k) same,
    refl,
    subst (λ b. IsNamed b k) (sym same),
  )
  | inr unused ↦ inl unused
]

-- An image with the same inodes and entries, but for what the roles do not depend on.
pub record Gentle (d g : Disk) (role : ℕ → Role) : Type 0 where
  pub not_smaller : d.blocks ≤ g.blocks
  pub still_used : (l : ℕ) → in_use d l ≡ true → in_use g l ≡ true
  pub inodes : (n : ℕ) → IsInode (role n) → Alike (d.block n) (g.block n)
  pub entries :
      (e n k : ℕ)
      → role e ≡ listing n
      → k < num_dirents
      → EntryStays none_gone (d.block e) (g.block e) k

pub Gentle-Consistent :
    {d g : Disk} {role : ℕ → Role} → IsTree d role → Gentle d g role → Consistent g
Gentle-Consistent {role = role} t c = record {
  role = role;
  is_tree = Shrinks-IsTree {gone = none_gone} t (record {
    not_smaller = c.not_smaller;
    still_used = λ l there used. c.still_used l used;
    root_stays = refl;
    nodes = λ n is there. Alike-Stays (t.node n is) (c.inodes n is);
    entries = λ e n k is there below. c.entries e n k is below;
  });
}

pub listing-ne-inode : (role : ℕ → Role) {e n m : ℕ} → role e ≡ listing m → IsInode (role n) → e ≢ n
listing-ne-inode role is inode same = subst IsInode (ap role (sym same) ∙ is) inode

-- An image in which inode `n` at most has changed, and is alike.
module _ {d g : Disk} {role : ℕ → Role} (t : IsTree d role) (n : ℕ) (is : IsInode (role n))
    (not_smaller : d.blocks ≤ g.blocks)
    (still_used : (l : ℕ) → in_use d l ≡ true → in_use g l ≡ true)
    (same : (l : ℕ) → l ≢ n → Marked d l → g.block l ≡ d.block l)
    (alike : Alike (d.block n) (g.block n)) where
  pub inode-Alike : (m : ℕ) → Marked d m → Alike (d.block m) (g.block m)
  inode-Alike m marked = elim (Bool-cases (m == n)) [
    | inl e ↦ subst (λ l. Alike (d.block l) (g.block l)) (sym (==→eq m n e)) alike
    | inr e ↦
        let ne : m ≢ n = λ f. false≢true (sym e ∙ rw (f, ==-refl n) refl) in
        subst (Alike (d.block m)) (sym (same m ne marked)) (Alike-refl (d.block m))
  ]

  pub inode-Gentle : Gentle d g role
  inode-Gentle = record {
    not_smaller = not_smaller;
    still_used = still_used;
    inodes = λ m is'. inode-Alike m (inode-Marked t m is');
    entries = λ e m k is' below.
        EntryStays-same k (same e (listing-ne-inode role is' is) (listing-Marked t is'));
  }

-- An image in which the entry block `e` at most has changed, and its entries stay.
module _ {d g : Disk} {role : ℕ → Role} (t : IsTree d role) (e m : ℕ) (is : role e ≡ listing m)
    (not_smaller : d.blocks ≤ g.blocks)
    (still_used : (l : ℕ) → in_use d l ≡ true → in_use g l ≡ true)
    (same : (l : ℕ) → l ≢ e → Marked d l → g.block l ≡ d.block l)
    (stays : (k : ℕ) → k < num_dirents → EntryStays none_gone (d.block e) (g.block e) k) where
  pub listing-Gentle : Gentle d g role
  listing-Gentle = record {
    not_smaller = not_smaller;
    still_used = still_used;
    inodes = λ n is'.
        subst (Alike (d.block n))
          (sym (same n (λ f. listing-ne-inode role is is' (sym f)) (inode-Marked t n is')))
          (Alike-refl (d.block n));
    entries = λ l n k is' below. elim (Bool-cases (l == e)) [
      | inl at ↦
          subst (λ j. EntryStays none_gone (d.block j) (g.block j) k) (sym (==→eq l e at))
            (stays k below)
      | inr ne ↦
          EntryStays-same k
            (same l (λ f. false≢true (sym ne ∙ rw (f, ==-refl e) refl)) (listing-Marked t is'))
    ];
  }

-- An image in which no block has changed that was in use.
pub same-Consistent :
    {d g : Disk} {role : ℕ → Role}
    → IsTree d role
    → d.blocks ≤ g.blocks
    → ((l : ℕ) → in_use d l ≡ true → in_use g l ≡ true)
    → ((l : ℕ) → Marked d l → g.block l ≡ d.block l)
    → Consistent g
same-Consistent {d} t not_smaller still_used same = Gentle-Consistent t (record {
  not_smaller = not_smaller;
  still_used = still_used;
  inodes = λ n is.
      subst (Alike (d.block n)) (sym (same n (inode-Marked t n is))) (Alike-refl (d.block n));
  entries = λ e n k is below. EntryStays-same k (same e (listing-Marked t is));
})

module _ {d : Disk} {role : ℕ → Role} (t : IsTree d role) where
  pub unchanged : Consistent d
  unchanged = record { role = role; is_tree = t }

  -- An early return keeps the image.
  pub fail_if-Keeps :
      {A : Type 0} (b : Bool) (e : Errno) (k : M A) → Keeps (k d) → Keeps ((fail_if b e >> k) d)
  fail_if-Keeps true e k h = unchanged
  fail_if-Keeps false e k h = h
