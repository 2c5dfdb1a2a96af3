-- ===== src/Tree/Shrink.antt =====
-- Images in which blocks are given up, and nothing else changes that matters for the roles.
use unix_like_file_system.Base.{
  ℕ, ◌*◌, ◌≤◌, ◌<◌, ◌≡◌, ◌≢◌, ◌⊎◌, inl, inr, refl, sym, ap, ◌∙◌, Bool, true, false, if◌then◌else◌,
  arith, Bool-cases,
}
use mathlib.Core.Bool.{false≢true}
use mathlib.Core.Path.{subst}
use unix_like_file_system.Block.{Block, block_size}
use unix_like_file_system.Disk.{Disk}
use unix_like_file_system.Bitmap.Alloc.{in_use}
use unix_like_file_system.Inode.{
  num_ptrs, num_dirents, size, ptr, is_dir, rounds_up, valid, entry_inode,
}
use unix_like_file_system.Lookup.{root_inum}
use unix_like_file_system.Tree.{Role, unowned, child, listing, IsInode, Node, IsNamed, IsTree}

-- The roles without the blocks that are gone.
abbrev pub drop : (ℕ → Bool) → (ℕ → Role) → ℕ → Role
drop gone role l = if gone l then unowned else role l

-- The inode `b'` has the kind of `b`, and points to blocks of `b` that are not gone.
pub record Stays (gone : ℕ → Bool) (b b' : Block) : Type 0 where
  pub same_dir : is_dir b' ≡ is_dir b
  pub directory : is_dir b ≡ true → (ptr b' 0 ≡ ptr b 0) × (gone (ptr b 0) ≡ false)
  pub fits : is_dir b ≡ false → size b' ≤ block_size * num_ptrs
  pub contents :
      is_dir b ≡ false
      → (i : ℕ) → i < rounds_up (size b')
      → (i < rounds_up (size b)) × (ptr b' i ≡ ptr b i) × (gone (ptr b i) ≡ false)

-- Entry `k` is unused, or it is as it was and names a block that is not gone.
abbrev pub EntryStays : (ℕ → Bool) → Block → Block → ℕ → Type 0
EntryStays gone dirs dirs' k =
    (valid dirs' k ≡ false)
    ⊎ ((valid dirs k ≡ true)
        × (entry_inode dirs' k ≡ entry_inode dirs k)
        × (gone (entry_inode dirs k) ≡ false)
        × (IsNamed dirs k → IsNamed dirs' k))

-- What has to be shown of an image with fewer blocks in use.
pub record Shrinks (d g : Disk) (role : ℕ → Role) (gone : ℕ → Bool) : Type 0 where
  pub not_smaller : d.blocks ≤ g.blocks
  pub still_used : (l : ℕ) → gone l ≡ false → in_use d l ≡ true → in_use g l ≡ true
  pub root_stays : gone root_inum ≡ false
  pub nodes : (n : ℕ) → IsInode (role n) → gone n ≡ false → Stays gone (d.block n) (g.block n)
  pub entries :
      (e n k : ℕ)
      → role e ≡ listing n
      → gone e ≡ false
      → k < num_dirents
      → EntryStays gone (d.block e) (g.block e) k

kept : (gone : ℕ → Bool) (role : ℕ → Role) {l : ℕ} → gone l ≡ false → drop gone role l ≡ role l
kept gone role h = rw h refl

module _ {d g : Disk} {role : ℕ → Role} {gone : ℕ → Bool} (t : IsTree d role)
    (s : Shrinks d g role gone) where
  Node-Stays : (n : ℕ) {b b' : Block} → Node role n b → Stays gone b b' → Node (drop gone role) n b'
  Node-Stays n {b} node stays = record {
    directory = λ is.
        let (same, there) = stays.directory (sym stays.same_dir ∙ is) in
        ap (drop gone role) same ∙ kept gone role there ∙ node.directory (sym stays.same_dir ∙ is);
    fits = λ is. stays.fits (sym stays.same_dir ∙ is);
    contents = λ is i lt.
        let (lt', same, there) = stays.contents (sym stays.same_dir ∙ is) i lt in
        ap (drop gone role) same
        ∙ kept gone role there
        ∙ node.contents (sym stays.same_dir ∙ is) i lt';
  }

  lost : {l : ℕ} → gone l ≡ true → drop gone role l ≡ unowned
  lost e = rw e refl

  -- A block that has a role still, and what it was.
  IsInode-kept : (n : ℕ) → IsInode (drop gone role n) → (gone n ≡ false) × IsInode (role n)
  IsInode-kept n is = elim (Bool-cases (gone n)) [
    | inl e ↦ absurd (subst IsInode (lost e) is)
    | inr e ↦ (e, subst IsInode (kept gone role e) is)
  ]

  listing_kept : (l n : ℕ) → drop gone role l ≡ listing n → (gone l ≡ false) × (role l ≡ listing n)
  listing_kept l n is = elim (Bool-cases (gone l)) [
    | inl e ↦ absurd (unowned≢listing (sym (lost e) ∙ is))
    | inr e ↦ (e, sym (kept gone role e) ∙ is)
  ]
    where
      unowned≢listing : unowned ≢ listing n
      unowned≢listing f = cc

  entry_kept :
      (e n k : ℕ)
      → role e ≡ listing n
      → k < num_dirents
      → valid (g.block e) k ≡ true
      → EntryStays gone (d.block e) (g.block e) k
      → drop gone role (entry_inode (g.block e) k) ≡ child e k
  entry_kept e n k is lt v (inl unused) = absurd (false≢true (sym unused ∙ v))
  entry_kept e n k is lt v (inr (used, same, there, names)) =
      ap (drop gone role) same ∙ kept gone role there ∙ t.entry e n k is lt used

  name_kept :
      (e n k : ℕ)
      → role e ≡ listing n
      → k < num_dirents
      → valid (g.block e) k ≡ true
      → EntryStays gone (d.block e) (g.block e) k
      → IsNamed (g.block e) k
  name_kept e n k is lt v (inl unused) = absurd (false≢true (sym unused ∙ v))
  name_kept e n k is lt v (inr (used, same, there, names)) = names (t.named e n k is lt used)

  pub Shrinks-IsTree : IsTree g (drop gone role)
  Shrinks-IsTree = record {
    map_there = omega (arith, t.map_there, s.not_smaller);
    owned = λ l. elim (Bool-cases (gone l)) [
      | inl e ↦ inl (rw e refl)
      | inr e ↦ elim (t.owned l) [
        | inl none ↦ inl (kept gone role e ∙ none)
        | inr m ↦ inr (record {
          used = s.still_used l e m.used;
          range = m.range;
          inside = omega (arith, m.inside, s.not_smaller);
        })
      ]
    ];
    root_there = kept gone role s.root_stays ∙ t.root_there;
    root_dir =
        (s.nodes root_inum (subst IsInode (sym t.root_there) tt) s.root_stays).same_dir
        ∙ t.root_dir;
    node = λ n is.
        let (there, was) = IsInode-kept n is in Node-Stays n (t.node n was) (s.nodes n was there);
    entry = λ e n k is lt v.
        let (there, was) = listing_kept e n is in
        entry_kept e n k was lt v (s.entries e n k was there lt);
    named = λ e n k is lt v.
        let (there, was) = listing_kept e n is in
        name_kept e n k was lt v (s.entries e n k was there lt);
  }
