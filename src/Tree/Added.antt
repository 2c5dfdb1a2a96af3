-- ===== src/Tree/Added.antt =====
-- What `fs_create` and `fs_mkdir` leave: an image with one more inode, or with blocks that none names.
use unix_like_file_system.Base.{
  ℕ, ◌+◌, ◌*◌, ◌/◌, ◌%◌, ◌^◌, ◌≤◌, ◌<◌, ◌≡◌, ◌≢◌, refl, sym, ap, ◌∙◌, inl, inr, true, false, arith,
  Bool-cases, ◌==◌, ==→eq, ==-refl, leb, length, [], ◌∷◌,
}
use mathlib.Core.Path.{subst}
use mathlib.Core.Bool.{false≢true}
use unix_like_file_system.Block.{Block, byte}
use unix_like_file_system.Disk.{Disk}
use unix_like_file_system.Bitmap.Alloc.{in_use}
use unix_like_file_system.Inode.{num_dirents, mode, is_dir, valid, entry_inode, name_at, same_text}
use unix_like_file_system.Inode.Entries.{IsFilled, SameEntry, SameEntry-word}
use unix_like_file_system.Path.{Text}
use unix_like_file_system.Entry.{Context}
use unix_like_file_system.Entry.Make.{IsNew}
use unix_like_file_system.Tree.{
  Role, unowned, child, listing, IsInode, Marked, Node, IsNamed, IsTree, Consistent,
}
use unix_like_file_system.Tree.Dropped.{SameEntry-IsNamed}
use unix_like_file_system.Tree.Grow.{
  RoleStays, EntryGrows, EntryGrows-same, Node-stays, Grows-IsTree,
}
use unix_like_file_system.Tree.Find.{inode-Marked, listing-Marked}
use unix_like_file_system.Tree.Change.{listing-ne-inode}

-- The inode in block `i` is new, entry `k` of the directory `inum` names it, and but for blocks that
-- had no role, nothing else has changed.
pub record Adds (d g : Disk) (role role' : ℕ → Role) (inum entries i k : ℕ) : Type 0 where
  pub not_smaller : d.blocks ≤ g.blocks
  pub still_used : (l : ℕ) → in_use d l ≡ true → in_use g l ≡ true
  pub roles : (l : ℕ) → RoleStays role role' g l
  pub is_listing : role entries ≡ listing inum
  pub same_files : (l : ℕ) → l ≢ entries → Marked d l → g.block l ≡ d.block l
  pub new_inodes : (n : ℕ) → role n ≡ unowned → IsInode (role' n) → Node role' n (g.block n)
  pub names : entry_inode (g.block entries) k ≡ i
  pub named : role' i ≡ child entries k
  pub has_name : IsNamed (g.block entries) k
  pub others : (j : ℕ) → j ≢ k → SameEntry (g.block entries) (d.block entries) j
  pub new_entries :
      (e n j : ℕ)
      → role e ≡ unowned
      → role' e ≡ listing n
      → j < num_dirents
      → valid (g.block e) j ≡ false

module _ {d g : Disk} {role role' : ℕ → Role} {inum entries i k : ℕ} (t : IsTree d role)
    (a : Adds d g role role' inum entries i k) where
  EntryGrows-other :
      (j : ℕ) → j ≢ k → EntryGrows role' entries (d.block entries) (g.block entries) j
  EntryGrows-other j ne = elim (Bool-cases (valid (d.block entries) j)) [
    | inl used ↦ inr (
        inl (
          used,
          ap (λ w. w / 2) (SameEntry-word j (a.others j ne)),
          SameEntry-IsNamed j (a.others j ne),
        ))
    | inr unused ↦ inl (ap (λ w. w % 2 == 1) (SameEntry-word j (a.others j ne)) ∙ unused)
  ]

  grown :
      (e m j : ℕ)
      → role e ≡ listing m
      → j < num_dirents
      → EntryGrows role' e (d.block e) (g.block e) j
  grown e m j at lt = elim (Bool-cases (e == entries)) [
    | inr ne ↦ EntryGrows-same role' j (
        a.same_files e (λ f. false≢true (sym ne ∙ rw (f, ==-refl entries) refl))
          (listing-Marked t at))
    | inl here ↦
        subst (λ l. EntryGrows role' l (d.block l) (g.block l) j) (sym (==→eq e entries here))
          (elim (Bool-cases (j == k)) [
            | inr ne ↦ EntryGrows-other j (λ f. false≢true (sym ne ∙ rw (f, ==-refl k) refl))
            | inl same ↦
                subst (EntryGrows role' entries (d.block entries) (g.block entries))
                  (sym (==→eq j k same)) (inr (inr (ap role' a.names ∙ a.named, a.has_name)))
          ])
  ]

  inode_stays : (m : ℕ) → IsInode (role m) → g.block m ≡ d.block m
  inode_stays m inode =
      a.same_files m (λ f. listing-ne-inode role a.is_listing inode (sym f))
        (inode-Marked t m inode)

  pub Adds-Consistent : Consistent g
  Adds-Consistent = record {
    role = role';
    is_tree = Grows-IsTree t (record {
      not_smaller = a.not_smaller;
      still_used = a.still_used;
      roles = a.roles;
      inodes = λ m inode. (
        ap is_dir (inode_stays m inode),
        subst (Node role' m) (sym (inode_stays m inode))
            (Node-stays role role' a.roles (t.node m inode)),
      );
      new_inodes = a.new_inodes;
      entries = grown;
      new_entries = a.new_entries;
    });
  }

-- A block that the map says is free has no role.
pub free-unowned :
    {d : Disk} {role : ℕ → Role} (t : IsTree d role) (l : ℕ) → in_use d l ≡ false → role l ≡ unowned
free-unowned t l free = elim (t.owned l) [
  | inl nothing ↦ nothing
  | inr m ↦ absurd (false≢true (sym free ∙ m.used))
]

pub Marked-ne-free : {d : Disk} {l i : ℕ} → Marked d l → in_use d i ≡ false → l ≢ i
Marked-ne-free {d} m free f = false≢true (sym free ∙ ap (in_use d) (sym f) ∙ m.used)

pub no_less : (a b : ℕ) → ((l : ℕ) → l < a → l < b) → a ≤ b
no_less a b h = elim (Bool-cases (leb a b)) [
  | inl le ↦ ground (arith, le)
  | inr more ↦ absurd (omega (arith, h b (ground (arith, more))))
]

pub behind_map : {d : Disk} {l : ℕ} → Marked d l → l ≢ 1
behind_map m e = absurd (omega (arith, m.range))

-- The kind of a new inode.
pub new_kind :
    {node : Block} {ctx : Context} {permissions bytes : ℕ} (q : ℕ)
    → IsNew node ctx permissions (q * 2 ^ 12) bytes
    → q < 16
    → is_dir node ≡ (q == 4)
unfolding is_dir
new_kind {permissions} q new lt =
    let same : mode _ / 2 ^ 12 % 2 ^ 4 ≡ q = omega (arith, new.has_mode) in ap (λ m. m == 4) same

-- A text that `strcmp` finds ends with a NUL.
same_text-end : (s : Text) (b : Block) (o : ℕ) → same_text s b o ≡ true → byte b (o + length s) ≡ 0
unfolding same_text
same_text-end [] b o same = ground (arith, same)
same_text-end (c ∷ s) b o same =
    let next : o + 1 + length s ≡ o + length (c ∷ s) = omega arith in
    subst (λ i. byte b i ≡ 0) next (same_text-end s b (o + 1) (ground (arith, same)))

pub IsFilled-IsNamed :
    {dirs new : Block} {k : ℕ} {name : Text} {n : ℕ}
    → length name ≤ 27
    → IsFilled dirs new k name n
    → IsNamed new k
IsFilled-IsNamed {new = new} {k} {name} short f =
    (length name, omega arith, same_text-end name new (name_at k) f.named)
