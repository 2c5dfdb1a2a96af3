-- ===== src/Tree/Grow.antt =====
-- Images in which blocks that had no role get one.
use unix_like_file_system.Base.{
  ℕ, ◌≤◌, ◌<◌, ◌≡◌, ◌≢◌, ◌⊎◌, inl, inr, sym, ap, ◌∙◌, true, false, arith, Bool-cases,
}
use mathlib.Core.Path.{subst}
use mathlib.Core.Bool.{false≢true}
use unix_like_file_system.Block.{Block}
use unix_like_file_system.Disk.{Disk}
use unix_like_file_system.Bitmap.Alloc.{in_use}
use unix_like_file_system.Inode.{num_dirents, is_dir, valid, entry_inode}
use unix_like_file_system.Lookup.{root_inum}
use unix_like_file_system.Tree.Apart.{listing≢unowned, content≢unowned}
use unix_like_file_system.Tree.{
  Role, unowned, root, child, listing, IsInode, Marked, Node, IsNamed, IsTree,
}

-- The block has the role that it had, or it had none and can have one.
abbrev pub RoleStays : (ℕ → Role) → (ℕ → Role) → Disk → ℕ → Type 0
RoleStays role role' g l = (role' l ≡ role l) ⊎ ((role l ≡ unowned) × Marked g l)

-- Entry `k` is unused, or it is as it was, or it names an inode that has its role.
abbrev pub EntryGrows : (ℕ → Role) → ℕ → Block → Block → ℕ → Type 0
EntryGrows role' e dirs dirs' k =
    (valid dirs' k ≡ false)
    ⊎ (((valid dirs k ≡ true)
          × (entry_inode dirs' k ≡ entry_inode dirs k)
          × (IsNamed dirs k → IsNamed dirs' k))
        ⊎ ((role' (entry_inode dirs' k) ≡ child e k) × IsNamed dirs' k))

-- What has to be shown of an image in which more blocks have roles.
pub record Grows (d g : Disk) (role role' : ℕ → Role) : Type 0 where
  pub not_smaller : d.blocks ≤ g.blocks
  pub still_used : (l : ℕ) → in_use d l ≡ true → in_use g l ≡ true
  pub roles : (l : ℕ) → RoleStays role role' g l
  pub inodes :
      (n : ℕ)
      → IsInode (role n)
      → (is_dir (g.block n) ≡ is_dir (d.block n)) × Node role' n (g.block n)
  pub new_inodes : (n : ℕ) → role n ≡ unowned → IsInode (role' n) → Node role' n (g.block n)
  pub entries :
      (e n k : ℕ)
      → role e ≡ listing n
      → k < num_dirents
      → EntryGrows role' e (d.block e) (g.block e) k
  pub new_entries :
      (e n k : ℕ)
      → role e ≡ unowned
      → role' e ≡ listing n
      → k < num_dirents
      → valid (g.block e) k ≡ false

module _ {g : Disk} (role role' : ℕ → Role) (roles : (l : ℕ) → RoleStays role role' g l) where
  -- A role that was there stays.
  pub role_stays : {l : ℕ} {r : Role} → role l ≡ r → r ≢ unowned → role' l ≡ r
  role_stays {l} is has = elim (roles l) [
    | inl same ↦ same ∙ is
    | inr (none_yet, m) ↦ absurd (has (sym is ∙ none_yet))
  ]

  -- An inode that was there, and points to the blocks that it pointed to.
  pub Node-stays : {n : ℕ} {b : Block} → Node role n b → Node role' n b
  Node-stays node = record {
    directory = λ is. role_stays (node.directory is) listing≢unowned;
    fits = node.fits;
    contents = λ file i lt. role_stays (node.contents file i lt) content≢unowned;
  }

-- An entry block that is as it was.
pub EntryGrows-same :
    (role' : ℕ → Role) {e : ℕ} {dirs dirs' : Block} (k : ℕ)
    → dirs' ≡ dirs
    → EntryGrows role' e dirs dirs' k
EntryGrows-same role' {dirs = dirs} k same = elim (Bool-cases (valid dirs k)) [
  | inl used ↦ inr (inl (used, ap (λ b. entry_inode b k) same, subst (λ b. IsNamed b k) (sym same)))
  | inr unused ↦ inl (ap (λ b. valid b k) same ∙ unused)
]

module _ {d g : Disk} {role role' : ℕ → Role} (t : IsTree d role) (s : Grows d g role role') where
  root_stays : role' root_inum ≡ root
  root_stays = role_stays role role' s.roles t.root_there root≢unowned
    where
      root≢unowned : root ≢ unowned
      root≢unowned f = cc

  child_stays : {l e k : ℕ} → role l ≡ child e k → role' l ≡ child e k
  child_stays {l} {e} {k} is = role_stays role role' s.roles is child≢unowned
    where
      child≢unowned : child e k ≢ unowned
      child≢unowned f = cc

  owned : (l : ℕ) → (role' l ≡ unowned) ⊎ Marked g l
  owned l = elim (s.roles l) [
    | inr (none_yet, m) ↦ inr m
    | inl same ↦ elim (t.owned l) [
      | inl nothing ↦ inl (same ∙ nothing)
      | inr m ↦ inr (record {
        used = s.still_used l m.used;
        range = m.range;
        inside = omega (arith, m.inside, s.not_smaller);
      })
    ]
  ]

  node : (n : ℕ) → IsInode (role' n) → Node role' n (g.block n)
  node n is = elim (s.roles n) [
    | inl same ↦ (s.inodes n (subst IsInode same is)).1
    | inr (none_yet, m) ↦ s.new_inodes n none_yet is
  ]

  entry :
      (e n k : ℕ)
      → role' e ≡ listing n
      → k < num_dirents
      → valid (g.block e) k ≡ true
      → role' (entry_inode (g.block e) k) ≡ child e k
  entry e n k is lt v = elim (s.roles e) [
    | inr (none_yet, m) ↦ absurd (false≢true (sym (s.new_entries e n k none_yet is lt) ∙ v))
    | inl same ↦ elim (s.entries e n k (sym same ∙ is) lt) [
      | inl unused ↦ absurd (false≢true (sym unused ∙ v))
      | inr (inl (used, number, names)) ↦
          ap role' number ∙ child_stays (t.entry e n k (sym same ∙ is) lt used)
      | inr (inr (named, name)) ↦ named
    ]
  ]

  named :
      (e n k : ℕ)
      → role' e ≡ listing n
      → k < num_dirents
      → valid (g.block e) k ≡ true
      → IsNamed (g.block e) k
  named e n k is lt v = elim (s.roles e) [
    | inr (none_yet, m) ↦ absurd (false≢true (sym (s.new_entries e n k none_yet is lt) ∙ v))
    | inl same ↦ elim (s.entries e n k (sym same ∙ is) lt) [
      | inl unused ↦ absurd (false≢true (sym unused ∙ v))
      | inr (inl (used, number, names)) ↦ names (t.named e n k (sym same ∙ is) lt used)
      | inr (inr (at, name)) ↦ name
    ]
  ]

  pub Grows-IsTree : IsTree g role'
  Grows-IsTree = record {
    map_there = omega (arith, t.map_there, s.not_smaller);
    owned = owned;
    root_there = root_stays;
    root_dir = (s.inodes root_inum (subst IsInode (sym t.root_there) tt)).0 ∙ t.root_dir;
    node = node;
    entry = entry;
    named = named;
  }
