-- ===== src/Tree/NewDir.antt =====
-- An image with one more directory, as `fs_mkdir` leaves it.
use unix_like_file_system.Base.{
  ℕ, ◌^◌, ◌≤◌, ◌≡◌, refl, sym, ap, ◌∙◌, ◌⊎◌, inl, inr, false, arith, Bool-cases, ◌==◌, ==→eq,
  ==-refl, if◌then◌else◌, length,
}
use mathlib.Core.Path.{subst}
use mathlib.Core.Bool.{false≢true}
use unix_like_file_system.Block.{Block, get_u32}
use unix_like_file_system.Disk.{Disk}
use unix_like_file_system.Bitmap.Alloc.{in_use}
use unix_like_file_system.Inode.{valid, entry_inode}
use unix_like_file_system.Inode.Entries.{SameEntry}
use unix_like_file_system.Path.{Text}
use unix_like_file_system.Entry.{Context}
use unix_like_file_system.Entry.MadeDir.{MadeDir}
use unix_like_file_system.Entry.Make.{IsNew}
use unix_like_file_system.Tree.{
  Role, unowned, child, listing, IsInode, Marked, Node, IsNamed, IsTree, Consistent,
}
use unix_like_file_system.Tree.Apart.{child≢listing, listing≢unowned}
use unix_like_file_system.Tree.Added.{
  IsFilled-IsNamed, Adds-Consistent, free-unowned, Marked-ne-free, no_less, behind_map, new_kind,
}

module _ {d g : Disk} {role : ℕ → Role} (t : IsTree d role) {name : Text} {inum entries i e k : ℕ}
    {node : Block} (is : role entries ≡ listing inum) (short : length name ≤ 27) {ctx : Context}
    {permissions : ℕ} (c : MadeDir d g name entries i e k (d.block entries) node)
    (new : IsNew node ctx permissions (2 ^ 14) 4096) where
  abbrev dir_role : ℕ → Role
  dir_role l = if i == l then child entries k else if e == l then listing i else role l

  dir_there : dir_role i ≡ child entries k
  dir_there = rw (==-refl i) refl

  listing_there : dir_role e ≡ listing i
  listing_there = elim (Bool-cases (i == e)) [
    | inl same ↦ absurd (c.new_blocks.2 (==→eq i e same))
    | inr ne ↦ rw (ne, ==-refl e) refl
  ]

  -- A block whose role changes is one of the two new ones.
  dir_cases :
      (l : ℕ) → (dir_role l ≡ role l) ⊎ (((i ≡ l) ⊎ (e ≡ l)) × (role l ≡ unowned) × Marked g l)
  dir_cases l = elim (Bool-cases (i == l)) [
    | inl at ↦
        let same = ==→eq i l at in
        inr (
          inl same,
          free-unowned t l (ap (in_use d) (sym same) ∙ c.were_free.2),
          subst (Marked g) same (record {
            used = c.marks i ∙ ground arith;
            range = (omega (arith, c.were_free), c.new_blocks.0);
            inside = c.node_there.inside;
          }),
        )
    | inr ne ↦ elim (Bool-cases (e == l)) [
      | inr ne' ↦ inl (rw (ne, ne') refl)
      | inl at ↦
          let same = ==→eq e l at in
          inr (
            inr same,
            free-unowned t l (ap (in_use d) (sym same) ∙ c.were_free.3),
            subst (Marked g) same (record {
              used = c.marks e ∙ ground arith;
              range = (omega (arith, c.were_free), c.new_blocks.1);
              inside = c.no_entries.inside;
            }),
          )
    ]
  ]

  dir_node : Node dir_role i node
  dir_node = record {
    directory = λ dir. ap dir_role c.points ∙ listing_there;
    fits = λ f. absurd (false≢true (sym f ∙ new_kind 4 new (omega arith)));
    contents = λ f j lt. absurd (false≢true (sym f ∙ new_kind 4 new (omega arith)));
  }

  no_entry : (j : ℕ) → valid (g.block e) j ≡ false
  unfolding get_u32
  no_entry j = ap (λ b. valid b j) c.no_entries.content ∙ ground arith

  pub MadeDir-Consistent : Consistent g
  MadeDir-Consistent = Adds-Consistent {role' = dir_role} t (record {
    not_smaller = no_less d.blocks g.blocks c.not_smaller;
    still_used = λ l used. c.marks l ∙ ground (arith, used);
    roles =
        λ l. elim (dir_cases l) [ inl same ↦ inl same | inr (at, nothing, m) ↦ inr (nothing, m) ];
    is_listing = is;
    same_files = λ l ne m.
        c.same_files l (behind_map m) (Marked-ne-free m c.were_free.2)
          (Marked-ne-free m c.were_free.3) ne m.inside;
    new_inodes = λ n nothing inode. elim (dir_cases n) [
      | inl same ↦ absurd (subst IsInode (same ∙ nothing) inode)
      | inr (inl at, nothing', m) ↦
          subst (λ l. Node dir_role l (g.block l)) at
            (subst (Node dir_role i) (sym c.node_there.content) dir_node)
      | inr (inr at, nothing', m) ↦
          absurd (subst IsInode (ap dir_role (sym at) ∙ listing_there) inode)
    ];
    names = ap (λ b. entry_inode b k) c.dirs_there.content ∙ c.entry.number;
    named = dir_there;
    has_name = subst (λ b. IsNamed b k) (sym c.dirs_there.content) (IsFilled-IsNamed short c.entry);
    others = λ j ne.
        subst (λ b. SameEntry b (d.block entries) j) (sym c.dirs_there.content)
          (c.entry.others j ne);
    new_entries = λ l n j nothing at lt. elim (dir_cases l) [
      | inl same ↦ absurd (listing≢unowned (sym at ∙ same ∙ nothing))
      | inr (inl same, nothing', m) ↦ absurd (child≢listing (sym dir_there ∙ ap dir_role same ∙ at))
      | inr (inr same, nothing', m) ↦ ap (λ b. valid (g.block b) j) (sym same) ∙ no_entry j
    ];
  })
