-- ===== src/Tree/NewFile.antt =====
-- An image with one more file, as `fs_create` leaves it.
use unix_like_file_system.Base.{
  ℕ, ◌^◌, ◌≤◌, ◌<◌, ◌≡◌, refl, sym, ap, ◌∙◌, ◌⊎◌, inl, inr, arith, Bool-cases, ◌==◌, ==→eq, ==-refl,
  if◌then◌else◌, length,
}
use mathlib.Core.Path.{subst}
use mathlib.Core.Bool.{false≢true}
use unix_like_file_system.Block.{Block}
use unix_like_file_system.Disk.{Disk}
use unix_like_file_system.Bitmap.Alloc.{in_use}
use unix_like_file_system.Inode.{size, rounds_up, entry_inode}
use unix_like_file_system.Inode.Entries.{SameEntry}
use unix_like_file_system.Path.{Text}
use unix_like_file_system.Entry.{Context}
use unix_like_file_system.Entry.Create.{Created}
use unix_like_file_system.Entry.Make.{IsNew}
use unix_like_file_system.Tree.{
  Role, unowned, child, listing, IsInode, Marked, Node, IsNamed, IsTree, Consistent,
}
use unix_like_file_system.Tree.Apart.{child≢listing, listing≢unowned}
use unix_like_file_system.Tree.Added.{
  IsFilled-IsNamed, Adds-Consistent, free-unowned, Marked-ne-free, no_less, behind_map, new_kind,
}

module _ {d g : Disk} {role : ℕ → Role} (t : IsTree d role) {name : Text} {inum entries i k : ℕ}
    {node : Block} (is : role entries ≡ listing inum) (short : length name ≤ 27) {ctx : Context}
    {permissions : ℕ} (c : Created d g name inum entries i k (d.block entries) node)
    (new : IsNew node ctx permissions (2 ^ 15) 0) where
  abbrev file_role : ℕ → Role
  file_role l = if i == l then child entries k else role l

  file_there : file_role i ≡ child entries k
  file_there = rw (==-refl i) refl

  -- A block whose role changes is the new inode's.
  file_cases : (l : ℕ) → (file_role l ≡ role l) ⊎ ((i ≡ l) × (role l ≡ unowned) × Marked g l)
  file_cases l = elim (Bool-cases (i == l)) [
    | inr ne ↦ inl (rw ne refl)
    | inl at ↦
        let same = ==→eq i l at in
        inr (
          same,
          free-unowned t l (ap (in_use d) (sym same) ∙ c.new_block.2),
          subst (Marked g) same (record {
            used = c.marks i ∙ rw (==-refl i) refl;
            range = (omega (arith, c.new_block.0), c.new_block.1);
            inside = c.node_there.inside;
          }),
        )
  ]

  file_node : Node file_role i node
  unfolding rounds_up
  file_node =
      let bytes : size node ≡ 0 = omega (arith, new.has_size) in
      record {
        directory = λ dir. absurd (false≢true (sym (new_kind 8 new (omega arith)) ∙ dir));
        fits = λ f. omega (arith, bytes);
        contents = λ f j lt. absurd (omega (arith, subst (λ s. j < rounds_up s) bytes lt));
      }

  pub Created-Consistent : Consistent g
  Created-Consistent = Adds-Consistent {role' = file_role} t (record {
    not_smaller = no_less d.blocks g.blocks c.not_smaller;
    still_used = λ l used. c.marks l ∙ ground (arith, used);
    roles =
        λ l. elim (file_cases l) [ inl same ↦ inl same | inr (at, nothing, m) ↦ inr (nothing, m) ];
    is_listing = is;
    same_files =
        λ l ne m. c.same_files l (behind_map m) (Marked-ne-free m c.new_block.2) ne m.inside;
    new_inodes = λ n nothing inode. elim (file_cases n) [
      | inl same ↦ absurd (subst IsInode (same ∙ nothing) inode)
      | inr (at, nothing', m) ↦
          subst (λ l. Node file_role l (g.block l)) at
            (subst (Node file_role i) (sym c.node_there.content) file_node)
    ];
    names = ap (λ b. entry_inode b k) c.dirs_there.content ∙ c.entry.number;
    named = file_there;
    has_name = subst (λ b. IsNamed b k) (sym c.dirs_there.content) (IsFilled-IsNamed short c.entry);
    others = λ j ne.
        subst (λ b. SameEntry b (d.block entries) j) (sym c.dirs_there.content)
          (c.entry.others j ne);
    new_entries = λ e n j nothing at lt. elim (file_cases e) [
      | inl same ↦ absurd (listing≢unowned (sym at ∙ same ∙ nothing))
      | inr (same, nothing', m) ↦ absurd (child≢listing (sym file_there ∙ ap file_role same ∙ at))
    ];
  })
