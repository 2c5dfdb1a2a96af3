-- ===== src/Tree/Dropped.antt =====
-- What `fs_unlink` and `fs_rmdir` leave: an image without the blocks of what was removed.
use unix_like_file_system.Base.{
  ℕ, ◌+◌, ◌*◌, ◌/◌, ◌%◌, ◌^◌, ◌≤◌, ◌<◌, ◌≡◌, ◌≢◌, refl, sym, ap, ◌∙◌, ◌⊎◌, inl, inr, Bool, true,
  false, arith, Bool-cases, ◌==◌, ==→eq, ==-refl,
}
use mathlib.Core.Path.{subst}
use mathlib.Core.Bool.{false≢true}
use unix_like_file_system.Block.{Block, set_u32, get_u32}
use unix_like_file_system.Block.Words.{get_u32_cong, set_u32-outside}
use unix_like_file_system.Disk.{Disk}
use unix_like_file_system.Inode.{num_dirents, ptr, is_dir, rounds_up, valid, entry_inode, name_at}
use unix_like_file_system.Inode.Entries.{SameEntry, SameEntry-word}
use unix_like_file_system.Lookup.{root_inum}
use unix_like_file_system.Remove.Dropped.{Removed}
use unix_like_file_system.Tree.{
  Role, root, child, listing, content, IsInode, Marked, IsNamed, IsTree, Consistent,
}
use unix_like_file_system.Tree.Apart.{
  child≢listing, child≢content, listing≢content, child_inj, listing_inj, content_inj, not_true,
}
use unix_like_file_system.Tree.Shrink.{drop, Stays, EntryStays, Shrinks-IsTree}
use unix_like_file_system.Tree.Find.{Entry, Entry-child, entries_of, inode-Marked, listing-Marked}
use unix_like_file_system.Tree.Change.{Alike, Alike-refl, listing-ne-inode}

-- The block is the inode `n`, or one that it points to.
abbrev pub IsPart : (ℕ → Role) → ℕ → ℕ → Type 0
IsPart role n l = (l ≡ n) ⊎ ((role l ≡ listing n) ⊎ ((i : ℕ) × (role l ≡ content n i)))

-- An inode with another `mtime`.
set_mtime-Alike : (b : Block) (now : ℕ) → Alike b (set_u32 b 12 now)
unfolding is_dir
set_mtime-Alike b now =
    let kept : (o : ℕ) → ((o + 4 ≤ 12) ⊎ (16 ≤ o)) → get_u32 (set_u32 b 12 now) o ≡ get_u32 b o =
      λ o apart.
        get_u32_cong (set_u32 b 12 now) b o (set_u32-outside b 12 now o (omega arith))
          (set_u32-outside b 12 now (o + 1) (omega arith))
          (set_u32-outside b 12 now (o + 2) (omega arith))
          (set_u32-outside b 12 now (o + 3) (omega arith)) in
    record {
      same_dir = ap (λ m. m / 2 ^ 12 % 2 ^ 4 == 4) (kept 4 (inl (omega arith)));
      same_size = kept 16 (inr (omega arith));
      same_ptr = λ i. kept (20 + 4 * i) (inr (omega arith));
    }

pub SameEntry-IsNamed : {b c : Block} (j : ℕ) → SameEntry b c j → IsNamed c j → IsNamed b j
SameEntry-IsNamed j same (p, lt, nul) =
    (p, lt, ap (λ v. v % 2 ^ 8) (same.same_bytes (name_at j + p) (omega arith) (omega arith)) ∙ nul)

SameEntry-same : {b c : Block} (j : ℕ) → b ≡ c → SameEntry b c j
SameEntry-same j same = record { same_bytes = λ i p q. ap (λ b. b i) same }

-- Entry `k` of the directory `inum`, which names the inode `n`, is cleared, and blocks of `n` that
-- include its inode are freed.
module _ {d g : Disk} {role : ℕ → Role} (t : IsTree d role) {inum slot n : ℕ}
    (p : Entry d role inum slot n) {now k : ℕ} {gone : ℕ → Bool}
    (r : Removed d g now inum k (d.block inum) (d.block (ptr (d.block inum) 0)) gone)
    (below : k < num_dirents) (used : valid (d.block (ptr (d.block inum) 0)) k ≡ true)
    (number : entry_inode (d.block (ptr (d.block inum) 0)) k ≡ n)
    (parts : (l : ℕ) → gone l ≡ true → IsPart role n l) (whole : gone n ≡ true) where
  abbrev entries_at : ℕ
  entries_at = ptr (d.block inum) 0

  its_role : role n ≡ child entries_at k
  its_role = Entry-child t (record {
    is_inode = p.is_inode;
    directory = p.directory;
    below = below;
    used = used;
    number = number;
  })

  entries_role : role entries_at ≡ listing inum
  entries_role = entries_of t inum p.is_inode p.directory

  -- An inode that stays has none of its blocks freed.
  listing_stays : (m l : ℕ) → gone m ≡ false → role l ≡ listing m → gone l ≡ false
  listing_stays m l there is = not_true λ lost. elim (parts l lost) [
    | inl e ↦ child≢listing (sym its_role ∙ ap role (sym e) ∙ is)
    | inr (inl h) ↦ false≢true (sym there ∙ ap gone (listing_inj (sym is ∙ h)) ∙ whole)
    | inr (inr (i, h)) ↦ listing≢content (sym is ∙ h)
  ]

  content_stays : (m i l : ℕ) → gone m ≡ false → role l ≡ content m i → gone l ≡ false
  content_stays m i l there is = not_true λ lost. elim (parts l lost) [
    | inl e ↦ child≢content (sym its_role ∙ ap role (sym e) ∙ is)
    | inr (inl h) ↦ listing≢content (sym h ∙ is)
    | inr (inr (j, h)) ↦ false≢true (sym there ∙ ap gone (content_inj (sym is ∙ h)).0 ∙ whole)
  ]

  -- The only inode that is freed is `n`.
  inode_stays : (e j l : ℕ) → role l ≡ child e j → ((e ≡ entries_at) → (j ≡ k) → ⊥) → gone l ≡ false
  inode_stays e j l is other = not_true λ lost. elim (parts l lost) [
    | inl at ↦ let (a, b) = child_inj (sym is ∙ ap role at ∙ its_role) in other a b
    | inr (inl h) ↦ child≢listing (sym is ∙ h)
    | inr (inr (i, h)) ↦ child≢content (sym is ∙ h)
  ]

  root_stays : gone root_inum ≡ false
  root_stays = not_true λ lost. elim (parts root_inum lost) [
    | inl at ↦ root≢child (sym t.root_there ∙ ap role at ∙ its_role)
    | inr (inl h) ↦ root≢listing (sym t.root_there ∙ h)
    | inr (inr (i, h)) ↦ root≢content (sym t.root_there ∙ h)
  ]
    where
      root≢child : {e j : ℕ} → root ≢ child e j
      root≢child h = cc

      root≢listing : {m : ℕ} → root ≢ listing m
      root≢listing h = cc

      root≢content : {m i : ℕ} → root ≢ content m i
      root≢content h = cc

  behind_map : {l : ℕ} → Marked d l → l ≢ 1
  behind_map m e = absurd (omega (arith, m.range))

  inode-Alike : (m : ℕ) → IsInode (role m) → Alike (d.block m) (g.block m)
  inode-Alike m is = elim (Bool-cases (m == inum)) [
    | inl e ↦
        subst (λ l. Alike (d.block l) (g.block l)) (sym (==→eq m inum e))
          (subst (Alike (d.block inum)) (sym r.stamped.content)
            (set_mtime-Alike (d.block inum) now))
    | inr ne ↦
        let marked = inode-Marked t m is in
        subst (Alike (d.block m))
          (sym (
            r.same_files m (behind_map marked)
              (λ f. false≢true (sym ne ∙ rw (f, ==-refl inum) refl))
              (λ f. listing-ne-inode role entries_role is (sym f)) marked.inside))
          (Alike-refl (d.block m))
  ]

  stays : (m : ℕ) → IsInode (role m) → gone m ≡ false → Stays gone (d.block m) (g.block m)
  stays m is there =
      let alike = inode-Alike m is in
      let node = t.node m is in
      record {
        same_dir = alike.same_dir;
        directory = λ dir. (alike.same_ptr 0, listing_stays m _ there (node.directory dir));
        fits = λ file. omega (arith, node.fits file, alike.same_size);
        contents = λ file i lt.
            let lt' = subst (λ s. i < rounds_up s) alike.same_size lt in
            (lt', alike.same_ptr i, content_stays m i _ there (node.contents file i lt'));
      }

  same_entry :
      (e m j : ℕ)
      → role e ≡ listing m
      → j < num_dirents
      → ((e ≡ entries_at) → (j ≡ k) → ⊥)
      → SameEntry (g.block e) (d.block e) j
      → EntryStays gone (d.block e) (g.block e) j
  same_entry e m j is lt other entry =
      let same = SameEntry-word j entry in
      elim (Bool-cases (valid (g.block e) j)) [
        | inl v ↦
            let v' : valid (d.block e) j ≡ true = ap (λ w. w % 2 == 1) (sym same) ∙ v in
            inr (
              v',
              ap (λ w. w / 2) same,
              inode_stays e j _ (t.entry e m j is lt v') other,
              SameEntry-IsNamed j entry,
            )
        | inr v ↦ inl v
      ]

  entry_stays :
      (e m j : ℕ) → role e ≡ listing m → j < num_dirents → EntryStays gone (d.block e) (g.block e) j
  entry_stays e m j is lt = elim (Bool-cases (e == entries_at)) [
    | inl at ↦
        let here = ==→eq e entries_at at in
        let new : g.block e ≡ r.new_dirs = ap g.block here ∙ r.dirs_there.content in
        elim (Bool-cases (j == k)) [
          | inl same ↦
              inl (ap (λ b. valid b j) new ∙ ap (valid r.new_dirs) (==→eq j k same) ∙ r.cleared)
          | inr ne ↦
              let differ : j ≢ k = λ f. false≢true (sym ne ∙ rw (f, ==-refl k) refl) in
              same_entry e m j is lt (λ a b. differ b)
                (subst (λ l. SameEntry (g.block e) (d.block l) j) (sym here)
                  (subst (λ b. SameEntry b (d.block entries_at) j) (sym new) (r.others j differ)))
        ]
    | inr ne ↦
        let differ : e ≢ entries_at = λ f. false≢true (sym ne ∙ rw (f, ==-refl entries_at) refl) in
        let marked = listing-Marked t is in
        same_entry e m j is lt (λ a b. differ a)
          (SameEntry-same j (
            r.same_files e (behind_map marked) (listing-ne-inode role is p.is_inode) differ
              marked.inside))
  ]

  pub Removed-Consistent : Consistent g
  Removed-Consistent = record {
    role = drop gone role;
    is_tree = Shrinks-IsTree t (record {
      not_smaller = r.not_smaller;
      still_used = λ l there was. r.freed l ∙ rw (there, was) refl;
      root_stays = root_stays;
      nodes = stays;
      entries = λ e m j is there lt. entry_stays e m j is lt;
    });
  }
