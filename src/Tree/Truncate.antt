-- ===== src/Tree/Truncate.antt =====
-- `fs_truncate` keeps an image consistent.
use unix_like_file_system.Base.{
  ℕ, ◌/◌, ◌%◌, ◌^◌, ◌<◌, ◌≡◌, ◌≢◌, refl, sym, ap, ◌∙◌, inl, inr, Bool, true, false, arith,
  Bool-cases, ◌==◌, ==→eq, ==-refl,
}
use mathlib.Core.Path.{subst}
use mathlib.Core.Bool.{false≢true}
use unix_like_file_system.Block.Words.{get_u32_cong}
use unix_like_file_system.Disk.{Disk, Outcome, done, failed, aborted, fault, eopnotsupp}
use unix_like_file_system.Inode.{num_dirents, size, is_dir, rounds_up, valid, entry_inode}
use unix_like_file_system.Path.{Text}
use unix_like_file_system.Lookup.{root_inum}
use unix_like_file_system.Attr.{inode_of}
use unix_like_file_system.Attr.Named.{Named, inode_of-done, inode_of-failed}
use unix_like_file_system.Content.{fs_truncate}
use unix_like_file_system.Content.Free.{
  among, among-Marks, among-ptr, Truncated, Truncates, fs_truncate-Truncates,
}
use unix_like_file_system.Tree.{
  Role, listing, content, IsInode, Marked, IsNamed, IsTree, Consistent, Keeps,
}
use unix_like_file_system.Tree.Apart.{listing≢content, content_inj, not_true}
use unix_like_file_system.Tree.Shrink.{drop, Stays, EntryStays, Shrinks-IsTree}
use unix_like_file_system.Tree.Looks.{IsNormal, leads, misses, path-Looks}
use unix_like_file_system.Tree.Find.{listing-Marked, inode-Marked, file-InMap}
use unix_like_file_system.Tree.Change.{listing-ne-inode, unchanged}

module _ {d g : Disk} {role : ℕ → Role} (t : IsTree d role) {n : ℕ} (is : IsInode (role n))
    (file : is_dir (d.block n) ≡ false)
    (r : Truncated d g n (among (rounds_up (size (d.block n))) 0 (d.block n)) (d.block n)) where
  abbrev gone : ℕ → Bool
  gone l = among (rounds_up (size (d.block n))) 0 (d.block n) l

  gone-content : (l : ℕ) → gone l ≡ true → (i : ℕ) × (role l ≡ content n i)
  gone-content l lost =
      let (q, low, high, same) = among-ptr (rounds_up (size (d.block n))) 0 (d.block n) l lost in
      (q, ap role (sym same) ∙ (t.node n is).contents file q (omega arith))

  -- Blocks of the file `n` are no inodes, no entry blocks, and not blocks of another file.
  inode_stays : (l : ℕ) → IsInode (role l) → gone l ≡ false
  inode_stays l inode = not_true λ lost. let (i, h) = gone-content l lost in subst IsInode h inode

  listing_stays : (l m : ℕ) → role l ≡ listing m → gone l ≡ false
  listing_stays l m at =
      not_true λ lost. let (i, h) = gone-content l lost in listing≢content (sym at ∙ h)

  content_stays : (l m i : ℕ) → m ≢ n → role l ≡ content m i → gone l ≡ false
  content_stays l m i ne at =
      not_true λ lost. let (j, h) = gone-content l lost in ne (content_inj (sym at ∙ h)).0

  still_file : is_dir (g.block n) ≡ false
  unfolding is_dir
  still_file =
      ap (λ m. m / 2 ^ 12 % 2 ^ 4 == 4)
        (get_u32_cong (g.block n) (d.block n) 4 (r.same_fields 4 (omega arith))
          (r.same_fields 5 (omega arith)) (r.same_fields 6 (omega arith))
          (r.same_fields 7 (omega arith)))
      ∙ file

  truncated-Stays : Stays gone (d.block n) (g.block n)
  unfolding rounds_up
  truncated-Stays = record {
    same_dir = still_file ∙ sym file;
    directory = λ dir. absurd (false≢true (sym file ∙ dir));
    fits = λ f. omega (arith, r.empty);
    contents = λ f i lt. absurd (omega (arith, subst (λ s. i < rounds_up s) r.empty lt));
  }

  behind_map : {l : ℕ} → Marked d l → l ≢ 1
  behind_map m e = absurd (omega (arith, m.range))

  stays : (m : ℕ) → IsInode (role m) → Stays gone (d.block m) (g.block m)
  stays m inode = elim (Bool-cases (m == n)) [
    | inl e ↦ subst (λ l. Stays gone (d.block l) (g.block l)) (sym (==→eq m n e)) truncated-Stays
    | inr other ↦
        let ne : m ≢ n = λ f. false≢true (sym other ∙ rw (f, ==-refl n) refl) in
        let marked = inode-Marked t m inode in
        let node = t.node m inode in
        subst (Stays gone (d.block m)) (sym (r.same_files m (behind_map marked) ne marked.inside))
          (record {
            same_dir = refl;
            directory = λ dir. (refl, listing_stays _ m (node.directory dir));
            fits = node.fits;
            contents = λ f i lt. (lt, refl, content_stays _ m i ne (node.contents f i lt));
          })
  ]

  entry_stays :
      (e m j : ℕ) → role e ≡ listing m → j < num_dirents → EntryStays gone (d.block e) (g.block e) j
  entry_stays e m j at lt =
      let marked = listing-Marked t at in
      let same = r.same_files e (behind_map marked) (listing-ne-inode role at is) marked.inside in
      elim (Bool-cases (valid (d.block e) j)) [
        | inl used ↦ inr (
          used,
          ap (λ b. entry_inode b j) same,
          inode_stays _ (subst IsInode (sym (t.entry e m j at lt used)) tt),
          subst (λ b. IsNamed b j) (sym same),
        )
        | inr unused ↦ inl (ap (λ b. valid b j) same ∙ unused)
      ]

  Truncated-Consistent : Consistent g
  Truncated-Consistent = record {
    role = drop gone role;
    is_tree = Shrinks-IsTree t (record {
      not_smaller = omega (arith, r.same_blocks);
      still_used = λ l there was. r.freed l ∙ rw (there, was) refl;
      root_stays = inode_stays root_inum (subst IsInode (sym t.root_there) tt);
      nodes = λ m inode there. stays m inode;
      entries = λ e m j at there lt. entry_stays e m j at lt;
    });
  }

module _ {d : Disk} {role : ℕ → Role} (t : IsTree d role) where
  Truncates-Keeps :
      (n : ℕ)
      → IsInode (role n)
      → is_dir (d.block n) ≡ false
      → (r : Outcome (Unit {0}))
      → Truncates d n (among (rounds_up (size (d.block n))) 0 (d.block n)) (d.block n) r
      → Keeps r
  Truncates-Keeps n is file (done u g) h = Truncated-Consistent t is file h
  Truncates-Keeps n is file (failed e g) h = absurd h
  Truncates-Keeps n is file (aborted g) h = absurd h
  Truncates-Keeps n is file fault h = absurd h

  pub truncated :
      {path : Text} {n : ℕ}
      → IsInode (role n)
      → is_dir (d.block n) ≡ false
      → Named d path n (d.block n)
      → Truncates d n
          (among (rounds_up (size (d.block n))) 0 (d.block n))
          (d.block n)
          (fs_truncate path true d)
  truncated {path} {n} is file named =
      let node = t.node n is in
      let m = inode-Marked t n is in
      fs_truncate-Truncates d path n (d.block n) named _ (among-Marks (d.block n) (node.fits file))
        file (node.fits file) (file-InMap t n is file) m.range.0 (omega (arith, m.range))
        t.map_there

  -- In a consistent image, `fs_truncate` of a path as FUSE passes it, whether it returns, with or
  -- without an error, or is stopped by an assertion, leaves a consistent image.
  pub fs_truncate-Keeps :
      {path : Text} (len_is_zero : Bool) → IsNormal path → Keeps (fs_truncate path len_is_zero d)
  unfolding fs_truncate inode_of
  fs_truncate-Keeps {path} false normal = unchanged t
  fs_truncate-Keeps {path} true normal = elim (path-Looks t normal) [
    | leads n named is m ↦ elim (Bool-cases (is_dir (d.block n))) [
      | inl directory ↦ rw (inode_of-done eopnotsupp named, directory) (unchanged t)
      | inr file ↦ Truncates-Keeps n is file _ (truncated is file named)
    ]
    | misses e found ↦ rw (inode_of-failed path eopnotsupp found) (unchanged t)
  ]
