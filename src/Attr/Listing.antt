-- ===== src/Attr/Listing.antt =====
-- `fs_readdir` against `fs_getattr`.
use unix_like_file_system.Base.{
  ℕ, zero, suc, ◌<◌, ◌≡◌, refl, sym, inl, inr, true, List, [], ◌∷◌, ◌++◌, arith, Bool-cases,
}
use mathlib.Core.Path.{subst}
use mathlib.Core.List.{Memᴰ}
use unix_like_file_system.Block.{Block}
use unix_like_file_system.Disk.{Disk, Outcome, done, failed, aborted, fault, enoent, nat}
use unix_like_file_system.Disk.Reads.{block_read-Holds}
use unix_like_file_system.Inode.{num_dirents, is_dir, valid, entry_inode, name_at, same_text}
use unix_like_file_system.Path.{Text}
use unix_like_file_system.Path.Tokens.{slashed}
use unix_like_file_system.Lookup.Resolves.{HasEntry}
use unix_like_file_system.Lookup.Missing.{not_last}
use unix_like_file_system.Lookup.Behind.{Leads-Resolves}
use unix_like_file_system.Lookup.Paths.{path2inum-Resolves}
use unix_like_file_system.Attr.{
  Stat, Listing, inode2stat, fs_getattr, fs_readdir, existing_or_enoent,
}
use unix_like_file_system.Attr.Named.{Named, inode_of-done}
use unix_like_file_system.Attr.Shown.{Directory, IsListing, list_from-IsListing}
use unix_like_file_system.Attr.Texts.{same_text-IsTextAt, same_text-eq}

module _ {d : Disk} {names : List Text} {dir dirs : Block} {name : ℕ → Text} {node : ℕ → Block}
    (dr : Directory d names dir dirs name node) where
  module _ (k : ℕ) (below : k < num_dirents) (used : valid dirs k ≡ true) where
    entry_of : HasEntry dirs (name k) (entry_inode dirs k)
    entry_of = record {
      index = k;
      in_range = below;
      matches =
          rw (used, same_text-IsTextAt (name k) dirs (name_at k) (dr.has_name k below used)) refl;
      earlier = λ j lt. elim (Bool-cases (valid dirs j)) [
        | inr unused ↦ rw unused refl
        | inl used' ↦ elim (Bool-cases (same_text (name k) dirs (name_at j))) [
          | inr other ↦ rw (used', other) refl
          | inl same ↦
              let in_range : j < num_dirents = omega arith in
              let same_name : name j ≡ name k =
                same_text-eq (name j) (name k) dirs dirs (name_at j) (name_at k)
                  (dr.has_name j in_range used') (dr.has_name k below used) same in
              let same_place : j ≡ k = dr.distinct j k in_range below used' used same_name in
              absurd (omega arith)
        ]
      ];
      number = refl;
    }

    path-Named : Named d (slashed (names ++ name k ∷ [])) (entry_inode dirs k) (node k)
    path-Named = record {
      found =
          (path2inum-Resolves d dr.root_there (names ++ name k ∷ []) (entry_inode dirs k) d
              (dr.fits k below used) (not_last names (name k))).1
            (
              Leads-Resolves dr.leads
                  (record {
                    short = dr.short k below used;
                    nonempty = dr.nonempty;
                    entries = dr.dirs_there;
                  })
                  entry_of,
              refl,
            );
      positive = dr.numbered k below used;
      holds = dr.has_node k below used;
    }

    getattr_item :
        (s : Stat)
        → inode2stat (node k) (entry_inode dirs k) d ≡ done s d
        → fs_getattr (slashed (names ++ name k ∷ [])) d ≡ done s d
    unfolding fs_getattr
    getattr_item s stat = rw (inode_of-done enoent path-Named, stat) refl

pub existing_or_enoent-pos : (n : ℕ) (d : Disk) → 0 < n → existing_or_enoent (nat n) d ≡ done n d
unfolding existing_or_enoent
existing_or_enoent-pos zero d pos = absurd (omega arith)
existing_or_enoent-pos (suc n) d pos = refl

-- The listing shows the valid entries and no others, each with what `fs_getattr` says of its path.
abbrev pub ListsAll : Disk → List Text → Block → (ℕ → Text) → Outcome Listing → Type 0
ListsAll d names dirs name (done items g) =
    (g ≡ d)
    × ((x : Text × Stat)
        → Memᴰ x items
        → (k : ℕ) × (k < num_dirents)
          × (valid dirs k ≡ true)
          × (x.0 ≡ name k)
          × (fs_getattr (slashed (names ++ x.0 ∷ [])) d ≡ done x.1 d))
    × ((k : ℕ) → k < num_dirents → valid dirs k ≡ true → (s : Stat) × Memᴰ (name k, s) items)
ListsAll d names dirs name _ = ⊥

module _ {d : Disk} {names : List Text} {dir dirs : Block} {name : ℕ → Text} {node : ℕ → Block}
    (dr : Directory d names dir dirs name node) where
  IsListing-ListsAll :
      (r : Outcome Listing) → IsListing dr 0 num_dirents r → ListsAll d names dirs name r
  IsListing-ListsAll (done items g) (same, shows) = (
    same,
    (λ x m.
        let (k, p, below, (used, at, stat)) = shows.sound x m in
        (
          k,
          below,
          used,
          at,
          subst (λ t. fs_getattr (slashed (names ++ t ∷ [])) d ≡ done x.1 d) (sym at)
              (getattr_item dr k below used x.1 stat),
        )),
    λ k below used. let (s, m, item) = shows.complete k (omega arith) below used in (s, m),
  )
  IsListing-ListsAll (failed e g) h = absurd h
  IsListing-ListsAll (aborted g) h = absurd h
  IsListing-ListsAll fault h = absurd h

  -- For a path to a directory whose valid entries have names of their own and lead to inodes in the
  -- image of fewer than 2 GiB - 4 KiB, `fs_readdir` returns a listing that has the name of every
  -- valid entry and no other names, each with the attributes that `fs_getattr` returns for the path
  -- of that name in the directory; the image stays as it was.
  pub fs_readdir-ListsAll :
      {path : Text} {n : ℕ}
      → Named d path n dir
      → is_dir dir ≡ true
      → ListsAll d names dirs name (fs_readdir path d)
  unfolding fs_readdir
  fs_readdir-ListsAll {n = n} named directory =
      rw
        (
          named.found,
          existing_or_enoent-pos n d named.positive,
          block_read-Holds named.holds,
          directory,
          block_read-Holds dr.dirs_there,
        )
        (IsListing-ListsAll _ (list_from-IsListing dr num_dirents 0 refl))
