-- ===== src/Tree/Query.antt =====
-- The calls that only read, in a consistent image: nothing goes wrong.
use unix_like_file_system.Base.{
  ℕ, zero, suc, ◌+◌, ◌<◌, ◌≡◌, refl, sym, inl, inr, false, arith, Bool-cases, ◌==◌, some, [], ◌∷◌,
}
use mathlib.Core.Path.{subst}
use unix_like_file_system.Block.{Block, byte}
use unix_like_file_system.Disk.{
  Disk, Outcome, Errno, enoent, eopnotsupp, done, failed, aborted, fault, err,
}
use unix_like_file_system.Disk.Reads.{Holds, block_read-Holds}
use unix_like_file_system.Disk.Finds
use unix_like_file_system.Disk.Finds.{Finds, gets, lacks, block_read-Finds, call-Finds}
use unix_like_file_system.Inode.{
  num_dirents, name_size, name_at, ptr, is_dir, valid, entry_inode, size_overflows,
}
use unix_like_file_system.Path.{Text}
use unix_like_file_system.Attr.{
  inode_of, inode2stat, text_at, list_entry, visit_entry, list_from, existing_or_enoent, fs_statfs,
  fs_getattr, fs_readdir,
}
use unix_like_file_system.Attr.Named.{inode_of-done, inode_of-failed}
use unix_like_file_system.Attr.Listing.{existing_or_enoent-pos}
use unix_like_file_system.Content.{Buffer, fs_read}
use unix_like_file_system.Content.Read.{IsCopied, fs_read-IsCopied}
use unix_like_file_system.Tree.{Role, listing, IsInode, IsTree, Keeps}
use unix_like_file_system.Tree.Find.{listing-Marked, inode-Marked, Marked-Holds}
use unix_like_file_system.Tree.Looks.{IsNormal, leads, misses, path-Looks}
use unix_like_file_system.Tree.Change.{unchanged}
use unix_like_file_system.Tree.Write.{file-IsStored}

-- A name that ends in its array can be read.
text_at-some :
    (room o : ℕ) (b : Block) (j : ℕ)
    → j < room
    → byte b (o + j) ≡ 0
    → (t : Text) × (text_at room o b ≡ some t)
unfolding text_at
text_at-some zero o b j lt nul = absurd (omega arith)
text_at-some (suc room) o b zero lt nul =
    let here : byte b o ≡ 0 = subst (λ i. byte b i ≡ 0) (omega arith) nul in ([], rw here refl)
text_at-some (suc room) o b (suc j) lt nul = elim (Bool-cases (byte b o == 0)) [
  | inl here ↦ ([], rw here refl)
  | inr further ↦
      let next : byte b (o + 1 + j) ≡ 0 = subst (λ i. byte b i ≡ 0) (omega arith) nul in
      let (t, same) = text_at-some room (o + 1) b j (omega arith) next in
      (byte b o ∷ t, rw (further, same) refl)
]

module _ {d : Disk} {role : ℕ → Role} (t : IsTree d role) where
  pub Finds-Keeps : {A : Type 0} {P : A → Type 0} {r : Outcome A} → Finds d P r → Keeps r
  Finds-Keeps (gets p) = unchanged t
  Finds-Keeps lacks = unchanged t

  pub fs_statfs-Finds : Finds d (λ s. Unit {0}) (fs_statfs d)
  unfolding fs_statfs
  fs_statfs-Finds =
      let super : Holds d 0 (d.block 0) = record {
        inside = omega (arith, t.map_there);
        reachable = omega arith;
        content = refl;
      } in
      let map : Holds d 1 (d.block 1) = record {
        inside = t.map_there;
        reachable = omega arith;
        content = refl;
      } in
      rw (block_read-Holds super, block_read-Holds map) (gets tt)

  inode2stat-Finds :
      (n : ℕ) → IsInode (role n) → (k : ℕ) → Finds d (λ s. Unit {0}) (inode2stat (d.block n) k d)
  unfolding inode2stat
  inode2stat-Finds n is k = elim (Bool-cases (is_dir (d.block n))) [
    | inl directory ↦ rw directory (gets tt)
    | inr file ↦
        let sane : size_overflows (d.block n) ≡ false = ground (arith, (t.node n is).fits file) in
        rw (file, sane) (gets tt)
  ]

  pub fs_getattr-Finds : {path : Text} → IsNormal path → Finds d (λ s. Unit {0}) (fs_getattr path d)
  unfolding fs_getattr inode_of
  fs_getattr-Finds {path} normal = elim (path-Looks t normal) [
    | misses e found ↦ rw (inode_of-failed path enoent found) lacks
    | leads n named is m ↦ rw (inode_of-done enoent named) (inode2stat-Finds n is n)
  ]

  module _ (e m : ℕ) (is : role e ≡ listing m) where
    visit_entry-Finds :
        (k : ℕ) → k < num_dirents → Finds d (λ items. Unit {0}) (visit_entry (d.block e) k d)
    unfolding visit_entry list_entry
    visit_entry-Finds k lt = elim (Bool-cases (valid (d.block e) k)) [
      | inr unused ↦ rw unused (gets tt)
      | inl used ↦
          let n = entry_inode (d.block e) k in
          let inode = subst IsInode (sym (t.entry e m k is lt used)) tt in
          let (j, below, nul) = t.named e m k is lt used in
          let (name, same) = text_at-some name_size (name_at k) (d.block e) j below nul in
          rw (used, block_read-Holds (Marked-Holds t (inode-Marked t n inode)))
            (Finds.bind _ (inode2stat-Finds n inode n) λ stat _. rw same (gets tt))
    ]

    list_from-Finds :
        (rounds k : ℕ)
        → k + rounds ≡ num_dirents
        → Finds d (λ items. Unit {0}) (list_from rounds k (d.block e) d)
    unfolding list_from
    list_from-Finds zero k at = gets tt
    list_from-Finds (suc rounds) k at =
        Finds.bind _ (visit_entry-Finds k (omega arith))
          λ here _. Finds.bind _ (list_from-Finds rounds (k + 1) (omega arith)) λ rest _. gets tt

  existing_or_enoent-err : (e : Errno) → existing_or_enoent (err e) d ≡ failed enoent d
  unfolding existing_or_enoent
  existing_or_enoent-err e = refl

  pub fs_readdir-Finds :
      {path : Text} → IsNormal path → Finds d (λ items. Unit {0}) (fs_readdir path d)
  unfolding fs_readdir
  fs_readdir-Finds {path} normal = elim (path-Looks t normal) [
    | misses e found ↦ rw (found, existing_or_enoent-err e) lacks
    | leads n named is m ↦ elim (Bool-cases (is_dir (d.block n))) [
      | inr file ↦
          rw
            (
              named.found,
              existing_or_enoent-pos n d named.positive,
              block_read-Holds named.holds,
              file,
            )
            lacks
      | inl directory ↦
          let own = (t.node n is).directory directory in
          rw
            (
              named.found,
              existing_or_enoent-pos n d named.positive,
              block_read-Holds named.holds,
              directory,
              block_read-Holds (Marked-Holds t (listing-Marked t own)),
            )
            (list_from-Finds (ptr (d.block n) 0) n own num_dirents 0 refl)
    ]
  ]

  IsCopied-Finds :
      (inode : Block) (len offset : ℕ) (buf : Buffer) (r : Outcome (ℕ × Buffer))
      → IsCopied d inode len offset 0 buf r
      → Finds d (λ b. Unit {0}) r
  IsCopied-Finds inode len offset buf (done (n, out) g) h =
      subst (λ g. Finds {A = ℕ × Buffer} d (λ b. Unit {0}) (done (n, out) g)) (sym h.0) (gets tt)
  IsCopied-Finds inode len offset buf (failed e g) h = absurd h
  IsCopied-Finds inode len offset buf (aborted g) h = absurd h
  IsCopied-Finds inode len offset buf fault h = absurd h

  pub fs_read-Finds :
      {path : Text} (stack : Block) (buf : Buffer) (len offset : ℕ)
      → IsNormal path
      → Finds d (λ b. Unit {0}) (fs_read stack path buf len offset d)
  unfolding fs_read inode_of
  fs_read-Finds {path} stack buf len offset normal = elim (path-Looks t normal) [
    | misses e found ↦ rw (inode_of-failed path eopnotsupp found) lacks
    | leads n named is m ↦ elim (Bool-cases (is_dir (d.block n))) [
      | inl directory ↦ rw (inode_of-done eopnotsupp named, directory) lacks
      | inr file ↦ IsCopied-Finds (d.block n) len offset buf _ (
          fs_read-IsCopied d path n (d.block n) stack buf len offset named file
            (file-IsStored t is file).file)
    ]
  ]
