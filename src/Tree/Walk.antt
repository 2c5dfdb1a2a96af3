-- ===== src/Tree/Walk.antt =====
-- Looking up a path in a consistent image.
use unix_like_file_system.Base.{
  ℕ, ◌<◌, ◌≡◌, refl, sym, ap, ◌∙◌, Bool, true, not, ◌&&◌, Option, none, some, List, [], ◌∷◌, ltb,
  length, ◌==◌, arith,
}
use mathlib.Core.Path.{subst}
use unix_like_file_system.Block.{Block}
use unix_like_file_system.Disk.{Disk, Errno, enotdir, eopnotsupp, pure}
use unix_like_file_system.Disk.Finds
use unix_like_file_system.Disk.Finds.{Finds, gets, lacks, fail_if-Finds, block_read-Finds}
use unix_like_file_system.Inode.{num_dirents, ptr, is_dir, size, valid, entry_inode}
use unix_like_file_system.Path.{Text}
use unix_like_file_system.Lookup.{
  from_root, walk, enter, lookup_entry, descend, find, or_fail, broken_off, not_found, root_inum,
  is_last,
}
use unix_like_file_system.Lookup.Resolves.{find_entry-Found, Found}
use unix_like_file_system.Tree.{Role, IsInode, IsTree}
use unix_like_file_system.Tree.Find.{
  entries_of, Marked-Holds, inode-Marked, listing-Marked, root-IsInode, root_holds,
}

module _ (d : Disk) where
  or_fail-Finds :
      {A : Type 0} (e : Errno) (o : Option A) → Finds d (λ a. o ≡ some a) (or_fail e o d)
  or_fail-Finds e none = lacks
  or_fail-Finds e (some a) = gets refl

  module _ {role : ℕ → Role} (t : IsTree d role) where
    enter-Finds :
        (name : Text) (rest : List Text) (m : ℕ)
        → IsInode (role m)
        → is_dir (d.block m) ≡ true
        → Finds d (λ dirs. dirs ≡ d.block (ptr (d.block m) 0)) (enter name rest (d.block m) d)
    unfolding enter
    enter-Finds name rest m is directory =
        let holds = Marked-Holds t (listing-Marked t (entries_of t m is directory)) in
        Finds.bind _ (fail_if-Finds d (ltb 27 (length name)) _) λ _ _.
          Finds.bind _ (fail_if-Finds d (not (is_dir (d.block m)) && not (is_last rest)) _) λ _ _.
            Finds.bind _ (fail_if-Finds d (size (d.block m) == 0) _) λ _ _.
              Finds.bind _ (block_read-Finds holds) λ read is'.
                Finds.weaken (or_fail-Finds (broken_off rest) read)
                  λ dirs e. some_value (sym e ∙ is')
      where
        some_value : {b c : Block} → some b ≡ some c → b ≡ c
        some_value f = cc

    Found-IsInode :
        (name : Text) (m : ℕ) (o : Option ℕ) (k : ℕ)
        → IsInode (role m)
        → is_dir (d.block m) ≡ true
        → Found 0 num_dirents name (d.block (ptr (d.block m) 0)) o
        → o ≡ some k
        → IsInode (role (entry_inode (d.block (ptr (d.block m) 0)) k))
    Found-IsInode name m none k is directory h e = cc
    Found-IsInode name m (some j) k is directory (p, q, hit, least) e =
        let lt : k < num_dirents = ground arith in
        let used : valid (d.block (ptr (d.block m) 0)) k ≡ true = ground (arith, hit, e) in
        subst IsInode (sym (t.entry (ptr (d.block m) 0) m k (entries_of t m is directory) lt used))
          tt

    lookup_entry-Finds :
        (several : Bool) (name : Text) (rest : List Text) (m : ℕ)
        → IsInode (role m)
        → is_dir (d.block m) ≡ true
        → Finds d (λ n. IsInode (role n)) (lookup_entry several name rest (d.block m) d)
    unfolding lookup_entry
    lookup_entry-Finds several name rest m is directory =
        Finds.bind _ (enter-Finds name rest m is directory) λ dirs same.
          Finds.bind _ (or_fail-Finds (not_found several rest) (find name dirs)) λ k e. gets (
            subst (λ b. IsInode (role (entry_inode b k))) (sym same)
              (Found-IsInode name m _ k is directory
                (find_entry-Found name (d.block (ptr (d.block m) 0)) num_dirents 0 num_dirents refl)
                (ap (find name) (sym same) ∙ e)))

    descend-Finds :
        (m : ℕ)
        → IsInode (role m)
        → Finds d (λ dir. (d.block m ≡ dir) × (is_dir dir ≡ true)) (descend m d)
    unfolding descend
    descend-Finds m is =
        Finds.bind _ (block_read-Finds (Marked-Holds t (inode-Marked t m is))) λ read is'.
          Finds.bind _ (or_fail-Finds eopnotsupp read) λ dir e.
            Finds.bind (λ _. pure dir) (fail_if-Finds d (not (is_dir dir)) enotdir)
              λ _ yes_dir. gets (some_value (sym is' ∙ e), ground arith)
      where
        some_value : {b c : Block} → some b ≡ some c → b ≡ c
        some_value f = cc

    walk-Finds :
        (several : Bool) (names : List Text) (m : ℕ)
        → IsInode (role m)
        → is_dir (d.block m) ≡ true
        → Finds d (λ n. IsInode (role n)) (walk several names (d.block m) d)
    unfolding walk
    walk-Finds several [] m is directory = lacks
    walk-Finds several (name ∷ []) m is directory =
        lookup_entry-Finds several name [] m is directory
    walk-Finds several (name ∷ next ∷ rest) m is directory =
        Finds.bind _ (lookup_entry-Finds several name (next ∷ rest) m is directory) λ n is'.
          Finds.bind _ (descend-Finds n is') λ dir (same, directory').
            subst (λ b. Finds d (λ n. IsInode (role n)) (walk several (next ∷ rest) b d)) same
              (walk-Finds several (next ∷ rest) n is' (ap is_dir same ∙ directory'))

    -- The names in a path lead to an inode, or the lookup fails.
    pub from_root-Finds : (names : List Text) → Finds d (λ n. IsInode (role n)) (from_root names d)
    unfolding from_root
    from_root-Finds [] = gets (root-IsInode t)
    from_root-Finds (name ∷ rest) = Finds.bind _ (block_read-Finds (root_holds t)) λ read is.
        Finds.bind _ (or_fail-Finds eopnotsupp read) λ b e.
          subst (λ b. Finds d (λ n. IsInode (role n)) (walk (not (is_last rest)) (name ∷ rest) b d))
            (some_value (sym is ∙ e))
            (walk-Finds (not (is_last rest)) (name ∷ rest) root_inum (root-IsInode t) t.root_dir)
      where
        some_value : {b c : Block} → some b ≡ some c → b ≡ c
        some_value f = cc
