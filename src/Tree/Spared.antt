-- ===== src/Tree/Spared.antt =====
-- A file in a consistent image, and a change elsewhere: the path and what is read stay.
use unix_like_file_system.Base.{
  ℕ, ◌+◌, ◌/◌, ◌%◌, ◌<◌, ◌≡◌, ◌≢◌, refl, sym, ap, ◌∙◌, inl, inr, false, List, [], ◌∷◌, ◌++◌, arith,
  ltb, Bool-cases,
}
use mathlib.Core.Path.{subst}
use unix_like_file_system.Block.{Block, block_size, byte}
use unix_like_file_system.Disk.{Disk, Outcome, done, failed, aborted, fault}
use unix_like_file_system.Disk.Reads.{Holds}
use unix_like_file_system.Inode.{size, ptr, is_dir, rounds_up}
use unix_like_file_system.Path.{Text}
use unix_like_file_system.Path.Tokens.{slashed}
use unix_like_file_system.Lookup.{path2inum, root_inum}
use unix_like_file_system.Lookup.Missing.{not_last}
use unix_like_file_system.Lookup.Paths.{Fits, path2inum-Resolves}
use unix_like_file_system.Attr.Named.{Named}
use unix_like_file_system.Content.{Buffer, fs_read}
use unix_like_file_system.Content.Read.{IsCopied, IsFile, file_byte, fs_read-IsCopied}
use unix_like_file_system.Tree.{Role, content, IsInode, IsTree}
use unix_like_file_system.Tree.Apart.{content_inj}
use unix_like_file_system.Tree.Find.{
  root-IsInode, root_holds, inode-Marked, content-Marked, Marked-Holds,
}
use unix_like_file_system.Tree.Looks.{below}
use unix_like_file_system.Tree.Write.{file-IsStored}
use unix_like_file_system.Tree.Files.{SameRead, found-IsInode, path_leads}
use unix_like_file_system.Tree.Carried.{Carries, still_there, Resolves-carried}
use unix_like_file_system.Tree.Change.{Alike}
use unix_like_file_system.Tree.Spares.{Spares, Spares-Alike, Spares-Carries}

IsCopied-SameRead :
    (d g : Disk) (inode inode' : Block) (len offset : ℕ) (out : Buffer) (r s : Outcome (ℕ × Buffer))
    → size inode' ≡ size inode
    → ((o : ℕ) → o < size inode → file_byte g inode' o ≡ file_byte d inode o)
    → IsCopied d inode len offset 0 out r
    → IsCopied g inode' len offset 0 out s
    → SameRead r s
IsCopied-SameRead d g inode inode' len offset out (done (n, a) d') (done (m, b) g') sized bytes
      (same, count, new, old) (same', count', new', old') =
    (
      ground (arith, count, count', sized),
      λ i. elim (Bool-cases (ltb i n)) [
        | inl lt ↦
            new i (omega arith) (ground arith)
            ∙ sym (bytes (offset + i) (ground (arith, count)))
            ∙ sym (new' i (omega arith) (ground (arith, count, count', sized)))
        | inr past ↦
            old i (inr (ground arith)) ∙ sym (old' i (inr (ground (arith, count, count', sized))))
      ],
    )
IsCopied-SameRead d g inode inode' len offset out (done a d') (failed e g') sized bytes h k =
    absurd k
IsCopied-SameRead d g inode inode' len offset out (done a d') (aborted g') sized bytes h k =
    absurd k
IsCopied-SameRead d g inode inode' len offset out (done a d') fault sized bytes h k = absurd k
IsCopied-SameRead d g inode inode' len offset out (failed e d') s sized bytes h k = absurd h
IsCopied-SameRead d g inode inode' len offset out (aborted d') s sized bytes h k = absurd h
IsCopied-SameRead d g inode inode' len offset out fault s sized bytes h k = absurd h

-- The path leads to the inode still, and a read gives what it gave.
abbrev pub KeepsFile : {A : Type 0} → Block → Text → ℕ → Buffer → ℕ → ℕ → Disk → Outcome A → Type 0
KeepsFile stack path m out len offset d (done a g) =
    (path2inum path g ≡ done m g)
    × SameRead (fs_read stack path out len offset d) (fs_read stack path out len offset g)
KeepsFile stack path m out len offset d (failed e g) =
    (path2inum path g ≡ done m g)
    × SameRead (fs_read stack path out len offset d) (fs_read stack path out len offset g)
KeepsFile stack path m out len offset d (aborted g) =
    (path2inum path g ≡ done m g)
    × SameRead (fs_read stack path out len offset d) (fs_read stack path out len offset g)
KeepsFile stack path m out len offset d fault = ⊥

-- The path to the file `m`, and what is read of it.
module _ {d : Disk} {role : ℕ → Role} (t : IsTree d role) (names : List Text) (name : Text) {m : ℕ}
    (fits : Fits (names ++ name ∷ []))
    (found : path2inum (slashed (names ++ name ∷ [])) d ≡ done m d)
    (file : is_dir (d.block m) ≡ false) (stack : Block) (out : Buffer) (len offset : ℕ) where
  abbrev path : Text
  path = slashed (names ++ name ∷ [])

  is : IsInode (role m)
  is = found-IsInode t (below names name fits) found

  named : Named d path m (d.block m)
  named =
      let marked = inode-Marked t m is in
      record {
        found = found;
        positive = omega (arith, marked.range);
        holds = Marked-Holds t marked;
      }

  pub carried_file :
      {g : Disk}
      → Carries d g role
      → Alike (d.block m) (g.block m)
      → ((b : ℕ)
          → role (ptr (d.block m) b) ≡ content m b
          → g.block (ptr (d.block m) b) ≡ d.block (ptr (d.block m) b))
      → (path2inum path g ≡ done m g)
        × SameRead (fs_read stack path out len offset d) (fs_read stack path out len offset g)
  unfolding rounds_up
  carried_file {g} c alike blocks =
      let root_there = still_there t c (root_holds t) in
      let leads =
        Resolves-carried t c root_inum refl (root-IsInode t) t.root_dir
          (path_leads t names name fits found) in
      let found' : path2inum path g ≡ done m g =
        (path2inum-Resolves g root_there (names ++ name ∷ []) m g fits (not_last names name)).1
          (leads, refl) in
      let named' : Named g path m (g.block m) = record {
        found = found';
        positive = named.positive;
        holds = still_there t c named.holds;
      } in
      let stored = (file-IsStored t is file).file in
      let file_g : IsFile g (g.block m) = record {
        fits = omega (arith, stored.fits, alike.same_size);
        in_image = λ b lt.
            subst (λ l. Holds g l (g.block l)) (sym (alike.same_ptr b))
              (still_there t c (stored.in_image b (omega (arith, lt, alike.same_size))));
      } in
      let bytes : (o : ℕ)
          → o < size (d.block m)
          → file_byte g (g.block m) o ≡ file_byte d (d.block m) o =
        λ o lt.
          ap (λ l. byte (g.block l) (o % block_size)) (alike.same_ptr (o / block_size))
          ∙ ap (λ b. byte b (o % block_size))
              (blocks (o / block_size)
                ((t.node m is).contents file (o / block_size) (ground (arith, lt, stored.fits)))) in
      (
        found',
        IsCopied-SameRead d g (d.block m) (g.block m) len offset out _ _ alike.same_size bytes
            (fs_read-IsCopied d path m (d.block m) stack out len offset named file stored)
            (fs_read-IsCopied g path m (g.block m) stack out len offset named'
              (alike.same_dir ∙ file) file_g),
      )

  pub spared_file :
      {g : Disk} {n : ℕ}
      → IsInode (role n)
      → is_dir (d.block n) ≡ false
      → m ≢ n
      → Spares d g role n
      → (path2inum path g ≡ done m g)
        × SameRead (fs_read stack path out len offset d) (fs_read stack path out len offset g)
  spared_file {g} {n} is' file' ne s =
      carried_file (Spares-Carries t is' file' s) (Spares-Alike t is' file' s m is ne) (λ b mine.
        s.same (ptr (d.block m) b) (content-Marked t mine)
          (λ e. subst IsInode (ap role (sym e) ∙ mine) is')
          (λ b' at. ne (content_inj (sym mine ∙ at)).0))

  -- The image as it was.
  pub spared_self :
      (path2inum path d ≡ done m d)
      × SameRead (fs_read stack path out len offset d) (fs_read stack path out len offset d)
  spared_self =
      let copied =
        fs_read-IsCopied d path m (d.block m) stack out len offset named file
          (file-IsStored t is file).file in
      (
        found,
        IsCopied-SameRead d d (d.block m) (d.block m) len offset out _ _ refl (λ o lt. refl) copied
            copied,
      )
