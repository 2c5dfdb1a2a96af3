-- ===== src/Content/Back.antt =====
-- Reading what has been written.
use unix_like_file_system.Base.{
  ℕ, ◌+◌, ◌-◌, ◌*◌, ◌/◌, ◌%◌, ◌^◌, ◌≤◌, ◌<◌, ◌≡◌, ◌≢◌, refl, ap, ◌∙◌, ◌⊎◌, inl, inr, Bool, true,
  false, ltb, leb, ◌&&◌, if◌then◌else◌, arith, List, ◌==◌,
}
use unix_like_file_system.Block.{Block, block_size, byte}
use unix_like_file_system.Block.Words.{get_u32_cong}
use unix_like_file_system.Disk.{Disk, Outcome, done, failed, aborted, fault}
use unix_like_file_system.Disk.Reads.{Holds}
use unix_like_file_system.Bitmap.Alloc.{in_use, AllUsed}
use unix_like_file_system.Inode.{num_ptrs, size, ptr, is_dir, rounds_up}
use unix_like_file_system.Path.{Text}
use unix_like_file_system.Path.Tokens.{slashed}
use unix_like_file_system.Lookup.{root_inum, is_last}
use unix_like_file_system.Lookup.Resolves.{Resolves}
use unix_like_file_system.Lookup.Paths.{Fits, path2inum-Resolves}
use unix_like_file_system.Lookup.Frame.{Visits, Holds-frame, Resolves-frame}
use unix_like_file_system.Attr.Named.{Named}
use unix_like_file_system.Content.{Buffer, fs_read, fs_write}
use unix_like_file_system.Content.Read.{IsCopied, file_byte, fs_read-IsCopied}
use unix_like_file_system.Content.Saved.{IsStored, Saved}
use unix_like_file_system.Content.Save.{Saves, fs_write-Saves}

-- The blocks in which the path is looked up are in use, and no blocks of the file.
pub record IsClear (d : Disk) (root inode : Block) (names : List Text) (n : ℕ) : Type 0 where
  pub root_there : Holds d root_inum root
  pub resolves : Resolves d root names n
  pub used : (l : ℕ) → (root_inum ≡ l) ⊎ Visits resolves l → in_use d l ≡ true
  pub not_file :
      (l : ℕ)
      → (root_inum ≡ l) ⊎ Visits resolves l
      → (l ≢ 1) × (l ≢ n) × ((b : ℕ) → b < rounds_up (size inode) → ptr inode b ≢ l)

-- The read returns `len` bytes, those of `buf`, and leaves the image as it was.
abbrev pub Returns : Buffer → ℕ → Disk → Outcome (ℕ × Buffer) → Type 0
Returns buf len g (done (m, out) h) =
    (h ≡ g) × (m ≡ len) × ((i : ℕ) → i < len → byte out i ≡ byte buf i)
Returns buf len g _ = ⊥

-- The write returns, and a read then gives the bytes that were written; or no block is free.
abbrev pub ReadsBack : Block → Text → Buffer → Buffer → ℕ → ℕ → Outcome ℕ → Type 0
ReadsBack stack path out buf len offset (done m g) =
    (m ≡ len) × Returns buf len g (fs_read stack path out len offset g)
ReadsBack stack path out buf len offset (aborted g) = AllUsed g
ReadsBack stack path out buf len offset _ = ⊥

module _ {d : Disk} {n : ℕ} {root inode : Block} {names : List Text} (stored : IsStored d n inode)
    (clear : IsClear d root inode names n) (fits : Fits names) (more : is_last names ≡ false)
    (holds : Holds d n inode) (is_file : is_dir inode ≡ false) (stack : Block) (buf out : Buffer)
    (offset len now : ℕ) where
  named : Named d (slashed names) n inode
  named = record {
    found = (path2inum-Resolves d clear.root_there names n d fits more).1 (clear.resolves, refl);
    positive = omega (arith, stored.place);
    holds = holds;
  }

  module _ {g : Disk} (s : Saved d g n inode buf offset len now) where
    unchanged :
        (l : ℕ) → (root_inum ≡ l) ⊎ Visits clear.resolves l → l < d.blocks → g.block l ≡ d.block l
    unchanged l v lt =
        let (a, b, apart) = clear.not_file l v in s.same_files l a b (clear.used l v) apart lt

    path-Named : Named g (slashed names) n s.new
    path-Named = record {
      found =
          (path2inum-Resolves g
              (Holds-frame s.not_smaller (unchanged root_inum (inl refl) clear.root_there.inside)
                clear.root_there)
              names n g fits more).1
            (Resolves-frame clear.resolves s.not_smaller (λ l v lt. unchanged l (inr v) lt), refl);
      positive = omega (arith, stored.place);
      holds = s.there;
    }

    still_file : is_dir s.new ≡ false
    unfolding is_dir
    still_file =
        ap (λ m. m / 2 ^ 12 % 2 ^ 4 == 4)
          (get_u32_cong s.new inode 4 (s.same_fields 4 (omega arith))
            (s.same_fields 5 (omega arith)) (s.same_fields 6 (omega arith))
            (s.same_fields 7 (omega arith)))
        ∙ is_file

    IsCopied-Returns :
        (r : Outcome (ℕ × Buffer)) → IsCopied g s.new len offset 0 out r → Returns buf len g r
    IsCopied-Returns (done (m, got) h) (same, count, new, old) =
        let all : m ≡ len = ground (arith, count, s.new_size) in
        (
          same,
          all,
          λ i lt.
              let below : offset + i < size s.new = omega (arith, count) in
              let at : offset + i - offset ≡ i = omega arith in
              let inside : (leb offset (offset + i) && ltb (offset + i) (offset + len)) ≡ true =
                ground arith in
              new i (omega arith) (omega arith)
              ∙ s.content (offset + i) below
              ∙ ap
                  (λ (t : Bool).
                    if t then byte buf (offset + i - offset) else file_byte d inode (offset + i))
                  inside
              ∙ ap (byte buf) at,
        )
    IsCopied-Returns (failed e h) c = absurd c
    IsCopied-Returns (aborted h) c = absurd c
    IsCopied-Returns fault c = absurd c

  read-Returns :
      (r : Outcome ℕ)
      → Saves d n inode buf offset len now r
      → ReadsBack stack (slashed names) out buf len offset r
  read-Returns (done m g) (count, s) = (
    count,
    IsCopied-Returns s _ (
        fs_read-IsCopied g (slashed names) n s.new stack out len offset (path-Named s)
          (still_file s) s.file),
  )
  read-Returns (failed e g) h = absurd h
  read-Returns (aborted g) (full, left) = full
  read-Returns fault h = absurd h

  -- For a path that leads to a file that is well stored, its last slash left out, through blocks that
  -- are in use and no blocks of the file, and bytes from an offset within the file that end within
  -- the largest size of a file: when `fs_write` has returned, `fs_read` of the same path, place and
  -- length returns the bytes that were written; and when an assertion has stopped it, no block is free.
  pub fs_write-ReadsBack :
      offset + len ≤ block_size * num_ptrs
      → offset ≤ size inode
      → ReadsBack stack
          (slashed names)
          out
          buf
          len
          offset
          (fs_write now stack (slashed names) buf len offset d)
  fs_write-ReadsBack room behind =
      read-Returns _ (fs_write-Saves stored buf offset len now room stack named is_file behind)
