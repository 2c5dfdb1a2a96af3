-- ===== src/Content/Put.antt =====
-- One round of `fs_write`: the block that it writes, and the file's bytes after it.
use unix_like_file_system.Base.{
  ℕ, ◌+◌, ◌-◌, ◌*◌, ◌/◌, ◌%◌, ◌≤◌, ◌<◌, ◌≡◌, ◌≢◌, sym, ap, ◌∙◌, inl, inr, Bool, true, false, ltb,
  leb, ◌&&◌, ◌==◌, if◌then◌else◌, arith, Bool-cases, ==→eq, ==-refl,
}
use mathlib.Core.Bool.{false≢true}
use unix_like_file_system.Block.{Block, block_size, byte}
use unix_like_file_system.Disk.{Disk, write_at, zero_block}
use unix_like_file_system.Disk.Writes.{write_at-ne, write_at-inside}
use unix_like_file_system.Bitmap.{bit_test}
use unix_like_file_system.Bitmap.Alloc.{in_use}
use unix_like_file_system.Inode.{size, ptr}
use unix_like_file_system.Content.{Buffer, copy_bytes}
use unix_like_file_system.Content.Copy.{byte-copy_bytes}
use unix_like_file_system.Content.Read.{file_byte}
use unix_like_file_system.Content.Owns.{IsCovered, expected, Written}

module _ {d : Disk} {n : ℕ} {inode : Block} {buf : Buffer} {offset upto held : ℕ} {e : Disk}
    {node : Block} (w : Written d n inode buf offset upto held e node)
    (block_num block_offset taken : ℕ) (old : Block) (mine : block_num < held)
    (at : upto ≡ block_num * block_size + block_offset) (start : ℕ) (starts : upto ≡ offset + start)
    (fits : taken + block_offset ≤ block_size) (there : 1 < e.blocks)
    (kept : (o : ℕ)
      → IsCovered (size inode) upto o
      → o / block_size ≡ block_num
      → byte old (o % block_size) ≡ file_byte e node o) where
  abbrev new_block : Block
  new_block = copy_bytes taken 0 buf start old block_offset

  abbrev pub put : Disk
  put = write_at (ptr node block_num) new_block e

  -- A byte in the block that is written.
  put-here :
      (o : ℕ)
      → IsCovered (size inode) (upto + taken) o
      → o / block_size ≡ block_num
      → byte new_block (o % block_size) ≡ expected d inode buf offset (upto + taken) o
  put-here o covered e' =
      byte-copy_bytes taken 0 buf start old block_offset (o % block_size)
      ∙ elim (Bool-cases (leb upto o && ltb o (upto + taken))) [
        | inl new ↦
            let inside : (leb (block_offset + 0) (o % block_size)
                  && ltb (o % block_size) (block_offset + 0 + taken))
                ≡ true =
              ground arith in
            let place : start + (o % block_size - block_offset) ≡ o - offset = ground arith in
            let now : (leb offset o && ltb o (upto + taken)) ≡ true = ground arith in
            rw (inside, place, now)
        | inr past ↦
            let outside : (leb (block_offset + 0) (o % block_size)
                  && ltb (o % block_size) (block_offset + 0 + taken))
                ≡ false =
              ground arith in
            let before : IsCovered (size inode) upto o = ground arith in
            let same : (leb offset o && ltb o (upto + taken)) ≡ (leb offset o && ltb o upto) =
              ground arith in
            rw (outside, kept o before e', w.content o before, same)
      ]

  -- A byte in another block.
  put-elsewhere :
      (o : ℕ)
      → IsCovered (size inode) (upto + taken) o
      → (o / block_size == block_num) ≡ false
      → (ptr node (o / block_size) < put.blocks)
        × (file_byte put node o ≡ expected d inode buf offset (upto + taken) o)
  put-elsewhere o covered ne =
      let before : IsCovered (size inode) upto o = ground arith in
      let same : (leb offset o && ltb o (upto + taken)) ≡ (leb offset o && ltb o upto) =
        ground arith in
      let held_too : o / block_size < held = omega (arith, w.bound) in
      let other : ptr node (o / block_size) ≢ ptr node block_num = λ p. false≢true (
        sym ne
        ∙ rw (w.owns.distinct (o / block_size) block_num held_too mine p, ==-refl block_num)) in
      (
        write_at-inside (ptr node block_num) _ new_block e (w.inside o before),
        ap (λ b. byte b (o % block_size))
              (write_at-ne (ptr node block_num) _ new_block e other (w.inside o before))
            ∙ w.content o before
            ∙ ap (λ t. if t then byte buf (o - offset) else file_byte d inode o) (sym same),
      )

  put-content :
      (o : ℕ)
      → IsCovered (size inode) (upto + taken) o
      → (ptr node (o / block_size) < put.blocks)
        × (file_byte put node o ≡ expected d inode buf offset (upto + taken) o)
  put-content o covered = elim (Bool-cases (o / block_size == block_num)) [
    | inl here ↦
        let e' : o / block_size ≡ block_num = ==→eq _ _ here in
        (
          rw e' (ground arith),
          ap (λ b. byte (put.block (ptr node b)) (o % block_size)) e'
              ∙ ap
                  (λ (t : Bool).
                    byte
                      (if t
                        then new_block
                        else (if ltb (ptr node block_num) e.blocks
                            then e.block (ptr node block_num)
                            else zero_block))
                      (o % block_size))
                  (==-refl (ptr node block_num))
              ∙ put-here o covered e',
        )
    | inr ne ↦ put-elsewhere o covered ne
  ]

  same_block : (l : ℕ) → ptr node block_num ≢ l → l < e.blocks → put.block l ≡ e.block l
  same_block l ne lt = write_at-ne (ptr node block_num) l new_block e (λ p. ne (sym p)) lt

  same_map : (l : ℕ) → in_use put l ≡ in_use e l
  same_map l =
      ap (λ b. bit_test b l)
        (same_block 1 (λ p. absurd (omega (arith, w.owns.range block_num mine))) there)

  -- The round has written the bytes up to `upto + taken`.
  pub put-Written : Written d n inode buf offset (upto + taken) held put node
  put-Written = record {
    owns = record {
      range = w.owns.range;
      used = λ b lt. same_map (ptr node b) ∙ w.owns.used b lt;
      apart = w.owns.apart;
      distinct = w.owns.distinct;
    };
    bound = (w.bound.0, omega arith);
    inside = λ o covered. (put-content o covered).0;
    content = λ o covered. (put-content o covered).1;
    same_ptrs = w.same_ptrs;
    fresh = w.fresh;
    inode_used = same_map n ∙ w.inode_used;
    same_fields = w.same_fields;
    no_smaller = ground (arith, w.no_smaller);
    still_used = λ l used. same_map l ∙ w.still_used l used;
    same_files = λ l ne used apart lt.
        same_block l (apart block_num mine) (omega (arith, w.no_smaller))
        ∙ w.same_files l ne used apart lt;
  }
