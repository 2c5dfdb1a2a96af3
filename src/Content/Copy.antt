-- ===== src/Content/Copy.antt =====
-- The loop that copies bytes between two buffers.
use unix_like_file_system.Base.{
  ℕ, zero, suc, ◌+◌, ◌-◌, ◌<◌, ◌≡◌, ◌∙◌, inl, inr, ltb, leb, ◌&&◌, ◌==◌, if◌then◌else◌, arith,
  Bool-cases, ==→eq,
}
use unix_like_file_system.Block.{byte, set_byte}
use unix_like_file_system.Content.{Buffer, copy_bytes}

byte-set_byte :
    (b : Buffer) (o v j : ℕ) → v < 256 → byte (set_byte b o v) j ≡ (if j == o then v else byte b j)
unfolding set_byte
byte-set_byte b o v j lt = ground arith

-- `copy_bytes n i` fills the places from `t + i` on and leaves the others alone.
pub byte-copy_bytes :
    (n i : ℕ) (from : Buffer) (f : ℕ) (to : Buffer) (t j : ℕ)
    → byte (copy_bytes n i from f to t) j
      ≡ (if leb (t + i) j && ltb j (t + i + n) then byte from (f + (j - t)) else byte to j)
unfolding copy_bytes
byte-copy_bytes zero i from f to t j = ground arith
byte-copy_bytes (suc n) i from f to t j =
    byte-copy_bytes n (i + 1) from f (set_byte to (t + i) (byte from (f + i))) t j ∙ last
  where
    last :
        (if leb (t + (i + 1)) j && ltb j (t + (i + 1) + n)
          then byte from (f + (j - t))
          else byte (set_byte to (t + i) (byte from (f + i))) j)
        ≡ (if leb (t + i) j && ltb j (t + i + suc n) then byte from (f + (j - t)) else byte to j)
    last = elim (Bool-cases (j == t + i)) [
      | inl e ↦
          let same : j ≡ t + i = ==→eq j (t + i) e in
          let at : f + (j - t) ≡ f + i = omega arith in
          rw (byte-set_byte to (t + i) (byte from (f + i)) j (omega arith), e, at) (ground arith)
      | inr e ↦ rw (byte-set_byte to (t + i) (byte from (f + i)) j (omega arith), e) (ground arith)
    ]
