-- ===== src/Tree/Apart.antt =====
-- Different roles are roles of different blocks.
use unix_like_file_system.Base.{ℕ, ◌≡◌, ◌≢◌, ap, Bool, true, false, inl, inr, Bool-cases}
use unix_like_file_system.Tree.{Role, unowned, child, listing, content}

pub child≢listing : {e k n : ℕ} → child e k ≢ listing n
child≢listing h = cc

pub child≢content : {e k n i : ℕ} → child e k ≢ content n i
child≢content h = cc

pub listing≢content : {m n i : ℕ} → listing m ≢ content n i
listing≢content h = cc

pub child_inj : {e k e' k' : ℕ} → child e k ≡ child e' k' → (e ≡ e') × (k ≡ k')
child_inj h = (ap (λ r. owner r) h, ap (λ r. place r) h)
  where
    owner : Role → ℕ
    owner (child e k) = e
    owner _ = 0

    place : Role → ℕ
    place (child e k) = k
    place _ = 0

pub listing_inj : {m n : ℕ} → listing m ≡ listing n → m ≡ n
listing_inj h = ap (λ r. owner r) h
  where
    owner : Role → ℕ
    owner (listing n) = n
    owner _ = 0

pub content_inj : {m i n j : ℕ} → content m i ≡ content n j → (m ≡ n) × (i ≡ j)
content_inj h = (ap (λ r. owner r) h, ap (λ r. place r) h)
  where
    owner : Role → ℕ
    owner (content n i) = n
    owner _ = 0

    place : Role → ℕ
    place (content n i) = i
    place _ = 0

pub not_true : {b : Bool} → ((b ≡ true) → ⊥) → b ≡ false
not_true {b} h = elim (Bool-cases b) [ inl e ↦ absurd (h e) | inr e ↦ e ]

pub listing≢unowned : {n : ℕ} → listing n ≢ unowned
listing≢unowned h = cc

pub content≢unowned : {n i : ℕ} → content n i ≢ unowned
content≢unowned h = cc
