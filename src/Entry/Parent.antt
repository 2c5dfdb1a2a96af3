-- ===== src/Entry/Parent.antt =====
-- The path of the directory in which a call works, cut out of the call's path.
use unix_like_file_system.Base.{
  ◌+◌, ◌≤◌, ◌≡◌, refl, ap, ◌∙◌, false, ltb, List, [], ◌∷◌, ◌++◌, length, length-append, arith,
}
use native.Mathlib.Numerals.{add-one}
use unix_like_file_system.Disk.{Disk, done}
use unix_like_file_system.Path.{Text, slash}
use unix_like_file_system.Path.Tokens.{AllNames, slashed, joined, tokenise-joined}
use unix_like_file_system.Path.Trailing.{
  trailing, tokenise-trailing, slashed-trailing, slashed-append, take-append,
}
use unix_like_file_system.Lookup.{path2inum, from_root, is_last}
use unix_like_file_system.Lookup.Paths.{Fits}
use unix_like_file_system.Entry.{parent_length, parent_of, split_path, last_token}

parent_length-append :
    (names : List Text) (name : Text) → parent_length (names ++ name ∷ []) ≡ length (slashed names)
unfolding parent_length
parent_length-append [] name = refl
parent_length-append (t ∷ []) name = omega (arith, length-append t [])
parent_length-append (t ∷ u ∷ ts) name =
    omega (arith, parent_length-append (u ∷ ts) name, length-append t (slashed (u ∷ ts)))

-- The parent's path is the other names with a slash behind them.
parent_of-append :
    (names : List Text) (name : Text)
    → parent_of (slashed (names ++ name ∷ [])) (names ++ name ∷ []) ≡ slash ∷ trailing names
unfolding parent_of
parent_of-append names name =
    rw (slashed-append names (name ∷ []), add-one)
      (take-append (parent_length (names ++ name ∷ [])) (slashed names) slash (name ++ [])
          (parent_length-append names name)
        ∙ slashed-trailing names)

AllNames-front : (names : List Text) (us : List Text) → AllNames (names ++ us) → AllNames names
AllNames-front [] us h = tt
AllNames-front (t ∷ ts) us h = (h.0, AllNames-front ts us h.1)

length-trailing : (ts : List Text) → length (trailing ts) ≡ length (slashed ts)
length-trailing [] = refl
length-trailing (t ∷ ts) =
    omega (
      arith,
      length-append t (slash ∷ trailing ts),
      length-append t (slashed ts),
      length-trailing ts,
    )

joined-slashed :
    (ts : List Text) (t : Text)
    → length (slashed (ts ++ t ∷ [])) ≡ length (joined (ts ++ t ∷ [])) + 1
joined-slashed [] t = omega arith
joined-slashed (u ∷ ts) t = omega arith

path2inum-trailing :
    (d : Disk) (names : List Text)
    → AllNames names
    → length (trailing names) ≤ 299
    → length names ≤ 11
    → path2inum (slash ∷ trailing names) d ≡ from_root names d
unfolding path2inum
path2inum-trailing d names h short few =
    let short' : ltb 299 (length (trailing names)) ≡ false = ground arith in
    let few' : ltb 11 (length names) ≡ false = ground arith in
    rw (short', tokenise-trailing names h, few')

-- `path2inum` of the parent's path is what the walk along all names but the last gives.
pub path2inum-parent_of :
    (d : Disk) (names : List Text) (name : Text)
    → Fits (names ++ name ∷ [])
    → path2inum (parent_of (slashed (names ++ name ∷ [])) (names ++ name ∷ [])) d
      ≡ from_root names d
path2inum-parent_of d names name fits = rw (parent_of-append names name) (
    path2inum-trailing d names (AllNames-front names (name ∷ []) fits.are_names)
      (omega (
        arith,
        length-trailing names,
        ap length (slashed-append names (name ∷ [])),
        length-append (slashed names) (slashed (name ∷ [])),
        joined-slashed names name,
        fits.short,
      ))
      (omega (arith, length-append names (name ∷ []), fits.few)))

-- `split_path` takes a path apart into its names.
pub split_path-slashed :
    (d : Disk) (names : List Text)
    → Fits names
    → is_last names ≡ false
    → split_path (slashed names) d ≡ done names d
unfolding split_path
split_path-slashed d [] fits more = cc
split_path-slashed d (t ∷ ts) fits more =
    let short : ltb 299 (length (t ++ slashed ts)) ≡ false = ground (arith, fits.short) in
    let few : ltb 11 (length (t ∷ ts)) ≡ false = ground (arith, fits.few) in
    rw (short, tokenise-joined (t ∷ ts) fits.are_names, few)

pub last_token-append :
    (d : Disk) (names : List Text) (name : Text) → last_token (names ++ name ∷ []) d ≡ done name d
unfolding last_token
last_token-append d [] name = refl
last_token-append d (t ∷ []) name = refl
last_token-append d (t ∷ u ∷ ts) name = last_token-append d (u ∷ ts) name
