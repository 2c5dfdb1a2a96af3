-- ===== src/Main/Starts.antt =====
-- When `main` gets as far as starting FUSE.
use unix_like_file_system.Base.{
  ◌+◌, ◌-◌, ◌≡◌, ◌≢◌, refl, sym, ap, ◌∙◌, inl, inr, Bool, true, false, Option, none, some, List,
  ◌++◌, ltb, ◌==◌, ◌||◌, not, arith, length, length-append, take, drop, take-drop, drop-append,
  Bool-cases, ==→eq, ◌↔◌,
}
use unix_like_file_system.Disk.{Disk}
use unix_like_file_system.Path.{Text}
use unix_like_file_system.Entry.{same_name}
use unix_like_file_system.Entry.SameName.{same_name_refl, same_name→eq}
use unix_like_file_system.Main.{
  runs, shows_usage, bad_name, img, opened, block_init, after_parse, main,
}

-- The test of `block_init`, as it is written.
abbrev is_bad : Text → Bool
is_bad file = ltb (length file) 4 || not (same_name (drop (length file - 4) file) img)

not_bad-append : (base : Text) → is_bad (base ++ img) ≡ false
not_bad-append base =
    let long : length (base ++ img) ≡ length base + 4 = length-append base img in
    let back : length (base ++ img) - 4 ≡ length base = omega arith in
    let tail : drop (length (base ++ img) - 4) (base ++ img) ≡ img =
      ap (λ n. drop n (base ++ img)) back ∙ drop-append base img in
    let same : same_name (drop (length (base ++ img) - 4) (base ++ img)) img ≡ true =
      ap (λ t. same_name t img) tail ∙ same_name_refl img in
    ground arith

ends_in_img : (file : Text) → is_bad file ≡ false → (base : Text) × (file ≡ base ++ img)
ends_in_img file e =
    let same : same_name (drop (length file - 4) file) img ≡ true = ground arith in
    (
      take (length file - 4) file,
      sym (take-drop (length file - 4) file)
          ∙ ap (λ t. take (length file - 4) file ++ t) (same_name→eq _ img same),
    )

-- Three arguments, of which `fuse_opt_parse` takes an image's name that ends in ".img" and that
-- can be opened.
pub record Starts (open_image : Text → Option Disk)
    (fuse_opt_parse : List Text → Option (Option Text × List Text)) (argv args : List Text)
    (d : Disk) : Type 0 where
  pub three : length argv ≡ 4
  pub base : Text
  pub parsed : fuse_opt_parse argv ≡ some (some (base ++ img), args)
  pub opens : open_image (base ++ img) ≡ some d

module _ (open_image : Text → Option Disk) (args : List Text) (d : Disk) where
  -- What `fuse_opt_parse` has found, when FUSE is started.
  abbrev Parsed : Option (Option Text × List Text) → Type 0
  Parsed r =
      (base : Text) × (r ≡ some (some (base ++ img), args)) × (open_image (base ++ img) ≡ some d)

  opened-runs :
      (found : List Text) (r : Option Disk)
      → opened open_image found r ≡ runs args d
      → (found ≡ args) × (r ≡ some d)
  opened-runs found none e = cc
  opened-runs found (some g) e = (cc, cc)

  block_init-Parsed :
      (file : Text) (found : List Text)
      → block_init open_image found file ≡ runs args d
      → Parsed (some (some file, found))
  unfolding block_init
  block_init-Parsed file found e = elim (Bool-cases (is_bad file)) [
    | inl bad ↦
        let stays : block_init open_image found file ≡ bad_name = rw bad refl in
        absurd (bad_name≢runs (sym stays ∙ e))
    | inr good ↦
        let (base, at) = ends_in_img file good in
        let goes : block_init open_image found file ≡ opened open_image found (open_image file) =
          rw good refl in
        let (same, opens) = opened-runs found (open_image file) (sym goes ∙ e) in
        (base, rw (at, same) refl, ap open_image (sym at) ∙ opens)
  ]
    where
      bad_name≢runs : bad_name ≢ runs args d
      bad_name≢runs f = cc

  after_parse-Parsed :
      (r : Option (Option Text × List Text)) → after_parse open_image r ≡ runs args d → Parsed r
  unfolding after_parse
  after_parse-Parsed none e = cc
  after_parse-Parsed (some (none, found)) e = cc
  after_parse-Parsed (some (some file, found)) e = block_init-Parsed file found e

module _ (open_image : Text → Option Disk)
    (fuse_opt_parse : List Text → Option (Option Text × List Text)) (argv args : List Text)
    (d : Disk) where
  main_runs-Starts :
      main open_image fuse_opt_parse argv ≡ runs args d
      → Starts open_image fuse_opt_parse argv args d
  unfolding main
  main_runs-Starts e = elim (Bool-cases (length argv == 4)) [
    | inl three ↦
        let goes : main open_image fuse_opt_parse argv
            ≡ after_parse open_image (fuse_opt_parse argv) =
          rw three refl in
        let (base, parsed, opens) =
          after_parse-Parsed open_image args d (fuse_opt_parse argv) (sym goes ∙ e) in
        record { three = ==→eq (length argv) 4 three; base = base; parsed = parsed; opens = opens }
    | inr other ↦
        let stays : main open_image fuse_opt_parse argv ≡ shows_usage = rw other refl in
        absurd (shows_usage≢runs (sym stays ∙ e))
  ]
    where
      shows_usage≢runs : shows_usage ≢ runs args d
      shows_usage≢runs f = cc

  -- `main` starts FUSE with the arguments `args` on the image `d` exactly when it is given three
  -- arguments, `fuse_opt_parse` makes of them `args` and some text with ".img" behind it, and `open`
  -- of that text gives `d`.
  pub main-Starts :
      (main open_image fuse_opt_parse argv ≡ runs args d)
      ↔ Starts open_image fuse_opt_parse argv args d
  unfolding main after_parse block_init
  main-Starts = (main_runs-Starts, λ s. rw (s.three, s.parsed, not_bad-append s.base, s.opens) refl)
