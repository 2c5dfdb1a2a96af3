-- ===== src/Lookup/Frame.antt =====
-- Which blocks a path is looked up in, and lookup in an image that has them unchanged.
use unix_like_file_system.Base.{ℕ, ◌≤◌, ◌<◌, ◌≡◌, refl, ◌∙◌, ◌⊎◌, inl, inr, arith, List}
use unix_like_file_system.Block.{Block}
use unix_like_file_system.Disk.{Disk}
use unix_like_file_system.Disk.Reads.{Holds}
use unix_like_file_system.Inode.{ptr}
use unix_like_file_system.Path.{Text}
use unix_like_file_system.Lookup.Resolves.{Resolves, here, into, Lists}

-- The blocks behind the first inode that the names lead through.
abbrev pub Visits :
    {d : Disk} {current : Block} {names : List Text} {n : ℕ}
    → Resolves d current names n
    → ℕ
    → Type 0
Visits (here {current} lists entry) l = ptr current 0 ≡ l
Visits (into {current} {m} is lists entry holds is' r) l =
    (ptr current 0 ≡ l) ⊎ ((m ≡ l) ⊎ Visits r l)

pub Holds-frame :
    {d g : Disk} {l : ℕ} {b : Block}
    → d.blocks ≤ g.blocks
    → g.block l ≡ d.block l
    → Holds d l b
    → Holds g l b
Holds-frame le same h = record {
  inside = omega (arith, h.inside);
  reachable = h.reachable;
  content = same ∙ h.content;
}

Lists-frame :
    {d g : Disk} {current dirs : Block} {name : Text}
    → d.blocks ≤ g.blocks
    → g.block (ptr current 0) ≡ d.block (ptr current 0)
    → Lists d current name dirs
    → Lists g current name dirs
Lists-frame le same lists = record {
  short = lists.short;
  nonempty = lists.nonempty;
  entries = Holds-frame le same lists.entries;
}

-- Where the visited blocks are unchanged, the names lead to the same inode.
pub Resolves-frame :
    {d g : Disk} {current : Block} {names : List Text} {n : ℕ} (r : Resolves d current names n)
    → d.blocks ≤ g.blocks
    → ((l : ℕ) → Visits r l → l < d.blocks → g.block l ≡ d.block l)
    → Resolves g current names n
Resolves-frame (here {current} lists entry) le same =
    here (Lists-frame le (same (ptr current 0) refl lists.entries.inside) lists) entry
Resolves-frame (into {current} {m} is lists entry holds is' r) le same =
    into is (Lists-frame le (same (ptr current 0) (inl refl) lists.entries.inside) lists) entry
      (Holds-frame le (same m (inr (inl refl)) holds.inside) holds) is'
      (Resolves-frame r le (λ l v lt. same l (inr (inr v)) lt))
