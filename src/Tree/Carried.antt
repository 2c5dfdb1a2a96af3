-- ===== src/Tree/Carried.antt =====
-- Lookups in an image in which directories still hold what they held.
use unix_like_file_system.Base.{ℕ, ◌≤◌, ◌≡◌, refl, sym, ap, ◌∙◌, true, List, arith}
use mathlib.Core.Path.{subst}
use unix_like_file_system.Block.{Block}
use unix_like_file_system.Disk.{Disk}
use unix_like_file_system.Disk.Reads.{Holds}
use unix_like_file_system.Inode.{size, ptr, is_dir}
use unix_like_file_system.Path.{Text}
use unix_like_file_system.Lookup.Resolves.{HasEntry, Lists, Resolves, here, into}
use unix_like_file_system.Tree.{Role, listing, IsInode, IsTree}
use unix_like_file_system.Tree.Find.{IsIn-Entry, Entry-IsInode, entries_of}
use unix_like_file_system.Tree.Change.{Alike}

-- Directories have the same entry blocks, and each name that these had leads where it led.
pub record Carries (d g : Disk) (role : ℕ → Role) : Type 0 where
  pub not_smaller : d.blocks ≤ g.blocks
  pub inodes :
      (m : ℕ) → IsInode (role m) → is_dir (d.block m) ≡ true → Alike (d.block m) (g.block m)
  pub entries :
      (e m : ℕ)
      → role e ≡ listing m
      → (name : Text) (n : ℕ) → HasEntry (d.block e) name n
      → HasEntry (g.block e) name n

module _ {d g : Disk} {role : ℕ → Role} (t : IsTree d role) (c : Carries d g role) where
  pub still_there : {l : ℕ} {b : Block} → Holds d l b → Holds g l (g.block l)
  still_there h = record {
    inside = omega (arith, h.inside, c.not_smaller);
    reachable = h.reachable;
    content = refl;
  }

  module _ (m : ℕ) {current : Block} (at : d.block m ≡ current) (is : IsInode (role m))
      (directory : is_dir current ≡ true) where
    alike : Alike (d.block m) (g.block m)
    alike = c.inodes m is (ap is_dir at ∙ directory)

    Lists-carried :
        {dirs : Block} {name : Text}
        → Lists d current name dirs
        → Lists g (g.block m) name (g.block (ptr current 0))
    Lists-carried {dirs} {name} lists =
        let same : ptr (g.block m) 0 ≡ ptr current 0 = alike.same_ptr 0 ∙ ap (λ b. ptr b 0) at in
        record {
          short = lists.short;
          nonempty = λ z. lists.nonempty (ap size (sym at) ∙ sym alike.same_size ∙ z);
          entries =
              subst (λ l. Holds g l (g.block (ptr current 0))) (sym same)
                (still_there lists.entries);
        }

    HasEntry-carried :
        {dirs : Block} {name : Text} {n : ℕ}
        → Lists d current name dirs
        → HasEntry dirs name n
        → HasEntry (g.block (ptr current 0)) name n
    HasEntry-carried {dirs} {name} {n} lists entry =
        c.entries (ptr current 0) m
          (ap (λ b. role (ptr b 0)) (sym at) ∙ entries_of t m is (ap is_dir at ∙ directory)) name n
          (subst (λ b. HasEntry b name n) (sym lists.entries.content) entry)

  pub Resolves-carried :
      (m : ℕ) {current : Block} {names : List Text} {n : ℕ}
      → d.block m ≡ current
      → IsInode (role m)
      → is_dir current ≡ true
      → Resolves d current names n
      → Resolves g (g.block m) names n
  Resolves-carried m at is directory (here lists entry) =
      here (Lists-carried m at is directory lists) (HasEntry-carried m at is directory lists entry)
  Resolves-carried m at is directory (into {dirs} {name} {m = next} is' lists entry holds is'' r) =
      let (k, e) = IsIn-Entry t m name at is directory (dirs, lists, entry) in
      let inode = Entry-IsInode t e in
      into ((alike m at is directory).same_dir ∙ ap is_dir at ∙ directory)
        (Lists-carried m at is directory lists) (HasEntry-carried m at is directory lists entry)
        (still_there holds)
        ((alike next holds.content inode is'').same_dir ∙ ap is_dir holds.content ∙ is'')
        (Resolves-carried next holds.content inode is'' r)
