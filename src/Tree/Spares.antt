-- ===== src/Tree/Spares.antt =====
-- Calls that change one file: what they leave of the other blocks in use.
use unix_like_file_system.Base.{Bool, ℕ, ◌≤◌, ◌≡◌, ◌≢◌, sym, ap, ◌∙◌, false, arith}
use unix_like_file_system.Disk.{Disk}
use unix_like_file_system.Inode.{is_dir}
use unix_like_file_system.Content.{Buffer}
use unix_like_file_system.Content.Owns.{Unsaved}
use unix_like_file_system.Content.Saved.{Saved}
use unix_like_file_system.Tree.{Role, content, IsInode, Marked, IsTree}
use unix_like_file_system.Content.Free.{Truncated}
use mathlib.Core.Path.{subst}
use mathlib.Core.Bool.{false≢true}
use unix_like_file_system.Lookup.Resolves.{HasEntry}
use unix_like_file_system.Tree.Find.{inode-Marked, listing-Marked}
use unix_like_file_system.Tree.Apart.{listing≢content}
use unix_like_file_system.Tree.Change.{Alike, Alike-refl, listing-ne-inode}
use unix_like_file_system.Tree.Carried.{Carries}

-- Of the blocks that were in use, only the map, the inode `n` and the blocks of the file `n` have changed.
pub record Spares (d g : Disk) (role : ℕ → Role) (n : ℕ) : Type 0 where
  pub not_smaller : d.blocks ≤ g.blocks
  pub same : (l : ℕ) → Marked d l → l ≢ n → ((b : ℕ) → role l ≢ content n b) → g.block l ≡ d.block l

module _ {d g : Disk} {role : ℕ → Role} (t : IsTree d role) {n : ℕ} (is : IsInode (role n))
    (file : is_dir (d.block n) ≡ false) where
  pub Saved-Spares :
      {buf : Buffer} {offset len now : ℕ}
      → Saved d g n (d.block n) buf offset len now
      → Spares d g role n
  Saved-Spares s = record {
    not_smaller = s.not_smaller;
    same = λ l m ne other.
        s.same_files l (λ e. absurd (omega (arith, m.range))) ne m.used
          (λ b lt at. other b (ap role (sym at) ∙ (t.node n is).contents file b lt)) m.inside;
  }

  pub Unsaved-Spares : Unsaved d g (d.block n) → Spares d g role n
  Unsaved-Spares s = record {
    not_smaller = s.not_smaller;
    same = λ l m ne other.
        s.same_files l (λ e. absurd (omega (arith, m.range))) m.used
          (λ b lt at. other b (ap role (sym at) ∙ (t.node n is).contents file b lt)) m.inside;
  }

  pub Truncated-Spares : {gone : ℕ → Bool} → Truncated d g n gone (d.block n) → Spares d g role n
  Truncated-Spares s = record {
    not_smaller = omega (arith, s.same_blocks);
    same = λ l m ne other. s.same_files l (λ e. absurd (omega (arith, m.range))) ne m.inside;
  }

  module _ (s : Spares d g role n) where
    pub Spares-Alike : (m : ℕ) → IsInode (role m) → m ≢ n → Alike (d.block m) (g.block m)
    Spares-Alike m is' ne =
        subst (Alike (d.block m))
          (sym (s.same m (inode-Marked t m is') ne (λ b at. subst IsInode at is')))
          (Alike-refl (d.block m))

    -- The inode `n` is no directory, and no entry block.
    pub Spares-Carries : Carries d g role
    Spares-Carries = record {
      not_smaller = s.not_smaller;
      inodes = λ m is' directory.
          Spares-Alike m is'
            (λ e. false≢true (sym file ∙ ap (λ i. is_dir (d.block i)) (sym e) ∙ directory));
      entries = λ e m at name k h.
          subst (λ b. HasEntry b name k)
            (sym (
              s.same e (listing-Marked t at) (listing-ne-inode role at is)
                (λ b at'. listing≢content (sym at ∙ at'))))
            h;
    }
