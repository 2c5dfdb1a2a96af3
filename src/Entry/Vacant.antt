-- ===== src/Entry/Vacant.antt =====
-- A path at which a file or a directory can be made: the checks of `fs_create` and `fs_mkdir` pass.
use unix_like_file_system.Base.{ℕ, ◌≡◌, refl, true, false, ltb, List, [], ◌∷◌, ◌++◌, length, arith}
use unix_like_file_system.Block.{Block}
use unix_like_file_system.Disk.{Disk, done}
use unix_like_file_system.Disk.Reads.{Holds, read_unchecked-Holds}
use unix_like_file_system.Inode.{is_dir}
use unix_like_file_system.Path.{Text}
use unix_like_file_system.Path.Tokens.{slashed}
use unix_like_file_system.Lookup.{from_root, root_inum}
use unix_like_file_system.Lookup.Missing.{Leads, IsMissing, not_last}
use unix_like_file_system.Lookup.Paths.{Fits, path2inum-missing}
use unix_like_file_system.Entry.{starts_with_slash, parent_inode, before_new}
use unix_like_file_system.Entry.Parent.{path2inum-parent_of, split_path-slashed, last_token-append}

-- The names lead to the directory `parent` with the number `inum`, where `name` is missing.
pub record Vacant (d : Disk) (names : List Text) (name : Text) (inum : ℕ) (parent : Block)
    : Type 0 where
  pub fits : Fits (names ++ name ∷ [])
  pub root : Block
  pub root_there : Holds d root_inum root
  pub leads : Leads d root names parent
  pub found : from_root names d ≡ done inum d
  pub holds : Holds d inum parent
  pub directory : is_dir parent ≡ true
  pub missing : IsMissing d parent name

starts : (names : List Text) (name : Text) → starts_with_slash (slashed (names ++ name ∷ [])) ≡ true
starts [] name = refl
starts (t ∷ ts) name = refl

module _ {d : Disk} {names : List Text} {name : Text} {inum : ℕ} {parent : Block}
    (v : Vacant d names name inum parent) where
  parent_inode-done :
      parent_inode (slashed (names ++ name ∷ [])) (names ++ name ∷ []) d ≡ done (inum, parent) d
  unfolding parent_inode
  parent_inode-done =
      rw (
        path2inum-parent_of d names name v.fits,
        v.found,
        read_unchecked-Holds v.holds,
        v.directory,
      )

  pub before_new-done : before_new (slashed (names ++ name ∷ [])) d ≡ done (name, inum, parent) d
  unfolding before_new
  before_new-done =
      let short : ltb 27 (length name) ≡ false = ground (arith, v.missing.listed.short) in
      rw (
        starts names name,
        path2inum-missing d v.root_there names name v.fits v.leads v.missing,
        split_path-slashed d (names ++ name ∷ []) v.fits (not_last names name),
        last_token-append d names name,
        short,
        parent_inode-done,
      )
