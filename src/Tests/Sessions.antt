-- ===== src/Tests/Sessions.antt =====
-- Requests to the image with two files, one after the other.
use unix_like_file_system.Base.{
  ℕ, ◌<◌, ◌≡◌, ◌≢◌, refl, sym, ◌∙◌, [], ◌∷◌, true, false, some, arith, List,
}
use unix_like_file_system.Block.{Block, get_u32, set_u32}
use unix_like_file_system.Disk.{Disk, Outcome, done, zero_block, block_read, write_at}
use unix_like_file_system.Disk.Reads.{Holds, read_unchecked-Holds}
use unix_like_file_system.Disk.Writes.{block_write-done}
use unix_like_file_system.Bitmap.Alloc.{in_use}
use unix_like_file_system.Inode.{mode, size, ptr, is_dir, rounds_up, same_text}
use unix_like_file_system.Path.{Text, skip, word, strtok, tokens, tokenise}
use unix_like_file_system.Path.Tokens.{slashed}
use unix_like_file_system.Lookup.{
  find_entry, enter, lookup_entry, descend, walk, from_root, path2inum,
}
use unix_like_file_system.Attr.{fs_chmod, with_permissions}
use unix_like_file_system.Content.{fs_write}
use unix_like_file_system.Content.Back.{ReadsBack}
use unix_like_file_system.Serve.{Request, chmod, create, write, serve}
use unix_like_file_system.Serve.History.{image_of}
use unix_like_file_system.Sample.{pair_image, block_of, root_entries, inode, name_a, name_d, name_x}
use unix_like_file_system.Tests.Facts.{names_a, names_a-Fits, name_d-Fits, name_x-Fits}
use unix_like_file_system.Tests.Places.{caller, name_x-IsText}
use unix_like_file_system.Tests.Trees.{pair_image-Consistent}
use unix_like_file_system.Tree.{Keeps}
use unix_like_file_system.Tree.Looks.{IsNormal, below}
use unix_like_file_system.Tree.Requests.{
  under, serve-Keeps, Session, fresh, then_serve, Session-apart,
}
use unix_like_file_system.Tree.Files.{Session-ReadsBack}
use unix_like_file_system.Tree.Others.{Session-KeepsFile}
use unix_like_file_system.Tree.Spared.{KeepsFile}

serve-Keeps_example :
    Keeps (serve zero_block caller (create (slashed (name_x ∷ [])) 420) pair_image)
serve-Keeps_example =
    serve-Keeps zero_block caller (create (slashed (name_x ∷ [])) 420) pair_image-Consistent
      (under [] name_x name_x-Fits name_x-IsText)

abbrev names_d : List Text
names_d = name_d ∷ []

a-IsNormal : IsNormal (slashed names_a)
a-IsNormal = below [] name_a names_a-Fits

d-IsNormal : IsNormal (slashed names_d)
d-IsNormal = below [] name_d name_d-Fits

abbrev file_a : Block
file_a = inode 0x81a4 5 5

a_there : Holds pair_image 4 file_a
unfolding pair_image block_of
a_there = record { inside = omega arith; reachable = omega arith; content = refl }

abbrev private_a : Request
private_a = chmod (slashed names_a) 448

abbrev private_file : Block
private_file = set_u32 file_a 4 (with_permissions (mode file_a) 448)

abbrev changed : Disk
changed = write_at 4 private_file pair_image

-- Everything that looking up a path in these images computes with.
unfoldable looked_up : List Text → Disk → Outcome ℕ
unfolding path2inum from_root walk descend lookup_entry enter find_entry tokenise tokens strtok word
    skip same_text block_read pair_image block_of root_entries is_dir get_u32
looked_up names d = path2inum (slashed names) d

path_a : path2inum (slashed names_a) pair_image ≡ done 4 pair_image
unfolding looked_up
path_a = refl

served : image_of (serve zero_block caller private_a pair_image) ≡ some changed
unfolding serve fs_chmod
served =
    rw
      (
        path_a,
        read_unchecked-Holds a_there,
        block_write-done 4 private_file pair_image (omega arith) (omega arith),
      )
      refl

-- The permissions of "a" have been changed.
session : Session pair_image changed
session = then_serve zero_block caller private_a fresh a-IsNormal served

path_a_after : path2inum (slashed names_a) changed ≡ done 4 changed
unfolding looked_up
path_a_after = refl

path_d_after : path2inum (slashed names_d) changed ≡ done 6 changed
unfolding looked_up
path_d_after = refl

kinds : (is_dir (changed.block 4) ≡ false) × (is_dir (changed.block 6) ≡ false)
unfolding pair_image block_of is_dir get_u32 set_u32 inode with_permissions
kinds = (refl, refl)

sizes : (size (changed.block 4) ≡ 5) × (size (changed.block 6) ≡ 3)
unfolding pair_image block_of get_u32 set_u32 inode with_permissions
sizes = (refl, refl)

one_block : (0 < rounds_up (size (changed.block 4))) × (0 < rounds_up (size (changed.block 6)))
unfolding rounds_up
one_block = (rw (sizes.0) (omega arith), rw (sizes.1) (omega arith))

Session-apart_example :
    (in_use changed (ptr (changed.block 4) 0) ≡ true)
    × (ptr (changed.block 4) 0 ≢ ptr (changed.block 6) 0)
Session-apart_example =
    Session-apart pair_image-Consistent session a-IsNormal d-IsNormal path_a_after path_d_after
      (λ e. absurd (omega (arith, e))) kinds.0 kinds.1 0 0 one_block.0 one_block.1

Session-ReadsBack_example :
    ReadsBack zero_block
      (slashed names_a)
      zero_block
      zero_block
      5000
      3
      (fs_write 9 zero_block (slashed names_a) zero_block 5000 3 changed)
Session-ReadsBack_example =
    Session-ReadsBack [] name_a zero_block zero_block zero_block 3 5000 9 pair_image-Consistent
      session names_a-Fits path_a_after kinds.0 (omega (arith, sizes.0)) (omega arith)

elsewhere : path2inum (slashed names_d) changed ≢ done 4 changed
elsewhere e = absurd (omega (arith, same_value changed (sym path_d_after ∙ e)))
  where
    same_value : {n m : ℕ} (d : Disk) → done n d ≡ done m d → n ≡ m
    same_value d h = ground arith

Session-KeepsFile_example :
    KeepsFile zero_block
      (slashed names_a)
      4
      zero_block
      5
      0
      changed
      (serve zero_block caller (write (slashed names_d) zero_block 5000 3) changed)
Session-KeepsFile_example =
    Session-KeepsFile [] name_a zero_block zero_block zero_block 5 0 caller
      (write (slashed names_d) zero_block 5000 3) pair_image-Consistent session names_a-Fits
      path_a_after kinds.0 (d-IsNormal, omega arith) elsewhere
