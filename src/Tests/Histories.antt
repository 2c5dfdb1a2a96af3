-- ===== src/Tests/Histories.antt =====
-- Requests that are served one after the other, at the sample image.
use unix_like_file_system.Base.{◌≡◌, refl, some, ◌∷◌, [], arith}
use unix_like_file_system.Block.{get_u32, set_u32}
use unix_like_file_system.Disk.{Disk, done, zero_block, block_read, write_at}
use unix_like_file_system.Disk.Reads.{read_unchecked-Holds}
use unix_like_file_system.Disk.Writes.{block_write-done}
use unix_like_file_system.Inode.{mode}
use unix_like_file_system.Path.Tokens.{slashed}
use unix_like_file_system.Attr.{
  mounted, fs_init, inode_of, existing, fs_getattr, fs_chmod, with_permissions,
}
use unix_like_file_system.Serve.{Request, chmod, getattr, serve}
use unix_like_file_system.Serve.History.{
  image_of, History, start, later, HasSuper, History-HasSuper, fs_init-History, query_unchanged,
}
use unix_like_file_system.Sample.{image, name_x, super}
use unix_like_file_system.Tests.Facts.{names_a, node_a, a_there, path_a, path_x, image_has_map}
use unix_like_file_system.Tests.Places.{caller}

abbrev private_a : Request
private_a = chmod (slashed names_a) 448

abbrev changed : Disk
changed = write_at 4 (set_u32 node_a 4 (with_permissions (mode node_a) 448)) image

served : image_of (serve zero_block caller private_a image) ≡ some changed
unfolding serve fs_chmod
served =
    rw
      (
        path_a,
        read_unchecked-Holds a_there,
        block_write-done 4 (set_u32 node_a 4 (with_permissions (mode node_a) 448)) image
            (omega arith) (omega arith),
      )
      refl

one_request : History image changed
one_request = later zero_block caller private_a start served

accepted : fs_init image ≡ done mounted image
unfolding fs_init block_read image super get_u32 set_u32
accepted = refl

History-HasSuper_example : HasSuper (image.block 0) image.blocks changed
History-HasSuper_example = History-HasSuper (omega (arith, image_has_map)) one_request

fs_init-History_example : fs_init changed ≡ done mounted changed
fs_init-History_example = fs_init-History accepted one_request

asked : image_of (serve zero_block caller (getattr (slashed (name_x ∷ []))) image) ≡ some image
unfolding serve fs_getattr inode_of existing image
asked = rw path_x refl

query_unchanged_example : image ≡ image
query_unchanged_example =
    query_unchanged zero_block caller (getattr (slashed (name_x ∷ []))) image refl asked
