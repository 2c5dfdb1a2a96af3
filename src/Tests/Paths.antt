-- ===== src/Tests/Paths.antt =====
-- Paths, attributes and reading at concrete inputs.
use unix_like_file_system.Base.{
  none, ◌==◌, ◌+◌, ◌*◌, ◌/◌, ◌%◌, ◌^◌, ◌≡◌, ◌↔◌, refl, [], ◌∷◌, some, true, arith,
}
use unix_like_file_system.Block.{get_u32}
use unix_like_file_system.Disk.{done, failed, enoent, enotdir, zero_block}
use unix_like_file_system.Inode.{mode}
use unix_like_file_system.Path.{tokenise, tokens}
use unix_like_file_system.Path.Tokens.{
  slashed, joined, AllNames, tokenise-joined, tokenise-AllNames,
}
use unix_like_file_system.Lookup.{path2inum}
use unix_like_file_system.Lookup.Resolves.{Resolves}
use unix_like_file_system.Lookup.Missing.{stay}
use unix_like_file_system.Lookup.Paths.{path2inum-Resolves, path2inum-missing}
use unix_like_file_system.Attr.{fs_getattr, fs_chmod, fs_utime, fs_statfs}
use unix_like_file_system.Attr.Stats.{Answers, fs_getattr-Answers}
use unix_like_file_system.Attr.Mode.{Writes, fs_chmod-Writes, fs_utime-Writes}
use unix_like_file_system.Attr.Count.{Reports, used_blocks, fs_statfs-Reports}
use unix_like_file_system.Content.{fs_read, fs_truncate}
use unix_like_file_system.Content.Read.{IsCopied, fs_read-IsCopied}
use unix_like_file_system.Content.Free.{Truncates, fs_truncate-Truncates}
use unix_like_file_system.Sample.{name_x, image, super, map}
use unix_like_file_system.Tests.Facts.{
  looked_up, root, node_a, names_a, names_dx, root_there, node_a-Named, names_a-Fits, name_x-Fits,
  x_missing, a_is_file, image_has_map, super_there, map_there, few_used, small_a, fits_in_a,
  node_a-IsFile, node_a-InMap, node_a-Marks,
}

path_dx : path2inum (slashed names_dx) image ≡ failed enotdir image
unfolding looked_up
path_dx = refl

path2inum-Resolves_example :
    (path2inum (slashed names_a) image ≡ done 4 image)
    ↔ (Resolves image root names_a 4 × (image ≡ image))
path2inum-Resolves_example = path2inum-Resolves image root_there names_a 4 image names_a-Fits refl

path2inum-missing_example : path2inum (slashed (name_x ∷ [])) image ≡ failed enoent image
path2inum-missing_example = path2inum-missing image root_there [] name_x name_x-Fits stay x_missing

tokenise-joined_example : tokenise (joined names_dx) ≡ names_dx
tokenise-joined_example = tokenise-joined names_dx ((refl, tt), ((refl, tt), tt))

tokenise-AllNames_example :
    AllNames (tokenise (joined names_dx))
    × (tokens 9 (joined names_dx) ≡ tokenise (joined names_dx))
tokenise-AllNames_example = tokenise-AllNames (joined names_dx) 9 (omega arith)

fs_getattr-Answers_example : Answers image 4 node_a (fs_getattr (slashed names_a) image)
fs_getattr-Answers_example =
    fs_getattr-Answers image (slashed names_a) 4 node_a node_a-Named small_a

fs_chmod-Writes_example :
    Writes image 4 node_a 4
      (mode node_a / 2 ^ 12 * 2 ^ 12 + 384 % 2 ^ 12)
      (fs_chmod (slashed names_a) 384 image)
fs_chmod-Writes_example = fs_chmod-Writes node_a-Named (omega arith) 384

fs_utime-Writes_example :
    Writes image 4 node_a 12 (7 % 2 ^ 32) (fs_utime 9 (slashed names_a) (some 7) image)
    × Writes image 4 node_a 12 (9 % 2 ^ 32) (fs_utime 9 (slashed names_a) none image)
fs_utime-Writes_example = fs_utime-Writes node_a-Named (omega arith) 9 7 a_is_file

fs_statfs-Reports_example : Reports image (get_u32 super 4) (used_blocks image) (fs_statfs image)
fs_statfs-Reports_example = fs_statfs-Reports image super map super_there map_there few_used

fs_read-IsCopied_example :
    IsCopied image node_a 3 1 0 zero_block
      (fs_read zero_block (slashed names_a) zero_block 3 1 image)
fs_read-IsCopied_example =
    fs_read-IsCopied image (slashed names_a) 4 node_a zero_block zero_block 3 1 node_a-Named
      a_is_file node_a-IsFile

fs_truncate-Truncates_example :
    Truncates image 4 (λ j. 5 == j) node_a (fs_truncate (slashed names_a) true image)
fs_truncate-Truncates_example =
    fs_truncate-Truncates image (slashed names_a) 4 node_a node_a-Named (λ j. 5 == j) node_a-Marks
      a_is_file fits_in_a node_a-InMap (omega arith) (omega arith) image_has_map
