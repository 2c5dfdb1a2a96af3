-- ===== src/Lib.antt =====
-- A Unix-like file system in a disk image, served through FUSE: a verification library for fs5600.c,
-- misc.c and lab4fuse.c.
--
-- The program keeps its whole state in a disk image of 4096-byte blocks: block 0 is the superblock,
-- block 1 a bitmap of the blocks in use, block 2 the root directory's inode; an inode fills a block and
-- points to data blocks, and a directory has one block of 128 entries. FUSE calls the functions of
-- fs5600.c, which translate a path to an inode number, read and change blocks, and return 0, a count
-- or a negative error number. All disk access goes through block_read and block_write of misc.c.
--
-- Base            the names of the standard library that the files share; Base.Tests comparisons and
--                 case splits, Base.Lists lists, Base.Bits and Base.Masks bit operations, Base.Int int32_t
-- Block           a block as a function from a byte's place to its value, and its 16- and 32-bit words
-- Disk            the image; a call is a function from an image to an Outcome, which is a value with the
--                 new image, an error number with the image, a failed assertion, or undefined behaviour.
--                 Disk.Reads: calls that only read; Disk.Finds: what such a call says of an image;
--                 Disk.Writes: what a block_write leaves
-- Misc            block_read and block_write of misc.c over lseek, read and write, which are
--                 parameters; Misc.Refines: how they relate to those of Disk
-- Bitmap          bit_set, bit_clear, bit_test, alloc_blk and free_blk of fs5600.c
-- Inode           struct fs_inode and struct fs_dirent of fs5600.h as offsets in a block;
--                 Inode.Entries: writing one directory entry
-- Path            tokenise and strtok
-- Lookup          path2inum; Lookup.Resolves: what it means for names to lead to an inode;
--                 Lookup.Frame: lookup in an image that has changed elsewhere, Lookup.Names: a
--                 block of entries as a map from names to inode numbers
-- Attr            inode2stat, fs_init, fs_statfs, fs_getattr, fs_readdir, fs_chmod, fs_utime;
--                 Attr.Texts: C strings in a block, Attr.Shown and Attr.Listing: fs_readdir
-- Content         fs_read, fs_write, fs_truncate; the loop of fs_write goes through Content.Owns (what
--                 is kept of a file), Put and Extend (one round's two cases), Round and Write;
--                 Content.Saved and Content.Save have fs_write as a whole, Content.Refused its
--                 errors, Content.Back fs_read behind it
-- Entry           fs_create, fs_mkdir, fs_rename; Entry.Vacant and Entry.Create have what the first
--                 two share, Entry.Full and Entry.NoEntry what happens where there is no room;
--                 Entry.NewFile: a file that is made, written and read; Entry.Updates and
--                 Entry.NameMap: a directory as a map from names to inode numbers
-- Remove          fs_unlink, fs_rmdir; Remove.Searches: what their loops over the entries look for,
--                 Remove.Dropped: what the two have in common, Remove.NameMap: the parent as a map,
--                 Remove.Root: the root directory
-- Serve           fs_ops: one function that serves every request; Serve.Preserves, Serve.Reading and
--                 Serve.Calls follow the writes of each call, Serve.History sequences of requests
-- Tree            the whole image: a role for each block, and what it means that inodes, entries and
--                 map agree with the roles. Tree.Apart, Tree.Shrink, Tree.Grow, Tree.Change: roles, and
--                 images with fewer, more, or the same blocks in use; Tree.Find, Tree.Walk, Tree.Looks,
--                 Tree.Reading: paths and what is read before a change; Tree.Query: the calls that
--                 only read; Tree.Fields (fs_chmod, fs_utime), Tree.Rename, Tree.Dropped and
--                 Tree.Remove (fs_unlink, fs_rmdir), Tree.Truncate, Tree.Written and Tree.Write,
--                 Tree.Added, Tree.NewFile, Tree.NewDir, Tree.Home, Tree.Create and Tree.MakeDir: one
--                 call each; Tree.Requests: sequences of requests; Tree.Visited, Tree.Files,
--                 Tree.Carried, Tree.Spares, Tree.Spared, Tree.Untouched, Tree.Others: files
--                 that are written and read
-- Main            main of lab4fuse.c and block_init of misc.c, up to the call of fuse_main
-- Sample, Tests   small images, and the theorems at concrete inputs on it
--
-- A function of the source has the definition of the same name. Its parts (the checks with which two
-- calls begin, the loops) are definitions of their own. Numbers are natural numbers; an int or an
-- unsigned int is its 32-bit pattern where its sign or its wrap-around matters. The variable that a
-- call declares and does not fill (an inode, a buffer) is an argument `stack`; the time, the caller and
-- the FUSE buffer are arguments. Where the C code would write or read outside of an array, overflow
-- an int, or use a buffer that a failed read left unfilled, the outcome is a fault. The image file is a
-- whole number of blocks long.
--
-- In Disk, on which fs5600.c is modelled, a block_write that does not stop or overflow stores the block:
-- the image's device has room and no errors. In misc.c it also returns -EIO, where a seek is refused or
-- a write fails or falls short; Misc models these returns and Misc.Refines says when they happen.
-- fs5600.c looks at the result of block_write at one place, in fs_rename, which then returns -EINVAL;
-- rename_in has this test, and no other call would take notice.
--
-- Loops over the map, the entries and the pointers recurse on the number of rounds that the code
-- states. tokens recurses on a number above the length of the text, and the loops of fs_read and
-- fs_write on len + 1, since every round copies at least one byte.
--
-- The path of a proper request of Tree.Requests is "/", or names with a slash in front of each, no
-- more and no longer than the arrays of path2inum hold: FUSE passes such paths, and longer ones, for
-- which path2inum writes out of bounds. Left out are also requests that take away or make the root
-- directory, and a rename to a name for which an entry has no room: Remove.Root and Entry.Rename say
-- what these do.
--
-- Not modelled: the calls of fs5600.c on a device whose writes fail; what lab4fuse.c and block_init print; the FUSE library, the system calls and
-- fuse_opt_parse, which are parameters; test1.c and test2.c, and the Python tools.
pub mod Base
pub mod Block
pub mod Disk
pub mod Bitmap
pub mod Inode
pub mod Path
pub mod Lookup
pub mod Attr
pub mod Content
pub mod Entry
pub mod Remove
pub mod Serve
pub mod Tree
pub mod Sample
mod Tests
pub mod Misc
pub mod Main
