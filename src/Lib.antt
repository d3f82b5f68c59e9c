-- ===== src/Lib.antt =====
-- Verification of xipfs, a file system in the flash memory of a microcontroller, whose files are
-- executed in place.
--
-- The program. A mount point is a row of flash pages. Every file takes whole pages and starts with a
-- structure (include/xipfs.h, `xipfs_file_t`): the address of the next file, the path, the reserved
-- size, a table of sizes of which the last one counts, and the execution right. A file may only be
-- added behind the last one (src/fs.c), and the removal of a file moves the later ones down.
-- Sizes and contents are read and written through one static buffer of a page (src/buffer.c), which
-- writes its page back when another page is wanted or on a flush; it erases the page before, if a bit
-- has to be set again, by src/flash.c. Structures of open files and directories are registered in a
-- static table (src/desc.c), so that a removal can adjust them. What a path refers to is found out
-- by comparing it with the path of every file (src/path.c). The functions of src/fs.c and
-- src/file.c report errors in the global `xipfs_errno` (src/errno.c) and a negative value. The
-- driver (src/driver.c) puts all of that together: each of its functions checks the mount point, the
-- descriptor or the path, calls the other parts and turns their failures into error numbers of POSIX.
-- src/mpu_driver.c computes the attributes of a region of the memory protection unit.
--
-- Which file models which part.
--   Base.antt      Boolean tests, lists, byte memories, words, C strings
--   State.antt     the shared state `World`, the structures, and functions as a monad over the state
--   Errno.antt     src/errno.c: `strerror` for xipfs_strerror
--   Posix.antt     the values of <errno.h> that the source returns
--   Flash.antt     src/flash.c: `flash_in` for xipfs_flash_in and so on; proofs in Flash/Write.antt
--                  and Flash/Erase.antt; the flash driver is the parameter `Nvm`, what is relied on
--                  of it is `IsNvm` (Flash/Laws.antt, which says where that goes beyond the promises
--                  of include/xipfs.h), and Flash/Device.antt is a driver that meets it
--   Buffer.antt    src/buffer.c: `buffer_flush` for xipfs_buffer_flush and so on. `view` is what the
--                  buffered functions show: the flash with the buffered page laid over it
--                  (Buffer/View.antt). Buffer/Flush, Access, Read, Write, Words and Erase.antt prove
--                  each operation against it; Buffer/Settle.antt follows bytes that a change of the
--                  page writes back
--   Desc.antt      src/desc.c: `desc_track` for _xipfs_desc_track and so on; the invariant `IsTable`
--                  in Desc/Table.antt, the proofs in Desc/Track.antt, Desc/Update.antt
--                  and Desc/UntrackAll.antt
--   File.antt      src/file.c without the execution of a binary: `filp_error` and `file_filp_check` for
--                  xipfs_file_filp_check, `file_set_size` for xipfs_file_set_size and so on; proofs in
--                  File/Paths.antt, File/Check.antt, File/Contents.antt and File/Stale.antt;
--                  File/Sizes.antt and its children are about the table of sizes, File/Same.antt
--                  about structures with the same bytes
--   Fs.antt        src/fs.c: `fs_next` for xipfs_fs_next, `fs_remove` for xipfs_fs_remove and so on.
--                  Fs/List.antt has the walks along the files and the free pages; Fs/Chain.antt the
--                  list of files as a predicate, Fs/Tail.antt the walks over it; Fs/Header.antt,
--                  Fs/NewFile.antt, Fs/Placed.antt and Fs/Append.antt are about a new file,
--                  Fs/Format.antt about the format; Fs/Catalogue.antt is what the users of a mount
--                  point see of it, Fs/Catalogue/Create.antt the theorem that a new file refines it,
--                  from the first one in Fs/Catalogue/First.antt and the further ones in
--                  Fs/Catalogue/Next.antt; Fs/Sample.antt is a small file system for examples
--   Path.antt      src/path.c: `path_new_n` for xipfs_path_new_n and so on. Path/Strings.antt has the
--                  functions on characters, Path/Compare.antt what they say of two paths,
--                  Path/Identify.antt the structures that are returned, Path/Walk.antt the walk over
--                  the files
--   Driver.antt    src/driver.c: Driver/Checks.antt has the checks of mount points and descriptors
--                  (`mp_error` for xipfs_mp_check, `file_desc_error` for xipfs_file_desc_check),
--                  Driver/Files.antt the functions on open files (`open_` for xipfs_open, `write` for
--                  xipfs_write and so on), Driver/Dirs.antt those on open directories,
--                  Driver/Volume.antt those on a whole mount point, Driver/Names.antt those on paths,
--                  Driver/Rename.antt xipfs_rename and Driver/Exec.antt xipfs_execv_check; the proofs
--                  stand in the child modules of Files, Dirs, Volume, Names and Exec;
--                  Driver/Sample.antt is a mount point for examples
--   Mpu.antt       src/mpu_driver.c: `configure_region` for xipfs_mpu_configure_region; proofs in
--                  Mpu/Region.antt, on the halves of words of Base/Bits.antt
--
-- Representation. A memory is a function from addresses to bytes; a pointer is an address, the null
-- pointer 0. Words are natural numbers with the wrap-around at 2^32 written out; a signed 32-bit
-- number is its bit pattern, negative above `int_max`, and where a sum of such numbers overflows, it is
-- taken to wrap round. A function that may fail returns an
-- `Outcome`, which holds the state that it leaves in either case. Assertions of the source have no
-- counterpart: the model is that of a build without them. The error number that
-- xipfs_flash_erase_page sets is set by `erase_page` and `buffer_erase`, which are its callers. The
-- constants are those of boards/dwm1001/xipfs_config.h and, for the flags of open files, of newlib:
-- 128 pages of 4096 bytes from address 0. The address of the virtual file `.xipfs_infos` is the
-- parameter `infos` of the driver; the bytes of the mount structure, which it is read from, are
-- another argument.
--
-- Bounds and fuel. The loops over arrays, pages and slots recur on the number of rounds left. A walk
-- along the files has the fuel `walk_fuel`, 129: a link leads to a later page of the flash, so no walk
-- visits more files than there are pages, and the walk ends on every memory. The consolidation of
-- xipfs_fs_remove has the same fuel and stops with an error without it, and the loop of xipfs_readdir
-- one round more.
--
-- Not modelled. The execution of a binary (the rest of src/file.c, src/shared_api.c, and in
-- src/driver.c what xipfs_execv and xipfs_safe_execv do behind the check) is assembly and registers.
-- The mutexes of a mount point are only tested for null: no function of the sources locks them.
-- Descriptor structures are cells by address, and no file descriptor shares its cell with a directory
-- descriptor.
pub mod Base
pub mod Errno
pub mod State
pub mod Flash
pub mod Buffer
pub mod Posix
pub mod Desc
pub mod File
pub mod Fs
pub mod Path
pub mod Driver
pub mod Mpu
