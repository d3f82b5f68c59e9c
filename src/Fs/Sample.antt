-- ===== src/Fs/Sample.antt =====
-- A file system for examples: a mount point at page 10 with the files "/a" and "/b".
use xipfs.Base.{
  ℕ, zero, suc, ◌+◌, ◌≡◌, ◌≢◌, refl, inl, inr, true, false, Option, none, some, [], ◌∷◌, List,
  Bytes, overlay, of_list, arith,
}
use xipfs.Errno.{efull}
use xipfs.State.{World, Mount, desc_free}
use xipfs.Buffer.{initial_buffer}
use xipfs.File.{filp_error, path_error, path_loop, path_charset_check, link_error}
use xipfs.File.Check.{filp_error_iff}
use xipfs.Fs.{new_header}
use xipfs.Fs.Tail.{HasFiles}

abbrev pub two_files : Bytes
two_files =
    overlay (overlay (λ _. 255) 40960 (new_header (of_list (b'/' ∷ b'a' ∷ [])) 45056 4096 0) 420)
      45056 (new_header (of_list (b'/' ∷ b'b' ∷ [])) 49152 4096 1) 420

abbrev pub mount : Mount
mount = record {
  magic = 0;
  mount_path = none;
  page_num = 8;
  page_addr = 40960;
  execution_mutex = 0;
  mutex = 0;
}

abbrev pub world : World
world = record {
  mem = two_files;
  buffer = initial_buffer;
  errno = efull;
  open_desc = λ _. record { type = desc_free; addr = 0 };
  file_descs = λ _. record { filp = 0; pos = 0; flags = 0 };
  dir_descs = λ _. record { filp = 0; dirname = λ _. 0 };
}

pub two_files-HasFiles : HasFiles two_files mount (45056 ∷ [])
unfolding filp_error new_header xipfs.Flash.flash_page_aligned xipfs.Flash.flash_in
    xipfs.Base.read_32 xipfs.Base.byte_of link_error path_error xipfs.Base.strnlen path_loop
    path_charset_check
two_files-HasFiles = (
  λ h. omega (arith, h),
  (
    (filp_error_iff two_files 40960).0 refl,
    refl,
    omega arith,
    λ h. omega (arith, h),
    ((filp_error_iff two_files 45056).0 refl, inr (λ h. omega (arith, h), refl)),
  ),
  omega arith,
)
