-- ===== src/Fs/Tests.antt =====
-- Examples for src/fs.c.
use xipfs.Base.{
  ℕ, zero, suc, ◌+◌, ◌-◌, ◌<◌, ◌≡◌, ◌≢◌, refl, ap, inl, inr, true, none, some, [], ◌∷◌, Bytes,
  of_list, arith, ltb, if◌then◌else◌,
}
use xipfs.State.{Ensures, buffer_dirty}
use xipfs.Base.{◌*◌, ◌≤◌, ◌⊎◌}
use xipfs.Buffer.View.{IsCoherent, IsReliable}
use xipfs.Flash.Device.{device, device-IsNvm}
use xipfs.File.{file_next, file_reserved, file_exec, filp_error, file_path, path_charset_check}
use xipfs.File.Paths.{IsPath}
use xipfs.Fs.{new_header, fs_tail, fs_new_file, reserved_for, round_page}
use xipfs.Fs.Append.{fs_new_file-HasFiles}
use xipfs.Fs.Tail.{HasFiles, total_reserved, Tail, fs_tail_lem}
use xipfs.Fs.Header.{HoldsHeader, new_header-filp_error}
use xipfs.Fs.Sample.{two_files, mount, world, two_files-HasFiles}

fs_tail_lem_example : Tail world mount (fs_tail mount world)
fs_tail_lem_example = fs_tail_lem world mount

-- Sixty-three slashes.
abbrev long_path : Bytes
long_path i = if ltb i 63 then b'/' else 0

long_path-IsPath : IsPath long_path
unfolding path_charset_check
long_path-IsPath = record {
  not_empty = λ h. omega (arith, h);
  len = 63;
  bound = omega arith;
  ends = record { from = omega arith; nul = refl; charset = λ j le lt. ground arith };
}

abbrev short_path : Bytes
short_path = of_list (b'/' ∷ b'c' ∷ [])

short_path_charset : (j : ℕ) → j < 2 → path_charset_check (short_path j) ≡ true
unfolding path_charset_check
short_path_charset zero lt = refl
short_path_charset (suc zero) lt = refl
short_path_charset (suc (suc j)) lt = absurd (omega arith)

short_path-IsPath : IsPath short_path
unfolding path_charset_check
short_path-IsPath = record {
  not_empty = λ h. omega (arith, h);
  len = 2;
  bound = omega arith;
  ends = record { from = omega arith; nul = refl; charset = λ j le lt. short_path_charset j lt };
}

abbrev header_at_49152 : Bytes → Bytes
header_at_49152 path a = new_header path 53248 4096 1 (a - 49152)

header_at_49152-HoldsHeader :
    (path : Bytes) → HoldsHeader (header_at_49152 path) 49152 path 53248 4096 1
header_at_49152-HoldsHeader path i lt =
    let e : 49152 + i - 49152 ≡ i = omega arith in ap (new_header path 53248 4096 1) e

new_header-filp_error_example : filp_error (header_at_49152 long_path) 49152 ≢ none
unfolding long_path-IsPath
new_header-filp_error_example =
    new_header-filp_error (header_at_49152 long_path) 49152 long_path 53248 4096 1
      (header_at_49152-HoldsHeader long_path) long_path-IsPath (omega arith)

world-IsCoherent : IsCoherent world
world-IsCoherent = record { loaded = λ h. cc; clean = λ h. cc }

clean_world : world.buffer.state ≢ buffer_dirty
clean_world h = cc

not_full_world : file_next two_files 45056 ≢ 45056
unfolding new_header xipfs.Base.read_32 xipfs.Base.byte_of
not_full_world h = omega (arith, h)

room_world : total_reserved two_files 40960 (45056 ∷ []) + reserved_for 100 ≤ 8 * 4096
unfolding new_header xipfs.Base.read_32 xipfs.Base.byte_of reserved_for round_page
room_world = omega arith

fs_new_file-HasFiles_example :
    Ensures
      (λ a x.
        (a ≡ 49152)
        × HasFiles x.mem mount (45056 ∷ 49152 ∷ [])
        × ((i : ℕ) → i ≤ 2 → file_path x.mem 49152 i ≡ short_path i)
        × (file_reserved x.mem 49152 ≡ reserved_for 100)
        × (file_exec x.mem 49152 ≡ 1)
        × (file_next x.mem 49152 ≡ 53248)
        × ((b : ℕ) → (b < 49152) ⊎ (49572 ≤ b) → x.mem b ≡ two_files b))
      (λ _ _. IsReliable device → ⊥)
      (fs_new_file device mount short_path 100 1 world)
unfolding short_path-IsPath new_header xipfs.Base.read_32 xipfs.Base.byte_of
    xipfs.Flash.flash_end_addr reserved_for
fs_new_file-HasFiles_example =
    fs_new_file-HasFiles mount (45056 ∷ []) short_path 100 1 world two_files-HasFiles not_full_world
      short_path-IsPath (inr refl) (omega arith) refl room_world (omega arith) device-IsNvm
      world-IsCoherent clean_world (omega arith) (λ h. refl)
