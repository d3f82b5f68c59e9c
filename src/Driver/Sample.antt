-- ===== src/Driver/Sample.antt =====
-- The file system of Fs/Sample.antt behind a mount point that xipfs_mp_check accepts, for examples.
use xipfs.Base.{
  ℕ, zero, suc, ◌-◌, ◌/◌, ◌<◌, refl, arith, [], ◌∷◌, some, Bytes, of_list, overlay, byte_of,
}
use xipfs.State.{Mount}
use xipfs.Flash.Laws.{IsBytes}
use xipfs.Fs.{new_header}
use xipfs.Fs.Sample.{two_files}
use xipfs.Driver.Volume.Check.{IsMount}

abbrev pub mount_point : Mount
mount_point = record {
  magic = 0xf9d3b6cb;
  mount_path = some (of_list (b'/' ∷ b'm' ∷ []));
  page_num = 8;
  page_addr = 40960;
  execution_mutex = 1;
  mutex = 1;
}

pub mount_point-IsMount : IsMount mount_point
mount_point-IsMount = record {
  magic = refl;
  mount_path = refl;
  some_page = λ h. omega (arith, h);
  in_flash = omega arith;
  mutexes = (λ h. omega (arith, h), λ h. omega (arith, h));
}

byte_of-lt : (v k : ℕ) → byte_of v k < 256
unfolding byte_of
byte_of-lt v zero = omega arith
byte_of-lt v (suc k) = byte_of-lt (v / 256) k

new_header-IsBytes :
    (path : Bytes) (next reserved exec : ℕ)
    → IsBytes path
    → IsBytes (new_header path next reserved exec)
unfolding new_header
new_header-IsBytes path next reserved exec h i =
    ground
      (arith, byte_of-lt next i, byte_of-lt reserved (i - 68), byte_of-lt exec (i - 416), h (i - 4))

overlay-IsBytes : (m d : Bytes) (a n : ℕ) → IsBytes m → IsBytes d → IsBytes (overlay m a d n)
overlay-IsBytes m d a n hm hd b = ground (arith, hm b, hd (b - a))

name-IsBytes : (c : ℕ) → c < 256 → IsBytes (of_list (b'/' ∷ c ∷ []))
name-IsBytes c lt zero = omega arith
name-IsBytes c lt (suc zero) = lt
name-IsBytes c lt (suc (suc i)) = omega arith

pub two_files-IsBytes : IsBytes two_files
two_files-IsBytes =
    overlay-IsBytes
      (overlay (λ _. 255) 40960 (new_header (of_list (b'/' ∷ b'a' ∷ [])) 45056 4096 0) 420)
      (new_header (of_list (b'/' ∷ b'b' ∷ [])) 49152 4096 1) 45056 420
      (overlay-IsBytes (λ _. 255) (new_header (of_list (b'/' ∷ b'a' ∷ [])) 45056 4096 0) 40960 420
        (λ _. omega arith)
        (new_header-IsBytes (of_list (b'/' ∷ b'a' ∷ [])) 45056 4096 0
          (name-IsBytes b'a' (omega arith))))
      (new_header-IsBytes (of_list (b'/' ∷ b'b' ∷ [])) 49152 4096 1
        (name-IsBytes b'b' (omega arith)))
