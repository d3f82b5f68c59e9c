-- ===== src/Fs/Catalogue/Sample.antt =====
-- The files of Fs/Sample.antt as a catalogue, for examples.
use xipfs.Base.{
  ℕ, zero, suc, ◌+◌, ◌*◌, ◌/◌, ◌-◌, ◌≤◌, ◌<◌, ◌≡◌, ◌≢◌, ◌⊎◌, inl, inr, refl, ◌∙◌, ap, arith, true,
  some, [], ◌∷◌, List, Bytes, of_list, overlay, overlay-outside,
}
use xipfs.Flash.{nvm_erase_state}
use xipfs.File.{path_charset_check, file_path}
use xipfs.File.Paths.{IsPath}
use xipfs.Fs.{new_header}
use xipfs.Fs.Sample.{two_files, mount, two_files-HasFiles}
use xipfs.Fs.Catalogue.{Catalogue, IsNamed, Filled}

-- A name of one letter.
abbrev pub name_of : ℕ → Bytes
name_of c = of_list (b'/' ∷ c ∷ [])

abbrev pub before : Catalogue
before = record { names = name_of b'a' ∷ name_of b'b' ∷ []; free = 6 }

abbrev pub after : Catalogue
after = record { names = name_of b'a' ∷ name_of b'b' ∷ name_of b'c' ∷ []; free = 5 }

name_charset :
    (c : ℕ)
    → path_charset_check c ≡ true
    → (j : ℕ) → j < 2
    → path_charset_check (name_of c j) ≡ true
unfolding path_charset_check
name_charset c h zero lt = refl
name_charset c h (suc zero) lt = h
name_charset c h (suc (suc j)) lt = absurd (omega arith)

pub name-IsPath : (c : ℕ) → path_charset_check c ≡ true → IsPath (name_of c)
name-IsPath c h = record {
  not_empty = λ z. omega (arith, z);
  len = 2;
  bound = omega arith;
  ends = record { from = omega arith; nul = refl; charset = λ j le lt. name_charset c h j lt };
}

pub len-name : (c : ℕ) (h : path_charset_check c ≡ true) → (name-IsPath c h).len ≡ 2
unfolding name-IsPath
len-name c h = refl

-- The three bytes of a name.
three_bytes : (c d : Bytes) (i : ℕ) → i ≤ 2 → c 0 ≡ d 0 → c 1 ≡ d 1 → c 2 ≡ d 2 → c i ≡ d i
three_bytes c d zero le x y z = x
three_bytes c d (suc zero) le x y z = y
three_bytes c d (suc (suc zero)) le x y z = z
three_bytes c d (suc (suc (suc i))) le x y z = absurd (omega arith)

first-IsNamed : IsNamed two_files 40960 (name_of b'a')
unfolding name-IsPath new_header xipfs.Base.strnlen path_charset_check
first-IsNamed = record {
  path = name-IsPath b'a' refl;
  same = λ i le. three_bytes (file_path two_files 40960) (name_of b'a') i le refl refl refl;
}

second-IsNamed : IsNamed two_files 45056 (name_of b'b')
unfolding name-IsPath new_header xipfs.Base.strnlen path_charset_check
second-IsNamed = record {
  path = name-IsPath b'b' refl;
  same = λ i le. three_bytes (file_path two_files 45056) (name_of b'b') i le refl refl refl;
}

blank_behind : (b : ℕ) → 49152 ≤ b → two_files b ≡ nvm_erase_state
blank_behind b lo =
    overlay-outside (overlay (λ _. 255) 40960 (new_header (name_of b'a') 45056 4096 0) 420)
      (new_header (name_of b'b') 49152 4096 1) 45056 420 b (inr (omega arith))
    ∙ overlay-outside (λ _. 255) (new_header (name_of b'a') 45056 4096 0) 40960 420 b
        (inr (omega arith))

pub before-Filled : Filled two_files mount (45056 ∷ []) before
unfolding new_header xipfs.Base.read_32 xipfs.Base.byte_of
before-Filled = record {
  files = two_files-HasFiles;
  names = (first-IsNamed, second-IsNamed);
  space = refl;
  open_end = λ n h. omega (arith, h);
  blank = λ b lo hi. blank_behind b lo;
}
