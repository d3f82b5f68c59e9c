-- ===== src/Fs/Catalogue.antt =====
-- What the users of a mount point see of it: the names of its files, in the order of their creation,
-- and the number of free pages.
mod Longer
pub mod Next
mod First
pub mod Create
pub mod Sample
mod Tests
use xipfs.Base.{
  ℕ, zero, suc, ◌+◌, ◌-◌, ◌*◌, ◌/◌, ◌%◌, ◌≤◌, ◌<◌, ◌≡◌, ◌≢◌, ◌⊎◌, inl, inr, refl, ap, sym, subst,
  ◌∙◌, arith, true, false, Bool-cases, Option, none, some, List, [], ◌∷◌, ◌++◌, Bytes, ltb, leb,
  ◌==◌, if◌then◌else◌, int_max,
}
use xipfs.State.{World, Mount, Ensures, Ensures-mono, buffer_dirty}
use xipfs.Flash.{Nvm, nvm_page_size, nvm_numof, nvm_erase_state, flash_erase_state, flash_end_addr}
use xipfs.Flash.Laws.{IsNvm}
use xipfs.Buffer.View.{IsCoherent, IsReliable}
use xipfs.Desc.{sizeof_file}
use xipfs.File.{file_next, file_path, file_reserved}
use xipfs.File.Paths.{IsPath}
use xipfs.File.Check.{IsFile}
use xipfs.File.Same.{SameFile, same_word, same_next}
use xipfs.Fs.{reserved_for, fs_new_file}
use xipfs.Fs.Chain.{IsChain, last_of, next_page}
use xipfs.Fs.NewFile.{chain_before, reserved_for_lem}
use xipfs.Fs.Tail.{HasFiles, total_reserved}
use xipfs.Fs.Append.{place, place_facts, link, fs_new_file-HasFiles}

-- The abstract view.
pub record Catalogue : Type 0 where
  pub names : List Bytes
  pub free : ℕ

-- A new file is put at the end, if there are pages enough.
unfoldable pub add_file : Bytes → ℕ → Catalogue → Option Catalogue
add_file path size c =
    let pages = reserved_for size / nvm_page_size in
    if leb pages c.free
    then some (record { names = c.names ++ (path ∷ []); free = c.free - pages })
    else none

-- The file at `p` has the name.
pub record IsNamed (m : Bytes) (p : ℕ) (name : Bytes) : Type 0 where
  pub path : IsPath name
  pub same : (i : ℕ) → i ≤ path.len → file_path m p i ≡ name i

-- The names of the file at `p` and of the files of `l`, in that order.
abbrev pub Names : Bytes → ℕ → List ℕ → List Bytes → Type 0
Names m p [] [] = ⊥
Names m p [] (n ∷ []) = IsNamed m p n
Names m p [] (n ∷ n' ∷ ns) = ⊥
Names m p (q ∷ l) [] = ⊥
Names m p (q ∷ l) (n ∷ ns) = IsNamed m p n × Names m q l ns

-- The memory holds the catalogue, which has files, one at the first page and those of `l`: they are
-- named so, the pages that they leave are free and erased, and only a full mount point ends in a file
-- that links to itself.
pub record Filled (m : Bytes) (mp : Mount) (l : List ℕ) (c : Catalogue) : Type 0 where
  pub files : HasFiles m mp l
  pub names : Names m mp.page_addr l c.names
  pub space : total_reserved m mp.page_addr l + c.free * nvm_page_size ≡ mp.page_num * nvm_page_size
  pub open_end : c.free ≢ 0 → file_next m (last_of mp.page_addr l) ≢ last_of mp.page_addr l
  pub blank :
      (b : ℕ)
      → mp.page_addr + total_reserved m mp.page_addr l ≤ b
      → b < mp.page_addr + mp.page_num * nvm_page_size
      → m b ≡ nvm_erase_state

-- The bytes that the files have reserved.
abbrev pub total_of : Bytes → List ℕ → ℕ
total_of m [] = 0
total_of m (p ∷ l) = total_reserved m p l

-- The memory holds the catalogue; the files are those of the list. Without files, every byte of the
-- mount point is erased.
pub data Represents (m : Bytes) (mp : Mount) : List ℕ → Catalogue → Type 0 where
  no_files :
      mp.page_addr ≢ 0
      → file_next m mp.page_addr ≡ flash_erase_state
      → ((b : ℕ)
          → mp.page_addr ≤ b
          → b < mp.page_addr + mp.page_num * nvm_page_size
          → m b ≡ nvm_erase_state)
      → Represents m mp [] (record { names = []; free = mp.page_num })
  some_files : {l : List ℕ} {c : Catalogue} → Filled m mp l c → Represents m mp (mp.page_addr ∷ l) c
