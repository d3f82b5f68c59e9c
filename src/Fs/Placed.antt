-- ===== src/Fs/Placed.antt =====
-- The memory once the structure of a new file is in it, at the first of `pages` free pages.
use native.Mathlib.Decide.{ℕ_discrete}
use xipfs.Base.{
  ℕ, ◌+◌, ◌*◌, ◌/◌, ◌%◌, ◌≤◌, ◌<◌, ◌≡◌, ◌≢◌, ◌⊎◌, inl, inr, refl, ◌∙◌, ap, arith, true, Bytes, u32,
  if◌then◌else◌, ltb, ◌==◌, int_max, Bool-cases, overlay, overlay-outside, overlay-inside,
  read_32-ext,
}
use xipfs.State.{World, Ensures, Ensures-mono, buffer_dirty}
use xipfs.Flash.{Nvm, nvm_page_size, flash_erase_state, flash_end_addr}
use xipfs.Flash.Laws.{IsNvm}
use xipfs.Buffer.View.{IsCoherent, IsReliable, view_clean}
use xipfs.Desc.{sizeof_file}
use xipfs.File.{file_next, file_path, file_reserved, file_exec}
use xipfs.File.Paths.{IsPath}
use xipfs.File.Check.{IsFile}
use xipfs.Fs.{new_header, reserved_for, put_header, place_file}
use xipfs.Fs.Header.{HoldsHeader, header_path, new_header-IsFile}
use xipfs.Fs.NewFile.{reserved_for_lem, int_pages-reserved_for, put_header-Committed}

-- Where the new file links to.
abbrev pub link_of : ℕ → ℕ → ℕ → ℕ
link_of place reserved pages =
    if ltb (reserved / nvm_page_size) pages then u32 (place + reserved) else place

module _ (path : Bytes) (size exec place free : ℕ) (m0 : Bytes) (q : IsPath path)
    (short : q.len < 63) (right : (exec ≡ 0) ⊎ (exec ≡ 1))
    (fits : size + sizeof_file + nvm_page_size ≤ int_max) (al : place % nvm_page_size ≡ 0)
    (ne : place ≢ 0) (room : reserved_for size ≤ free * nvm_page_size)
    (within : place + free * nvm_page_size ≤ flash_end_addr)
    (blank : reserved_for size / nvm_page_size < free
      → file_next m0 (place + reserved_for size) ≡ flash_erase_state) where
  abbrev link : ℕ
  link = link_of place (reserved_for size) free

  -- The structure in the memory `m`.
  pub record IsPlaced (m : Bytes) : Type 0 where
    pub file : IsFile m place
    pub next : file_next m place ≡ link
    pub size_field : file_reserved m place ≡ reserved_for size
    pub right_bit : file_exec m place ≡ exec
    pub name : (i : ℕ) → i ≤ q.len → file_path m place i ≡ path i
    pub last :
        (file_next m place ≡ place)
        ⊎ ((file_next m place ≢ place) × (file_next m (file_next m place) ≡ flash_erase_state))
    pub outside : (a : ℕ) → (a < place) ⊎ (place + sizeof_file ≤ a) → m a ≡ m0 a

  module _ (m : Bytes)
      (wrote : (a : ℕ)
        → m a
          ≡ overlay m0 place (new_header path link (reserved_for size) exec) sizeof_file a) where
    same_outside : (a : ℕ) → (a < place) ⊎ (place + sizeof_file ≤ a) → m a ≡ m0 a
    same_outside a o =
        wrote a
        ∙ overlay-outside m0 (new_header path link (reserved_for size) exec) place sizeof_file a o

    header_there : HoldsHeader m place path link (reserved_for size) exec
    header_there i lt =
        wrote (place + i)
        ∙ overlay-inside m0 (new_header path link (reserved_for size) exec) place sizeof_file i lt

    reads_back :
        IsFile m place
        × (file_next m place ≡ link)
        × (file_reserved m place ≡ reserved_for size)
        × (file_exec m place ≡ exec)
    unfolding flash_end_addr
    reads_back =
        let r = reserved_for_lem size fits in
        new_header-IsFile m place path link (reserved_for size) exec header_there q short ne
          (omega (arith, within, room)) (omega (arith, r, fits)) right
          (ground (arith, r, al, within, room))

    same_link :
        (a : ℕ)
        → (a + sizeof_file ≤ place) ⊎ (place + sizeof_file ≤ a)
        → file_next m a ≡ file_next m0 a
    same_link a o = read_32-ext m0 m a a (λ i lt. same_outside (a + i) (ground (arith, o)))

    -- The new file is the last one.
    last_link :
        (file_next m place ≡ place)
        ⊎ ((file_next m place ≢ place) × (file_next m (file_next m place) ≡ flash_erase_state))
    unfolding flash_end_addr
    last_link = elim (Bool-cases (ltb (reserved_for size / nvm_page_size) free)) [
      | inl e ↦
          let r = reserved_for_lem size fits in
          let next = reads_back.1 in
          let to : link ≡ place + reserved_for size = ground (arith, within, room) in
          let behind : file_next m (file_next m place) ≡ file_next m (place + reserved_for size) =
            ap (file_next m) (next ∙ to) in
          inr (
            λ same. omega (arith, next, to, r, same),
            behind
                ∙ same_link (place + reserved_for size) (inr (omega (arith, r)))
                ∙ blank (ground arith),
          )
      | inr n ↦ let to : link ≡ place = ground arith in inl (reads_back.1 ∙ to)
    ]

    path_there : (i : ℕ) → i ≤ q.len → file_path m place i ≡ path i
    path_there i le =
        header_path m place path link (reserved_for size) exec header_there q i (omega arith)
        ∙ path_cut i le
      where
        path_cut :
            (i : ℕ)
            → i ≤ q.len
            → (if ltb i 63 then (if ltb i q.len then path i else 0) else 255) ≡ path i
        path_cut i le = elim (ℕ_discrete i q.len) [
          | yes e ↦ let z = ap path e in ground (arith, z, q.ends.nul)
          | no n ↦ ground arith
        ]

    placed : IsPlaced m
    placed =
        let (f, next, res, e) = reads_back in
        record {
          file = f;
          next = next;
          size_field = res;
          right_bit = e;
          name = path_there;
          last = last_link;
          outside = same_outside;
        }

  place_file-put_header :
      (nvm : Nvm) (w : World)
      → place_file nvm path exec place free (reserved_for size) w
        ≡ put_header nvm place (new_header path link (reserved_for size) exec) w
  unfolding place_file
  place_file-put_header nvm w = elim (Bool-cases (ltb (reserved_for size / nvm_page_size) free)) [
    | inl e ↦ rw (int_pages-reserved_for size fits, e) refl
    | inr n ↦
        let h : (reserved_for size / nvm_page_size == free) ≡ true = ground arith in
        rw (int_pages-reserved_for size fits, n, h) refl
  ]

  -- The last part of xipfs_fs_new_file, where the free pages suffice.
  pub place_file-IsPlaced :
      {nvm : Nvm} (laws : IsNvm nvm) (w : World)
      → w.mem ≡ m0
      → IsCoherent w
      → w.buffer.state ≢ buffer_dirty
      → Ensures
          (λ a x. (a ≡ place) × IsPlaced x.mem)
          (λ _ _. IsReliable nvm → ⊥)
          (place_file nvm path exec place free (reserved_for size) w)
  place_file-IsPlaced {nvm} laws w e coherent clean = rw (place_file-put_header nvm w) (
      Ensures-mono (put_header nvm place (new_header path link (reserved_for size) exec) w)
        (put_header-Committed laws place (new_header path link (reserved_for size) exec) w coherent
          ne)
        (λ a x (at, put). (
          at,
          placed x.mem (λ b.
              put.flash b
              ∙ ground (arith, view_clean w coherent clean b, ap (λ (m : Bytes). m b) e)),
        ))
        (λ _ x b. b.at_fault))
