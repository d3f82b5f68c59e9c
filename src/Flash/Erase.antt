-- ===== src/Flash/Erase.antt =====
-- xipfs_flash_is_erased_page decides, and xipfs_flash_erase_page touches its page alone.
use native.Mathlib.Decide.{ℕ_discrete}
use xipfs.Base.{
  ℕ, zero, suc, ◌+◌, ◌-◌, ◌*◌, ◌/◌, ◌≤◌, ◌<◌, ◌≡◌, ◌≢◌, ◌↔◌, refl, inl, inr, true, false, Bytes,
  arith, ap, sym, ◌∙◌, u32_mod, Bool, Bool-cases, if◌then◌else◌,
}
use xipfs.Flash.{
  Nvm, nvm_page_size, nvm_erase_state, erased_from, flash_is_erased_page, flash_erase_page,
  flash_in, flash_overflow, flash_page_overflow, flash_end_addr,
}
use xipfs.Flash.Laws.{IsNvm}

-- Every byte of the page at `addr` is erased.
abbrev pub ErasedAt : ℕ → Bytes → Type 0
ErasedAt addr m = (i : ℕ) → i < nvm_page_size → m (addr + i) ≡ nvm_erase_state

erased_from_sound :
    (k : ℕ) (p : Bytes) (i j : ℕ)
    → erased_from k p i ≡ true
    → i ≤ j
    → j < i + k
    → p j ≡ nvm_erase_state
unfolding erased_from
erased_from_sound zero p i j h le lt = absurd (omega arith)
erased_from_sound (suc k) p i j h le lt = elim (ℕ_discrete i j) [
  | yes e ↦ ground (arith, ap p e)
  | no n ↦ ground (arith, erased_from_sound k p (i + 1) j)
]

erased_from_complete :
    (k : ℕ) (p : Bytes) (i : ℕ)
    → ((j : ℕ) → i ≤ j → j < i + k → p j ≡ nvm_erase_state)
    → erased_from k p i ≡ true
unfolding erased_from
erased_from_complete zero p i h = refl
erased_from_complete (suc k) p i h =
    ground
      (arith, h i, erased_from_complete k p (i + 1) (λ j le lt. h j (omega arith) (omega arith)))

module _ {nvm : Nvm} (laws : IsNvm nvm) (page : ℕ) where
  -- xipfs_flash_is_erased_page is true exactly if every byte of the page is erased.
  pub is_erased_page_iff :
      (m : Bytes) → (flash_is_erased_page nvm page m ≡ true) ↔ ErasedAt (page * nvm_page_size) m
  unfolding flash_is_erased_page
  is_erased_page_iff m = (
    λ h i lt. (rw laws.addr_lem at (erased_from_sound nvm_page_size _ 0 i h (omega arith) lt)),
    λ h. erased_from_complete nvm_page_size _ 0 λ j le lt. rw laws.addr_lem (h j (omega arith)),
  )

  -- xipfs_flash_erase_page succeeds exactly if every byte of the page is erased when it returns.
  pub flash_erase_page_lem :
      (m : Bytes)
      → ((flash_erase_page nvm page m).0 ≡ true)
        ↔ ErasedAt (page * nvm_page_size) (flash_erase_page nvm page m).1
  unfolding flash_erase_page
  flash_erase_page_lem m = elim (Bool-cases (flash_is_erased_page nvm page m)) [
    | inl e ↦ rw e ((λ h. (is_erased_page_iff m).0 e), λ h. refl)
    | inr f ↦ rw f (second (nvm.nvm_erase page m))
  ]
    where
      second :
          (m' : Bytes)
          → let r : Bool × Bytes =
              if flash_is_erased_page nvm page m' then (true, m') else (false, m') in
            (r.0 ≡ true) ↔ ErasedAt (page * nvm_page_size) r.1
      second m' = elim (Bool-cases (flash_is_erased_page nvm page m')) [
        | inl e ↦ rw e ((λ h. (is_erased_page_iff m').0 e), λ h. refl)
        | inr f ↦ rw f ((λ h. cc), λ h. sym f ∙ (is_erased_page_iff m').1 h)
      ]

  -- It succeeds where the device erases.
  pub flash_erase_page_ok :
      (m : Bytes)
      → ErasedAt (page * nvm_page_size) (nvm.nvm_erase page m)
      → (flash_erase_page nvm page m).0 ≡ true
  unfolding flash_erase_page
  flash_erase_page_ok m h =
      let e = (is_erased_page_iff (nvm.nvm_erase page m)).1 h in ground (arith, e)

  -- xipfs_flash_erase_page changes nothing outside its page.
  pub flash_erase_page_outside :
      (m : Bytes) (a : ℕ) → a / nvm_page_size ≢ page → (flash_erase_page nvm page m).1 a ≡ m a
  unfolding flash_erase_page
  flash_erase_page_outside m a h = ground (arith, laws.erase_outside page m a h)

-- Where the sum does not wrap, the two overflow tests are exact: xipfs_flash_overflow answers 0
-- exactly if `addr + n` is below the end of the flash, and xipfs_flash_page_overflow exactly if the
-- `n` bytes from `addr` on lie in the page of `addr`.
pub overflow_exact :
    (addr n : ℕ)
    → addr + n < u32_mod
    → ((flash_overflow addr n ≡ false) ↔ (addr + n < flash_end_addr))
      × ((flash_page_overflow addr n ≡ false)
          ↔ ((i : ℕ) → i < n → (addr + i) / nvm_page_size ≡ addr / nvm_page_size))
unfolding flash_overflow flash_page_overflow flash_in flash_end_addr
overflow_exact addr n h = (
  (λ e. ground arith, λ e. ground arith),
  (λ e i lt. ground arith, λ all. ground (arith, all (n - 1))),
)
