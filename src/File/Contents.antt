-- ===== src/File/Contents.antt =====
-- xipfs_file_read_8 and xipfs_file_write_8: which positions they accept, and which byte they access.
use xipfs.Base.{
  ℕ, ◌+◌, ◌-◌, ◌≤◌, ◌<◌, ◌≡◌, refl, ◌∙◌, ap, arith, true, false, ltb, leb, Bool-cases, ◌⊎◌, inl,
  inr, u32, u32_mod, int_max, ◌||◌, if◌then◌else◌,
}
use xipfs.Errno.{emaxoff}
use xipfs.State.{
  World, done, fail, Ensures, Ensures-mono, bind_done, Internal, fail_if, ◌>>=◌, ◌>>◌,
}
use xipfs.Flash.{Nvm}
use xipfs.Flash.Laws.{IsNvm}
use xipfs.Desc.{sizeof_file}
use xipfs.Buffer.{buffer_read_8, buffer_write, buffer_write_8}
use xipfs.Buffer.View.{view, IsCoherent}
use xipfs.Buffer.Flush.{Failed}
use xipfs.Buffer.Write.{Writes, Stops, buffer_write_lem}
use xipfs.Buffer.Words.{Got, buffer_read_8_lem}
use xipfs.File.{
  file_reserved, file_buf, file_filp_check, file_get_max_pos, position, slt, file_read_8,
  file_write_8,
}
use xipfs.File.Check.{IsFile, file_filp_check-IsFile}

-- The state after a position was refused.
abbrev pub refused : World → World
refused w = record w { errno = emaxoff }

module _ (filp pos : ℕ) (w : World) (bound : pos < u32_mod) (f : IsFile w.mem filp)
    (roomy : sizeof_file ≤ file_reserved w.mem filp) where
  check_ok : file_filp_check filp w ≡ done tt w
  check_ok = file_filp_check-IsFile filp w f

  pub max_pos : file_get_max_pos filp w ≡ done (file_reserved w.mem filp - sizeof_file) w
  unfolding file_get_max_pos
  max_pos =
      let n : u32 (file_reserved w.mem filp + 4294967296 - sizeof_file)
          ≡ file_reserved w.mem filp - sizeof_file =
        omega (arith, f.reserved) in
      bind_done (file_filp_check filp w) tt w _ check_ok ∙ ap (λ x. position x w) n ∙ small
    where
      small :
          position (file_reserved w.mem filp - sizeof_file) w
          ≡ done (file_reserved w.mem filp - sizeof_file) w
      small =
          let h : ltb int_max (file_reserved w.mem filp - sizeof_file) ≡ false =
            ground (arith, f.reserved) in
          rw h refl

  -- An access to the byte at `pos`, behind the checks that the read and the write share.
  pub access :
      {A : Type 0} (m : Internal A)
      → (file_filp_check filp
            >> (file_get_max_pos filp >>= λ most.
                fail_if (ltb int_max pos || slt most pos) emaxoff >> m))
          w
        ≡ (if leb pos (file_reserved w.mem filp - sizeof_file) then m w else fail tt (refused w))
  access m =
      bind_done (file_filp_check filp w) tt w _ check_ok
      ∙ bind_done (file_get_max_pos filp w) _ w _ max_pos
      ∙ elim (Bool-cases (leb pos (file_reserved w.mem filp - sizeof_file))) [
        | inl yes_ ↦
            let h : (ltb int_max pos || slt (file_reserved w.mem filp - sizeof_file) pos) ≡ false =
              ground (arith, f.reserved) in
            rw (h, yes_) refl
        | inr no_ ↦
            let h : (ltb int_max pos || slt (file_reserved w.mem filp - sizeof_file) pos) ≡ true =
              ground (arith, f.reserved, bound) in
            rw (h, no_) refl
      ]

  module _ {nvm : Nvm} (laws : IsNvm nvm) (c : IsCoherent w) where
    -- For a file that passes the check and whose reserved size covers the structure, a position of
    -- 32 bits and a coherent buffer, xipfs_file_read_8 reads only at the positions up to the
    -- reserved size less the size of the structure: it returns the byte of the view that far
    -- behind the structure, and the view stays, or it fails and the device is at fault. Every
    -- other position is refused with XIPFS_EMAXOFF.
    pub file_read_8_lem :
        Ensures
          (λ byte u.
            (pos ≤ file_reserved w.mem filp - sizeof_file)
            × Got (view w (file_buf filp pos)) byte w u)
          (λ _ u.
            ((pos ≤ file_reserved w.mem filp - sizeof_file) × Failed nvm w u)
            ⊎ ((file_reserved w.mem filp - sizeof_file < pos) × (u ≡ refused w)))
          (file_read_8 nvm filp pos w)
    unfolding file_read_8
    file_read_8_lem =
        rw (access (buffer_read_8 nvm (file_buf filp pos)))
          (elim (Bool-cases (leb pos (file_reserved w.mem filp - sizeof_file))) [
            | inl yes_ ↦ rw yes_ (
                Ensures-mono (buffer_read_8 nvm (file_buf filp pos) w)
                  (buffer_read_8_lem laws (file_buf filp pos) (omega arith) w c)
                  (λ byte u g. (ground arith, g)) (λ _ u g. inl (ground arith, g)))
            | inr no_ ↦ rw no_ (inr (ground arith, refl))
          ])

    -- For a file that passes the check and whose reserved size covers the structure, a position of
    -- 32 bits and a coherent buffer, xipfs_file_write_8 writes only at the positions up to the
    -- reserved size less the size of the structure: the byte of the view that far behind the
    -- structure becomes the given one and no other byte changes, or it fails and the device is at
    -- fault. Every other position is refused with XIPFS_EMAXOFF.
    pub file_write_8_lem :
        (byte : ℕ)
        → Ensures
            (λ _ u.
              (pos ≤ file_reserved w.mem filp - sizeof_file)
              × Writes (file_buf filp pos) 0 (λ _. byte) 1 w u)
            (λ _ u.
              ((pos ≤ file_reserved w.mem filp - sizeof_file)
                × Stops nvm (file_buf filp pos) 0 (λ _. byte) 1 w u)
              ⊎ ((file_reserved w.mem filp - sizeof_file < pos) × (u ≡ refused w)))
            (file_write_8 nvm filp pos byte w)
    unfolding file_write_8 buffer_write_8
    file_write_8_lem byte =
        rw (access (buffer_write_8 nvm (file_buf filp pos) byte))
          (elim (Bool-cases (leb pos (file_reserved w.mem filp - sizeof_file))) [
            | inl yes_ ↦ rw yes_ (
                Ensures-mono (buffer_write nvm (file_buf filp pos) (λ _. byte) 1 w)
                  (buffer_write_lem laws (file_buf filp pos) (λ _. byte) 1 w c (omega arith))
                  (λ _ u (g, _). (ground arith, g)) (λ _ u g. inl (ground arith, g)))
            | inr no_ ↦ rw no_ (inr (ground arith, refl))
          ])
