-- ===== src/Buffer/View.antt =====
-- What src/buffer.c shows of the memory: the flash with the buffered page laid over it.
use xipfs.Base.{
  ℕ, ◌+◌, ◌*◌, ◌/◌, ◌%◌, ◌<◌, ◌≡◌, ◌≢◌, refl, true, false, Bytes, arith, ap, ◌∙◌, ◌==◌,
  if◌then◌else◌,
}
use xipfs.State.{buffer_ok, buffer_dirty, World}
use xipfs.Flash.{Nvm, nvm_page_size, nvm_erase_state}
use xipfs.Buffer.{is_ko}

-- The byte at each address as the buffered functions see it.
unfoldable pub view : World → Bytes
view w a =
    if is_ko w.buffer.state
    then w.mem a
    else if a / nvm_page_size == w.buffer.page_num
    then w.buffer.buf (a % nvm_page_size)
    else w.mem a

-- The invariant of the buffer: the address is that of the page, and a clean buffer is a copy.
pub record IsCoherent (w : World) : Type 0 where
  pub loaded : is_ko w.buffer.state ≡ false → w.buffer.page_addr ≡ w.buffer.page_num * nvm_page_size
  pub clean :
      w.buffer.state ≡ buffer_ok
      → (i : ℕ) → i < nvm_page_size
      → w.buffer.buf i ≡ w.mem (w.buffer.page_num * nvm_page_size + i)

-- The tables that the buffer has nothing to do with are the same.
pub record SameTables (w w' : World) : Type 0 where
  pub open_desc : w'.open_desc ≡ w.open_desc
  pub file_descs : w'.file_descs ≡ w.file_descs
  pub dir_descs : w'.dir_descs ≡ w.dir_descs

-- A call that changes no byte of the view.
pub record Kept (w w' : World) : Type 0 where
  pub coherent : IsCoherent w'
  pub same_view : (a : ℕ) → view w' a ≡ view w a
  pub tables : SameTables w w'

-- A device that never fails.
pub record IsReliable (nvm : Nvm) : Type 0 where
  pub erases :
      (p : ℕ) (m : Bytes) (i : ℕ)
      → i < nvm_page_size
      → nvm.nvm_erase p m (p * nvm_page_size + i) ≡ nvm_erase_state
  pub verifies : (p : ℕ) (d m : Bytes) → (nvm.write_and_verify p d m).0 ≡ true

-- The page and the offset of an address.
pub page_split : (a : ℕ) → a / nvm_page_size * nvm_page_size + a % nvm_page_size ≡ a
page_split a = omega arith

-- A clean buffer shows the flash as it is.
pub view_clean :
    (w : World) → IsCoherent w → w.buffer.state ≢ buffer_dirty → (a : ℕ) → view w a ≡ w.mem a
unfolding view
view_clean w c ne a =
    let e : a / nvm_page_size ≡ w.buffer.page_num
        → w.mem (w.buffer.page_num * nvm_page_size + a % nvm_page_size) ≡ w.mem a =
      λ p. ap w.mem (omega arith) in
    let l : w.buffer.state ≡ buffer_ok
        → w.buffer.buf (a % nvm_page_size)
          ≡ w.mem (w.buffer.page_num * nvm_page_size + a % nvm_page_size) =
      λ s. c.clean s (a % nvm_page_size) (omega arith) in
    ground (arith, e, l)

pub Kept-refl : (w : World) → IsCoherent w → Kept w w
Kept-refl w c = record {
  coherent = c;
  same_view = λ a. refl;
  tables = record { open_desc = refl; file_descs = refl; dir_descs = refl };
}

pub Kept-trans : (u v w : World) → Kept u v → Kept v w → Kept u w
Kept-trans u v w p q = record {
  coherent = q.coherent;
  same_view = λ a. q.same_view a ∙ p.same_view a;
  tables = record {
    open_desc = q.tables.open_desc ∙ p.tables.open_desc;
    file_descs = q.tables.file_descs ∙ p.tables.file_descs;
    dir_descs = q.tables.dir_descs ∙ p.tables.dir_descs;
  };
}
