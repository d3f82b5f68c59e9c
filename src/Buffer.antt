-- ===== src/Buffer.antt =====
-- src/buffer.c: the I/O buffer, which holds one flash page and delays its writes.
pub mod View
pub mod Flush
pub mod Access
pub mod Read
pub mod Write
pub mod Words
pub mod Erase
pub mod Settle
mod Tests
use Prim.Native.Nat.{bit_and}
use xipfs.Base.{
  ℕ, zero, suc, ◌+◌, ◌-◌, ◌/◌, ◌%◌, Bool, true, false, Bytes, update, byte_of, read_32, ltb, ◌==◌,
  if◌then◌else◌, not,
}
use xipfs.Errno.{enullpointer, envmc}
use xipfs.State.{
  Buffer, buffer_ok, buffer_dirty, buffer_ko, BufferState, World, Outcome, done, fail, Internal,
  pure, fail_if, ◌>>=◌, ◌>>◌,
}
use xipfs.Flash.{Nvm, nvm_page_size, flash_in, flash_erase_page}

-- The state at start, `static xipfs_buf_t xipfs_buf`.
abbrev pub initial_buffer : Buffer
initial_buffer = record { state = buffer_ko; buf = λ _. 0; page_num = 0; page_addr = 0 }

-- A C truth value as a number.
abbrev pub of_bool : Bool → ℕ
of_bool true = 1
of_bool false = 0

abbrev pub is_dirty : BufferState → Bool
is_dirty buffer_dirty = true
is_dirty _ = false

abbrev pub is_ko : BufferState → Bool
is_ko buffer_ko = true
is_ko _ = false

unfoldable pub buffer_page_changed : Buffer → ℕ → Bool
buffer_page_changed b num = not (b.page_num == num)

-- The loop of the flush: whether one of the `k` bytes from index `i` on has a bit to set.
-- It looks at bytes, and runs for as many rounds as the page has words.
unfoldable pub needs_erase : ℕ → Bytes → Bytes → ℕ → Bool
needs_erase zero page buf i = false
needs_erase (suc k) page buf i =
    let rest = needs_erase k page buf (i + 1) in
    if bit_and (255 - page i) (buf i) == 0 then rest else true

-- `xipfs_buf.buf[pos] = byte; xipfs_buf.state = XIPFS_BUFFER_DIRTY;`
unfoldable pub buffer_put : ℕ → ℕ → Internal (Unit {0})
buffer_put pos byte w = done tt (record w {
  buffer = record (w.buffer) { state = buffer_dirty; buf = update w.buffer.buf pos byte };
})

module _ (nvm : Nvm) where
  open nvm use {nvm_addr, nvm_page, write_and_verify}

  -- The page write that ends a flush.
  unfoldable pub buffer_commit : Internal (Unit {0})
  buffer_commit w =
      let r = write_and_verify w.buffer.page_num w.buffer.buf w.mem in
      if r.0
      then done tt (record w { mem = r.1; buffer = record (w.buffer) { state = buffer_ok } })
      else fail tt (record w { mem = r.1 })

  -- The erase of the page, which sets `xipfs_errno` if it fails.
  unfoldable pub buffer_erase : Internal (Unit {0})
  buffer_erase w =
      let r = flash_erase_page nvm w.buffer.page_num w.mem in
      if r.0
      then done tt (record w { mem = r.1 })
      else fail tt (record w { mem = r.1; errno = envmc })

  unfoldable pub buffer_flush : Internal (Unit {0})
  buffer_flush w =
      if is_dirty w.buffer.state
      then (if needs_erase (nvm_page_size / 4) (λ i. w.mem (w.buffer.page_addr + i)) w.buffer.buf 0
          then (buffer_erase >> buffer_commit) w
          else buffer_commit w)
      else done tt w

  unfoldable pub buffer_load : ℕ → ℕ → Internal (Unit {0})
  buffer_load num addr w = done tt (record w {
    buffer = record {
      state = buffer_ok;
      buf = λ i. if ltb i nvm_page_size then w.mem (addr + i) else w.buffer.buf i;
      page_num = num;
      page_addr = addr;
    };
  })

  -- What the loops of the read and of the write begin with: the page of `ptr` is brought in.
  unfoldable pub buffer_enter : ℕ → Internal (Unit {0})
  unfolding flash_in
  buffer_enter ptr w =
      let num = nvm_page ptr in
      let addr = nvm_addr num in
      -- xipfs_flash_in returns 0 or 1, so this test never succeeds
      if ltb (of_bool (flash_in ptr)) 0
      then fail tt w
      else if is_ko w.buffer.state
      then buffer_load num addr w
      else if buffer_page_changed w.buffer num
      then (buffer_flush >> buffer_load num addr) w
      else done tt w

  -- `dest` is the array read so far; the number counts the rounds left.
  unfoldable pub read_loop : ℕ → ℕ → ℕ → Bytes → Internal Bytes
  read_loop zero src i dest w = done dest w
  read_loop (suc k) src i dest w = elim (buffer_enter (src + i) w) [
    | done _ w' ↦
        read_loop k src (i + 1) (update dest i (w'.buffer.buf ((src + i) % nvm_page_size))) w'
    | fail e w' ↦ fail e w'
  ]

  -- The array that the caller gives is `dest`, and the bytes read replace its first ones.
  unfoldable pub buffer_read : Bytes → ℕ → ℕ → Internal Bytes
  buffer_read dest src len = fail_if (src == 0) enullpointer >> read_loop len src 0 dest

  unfoldable pub buffer_read_8 : ℕ → Internal ℕ
  buffer_read_8 src = buffer_read (λ _. 0) src 1 >>= λ d. pure (d 0)

  unfoldable pub buffer_read_32 : ℕ → Internal ℕ
  buffer_read_32 src = buffer_read (λ _. 0) src 4 >>= λ d. pure (read_32 d 0)

  unfoldable pub write_loop : ℕ → ℕ → Bytes → ℕ → Internal (Unit {0})
  write_loop zero dest src i w = done tt w
  write_loop (suc k) dest src i w =
      elim ((buffer_enter (dest + i) >> buffer_put ((dest + i) % nvm_page_size) (src i)) w) [
        | done _ w' ↦ write_loop k dest src (i + 1) w'
        | fail e w' ↦ fail e w'
      ]

  unfoldable pub buffer_write : ℕ → Bytes → ℕ → Internal (Unit {0})
  buffer_write dest src len = fail_if (dest == 0) enullpointer >> write_loop len dest src 0

  unfoldable pub buffer_write_8 : ℕ → ℕ → Internal (Unit {0})
  buffer_write_8 dest byte = buffer_write dest (λ _. byte) 1

  unfoldable pub buffer_write_32 : ℕ → ℕ → Internal (Unit {0})
  buffer_write_32 dest word = buffer_write dest (byte_of word) 4
