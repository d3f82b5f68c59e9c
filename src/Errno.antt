-- ===== src/Errno.antt =====
-- src/errno.c and include/errno.h: the internal error numbers and their texts.
use Prim.Native.String.{String}
use mathlib.Core.List.{List, [], ◌∷◌}
use xipfs.Base.{ℕ, ltb, if◌then◌else◌, get_or}

-- `enum xipfs_errno_e`, in its order. XIPFS_ENUM, their number, is `errno_count`.
pub data Errno : Type 0 where
  xipfs_ok enullp eempty einval enulter enullf ealign eoutnvm elink emaxoff : Errno
  envmc enullm emagic epagnum efull eexist eperm enospace : Errno
  etextregion edataregion estackregion esharedapiregion esharedapisize : Errno
  eenablempu edisablempu enosafesupport enompusupport enullpointer einvalidsize : Errno

pub Errno-discrete : Discrete Errno
Errno-discrete = hlevel

abbrev errno_count : ℕ
errno_count = 29

abbrev errno_to_str : List String
errno_to_str =
    "" ∷ "path is null" ∷ "path is empty" ∷ "invalid character" ∷ "path is not null-terminated"
    ∷ "file pointer is null" ∷ "file is not page-aligned" ∷ "file is outside NVM space"
    ∷ "file improperly linked to others" ∷ "offset exceeds max position" ∷ "NVMC error"
    ∷ "mount point is null" ∷ "bad magic number" ∷ "bad page number" ∷ "file system full"
    ∷ "file already exists" ∷ "file has wrong permissions" ∷ "insufficient space to create the file"
    ∷ "failed to set text MPU region" ∷ "failed to set data MPU region"
    ∷ "failed to set stack MPU region" ∷ "failed to set shared api MPU region"
    ∷ "invalid shared api size" ∷ "failed to enable MPU" ∷ "failed to enable MPU"
    ∷ "no safe execution support" ∷ "no implementation for this MPU type" ∷ "NULL pointer"
    ∷ "Invalid size" ∷ []

-- `errnum` is read as `unsigned`: a negative `int` is a number above every index.
unfoldable strerror : ℕ → String
strerror num = if ltb num errno_count then get_or errno_to_str num "" else "unknown xipfs errno"
