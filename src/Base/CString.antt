-- ===== src/Base/CString.antt =====
-- The functions of <string.h> that the source calls, on C strings as functions of the index.
use Prim.Native.Nat.{ℕ, zero, suc, ◌+◌}
use mathlib.Core.Bool.{Bool, true, false}
use xipfs.Base.Tests.{◌==◌, if◌then◌else◌}
use xipfs.Base.Memory.{Bytes}

-- The length of `s` from index `i` on, `k` at most.
unfoldable pub len_from : ℕ → Bytes → ℕ → ℕ
len_from zero s i = 0
len_from (suc k) s i = let rest = len_from k s (i + 1) in if s i == 0 then 0 else suc rest

unfoldable pub strnlen : Bytes → ℕ → ℕ
unfolding len_from
strnlen s n = len_from n s 0

-- Whether strncmp is 0, from index `i` on, with `k` characters to compare at most.
unfoldable pub same_from : ℕ → Bytes → Bytes → ℕ → Bool
same_from zero a b i = true
same_from (suc k) a b i =
    let rest = same_from k a b (i + 1) in
    if a i == b i then (if a i == 0 then true else rest) else false

unfoldable pub strncmp_eq : Bytes → Bytes → ℕ → Bool
unfolding same_from
strncmp_eq a b n = same_from n a b 0
