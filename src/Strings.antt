-- ===== src/Strings.antt =====
-- The string functions of student-distrib/lib.c, on memory.
-- A loop makes at most `max_rounds` rounds; `none` is a loop that does not end.
pub mod Length
pub mod Copy
pub mod Compare
pub mod Reverse
use unix_operation_system.Prelude.{
  ℕ, zero, suc, ◌+◌, ◌-◌, ◌%◌, ◌≤◌, ◌<◌, ◌&&◌, ◌||◌, not, Option, none, some, ◌>>=◌, ltb, ◌==◌,
  if◌then◌else◌,
}
use unix_operation_system.Prelude.Int.{ℤ, pos, sub_ℕ}
use unix_operation_system.Memory.{Memory, write, max_rounds}

-- `while (s[len] != '\0') len++;`
unfoldable pub strlen_loop : ℕ → Memory → ℕ → ℕ → Option ℕ
strlen_loop zero m s len = none
strlen_loop (suc f) m s len =
    let rest = strlen_loop f m s (len + 1) in if not (m (s + len) == 0) then rest else some len

unfoldable pub strlen_unsigned : Memory → ℕ → Option ℕ
strlen_unsigned m s = strlen_loop max_rounds m s 0

-- `while (src[i] != '\0') { dest[i] = src[i]; i++; } dest[i] = '\0';`
unfoldable pub strcpy_loop : ℕ → Memory → ℕ → ℕ → ℕ → Option Memory
strcpy_loop zero m dest src i = none
strcpy_loop (suc f) m dest src i =
    let rest = strcpy_loop f (write m (dest + i) (m (src + i))) dest src (i + 1) in
    if not (m (src + i) == 0) then rest else some (write m (dest + i) 0)

unfoldable pub strcpy_unsigned : Memory → ℕ → ℕ → Option Memory
strcpy_unsigned m dest src = strcpy_loop max_rounds m dest src 0

-- `while (i < n) { dest[i] = '\0'; i++; }`, at `k` rounds before `n`
unfoldable pub pad_loop : ℕ → Memory → ℕ → ℕ → Memory
pad_loop zero m dest i = m
pad_loop (suc k) m dest i = pad_loop k (write m (dest + i) 0) dest (i + 1)

-- `while (src[i] != '\0' && i < n) { dest[i] = src[i]; i++; }`, then the padding; `k` is `n - i`.
unfoldable pub strncpy_loop : ℕ → Memory → ℕ → ℕ → ℕ → Memory
strncpy_loop zero m dest src i = m
strncpy_loop (suc k) m dest src i =
    let rest = strncpy_loop k (write m (dest + i) (m (src + i))) dest src (i + 1) in
    if not (m (src + i) == 0) then rest else pad_loop (suc k) m dest i

pub strncpy_unsigned : Memory → ℕ → ℕ → ℕ → Memory
strncpy_unsigned m dest src n = strncpy_loop n m dest src 0

-- `for (i = 0; i < n; i++) if (s1[i] != s2[i] || s1[i] == '\0') return s1[i] - s2[i]; return 0;`
unfoldable pub strncmp_loop : ℕ → Memory → ℕ → ℕ → ℕ → ℤ
strncmp_loop zero m s1 s2 i = pos 0
strncmp_loop (suc k) m s1 s2 i =
    let rest = strncmp_loop k m s1 s2 (i + 1) in
    if not (m (s1 + i) == m (s2 + i)) || (m (s1 + i) == 0)
    then sub_ℕ (m (s1 + i)) (m (s2 + i))
    else rest

unfoldable pub strncmp_unsigned : Memory → ℕ → ℕ → ℕ → ℤ
strncmp_unsigned m s1 s2 n = strncmp_loop n m s1 s2 0

-- The difference of two `int8_t`, by their bit patterns
abbrev pub int8_sub : ℕ → ℕ → ℤ
int8_sub a b = sub_ℕ ((a + 128) % 256) ((b + 128) % 256)

-- strncmp, on two arrays of bytes
unfoldable pub strncmp_signed_loop : ℕ → (ℕ → ℕ) → (ℕ → ℕ) → ℕ → ℤ
strncmp_signed_loop zero s1 s2 i = pos 0
strncmp_signed_loop (suc k) s1 s2 i =
    let rest = strncmp_signed_loop k s1 s2 (i + 1) in
    if not (s1 i == s2 i) || (s1 i == 0) then int8_sub (s1 i) (s2 i) else rest

unfoldable pub strncmp : (ℕ → ℕ) → (ℕ → ℕ) → ℕ → ℤ
strncmp s1 s2 n = strncmp_signed_loop n s1 s2 0

-- The functions on `int8_t` work on the same bytes.
unfoldable pub strlen : Memory → ℕ → Option ℕ
strlen m s = strlen_loop max_rounds m s 0

pub strcpy : Memory → ℕ → ℕ → Option Memory
strcpy m dest src = strcpy_loop max_rounds m dest src 0

pub strncpy : Memory → ℕ → ℕ → ℕ → Memory
strncpy m dest src n = strncpy_loop n m dest src 0

-- `while (beg < end)`: a round swaps two characters, and `f` is at least half of their distance.
unfoldable pub strrev_loop : ℕ → Memory → ℕ → ℕ → ℕ → Memory
strrev_loop zero m s beg end = m
strrev_loop (suc f) m s beg end =
    let tmp = m (s + end) in
    let m' = write m (s + end) (m (s + beg)) in
    let rest = strrev_loop f (write m' (s + beg) tmp) s (beg + 1) (end - 1) in
    if ltb beg end then rest else m

-- For an empty string `end` is -1 in the source, and 0 here: the loop does not start.
unfoldable pub strrev : Memory → ℕ → Option Memory
strrev m s = do n ← strlen m s; some (strrev_loop n m s 0 (n - 1))
