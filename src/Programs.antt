-- ===== src/Programs.antt =====
-- The functions that the programs of syscalls share: syscalls/ece391support.c.
-- A loop over a string makes at most `max_rounds` rounds; `none` is a loop that does not end.
pub mod Support
pub mod Reading
pub mod Pieces
pub mod Bytes
pub mod Printing
pub mod Machine
pub mod FileServes
pub mod Spelled
pub mod Printed
pub mod SysErr
pub mod Shell
mod Tests
use unix_operation_system.Prelude.{
  ℕ, zero, suc, ◌+◌, ◌-◌, ◌/◌, ◌%◌, ◌||◌, not, Option, none, some, ◌>>=◌, leb, ltb, ◌==◌,
  if◌then◌else◌,
}
use unix_operation_system.Prelude.Int.{ℤ, pos, sub_ℕ}
use unix_operation_system.Memory.{Memory, write, max_rounds}
use unix_operation_system.Numbers.{digit}

-- `for (len = 0; '\0' != *s; s++, len++);`
unfoldable pub user_strlen_loop : ℕ → Memory → ℕ → ℕ → Option ℕ
user_strlen_loop zero m s len = none
user_strlen_loop (suc f) m s len =
    let rest = user_strlen_loop f m (s + 1) (len + 1) in if not (0 == m s) then rest else some len

unfoldable pub ece391_strlen : Memory → ℕ → Option ℕ
ece391_strlen m s = user_strlen_loop max_rounds m s 0

-- `while ('\0' != (*dst++ = *src++));`
unfoldable pub user_strcpy_loop : ℕ → Memory → ℕ → ℕ → Option Memory
user_strcpy_loop zero m dst src = none
user_strcpy_loop (suc f) m dst src =
    let m' = write m dst (m src) in
    let rest = user_strcpy_loop f m' (dst + 1) (src + 1) in
    if not (0 == m src) then rest else some m'

unfoldable pub ece391_strcpy : Memory → ℕ → ℕ → Option Memory
ece391_strcpy m dst src = user_strcpy_loop max_rounds m dst src

-- `while (*s1 == *s2) { if (*s1 == '\0') return 0; s1++; s2++; }`
unfoldable pub user_strcmp_loop : ℕ → Memory → ℕ → ℕ → Option ℤ
user_strcmp_loop zero m s1 s2 = none
user_strcmp_loop (suc f) m s1 s2 =
    let rest = user_strcmp_loop f m (s1 + 1) (s2 + 1) in
    if m s1 == m s2 then if m s1 == 0 then some (pos 0) else rest else some (sub_ℕ (m s1) (m s2))

unfoldable pub ece391_strcmp : Memory → ℕ → ℕ → Option ℤ
ece391_strcmp m s1 s2 = user_strcmp_loop max_rounds m s1 s2

-- The same, where `--n == 0` ends it too; it is called with an `n` that is not 0.
unfoldable pub ece391_strncmp : ℕ → Memory → ℕ → ℕ → ℤ
ece391_strncmp zero m s1 s2 = pos 0
ece391_strncmp (suc n) m s1 s2 =
    let rest = ece391_strncmp n m (s1 + 1) (s2 + 1) in
    if m s1 == m s2 then if (m s1 == 0) || (n == 0) then pos 0 else rest else sub_ℕ (m s1) (m s2)

-- `while (beg < end)`; `f` is at least half of the distance.
unfoldable pub user_strrev_loop : ℕ → Memory → ℕ → ℕ → ℕ → Memory
user_strrev_loop zero m s beg end = m
user_strrev_loop (suc f) m s beg end =
    let tmp = m (s + end) in
    let m' = write m (s + end) (m (s + beg)) in
    let rest = user_strrev_loop f (write m' (s + beg) tmp) s (beg + 1) (end - 1) in
    if ltb beg end then rest else m

-- `end` is the length less 1, and -1 for an empty string.
unfoldable pub ece391_strrev : Memory → ℕ → Option Memory
ece391_strrev m s = do
  n ← ece391_strlen m s
  some (if leb n 1 then m else user_strrev_loop n m s 0 (n - 1))

-- `while (newval > 0)`, at most 32 digits: the memory, and `newbuf` behind the last digit
unfoldable pub user_itoa_loop : ℕ → Memory → ℕ → ℕ → ℕ → Memory × ℕ
user_itoa_loop zero m newval newbuf radix = (m, newbuf)
user_itoa_loop (suc f) m newval newbuf radix =
    let m' = write m newbuf (digit (newval % radix)) in
    let rest = user_itoa_loop f m' (newval / radix) (newbuf + 1) radix in
    if ltb 0 newval then rest else (m, newbuf)

unfoldable pub ece391_itoa : Memory → ℕ → ℕ → ℕ → Option Memory
ece391_itoa m value buf radix =
    let (m', newbuf) = user_itoa_loop 32 m value buf radix in
    if value == 0
    then some (write (write m buf b'0') (buf + 1) 0)
    else ece391_strrev (write m' newbuf 0) buf
