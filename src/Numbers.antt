-- ===== src/Numbers.antt =====
-- itoa of student-distrib/lib.c: the characters that it leaves in its buffer before the NUL. The
-- loop writes them from the lowest digit on, and strrev turns them round.
pub mod Digits
pub mod Buffer
mod Tests
use mathlib.Core.List.{reverse}
use unix_operation_system.Prelude.{
  ℕ, zero, suc, ◌+◌, ◌-◌, ◌/◌, ◌%◌, Option, some, List, [], ◌∷◌, ltb, ◌==◌, if◌then◌else◌,
}
use unix_operation_system.Memory.{Memory, write}
use unix_operation_system.Strings.{strrev}

-- lookup[i], for i below 36
unfoldable pub digit : ℕ → ℕ
digit i = if ltb i 10 then b'0' + i else b'A' + i - 10

-- The `while (newval > 0)` loop. A 32-bit number in a radix from 2 on has at most 32 digits.
unfoldable pub itoa_loop : ℕ → ℕ → ℕ → List ℕ
itoa_loop zero newval radix = []
itoa_loop (suc f) newval radix =
    let rest = itoa_loop f (newval / radix) radix in
    if newval == 0 then [] else digit (newval % radix) ∷ rest

unfoldable pub itoa : ℕ → ℕ → List ℕ
itoa value radix = if value == 0 then b'0' ∷ [] else reverse (itoa_loop 32 value radix)

-- The same loop on the buffer: the memory, and `newbuf` behind the last digit
unfoldable pub write_digits : ℕ → Memory → ℕ → ℕ → ℕ → Memory × ℕ
write_digits zero m newval newbuf radix = (m, newbuf)
write_digits (suc f) m newval newbuf radix =
    let rest =
      write_digits f (write m newbuf (digit (newval % radix))) (newval / radix) (newbuf + 1)
        radix in
    if newval == 0 then (m, newbuf) else rest

unfoldable pub itoa_buffer : Memory → ℕ → ℕ → ℕ → Option Memory
itoa_buffer m value buf radix =
    let (m', newbuf) = write_digits 32 m value buf radix in
    if value == 0
    then some (write (write m buf b'0') (buf + 1) 0)
    else strrev (write m' newbuf 0) buf
