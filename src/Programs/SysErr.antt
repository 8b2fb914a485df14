-- ===== src/Programs/SysErr.antt =====
-- The tests of the system calls' errors: syscalls/ece391syserr.c, over the calls that it makes.
pub mod States
pub mod Passing
pub mod Opening
pub mod Lots
mod Tests
use Prim.Native.String.{String}
use unix_operation_system.Prelude.{
  ℕ, zero, suc, ◌+◌, ◌-◌, ◌%◌, ◌^◌, Option, none, some, ◌>>=◌, ◌==◌, if◌then◌else◌,
}
use unix_operation_system.Prelude.Int.{ℤ, pos, negsuc, is_fail}
use unix_operation_system.Programs.Reading.{Calls, Literals, ece391_fdputs}

-- NEG_FD and BIG_FD, and NEG_NUM and BIG_NUM, the first as the bits of an unsigned number
abbrev pub neg_fd : ℤ
neg_fd = negsuc 1073741822

abbrev pub big_fd : ℤ
big_fd = pos 1073741823

abbrev pub neg_num : ℕ
neg_num = 2 ^ 32 - 1073741823

abbrev pub big_num : ℕ
big_num = 1073741823

-- `buf` is a test's local, and `literal` gives the address of each literal.
module _ {S : Type 0} (c : Calls S) (buf : ℕ) (literal : String → ℕ) where
  unfoldable pub say : S → String → Option S
  say s text = ece391_fdputs c s (pos 1) (literal text)

  -- `if (-1 != call) { fail = 2; ece391_fdputs (1, text); }`
  unfoldable pub expect_fail : Option (ℤ × S) → String → ℕ → Option (ℕ × S)
  expect_fail call text fail = do
    (r, s) ← call
    if is_fail r then some (fail, s) else (do s' ← say s text; some (2, s'))

  -- The message at the end of a test, and its result
  unfoldable pub verdict : S → ℕ → String → String → Option (ℕ × S)
  verdict s fail failed passed = do
    s' ← say s (if fail == 0 then passed else failed)
    some (fail, s')

  unfoldable pub err_neg_fd : S → Option (ℕ × S)
  err_neg_fd s = do
    (f1, s1) ← expect_fail (c.ece391_read s neg_fd buf 31) "read fail\n" 0
    (f2, s2) ← expect_fail (c.ece391_write s1 neg_fd buf (pos 31)) "write fail\n" f1
    (f3, s3) ← expect_fail (c.ece391_close s2 neg_fd) "close fail\n" f2
    verdict s3 f3 "err_neg_fd: FAIL\n" "err_neg_fd: PASS\n"

  unfoldable pub err_big_fd : S → Option (ℕ × S)
  err_big_fd s = do
    (f1, s1) ← expect_fail (c.ece391_read s big_fd buf 31) "read fail\n" 0
    (f2, s2) ← expect_fail (c.ece391_write s1 big_fd buf (pos 31)) "write fail\n" f1
    (f3, s3) ← expect_fail (c.ece391_close s2 big_fd) "close fail\n" f2
    verdict s3 f3 "err_big_fd: FAIL\n" "err_big_fd: PASS\n"

  -- `n` calls of open, and how many of them failed
  unfoldable pub open_lots : ℕ → S → ℕ → Option (ℕ × S)
  open_lots zero s cnt = some (cnt, s)
  open_lots (suc n) s cnt =
      let rest = open_lots n in
      do (r, s') ← c.ece391_open s (literal "."); rest s' (if is_fail r then cnt + 1 else cnt)

  -- `n` calls of close from `i` on
  unfoldable pub close_lots : ℕ → S → ℕ → Option S
  close_lots zero s i = some s
  close_lots (suc n) s i =
      let rest = close_lots n in do (r, s') ← c.ece391_close s (pos i); rest s' (i + 1)

  unfoldable pub err_open_lots : S → Option (ℕ × S)
  err_open_lots s = do
    (cnt, s1) ← open_lots 7 s 0
    s2 ← close_lots 6 s1 2
    if cnt == 1
        then (do s3 ← say s2 "err_open_lots: PASS\n"; some (0, s3))
        else (do s3 ← say s2 "err_open_lots: FAIL\n"; some (2, s3))

  unfoldable pub err_open : S → Option (ℕ × S)
  err_open s = do
    (f1, s1) ← expect_fail (c.ece391_open s (literal "helloo")) "'helloo' fail\n" 0
    (f2, s2) ← expect_fail (c.ece391_open s1 (literal "shel")) "'shel' fail\n" f1
    (f3, s3) ← expect_fail (c.ece391_open s2 (literal "")) "empty string fail\n" f2
    verdict s3 f3 "err_open: FAIL\n" "err_open: PASS\n"

  -- A test for each of `n` descriptors from `i` on
  unfoldable pub each_fd : (S → ℤ → Option (ℤ × S)) → String → ℕ → S → ℕ → ℕ → Option (ℕ × S)
  each_fd call text zero s i fail = some (fail, s)
  each_fd call text (suc n) s i fail =
      let rest = each_fd call text n in
      do (fail', s') ← expect_fail (call s (pos i)) text fail; rest s' (i + 1) fail'

  unfoldable pub err_unopened : S → Option (ℕ × S)
  err_unopened s = do
    (f1, s1) ← each_fd c.ece391_close "close unopened or invalid fd fail\n" 8 s 0 0
    (f2, s2) ← each_fd (λ k i. c.ece391_read k i buf 31) "read from unopened fd fail\n" 6 s1 2 f1
    (f3, s3) ←
        each_fd (λ k i. c.ece391_write k i buf (pos 31)) "write to unopened fd fail\n" 6 s2 2 f2
    verdict s3 f3 "err_unopened: FAIL\n" "err_unopened: PASS\n"

  unfoldable pub err_vidmap : S → Option (ℕ × S)
  err_vidmap s = do
    (f1, s1) ← expect_fail (c.ece391_vidmap s 0) "Null pointer fail\n" 0
    (f2, s2) ← expect_fail (c.ece391_vidmap s1 0x400000) "Kernel pointer fail fail\n" f1
    verdict s2 f2 "err_vidmap: FAIL\n" "err_vidmap: PASS\n"

  unfoldable pub err_stdin_out : S → Option (ℕ × S)
  err_stdin_out s = do
    (f1, s1) ← expect_fail (c.ece391_write s (pos 0) buf (pos 31)) "write to stdin fail\n" 0
    (f2, s2) ← expect_fail (c.ece391_read s1 (pos 1) buf 31) "read from stdout fail\n" f1
    verdict s2 f2 "err_stdin_out: FAIL\n" "err_stdin_out: PASS\n"

  unfoldable pub err_syscall_num : S → Option (ℕ × S)
  err_syscall_num s = do
    (f1, s1) ← expect_fail (c.call_sys s big_num) "syscall 0 fail\n" 0
    (f2, s2) ← expect_fail (c.call_sys s1 neg_num) "big num syscall fail\n" f1
    (f3, s3) ← expect_fail (c.call_sys s2 0) "neg num syscall fail\n" f2
    verdict s3 f3 "err_syscall_num: FAIL\n" "err_syscall_num: PASS\n"

  -- The tests from the first to the eighth, and the sum of their results
  unfoldable pub run_all : S → Option (ℕ × S)
  run_all s = do
    (f1, s1) ← err_neg_fd s
    (f2, s2) ← err_big_fd s1
    (f3, s3) ← err_open_lots s2
    (f4, s4) ← err_open s3
    (f5, s5) ← err_unopened s4
    (f6, s6) ← err_vidmap s5
    (f7, s7) ← err_stdin_out s6
    (f8, s8) ← err_syscall_num s7
    verdict s8 (f1 + f2 + f3 + f4 + f5 + f6 + f7 + f8) "\nOverall Tests: FAIL\n"
        "\nOverall Tests: PASS\n"

  -- The switch on the number of a test, a byte less '0'
  unfoldable pub select_test : ℕ → S → Option (ℕ × S)
  select_test select s =
      if select == b'0'
      then run_all s
      else if select == b'1'
      then err_neg_fd s
      else if select == b'2'
      then err_big_fd s
      else if select == b'3'
      then err_open_lots s
      else if select == b'4'
      then err_open s
      else if select == b'5'
      then err_unopened s
      else if select == b'6'
      then err_vidmap s
      else if select == b'7'
      then err_stdin_out s
      else if select == b'8'
      then err_syscall_num s
      else (do s' ← say s "Invalid test number. Choose from tests 1-8 or 0"; some (0, s'))

  -- main, whose buffer is at `line`
  unfoldable pub syserr : ℕ → S → Option (ℕ × S)
  syserr line s = do
    s1 ← say s "Choose from tests 1-8. 0 to run all: "
    (cnt, s2) ← c.ece391_read s1 (pos 0) line 127
    if is_fail cnt
        then (do s3 ← say s2 "Can't read test #\n"; some (2, s3))
        else select_test (c.memory s2 line) s2
