-- ===== src/Programs/Reading.antt =====
-- cat and ls: syscalls/ece391cat.c and ece391ls.c, over the system calls that they make.
use unix_operation_system.Prelude.{ℕ, zero, suc, ◌+◌, not, Option, none, some, ◌>>=◌, if◌then◌else◌}
use unix_operation_system.Prelude.Int.{ℤ, pos, is_fail, is_nat, to_nat}
use unix_operation_system.Memory.{Memory}
use unix_operation_system.Programs.{ece391_strlen}

-- What a program sees of the kernel: its memory, to which it also writes, and the system calls, where
-- `none` is a call that does not return
pub record Calls (S : Type 0) : Type 0 where
  pub memory : S → Memory
  pub store : S → ℕ → ℕ → S
  pub ece391_getargs : S → ℕ → ℕ → Option (ℤ × S)
  pub ece391_open : S → ℕ → Option (ℤ × S)
  pub ece391_read : S → ℤ → ℕ → ℕ → Option (ℤ × S)
  pub ece391_write : S → ℤ → ℕ → ℤ → Option (ℤ × S)
  pub ece391_close : S → ℤ → Option (ℤ × S)
  pub ece391_vidmap : S → ℕ → Option (ℤ × S)
  pub ece391_execute : S → ℕ → Option (ℤ × S)
  -- the call of this number, with the arguments that the registers happen to hold
  pub call_sys : S → ℕ → Option (ℤ × S)

-- Where the local buffer and the literals are
pub record Literals : Type 0 where
  pub buf : ℕ
  pub no_arguments : ℕ
  pub not_found : ℕ
  pub read_failed : ℕ
  pub dot : ℕ

module _ {S : Type 0} (c : Calls S) where
  -- A message is written, and the result of the call is dropped.
  unfoldable pub ece391_fdputs : S → ℤ → ℕ → Option S
  ece391_fdputs s fd text = do
    n ← ece391_strlen (c.memory s) text
    (ret, s') ← c.ece391_write s fd text (pos n)
    some s'

module _ {S : Type 0} (c : Calls S) (l : Literals) where
  -- A message, and the status with which the program ends
  unfoldable pub give_up : S → ℕ → ℕ → Option (ℕ × S)
  give_up s text status = do s' ← ece391_fdputs c s (pos 1) text; some (status, s')

  -- `while (0 != (cnt = ece391_read (fd, buf, 1024)))` of cat, at most `f` rounds
  unfoldable pub cat_loop : ℕ → ℤ → S → Option (ℕ × S)
  cat_loop zero fd s = none
  cat_loop (suc f) fd s =
      let rest = cat_loop f fd in
      do
        (cnt, s1) ← c.ece391_read s fd l.buf 1024
        if is_nat cnt 0
            then some (0, s1)
            else if is_fail cnt
            then give_up s1 l.read_failed 3
            else (do
              (written, s2) ← c.ece391_write s1 (pos 1) l.buf cnt
              if is_fail written then some (3, s2) else rest s2)

  -- main of cat
  unfoldable pub cat : ℕ → S → Option (ℕ × S)
  cat f s = do
    (got, s1) ← c.ece391_getargs s l.buf 1024
    if not (is_nat got 0) then give_up s1 l.no_arguments 3 else (do
      (fd, s2) ← c.ece391_open s1 l.buf
      if is_fail fd then give_up s2 l.not_found 2 else cat_loop f fd s2)

  -- The same loop of ls: each name is written with a newline.
  unfoldable pub ls_loop : ℕ → ℤ → S → Option (ℕ × S)
  ls_loop zero fd s = none
  ls_loop (suc f) fd s =
      let rest = ls_loop f fd in
      do
        (cnt, s1) ← c.ece391_read s fd l.buf 32
        if is_nat cnt 0
            then some (0, s1)
            else if is_fail cnt
            then give_up s1 l.read_failed 3
            else (do
              let s2 = c.store s1 (l.buf + to_nat cnt) b'\n'
              (written, s3) ← c.ece391_write s2 (pos 1) l.buf (pos (to_nat cnt + 1))
              if is_fail written then some (3, s3) else rest s3)

  -- main of ls
  unfoldable pub ls : ℕ → S → Option (ℕ × S)
  ls f s = do
    (fd, s1) ← c.ece391_open s l.dot
    if is_fail fd then give_up s1 l.not_found 2 else ls_loop f fd s1
