-- ===== src/Programs/Shell.antt =====
-- The shell: syscalls/ece391shell.c, over the system calls that it makes.
pub mod Commands
pub mod Sessions
mod Tests
use unix_operation_system.Prelude.{
  ℕ, zero, suc, ◌+◌, ◌-◌, ◌&&◌, not, Option, none, some, ◌>>=◌, ltb, ◌==◌, if◌then◌else◌,
}
use unix_operation_system.Prelude.Int.{ℤ, pos, is_fail, is_nat, to_nat}
use unix_operation_system.Memory.{Memory}
use unix_operation_system.Programs.{ece391_strcmp}
use unix_operation_system.Programs.Reading.{Calls, ece391_fdputs}

-- Where the local buffer and the literals are
pub record Texts : Type 0 where
  pub buf : ℕ
  pub starting : ℕ
  pub prompt : ℕ
  pub read_failed : ℕ
  pub exit : ℕ
  pub no_such_command : ℕ
  pub by_exception : ℕ
  pub abnormally : ℕ

-- `if (cnt > 0 && '\n' == buf[cnt - 1]) cnt--;`
unfoldable pub without_newline : Memory → ℕ → ℕ → ℕ
without_newline m buf cnt = if ltb 0 cnt && (m (buf + (cnt - 1)) == b'\n') then cnt - 1 else cnt

module _ {S : Type 0} (c : Calls S) (t : Texts) where
  -- What is said of the status of a command
  unfoldable pub report : ℤ → S → Option S
  report rval s =
      if is_fail rval
      then ece391_fdputs c s (pos 1) t.no_such_command
      else if is_nat rval 256
      then ece391_fdputs c s (pos 1) t.by_exception
      else if not (is_nat rval 0)
      then ece391_fdputs c s (pos 1) t.abnormally
      else some s

  -- The loop, at most `f` rounds. A read gives -1 or a number of bytes.
  unfoldable pub shell_loop : ℕ → S → Option (ℕ × S)
  shell_loop zero s = none
  shell_loop (suc f) s =
      let rest = shell_loop f in
      do
        s1 ← ece391_fdputs c s (pos 1) t.prompt
        (cnt, s2) ← c.ece391_read s1 (pos 0) t.buf 1023
        if is_fail cnt
            then (do s3 ← ece391_fdputs c s2 (pos 1) t.read_failed; some (3, s3))
            else (do
              let n = without_newline (c.memory s2) t.buf (to_nat cnt)
              let s3 = c.store s2 (t.buf + n) 0
              differs ← ece391_strcmp (c.memory s3) t.buf t.exit
              if is_nat differs 0
                  then some (0, s3)
                  else if c.memory s3 t.buf == 0
                  then rest s3
                  else (do (rval, s4) ← c.ece391_execute s3 t.buf; s5 ← report rval s4; rest s5))

  -- main
  unfoldable pub shell : ℕ → S → Option (ℕ × S)
  shell f s = do s' ← ece391_fdputs c s (pos 1) t.starting; shell_loop f s'
