-- ===== src/Syscall/Keeping.antt =====
-- The system calls on descriptors and memory make, end and change no process but for its descriptors.
pub mod Operations
use unix_operation_system.Prelude.{
  ℕ, ◌+◌, refl, arith, Option, none, some, ◌>>=◌, List, [], ◌∷◌, ◌||◌, not, ◌==◌, ltb, leb,
  both_branches, each_branch, ◌≤◌,
}
use unix_operation_system.Prelude.Int.{ℤ, is_fail, is_nat, is_negative, below, above, to_nat}
use unix_operation_system.Memory.{word32}
use unix_operation_system.Strings.{strlen_unsigned, strncpy_unsigned}
use unix_operation_system.FileSystem.{read_dentry_by_name}
use unix_operation_system.FileSystem.Layout.{filename_len, inode_length, dentry_count, dir_entry}
use unix_operation_system.Rtc.{rtc_read}
use unix_operation_system.State.{
  Kernel, FileOps, null, rtc_op, file_op, dir_op, terminal_stdin, terminal_stdout,
}
use unix_operation_system.Terminal.{
  wait_loop, is_waiting, count_exit, read_line, asked, terminal_read, terminal_write, terminal_open,
}
use unix_operation_system.Syscall.{
  fd_min, fd_max, current, entry, find_next_fd, with_entry, file_open, file_read, dir_open,
  dir_read,
}
use unix_operation_system.Syscall.Calls.{
  Outcome, returned, unending, null_used, Others, after, result, with_rtc, call_open, call_close,
  call_read, call_write, opened_as, assign, open_found, look_up, sys_open, sys_close, sys_read,
  sys_write, ops_of,
}
use unix_operation_system.Syscall.Table.{set_entry-IsValid, ops_of-is_device, in_range}
use unix_operation_system.Process.Kin.{
  Kin, Kin-same, Kin-trans, same_blocks, same_blocks, with_entry-Kin, kept_entry, untouched,
  one_terminal,
}
use unix_operation_system.Syscall.Keeping.Operations.{
  Keeps, after-Keeps, Keeps-trans, bind-Keeps, call_open-Keeps, call_close-Keeps, file_read-Kin,
  dir_read-Keeps,
}

-- Steps that keep the processes
abbrev pub AllKeep : List (Kernel → Kernel) → Type 0
AllKeep [] = Unit
AllKeep (e ∷ es) = ((k : Kernel) → Kin k (e k)) × AllKeep es

-- What happens while a call waits keeps the processes.
pub record Harmless (o : Others) : Type 0 where
  pub steps : AllKeep o.kernel
  pub late : (k : Kernel) → Kin k (o.late k)

-- A result, if there is one, is a state with the same processes.
abbrev KeepsIf : Kernel → Option Kernel → Type 0
KeepsIf k none = Unit
KeepsIf k (some k') = Kin k k'

KeepsIf-trans : (k k' : Kernel) (o : Option Kernel) → Kin k k' → KeepsIf k' o → KeepsIf k o
KeepsIf-trans k k' none a b = tt
KeepsIf-trans k k' (some end) a b = Kin-trans a b

wait_loop-KeepsIf :
    (es : List (Kernel → Kernel)) (k : Kernel) → AllKeep es → KeepsIf k (wait_loop es k)
unfolding wait_loop
wait_loop-KeepsIf [] k keep = both_branches (KeepsIf k) (is_waiting k) tt (Kin-same k)
wait_loop-KeepsIf (e ∷ es) k (keep, rest) =
    both_branches (KeepsIf k) (is_waiting k)
      (KeepsIf-trans k (e k) (wait_loop es (e k)) (keep k) (wait_loop-KeepsIf es (e k) rest))
      (Kin-same k)

read_line-Kin : (k : Kernel) (buf nbytes : ℕ) → Kin k (read_line k buf nbytes).1
unfolding read_line count_exit
read_line-Kin k buf nbytes =
    same_blocks (ground arith) (λ t. ground arith) (ground arith) (ground arith) (ground arith)

terminal_read-Keeps :
    (o : Others) (k : Kernel) (buf nbytes : ℕ)
    → Harmless o
    → Keeps k (after (terminal_read o.kernel o.late k buf nbytes) result)
unfolding terminal_read asked after result
terminal_read-Keeps o k buf nbytes h =
    let began : Kin k (asked k) = one_terminal k.display_term _ refl refl refl refl refl refl in
    go (wait_loop o.kernel (asked k))
      (KeepsIf-trans k (asked k) _ began (wait_loop-KeepsIf o.kernel (asked k) h.steps))
  where
    go :
        (w : Option Kernel)
        → KeepsIf k w
        → Keeps k (after (do k' ← w; some (read_line (o.late k') buf nbytes)) result)
    go none v = tt
    go (some k') v = Kin-trans v (Kin-trans (h.late k') (read_line-Kin (o.late k') buf nbytes))

module _ (k : Kernel) where
  call_read-Keeps :
      (f : FileOps) (o : Others) (fd : ℤ) (buf nbytes : ℕ)
      → Harmless o
      → Keeps k (call_read f o k fd buf nbytes)
  unfolding call_read result with_rtc
  call_read-Keeps null o fd buf nbytes h = tt
  call_read-Keeps rtc_op o fd buf nbytes h =
      after-Keeps k (rtc_read o.clock k.rtc k.running_term fd buf) (with_rtc k)
        (λ r. untouched refl refl refl refl refl)
  call_read-Keeps file_op o fd buf nbytes h = file_read-Kin k (to_nat fd) buf nbytes
  call_read-Keeps dir_op o fd buf nbytes h = dir_read-Keeps k (to_nat fd) buf nbytes
  call_read-Keeps terminal_stdin o fd buf nbytes h = terminal_read-Keeps o k buf nbytes h
  call_read-Keeps terminal_stdout o fd buf nbytes h = tt

  terminal_write-Keeps : (buf nbytes : ℕ) → Keeps k (after (terminal_write k buf nbytes) result)
  unfolding terminal_write after result
  terminal_write-Keeps buf nbytes =
      both_branches (λ (r : Option (ℤ × Kernel)). Keeps k (after r result)) (buf == 0)
        (untouched refl refl refl refl refl)
        (bind-Keeps k (strlen_unsigned k.memory buf) _ (λ n. untouched refl refl refl refl refl))

  call_write-Keeps :
      (f : FileOps) (fd : ℤ) (buf nbytes : ℕ) → Keeps k (call_write f k fd buf nbytes)
  unfolding call_write result with_rtc
  call_write-Keeps null fd buf nbytes = tt
  call_write-Keeps rtc_op fd buf nbytes = untouched refl refl refl refl refl
  call_write-Keeps file_op fd buf nbytes = Kin-same k
  call_write-Keeps dir_op fd buf nbytes = Kin-same k
  call_write-Keeps terminal_stdin fd buf nbytes = tt
  call_write-Keeps terminal_stdout fd buf nbytes = terminal_write-Keeps buf nbytes

  -- sys_read, when what happens during its wait keeps the processes
  pub sys_read-Keeps :
      (o : Others) (fd : ℤ) (buf : ℕ) (nbytes : ℤ)
      → Harmless o
      → Keeps k (sys_read o k fd buf nbytes)
  unfolding sys_read
  sys_read-Keeps o fd buf nbytes h =
      both_branches (Keeps k) (is_nat fd 1) (untouched refl refl refl refl refl) (
        both_branches (Keeps k)
          (is_negative fd
            || (above fd fd_max
                || ((buf == 0) || (is_negative nbytes || ((entry k (to_nat fd)).flag == 0)))))
          (untouched refl refl refl refl refl)
          (call_read-Keeps (entry k (to_nat fd)).fot_ptr o fd buf (to_nat nbytes) h))

  pub sys_write-Keeps : (fd : ℤ) (buf : ℕ) (nbytes : ℤ) → Keeps k (sys_write k fd buf nbytes)
  unfolding sys_write
  sys_write-Keeps fd buf nbytes =
      both_branches (Keeps k) (is_nat fd 0) (untouched refl refl refl refl refl) (
        both_branches (Keeps k)
          (below fd 1
            || (above fd fd_max
                || ((buf == 0) || (is_negative nbytes || ((entry k (to_nat fd)).flag == 0)))))
          (Kin-same k) (call_write-Keeps (entry k (to_nat fd)).fot_ptr fd buf (to_nat nbytes)))

  pub sys_close-Keeps : (fd : ℤ) → Keeps k (sys_close k fd)
  unfolding sys_close
  sys_close-Keeps fd =
      let e = entry k (to_nat fd) in
      let closed = with_entry k (to_nat fd) (record e { flag = 0 }) in
      both_branches (Keeps k) (below fd fd_min || above fd fd_max) (Kin-same k) (
        both_branches (Keeps k) (e.flag == 0) (Kin-same k) (
          Keeps-trans k closed _
            (with_entry-Kin k (to_nat fd) _
              (kept_entry (current k).fd_entry (to_nat fd) _ refl (λ h. absurd (h refl))))
            (call_close-Keeps closed e.fot_ptr fd)))

opened_as-Keeps : (k : Kernel) (fd : ℕ) (o : Outcome) → Keeps k o → Keeps k (opened_as fd o)
unfolding opened_as
opened_as-Keeps k fd (returned r k') v = both_branches (Keeps k) (is_fail r) v v
opened_as-Keeps k fd unending v = tt
opened_as-Keeps k fd null_used v = tt

open_found-Keeps :
    (filename dentry fd : ℕ) (k : Kernel) → fd_min ≤ fd → Keeps k (open_found filename dentry fd k)
unfolding open_found assign
open_found-Keeps filename dentry fd k lo =
    let f = ops_of (word32 k.memory (dentry + 32)) in
    opened_as-Keeps k fd _ (
      Keeps-trans k (assign k dentry fd) (call_open f (assign k dentry fd) filename)
        (with_entry-Kin k fd _
          (λ v. set_entry-IsValid (current k).fd_entry fd _ v lo (λ used. ops_of-is_device _)))
        (call_open-Keeps (assign k dentry fd) f filename))

look_up-Keeps :
    (filename dentry fd : ℕ) (k : Kernel) → fd_min ≤ fd → Keeps k (look_up filename dentry fd k)
unfolding look_up
look_up-Keeps filename dentry fd k lo =
    after-Keeps k (read_dentry_by_name k.memory k.boot_block_ptr filename dentry) _ (λ first.
      both_branches (Keeps k) (not (is_nat first.0 0)) (untouched refl refl refl refl refl) (
        after-Keeps k (read_dentry_by_name first.1 k.boot_block_ptr filename dentry) _ (λ second.
          both_branches (Keeps k) (not (is_nat second.0 0)) (untouched refl refl refl refl refl) (
            Keeps-trans k (record k { memory = second.1 }) _ (untouched refl refl refl refl refl)
              (open_found-Keeps filename dentry fd (record k { memory = second.1 }) lo)))))

pub sys_open-Keeps : (k : Kernel) (dentry filename : ℕ) → Keeps k (sys_open k dentry filename)
unfolding sys_open
sys_open-Keeps k dentry filename = both_branches (Keeps k) (filename == 0) tt (
    after-Keeps k (strlen_unsigned k.memory filename) _ (λ n.
      both_branches (Keeps k) (n == 0) (untouched refl refl refl refl refl) (
        each_branch (Keeps k) (below (find_next_fd k) fd_min || above (find_next_fd k) fd_max)
          (λ e. untouched refl refl refl refl refl)
          (λ e.
            look_up-Keeps filename dentry (to_nat (find_next_fd k)) k
              (in_range (find_next_fd k) e)))))
