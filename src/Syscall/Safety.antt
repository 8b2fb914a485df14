-- ===== src/Syscall/Safety.antt =====
-- The system calls on descriptors never call a NULL entry of a table of operations.
use unix_operation_system.Prelude.{
  ℕ, ◌≤◌, ◌≡◌, ◌≢◌, refl, inl, inr, arith, true, false, Bool-cases, each_branch, ltb, ◌==◌, ◌||◌,
  Option, none, some, not,
}
use unix_operation_system.Prelude.Int.{
  ℤ, pos, negsuc, is_nat, is_negative, is_fail, below, above, to_nat,
}
use unix_operation_system.Strings.{strlen_unsigned}
use unix_operation_system.FileSystem.{read_dentry_by_name}
use unix_operation_system.Rtc.{rtc_read}
use unix_operation_system.Terminal.{terminal_read, terminal_write}
use unix_operation_system.State.{
  Kernel, FdEntry, FileOps, null, rtc_op, file_op, dir_op, terminal_stdin, terminal_stdout,
}
use unix_operation_system.Syscall.{
  fd_min, fd_max, current, entry, find_next_fd, file_open, dir_read,
}
use unix_operation_system.Syscall.Table.{IsValid, is_device, ops_of-is_device}
use unix_operation_system.Syscall.Calls.{
  Outcome, returned, unending, null_used, after, result, with_rtc, call_open, call_close, call_read,
  call_write, opened_as, open_found, look_up, sys_open, sys_close, sys_read, sys_write, Others,
}

-- No NULL pointer was called or read.
pub NeverNull : Outcome → Type 0
NeverNull (returned r k) = Unit
NeverNull unending = Unit
NeverNull null_used = ⊥

after-NeverNull {ℓ} :
    {A : Type ℓ} (o : Option A) (f : A → Outcome)
    → ((a : A) → NeverNull (f a))
    → NeverNull (after o f)
unfolding after NeverNull
after-NeverNull none f h = tt
after-NeverNull (some a) f h = h a

call_open-NeverNull :
    (f : FileOps) (k : Kernel) (filename : ℕ)
    → is_device f ≡ true
    → NeverNull (call_open f k filename)
unfolding call_open result with_rtc NeverNull is_device
call_open-NeverNull null k filename d = ground (arith, d)
call_open-NeverNull rtc_op k filename d = tt
call_open-NeverNull file_op k filename d = after-NeverNull (file_open k filename) result (λ a. tt)
call_open-NeverNull dir_op k filename d = tt
call_open-NeverNull terminal_stdin k filename d = tt
call_open-NeverNull terminal_stdout k filename d = tt

call_close-NeverNull :
    (f : FileOps) (k : Kernel) (fd : ℤ) → is_device f ≡ true → NeverNull (call_close f k fd)
unfolding call_close NeverNull is_device
call_close-NeverNull null k fd d = ground (arith, d)
call_close-NeverNull rtc_op k fd d = tt
call_close-NeverNull file_op k fd d = tt
call_close-NeverNull dir_op k fd d = tt
call_close-NeverNull terminal_stdin k fd d = ground (arith, d)
call_close-NeverNull terminal_stdout k fd d = ground (arith, d)

call_read-NeverNull :
    (f : FileOps) (o : Others) (k : Kernel) (fd : ℤ) (buf nbytes : ℕ)
    → f ≢ null
    → f ≢ terminal_stdout
    → NeverNull (call_read f o k fd buf nbytes)
unfolding call_read result with_rtc NeverNull
call_read-NeverNull null o k fd buf nbytes h g = h refl
call_read-NeverNull rtc_op o k fd buf nbytes h g =
    after-NeverNull (rtc_read o.clock k.rtc k.running_term fd buf) (with_rtc k) (λ a. tt)
call_read-NeverNull file_op o k fd buf nbytes h g = tt
call_read-NeverNull dir_op o k fd buf nbytes h g =
    after-NeverNull (dir_read k (to_nat fd) buf nbytes) result (λ a. tt)
call_read-NeverNull terminal_stdin o k fd buf nbytes h g =
    after-NeverNull (terminal_read o.kernel o.late k buf nbytes) result (λ a. tt)
call_read-NeverNull terminal_stdout o k fd buf nbytes h g = g refl

call_write-NeverNull :
    (f : FileOps) (k : Kernel) (fd : ℤ) (buf nbytes : ℕ)
    → f ≢ null
    → f ≢ terminal_stdin
    → NeverNull (call_write f k fd buf nbytes)
unfolding call_write result with_rtc NeverNull
call_write-NeverNull null k fd buf nbytes h g = h refl
call_write-NeverNull rtc_op k fd buf nbytes h g = tt
call_write-NeverNull file_op k fd buf nbytes h g = tt
call_write-NeverNull dir_op k fd buf nbytes h g = tt
call_write-NeverNull terminal_stdin k fd buf nbytes h g = g refl
call_write-NeverNull terminal_stdout k fd buf nbytes h g =
    after-NeverNull (terminal_write k buf nbytes) result (λ a. tt)

-- A device is none of the other tables.
not_other : (f g : FileOps) → is_device f ≡ true → is_device g ≡ false → f ≢ g
not_other f g d e same = ground (arith, d, e, same)

readable :
    (t : ℕ → FdEntry) (fd : ℕ)
    → IsValid t
    → fd ≢ 1
    → fd ≤ fd_max
    → (t fd).flag ≢ 0
    → ((t fd).fot_ptr ≢ null) × ((t fd).fot_ptr ≢ terminal_stdout)
unfolding is_device
readable t fd v h l used = elim (Bool-cases (fd == 0)) [
  | inl e ↦ (ground (arith, e, v.stdin), ground (arith, e, v.stdin))
  | inr e ↦
      let d = v.others fd (ground (arith, e)) l used in
      (not_other _ null d refl, not_other _ terminal_stdout d refl)
]

writable :
    (t : ℕ → FdEntry) (fd : ℕ)
    → IsValid t
    → fd ≢ 0
    → fd ≤ fd_max
    → (t fd).flag ≢ 0
    → ((t fd).fot_ptr ≢ null) × ((t fd).fot_ptr ≢ terminal_stdin)
unfolding is_device
writable t fd v h l used = elim (Bool-cases (fd == 1)) [
  | inl e ↦ (ground (arith, e, v.stdout), ground (arith, e, v.stdout))
  | inr e ↦
      let d = v.others fd (ground (arith, e)) l used in
      (not_other _ null d refl, not_other _ terminal_stdin d refl)
]

sys_read-NeverNull :
    (o : Others) (k : Kernel) (fd : ℤ) (buf : ℕ) (nbytes : ℤ)
    → IsValid (current k).fd_entry
    → NeverNull (sys_read o k fd buf nbytes)
unfolding sys_read NeverNull
sys_read-NeverNull o k (negsuc n) buf nbytes v = tt
sys_read-NeverNull o k (pos n) buf nbytes v =
    each_branch NeverNull (n == 1) (λ e. tt)
      (λ other.
        each_branch NeverNull
          (ltb fd_max n || ((buf == 0) || (is_negative nbytes || ((entry k n).flag == 0))))
          (λ e. tt)
          (λ open_fd.
            let r =
              readable (current k).fd_entry n v (ground (arith, other)) (ground (arith, open_fd))
                (ground (arith, open_fd)) in
            call_read-NeverNull (entry k n).fot_ptr o k (pos n) buf (to_nat nbytes) r.0 r.1))

sys_write-NeverNull :
    (k : Kernel) (fd : ℤ) (buf : ℕ) (nbytes : ℤ)
    → IsValid (current k).fd_entry
    → NeverNull (sys_write k fd buf nbytes)
unfolding sys_write NeverNull
sys_write-NeverNull k (negsuc n) buf nbytes v = tt
sys_write-NeverNull k (pos n) buf nbytes v =
    each_branch NeverNull (n == 0) (λ e. tt)
      (λ other.
        each_branch NeverNull
          (ltb n 1
            || (ltb fd_max n || ((buf == 0) || (is_negative nbytes || ((entry k n).flag == 0)))))
          (λ e. tt)
          (λ open_fd.
            let w =
              writable (current k).fd_entry n v (ground (arith, other)) (ground (arith, open_fd))
                (ground (arith, open_fd)) in
            call_write-NeverNull (entry k n).fot_ptr k (pos n) buf (to_nat nbytes) w.0 w.1))

sys_close-NeverNull :
    (k : Kernel) (fd : ℤ) → IsValid (current k).fd_entry → NeverNull (sys_close k fd)
unfolding sys_close NeverNull
sys_close-NeverNull k (negsuc n) v = tt
sys_close-NeverNull k (pos n) v =
    each_branch NeverNull (ltb n fd_min || ltb fd_max n) (λ e. tt)
      (λ range.
        each_branch NeverNull ((entry k n).flag == 0) (λ e. tt)
          (λ used.
            call_close-NeverNull (entry k n).fot_ptr _ (pos n)
              (v.others n (ground (arith, range)) (ground (arith, range)) (ground (arith, used)))))

opened_as-NeverNull : (fd : ℕ) (o : Outcome) → NeverNull o → NeverNull (opened_as fd o)
unfolding opened_as NeverNull
opened_as-NeverNull fd (returned r k) v = each_branch NeverNull (is_fail r) (λ e. tt) (λ e. tt)
opened_as-NeverNull fd unending v = tt
opened_as-NeverNull fd null_used v = v

look_up-NeverNull : (filename dentry fd : ℕ) (k : Kernel) → NeverNull (look_up filename dentry fd k)
unfolding look_up open_found NeverNull
look_up-NeverNull filename dentry fd k =
    after-NeverNull (read_dentry_by_name k.memory k.boot_block_ptr filename dentry) _ (λ first.
      each_branch NeverNull (not (is_nat first.0 0)) (λ e. tt)
        (λ e.
          after-NeverNull (read_dentry_by_name first.1 k.boot_block_ptr filename dentry) _
            (λ second.
              each_branch NeverNull (not (is_nat second.0 0)) (λ e. tt)
                (λ e.
                  opened_as-NeverNull fd _
                    (call_open-NeverNull _ _ filename (ops_of-is_device _))))))

sys_open-NeverNull :
    (k : Kernel) (dentry filename : ℕ) → filename ≢ 0 → NeverNull (sys_open k dentry filename)
unfolding sys_open NeverNull
sys_open-NeverNull k dentry filename h =
    each_branch NeverNull (filename == 0) (λ e. h (ground (arith, e)))
      (λ e. after-NeverNull (strlen_unsigned k.memory filename) _ (λ n.
        each_branch NeverNull (n == 0) (λ e. tt)
          (λ e.
            each_branch NeverNull (below (find_next_fd k) fd_min || above (find_next_fd k) fd_max)
              (λ e. tt) (λ e. look_up-NeverNull filename dentry (to_nat (find_next_fd k)) k))))

-- What the four calls promise of a process whose table is valid, whatever their arguments are: no
-- operation that is NULL is called, and sys_open reads no NULL name unless it is given one.
pub record Safe (k : Kernel) : Type 0 where
  pub reading :
      (o : Others) (fd : ℤ) (buf : ℕ) (nbytes : ℤ) → NeverNull (sys_read o k fd buf nbytes)
  pub writing : (fd : ℤ) (buf : ℕ) (nbytes : ℤ) → NeverNull (sys_write k fd buf nbytes)
  pub closing : (fd : ℤ) → NeverNull (sys_close k fd)
  pub opening : (dentry filename : ℕ) → filename ≢ 0 → NeverNull (sys_open k dentry filename)

-- In a process whose table of descriptors is valid, no argument makes sys_read, sys_write or
-- sys_close call an operation that is NULL, nor does any name but NULL make sys_open do so.
pub calls-Safe : (k : Kernel) → IsValid (current k).fd_entry → Safe k
calls-Safe k v = record {
  reading = λ o fd buf nbytes. sys_read-NeverNull o k fd buf nbytes v;
  writing = λ fd buf nbytes. sys_write-NeverNull k fd buf nbytes v;
  closing = λ fd. sys_close-NeverNull k fd v;
  opening = λ dentry filename. sys_open-NeverNull k dentry filename;
}
