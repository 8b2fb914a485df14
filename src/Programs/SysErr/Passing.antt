-- ===== src/Programs/SysErr/Passing.antt =====
-- The kernel refuses what the tests of syscalls/ece391syserr.c expect it to refuse.
use Prim.Native.String.{String}
use unix_operation_system.Prelude.{
  ℕ, zero, suc, ◌+◌, ◌≤◌, ◌≡◌, refl, ◌∙◌, arith, true, false, Option, some, ◌⊎◌, ◌||◌, ◌==◌, ltb,
  ne→==, Bool-cases, inl, inr,
}
use unix_operation_system.Prelude.Int.{ℤ, pos, fail, below, above}
use unix_operation_system.Strings.Length.{strlen_unsigned-IsString}
use unix_operation_system.FileSystem.Dentry.{read_dentry_by_name-none}
use unix_operation_system.State.{Kernel}
use unix_operation_system.Terminal.{terminal_write, write_loop}
use unix_operation_system.Syscall.{fd_min, fd_max, find_next_fd}
use unix_operation_system.Syscall.Calls.{
  sys_open, look_up, sys_read, sys_write, sys_close, call_write, after, result,
}
use unix_operation_system.Syscall.Vidmap.{sys_vidmap}
use unix_operation_system.Programs.Support.{support-Agrees}
use unix_operation_system.Programs.Reading.{ece391_fdputs}
use unix_operation_system.Programs.Machine.{Setting, kernel_calls}
use unix_operation_system.Programs.SysErr.States.{
  Absent, Fresh, Yields, bind-Yields, done-Yields, Quiet-Opened, Opened-screen,
}
use unix_operation_system.Programs.SysErr.{
  neg_fd, big_fd, say, expect_fail, verdict, err_neg_fd, err_big_fd, err_open, each_fd,
  err_unopened, err_vidmap, err_stdin_out, err_syscall_num,
}

module _ (c : Setting) (buf : ℕ) (literal : String → ℕ) where
  abbrev Refused : Option (ℤ × Kernel) → Type 0
  Refused = Yields (Fresh literal c.dentry) fail

  abbrev said : Kernel → ℕ → ℕ → Kernel
  said k n a = record k { screen = write_loop n k a 0 k.screen; interrupts_on = true }

  pub say_quiet :
      (k : Kernel) (t : String)
      → Fresh literal c.dentry k
      → (k' : Kernel) × (say (kernel_calls c) buf literal k t ≡ some k') × Fresh literal c.dentry k'
  unfolding say ece391_fdputs sys_write call_write terminal_write after result
  say_quiet k t v =
      let len = strlen_unsigned-IsString (v.strings t) (v.fits t) in
      let long = (support-Agrees k.memory).length (literal t) ∙ len in
      (
        said k (v.long t) (literal t),
        rw
            (
              long,
              ne→== _ 0 (v.placed t),
              ne→== _ 0 v.stdout_in_use,
              v.stdout,
              ne→== _ 0 (v.placed t),
              len,
            )
            refl,
        Quiet-Opened (record { memory = refl; boot = refl; table = λ fd. refl }) v,
      )

  expect-Refused :
      {call : Option (ℤ × Kernel)} (t : String) (f : ℕ)
      → Refused call
      → Yields (Fresh literal c.dentry) f (expect_fail (kernel_calls c) buf literal call t f)
  unfolding expect_fail
  expect-Refused t f y = bind-Yields _ y (λ k v. done-Yields k v)

  pub verdict_passed :
      (k : Kernel) (failed passed : String)
      → Fresh literal c.dentry k
      → Yields (Fresh literal c.dentry) 0 (verdict (kernel_calls c) buf literal k 0 failed passed)
  unfolding verdict
  verdict_passed k failed passed v =
      let (k', e, v') = say_quiet k passed v in
      record { state = k'; result = rw e refl; holds = v' }

  read_neg :
      (k : Kernel)
      → Fresh literal c.dentry k
      → Refused ((kernel_calls c).ece391_read k neg_fd buf 31)
  unfolding sys_read
  read_neg k v = done-Yields _ (Opened-screen k _ v)

  read_big :
      (k : Kernel)
      → Fresh literal c.dentry k
      → Refused ((kernel_calls c).ece391_read k big_fd buf 31)
  unfolding sys_read
  read_big k v = done-Yields _ (Opened-screen k _ v)

  write_neg :
      (k : Kernel)
      → Fresh literal c.dentry k
      → Refused ((kernel_calls c).ece391_write k neg_fd buf (pos 31))
  unfolding sys_write
  write_neg k v = done-Yields k v

  write_big :
      (k : Kernel)
      → Fresh literal c.dentry k
      → Refused ((kernel_calls c).ece391_write k big_fd buf (pos 31))
  unfolding sys_write
  write_big k v = done-Yields k v

  close_neg :
      (k : Kernel) → Fresh literal c.dentry k → Refused ((kernel_calls c).ece391_close k neg_fd)
  unfolding sys_close
  close_neg k v = done-Yields k v

  close_big :
      (k : Kernel) → Fresh literal c.dentry k → Refused ((kernel_calls c).ece391_close k big_fd)
  unfolding sys_close
  close_big k v = done-Yields k v

  pub err_neg_fd-passes :
      (k : Kernel)
      → Fresh literal c.dentry k
      → Yields (Fresh literal c.dentry) 0 (err_neg_fd (kernel_calls c) buf literal k)
  unfolding err_neg_fd
  err_neg_fd-passes k v = bind-Yields _ (expect-Refused "read fail\n" 0 (read_neg k v)) λ k1 v1.
      bind-Yields _ (expect-Refused "write fail\n" 0 (write_neg k1 v1)) λ k2 v2.
        bind-Yields _ (expect-Refused "close fail\n" 0 (close_neg k2 v2))
          λ k3 v3. verdict_passed k3 _ _ v3

  pub err_big_fd-passes :
      (k : Kernel)
      → Fresh literal c.dentry k
      → Yields (Fresh literal c.dentry) 0 (err_big_fd (kernel_calls c) buf literal k)
  unfolding err_big_fd
  err_big_fd-passes k v = bind-Yields _ (expect-Refused "read fail\n" 0 (read_big k v)) λ k1 v1.
      bind-Yields _ (expect-Refused "write fail\n" 0 (write_big k1 v1)) λ k2 v2.
        bind-Yields _ (expect-Refused "close fail\n" 0 (close_big k2 v2))
          λ k3 v3. verdict_passed k3 _ _ v3

  pub err_vidmap-passes :
      (k : Kernel)
      → Fresh literal c.dentry k
      → Yields (Fresh literal c.dentry) 0 (err_vidmap (kernel_calls c) buf literal k)
  unfolding err_vidmap sys_vidmap
  err_vidmap-passes k v =
      bind-Yields _ (expect-Refused "Null pointer fail\n" 0 (done-Yields k v)) λ k1 v1.
        bind-Yields _ (expect-Refused "Kernel pointer fail fail\n" 0 (done-Yields k1 v1))
          λ k2 v2. verdict_passed k2 _ _ v2

  write_stdin :
      (k : Kernel)
      → Fresh literal c.dentry k
      → Refused ((kernel_calls c).ece391_write k (pos 0) buf (pos 31))
  unfolding sys_write
  write_stdin k v = done-Yields _ (Opened-screen k _ v)

  read_stdout :
      (k : Kernel)
      → Fresh literal c.dentry k
      → Refused ((kernel_calls c).ece391_read k (pos 1) buf 31)
  unfolding sys_read
  read_stdout k v = done-Yields _ (Opened-screen k _ v)

  pub err_stdin_out-passes :
      (k : Kernel)
      → Fresh literal c.dentry k
      → Yields (Fresh literal c.dentry) 0 (err_stdin_out (kernel_calls c) buf literal k)
  unfolding err_stdin_out
  err_stdin_out-passes k v =
      bind-Yields _ (expect-Refused "write to stdin fail\n" 0 (write_stdin k v)) λ k1 v1.
        bind-Yields _ (expect-Refused "read from stdout fail\n" 0 (read_stdout k1 v1))
          λ k2 v2. verdict_passed k2 _ _ v2

  pub err_syscall_num-passes :
      (k : Kernel)
      → Fresh literal c.dentry k
      → Yields (Fresh literal c.dentry) 0 (err_syscall_num (kernel_calls c) buf literal k)
  unfolding err_syscall_num
  err_syscall_num-passes k v =
      bind-Yields _ (expect-Refused "syscall 0 fail\n" 0 (done-Yields k v)) λ k1 v1.
        bind-Yields _ (expect-Refused "big num syscall fail\n" 0 (done-Yields k1 v1)) λ k2 v2.
          bind-Yields _ (expect-Refused "neg num syscall fail\n" 0 (done-Yields k2 v2))
            λ k3 v3. verdict_passed k3 _ _ v3

  -- A call that is Refused for the descriptors from `lo` to 7
  each_fd-passes :
      (call : Kernel → ℤ → Option (ℤ × Kernel)) (lo : ℕ) (t : String)
      → ((k : Kernel) (fd : ℕ)
          → Fresh literal c.dentry k
          → lo ≤ fd
          → fd ≤ 7
          → Refused (call k (pos fd)))
      → (n i : ℕ) (k : Kernel) → lo ≤ i
      → i + n ≤ 8
      → Fresh literal c.dentry k
      → Yields (Fresh literal c.dentry) 0 (each_fd (kernel_calls c) buf literal call t n k i 0)
  unfolding each_fd
  each_fd-passes call lo t refuses zero i k from to v = done-Yields k v
  each_fd-passes call lo t refuses (suc n) i k from to v =
      bind-Yields _ (expect-Refused t 0 (refuses k i v from (omega (arith, to)))) λ k1 v1.
        each_fd-passes call lo t refuses n (i + 1) k1 (omega (arith, from)) (omega (arith, to)) v1

  close_unopened :
      (k : Kernel) (fd : ℕ)
      → Fresh literal c.dentry k
      → 0 ≤ fd
      → fd ≤ 7
      → Refused ((kernel_calls c).ece391_close k (pos fd))
  unfolding sys_close
  close_unopened k fd v lo hi = elim (Bool-cases (ltb fd fd_min)) [
    | inl low ↦ rw low (done-Yields k v)
    | inr high ↦
        let few : ltb fd_max fd ≡ false = ground (arith, hi) in
        let free = v.others fd (ground (arith, high)) hi (inr (ground (arith, high))) in
        rw (high, few, free) (done-Yields k v)
  ]

  read_unopened :
      (k : Kernel) (fd : ℕ)
      → Fresh literal c.dentry k
      → 2 ≤ fd
      → fd ≤ 7
      → Refused ((kernel_calls c).ece391_read k (pos fd) buf 31)
  unfolding sys_read
  read_unopened k fd v lo hi =
      let not_stdout : (fd == 1) ≡ false = ground (arith, lo) in
      let few : ltb fd_max fd ≡ false = ground (arith, hi) in
      elim (Bool-cases (buf == 0)) [
        | inl e ↦ rw (not_stdout, few, e) (done-Yields _ (Opened-screen k _ v))
        | inr e ↦
            rw (not_stdout, few, e, v.others fd lo hi (inr lo))
              (done-Yields _ (Opened-screen k _ v))
      ]

  write_unopened :
      (k : Kernel) (fd : ℕ)
      → Fresh literal c.dentry k
      → 2 ≤ fd
      → fd ≤ 7
      → Refused ((kernel_calls c).ece391_write k (pos fd) buf (pos 31))
  unfolding sys_write
  write_unopened k fd v lo hi =
      let not_stdin : (fd == 0) ≡ false = ground (arith, lo) in
      let enough : ltb fd 1 ≡ false = ground (arith, lo) in
      let few : ltb fd_max fd ≡ false = ground (arith, hi) in
      elim (Bool-cases (buf == 0)) [
        | inl e ↦ rw (not_stdin, enough, few, e) (done-Yields k v)
        | inr e ↦ rw (not_stdin, enough, few, e, v.others fd lo hi (inr lo)) (done-Yields k v)
      ]

  pub err_unopened-passes :
      (k : Kernel)
      → Fresh literal c.dentry k
      → Yields (Fresh literal c.dentry) 0 (err_unopened (kernel_calls c) buf literal k)
  unfolding err_unopened
  err_unopened-passes k v =
      bind-Yields _ (each_fd-passes _ 0 _ close_unopened 8 0 k (omega arith) (omega arith) v)
        λ k1 v1.
          bind-Yields _ (each_fd-passes _ 2 _ read_unopened 6 2 k1 (omega arith) (omega arith) v1)
            λ k2 v2.
              bind-Yields _
                (each_fd-passes _ 2 _ write_unopened 6 2 k2 (omega arith) (omega arith) v2)
                λ k3 v3. verdict_passed k3 _ _ v3

  open-Refused :
      (k : Kernel) (t : String)
      → (v : Fresh literal c.dentry k) → (v.long t ≡ 0) ⊎ Absent literal k t
      → Refused ((kernel_calls c).ece391_open k (literal t))
  unfolding sys_open look_up after
  open-Refused k t v why =
      let len = strlen_unsigned-IsString (v.strings t) (v.fits t) in
      elim (Bool-cases (v.long t == 0)) [
        | inl e ↦ rw (ne→== _ 0 (v.placed t), len, e) (done-Yields _ (Opened-screen k _ v))
        | inr e ↦
            elim (Bool-cases (below (find_next_fd k) fd_min || above (find_next_fd k) fd_max)) [
              | inl full ↦
                  rw (ne→== _ 0 (v.placed t), len, e, full) (done-Yields _ (Opened-screen k _ v))
              | inr free ↦
                  let absent : Absent literal k t = elim why [
                    | inl z ↦ absurd (ground (arith, e, z))
                    | inr a ↦ a
                  ] in
                  rw
                    (
                      ne→== _ 0 (v.placed t),
                      len,
                      e,
                      free,
                      read_dentry_by_name-none k.memory k.boot_block_ptr (literal t) c.dentry
                          (inr absent),
                    )
                    (done-Yields _
                      (Quiet-Opened (record { memory = refl; boot = refl; table = λ fd. refl }) v))
            ]
      ]

  pub err_open-passes :
      (k : Kernel)
      → Fresh literal c.dentry k
      → Yields (Fresh literal c.dentry) 0 (err_open (kernel_calls c) buf literal k)
  unfolding err_open
  err_open-passes k v =
      bind-Yields _ (expect-Refused "'helloo' fail\n" 0 (open-Refused k _ v (inr v.not_helloo)))
        λ k1 v1.
          bind-Yields _ (expect-Refused "'shel' fail\n" 0 (open-Refused k1 _ v1 (inr v1.not_shel)))
            λ k2 v2.
              bind-Yields _
                (expect-Refused "empty string fail\n" 0 (open-Refused k2 _ v2 (inl v2.empty)))
                λ k3 v3. verdict_passed k3 _ _ v3
