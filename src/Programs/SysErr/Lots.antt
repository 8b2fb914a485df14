-- ===== src/Programs/SysErr/Lots.antt =====
-- The loops of the third test of syscalls/ece391syserr.c, which opens and closes every descriptor, and
-- all tests in their order.
use unix_operation_system.Prelude.{
  ℕ, zero, suc, ◌+◌, ◌≤◌, ◌<◌, ◌≡◌, refl, arith, false, some, ◌==◌, ltb, ne→==, Bool-cases, inl,
  inr,
}
use Prim.Native.String.{String}
use unix_operation_system.Prelude.Int.{pos}
use unix_operation_system.State.{Kernel}
use unix_operation_system.Syscall.{entry, fd_min, fd_max, with_entry, dir_close}
use unix_operation_system.Syscall.Calls.{sys_close, call_close}
use unix_operation_system.Programs.Machine.{Setting, kernel_calls, of_outcome}
use unix_operation_system.Programs.SysErr.{open_lots, close_lots, err_open_lots, run_all}
use unix_operation_system.Programs.SysErr.States.{Opened, Fresh, Yields, bind-Yields, done-Yields}
use unix_operation_system.Programs.SysErr.Opening.{open_dot, open_full}
use unix_operation_system.Programs.SysErr.Passing.{
  say_quiet, verdict_passed, err_neg_fd-passes, err_big_fd-passes, err_open-passes,
  err_unopened-passes, err_vidmap-passes, err_stdin_out-passes, err_syscall_num-passes,
}

-- A descriptor of a directory is closed.
close_dir :
    {literal : String → ℕ} {dentry : ℕ} (i : ℕ) (k : Kernel)
    → Opened literal dentry i 8 k
    → 2 ≤ i
    → i ≤ 7
    → Yields (Opened literal dentry (suc i) 8) (pos 0) (of_outcome (sys_close k (pos i)))
unfolding sys_close call_close dir_close
close_dir {literal} {dentry} i k v low high =
    let enough : ltb i fd_min ≡ false = ground (arith, low) in
    let few : ltb fd_max i ≡ false = ground (arith, high) in
    let (is_dir, in_use) = v.used i (omega arith) (omega (arith, high)) in
    record {
      state = with_entry k i (record (entry k i) { flag = 0 });
      result = rw (enough, few, ne→== _ 0 in_use, is_dir) refl;
      holds = record {
        stdout = ground (arith, v.stdout, low);
        stdout_in_use = ground (arith, v.stdout_in_use, low);
        used = λ fd lo hi.
            let (same, in_use) = v.used fd (omega (arith, lo)) hi in
            (ground (arith, same, lo), ground (arith, in_use, lo));
        others = λ fd lo hi out. elim (Bool-cases (fd == i)) [
          | inl e ↦ let is : i ≡ fd = ground (arith, e) in rw (← is) (ground arith)
          | inr ne ↦
              let before : fd < i = ground (arith, out, ne, hi) in
              ground (arith, v.others fd lo hi (inl before), ne)
        ];
        placed = v.placed;
        long = v.long;
        strings = v.strings;
        fits = v.fits;
        empty = v.empty;
        some_dot = v.some_dot;
        not_helloo = v.not_helloo;
        not_shel = v.not_shel;
        dot = v.dot;
        dot_long = v.dot_long;
        dot_first = v.dot_first;
        dot_entry = v.dot_entry;
        dot_type = v.dot_type;
        some_dentry = v.some_dentry;
        apart = v.apart;
        image = v.image;
      };
    }

closed_all :
    {literal : String → ℕ} {dentry : ℕ} {k : Kernel}
    → Opened literal dentry 8 8 k
    → Fresh literal dentry k
closed_all v = record {
  stdout = v.stdout;
  stdout_in_use = v.stdout_in_use;
  used = λ fd lo hi. absurd (omega (arith, lo, hi));
  others = λ fd lo hi out. v.others fd lo hi (inl (omega (arith, hi)));
  placed = v.placed;
  long = v.long;
  strings = v.strings;
  fits = v.fits;
  empty = v.empty;
  some_dot = v.some_dot;
  not_helloo = v.not_helloo;
  not_shel = v.not_shel;
  dot = v.dot;
  dot_long = v.dot_long;
  dot_first = v.dot_first;
  dot_entry = v.dot_entry;
  dot_type = v.dot_type;
  some_dentry = v.some_dentry;
  apart = v.apart;
  image = v.image;
}

module _ (c : Setting) (buf : ℕ) (literal : String → ℕ) where
  open_lots-counts :
      (j i : ℕ) (k : Kernel)
      → i + j ≡ 8
      → 2 ≤ i
      → Opened literal c.dentry 2 i k
      → Yields (Opened literal c.dentry 2 8) 1 (open_lots (kernel_calls c) buf literal (suc j) k 0)
  unfolding open_lots
  open_lots-counts zero i k sum low v =
      let last : i ≡ 8 = omega (arith, sum) in
      bind-Yields _ (open_full literal c.dentry i k v low last)
        λ k' v'. done-Yields k' (rw (← last) v')
  open_lots-counts (suc j) i k sum low v =
      bind-Yields _ (open_dot literal c.dentry i k v low (omega (arith, sum)))
        λ k' v'. open_lots-counts j (suc i) k' (omega (arith, sum)) (omega (arith, low)) v'

  close_lots-frees :
      (j i : ℕ) (k : Kernel)
      → i + j ≡ 8
      → 2 ≤ i
      → Opened literal c.dentry i 8 k
      → (k' : Kernel) × (close_lots (kernel_calls c) buf literal j k i ≡ some k')
        × Fresh literal c.dentry k'
  unfolding close_lots
  close_lots-frees zero i k sum low v =
      let last : i ≡ 8 = omega (arith, sum) in (k, refl, closed_all (rw last at v))
  close_lots-frees (suc j) i k sum low v =
      let y = close_dir i k v low (omega (arith, sum)) in
      let next : suc i ≡ i + 1 = omega arith in
      let (k', e, fresh) =
        close_lots-frees j (i + 1) y.state (omega (arith, sum)) (omega (arith, low))
          (rw (← next) y.holds) in
      (k', rw y.result e, fresh)

  err_open_lots-passes :
      (k : Kernel)
      → Fresh literal c.dentry k
      → Yields (Fresh literal c.dentry) 0 (err_open_lots (kernel_calls c) buf literal k)
  unfolding err_open_lots
  err_open_lots-passes k v = bind-Yields _ (open_lots-counts 6 2 k refl (omega arith) v) λ k1 v1.
      let (k2, e2, v2) = close_lots-frees 6 2 k1 refl (omega arith) v1 in
      let (k3, e3, v3) = say_quiet c buf literal k2 "err_open_lots: PASS\n" v2 in
      record { state = k3; result = rw (e2, e3) refl; holds = v3 }

  -- On the kernel, all eight tests pass for a process that has no open file, when the directory has an
  -- entry for itself and none for the two wrong names: each call ends, the suite returns 0, and no
  -- file is open behind it.
  pub run_all-passes :
      (k : Kernel)
      → Fresh literal c.dentry k
      → Yields (Fresh literal c.dentry) 0 (run_all (kernel_calls c) buf literal k)
  unfolding run_all
  run_all-passes k v = bind-Yields _ (err_neg_fd-passes c buf literal k v) λ k1 v1.
      bind-Yields _ (err_big_fd-passes c buf literal k1 v1) λ k2 v2.
        bind-Yields _ (err_open_lots-passes k2 v2) λ k3 v3.
          bind-Yields _ (err_open-passes c buf literal k3 v3) λ k4 v4.
            bind-Yields _ (err_unopened-passes c buf literal k4 v4) λ k5 v5.
              bind-Yields _ (err_vidmap-passes c buf literal k5 v5) λ k6 v6.
                bind-Yields _ (err_stdin_out-passes c buf literal k6 v6) λ k7 v7.
                  bind-Yields _ (err_syscall_num-passes c buf literal k7 v7)
                    λ k8 v8. verdict_passed c buf literal k8 _ _ v8
