-- ===== src/Syscall/Keeping/Operations.antt =====
-- The operations on devices, files and directories change no process but for its descriptors.
use unix_operation_system.Prelude.{
  ℕ, refl, Option, none, some, ◌>>=◌, ◌==◌, ltb, leb, both_branches,
}
use unix_operation_system.Prelude.Int.{ℤ}
use unix_operation_system.Strings.{strlen_unsigned, strncpy_unsigned}
use unix_operation_system.FileSystem.Layout.{filename_len, inode_length, dentry_count, dir_entry}
use unix_operation_system.State.{
  Kernel, FileOps, null, rtc_op, file_op, dir_op, terminal_stdin, terminal_stdout,
}
use unix_operation_system.Terminal.{terminal_open}
use unix_operation_system.Syscall.{current, entry, file_open, file_read, dir_open, dir_read}
use unix_operation_system.Syscall.Calls.{
  Outcome, returned, unending, null_used, after, result, with_rtc, call_open, call_close,
}
use unix_operation_system.Process.Kin.{
  Kin, Kin-same, Kin-trans, with_entry-Kin, kept_entry, untouched,
}

-- A call that returns keeps the processes.
abbrev pub Keeps : Kernel → Outcome → Type 0
Keeps k (returned r k') = Kin k k'
Keeps k unending = Unit
Keeps k null_used = Unit

pub after-Keeps {ℓ} :
    {A : Type ℓ} (k : Kernel) (o : Option A) (f : A → Outcome)
    → ((a : A) → Keeps k (f a))
    → Keeps k (after o f)
unfolding after
after-Keeps k none f h = tt
after-Keeps k (some a) f h = h a

-- What is kept from an earlier state on
pub Keeps-trans : (k k' : Kernel) (o : Outcome) → Kin k k' → Keeps k' o → Keeps k o
Keeps-trans k k' (returned r end) a b = Kin-trans a b
Keeps-trans k k' unending a b = tt
Keeps-trans k k' null_used a b = tt

module _ (k : Kernel) where
  -- A result that is computed from one that may be missing
  pub bind-Keeps {ℓ} :
      {A : Type ℓ} (o : Option A) (g : A → ℤ × Kernel)
      → ((a : A) → Kin k (g a).1)
      → Keeps k (after (do a ← o; some (g a)) result)
  unfolding after result
  bind-Keeps none g h = tt
  bind-Keeps (some a) g h = h a

  pub call_open-Keeps : (f : FileOps) (filename : ℕ) → Keeps k (call_open f k filename)
  unfolding call_open result with_rtc file_open after dir_open terminal_open
  call_open-Keeps null filename = tt
  call_open-Keeps rtc_op filename = untouched refl refl refl refl refl
  call_open-Keeps file_op filename = bind-Keeps (strlen_unsigned k.memory filename) _ (λ n.
      both_branches (λ (r : ℤ × Kernel). Kin k r.1) (ltb filename_len n)
        (untouched refl refl refl refl refl) (Kin-same k))
  call_open-Keeps dir_op filename = untouched refl refl refl refl refl
  call_open-Keeps terminal_stdin filename =
      both_branches (λ (r : ℤ × Kernel). Keeps k (result r)) (filename == 0)
        (untouched refl refl refl refl refl) (Kin-same k)
  call_open-Keeps terminal_stdout filename =
      both_branches (λ (r : ℤ × Kernel). Keeps k (result r)) (filename == 0)
        (untouched refl refl refl refl refl) (Kin-same k)

  pub call_close-Keeps : (f : FileOps) (fd : ℤ) → Keeps k (call_close f k fd)
  unfolding call_close
  call_close-Keeps null fd = tt
  call_close-Keeps rtc_op fd = Kin-same k
  call_close-Keeps file_op fd = Kin-same k
  call_close-Keeps dir_op fd = Kin-same k
  call_close-Keeps terminal_stdin fd = tt
  call_close-Keeps terminal_stdout fd = tt

  pub file_read-Kin : (fd buf nbytes : ℕ) → Kin k (file_read k fd buf nbytes).1
  unfolding file_read
  file_read-Kin fd buf nbytes =
      let e = entry k fd in
      both_branches (λ (r : ℤ × Kernel). Kin k r.1)
        (leb (inode_length k.memory k.boot_block_ptr e.inode_num) e.file_pos) (Kin-same k)
        (Kin-trans (untouched refl refl refl refl refl)
          (with_entry-Kin _ fd _ (kept_entry (current k).fd_entry fd _ refl (λ h. h))))

  pub dir_read-Keeps : (fd buf nbytes : ℕ) → Keeps k (after (dir_read k fd buf nbytes) result)
  unfolding dir_read
  dir_read-Keeps fd buf nbytes =
      let e = entry k fd in
      let m = strncpy_unsigned k.memory buf (dir_entry k.boot_block_ptr e.file_pos) filename_len in
      let k' : Kernel = record k { memory = m } in
      let copied : Kin k k' = untouched refl refl refl refl refl in
      bind-Keeps (strlen_unsigned m buf) _ λ n.
        both_branches (Kin k) (ltb e.file_pos (dentry_count m k.boot_block_ptr))
          (Kin-trans copied
            (with_entry-Kin k' fd _ (kept_entry (current k).fd_entry fd _ refl (λ h. h))))
          copied
