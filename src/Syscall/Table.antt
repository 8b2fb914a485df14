-- ===== src/Syscall/Table.antt =====
-- The descriptor tables of processes stay well formed.
use unix_operation_system.Prelude.{
  ℕ, ◌+◌, ◌≤◌, ◌≡◌, ◌≢◌, refl, arith, Bool, true, false, each_branch, eq→==, ltb, ◌==◌, ◌||◌,
  update, ◌>>=◌, Option, none, some, not,
}
use unix_operation_system.Prelude.Int.{ℤ, pos, negsuc, is_nat, is_fail, below, above, to_nat}
use unix_operation_system.Memory.{word32}
use unix_operation_system.Strings.{strlen_unsigned}
use unix_operation_system.FileSystem.{read_dentry_by_name}
use unix_operation_system.State.{
  Kernel, FdEntry, FileOps, null, rtc_op, file_op, dir_op, terminal_stdin, terminal_stdout,
}
use unix_operation_system.Syscall.{
  fd_min, fd_max, current, entry, with_entry, fd_entry_init, find_next_fd, file_open, dir_open,
}
use unix_operation_system.Terminal.{terminal_open}
use unix_operation_system.Syscall.Calls.{
  Outcome, returned, unending, null_used, after, result, with_rtc, call_open, call_close, ops_of,
  opened_as, assign, open_found, look_up, sys_open, sys_close,
}

-- The operations of a device, a file or a directory, none of which is NULL
unfoldable pub is_device : FileOps → Bool
is_device null = false
is_device rtc_op = true
is_device file_op = true
is_device dir_op = true
is_device terminal_stdin = false
is_device terminal_stdout = false

-- Descriptors 0 and 1 are the terminal's, and each other one that is open is a device's, a file's or
-- a directory's.
pub record IsValid (t : ℕ → FdEntry) : Type 0 where
  pub stdin : (t 0).fot_ptr ≡ terminal_stdin
  pub stdout : (t 1).fot_ptr ≡ terminal_stdout
  pub others : (i : ℕ) → fd_min ≤ i → i ≤ fd_max → (t i).flag ≢ 0 → is_device (t i).fot_ptr ≡ true

-- Whatever a table holds before, after fd_entry_init it is valid, and the descriptors 2 to 7 are
-- free.
pub fd_entry_init-IsValid :
    (t : ℕ → FdEntry)
    → IsValid (fd_entry_init t) × ((i : ℕ) → fd_min ≤ i → i ≤ fd_max → (fd_entry_init t i).flag ≡ 0)
unfolding fd_entry_init
fd_entry_init-IsValid t = (
  record { stdin = refl; stdout = refl; others = λ i l h f. absurd (ground (arith, l, h, f)) },
  λ i l h. ground (arith, l, h),
)

-- A call that returns leaves the table of the process that runs valid.
pub KeepsValid : Outcome → Type 0
KeepsValid (returned r k) = IsValid (current k).fd_entry
KeepsValid unending = Unit
KeepsValid null_used = Unit

pub ops_of-is_device : (filetype : ℕ) → is_device (ops_of filetype) ≡ true
unfolding ops_of is_device
ops_of-is_device filetype =
    each_branch (λ f. is_device f ≡ true) (filetype == 0) (λ e. refl)
      (λ e. each_branch (λ f. is_device f ≡ true) (filetype == 1) (λ e. refl) (λ e. refl))

-- An entry from 2 on is set, to one that is free or a device's.
pub set_entry-IsValid :
    (t : ℕ → FdEntry) (fd : ℕ) (e : FdEntry)
    → IsValid t
    → fd_min ≤ fd
    → (e.flag ≢ 0 → is_device e.fot_ptr ≡ true)
    → IsValid (update t fd e)
set_entry-IsValid t fd e v h device = record {
  stdin = ground (arith, v.stdin);
  stdout = ground (arith, v.stdout);
  others = λ i lo hi.
      each_branch (λ (x : FdEntry). x.flag ≢ 0 → is_device x.fot_ptr ≡ true) (i == fd)
        (λ same. device) (λ other. v.others i lo hi);
}

-- with_entry changes the current table, and no other.
with_entry-current :
    (k : Kernel) (fd : ℕ) (e : FdEntry)
    → (current (with_entry k fd e)).fd_entry ≡ update (current k).fd_entry fd e
with_entry-current k fd e = rw (eq→== k.current_pcb_pointer k.current_pcb_pointer refl) refl

pub with_entry-IsValid :
    (k : Kernel) (fd : ℕ) (e : FdEntry)
    → IsValid (current k).fd_entry
    → fd_min ≤ fd
    → (e.flag ≢ 0 → is_device e.fot_ptr ≡ true)
    → IsValid (current (with_entry k fd e)).fd_entry
with_entry-IsValid k fd e v h device =
    rw (with_entry-current k fd e) (set_entry-IsValid (current k).fd_entry fd e v h device)

after-KeepsValid {ℓ} :
    {A : Type ℓ} (o : Option A) (f : A → Outcome)
    → ((a : A) → KeepsValid (f a))
    → KeepsValid (after o f)
unfolding after KeepsValid
after-KeepsValid none f h = tt
after-KeepsValid (some a) f h = h a

call_close-KeepsValid :
    (f : FileOps) (k : Kernel) (fd : ℤ)
    → IsValid (current k).fd_entry
    → KeepsValid (call_close f k fd)
unfolding call_close KeepsValid
call_close-KeepsValid null k fd v = tt
call_close-KeepsValid rtc_op k fd v = v
call_close-KeepsValid file_op k fd v = v
call_close-KeepsValid dir_op k fd v = v
call_close-KeepsValid terminal_stdin k fd v = tt
call_close-KeepsValid terminal_stdout k fd v = tt

bind-KeepsValid {ℓ κ} :
    {A : Type ℓ} {B : Type κ} (o : Option A) (g : A → Option B) (f : B → Outcome)
    → ((a : A) → KeepsValid (after (g a) f))
    → KeepsValid (after (o >>= g) f)
unfolding after KeepsValid
bind-KeepsValid none g f h = tt
bind-KeepsValid (some a) g f h = h a

file_open-KeepsValid :
    (k : Kernel) (filename : ℕ)
    → IsValid (current k).fd_entry
    → KeepsValid (after (file_open k filename) result)
unfolding file_open result after KeepsValid
file_open-KeepsValid k filename v =
    bind-KeepsValid (strlen_unsigned k.memory filename) _ result
      (λ n. each_branch (λ (r : ℤ × Kernel). KeepsValid (result r)) (ltb 32 n) (λ e. v) (λ e. v))

call_open-KeepsValid :
    (f : FileOps) (k : Kernel) (filename : ℕ)
    → IsValid (current k).fd_entry
    → KeepsValid (call_open f k filename)
unfolding call_open KeepsValid result with_rtc dir_open terminal_open
call_open-KeepsValid null k filename v = tt
call_open-KeepsValid rtc_op k filename v = v
call_open-KeepsValid file_op k filename v = file_open-KeepsValid k filename v
call_open-KeepsValid dir_op k filename v = v
call_open-KeepsValid terminal_stdin k filename v =
    each_branch (λ (r : ℤ × Kernel). KeepsValid (result r)) (filename == 0) (λ e. v) (λ e. v)
call_open-KeepsValid terminal_stdout k filename v =
    each_branch (λ (r : ℤ × Kernel). KeepsValid (result r)) (filename == 0) (λ e. v) (λ e. v)

opened_as-KeepsValid : (fd : ℕ) (o : Outcome) → KeepsValid o → KeepsValid (opened_as fd o)
unfolding opened_as KeepsValid
opened_as-KeepsValid fd (returned r k) v = each_branch KeepsValid (is_fail r) (λ e. v) (λ e. v)
opened_as-KeepsValid fd unending v = tt
opened_as-KeepsValid fd null_used v = tt

open_found-KeepsValid :
    (filename dentry fd : ℕ) (k : Kernel)
    → IsValid (current k).fd_entry
    → fd_min ≤ fd
    → KeepsValid (open_found filename dentry fd k)
unfolding open_found assign
open_found-KeepsValid filename dentry fd k v h = opened_as-KeepsValid fd _ (
    call_open-KeepsValid (ops_of (word32 k.memory (dentry + 32))) _ filename
      (with_entry-IsValid k fd _ v h (λ used. ops_of-is_device _)))

look_up-KeepsValid :
    (filename dentry fd : ℕ) (k : Kernel)
    → IsValid (current k).fd_entry
    → fd_min ≤ fd
    → KeepsValid (look_up filename dentry fd k)
unfolding look_up KeepsValid
look_up-KeepsValid filename dentry fd k v h =
    after-KeepsValid (read_dentry_by_name k.memory k.boot_block_ptr filename dentry) _ (λ first.
      each_branch KeepsValid (not (is_nat first.0 0)) (λ e. v)
        (λ e.
          after-KeepsValid (read_dentry_by_name first.1 k.boot_block_ptr filename dentry) _
            (λ second.
              each_branch KeepsValid (not (is_nat second.0 0)) (λ e. v)
                (λ e.
                  open_found-KeepsValid filename dentry fd (record k { memory = second.1 }) v h))))

pub in_range : (fd : ℤ) → (below fd fd_min || above fd fd_max) ≡ false → fd_min ≤ to_nat fd
in_range (pos n) e = ground (arith, e)
in_range (negsuc n) e = ground (arith, e)

sys_open-KeepsValid :
    (k : Kernel) (dentry filename : ℕ)
    → IsValid (current k).fd_entry
    → KeepsValid (sys_open k dentry filename)
unfolding sys_open KeepsValid
sys_open-KeepsValid k dentry filename v =
    each_branch KeepsValid (filename == 0) (λ e. tt)
      (λ e. after-KeepsValid (strlen_unsigned k.memory filename) _ (λ n.
        each_branch KeepsValid (n == 0) (λ e. v)
          (λ e.
            each_branch KeepsValid (below (find_next_fd k) fd_min || above (find_next_fd k) fd_max)
              (λ e. v)
              (λ e.
                look_up-KeepsValid filename dentry (to_nat (find_next_fd k)) k v
                  (in_range (find_next_fd k) e)))))

sys_close-KeepsValid :
    (k : Kernel) (fd : ℤ) → IsValid (current k).fd_entry → KeepsValid (sys_close k fd)
unfolding sys_close KeepsValid
sys_close-KeepsValid k fd v =
    each_branch KeepsValid (below fd fd_min || above fd fd_max) (λ e. v)
      (λ e.
        each_branch KeepsValid ((entry k (to_nat fd)).flag == 0) (λ e. v)
          (λ used.
            call_close-KeepsValid (entry k (to_nat fd)).fot_ptr _ fd
              (with_entry-IsValid k (to_nat fd) _ v (in_range fd e) (λ h. absurd (h refl)))))

-- Of a process whose table of descriptors is valid, sys_open and sys_close leave a valid table on every
-- path on which they return, whether they open or close a file or fail.
pub calls-KeepValid :
    (k : Kernel)
    → IsValid (current k).fd_entry
    → ((dentry filename : ℕ) → KeepsValid (sys_open k dentry filename))
      × ((fd : ℤ) → KeepsValid (sys_close k fd))
calls-KeepValid k v =
    (λ dentry filename. sys_open-KeepsValid k dentry filename v, λ fd. sys_close-KeepsValid k fd v)
