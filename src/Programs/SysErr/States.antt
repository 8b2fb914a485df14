-- ===== src/Programs/SysErr/States.antt =====
-- The states in which the tests of syscalls/ece391syserr.c run, and the results of calls in them.
use Prim.Native.String.{String}
use unix_operation_system.Prelude.{ℕ, ◌+◌, ◌*◌, ◌≤◌, ◌<◌, ◌≡◌, ◌≢◌, refl, Option, some, ◌>>=◌, ◌⊎◌}
use unix_operation_system.Memory.{IsString, Apart, word32, max_rounds}
use unix_operation_system.Strings.Compare.{SamePrefix}
use unix_operation_system.FileSystem.Layout.{dir_entry, dir_bytes, filename_len}
use unix_operation_system.FileSystem.Dentry.{FirstMatch, IsEntry}
use unix_operation_system.State.{Kernel, terminal_stdout, dir_op}
use unix_operation_system.Screen.{Screen}
use unix_operation_system.Syscall.{entry}

-- No entry of the directory has this name.
abbrev pub Absent : (String → ℕ) → Kernel → String → Type 0
Absent literal k t =
    (i : ℕ)
    → i < dir_bytes
    → ¬ SamePrefix k.memory (literal t) (dir_entry k.boot_block_ptr i) filename_len

-- A process with the two descriptors of its terminal and, from `first` on to below `n`, descriptors of
-- a directory; no other is in use. The literals are in its memory; two names are not in the directory, and
-- `.` is. The local of sys_open, at `dentry`, is apart from all these.
pub record Opened (literal : String → ℕ) (dentry first n : ℕ) (k : Kernel) : Type 0 where
  pub stdout : (entry k 1).fot_ptr ≡ terminal_stdout
  pub stdout_in_use : (entry k 1).flag ≢ 0
  pub used :
      (fd : ℕ) → first ≤ fd → fd < n → ((entry k fd).fot_ptr ≡ dir_op) × ((entry k fd).flag ≢ 0)
  pub others : (fd : ℕ) → 2 ≤ fd → fd ≤ 7 → (fd < first) ⊎ (n ≤ fd) → (entry k fd).flag ≡ 0
  pub placed : (t : String) → literal t ≢ 0
  pub long : String → ℕ
  pub strings : (t : String) → IsString k.memory (literal t) (long t)
  pub fits : (t : String) → long t < max_rounds
  pub empty : long "" ≡ 0
  pub some_dot : long "." ≢ 0
  pub not_helloo : Absent literal k "helloo"
  pub not_shel : Absent literal k "shel"
  pub dot : ℕ
  pub dot_long : ℕ
  pub dot_first : FirstMatch k.memory k.boot_block_ptr (literal ".") dot
  pub dot_entry : IsEntry k.memory dentry (dir_entry k.boot_block_ptr dot) dot_long
  pub dot_type : word32 k.memory (dir_entry k.boot_block_ptr dot + 32) ≡ 1
  pub some_dentry : dentry ≢ 0
  pub apart : (t : String) → Apart dentry 64 (literal t) (long t + 33)
  pub image : Apart dentry 64 k.boot_block_ptr (64 * (dir_bytes + 1))

abbrev pub Fresh : (String → ℕ) → ℕ → Kernel → Type 0
Fresh literal dentry k = Opened literal dentry 2 2 k

-- The call returns `v`, in a state in which `P` holds.
pub record Yields {A : Type 0} (P : Kernel → Type 0) (v : A) (o : Option (A × Kernel))
    : Type 0 where
  pub state : Kernel
  pub result : o ≡ some (v, state)
  pub holds : P state

pub bind-Yields :
    {P : Kernel → Type 0} {Q : Kernel → Type 0} {A : Type 0} {B : Type 0} {v : A} {w : B}
    {o : Option (A × Kernel)} (f : A × Kernel → Option (B × Kernel))
    → Yields P v o
    → ((k : Kernel) → P k → Yields Q w (f (v, k)))
    → Yields Q w (o >>= f)
bind-Yields f y next =
    let n = next y.state y.holds in
    record { state = n.state; result = rw y.result n.result; holds = n.holds }

pub done-Yields :
    {P : Kernel → Type 0} {A : Type 0} {v : A} (k : Kernel) → P k → Yields P v (some (v, k))
done-Yields k h = record { state = k; result = refl; holds = h }

-- What the calls leave as it was
pub record Quiet (k k' : Kernel) : Type 0 where
  pub memory : k'.memory ≡ k.memory
  pub boot : k'.boot_block_ptr ≡ k.boot_block_ptr
  pub table : (fd : ℕ) → entry k' fd ≡ entry k fd

pub Quiet-Opened :
    {literal : String → ℕ} {dentry first n : ℕ} {k k' : Kernel}
    → Quiet k k'
    → Opened literal dentry first n k
    → Opened literal dentry first n k'
Quiet-Opened {literal} q v = record {
  stdout = rw (q.table 1) v.stdout;
  stdout_in_use = rw (q.table 1) v.stdout_in_use;
  used = λ fd lo hi. rw (q.table fd) (v.used fd lo hi);
  others = λ fd lo hi out. rw (q.table fd) (v.others fd lo hi out);
  placed = v.placed;
  long = v.long;
  strings = λ t. rw q.memory (v.strings t);
  fits = v.fits;
  empty = v.empty;
  some_dot = v.some_dot;
  not_helloo = rw (q.memory, q.boot) v.not_helloo;
  not_shel = rw (q.memory, q.boot) v.not_shel;
  dot = v.dot;
  dot_long = v.dot_long;
  dot_first = rw (q.memory, q.boot) v.dot_first;
  dot_entry = rw (q.memory, q.boot) v.dot_entry;
  dot_type = rw (q.memory, q.boot) v.dot_type;
  some_dentry = v.some_dentry;
  apart = v.apart;
  image = rw q.boot v.image;
}

pub Opened-screen :
    {literal : String → ℕ} {dentry first n : ℕ} (k : Kernel) (s : Screen)
    → Opened literal dentry first n k
    → Opened literal dentry first n (record k { screen = s })
Opened-screen k s v = Quiet-Opened (record { memory = refl; boot = refl; table = λ fd. refl }) v
