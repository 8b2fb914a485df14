-- ===== src/Process/Start.antt =====
-- What a new process finds, and what a refused one leaves: sys_execute of student-distrib/syscall.c.
use unix_operation_system.Prelude.{
  ℕ, ◌+◌, ◌-◌, ◌≤◌, ◌≡◌, ◌≢◌, refl, ◌∙◌, ap, arith, each_branch, eq→==, not, Option, none, some,
  ◌>>=◌, [], ◌==◌, ltb, update, if◌then◌else◌, fun_ext,
}
use unix_operation_system.Prelude.Int.{ℤ, pos, fail, is_nat, is_fail}
use unix_operation_system.Memory.{Memory, word32}
use unix_operation_system.Strings.{strlen_unsigned}
use unix_operation_system.FileSystem.{read_dentry_by_name, read_data}
use unix_operation_system.Printf.{printf}
use unix_operation_system.State.{Kernel, Pcb, FdEntry}
use unix_operation_system.Syscall.{current, entry, fd_min, fd_max, fd_entry_init}
use unix_operation_system.Syscall.Table.{IsValid, fd_entry_init-IsValid}
use unix_operation_system.Process.{find_pid}
use unix_operation_system.Process.Slots.{LeastSlot, find_pid-LeastSlot}
use unix_operation_system.Process.Execute.{
  Locals, Executed, refused, started, endless, overran, cmd_length, new_pcb, enter_process, mapped,
  entered, load_process, admit, prepared, found_file, find_file, sys_execute, is_executable,
}

-- The table of processes, the slots in use, the process that runs, that of each terminal and the
-- terminal that runs
pub record Processes : Type 0 where
  pub pcb : ℕ → Pcb
  pub counter : ℕ → ℕ
  pub pointer : ℕ
  pub running : ℕ → ℕ
  pub term : ℕ

abbrev pub processes : Kernel → Processes
processes k = record {
  pcb = k.pcb;
  counter = k.pcb_counter;
  pointer = k.current_pcb_pointer;
  running = λ t. (k.terminal t).running_pcb;
  term = k.running_term;
}

-- The process in slot `pid` was made: the slot was the least free one; the process is current, a child
-- of the one that was current, and its table of descriptors is valid with 2 to 7 free; its slot is in
-- use, it runs in the terminal that runs, and no other slot, block or terminal has changed.
pub record Entered (s : Processes) (pid : ℕ) (k' : Kernel) : Type 0 where
  pub some_slot : pid ≢ 0
  pub slot : LeastSlot s.counter 0 pid
  pub pointer : k'.current_pcb_pointer ≡ pid
  pub number : (current k').pid ≡ pid
  pub parent : (current k').parent_pcb ≡ s.pointer
  pub valid : IsValid (current k').fd_entry
  pub free : (i : ℕ) → fd_min ≤ i → i ≤ fd_max → (entry k' i).flag ≡ 0
  pub counter : k'.pcb_counter ≡ update s.counter (pid - 1) 1
  pub others : (p : ℕ) → p ≢ pid → k'.pcb p ≡ s.pcb p
  pub running : (t : ℕ) → (k'.terminal t).running_pcb ≡ (if t == s.term then pid else s.running t)
  pub term : k'.running_term ≡ s.term

-- A call that returns leaves all processes as they were; one that goes to a program has made a process; the
-- copy at `tmp` of a command that overruns the block has 128 characters or more.
pub data Started (s : Processes) (tmp : ℕ) : Executed → Type 0 where
  kept : (r : ℤ) (k' : Kernel) → processes k' ≡ s → Started s tmp (refused r k')
  made : (eip pid : ℕ) (k' : Kernel) → Entered s pid k' → Started s tmp (started eip k')
  never : Started s tmp endless
  too_long :
      (m : Memory) (n : ℕ) → strlen_unsigned m tmp ≡ some n → cmd_length ≤ n → Started s tmp overran

enter_process-Entered :
    (k : Kernel) (filename tmp_cmd n ebp esp : ℕ)
    → find_pid k ≢ 0
    → Entered (processes k) (find_pid k) (enter_process k filename tmp_cmd n ebp esp)
unfolding enter_process new_pcb
enter_process-Entered k filename tmp_cmd n ebp esp some_slot =
    let table = fd_entry_init-IsValid (k.pcb (find_pid k)).fd_entry in
    let same : (current (enter_process k filename tmp_cmd n ebp esp)).fd_entry
        ≡ fd_entry_init (k.pcb (find_pid k)).fd_entry =
      rw (eq→== (find_pid k) (find_pid k) refl) refl in
    record {
      some_slot = some_slot;
      slot = find_pid-LeastSlot k;
      pointer = refl;
      number = ground arith;
      parent = ground arith;
      valid = rw same table.0;
      free = λ i lo hi. ap (λ (t : ℕ → FdEntry). (t i).flag) same ∙ table.1 i lo hi;
      counter = refl;
      others = λ p h. ground (arith, h);
      running = λ t. ground arith;
      term = refl;
    }

entered-Started :
    (a : Locals) (ebp esp : ℕ) (k : Kernel)
    → find_pid k ≢ 0
    → Started (processes k) a.tmp_cmd (entered a ebp esp k (strlen_unsigned k.memory a.tmp_cmd))
unfolding entered
entered-Started a ebp esp k some_slot = go (strlen_unsigned k.memory a.tmp_cmd) refl
  where
    go :
        (o : Option ℕ)
        → strlen_unsigned k.memory a.tmp_cmd ≡ o
        → Started (processes k) a.tmp_cmd (entered a ebp esp k o)
    go none e = never
    go (some n) e =
        each_branch (Started (processes k) a.tmp_cmd) (ltb n cmd_length)
          (λ fits.
            made _ (find_pid k) _
              (enter_process-Entered k a.filename a.tmp_cmd n ebp esp some_slot))
          (λ long. too_long k.memory n e (ground (arith, long)))

mapped-processes : (a : Locals) (k : Kernel) → processes (mapped a k).1 ≡ processes k
unfolding mapped
mapped-processes a k =
    let with_running : (ℕ → ℕ) → Processes = λ f. record (processes k) { running = f } in
    ap with_running (fun_ext (λ t. ground arith))

load_process-Started :
    (a : Locals) (ebp esp : ℕ) (k : Kernel)
    → find_pid k ≢ 0
    → Started (processes k) a.tmp_cmd (load_process a ebp esp k)
unfolding load_process mapped find_pid
load_process-Started a ebp esp k some_slot =
    each_branch (Started (processes k) a.tmp_cmd) (is_nat (mapped a k).0 0)
      {x = refused fail (mapped a k).1}
      {y = entered a ebp esp (mapped a k).1 (strlen_unsigned (mapped a k).1.memory a.tmp_cmd)}
      (λ e. kept fail (mapped a k).1 (mapped-processes a k))
      (λ e. rw (← mapped-processes a k) (entered-Started a ebp esp (mapped a k).1 some_slot))

admit-Started :
    (a : Locals) (ebp esp : ℕ) (k : Kernel) → Started (processes k) a.tmp_cmd (admit a ebp esp k)
unfolding admit find_pid
admit-Started a ebp esp k =
    let r =
      read_data k.memory k.boot_block_ptr (word32 k.memory (a.execute_file + 36)) 0 a.code_buf 4 in
    let k' : Kernel = record k { memory = r.1 } in
    let told : Kernel = record k' { screen = printf k.screen "No position for new pcb!\n" [] } in
    let P = Started (processes k) a.tmp_cmd in
    each_branch P (not (is_executable r.1 a.code_buf)) {x = refused fail k'}
      (λ e. kept fail k' refl)
      (λ e.
        each_branch P (find_pid k == 0) {x = refused (pos 1) told} {y = load_process a ebp esp k'}
          (λ e. kept (pos 1) told refl)
          (λ free. load_process-Started a ebp esp k' (λ z. ground (arith, z, free))))

found_file-Started :
    (a : Locals) (ebp esp : ℕ) (k : Kernel) (o : Option (ℤ × Memory))
    → Started (processes k) a.tmp_cmd (found_file a ebp esp k o)
unfolding found_file
found_file-Started a ebp esp k none = never
found_file-Started a ebp esp k (some (r, m)) =
    each_branch (Started (processes k) a.tmp_cmd) (is_fail r)
      {x = refused fail (record k { memory = m })} {y = admit a ebp esp (record k { memory = m })}
      (λ e. kept _ _ refl) (λ e. admit-Started a ebp esp (record k { memory = m }))

find_file-Started :
    (a : Locals) (ebp esp : ℕ) (k : Kernel) (o : Option Memory)
    → Started (processes k) a.tmp_cmd (find_file a ebp esp k o)
unfolding find_file
find_file-Started a ebp esp k none = never
find_file-Started a ebp esp k (some m) =
    found_file-Started a ebp esp k
      (read_dentry_by_name m k.boot_block_ptr a.filename a.execute_file)

pub sys_execute-Started :
    (a : Locals) (ebp esp : ℕ) (k : Kernel) (command : ℕ)
    → Started (processes k) a.tmp_cmd (sys_execute a ebp esp k command)
unfolding sys_execute
sys_execute-Started a ebp esp k command =
    let found = strlen_unsigned k.memory command >>= prepared k.memory a command in
    each_branch (Started (processes k) a.tmp_cmd) (command == 0) {x = refused fail k}
      {y = find_file a ebp esp k found} (λ e. kept fail k refl)
      (λ e. find_file-Started a ebp esp k found)
