-- ===== src/Terminal.antt =====
-- The terminal driver of student-distrib/devices/terminal.c.
-- A caller has tested that `nbytes` is not negative.
pub mod Read
pub mod Write
pub mod Line
mod Tests
use unix_operation_system.Prelude.{
  ℕ, zero, suc, ◌+◌, ◌-◌, Bool, true, false, ◌&&◌, ◌||◌, not, Option, none, some, ◌>>=◌, ◌>>◌, List,
  [], ◌∷◌, ltb, leb, ◌==◌, if◌then◌else◌, update, get_or, min,
}
use unix_operation_system.Prelude.Int.{ℤ, pos, negsuc, fail, is_nat, below, above}
use unix_operation_system.Memory.{Memory, write}
use unix_operation_system.Blocks.{memset}
use unix_operation_system.Strings.{strlen_unsigned, strncmp}
use unix_operation_system.Screen.{Screen, putc_advanced, putc_background}
use unix_operation_system.Printf.{printf, codes}
use unix_operation_system.State.{Kernel, Keyboard, Terminal}
use unix_operation_system.Keyboard.{key_buf_size, zeroed, cli, sti}

-- `terminal[i]` after terminal_init
pub initial : Terminal → ℕ → Terminal
initial t i = record t {
  id = i;
  count = 0;
  read_flag = if i == 1 then 1 else 0;
  cursor_x = 0;
  cursor_y = 0;
  task_counter = pos 0;
  terminal_process_running = 0;
  fish_flag = 0;
  pingping_flag = 0;
  grep_flag = 0;
  terminal_shell_counter = pos 1;
  running_pcb = 0;
  buf = zeroed t.buf 128;
}

unfoldable pub terminal_init : Kernel → Kernel
unfolding initial
terminal_init k = record k {
  terminal = λ i. if ltb i 4 then initial (k.terminal i) i else k.terminal i;
}

-- `terminal[display_term].read_flag == 0 || running_term != display_term`
abbrev pub is_waiting : Kernel → Bool
is_waiting k =
    ((k.terminal k.display_term).read_flag == 0) || not (k.running_term == k.display_term)

-- The waiting loop, with what the rest of the kernel does between its tests; `none` is a loop that
-- is still waiting when these steps are over.
unfoldable pub wait_loop : List (Kernel → Kernel) → Kernel → Option Kernel
wait_loop [] k = if is_waiting k then none else some k
wait_loop (e ∷ es) k = let rest = wait_loop es (e k) in if is_waiting k then rest else some k

-- `x--`
abbrev pub decrement : ℤ → ℤ
decrement (pos zero) = negsuc 0
decrement (pos (suc n)) = pos n
decrement (negsuc n) = negsuc (n + 1)

abbrev pub exit_word : ℕ → ℕ
exit_word i = get_or (b'e' ∷ b'x' ∷ b'i' ∷ b't' ∷ []) i 0

-- A shell that ends is no longer counted.
unfoldable pub count_exit : Kernel → Kernel
count_exit k =
    let t = k.terminal k.running_term in
    if is_nat (strncmp k.keyboard.keyboard_buf exit_word 5) 0
    then record k {
      terminal =
          update k.terminal k.running_term
            (record t { terminal_shell_counter = decrement t.terminal_shell_counter });
    }
    else k

-- The copying loop, `n` rounds before `nbytes`
unfoldable pub read_loop : ℕ → (ℕ → ℕ) → ℕ → ℕ → ℕ → Memory → Memory
read_loop zero line count buf index m = m
read_loop (suc n) line count buf index m =
    read_loop n line count buf (index + 1)
      (write m (buf + index) (if leb index count then line index else 0))

-- What terminal_read does from `cli` on
unfoldable pub read_line : Kernel → ℕ → ℕ → ℤ × Kernel
read_line k buf nbytes =
    let cleared = memset k.memory buf 0 4 in
    let off : Kernel = record k { memory = cleared; interrupts_on = false } in
    if not (k.running_term == k.display_term)
    then (pos 0, off)
    else let c = count_exit off in
      let count = (c.terminal c.display_term).count in
      (
        pos (if leb nbytes count then nbytes else count),
        record c {
          memory = read_loop nbytes c.keyboard.keyboard_buf count buf 0 cleared;
          keyboard = record (c.keyboard) {
            keyboard_buf = zeroed c.keyboard.keyboard_buf key_buf_size;
          };
          interrupts_on = true;
        },
      )

-- `terminal[display_term].read_flag = 0`
unfoldable pub asked : Kernel → Kernel
asked k = record k {
  terminal =
      update k.terminal k.display_term (record (k.terminal k.display_term) { read_flag = 0 });
}

-- `es` happens during the wait and `late` between its last test and `cli`.
unfoldable pub terminal_read :
    List (Kernel → Kernel) → (Kernel → Kernel) → Kernel → ℕ → ℕ → Option (ℤ × Kernel)
terminal_read es late k buf nbytes = do
  k' ← wait_loop es (asked k)
  some (read_line (late k') buf nbytes)

-- One round of the loop of terminal_write
unfoldable pub write_char : Kernel → ℕ → Screen → Screen
write_char k c s =
    if not (k.display_term == k.running_term)
    then putc_background s c k.running_term
    else if (k.terminal k.display_term).terminal_process_running == 2
    then putc_advanced s c
    else if k.keyboard.write_flag == 1
    then putc_advanced s c
    else s

-- `n` rounds before `nbytes`
unfoldable pub write_loop : ℕ → Kernel → ℕ → ℕ → Screen → Screen
unfolding write_char
write_loop zero k buf index s = s
write_loop (suc n) k buf index s =
    write_loop n k buf (index + 1) (write_char k (k.memory (buf + index)) s)

-- On a NULL buffer it returns before `sti`.
unfoldable pub terminal_write : Kernel → ℕ → ℕ → Option (ℤ × Kernel)
terminal_write k buf nbytes =
    if buf == 0 then some (fail, record k { interrupts_on = false }) else do
      buf_length ← strlen_unsigned k.memory buf
      some (
        pos (if leb nbytes buf_length then nbytes else buf_length),
        record k { screen = write_loop nbytes k buf 0 k.screen; interrupts_on = true },
      )

unfoldable pub terminal_open : Kernel → ℕ → ℤ × Kernel
terminal_open k filename =
    if filename == 0
    then (fail, record k { screen = printf k.screen "Can't read null file in ter\n " [] })
    else (pos 0, k)

unfoldable pub terminal_close : Kernel → ℤ → ℤ × Kernel
terminal_close k fd =
    if not (below fd 2) && not (above fd 8)
    then (pos 0, k)
    else (fail, record k { screen = printf k.screen "Fd must be in [2,8]\n " [] })
