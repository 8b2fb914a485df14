-- ===== src/Keyboard/Keeping.antt =====
-- The handler of the keyboard changes no process.
use unix_operation_system.Prelude.{
  ℕ, refl, arith, ◌++◌, false, ◌==◌, ◌%◌, ◌-◌, ◌&&◌, ◌||◌, not, ltb, leb, both_branches,
}
use unix_operation_system.Pic.{send_eoi}
use unix_operation_system.State.{Kernel}
use unix_operation_system.Keyboard.Scancode.{scancode}
use unix_operation_system.Keyboard.{
  sti, key_buf_size, function_key_handle, terminal_switch, change_terminal,
}
use unix_operation_system.Keyboard.Handler.{
  type_key, enter, clear_line, backspace_handler, tab, ordinary_key, keyboard_interrupt_handler,
}
use unix_operation_system.Process.Kin.{Kin, Kin-same, Kin-trans, same_blocks, untouched}

type_key-Kin : (k : Kernel) (value shifted : ℕ) → Kin k (type_key k value shifted)
unfolding type_key enter clear_line backspace_handler tab
type_key-Kin k value shifted =
    same_blocks (ground arith) (λ t. ground arith) (ground arith) (ground arith) (ground arith)

ordinary_key-Kin : (beyond : ℕ → ℕ × ℕ) (k : Kernel) (key : ℕ) → Kin k (ordinary_key beyond k key)
unfolding ordinary_key
ordinary_key-Kin beyond k key =
    let term = k.terminal k.display_term in
    let value = (scancode beyond key).0 in
    let P = Kin k in
    both_branches P ((term.pingping_flag == 1) || ((term.fish_flag == 1) || (term.grep_flag == 1)))
      (Kin-same k)
      (both_branches P
        ((k.keyboard.keybuf_count == key_buf_size - 1) && not ((value == b'\n') || (value == 8)))
        (Kin-same k) (both_branches P (ltb 1 key && leb key 58) (type_key-Kin k _ _) (Kin-same k)))

terminal_switch-Kin : (k : Kernel) (key : ℕ) → Kin k (terminal_switch k key).1
unfolding terminal_switch change_terminal
terminal_switch-Kin k key =
    same_blocks (ground arith) (λ t. ground arith) (ground arith) (ground arith) (ground arith)

pub keyboard_interrupt_handler-Kin :
    (beyond : ℕ → ℕ × ℕ) (k : Kernel) (inb : ℕ) → Kin k (keyboard_interrupt_handler beyond k inb)
unfolding keyboard_interrupt_handler
keyboard_interrupt_handler-Kin beyond k inb =
    let started : Kernel = record k {
      interrupts_on = false;
      ports = k.ports ++ send_eoi 1;
      keyboard = (function_key_handle (record (k.keyboard) { write_flag = 1 }) (inb % 256)).1;
    } in
    let begun : Kin k started = untouched refl refl refl refl refl in
    let switched = Kin-trans begun (terminal_switch-Kin started (inb % 256)) in
    let k' = (terminal_switch started (inb % 256)).1 in
    let typed = Kin-trans switched (ordinary_key-Kin beyond k' (inb % 256)) in
    let P = Kin k in
    both_branches P
      ((function_key_handle (record (k.keyboard) { write_flag = 1 }) (inb % 256)).0 == 1)
      {x = sti started} (Kin-trans begun (untouched refl refl refl refl refl))
      (both_branches P ((terminal_switch started (inb % 256)).0 == 1) {x = sti k'}
        {y = sti (ordinary_key beyond k' (inb % 256))}
        (Kin-trans switched (untouched refl refl refl refl refl))
        (Kin-trans typed (untouched refl refl refl refl refl)))
