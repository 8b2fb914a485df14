-- ===== src/Keyboard/Handler.antt =====
-- keyboard_interrupt_handler and backspace_handler of student-distrib/devices/keyboard.c.
use unix_operation_system.Prelude.{
  ℕ, ◌+◌, ◌-◌, ◌%◌, false, ◌&&◌, ◌||◌, not, [], ◌∷◌, ◌++◌, ltb, leb, ◌==◌, if◌then◌else◌, update,
}
use unix_operation_system.Pic.{send_eoi}
use unix_operation_system.Screen.{Screen, clear, putc_advanced, backspace}
use unix_operation_system.Printf.{printf, word}
use unix_operation_system.State.{Kernel, Keyboard, Terminal}
use unix_operation_system.Keyboard.Scancode.{scancode}
use unix_operation_system.Keyboard.{
  key_buf_size, sti, zeroed, reset_keyboard_buffer, function_key_handle, terminal_switch,
}

-- Parts of the state are replaced.
abbrev pub with_screen : Kernel → Screen → Kernel
with_screen k s = record k { screen = s }

abbrev pub with_keyboard : Kernel → Keyboard → Kernel
with_keyboard k kb = record k { keyboard = kb }

abbrev pub displayed : Kernel → Terminal
displayed k = k.terminal k.display_term

-- A character goes to the screen and to the line buffer.
unfoldable pub push_char : Keyboard → ℕ → Keyboard
push_char kb c = record kb {
  keyboard_buf = update kb.keyboard_buf kb.keybuf_count c;
  keybuf_count = kb.keybuf_count + 1;
}

-- Enter: the line is closed and handed to terminal_read.
unfoldable pub enter : Kernel → Kernel
enter k =
    let kb = k.keyboard in
    let count = kb.keybuf_count + 1 in
    let at = if count == key_buf_size - 2 then kb.keybuf_count + 1 else kb.keybuf_count in
    record k {
      screen = putc_advanced k.screen b'\n';
      keyboard = record kb { keyboard_buf = update kb.keyboard_buf at b'\n'; keybuf_count = 0 };
      terminal =
          update k.terminal k.display_term (record (displayed k) { count = count; read_flag = 1 });
    }

-- Ctrl and L. The terminal that terminal_reset changes is a copy, which is dropped.
unfoldable pub clear_line : Kernel → Kernel
unfolding reset_keyboard_buffer
clear_line k =
    let kb = reset_keyboard_buffer k.keyboard in
    let told = printf (clear k.screen) "Current Terminal:%d \n" (word k.display_term ∷ []) in
    record k {
      screen = printf told "391OS> " [];
      keyboard = record kb { keyboard_buf = zeroed kb.keyboard_buf key_buf_size; keybuf_count = 0 };
    }

unfoldable pub backspace_handler : Kernel → Kernel
backspace_handler k =
    let kb = k.keyboard in
    let last = kb.keybuf_count - 1 in
    record k {
      keyboard = record kb { keybuf_count = last };
      screen =
          if kb.keyboard_buf last == b'\t'
          then backspace (backspace (backspace (backspace k.screen)))
          else backspace k.screen;
    }

-- Four blanks on the screen stand for a tab.
unfoldable pub tab : Kernel → Kernel
unfolding push_char
tab k = record k {
  screen =
      putc_advanced (putc_advanced (putc_advanced (putc_advanced k.screen b' ') b' ') b' ') b' ';
  keyboard = push_char k.keyboard b'\t';
}

-- The body of the test of the key's range: `value` is the key's character, already shifted, and
-- `shifted` the one with shift.
unfoldable pub type_key : Kernel → ℕ → ℕ → Kernel
unfolding push_char enter clear_line backspace_handler tab
type_key k value shifted =
    let kb = k.keyboard in
    let c = if (leb b'a' value && leb value b'z') && (kb.caps_lock == 1) then shifted else value in
    if value == b'\n'
    then enter k
    else if (kb.ctrl_buf == 1) && ((value == b'l') || (value == b'L'))
    then clear_line k
    else if value == 8
    then (if kb.keybuf_count == 0 then k else backspace_handler k)
    else if value == b'\t'
    then tab k
    else record k { screen = putc_advanced k.screen c; keyboard = push_char kb c }

-- What follows when the key is neither a function key nor switches terminals
unfoldable pub ordinary_key : (ℕ → ℕ × ℕ) → Kernel → ℕ → Kernel
unfolding type_key
ordinary_key beyond k key =
    let (value, shifted) = scancode beyond key in
    let term = displayed k in
    if (term.pingping_flag == 1) || ((term.fish_flag == 1) || (term.grep_flag == 1))
    then k
    else if (k.keyboard.keybuf_count == key_buf_size - 1) && not ((value == b'\n') || (value == 8))
    then k
    else if ltb 1 key && leb key 58
    then type_key k (if k.keyboard.shift_buf == 1 then shifted else value) shifted
    else k

-- The whole handler: the byte from the port is `inb`, and `beyond` is what stands behind the table
-- of characters. Interrupts are off while it runs, and on when it returns.
unfoldable pub keyboard_interrupt_handler : (ℕ → ℕ × ℕ) → Kernel → ℕ → Kernel
unfolding ordinary_key
keyboard_interrupt_handler beyond k inb =
    let key = inb % 256 in
    let started : Kernel = record k {
      interrupts_on = false;
      ports = k.ports ++ send_eoi 1;
      keyboard = record (k.keyboard) { write_flag = 1 };
    } in
    let (function_key, kb) = function_key_handle started.keyboard key in
    let handled = with_keyboard started kb in
    let (switched, k') = terminal_switch handled key in
    if function_key == 1
    then sti handled
    else if switched == 1
    then sti k'
    else sti (ordinary_key beyond k' key)
