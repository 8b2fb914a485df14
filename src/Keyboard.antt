-- ===== src/Keyboard.antt =====
-- The keyboard driver of student-distrib/devices/keyboard.c.
pub mod Scancode
pub mod Handler
pub mod Bounds
pub mod Switch
pub mod Typing
pub mod Keeping
mod Tests
use unix_operation_system.Prelude.{
  ℕ, zero, suc, ◌+◌, ◌-◌, ◌*◌, ◌%◌, Bool, true, false, ◌&&◌, ◌||◌, List, [], ◌∷◌, ◌++◌, ltb, leb,
  ◌==◌, if◌then◌else◌, update,
}
use unix_operation_system.Memory.{Memory}
use unix_operation_system.Blocks.{memset, memcpy}
use unix_operation_system.Pic.{send_eoi}
use unix_operation_system.Screen.{Screen, clear, putc_advanced, backspace, switch_screen, puts}
use unix_operation_system.State.{Kernel, Keyboard, Terminal}
use unix_operation_system.Keyboard.Scancode.{scancode}

abbrev pub key_buf_size : ℕ
key_buf_size = 128

abbrev pub cli : Kernel → Kernel
cli k = record k { interrupts_on = false }

abbrev pub sti : Kernel → Kernel
sti k = record k { interrupts_on = true }

-- `memset(array, NULL, n)` and `memcpy(array, other, n)` on arrays of bytes
abbrev pub zeroed : (ℕ → ℕ) → ℕ → ℕ → ℕ
zeroed a n i = if ltb i n then 0 else a i

abbrev pub copied : (ℕ → ℕ) → (ℕ → ℕ) → ℕ → ℕ → ℕ
copied a b n i = if ltb i n then b i else a i

pub reset_keyboard_buffer : Keyboard → Keyboard
reset_keyboard_buffer kb = record kb {
  caps_lock_counter = 0;
  ctrl_buf = 0;
  shift_buf = 0;
  caps_lock = 0;
  alt_buf = 0;
  keyboard_buf = zeroed kb.keyboard_buf key_buf_size;
  keybuf_count = 0;
}

-- The switch of function_key_handle: the result and the new flags
pub function_key_switch : Keyboard → ℕ → ℕ × Keyboard
function_key_switch kb key =
    if key == 0x2A
    then (1, record kb { shift_buf = 1 })
    else if key == 0xAA
    then (1, record kb { shift_buf = 0 })
    else if key == 0x36
    then (1, record kb { shift_buf = 1 })
    else if key == 0xB6
    then (1, record kb { shift_buf = 0 })
    else if key == 0x1D
    then (1, record kb { ctrl_buf = 1 })
    else if key == 0x9D
    then (1, record kb { ctrl_buf = 0 })
    else if key == 0x3A
    then (1, record kb { caps_lock_counter = kb.caps_lock_counter + 1; caps_lock = 1 })
    else if key == 0xBA
    then (1, record kb { caps_lock = kb.caps_lock_counter % 2 })
    else if key == 0x38
    then (1, record kb { alt_buf = 1 })
    else if key == 0xB8
    then (1, record kb { alt_buf = 0 })
    else (0, kb)

pub function_key_handle : Keyboard → ℕ → ℕ × Keyboard
unfolding function_key_switch reset_keyboard_buffer
function_key_handle kb key =
    let (ret, kb') = function_key_switch kb key in
    (ret, if ltb 100000 kb'.caps_lock_counter then reset_keyboard_buffer kb' else kb')

-- vid_pages[i]: the displayed page, and the page of each terminal
abbrev pub vid_page_addr : ℕ → ℕ
vid_page_addr i = 0xB8000 + 0x1000 * i

pub switch_vid_page : Memory → ℕ → ℕ → Memory
switch_vid_page m current next =
    let saved = memcpy m (vid_page_addr current) (vid_page_addr 0) 4096 in
    let cleared = memset saved (vid_page_addr 0) 0 4096 in
    memcpy cleared (vid_page_addr 0) (vid_page_addr next) 4096

-- What terminal_switch does once display_term is `next` and differs from last_term
unfoldable pub change_terminal : Kernel → ℕ → Kernel
change_terminal k next =
    let last = k.last_term in
    let kb = k.keyboard in
    let arr =
      update kb.keyboard_buf_arr (last - 1)
        (copied (kb.keyboard_buf_arr (last - 1)) kb.keyboard_buf key_buf_size) in
    let counts = update kb.keybuf_count_arr (last - 1) kb.keybuf_count in
    let paged : Screen = record (k.screen) {
      video_mem = switch_vid_page k.screen.video_mem last next;
    } in
    record k {
      display_term = next;
      screen = switch_screen paged last next;
      keyboard = record kb {
        keyboard_buf_arr = arr;
        keyboard_buf = copied kb.keyboard_buf (arr (next - 1)) key_buf_size;
        keybuf_count_arr = counts;
        keybuf_count = counts (next - 1);
        write_flag = 0;
      };
      terminal = update k.terminal last (record (k.terminal last) { read_flag = 0 });
      last_term = next;
      interrupts_on = true;
    }

-- display_term is set by F1, F2 and F3 while alt is down.
unfoldable pub display_of : ℕ → ℕ
display_of key = if key == 0x3b then 1 else if key == 0x3c then 2 else if key == 0x3d then 3 else 0

unfoldable pub terminal_switch : Kernel → ℕ → ℕ × Kernel
unfolding display_of
terminal_switch k key =
    if k.keyboard.alt_buf == 1
    then (if display_of key == 0
        then (0, k)
        else if display_of key == k.last_term
        then (1, record k { display_term = display_of key })
        else (1, change_terminal k (display_of key)))
    else (0, k)
