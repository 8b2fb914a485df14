-- ===== src/Keyboard/Bounds.antt =====
-- The line buffer is never written past its end, whatever keys come.
use unix_operation_system.Prelude.{
  ℕ, ◌-◌, ◌%◌, ◌≤◌, ◌<◌, ◌≡◌, ◌≢◌, refl, true, false, ◌&&◌, ◌||◌, not, ◌++◌, ltb, leb, ◌==◌, ◌⊎◌,
  arith, if◌then◌else◌, both_branches, each_branch, ◌∙◌,
}
use unix_operation_system.State.{Kernel, Keyboard}
use unix_operation_system.Pic.{send_eoi}
use unix_operation_system.Keyboard.Scancode.{scancode, scancode-same}
use unix_operation_system.Keyboard.{
  key_buf_size, sti, function_key_switch, function_key_handle, terminal_switch, change_terminal,
  display_of,
}
use unix_operation_system.Keyboard.Handler.{type_key, ordinary_key, keyboard_interrupt_handler}

-- The line being typed, and those of the other terminals, leave the last byte of the buffer free.
pub record IsValid (kb : Keyboard) : Type 0 where
  pub count : kb.keybuf_count ≤ key_buf_size - 1
  pub counts : (t : ℕ) → kb.keybuf_count_arr t ≤ key_buf_size - 1

-- Nothing behind the buffer differs.
abbrev pub Inside : Keyboard → Keyboard → Type 0
Inside kb kb' = (p : ℕ) → key_buf_size ≤ p → kb'.keyboard_buf p ≡ kb.keyboard_buf p

pub record Safe (kb kb' : Keyboard) : Type 0 where
  pub valid : IsValid kb'
  pub inside : Inside kb kb'

function_key_switch-Safe :
    {kb : Keyboard} (key : ℕ) → IsValid kb → Safe kb (function_key_switch kb key).1
unfolding function_key_switch
function_key_switch-Safe key v = record {
  valid = record { count = ground (arith, v.count); counts = λ t. ground (arith, v.counts t) };
  inside = λ p h. ground arith;
}

function_key_handle-Safe :
    {kb : Keyboard} (key : ℕ) → IsValid kb → Safe kb (function_key_handle kb key).1
unfolding function_key_handle
function_key_handle-Safe {kb} key v =
    let s = function_key_switch-Safe key v in
    record {
      valid = record {
        count = ground (arith, s.valid.count);
        counts = λ t. ground (arith, s.valid.counts t);
      };
      inside = λ p h. ground (arith, s.inside p);
    }

change_terminal-Safe :
    (k : Kernel) (next : ℕ) → IsValid k.keyboard → Safe k.keyboard (change_terminal k next).keyboard
unfolding change_terminal
change_terminal-Safe k next v = record {
  valid = record {
    count = ground (arith, v.count, v.counts (next - 1));
    counts = λ t. ground (arith, v.count, v.counts t);
  };
  inside = λ p h. ground arith;
}

terminal_switch-Safe :
    (k : Kernel) (key : ℕ) → IsValid k.keyboard → Safe k.keyboard (terminal_switch k key).1.keyboard
unfolding terminal_switch
terminal_switch-Safe k key v =
    let s = change_terminal-Safe k (display_of key) v in
    record {
      valid = record {
        count = ground (arith, v.count, s.valid.count);
        counts = λ t. ground (arith, v.counts t, s.valid.counts t);
      };
      inside = λ p h. ground (arith, s.inside p h);
    }

type_key-Safe :
    (k : Kernel) (value shifted : ℕ)
    → IsValid k.keyboard
    → (k.keyboard.keybuf_count ≡ key_buf_size - 1 → (value ≡ b'\n') ⊎ (value ≡ 8))
    → Safe k.keyboard (type_key k value shifted).keyboard
unfolding type_key
type_key-Safe k value shifted v room = record {
  valid = record { count = ground (arith, v.count); counts = λ t. ground (arith, v.counts t) };
  inside = λ p h. ground (arith, v.count);
}

Safe-refl : {kb : Keyboard} → IsValid kb → Safe kb kb
Safe-refl v = record { valid = v; inside = λ p h. refl }

-- The guard on a full buffer looks at the character without shift, the key is then handled with the
-- shifted one: the two are the same where they matter.
room_for :
    (beyond : ℕ → ℕ × ℕ) (kb : Keyboard) (key : ℕ)
    → key ≢ 58
    → ((kb.keybuf_count == key_buf_size - 1)
        && not (((scancode beyond key).0 == b'\n') || ((scancode beyond key).0 == 8)))
      ≡ false
    → (ltb 1 key && leb key 58) ≡ true
    → kb.keybuf_count ≡ key_buf_size - 1
    → let value = if kb.shift_buf == 1 then (scancode beyond key).1 else (scancode beyond key).0 in
      (value ≡ b'\n') ⊎ (value ≡ 8)
room_for beyond kb key ne guard range full =
    let below : key < 58 = ground (arith, ne, range) in
    let is : ((scancode beyond key).0 ≡ b'\n') ⊎ ((scancode beyond key).0 ≡ 8) =
      ground (arith, guard, full) in
    let same = scancode-same beyond key below is in ground (arith, same, is)

ordinary_key-Safe :
    (beyond : ℕ → ℕ × ℕ) (k : Kernel) (key : ℕ)
    → IsValid k.keyboard
    → key ≢ 58
    → Safe k.keyboard (ordinary_key beyond k key).keyboard
unfolding ordinary_key
ordinary_key-Safe beyond k key v ne =
    let value = (scancode beyond key).0 in
    let P = λ (k' : Kernel). Safe k.keyboard k'.keyboard in
    both_branches P _ (Safe-refl v) (
      each_branch P _ (λ e. Safe-refl v)
        (λ full.
          each_branch P _
            (λ range.
              type_key-Safe k _ (scancode beyond key).1 v
                (room_for beyond k.keyboard key ne full range))
            (λ e. Safe-refl v)))

-- A function key is known by its own code, and caps lock, code 58, is one of them.
not_caps_lock : (kb : Keyboard) (key : ℕ) → ((function_key_handle kb key).0 == 1) ≡ false → key ≢ 58
unfolding function_key_handle function_key_switch
not_caps_lock kb key h e = ground (arith, h, e)

Safe-trans : {a b c : Keyboard} → Safe a b → Safe b c → Safe a c
Safe-trans s t = record { valid = t.valid; inside = λ p h. t.inside p h ∙ s.inside p h }

-- When the line and the saved lines have at most 127 characters, the handler, whatever byte the
-- keyboard sends, writes nothing behind the line buffer, and leaves at most 127 characters in the
-- line and in the saved lines.
pub keyboard_interrupt_handler-Safe :
    (beyond : ℕ → ℕ × ℕ) (k : Kernel) (inb : ℕ)
    → IsValid k.keyboard
    → Safe k.keyboard (keyboard_interrupt_handler beyond k inb).keyboard
unfolding keyboard_interrupt_handler
keyboard_interrupt_handler-Safe beyond k inb v =
    let P = λ (k' : Kernel). Safe k.keyboard k'.keyboard in
    let started : Keyboard = record (k.keyboard) { write_flag = 1 } in
    let ready : Safe k.keyboard started = record {
      valid = record { count = v.count; counts = v.counts };
      inside = λ p h. refl;
    } in
    let handled : Kernel = record k {
      interrupts_on = false;
      ports = k.ports ++ send_eoi 1;
      keyboard = (function_key_handle started (inb % 256)).1;
    } in
    let s = Safe-trans ready (function_key_handle-Safe (inb % 256) ready.valid) in
    let k' = (terminal_switch handled (inb % 256)).1 in
    let t : Safe k.keyboard k'.keyboard =
      Safe-trans s (terminal_switch-Safe handled (inb % 256) s.valid) in
    each_branch P ((function_key_handle started (inb % 256)).0 == 1) {x = sti handled} (λ e. s)
      (λ other.
        both_branches P ((terminal_switch handled (inb % 256)).0 == 1) {x = sti k'}
          {y = sti (ordinary_key beyond k' (inb % 256))} t
          (Safe-trans t (
            ordinary_key-Safe beyond k' (inb % 256) t.valid
              (not_caps_lock started (inb % 256) other))))
