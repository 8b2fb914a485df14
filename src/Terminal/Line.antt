-- ===== src/Terminal/Line.antt =====
-- From the keyboard to the program: Enter in keyboard.c, then terminal_read of terminal.c.
use unix_operation_system.Prelude.{ℕ, ◌+◌, ◌<◌, ◌≡◌, ◌≢◌, arith}
use unix_operation_system.Prelude.Int.{pos}
use unix_operation_system.State.{Kernel}
use unix_operation_system.Keyboard.Handler.{enter}
use unix_operation_system.Terminal.{read_line}
use unix_operation_system.Terminal.Read.{read_line-LineRead}

-- When Enter is pressed, the process runs in the displayed terminal and the line does not have
-- 125 characters, a program that asks for more bytes than the line has gets the characters that
-- were typed, then the newline, and is told their number.
pub enter-read_line :
    (k : Kernel) (buf nbytes : ℕ)
    → k.running_term ≡ k.display_term
    → k.keyboard.keybuf_count < nbytes
    → k.keyboard.keybuf_count ≢ 125
    → let (count, k') = read_line (enter k) buf nbytes in
      (count ≡ pos (k.keyboard.keybuf_count + 1))
      × (((i : ℕ) → i < k.keyboard.keybuf_count → k'.memory (buf + i) ≡ k.keyboard.keyboard_buf i)
          × (k'.memory (buf + k.keyboard.keybuf_count) ≡ b'\n'))
unfolding enter
enter-read_line k buf nbytes shown room n =
    let r = read_line-LineRead (enter k) buf nbytes shown in
    (
      ground (arith, r.0),
      (
        λ i h. ground (arith, r.1.bytes i (omega arith)),
        ground (arith, r.1.bytes k.keyboard.keybuf_count room),
      ),
    )

-- When Enter is pressed after a line of 125 characters, the newline is stored one place too far:
-- a program of the displayed terminal that asks for more than 126 bytes gets, where the newline
-- is due, what the buffer held there before, and the newline behind it, which the result of 126
-- does not count.
pub enter-read_line-skips :
    (k : Kernel) (buf nbytes : ℕ)
    → k.running_term ≡ k.display_term
    → 126 < nbytes
    → k.keyboard.keybuf_count ≡ 125
    → let (count, k') = read_line (enter k) buf nbytes in
      (count ≡ pos 126)
      × ((k'.memory (buf + 125) ≡ k.keyboard.keyboard_buf 125) × (k'.memory (buf + 126) ≡ b'\n'))
unfolding enter
enter-read_line-skips k buf nbytes shown room n =
    let r = read_line-LineRead (enter k) buf nbytes shown in
    (
      ground (arith, r.0),
      (ground (arith, r.1.bytes 125 (omega arith)), ground (arith, r.1.bytes 126 room)),
    )
