-- ===== src/Terminal/Tests.antt =====
-- The terminal of the sample machine
use unix_operation_system.Prelude.{
  ℕ, ◌+◌, ◌<◌, ◌≡◌, refl, arith, some, inl, [], ◌∷◌, ◌==◌, if◌then◌else◌,
}
use unix_operation_system.Prelude.Int.{pos}
use unix_operation_system.Memory.{lt-max_rounds}
use unix_operation_system.Sample.{kernel, buffer, fname}
use unix_operation_system.State.{Kernel}
use unix_operation_system.Keyboard.Handler.{enter}
use unix_operation_system.Terminal.{terminal_read, terminal_write, read_line, asked}
use unix_operation_system.Terminal.Read.{Ready, now, later, LineRead, terminal_read-LineRead}
use unix_operation_system.Terminal.Line.{enter-read_line}
use unix_operation_system.Terminal.Write.{SameDisplay, terminal_write-hidden}

-- Enter is pressed while the process waits.
asked-Ready : Ready (enter ∷ []) (asked kernel) (enter (asked kernel))
unfolding asked enter
asked-Ready = later (inl refl) (now (omega arith) refl)

terminal_read-LineRead_example :
    (end : Kernel) × ((terminal_read (enter ∷ []) (λ k. k) kernel buffer 10 ≡ some (pos 3, end))
      × LineRead (enter (asked kernel)) buffer 10 end)
unfolding asked enter
terminal_read-LineRead_example =
    terminal_read-LineRead (enter ∷ []) (λ k. k) kernel (enter (asked kernel)) buffer 10 asked-Ready
      refl

-- The user goes to the second terminal before interrupts are off.
abbrev gone : Kernel → Kernel
gone k = record k { display_term = 2 }

enter-read_line_example :
    let (count, k') = read_line (enter kernel) buffer 10 in
    (count ≡ pos 3)
    × (((i : ℕ) → i < 2 → k'.memory (buffer + i) ≡ kernel.keyboard.keyboard_buf i)
        × (k'.memory (buffer + 2) ≡ b'\n'))
enter-read_line_example = enter-read_line kernel buffer 10 refl (omega arith) (omega arith)

-- The four letters of `exit` are typed.
abbrev exiting : Kernel
exiting = record kernel {
  keyboard = record (kernel.keyboard) {
    keyboard_buf = λ i.
        if i == 0
        then b'e'
        else if i == 1
        then b'x'
        else if i == 2
        then b'i'
        else if i == 3
        then b't'
        else 0;
    keybuf_count = 4;
  };
}

-- A process of the second terminal writes a name.
abbrev behind : Kernel
behind = record kernel { running_term = 2 }

terminal_write-hidden_example :
    (end : Kernel) × ((terminal_write behind fname 5 ≡ some (pos 1, end))
      × SameDisplay kernel.screen end.screen)
terminal_write-hidden_example =
    terminal_write-hidden behind fname 5 1 (omega arith) (omega arith)
      record { ends = refl; goes_on = λ i h. ground (arith, h) } (lt-max_rounds 1 (omega arith))
