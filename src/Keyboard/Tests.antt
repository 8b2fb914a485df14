-- ===== src/Keyboard/Tests.antt =====
-- The keyboard of the sample machine
use unix_operation_system.Prelude.{◌≡◌, refl, arith}
use unix_operation_system.Sample.{kernel, keyboard}
use unix_operation_system.State.{Kernel}
use unix_operation_system.Keyboard.{terminal_switch, change_terminal, display_of}
use unix_operation_system.Keyboard.Handler.{keyboard_interrupt_handler, type_key, backspace_handler}
use unix_operation_system.Keyboard.Bounds.{Safe, keyboard_interrupt_handler-Safe}
use unix_operation_system.Keyboard.Switch.{Resumed, terminal_switch-Resumed}
use unix_operation_system.Keyboard.Typing.{TakenBack, type_key-TakenBack}

keyboard_interrupt_handler-Safe_example :
    Safe keyboard (keyboard_interrupt_handler (λ key. (key, key)) kernel 0x1E).keyboard
keyboard_interrupt_handler-Safe_example =
    keyboard_interrupt_handler-Safe (λ key. (key, key)) kernel 0x1E
      record { count = omega arith; counts = λ t. omega arith }

-- To the second terminal with F2 and back with F1
abbrev away : Kernel
away = (terminal_switch kernel 0x3c).1

away-alt_buf : away.keyboard.alt_buf ≡ 1
unfolding terminal_switch change_terminal display_of
away-alt_buf = refl

away-last_term : away.last_term ≡ 2
unfolding terminal_switch change_terminal display_of
away-last_term = refl

display_of-f1_f2 : (display_of 0x3b ≡ 1) × (display_of 0x3c ≡ 2)
unfolding display_of
display_of-f1_f2 = (refl, refl)

terminal_switch-Resumed_example : Resumed kernel (terminal_switch away 0x3b).1
terminal_switch-Resumed_example =
    terminal_switch-Resumed kernel away 0x3c 0x3b refl away-alt_buf display_of-f1_f2.0 (omega arith)
      (ground (arith, display_of-f1_f2)) (ground (arith, display_of-f1_f2))
      (ground (arith, away-last_term)) (ground (arith, away-last_term))
      record { line = λ p h. refl; length = refl; x = refl; y = refl; page = λ i h. refl }

type_key-TakenBack_example : TakenBack kernel (backspace_handler (type_key kernel b'x' b'X'))
type_key-TakenBack_example =
    type_key-TakenBack kernel b'x' b'X'
      record { col = omega arith; row = omega arith; shown = refl }
      record { newline = refl; delete = omega arith; tab = omega arith }
      record { newline = refl; delete = omega arith; tab = omega arith } (omega arith) (omega arith)
