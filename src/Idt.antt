-- ===== src/Idt.antt =====
-- The table of interrupts and the exceptions: student-distrib/idt.c, with the descriptor and
-- SET_IDT_ENTRY of student-distrib/x86_desc.h.
pub mod Gates
pub mod Exceptions
mod Tests
use Prim.Native.String.{String}
use unix_operation_system.Prelude.{ℕ, zero, suc, ◌+◌, ◌/◌, ◌%◌, ◌^◌, List, [], ◌∷◌, update, get_or}
use unix_operation_system.State.{Kernel}
use unix_operation_system.Screen.{clear}
use unix_operation_system.Printf.{printf, codes, text}
use unix_operation_system.Process.{Halted, sys_halt}

-- `idt_desc_t`
pub record Gate : Type 0 where
  pub offset_15_00 : ℕ
  pub seg_selector : ℕ
  pub reserved4 : ℕ
  pub reserved3 : ℕ
  pub reserved2 : ℕ
  pub reserved1 : ℕ
  pub size : ℕ
  pub reserved0 : ℕ
  pub dpl : ℕ
  pub present : ℕ
  pub offset_31_16 : ℕ

abbrev pub kernel_cs : ℕ
kernel_cs = 0x10

abbrev pub num_vec : ℕ
num_vec = 256

-- Where the linker has put the functions
pub record Handlers : Type 0 where
  pub exception : ℕ → ℕ
  pub pit_handler_linkage : ℕ
  pub keyboard_handler_linkage : ℕ
  pub rtc_handler_linkage : ℕ
  pub syscall_handler : ℕ

-- SET_IDT_ENTRY: the two halves of the address
pub set_idt_entry : (ℕ → Gate) → ℕ → ℕ → ℕ → Gate
set_idt_entry t n handler =
    update t n
      (record (t n) { offset_31_16 = handler / 2 ^ 16 % 2 ^ 16; offset_15_00 = handler % 2 ^ 16 })

pub add_intr_handler_setup : (ℕ → Gate) → ℕ → ℕ → Gate
add_intr_handler_setup t n = update t n (record (t n) { present = 1; dpl = 0; reserved3 = 0 })

abbrev pub reset_gate : Gate
reset_gate = record {
  offset_15_00 = 0;
  seg_selector = kernel_cs;
  reserved4 = 0;
  reserved3 = 0;
  reserved2 = 1;
  reserved1 = 1;
  size = 1;
  reserved0 = 0;
  dpl = 0;
  present = 0;
  offset_31_16 = 0;
}

-- The two loops of idt_init, `k` rounds before their bounds
unfoldable pub reset_loop : ℕ → (ℕ → Gate) → ℕ → ℕ → Gate
reset_loop zero t i = t
reset_loop (suc k) t i = reset_loop k (update t i reset_gate) (i + 1)

unfoldable pub exception_loop : ℕ → (ℕ → Gate) → ℕ → ℕ → Gate
exception_loop zero t i = t
exception_loop (suc k) t i =
    exception_loop k (update t i (record (t i) { dpl = 0; present = 1; reserved3 = 1 })) (i + 1)

-- The twenty entries of the exceptions, in the order of their numbers
unfoldable pub set_exceptions : ℕ → (ℕ → ℕ) → (ℕ → Gate) → ℕ → ℕ → Gate
set_exceptions zero handler t i = t
set_exceptions (suc k) handler t i =
    set_exceptions k handler (set_idt_entry t i (handler i)) (i + 1)

-- A handler of a device
pub set_interrupt : (ℕ → Gate) → ℕ → ℕ → ℕ → Gate
unfolding add_intr_handler_setup set_idt_entry
set_interrupt t n handler = add_intr_handler_setup (set_idt_entry t n handler) n

pub idt_init : Handlers → (ℕ → Gate) → ℕ → Gate
unfolding set_interrupt set_idt_entry
idt_init h t =
    let exceptions =
      set_exceptions 20 h.exception (exception_loop 20 (reset_loop num_vec t 0) 0) 0 in
    let pit = set_interrupt exceptions 0x20 h.pit_handler_linkage in
    let keyboard = set_interrupt pit 0x21 h.keyboard_handler_linkage in
    let rtc = set_interrupt keyboard 0x28 h.rtc_handler_linkage in
    let syscall = set_idt_entry rtc 0x80 h.syscall_handler in
    update syscall 0x80 (record (syscall 0x80) { dpl = 3; present = 1; reserved3 = 1 })

abbrev pub exception_output : List String
exception_output =
    "Divide-by-zero Error" ∷ "Debug" ∷ "Non-maskable Interrupt" ∷ "Breakpoint" ∷ "Overflow"
    ∷ "Bound Range Exceeded" ∷ "Invalid Opcode" ∷ "Device Not Available" ∷ "Double Fault"
    ∷ "Coprocessor Segment Overrun" ∷ "Invalid TSS" ∷ "Segment Not Present" ∷ "Stack-Segment Fault"
    ∷ "General Protection Fault" ∷ "Page Fault" ∷ "Intel Reserved" ∷ "x87 Floating-Point Exception"
    ∷ "Alignment Check" ∷ "Machine Check" ∷ "SIMD Floating-Point Exception" ∷ []

-- The handler of all exceptions, up to sys_halt
unfoldable pub raised : Kernel → ℕ → Kernel
raised k n = record k {
  screen =
      printf (clear k.screen) "===============   %s    ===============\n  "
        (text (codes (get_or exception_output n "")) ∷ []);
  exception_flag = 1;
}

unfoldable pub exception_handler_n : Kernel → ℕ → Halted
unfolding raised
exception_handler_n k n = sys_halt (raised k n) 255

-- The twenty functions, from divide_by_zero_exception on, by their numbers
abbrev pub exception_function : ℕ → Kernel → Halted
exception_function n k = exception_handler_n k n

-- The handler in C behind vector 0x80, which the linkage does not call
pub system_call_handler : Kernel → Kernel
system_call_handler k = record k { screen = printf k.screen "system call" [] }
