-- ===== src/Pic.antt =====
-- The interrupt controller of student-distrib/i8259.c. A function returns the new masks and the
-- events, in order; the messages about wrong numbers are left out.
pub mod Masks
use unix_operation_system.Prelude.{
  ℕ, ◌+◌, ◌-◌, ◌*◌, ◌/◌, ◌%◌, ◌^◌, bit_and, bit_or, List, [], ◌∷◌, ◌++◌, ltb, if◌then◌else◌,
}
use unix_operation_system.Hardware.{Event, outb, cli, sti, save_flags, restore_flags}

pub record Pic : Type 0 where
  pub master_mask : ℕ
  pub slave_mask : ℕ

abbrev pub master_port : ℕ
master_port = 0x20

abbrev pub master_data : ℕ
master_data = master_port + 1

abbrev pub slave_port : ℕ
slave_port = 0xA0

abbrev pub slave_data : ℕ
slave_data = slave_port + 1

abbrev pub eoi : ℕ
eoi = 0x60

abbrev pub slave_irq : ℕ
slave_irq = 0x02

-- `mask & ~(1 << n)` and `mask | (1 << n)` on a byte
pub clear_bit : ℕ → ℕ → ℕ
clear_bit mask n = bit_and mask (255 - 2 ^ n)

pub set_bit : ℕ → ℕ → ℕ
set_bit mask n = bit_or mask (2 ^ n)

unfoldable pub enable_irq : Pic → ℕ → Pic × List Event
enable_irq p irq =
    let master = clear_bit p.master_mask irq in
    let slave = clear_bit p.slave_mask (irq - 8) in
    if ltb 15 irq
    then (p, [])
    else if ltb irq 8
    then (record p { master_mask = master }, outb master master_data ∷ [])
    else (record p { slave_mask = slave }, outb slave slave_data ∷ [])

pub disable_irq : Pic → ℕ → Pic × List Event
disable_irq p irq =
    let master = set_bit p.master_mask irq in
    let slave = set_bit p.slave_mask (irq - 8) in
    if ltb 15 irq
    then (p, [])
    else if ltb irq 8
    then (record p { master_mask = master }, outb master master_data ∷ [])
    else (record p { slave_mask = slave }, outb slave slave_data ∷ [])

unfoldable pub send_eoi : ℕ → List Event
send_eoi irq =
    if ltb 15 irq
    then []
    else if ltb irq 8
    then outb (bit_or irq eoi) master_port ∷ []
    else outb (bit_or (irq - 8) eoi) slave_port ∷ outb (bit_or eoi slave_irq) master_port ∷ []

unfoldable pub i8259_init : Pic × List Event
unfolding enable_irq
i8259_init =
    let masked : Pic = record { master_mask = 0xff; slave_mask = 0xff } in
    let (p, enabled) = enable_irq masked slave_irq in
    (
      p,
      save_flags
          ∷ cli
          ∷ outb 0xff master_data
          ∷ outb 0xff slave_data
          ∷ outb 0x11 master_port
          ∷ outb 0x20 master_data
          ∷ outb 0x04 master_data
          ∷ outb 0x01 master_data
          ∷ outb 0x11 slave_port
          ∷ outb 0x28 slave_data
          ∷ outb 0x02 slave_data
          ∷ outb 0x01 slave_data
          ∷ outb 0xff master_data
          ∷ outb 0xff slave_data
          ∷ (enabled ++ (sti ∷ restore_flags ∷ [])),
    )
