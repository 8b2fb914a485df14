-- ===== src/Scheduler.antt =====
-- Which process runs: student-distrib/scheduling.c and the timer of student-distrib/devices/pit.c.
pub mod Switching
pub mod Interrupts
pub mod Starting
pub mod Boot
pub mod Mapping
pub mod Stacks
pub mod Nesting
pub mod Works
pub mod Reach
pub mod Turns
mod Tests
use unix_operation_system.Prelude.{
  ℕ, ◌+◌, ◌-◌, ◌*◌, ◌/◌, ◌%◌, ◌^◌, Bool, true, false, ◌||◌, ◌==◌, if◌then◌else◌, update, List, [],
  ◌∷◌, ◌++◌,
}
use unix_operation_system.Hardware.{Event, outb, cli, sti, save_flags, restore_flags}
use unix_operation_system.Paging.{Placement, map_program, map_video, of_val}
use unix_operation_system.State.{Kernel, Pcb}
use unix_operation_system.Pic.{Pic, enable_irq, send_eoi}
use unix_operation_system.Process.Execute.{
  Locals, Executed, refused, started, endless, overran, sys_execute,
}

-- %ebp and %esp
pub record Registers : Type 0 where
  pub ebp : ℕ
  pub esp : ℕ

-- What the calls use that is no state of the kernel: the place of the page tables, the local
-- variables of sys_execute and its registers, and the address of the string "shell".
pub record Frame : Type 0 where
  pub placement : Placement
  pub locals : Locals
  pub execute : Registers
  pub shell : ℕ

-- How the scheduler ends: in a call of sys_execute, which may return, or in the process whose
-- registers are loaded.
pub data Scheduled : Type 0 where
  executed : Executed → Scheduled
  switched : Registers → Kernel → Scheduled

-- One of the slots of the three shells is free.
abbrev pub shell_missing : Kernel → Bool
shell_missing k = (k.pcb_counter 0 == 0) || ((k.pcb_counter 1 == 0) || (k.pcb_counter 2 == 0))

abbrev pub next_term : Kernel → Kernel
next_term k = record k { running_term = k.running_term % 3 + 1 }

unfoldable pub save_context : Kernel → Registers → Kernel
save_context k r =
    let p = k.current_pcb_pointer in
    record k {
      pcb = update k.pcb p (record (k.pcb p) { current_ebp = r.ebp; current_esp = r.esp });
    }

abbrev pub kernel_ds : ℕ
kernel_ds = 0x18

-- `page_directory[PROG_IMG].pd_mb.val = 0` stands before map_program.
unfoldable pub map_next : Kernel → ℕ → Kernel
unfolding save_context
map_next k next =
    let pid = (k.pcb next).pid in
    record k {
      current_pcb_pointer = next;
      esp0 = 0x800000 - 0x2000 * (pid - 1) - 4;
      ss0 = kernel_ds;
      paging =
          map_program
            (record (k.paging) { page_directory = update k.paging.page_directory 32 (of_val 0) })
            pid;
    }

-- The second half of the scheduler, up to the switch of the stack
unfoldable pub switch_state : Placement → Kernel → Registers → Kernel
unfolding map_next
switch_state a k r =
    let k' : Kernel = record (save_context k r) {
      paging = map_video a k.display_term k.running_term k.paging;
    } in
    map_next k' (k'.terminal k'.running_term).running_pcb

abbrev pub context : Pcb → Registers
context p = record { ebp = p.current_ebp; esp = p.current_esp }

unfoldable pub switch_process : Placement → Kernel → Registers → Scheduled
switch_process a k r =
    let last = switch_state a k r in switched (context (last.pcb last.current_pcb_pointer)) last

unfoldable pub scheduler : Frame → Kernel → Registers → Scheduled
unfolding switch_process
scheduler f k r =
    let k' = next_term k in
    if shell_missing k'
    then executed (sys_execute f.locals f.execute.ebp f.execute.esp (save_context k' r) f.shell)
    else switch_process f.placement k' r

-- PIT_OSCILLATOR_FREQ, for 100 interrupts in a second
abbrev pub oscillator_freq : ℕ
oscillator_freq = 1193180 / 100 + 1

unfoldable pub pit_init : Pic → Pic × List Event
pit_init p =
    let (p', enabled) = enable_irq p 0 in
    (
      p',
      save_flags
          ∷ cli
          ∷ outb 0x36 0x43
          ∷ outb (oscillator_freq % 256) 0x40
          ∷ outb (oscillator_freq / 2 ^ 8) 0x40
          ∷ sti
          ∷ restore_flags
          ∷ enabled,
    )

unfoldable pub pit_begin : Kernel → Kernel
pit_begin k = record k { interrupts_on = false; ports = k.ports ++ send_eoi 0 }

-- `sti`, in the process that is resumed, which left in the same place, or where sys_execute returns
unfoldable pub pit_end : Scheduled → Scheduled
pit_end (executed (refused r k)) = executed (refused r (record k { interrupts_on = true }))
pit_end (executed (started eip k)) = executed (started eip k)
pit_end (executed endless) = executed endless
pit_end (executed overran) = executed overran
pit_end (switched r k) = switched r (record k { interrupts_on = true })

unfoldable pub pit_interrupt_handler : Frame → Kernel → Registers → Scheduled
unfolding scheduler pit_begin pit_end
pit_interrupt_handler f k r = pit_end (scheduler f (pit_begin k) r)
