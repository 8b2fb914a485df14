-- ===== src/Start/Up.antt =====
-- The state in which entry of student-distrib/kernel.c leaves the machine.
use unix_operation_system.Prelude.{
  ℕ, ◌<◌, ◌≡◌, true, false, ◌&&◌, ◌||◌, not, ◌==◌, if◌then◌else◌, Bool,
}
use unix_operation_system.Memory.{word32}
use unix_operation_system.Screen.{Screen, num_cols, num_rows}
use unix_operation_system.Screen.Position.{IsValid}
use unix_operation_system.Paging.{paging_init}
use unix_operation_system.Pic.{Pic}
use unix_operation_system.Pic.Masks
use unix_operation_system.Scheduler.Boot.{Booting}
use unix_operation_system.State.{Kernel}
use unix_operation_system.Start.{
  Surroundings, MultibootInfo, Machine, Booted, waiting, returned, multiboot_magic, check_flag,
}
use unix_operation_system.Start.Descriptors.{Describes}

-- The variables of a kernel that has not run: the positions of all terminals are on the page, no slot
-- is in use, and no terminal runs.
pub record Unstarted (k : Kernel) : Type 0 where
  pub cols : (t : ℕ) → k.screen.screen_x_arr t < num_cols
  pub rows : (t : ℕ) → k.screen.screen_y_arr t < num_rows
  pub no_process : (i : ℕ) → i < 6 → k.pcb_counter i ≡ 0
  pub no_terminal : k.running_term ≡ 0

-- The lines of the interrupt controllers on which devices may interrupt: the timer, the keyboard, the
-- second controller and the clock
abbrev pub open_line : ℕ → Bool
open_line j = (j == 0) || ((j == 1) || ((j == 2) || (j == 8)))

-- The machine when entry waits for interrupts
pub record IsUp (e : Surroundings) (b : MultibootInfo) (k : Kernel) (m : Machine) : Type 0 where
  pub processes : Booting 0 m.kernel
  pub screen : IsValid m.kernel.screen
  pub lines : (j : ℕ) → j < 16 → Masks.masked m.pic j ≡ (if open_line j then 0 else 1)
  pub paging : m.kernel.paging ≡ paging_init e.placement k.paging
  pub image : m.kernel.boot_block_ptr ≡ word32 k.memory b.mods_addr
  pub memory : m.kernel.memory ≡ k.memory
  pub interrupts : m.kernel.interrupts_on ≡ true
  pub stack : m.kernel.esp0 ≡ 0x800000
  pub ldt : Describes e.ldt e.ldt_size 2 m.ldt_desc_ptr
  pub tss : Describes e.tss e.tss_size 9 m.tss_desc_ptr

-- How entry ends: with a refusal that has changed the screen only, or with the machine up
pub data Ended (e : Surroundings) (magic : ℕ) (b : MultibootInfo) (k : Kernel)
    : Booted → Type 0 where
  refused :
      {s : Screen}
      → not (magic == multiboot_magic) || (check_flag b.flags 4 && check_flag b.flags 5) ≡ true
      → IsValid s
      → Ended e magic b k (returned (record k { screen = s }))
  up :
      {m : Machine}
      → magic ≡ multiboot_magic
      → check_flag b.flags 4 && check_flag b.flags 5 ≡ false
      → IsUp e b k m
      → Ended e magic b k (waiting m)
