-- ===== src/Start.antt =====
-- The start of the kernel: entry of student-distrib/kernel.c, with the segment descriptors of
-- student-distrib/x86_desc.h and the start screen of student-distrib/game/MentOS.c.
pub mod Descriptors
pub mod Shown
pub mod Up
pub mod Shells
mod Tests
use Prim.Native.String.{String}
use unix_operation_system.Prelude.{
  ℕ, zero, suc, ◌+◌, ◌-◌, ◌*◌, ◌/◌, ◌%◌, ◌^◌, Bool, true, not, ◌&&◌, Option, none, some, ◌>>=◌,
  List, [], ◌∷◌, ◌++◌, ltb, ◌==◌, bit_and, if◌then◌else◌,
}
use unix_operation_system.Prelude.Int.{signed8, to_u32}
use unix_operation_system.Memory.{Memory, word32, max_rounds}
use unix_operation_system.Hardware.{Event, sti}
use unix_operation_system.Screen.{Screen, clear}
use unix_operation_system.Printf.{Arg, word, text, printf}
use unix_operation_system.Paging.{Placement, paging_init}
use unix_operation_system.Pic.{Pic, enable_irq, i8259_init}
use unix_operation_system.Rtc.{Rtc, rtc_init}
use unix_operation_system.State.{Kernel}
use unix_operation_system.Keyboard.{reset_keyboard_buffer}
use unix_operation_system.Terminal.{terminal_init}
use unix_operation_system.Scheduler.{pit_init, kernel_ds}

-- `seg_desc_t`
pub record SegDesc : Type 0 where
  pub seg_lim_15_00 : ℕ
  pub base_15_00 : ℕ
  pub base_23_16 : ℕ
  pub type : ℕ
  pub sys : ℕ
  pub dpl : ℕ
  pub present : ℕ
  pub seg_lim_19_16 : ℕ
  pub avail : ℕ
  pub reserved : ℕ
  pub opsize : ℕ
  pub granularity : ℕ
  pub base_31_24 : ℕ

-- SET_LDT_PARAMS and SET_TSS_PARAMS, which are the same
unfoldable pub set_params : SegDesc → ℕ → ℕ → SegDesc
set_params d addr lim = record d {
  base_31_24 = addr / 2 ^ 24 % 2 ^ 8;
  base_23_16 = addr / 2 ^ 16 % 2 ^ 8;
  base_15_00 = addr % 2 ^ 16;
  seg_lim_19_16 = lim / 2 ^ 16 % 2 ^ 4;
  seg_lim_15_00 = lim % 2 ^ 16;
}

abbrev pub kernel_tss : ℕ
kernel_tss = 0x30

abbrev pub kernel_ldt : ℕ
kernel_ldt = 0x38

-- The local of entry for the LDT, whatever was in it before
unfoldable pub the_ldt_desc : SegDesc → ℕ → ℕ → SegDesc
the_ldt_desc d ldt ldt_size =
    let fixed = record d {
      granularity = 0;
      opsize = 1;
      reserved = 0;
      avail = 0;
      present = 1;
      dpl = 0;
      sys = 0;
      type = 2;
    } in
    set_params fixed ldt ldt_size

-- The one for the TSS; the limit from TSS_SIZE is overwritten.
unfoldable pub the_tss_desc : SegDesc → ℕ → ℕ → SegDesc
the_tss_desc d tss tss_size =
    let fixed = record d {
      granularity = 0;
      opsize = 0;
      reserved = 0;
      avail = 0;
      seg_lim_19_16 = 0;
      present = 1;
      dpl = 0;
      sys = 0;
      type = 9;
      seg_lim_15_00 = 104;
    } in
    set_params fixed tss tss_size

-- What the boot loader tells, `multiboot_info_t`, with the text of the command line
pub record MultibootInfo : Type 0 where
  pub flags : ℕ
  pub mem_lower : ℕ
  pub mem_upper : ℕ
  pub boot_device : ℕ
  pub cmdline : List ℕ
  pub mods_count : ℕ
  pub mods_addr : ℕ
  pub elf_num : ℕ
  pub elf_size : ℕ
  pub elf_addr : ℕ
  pub elf_shndx : ℕ
  pub mmap_length : ℕ
  pub mmap_addr : ℕ

-- MULTIBOOT_BOOTLOADER_MAGIC
abbrev pub multiboot_magic : ℕ
multiboot_magic = 0x2BADB002

unfoldable pub check_flag : ℕ → ℕ → Bool
check_flag flags bit = not (bit_and flags (2 ^ bit) == 0)

-- The loop over the first bytes of a module, `n` rounds before its bound
unfoldable pub print_bytes : ℕ → Memory → ℕ → Screen → Screen
print_bytes zero m a s = s
print_bytes (suc n) m a s =
    print_bytes n m (a + 1) (printf s "0x%x " (word (to_u32 (signed8 (m a))) ∷ []))

-- The loop over the modules: their structures of 16 bytes are at `at`.
unfoldable pub print_modules : ℕ → Memory → ℕ → ℕ → Screen → Screen
print_modules zero m mod_count at s = s
print_modules (suc n) m mod_count at s =
    let start = word32 m at in
    let s1 = printf s "Module %d loaded at address: 0x%#x\n" (word mod_count ∷ word start ∷ []) in
    let s2 =
      printf s1 "Module %d ends at address: 0x%#x\n"
        (word mod_count ∷ word (word32 m (at + 4)) ∷ []) in
    let s3 = printf s2 "First few bytes of module:\n" [] in
    print_modules n m (mod_count + 1) (at + 16) (printf (print_bytes 16 m start s3) "\n" [])

-- The loop over the memory map up to `end`, at most `f` rounds. Addresses have 32 bits: a step that goes
-- behind the last one goes on at 0.
unfoldable pub print_map : ℕ → Memory → ℕ → ℕ → Screen → Option Screen
print_map zero m mmap end s = none
print_map (suc f) m mmap end s =
    let s' =
      printf s "    size = 0x%x, base_addr = 0x%#x%#x\n    type = 0x%x,  length    = 0x%#x%#x\n" (
        word (word32 m mmap)
        ∷ word (word32 m (mmap + 8))
        ∷ word (word32 m (mmap + 4))
        ∷ word (word32 m (mmap + 20))
        ∷ word (word32 m (mmap + 16))
        ∷ word (word32 m (mmap + 12))
        ∷ []) in
    let rest = print_map f m ((mmap + word32 m mmap + 4) % 2 ^ 32) end s' in
    if ltb mmap end then rest else some s

-- What entry prints before it looks at bits 4 and 5
unfoldable pub print_first : MultibootInfo → Memory → Screen → Screen
print_first b m s =
    let s1 = printf s "flags = 0x%#x\n" (word b.flags ∷ []) in
    let s2 =
      if check_flag b.flags 0
      then printf s1 "mem_lower = %uKB, mem_upper = %uKB\n"
          (word b.mem_lower ∷ word b.mem_upper ∷ [])
      else s1 in
    let s3 =
      if check_flag b.flags 1
      then printf s2 "boot_device = 0x%#x\n" (word b.boot_device ∷ [])
      else s2 in
    let s4 =
      if check_flag b.flags 2 then printf s3 "cmdline = %s\n" (text b.cmdline ∷ []) else s3 in
    if check_flag b.flags 3 then print_modules b.mods_count m 0 b.mods_addr s4 else s4

-- What it prints behind, unless the loop does not end
unfoldable pub print_second : MultibootInfo → Memory → Screen → Option Screen
print_second b m s =
    let s1 =
      if check_flag b.flags 5
      then printf s "elf_sec: num = %u, size = 0x%#x, addr = 0x%#x, shndx = 0x%#x\n"
          (word b.elf_num ∷ word b.elf_size ∷ word b.elf_addr ∷ word b.elf_shndx ∷ [])
      else s in
    if check_flag b.flags 6
    then print_map max_rounds m b.mmap_addr ((b.mmap_addr + b.mmap_length) % 2 ^ 32) (
        printf s1 "mmap_addr = 0x%#x, mmap_length = 0x%x\n"
          (word b.mmap_addr ∷ word b.mmap_length ∷ []))
    else some s1

-- Lines printed one after the other
unfoldable pub print_lines : List String → Screen → Screen
print_lines [] s = s
print_lines (l ∷ ls) s = print_lines ls (printf s l [])

pub ui_aligater : List String
ui_aligater =
    "        :::   :::   :::::::::: ::::    ::: ::::::::::: ::::::::   ::::::::\n"
    ∷ "      :+:+: :+:+:  :+:        :+:+:   :+:     :+:    :+:    :+: :+:    :+: \n"
    ∷ "    +:+ +:+:+ +:+ +:+        :+:+:+  +:+     +:+    +:+    +:+ +:+         \n"
    ∷ "   +#+  +:+  +#+ +#++:++#   +#+ +:+ +#+     +#+    +#+    +:+ +#++:++#++   \n"
    ∷ "  +#+       +#+ +#+        +#+  +#+#+#     +#+    +#+    +#+        +#+    \n"
    ∷ " #+#       #+# #+#        #+#   #+#+#     #+#    #+#    #+# #+#    #+#     \n"
    ∷ "###       ### ########## ###    ####     ###     ########   ######## \n" ∷ []

pub ui_author : List String
ui_author =
    "\n- Author: Gabriel Gao, Tim Zhao, Tony Wang, Jerry Wang\n"
    ∷ "- Created Time: 15 October - 4th December\n" ∷ []

-- UI_START
unfoldable pub ui_start : Screen → Screen
ui_start s =
    print_lines
      (ui_aligater
        ++ (ui_author
            ++ ("\n\n Starting the MentOS...\n" ∷ "Welcome to MentOS!\n\n" ∷ "Starting 391 Shell\n"
                ∷ "391OS> " ∷ [])))
      s

-- The kernel with what only its start sets: the masks of the interrupt controller, the two segment
-- descriptors, and the selectors of the LDT, of the LDT in the TSS, and of the TSS
pub record Machine : Type 0 where
  pub kernel : Kernel
  pub pic : Pic
  pub ldt_desc_ptr : SegDesc
  pub tss_desc_ptr : SegDesc
  pub ldt_register : ℕ
  pub ldt_segment_selector : ℕ
  pub task_register : ℕ

-- What the linker, the stack and the clock's registers give
pub record Surroundings : Type 0 where
  pub placement : Placement
  pub local : SegDesc
  pub ldt : ℕ
  pub ldt_size : ℕ
  pub tss : ℕ
  pub tss_size : ℕ
  pub prev_a : ℕ
  pub prev_b : ℕ

-- The descriptors, and the kernel's stack in the TSS
unfoldable pub set_segments : Surroundings → Kernel → Pic → Machine
set_segments e k p = record {
  kernel = record k { ss0 = kernel_ds; esp0 = 0x800000 };
  pic = p;
  ldt_desc_ptr = the_ldt_desc e.local e.ldt e.ldt_size;
  tss_desc_ptr = the_tss_desc e.local e.tss e.tss_size;
  ldt_register = kernel_ldt;
  ldt_segment_selector = kernel_ldt;
  task_register = kernel_tss;
}

-- `outb` and flag instructions of a part, behind those before
unfoldable pub with_events : Kernel → List Event → Kernel
with_events k es = record k { ports = k.ports ++ es }

-- enable_irq, for a machine
unfoldable pub unmask : ℕ → Machine → Machine
unmask irq m =
    let (p, es) = enable_irq m.pic irq in record m { pic = p; kernel = with_events m.kernel es }

-- file_system_init, whose other pointers follow from this one
unfoldable pub file_system_init : ℕ → Machine → Machine
file_system_init fs_start m = record m { kernel = record (m.kernel) { boot_block_ptr = fs_start } }

unfoldable pub start_controller : Machine → Machine
start_controller m =
    let (p, es) = i8259_init in record m { pic = p; kernel = with_events m.kernel es }

unfoldable pub start_paging : Placement → Machine → Machine
start_paging a m = record m {
  kernel = record (m.kernel) { paging = paging_init a m.kernel.paging };
}

-- rtc_init with its enable_irq
unfoldable pub start_clock : ℕ → ℕ → Machine → Option Machine
start_clock prev_a prev_b m = do
  (r, es) ← rtc_init m.kernel.rtc prev_a prev_b
  some (unmask 8 (record m { kernel = with_events (record (m.kernel) { rtc = r }) es }))

unfoldable pub keyboard_init : Machine → Machine
keyboard_init m =
    let m' = unmask 1 m in
    record m' {
      kernel = record (m'.kernel) { keyboard = reset_keyboard_buffer m'.kernel.keyboard };
    }

-- clear and UI_START
unfoldable pub start_screen : Machine → Machine
start_screen m = record m {
  kernel = record (m.kernel) { screen = ui_start (clear m.kernel.screen) };
}

unfoldable pub start_timer : Machine → Machine
start_timer m =
    let (p, es) = pit_init m.pic in record m { pic = p; kernel = with_events m.kernel es }

-- What entry does behind its messages
unfoldable pub initialise : Surroundings → ℕ → Machine → Option Machine
initialise e fs_start m = do
  clock ←
      start_clock e.prev_a e.prev_b
        (start_paging e.placement (start_controller (file_system_init fs_start m)))
  let devices = keyboard_init clock
  let shown = start_screen (record devices { kernel = terminal_init devices.kernel })
  let m' = start_timer shown
  some (record m' { kernel = record (with_events m'.kernel (sti ∷ [])) { interrupts_on = true } })

-- How entry ends: it returns to the boot code, which halts, with a message on the screen; or the
-- machine waits for interrupts. A loop that does not end is `endless`.
pub data Booted : Type 0 where
  returned : Kernel → Booted
  waiting : Machine → Booted
  endless : Booted

unfoldable pub booted_as : Option Machine → Booted
booted_as none = endless
booted_as (some m) = waiting m

-- What follows once all is printed
unfoldable pub go_on : Surroundings → MultibootInfo → Kernel → Pic → Option Screen → Booted
go_on e b k p none = endless
go_on e b k p (some s) =
    booted_as
      (initialise e (word32 k.memory b.mods_addr) (set_segments e (record k { screen = s }) p))

unfoldable pub entry : Surroundings → ℕ → MultibootInfo → Kernel → Pic → Booted
entry e magic b k p =
    let cleared = clear k.screen in
    let first = print_first b k.memory cleared in
    if not (magic == multiboot_magic)
    then returned
        (record k { screen = printf cleared "Invalid magic number: 0x%#x\n" (word magic ∷ []) })
    else if check_flag b.flags 4 && check_flag b.flags 5
    then returned (record k { screen = printf first "Both bits 4 and 5 are set.\n" [] })
    else go_on e b k p (print_second b k.memory first)
