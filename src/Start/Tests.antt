-- ===== src/Start/Tests.antt =====
-- The start of the sample machine
use unix_operation_system.Prelude.{◌≡◌, ◌==◌, if◌then◌else◌, refl, []}
use unix_operation_system.Memory.{Memory}
use unix_operation_system.Sample.{program, screen, kernel, placement}
use unix_operation_system.State.{Kernel}
use unix_operation_system.Pic.{Pic}
use unix_operation_system.Start.{
  SegDesc, Surroundings, MultibootInfo, Machine, waiting, multiboot_magic, entry, initialise,
  booted_as, go_on, print_second, set_segments, with_events, unmask, file_system_init,
  start_controller, start_paging, start_clock, keyboard_init, start_screen, start_timer, ui_start,
  check_flag,
}
use unix_operation_system.Rtc.{rtc_init, rtc_set_freq, log_2, log_loop, not_power_of_two}
use unix_operation_system.Terminal.{terminal_init}
use unix_operation_system.Scheduler.{pit_init}

abbrev local : SegDesc
local = record {
  seg_lim_15_00 = 1;
  base_15_00 = 2;
  base_23_16 = 3;
  type = 4;
  sys = 1;
  dpl = 3;
  present = 0;
  seg_lim_19_16 = 5;
  avail = 1;
  reserved = 1;
  opsize = 0;
  granularity = 1;
  base_31_24 = 6;
}

abbrev surroundings : Surroundings
surroundings = record {
  placement = placement;
  local = local;
  ldt = 0x412345;
  ldt_size = 79;
  tss = 0x423456;
  tss_size = 104;
  prev_a = 0x26;
  prev_b = 0x02;
}

-- One module, with a command line and the amount of memory
abbrev loader : MultibootInfo
loader = record {
  flags = 13;
  mem_lower = 639;
  mem_upper = 64512;
  boot_device = 0;
  cmdline = [];
  mods_count = 1;
  mods_addr = 0x10000;
  elf_num = 0;
  elf_size = 0;
  elf_addr = 0;
  elf_shndx = 0;
  mmap_length = 0;
  mmap_addr = 0;
}

abbrev unstarted : Kernel
unstarted = record kernel {
  screen = record screen { screen_x_arr = λ t. 0; screen_y_arr = λ t. 0 };
  pcb_counter = λ i. 0;
  running_term = 0;
  current_pcb_pointer = 0;
}

abbrev masks : Pic
masks = record { master_mask = 0; slave_mask = 0 }

-- The loader tells of a memory map, too.
abbrev map_loader : MultibootInfo
map_loader = record loader { flags = 77; mmap_length = 24; mmap_addr = 0x500 }

-- A start with an image whose only file stands for the shell: the first module starts at `boot`.
abbrev loaded : Memory
loaded p = if p == 0x10001 then 16 else program p

abbrev programmed : Kernel
programmed = record unstarted { memory = loaded }

machine_up :
    (m : Machine) × (entry surroundings multiboot_magic loader programmed masks ≡ waiting m)
unfolding entry go_on print_second initialise booted_as set_segments with_events unmask
    file_system_init start_controller start_paging start_clock keyboard_init start_screen
    start_timer rtc_init rtc_set_freq log_2 log_loop not_power_of_two terminal_init pit_init
    ui_start check_flag
machine_up = (_, refl)
