-- ===== src/Syscall/Tests.antt =====
-- The calls on descriptors in the sample process
use unix_operation_system.Prelude.{ℕ, ◌≡◌, arith}
use unix_operation_system.Prelude.Int.{ℤ, pos}
use unix_operation_system.Sample.{kernel, buffer}
use unix_operation_system.Sample.{table-IsValid}
use unix_operation_system.Syscall.{current, file_read}
use unix_operation_system.Sample.{placement}
use unix_operation_system.Syscall.Vidmap.{VidmapOutcome, sys_vidmap, sys_vidmap-VidmapOutcome}
use unix_operation_system.Syscall.Calls.{sys_open, sys_close}
use unix_operation_system.Syscall.Table.{IsValid, KeepsValid, calls-KeepValid}
use unix_operation_system.Syscall.Safety.{Safe, calls-Safe}
use unix_operation_system.Syscall.Files.{CanRead, FileRead, readable, file_read-FileRead}

kernel-IsValid : IsValid (current kernel).fd_entry
kernel-IsValid = table-IsValid

calls-Safe_example : Safe kernel
calls-Safe_example = calls-Safe kernel kernel-IsValid

calls-KeepValid_example :
    ((dentry filename : ℕ) → KeepsValid (sys_open kernel dentry filename))
    × ((fd : ℤ) → KeepsValid (sys_close kernel fd))
calls-KeepValid_example = calls-KeepValid kernel kernel-IsValid

kernel-CanRead : CanRead kernel 2 buffer 10
kernel-CanRead = record {
  inode = omega arith;
  before_end = omega arith;
  short = omega arith;
  blocks = λ idx h. ground (arith, h);
  fits = omega arith;
  buffer = omega arith;
  boot = omega arith;
  image = omega arith;
}

file_read-FileRead_example :
    let (count, k') = file_read kernel 2 buffer 10 in
    (count ≡ pos (readable kernel 2 10)) × FileRead kernel 2 buffer 10 k'
file_read-FileRead_example = file_read-FileRead kernel 2 buffer 10 kernel-CanRead

sys_vidmap-VidmapOutcome_example :
    VidmapOutcome placement kernel 0x8048100 (sys_vidmap placement kernel 0x8048100)
sys_vidmap-VidmapOutcome_example =
    sys_vidmap-VidmapOutcome placement kernel 0x8048100 (λ e. absurd (omega arith))
