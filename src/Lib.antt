-- ===== src/Lib.antt =====
-- The kernel of student-distrib, a small Unix-like system for one processor with three terminals, of
-- which one is displayed.
--
-- The kernel's parts share global variables, which State.Kernel gathers in one record; a handler or a
-- system call is a function from the state before to the state after, with its result.
-- * Memory is a function from addresses to bytes; a word is four bytes, the lowest first. Strings,
--   Blocks and Numbers model the library functions of student-distrib/lib.c on it: strlen, strcpy,
--   strncpy, strncmp, strrev, memset, memset_word, memset_dword, memcpy, memmove and itoa. memset and
--   memcpy of the source are loops in assembly by words with byte loops at both ends; Blocks/Words has
--   their instructions, and Blocks the bytes that they write, in order, which the other parts use.
-- * Paging models student-distrib/paging.c and what paging_execute, page_halt and sys_vidmap of
--   student-distrib/syscall.c and scheduler of student-distrib/scheduling.c set in the page directory and
--   the tables: an entry by the fields that the kernel sets. Paging/Translation has the processor's
--   search for an address.
-- * FileSystem models student-distrib/file_system.c: the search of directory entries and read_data.
--   FileSystem/Layout has the structures of file_system.h by their offsets. The operations on open
--   files and directories are in Syscall.
-- * Hardware names what is written to ports; Pic models student-distrib/i8259.c and Rtc
--   student-distrib/devices/RTC.c.
-- * Screen and Printf model the output functions of student-distrib/lib.c: the video memory with the
--   page that is displayed and the page of each terminal, the positions, the cursor, scrolling and
--   printf.
-- * Keyboard models student-distrib/devices/keyboard.c, with switch_vid_page of student-distrib/paging.c.
--   Keyboard/Handler has the interrupt handler, Keyboard/Scancode its table.
-- * Terminal models student-distrib/devices/terminal.c.
-- * Syscall models the descriptor part of student-distrib/syscall.c: Syscall/Calls has sys_open, sys_close,
--   sys_read and sys_write, which call the operations of a device through its table, and Syscall/Vidmap
--   sys_vidmap and the two calls on signals.
-- * Process models find_pid, parse_arg, sys_getargs, sys_halt and, in
--   Process/Execute, sys_execute of student-distrib/syscall.c. sys_execute ends at the jump to the
--   program, or where the copy of a command of 128 characters or more overruns the block of the process. sys_halt ends in a new base shell, which is where its model stops, or with a
--   status and the saved registers in the parent's sys_execute.
-- * Scheduler models student-distrib/scheduling.c and student-distrib/devices/pit.c. The scheduler ends
--   in a call of sys_execute or in the process whose registers it loads. Scheduler/Stacks has the processes
--   of a terminal as a stack, Scheduler/Works what the other interrupts and the calls do, and
--   Scheduler/Reach the states that all of them reach.
-- * Idt models student-distrib/idt.c, with the descriptor of student-distrib/x86_desc.h; Idt/Gates has
--   what the processor does with a descriptor.
-- * Programs models syscalls/ece391support.c. The programs are written over a record of the system calls
--   that they make: syscalls/ece391cat.c and ece391ls.c in Programs/Reading, the tests of
--   syscalls/ece391syserr.c in Programs/SysErr, and syscalls/ece391shell.c in Programs/Shell. What a call
--   must do for cat and ls is in Programs/Pieces, and what the calls of the kernel do in a session of the
--   shell in Programs/Shell/Sessions. Programs/Machine
--   fills the record with the calls of the kernel, behind the checks of
--   student-distrib/linkage/syscall_link.S; a program and the kernel address the same memory there, and no
--   other process runs in between.
-- * Start models entry of student-distrib/kernel.c, with the segment descriptors of
--   student-distrib/x86_desc.h, the boot information of student-distrib/multiboot.h and the start screen
--   of student-distrib/game/MentOS.c. Its end is the loop in which the machine waits for interrupts; Start/Shells
--   goes on from there to the three shells.
-- * Prelude has the tests and numbers that all parts share. A 32-bit word is a natural number below
--   2 ^ 32, with the wrap-around written out; an int32_t is the integer that it stands for. Sample is a
--   small machine on which the results are tried, in the modules called Tests.
--
-- How they interact: an interrupt of the keyboard changes the line buffer and the flag that ends the
-- wait of terminal_read; sys_read and sys_write reach the terminal, the clock and the file system through the
-- table of a descriptor; the terminal writes to the screen or, for a hidden terminal, to its page. An
-- interrupt of the timer calls the scheduler, which starts the shells by sys_execute and then switches
-- between the processes of the terminals; an exception calls sys_halt.
--
-- Loops. A loop over a string has no bound in the source; its model makes at most 2 ^ 32 rounds, more
-- than there are bytes, and is `none` behind them: a string that is shorter than the address space ends
-- before. The loop over the memory map of the boot loader has as many rounds, and its address 32 bits; a
-- map that makes it wrap around may keep it for ever. The loops of terminal_read and rtc_read wait for what other parts do: their
-- models take the list of these steps, and are `none` when the list is over and the wait is not. All
-- other loops have the bound of the source as a counter.
--
-- A pointer to a process control block is the number of its slot, 0 for NULL. A NULL table entry that is
-- called, or a NULL name that is read, is an outcome of its own in Syscall/Calls. A file's name, a
-- buffer and local variables whose address is taken are addresses, given as arguments.
--
-- What the linker and the processor give is an argument: the pages of the two page tables, the addresses
-- of the handlers, and the registers in a function. Two page tables are never the same page.
--
-- Not modelled: the boot code, the assembly of the handlers and of the jumps to and from programs, the
-- kernel's tests, and the other programs.
pub mod Prelude
pub mod Memory
pub mod Paging
pub mod Strings
pub mod Blocks
pub mod Numbers
pub mod FileSystem
pub mod Hardware
pub mod Pic
pub mod Rtc
pub mod Screen
pub mod Printf
pub mod State
pub mod Keyboard
pub mod Terminal
pub mod Syscall
pub mod Process
pub mod Scheduler
pub mod Idt
pub mod Programs
pub mod Start
pub mod Sample
