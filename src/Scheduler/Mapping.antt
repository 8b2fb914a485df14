-- ===== src/Scheduler/Mapping.antt =====
-- The pages and the stack of the process that is switched to: student-distrib/scheduling.c.
use unix_operation_system.Prelude.{
  ℕ, ◌+◌, ◌-◌, ◌*◌, ◌/◌, ◌<◌, ◌≡◌, ◌≢◌, refl, ◌∙◌, arith, Bool, some, true, false, ne→==, update,
}
use unix_operation_system.State.{Kernel}
use unix_operation_system.Paging.{Placement, Paging, of_val, map_video}
use unix_operation_system.Paging.Translation.{table_on, walk, translate}
use unix_operation_system.Paging.Mapped.{
  program_start, video_start, text_page, map_program-translate, map_program-others,
  map_video-translate,
}
use unix_operation_system.Scheduler.{
  Registers, Frame, switched, next_term, save_context, map_next, switch_state, switch_process,
  scheduler, shell_missing, kernel_ds, pit_begin, pit_end, pit_interrupt_handler,
}
use unix_operation_system.Scheduler.Switching.{running}
use unix_operation_system.Scheduler.Interrupts.{same_end}

-- The block and the number of a process agree.
abbrev pub Numbered : Kernel → Type 0
Numbered k = (p : ℕ) → (k.pcb p).pid ≡ p

-- The machine as the process in slot `p`, of terminal `t`, needs it.
pub record Mapped (a : Placement) (p t : ℕ) (k : Kernel) : Type 0 where
  pub program :
      (user : Bool) (o : ℕ)
      → o < 0x400000
      → translate a k.paging user (program_start + o) ≡ some (0x400000 * (p + 1) + o)
  pub video :
      (user : Bool) (o : ℕ)
      → o < 0x1000
      → translate a k.paging user (video_start + o) ≡ some (text_page k.display_term t + o)
  pub stack : k.esp0 ≡ 0x800000 - 0x2000 * (p - 1) - 4
  pub segment : k.ss0 ≡ kernel_ds

abbrev clear_program : Paging → Paging
clear_program g = record g { page_directory = update g.page_directory 32 (of_val 0) }

clear_program-others :
    (a : Placement) (g : Paging) (user : Bool) (v : ℕ)
    → v / 0x400000 ≢ 32
    → translate a (clear_program g) user v ≡ translate a g user v
unfolding translate walk table_on
clear_program-others a g user v h = rw (ne→== (v / 0x400000) 32 h) refl

save_context-Numbered : (k : Kernel) (r : Registers) → Numbered k → Numbered (save_context k r)
unfolding save_context
save_context-Numbered k r n p = ground (arith, n p)

switch_state-Mapped :
    (a : Placement) (k : Kernel) (r : Registers)
    → Numbered k
    → a.page_table_page ≢ a.vid_page_table_page
    → Mapped a (running k k.running_term) k.running_term (switch_state a k r)
unfolding switch_state map_next
switch_state-Mapped a k r n differ =
    let g = clear_program (map_video a k.display_term k.running_term k.paging) in
    let next = running (save_context k r) k.running_term in
    let number = save_context-Numbered k r n next in
    let pid = ((save_context k r).pcb next).pid in
    record {
      program = λ user o lt. map_program-translate a g pid user o lt ∙ rw number refl;
      video = λ user o lt.
          map_program-others a g pid user (video_start + o) (omega arith)
          ∙ clear_program-others a (map_video a k.display_term k.running_term k.paging) user
              (video_start + o) (omega arith)
          ∙ map_video-translate a k.display_term k.running_term k.paging user o differ lt;
      stack = rw number refl;
      segment = refl;
    }

switch_state-current :
    (a : Placement) (k : Kernel) (r : Registers)
    → ((switch_state a k r).current_pcb_pointer ≡ running k k.running_term)
      × ((switch_state a k r).running_term ≡ k.running_term)
unfolding switch_state map_next save_context
switch_state-current a k r = (refl, refl)

pit_begin-Numbered : (k : Kernel) → Numbered k → Numbered (next_term (pit_begin k))
unfolding pit_begin
pit_begin-Numbered k n = n

-- The process that runs has its pages and its stack.
abbrev pub CurrentMapped : Placement → Kernel → Type 0
CurrentMapped a k = Mapped a k.current_pcb_pointer k.running_term k

with_interrupts-Mapped :
    (a : Placement) (k : Kernel)
    → CurrentMapped a k
    → CurrentMapped a (record k { interrupts_on = true })
with_interrupts-Mapped a k m = record {
  program = m.program;
  video = m.video;
  stack = m.stack;
  segment = m.segment;
}

switched-Mapped :
    (a : Placement) (k : Kernel) (r r' : Registers) (k' : Kernel)
    → Numbered k
    → a.page_table_page ≢ a.vid_page_table_page
    → pit_end (switch_process a k r) ≡ switched r' k'
    → CurrentMapped a k'
unfolding pit_end switch_process switch_state
switched-Mapped a k r r' k' n differ e =
    let now = switch_state-current a k r in
    let m = switch_state-Mapped a k r n differ in
    rw (← (same_end e).1) (with_interrupts-Mapped a (switch_state a k r) (rw (now.0, now.1) m))

-- After every switch that the timer makes while the three shells run, the processor finds at the
-- addresses of the program the large page of the process that goes on, and at the video page of
-- programs the display if its terminal is displayed, else the page kept for this terminal; a call of
-- the kernel from it uses its own stack. Blocks must have the numbers of their slots, and the two page
-- tables must not be the same.
pub pit_interrupt_handler-Mapped :
    (f : Frame) (k : Kernel) (r r' : Registers) (k' : Kernel)
    → shell_missing k ≡ false
    → Numbered k
    → f.placement.page_table_page ≢ f.placement.vid_page_table_page
    → pit_interrupt_handler f k r ≡ switched r' k'
    → CurrentMapped f.placement k'
unfolding pit_interrupt_handler scheduler pit_begin
pit_interrupt_handler-Mapped f k r r' k' shells n differ e =
    switched-Mapped f.placement (next_term (pit_begin k)) r r' k' (pit_begin-Numbered k n) differ
      (rw shells at e)
