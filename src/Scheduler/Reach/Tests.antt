-- ===== src/Scheduler/Reach/Tests.antt =====
-- A machine with the three shells and a child of the third
use unix_operation_system.Prelude.{
  ℕ, ◌≡◌, refl, arith, [], ◌∷◌, ◌++◌, ◌==◌, List, ltb, if◌then◌else◌, Bool-cases, inl, inr,
}
use unix_operation_system.Sample.{frame, registers, terminal, table-IsValid}
use unix_operation_system.State.{Kernel}
use unix_operation_system.Syscall.Safety.{Safe}
use unix_operation_system.Process.{sys_halt}
use unix_operation_system.Process.Halt.{EndsIn}
use unix_operation_system.Scheduler.Boot.{Booting}
use unix_operation_system.Scheduler.Switching.{Ready, waiting, pit_interrupt_handler-Switched}
use unix_operation_system.Scheduler.Stacks.{Family, base, next}
use unix_operation_system.Scheduler.Nesting.{pop}
use unix_operation_system.Scheduler.Reach.{
  Reach, booted, timer, works, Reach-Family, Reach-Ready, sys_halt-pop,
}
use unix_operation_system.Scheduler.Turns.{rest, turn, work, Turns-queue}
use unix_operation_system.Scheduler.Works.{clock, clock_interrupt}
use unix_operation_system.Scheduler.{Registers, switched, pit_interrupt_handler}
use unix_operation_system.Scheduler.Tests.{shells}

abbrev three_shells : Kernel
three_shells = record shells { running_term = 3; current_pcb_pointer = 3 }

three_shells-Booting : Booting 3 three_shells
three_shells-Booting = record {
  term = refl;
  used = λ i h. ground (arith, h);
  free = λ i lo hi. ground (arith, lo);
  own = λ t lo hi. refl;
  current = λ h. refl;
  number = λ t lo hi. refl;
  tables = λ t lo hi. table-IsValid;
}

Reach-Family_example :
    (s : ℕ → List ℕ) × Family three_shells s × Ready three_shells × Safe three_shells
Reach-Family_example = Reach-Family frame three_shells (booted three_shells-Booting)

-- The shell of the third terminal has started the process 4.
abbrev nested : Kernel
nested = record three_shells {
  pcb_counter = λ i. if ltb i 4 then 1 else 0;
  terminal = λ t. record (terminal t) { running_pcb = if t == 3 then 4 else t };
  current_pcb_pointer = 4;
}

abbrev stacks : ℕ → List ℕ
stacks t = if t == 3 then 4 ∷ 3 ∷ [] else t ∷ []

nested-Family : Family nested stacks
nested-Family = record {
  low = omega arith;
  high = omega arith;
  current = refl;
  stack = λ t lo hi. elim (Bool-cases (t == 3)) [
    | inl e ↦
        let is : 3 ≡ t = ground (arith, e) in
        rw (← is) (record {
          below = 3 ∷ [];
          top = refl;
          chain = next 4 3 [] refl (base 3);
          alive = λ p h. record {
            some_slot = ground (arith, h);
            slot = ground (arith, h);
            number = refl;
            table = table-IsValid;
          };
          different = refl;
          shell = refl;
        })
    | inr e ↦ rw e (record {
      below = [];
      top = rw e refl;
      chain = base t;
      alive = λ p h. record {
        some_slot = ground (arith, h);
        slot = ground (arith, h, hi);
        number = refl;
        table = table-IsValid;
      };
      different = refl;
      shell = ground arith;
    })
  ];
  apart = λ t t' p lo hi lo' hi' ne h. ground (arith, h, ne, hi, hi');
}

sys_halt-pop_example : (end : Kernel) × EndsIn end (sys_halt nested 0) × Family end (pop 3 stacks)
sys_halt-pop_example = sys_halt-pop nested 0 stacks nested-Family (omega arith)

-- The timer, then the clock, then the timer again
three_shells-Ready : Ready three_shells
three_shells-Ready = Reach-Ready frame three_shells (booted three_shells-Booting)

abbrev first :
    (r' : Registers) × (k' : Kernel) × (pit_interrupt_handler frame three_shells registers
      ≡ switched r' k')
first =
    let s = pit_interrupt_handler-Switched frame three_shells registers three_shells-Ready in
    (s.0, s.1, s.2)

ticked : Reach frame (clock_interrupt first.1)
ticked = works (timer registers first.0 (booted three_shells-Booting) first.2) (clock first.1)

abbrev second :
    (r' : Registers) × (k' : Kernel) × (pit_interrupt_handler frame
        (clock_interrupt first.1)
        registers
      ≡ switched r' k')
second =
    let s =
      pit_interrupt_handler-Switched frame (clock_interrupt first.1) registers
        (Reach-Ready frame (clock_interrupt first.1) ticked) in
    (s.0, s.1, s.2)

Turns-queue_example :
    ((first.0 ∷ second.0 ∷ []) ++ waiting second.1
      ≡ waiting three_shells ++ (registers ∷ registers ∷ []))
    × Ready second.1
Turns-queue_example =
    Turns-queue frame (booted three_shells-Booting)
      (turn first.2 (work (clock first.1) (turn second.2 rest)))
