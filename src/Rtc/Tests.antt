-- ===== src/Rtc/Tests.antt =====
-- The clock of the sample machine
use unix_operation_system.Prelude.{refl, arith, List, [], ◌∷◌}
use unix_operation_system.Prelude.Int.{pos}
use unix_operation_system.Sample.{rtc}
use unix_operation_system.Rtc.{Step, interrupt, wrote, rtc_read}
use unix_operation_system.Rtc.Wait.{Released, rtc_read-Released}

-- Between two interrupts, a process of another terminal sets its rate.
abbrev steps : List Step
steps = interrupt ∷ wrote 2 64 ∷ interrupt ∷ []

rtc_read-Released_example : Released rtc 1 (rtc_read steps rtc 1 (pos 2) 64)
rtc_read-Released_example =
    rtc_read-Released steps rtc 1 (pos 2) 64 (omega arith, tt)
      record { one = omega arith; three = omega arith; bound = omega arith } (omega arith) refl refl
      (omega arith)
