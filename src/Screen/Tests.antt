-- ===== src/Screen/Tests.antt =====
-- The screen of the sample machine
use unix_operation_system.Prelude.{refl, arith}
use unix_operation_system.Sample.{screen}
use unix_operation_system.Screen.{Screen, video, scroll_page}
use unix_operation_system.Screen.Scroll.{Scrolled, scroll_page-Scrolled}
use unix_operation_system.Screen.Position.{IsValid, background_op, run, run-IsValid}

scroll_page-Scrolled_example : Scrolled video (λ p. p) (scroll_page video (λ p. p))
scroll_page-Scrolled_example = scroll_page-Scrolled video (λ p. p)

screen-IsValid : IsValid record screen { screen_x_arr = λ t. 79; screen_y_arr = λ t. 24 }
screen-IsValid = record {
  placed = record { col = omega arith; row = omega arith; shown = refl };
  cols = λ t. omega arith;
  rows = λ t. omega arith;
}

run-IsValid_example :
    IsValid
      (run (background_op b'x' 2) record screen { screen_x_arr = λ t. 79; screen_y_arr = λ t. 24 })
run-IsValid_example = run-IsValid (background_op b'x' 2) screen-IsValid

-- The last cell of the page is next.
abbrev full : Screen
full = record screen { screen_x = 79; screen_y = 24; cursor = 1999 }
