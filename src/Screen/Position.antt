-- ===== src/Screen/Position.antt =====
-- The position on the screen stays on the screen, and the display's cursor follows it.
use unix_operation_system.Prelude.{ℕ, ◌+◌, ◌*◌, ◌<◌, ◌≡◌, arith, List, [], ◌∷◌}
use unix_operation_system.Screen.{
  Screen, num_cols, num_rows, clear, putc, putc_color, putc_advanced, putc_background, backspace,
  switch_screen, puts, attrib,
}

-- The position of the displayed terminal is on the screen, and the cursor is there.
pub record IsPlaced (s : Screen) : Type 0 where
  pub col : s.screen_x < num_cols
  pub row : s.screen_y < num_rows
  pub shown : s.cursor ≡ num_cols * s.screen_y + s.screen_x

-- So are the positions that the terminals in the background have.
pub record IsValid (s : Screen) : Type 0 where
  pub placed : IsPlaced s
  pub cols : (t : ℕ) → s.screen_x_arr t < num_cols
  pub rows : (t : ℕ) → s.screen_y_arr t < num_rows

clear-IsValid : {s : Screen} → IsValid s → IsValid (clear s)
unfolding clear
clear-IsValid v = ground arith

pub putc-IsValid : {s : Screen} (c : ℕ) → IsValid s → IsValid (putc s c)
unfolding putc
putc-IsValid c v = record {
  placed = ground (arith, v.placed);
  cols = λ t. ground (arith, v.cols t);
  rows = λ t. ground (arith, v.rows t);
}

putc_color-IsValid : {s : Screen} (c color : ℕ) → IsValid s → IsValid (putc_color s c color)
unfolding putc_color
putc_color-IsValid c color v = record {
  placed = ground (arith, v.placed);
  cols = λ t. ground (arith, v.cols t);
  rows = λ t. ground (arith, v.rows t);
}

putc_background-IsValid : {s : Screen} (c t : ℕ) → IsValid s → IsValid (putc_background s c t)
unfolding putc_background
putc_background-IsValid c t v = record {
  placed = ground (arith, v.placed);
  cols = λ u. ground (arith, v.cols u, v.cols t);
  rows = λ u. ground (arith, v.rows u, v.rows t);
}

backspace-IsValid : {s : Screen} → IsValid s → IsValid (backspace s)
unfolding backspace
backspace-IsValid v = record {
  placed = ground (arith, v.placed);
  cols = λ t. ground (arith, v.cols t);
  rows = λ t. ground (arith, v.rows t);
}

switch_screen-IsValid :
    {s : Screen} (prev next : ℕ) → IsValid s → IsValid (switch_screen s prev next)
unfolding switch_screen
switch_screen-IsValid prev next v = record {
  placed = ground (arith, v.placed, v.cols next, v.rows next);
  cols = λ t. ground (arith, v.cols t, v.placed);
  rows = λ t. ground (arith, v.rows t, v.placed);
}

pub puts-IsValid : {s : Screen} (cs : List ℕ) → IsValid s → IsValid (puts s cs)
unfolding puts
puts-IsValid [] v = v
puts-IsValid {s} (c ∷ cs) v = puts-IsValid {s = putc s c} cs (putc-IsValid c v)

-- What the rest of the kernel does to the screen
pub data Op : Type 0 where
  clear_op backspace_op : Op
  putc_op advanced_op : ℕ → Op
  color_op background_op switch_op : ℕ → ℕ → Op

pub run : Op → Screen → Screen
run clear_op s = clear s
run backspace_op s = backspace s
run (putc_op c) s = putc s c
run (advanced_op c) s = putc_advanced s c
run (color_op c color) s = putc_color s c color
run (background_op c t) s = putc_background s c t
run (switch_op prev next) s = switch_screen s prev next

-- Every operation on the screen keeps the positions of all terminals within the 80 columns and 25
-- rows, and leaves the display's cursor where the next character goes, if both were so before.
pub run-IsValid : {s : Screen} (op : Op) → IsValid s → IsValid (run op s)
unfolding run putc_advanced
run-IsValid clear_op v = clear-IsValid v
run-IsValid backspace_op v = backspace-IsValid v
run-IsValid (putc_op c) v = putc-IsValid c v
run-IsValid (advanced_op c) v = putc_color-IsValid c attrib v
run-IsValid (color_op c color) v = putc_color-IsValid c color v
run-IsValid (background_op c t) v = putc_background-IsValid c t v
run-IsValid (switch_op prev next) v = switch_screen-IsValid prev next v
