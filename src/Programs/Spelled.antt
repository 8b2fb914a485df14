-- ===== src/Programs/Spelled.antt =====
-- Where the characters of a text stand that terminal_write of student-distrib/devices/terminal.c puts
-- out, on a page that they do not fill.
use unix_operation_system.Prelude.{
  ℕ, ◌+◌, ◌*◌, ◌≤◌, ◌<◌, ◌≡◌, ◌≢◌, ◌⊎◌, ◌||◌, refl, ◌∙◌, arith, inl, inr, true, false, Bool, List,
  [], ◌∷◌, ◌==◌, if◌then◌else◌, Bool-cases,
}
use unix_operation_system.Memory.{Memory}
use unix_operation_system.Screen.{
  Screen, putc_advanced, putc_color, putc_background, page_of, update_cursor, scroll_up,
}
use unix_operation_system.State.{Kernel}
use unix_operation_system.Terminal.{write_char}
use unix_operation_system.Programs.Printing.{put_text}

-- The running process may print: its terminal is not displayed, or it has two processes, or the
-- keyboard allows it.
pub record CanPrint (k : Kernel) : Type 0 where
  pub some_terminal : 1 ≤ k.running_term
  pub terminal : k.running_term ≤ 3
  pub allowed :
      (k.display_term ≢ k.running_term)
      ⊎ (((k.terminal k.display_term).terminal_process_running ≡ 2) ⊎ (k.keyboard.write_flag ≡ 1))

-- The page of the process that runs: the displayed one, or that of its terminal behind it
abbrev pub own_page : Kernel → ℕ
own_page k = if k.display_term == k.running_term then 0xB8000 else 0xB8000 + 0x1000 * k.running_term

abbrev pub own_col : Kernel → Screen → ℕ
own_col k s = if k.display_term == k.running_term then s.screen_x else s.screen_x_arr k.running_term

abbrev pub own_row : Kernel → Screen → ℕ
own_row k s = if k.display_term == k.running_term then s.screen_y else s.screen_y_arr k.running_term

-- Newline and carriage return
abbrev pub breaks : ℕ → Bool
breaks c = (c == 10) || (c == 13)

-- The position behind a character at column `x` of row `y` of 80 columns
abbrev pub next_col : ℕ → ℕ → ℕ
next_col x c = if breaks c then 0 else if x + 1 == 80 then 0 else x + 1

abbrev pub next_row : ℕ → ℕ → ℕ → ℕ
next_row x y c = if breaks c then y + 1 else if x + 1 == 80 then y + 1 else y

-- The position behind a text
abbrev pub last_col : ℕ → List ℕ → ℕ
last_col x [] = x
last_col x (c ∷ cs) = last_col (next_col x c) cs

abbrev pub last_row : ℕ → ℕ → List ℕ → ℕ
last_row x y [] = y
last_row x y (c ∷ cs) = last_row (next_col x c) (next_row x y c) cs

-- The text stands on a page from column `x` of row `y` on, with the line breaks in it.
abbrev pub Spelled : Memory → ℕ → ℕ → ℕ → List ℕ → Type 0
Spelled m page x y [] = Unit
Spelled m page x y (c ∷ cs) =
    ((breaks c ≡ true) ⊎ (m (page + 2 * (80 * y + x)) ≡ c))
    × Spelled m page (next_col x c) (next_row x y c) cs

-- What one character does
record Put (k : Kernel) (c : ℕ) (s s' : Screen) : Type 0 where
  col : own_col k s' ≡ next_col (own_col k s) c
  row : own_row k s' ≡ next_row (own_col k s) (own_row k s) c
  at : breaks c ≡ false → s'.video_mem (own_page k + 2 * (80 * own_row k s + own_col k s)) ≡ c
  outside :
      (p : ℕ)
      → (p < own_page k + 2 * (80 * own_row k s + own_col k s))
        ⊎ (own_page k + 2 * (80 * own_row k s + own_col k s) + 2 ≤ p)
      → s'.video_mem p ≡ s.video_mem p

module _ (k : Kernel) (c : ℕ) (s : Screen) (can : CanPrint k) (x y : ℕ) (col : own_col k s ≡ x)
    (row : own_row k s ≡ y) (inside : x < 80) (fits : next_row x y c < 25) where
  write_char-shown : k.display_term ≡ k.running_term → write_char k c s ≡ putc_advanced s c
  unfolding write_char
  write_char-shown shown = ground (arith, shown, can.allowed)

  write_char-behind :
      k.display_term ≢ k.running_term → write_char k c s ≡ putc_background s c k.running_term
  unfolding write_char
  write_char-behind hidden = ground (arith, hidden)

  putc_advanced-Put : k.display_term ≡ k.running_term → Put k c s (putc_advanced s c)
  unfolding putc_advanced putc_color update_cursor scroll_up
  putc_advanced-Put shown = record {
    col = ground (arith, shown, col, row, inside, fits);
    row = ground (arith, shown, col, row, inside, fits);
    at = λ plain. ground (arith, shown, col, row, inside, fits, plain);
    outside = λ p out. ground (arith, shown, col, row, inside, fits, out);
  }

  putc_background-Put :
      k.display_term ≢ k.running_term → Put k c s (putc_background s c k.running_term)
  unfolding putc_background page_of
  putc_background-Put hidden = record {
    col = ground (arith, hidden, col, row, inside, fits);
    row = ground (arith, hidden, col, row, inside, fits);
    at = λ plain. ground (arith, hidden, col, row, inside, fits, plain);
    outside = λ p out. ground (arith, hidden, col, row, inside, fits, out);
  }

  write_char-Put : Put k c s (write_char k c s)
  write_char-Put = elim (Bool-cases (k.display_term == k.running_term)) [
    | inl e ↦
        let shown : k.display_term ≡ k.running_term = ground (arith, e) in
        rw (write_char-shown shown) (putc_advanced-Put shown)
    | inr e ↦
        let hidden : k.display_term ≢ k.running_term = ground (arith, e) in
        rw (write_char-behind hidden) (putc_background-Put hidden)
  ]

next_col-lt : (x c : ℕ) → x < 80 → next_col x c < 80
next_col-lt x c h = ground (arith, h)

last_row-ge : (x y : ℕ) (text : List ℕ) → y ≤ last_row x y text
last_row-ge x y [] = omega arith
last_row-ge x y (c ∷ cs) =
    let later = last_row-ge (next_col x c) (next_row x y c) cs in ground (arith, later)

-- The cells are in the order of the positions.
place_lt : (x y c : ℕ) → x < 80 → 80 * y + x < 80 * next_row x y c + next_col x c
place_lt x y c h = ground (arith, h)

last_place-ge :
    (x y : ℕ) (text : List ℕ) → x < 80 → 80 * y + x ≤ 80 * last_row x y text + last_col x text
last_place-ge x y [] h = omega arith
last_place-ge x y (c ∷ cs) h =
    omega (
      arith,
      place_lt x y c h,
      last_place-ge (next_col x c) (next_row x y c) cs (next_col-lt x c h),
    )

-- The text stands on the page from the position on, the position is behind it, and below the old
-- position and from the new one on nothing has changed.
pub record Shown (k : Kernel) (text : List ℕ) (s s' : Screen) : Type 0 where
  pub spelled : Spelled s'.video_mem (own_page k) (own_col k s) (own_row k s) text
  pub col : own_col k s' ≡ last_col (own_col k s) text
  pub row : own_row k s' ≡ last_row (own_col k s) (own_row k s) text
  pub below :
      (p : ℕ)
      → p < own_page k + 2 * (80 * own_row k s + own_col k s)
      → s'.video_mem p ≡ s.video_mem p
  pub above :
      (p : ℕ)
      → own_page k + 2 * (80 * own_row k s' + own_col k s') ≤ p
      → s'.video_mem p ≡ s.video_mem p

-- A text that the process may print and that does not go beyond the last row of its page
pub put_text-Shown :
    (k : Kernel) (text : List ℕ) (s : Screen)
    → CanPrint k
    → own_col k s < 80
    → last_row (own_col k s) (own_row k s) text < 25
    → Shown k text s (put_text k text s)
put_text-Shown k [] s can inside fits = record {
  spelled = tt;
  col = refl;
  row = refl;
  below = λ p h. refl;
  above = λ p h. refl;
}
put_text-Shown k (c ∷ cs) s can inside fits =
    let x = own_col k s in
    let y = own_row k s in
    let late = last_row-ge (next_col x c) (next_row x y c) cs in
    let one = write_char-Put k c s can x y refl refl inside (omega (arith, late, fits)) in
    let s1 = write_char k c s in
    let inside1 : own_col k s1 < 80 = rw one.col (next_col-lt x c inside) in
    let fits1 : last_row (own_col k s1) (own_row k s1) cs < 25 = rw (one.col, one.row) fits in
    let rest = put_text-Shown k cs s1 can inside1 fits1 in
    let start = own_page k + 2 * (80 * y + x) in
    let next : start < own_page k + 2 * (80 * own_row k s1 + own_col k s1) =
      rw (one.col, one.row) (omega (arith, place_lt x y c inside)) in
    let end : 80 * own_row k s1 + own_col k s1
        ≤ 80 * own_row k (put_text k cs s1) + own_col k (put_text k cs s1) =
      rw (rest.col, rest.row) (last_place-ge (own_col k s1) (own_row k s1) cs inside1) in
    let ahead : start + 2 ≤ own_page k + 2 * (80 * own_row k s1 + own_col k s1) =
      rw (one.col, one.row) (omega (arith, place_lt x y c inside)) in
    let first : (breaks c ≡ true) ⊎ ((put_text k cs s1).video_mem start ≡ c) =
      elim (Bool-cases (breaks c)) [
        | inl b ↦ inl b
        | inr plain ↦ inr (rest.below start next ∙ one.at plain)
      ] in
    record {
      spelled = (first, rw (one.col, one.row) at rest.spelled);
      col = rest.col ∙ rw one.col refl;
      row = rest.row ∙ rw (one.col, one.row) refl;
      below = λ p h. rest.below p (omega (arith, h, next)) ∙ one.outside p (inl h);
      above = λ p h. rest.above p h ∙ one.outside p (inr (omega (arith, h, end, ahead)));
    }
