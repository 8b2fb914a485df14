-- ===== src/Screen.antt =====
-- The text screen of student-distrib/lib.c: the displayed page, the pages of the terminals in the
-- background, and the position at which the next character goes.
pub mod Scroll
pub mod Position
pub mod Typing
mod Tests
use unix_operation_system.Prelude.{
  ℕ, zero, suc, ◌+◌, ◌-◌, ◌*◌, ◌/◌, ◌%◌, ◌^◌, ◌&&◌, ◌||◌, Bool, List, [], ◌∷◌, ◌==◌, if◌then◌else◌,
  update,
}
use unix_operation_system.Memory.{Memory, write}

abbrev pub video : ℕ
video = 0xB8000

abbrev pub num_cols : ℕ
num_cols = 80

abbrev pub num_rows : ℕ
num_rows = 25

abbrev pub attrib : ℕ
attrib = 0x2

-- `cursor` is the register that update_cursor sets in the display controller.
pub record Screen : Type 0 where
  pub screen_x : ℕ
  pub screen_y : ℕ
  pub screen_x_arr : ℕ → ℕ
  pub screen_y_arr : ℕ → ℕ
  pub video_mem : Memory
  pub cursor : ℕ

-- The address of the character in column `x` of row `y` of a page
abbrev pub cell : ℕ → ℕ → ℕ → ℕ
cell page x y = page + 2 * (num_cols * y + x)

-- The two bytes go to the registers 0x0F and 0x0E.
unfoldable pub update_cursor : Screen → ℕ → ℕ → Screen
update_cursor s x y =
    let pos = y * num_cols + x in record s { cursor = pos % 256 + 256 * (pos / 256 % 256) }

abbrev pub put_cell : Memory → ℕ → ℕ → ℕ → Memory
put_cell m a c attr = write (write m a c) (a + 1) attr

-- `k` rounds before the last cell
pub clear_loop : ℕ → Memory → ℕ → Memory
clear_loop zero m i = m
clear_loop (suc k) m i = clear_loop k (put_cell m (video + 2 * i) b' ' attrib) (i + 1)

unfoldable pub clear : Screen → Screen
unfolding update_cursor
clear s =
    update_cursor
      (record s {
        video_mem = clear_loop (num_rows * num_cols) s.video_mem 0;
        screen_x = 0;
        screen_y = 0;
      })
      0 0

-- scroll_up: the characters of row `y`, from column `x` on, are copied one row up.
unfoldable pub scroll_row : ℕ → ℕ → ℕ → ℕ → Memory → Memory
scroll_row zero page y x m = m
scroll_row (suc k) page y x m =
    scroll_row k page y (x + 1) (write m (cell page x (y - 1)) (m (cell page x y)))

unfoldable pub scroll_rows : ℕ → ℕ → ℕ → Memory → Memory
scroll_rows zero page y m = m
scroll_rows (suc k) page y m = scroll_rows k page (y + 1) (scroll_row num_cols page y 0 m)

unfoldable pub clear_last : ℕ → ℕ → ℕ → Memory → Memory
clear_last zero page x m = m
clear_last (suc k) page x m =
    clear_last k page (x + 1) (put_cell m (cell page x (num_rows - 1)) b' ' attrib)

unfoldable pub scroll_page : ℕ → Memory → Memory
scroll_page page m = clear_last num_cols page 0 (scroll_rows (num_rows - 1) page 1 m)

unfoldable pub scroll_up : Screen → ℕ → Screen
scroll_up s page = record s { video_mem = scroll_page page s.video_mem; screen_y = num_rows - 1 }

abbrev pub is_newline : ℕ → Bool
is_newline c = (c == b'\n') || (c == 13)

pub putc : Screen → ℕ → Screen
unfolding scroll_up update_cursor
putc s c =
    let moved =
      if is_newline c
      then record s { screen_y = s.screen_y + 1; screen_x = 0 }
      else let x = (s.screen_x + 1) % num_cols in
        record s {
          video_mem = put_cell s.video_mem (cell video s.screen_x s.screen_y) c attrib;
          screen_x = x;
          screen_y = (s.screen_y + x / num_cols) % num_rows;
        } in
    let scrolled = if moved.screen_y == num_rows then scroll_up moved video else moved in
    update_cursor scrolled scrolled.screen_x scrolled.screen_y

unfoldable pub putc_color : Screen → ℕ → ℕ → Screen
unfolding scroll_up update_cursor
putc_color s c color =
    let moved =
      if is_newline c then record s { screen_y = s.screen_y + 1; screen_x = 0 } else record s {
        video_mem = put_cell s.video_mem (cell video s.screen_x s.screen_y) c color;
        screen_y = if s.screen_x + 1 == num_cols then s.screen_y + 1 else s.screen_y;
        screen_x = (s.screen_x + 1) % num_cols;
      } in
    let scrolled = if moved.screen_y == num_rows then scroll_up moved video else moved in
    update_cursor scrolled scrolled.screen_x scrolled.screen_y

-- The body of putc_advanced is that of putc_color at the standard colour.
unfoldable pub putc_advanced : Screen → ℕ → Screen
unfolding putc_color
putc_advanced s c = putc_color s c attrib

unfoldable pub page_of : ℕ → ℕ
page_of term_idx = if term_idx == 1 then 0xB9000 else if term_idx == 2 then 0xBA000 else 0xBB000

unfoldable pub putc_background : Screen → ℕ → ℕ → Screen
unfolding page_of
putc_background s c t =
    let page = page_of t in
    let x = s.screen_x_arr t in
    let y = s.screen_y_arr t in
    let moved =
      if is_newline c
      then record s {
        screen_y_arr = update s.screen_y_arr t (y + 1);
        screen_x_arr = update s.screen_x_arr t 0;
      }
      else record s {
        video_mem = put_cell s.video_mem (cell page x y) c attrib;
        screen_y_arr = update s.screen_y_arr t (if x + 1 == num_cols then y + 1 else y);
        screen_x_arr = update s.screen_x_arr t ((x + 1) % num_cols);
      } in
    if moved.screen_y_arr t == num_rows
    then record moved {
      video_mem = scroll_page page moved.video_mem;
      screen_y_arr = update moved.screen_y_arr t (num_rows - 1);
    }
    else moved

pub backspace : Screen → Screen
unfolding update_cursor
backspace s =
    if (s.screen_x == 0) && (s.screen_y == 0)
    then s
    else if s.screen_x == 0
    then update_cursor
        (record s {
          screen_y = s.screen_y - 1;
          screen_x = num_cols - 1;
          video_mem = put_cell s.video_mem (cell video (num_cols - 1) (s.screen_y - 1)) b' ' attrib;
        })
        (num_cols - 1) (s.screen_y - 1)
    else update_cursor
        (record s {
          screen_x = s.screen_x - 1;
          video_mem = put_cell s.video_mem (cell video (s.screen_x - 1) s.screen_y) b' ' attrib;
        })
        (s.screen_x - 1) s.screen_y

-- The attributes of the displayed page, `k` rounds before the last
unfoldable pub recolor : ℕ → ℕ → Memory → Memory
recolor zero i m = m
recolor (suc k) i m = recolor k (i + 1) (write m (video + 2 * i + 1) attrib)

unfoldable pub switch_screen : Screen → ℕ → ℕ → Screen
unfolding update_cursor
switch_screen s prev_term current_term =
    let x_arr = update s.screen_x_arr prev_term s.screen_x in
    let y_arr = update s.screen_y_arr prev_term s.screen_y in
    update_cursor
      (record s {
        screen_x_arr = x_arr;
        screen_y_arr = y_arr;
        screen_x = x_arr current_term;
        screen_y = y_arr current_term;
        video_mem = recolor (num_rows * num_cols) 0 s.video_mem;
      })
      (x_arr current_term) (y_arr current_term)

-- The string is the list of its characters before the NUL.
unfoldable pub puts : Screen → List ℕ → Screen
puts s [] = s
puts s (c ∷ cs) = puts (putc s c) cs

pub printf_color : Screen → List ℕ → ℕ → Screen
printf_color s [] color = s
printf_color s (c ∷ cs) color = printf_color (putc_color s c color) cs color
