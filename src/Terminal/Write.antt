-- ===== src/Terminal/Write.antt =====
-- Where terminal_write of student-distrib/devices/terminal.c puts its characters.
use unix_operation_system.Prelude.{
  ℕ, zero, suc, ◌+◌, ◌<◌, ◌≡◌, ◌≢◌, refl, ◌∙◌, arith, true, not, some, ◌==◌, min, each_branch,
  ne→==,
}
use unix_operation_system.Prelude.Int.{pos}
use unix_operation_system.Memory.{Memory, IsString, max_rounds}
use unix_operation_system.Strings.Length.{strlen_unsigned-IsString}
use unix_operation_system.State.{Kernel}
use unix_operation_system.Screen.{
  Screen, putc_background, page_of, scroll_page, scroll_rows, scroll_row, clear_last, cell,
  put_cell, attrib, num_cols, video,
}
use unix_operation_system.Terminal.{write_char, write_loop, terminal_write}

-- What is displayed is the same: the page at 0xB8000, the position and the cursor.
pub record SameDisplay (s s' : Screen) : Type 0 where
  pub page : (p : ℕ) → p < video + 4096 → s'.video_mem p ≡ s.video_mem p
  pub x : s'.screen_x ≡ s.screen_x
  pub y : s'.screen_y ≡ s.screen_y
  pub cursor : s'.cursor ≡ s.cursor

-- Scrolling a page writes nothing below it.
module _ (page p : ℕ) (below : p < page) where
  scroll_row-below : (k y x : ℕ) (m : Memory) → scroll_row k page y x m p ≡ m p
  unfolding scroll_row
  scroll_row-below zero y x m = refl
  scroll_row-below (suc k) y x m = scroll_row-below k y (x + 1) _ ∙ ground arith

  scroll_rows-below : (k y : ℕ) (m : Memory) → scroll_rows k page y m p ≡ m p
  unfolding scroll_rows
  scroll_rows-below zero y m = refl
  scroll_rows-below (suc k) y m = scroll_rows-below k (y + 1) _ ∙ scroll_row-below num_cols y 0 m

  clear_last-below : (k x : ℕ) (m : Memory) → clear_last k page x m p ≡ m p
  unfolding clear_last
  clear_last-below zero x m = refl
  clear_last-below (suc k) x m = clear_last-below k (x + 1) _ ∙ ground arith

  scroll_page-below : (m : Memory) → scroll_page page m p ≡ m p
  unfolding scroll_page
  scroll_page-below m = clear_last-below _ _ _ ∙ scroll_rows-below _ _ _

-- A character for a hidden terminal
putc_background-SameDisplay : (s : Screen) (c t : ℕ) → SameDisplay s (putc_background s c t)
unfolding putc_background page_of
putc_background-SameDisplay s c t = record {
  page = λ p h.
      let low : p < page_of t = ground arith in
      let at = cell (page_of t) (s.screen_x_arr t) (s.screen_y_arr t) in
      ground (
        arith,
        scroll_page-below (page_of t) p low s.video_mem,
        scroll_page-below (page_of t) p low (put_cell s.video_mem at c attrib),
      );
  x = ground arith;
  y = ground arith;
  cursor = ground arith;
}

SameDisplay-trans : {a b c : Screen} → SameDisplay a b → SameDisplay b c → SameDisplay a c
SameDisplay-trans s t = record {
  page = λ p h. t.page p h ∙ s.page p h;
  x = t.x ∙ s.x;
  y = t.y ∙ s.y;
  cursor = t.cursor ∙ s.cursor;
}

write_loop-hidden :
    (n : ℕ) (k : Kernel) (buf i : ℕ) (s : Screen)
    → k.display_term ≢ k.running_term
    → SameDisplay s (write_loop n k buf i s)
unfolding write_loop
write_loop-hidden zero k buf i s hidden = record {
  page = λ p h. refl;
  x = refl;
  y = refl;
  cursor = refl;
}
write_loop-hidden (suc n) k buf i s hidden =
    let c = k.memory (buf + i) in
    SameDisplay-trans
      (each_branch (SameDisplay s) (not (k.display_term == k.running_term))
        (λ e. putc_background-SameDisplay s c k.running_term)
        (λ e. absurd (ground (arith, e, hidden))))
      (write_loop-hidden n k buf (i + 1) (write_char k c s) hidden)

-- A process of a terminal that is not displayed, with a string in its buffer that is shorter than
-- the address space, writes without changing a byte of the displayed page, the position or the
-- cursor. The call ends, and tells it that it wrote as many bytes as it asked for or as the
-- string has, whichever is less.
pub terminal_write-hidden :
    (k : Kernel) (buf nbytes n : ℕ)
    → k.display_term ≢ k.running_term
    → buf ≢ 0
    → IsString k.memory buf n
    → n < max_rounds
    → (end : Kernel) × ((terminal_write k buf nbytes ≡ some (pos (min nbytes n), end))
        × SameDisplay k.screen end.screen)
unfolding terminal_write
terminal_write-hidden k buf nbytes n hidden some_buf str fits = (
  record k { screen = write_loop nbytes k buf 0 k.screen; interrupts_on = true },
  (
    rw (ne→== buf 0 some_buf, strlen_unsigned-IsString str fits) (ground arith),
    write_loop-hidden nbytes k buf 0 k.screen hidden,
  ),
)
