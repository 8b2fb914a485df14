-- ===== src/Screen/Typing.antt =====
-- What typing characters and taking them back does to the page that is shown.
use unix_operation_system.Prelude.{ℕ, ◌+◌, ◌-◌, ◌*◌, ◌<◌, ◌≡◌, arith, false}
use unix_operation_system.Screen.{
  Screen, num_cols, num_rows, cell, video, attrib, put_cell, putc, putc_color, backspace,
  is_newline, scroll_page, scroll_up,
}
use unix_operation_system.Screen.Scroll.{Scrolled, scroll_page-Scrolled}
use unix_operation_system.Screen.Position.{IsPlaced}

-- The number of cells before the position
abbrev pub place : Screen → ℕ
place s = num_cols * s.screen_y + s.screen_x

module _ {s : Screen} (c color : ℕ) (v : IsPlaced s) (ordinary : is_newline c ≡ false) where
  -- Before the last cell of the page, an ordinary character and its colour go to the position,
  -- the position moves on by one cell, across the ends of rows too, and no other byte of the pages changes.
  pub putc_color-before_end :
      place s + 1 < num_cols * num_rows
      → (place (putc_color s c color) ≡ place s + 1)
        × ((putc_color s c color).video_mem
            ≡ put_cell s.video_mem (cell video s.screen_x s.screen_y) c color)
  unfolding putc_color
  putc_color-before_end h = ground (arith, v)

  -- At the last cell of the page, putc_color of an ordinary character scrolls the page once the
  -- character is there, and the position is the start of the last row.
  pub putc_color-at_end :
      place s + 1 ≡ num_cols * num_rows
      → (place (putc_color s c color) ≡ num_cols * (num_rows - 1))
        × Scrolled video
            (put_cell s.video_mem (cell video s.screen_x s.screen_y) c color)
            (putc_color s c color).video_mem
  unfolding putc_color scroll_up
  putc_color-at_end h =
      let scrolled : (putc_color s c color).video_mem
          ≡ scroll_page video (put_cell s.video_mem (cell video s.screen_x s.screen_y) c color) =
        ground (arith, v) in
      (ground (arith, v), rw scrolled (scroll_page-Scrolled video _))

  -- Backspace takes an ordinary character back: the position is as before, and only its cell
  -- differs from what was there; it is blank.
  pub backspace-putc_color :
      place s + 1 < num_cols * num_rows
      → (place (backspace (putc_color s c color)) ≡ place s)
        × ((p : ℕ)
            → (backspace (putc_color s c color)).video_mem p
              ≡ put_cell s.video_mem (cell video s.screen_x s.screen_y) b' ' attrib p)
  unfolding putc_color backspace
  backspace-putc_color h = (ground (arith, v), λ p. ground (arith, v))

-- putc of an ordinary character in the last column does not go on to the next row: the position
-- is the start of the same row.
pub putc-wraps_in_row :
    (s : Screen) (c : ℕ)
    → is_newline c ≡ false
    → s.screen_y < num_rows
    → s.screen_x + 1 ≡ num_cols
    → ((putc s c).screen_x ≡ 0) × ((putc s c).screen_y ≡ s.screen_y)
unfolding putc
putc-wraps_in_row s c ordinary row last = ground arith
