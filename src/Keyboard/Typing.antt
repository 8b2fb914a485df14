-- ===== src/Keyboard/Typing.antt =====
-- Typing a character and taking it back: type_key and backspace_handler of keyboard.c, with the
-- screen functions of lib.c.
use unix_operation_system.Prelude.{
  ℕ, ◌+◌, ◌*◌, ◌<◌, ◌≡◌, ◌≢◌, arith, false, ◌&&◌, ◌==◌, leb, each_branch, ne→==,
}
use unix_operation_system.State.{Kernel}
use unix_operation_system.Screen.{
  num_cols, num_rows, cell, video, attrib, put_cell, putc_advanced, is_newline,
}
use unix_operation_system.Screen.Position.{IsPlaced}
use unix_operation_system.Screen.Typing.{place, backspace-putc_color}
use unix_operation_system.Keyboard.Handler.{push_char, backspace_handler, type_key}

-- The character is put on the screen as it is: it ends no line, is no tab and does not delete.
pub record IsPlain (c : ℕ) : Type 0 where
  pub newline : is_newline c ≡ false
  pub delete : c ≢ 8
  pub tab : c ≢ 9

-- A key was typed and taken back: the line, its length and the position on the screen are as before,
-- and at the position stands a blank.
pub record TakenBack (k k' : Kernel) : Type 0 where
  pub line :
      (p : ℕ) → p ≢ k.keyboard.keybuf_count → k'.keyboard.keyboard_buf p ≡ k.keyboard.keyboard_buf p
  pub length : k'.keyboard.keybuf_count ≡ k.keyboard.keybuf_count
  pub position : place k'.screen ≡ place k.screen
  pub page :
      (p : ℕ)
      → k'.screen.video_mem p
        ≡ put_cell k.screen.video_mem (cell video k.screen.screen_x k.screen.screen_y) b' ' attrib p

pushed-TakenBack :
    (k : Kernel) (c : ℕ)
    → IsPlaced k.screen
    → IsPlain c
    → place k.screen + 1 < num_cols * num_rows
    → TakenBack k (
        backspace_handler
          (record k { screen = putc_advanced k.screen c; keyboard = push_char k.keyboard c }))
unfolding backspace_handler push_char putc_advanced
pushed-TakenBack k c placed plain room =
    let b = backspace-putc_color c attrib placed plain.newline room in
    record {
      line = λ p h. ground (arith, h);
      length = ground arith;
      position = ground (arith, plain.tab, b.0);
      page = λ p. ground (arith, plain.tab, b.1 p);
    }

-- Before the last cell of the page, a plain key that is typed without ctrl, with or without caps
-- lock, and then taken back by backspace leaves the line, its length and the position as they were;
-- the cell of the character is blank, and no other byte of the pages has changed.
pub type_key-TakenBack :
    (k : Kernel) (value shifted : ℕ)
    → IsPlaced k.screen
    → IsPlain value
    → IsPlain shifted
    → k.keyboard.ctrl_buf ≢ 1
    → place k.screen + 1 < num_cols * num_rows
    → TakenBack k (backspace_handler (type_key k value shifted))
unfolding type_key
type_key-TakenBack k value shifted placed plain plain' ctrl room =
    let plain_c =
      each_branch IsPlain ((leb b'a' value && leb value b'z') && (k.keyboard.caps_lock == 1))
        (λ e. plain') (λ e. plain) in
    rw
      (
        ne→== value b'\n' (ground (arith, plain.newline)),
        ne→== k.keyboard.ctrl_buf 1 ctrl,
        ne→== value 8 plain.delete,
        ne→== value 9 plain.tab,
      )
      (pushed-TakenBack k _ placed plain_c room)
