-- ===== src/Keyboard/Switch.antt =====
-- Leaving a terminal and coming back to it: terminal_switch of keyboard.c, switch_vid_page of
-- paging.c and switch_screen of lib.c.
use unix_operation_system.Prelude.{
  ℕ, zero, suc, ◌+◌, ◌-◌, ◌*◌, ◌≤◌, ◌<◌, ◌≡◌, ◌≢◌, refl, ◌∙◌, arith, ◌==◌, each_branch,
}
use unix_operation_system.Memory.{Memory}
use unix_operation_system.Blocks.{memset, memcpy, memset-Set, memcpy-Moved}
use unix_operation_system.Screen.{switch_screen, recolor, video, num_rows, num_cols}
use unix_operation_system.State.{Kernel}
use unix_operation_system.Keyboard.{
  key_buf_size, vid_page_addr, switch_vid_page, change_terminal, terminal_switch, display_of,
}

-- The video memory after the page of terminal `current` gave way to the one of `next`
pub record Swapped (current next : ℕ) (m m' : Memory) : Type 0 where
  -- the displayed page is the one of `next`, saved before,
  pub shown : (i : ℕ) → i < 4096 → m' (vid_page_addr 0 + i) ≡ m (vid_page_addr next + i)
  -- that of `current` is what was displayed,
  pub saved : (i : ℕ) → i < 4096 → m' (vid_page_addr current + i) ≡ m (vid_page_addr 0 + i)
  -- and all other pages are as before.
  pub others :
      (t i : ℕ)
      → t ≢ 0
      → t ≢ current
      → i < 4096
      → m' (vid_page_addr t + i) ≡ m (vid_page_addr t + i)

-- Between two different terminals, switch_vid_page saves the displayed page to the page of the old
-- terminal, displays the page of the new one, and keeps the pages of all others.
pub switch_vid_page-Swapped :
    (m : Memory) (current next : ℕ)
    → current ≢ 0
    → next ≢ 0
    → current ≢ next
    → Swapped current next m (switch_vid_page m current next)
unfolding switch_vid_page
switch_vid_page-Swapped m current next hc hn ne =
    let out = memcpy-Moved m (vid_page_addr current) (vid_page_addr 0) 4096 (omega arith) in
    let saved = memcpy m (vid_page_addr current) (vid_page_addr 0) 4096 in
    let blank = memset-Set saved (vid_page_addr 0) 0 4096 in
    let cleared = memset saved (vid_page_addr 0) 0 4096 in
    let back = memcpy-Moved cleared (vid_page_addr 0) (vid_page_addr next) 4096 (omega arith) in
    record {
      shown = λ i h.
          back.inside i h
          ∙ blank.outside (vid_page_addr next + i) (omega arith)
          ∙ out.outside (vid_page_addr next + i) (omega arith);
      saved = λ i h.
          back.outside (vid_page_addr current + i) (omega arith)
          ∙ blank.outside (vid_page_addr current + i) (omega arith)
          ∙ out.inside i h;
      others = λ t i ht hd h.
          back.outside (vid_page_addr t + i) (omega arith)
          ∙ blank.outside (vid_page_addr t + i) (omega arith)
          ∙ out.outside (vid_page_addr t + i) (omega arith);
    }

-- Only attributes of the displayed page are changed.
recolor-char : (k i j : ℕ) (m : Memory) → recolor k i m (video + 2 * j) ≡ m (video + 2 * j)
unfolding recolor
recolor-char zero i j m = refl
recolor-char (suc k) i j m = recolor-char k (i + 1) j _ ∙ ground arith

recolor-behind : (k i p : ℕ) (m : Memory) → video + 2 * (i + k) ≤ p → recolor k i m p ≡ m p
unfolding recolor
recolor-behind zero i p m h = refl
recolor-behind (suc k) i p m h = recolor-behind k (i + 1) p _ (omega arith) ∙ ground arith

-- What is saved of terminal `t` is the same: the line typed there, the cursor and the page.
pub record Keeps (t : ℕ) (k k' : Kernel) : Type 0 where
  pub line :
      (p : ℕ)
      → p < key_buf_size
      → k'.keyboard.keyboard_buf_arr (t - 1) p ≡ k.keyboard.keyboard_buf_arr (t - 1) p
  pub length : k'.keyboard.keybuf_count_arr (t - 1) ≡ k.keyboard.keybuf_count_arr (t - 1)
  pub x : k'.screen.screen_x_arr t ≡ k.screen.screen_x_arr t
  pub y : k'.screen.screen_y_arr t ≡ k.screen.screen_y_arr t
  pub page :
      (i : ℕ)
      → i < 4096
      → k'.screen.video_mem (vid_page_addr t + i) ≡ k.screen.video_mem (vid_page_addr t + i)

-- What the user sees of the terminal is the same: the line that is typed, the cursor and all
-- characters of the screen.
pub record Resumed (k k' : Kernel) : Type 0 where
  pub line : (p : ℕ) → p < key_buf_size → k'.keyboard.keyboard_buf p ≡ k.keyboard.keyboard_buf p
  pub length : k'.keyboard.keybuf_count ≡ k.keyboard.keybuf_count
  pub x : k'.screen.screen_x ≡ k.screen.screen_x
  pub y : k'.screen.screen_y ≡ k.screen.screen_y
  pub characters :
      (j : ℕ)
      → j < num_rows * num_cols
      → k'.screen.video_mem (video + 2 * j) ≡ k.screen.video_mem (video + 2 * j)
  pub last : k'.last_term ≡ k.last_term

-- Switching away saves the terminal that was displayed.
pub record Saved (k k' : Kernel) : Type 0 where
  pub line :
      (p : ℕ)
      → p < key_buf_size
      → k'.keyboard.keyboard_buf_arr (k.last_term - 1) p ≡ k.keyboard.keyboard_buf p
  pub length : k'.keyboard.keybuf_count_arr (k.last_term - 1) ≡ k.keyboard.keybuf_count
  pub x : k'.screen.screen_x_arr k.last_term ≡ k.screen.screen_x
  pub y : k'.screen.screen_y_arr k.last_term ≡ k.screen.screen_y
  pub characters :
      (j : ℕ)
      → j < num_rows * num_cols
      → k'.screen.video_mem (vid_page_addr k.last_term + 2 * j) ≡ k.screen.video_mem (video + 2 * j)

change_terminal-Saved :
    (k : Kernel) (next : ℕ)
    → k.last_term ≢ 0
    → next ≢ 0
    → k.last_term ≢ next
    → Saved k (change_terminal k next)
unfolding change_terminal switch_screen
change_terminal-Saved k next hl hn ne =
    let pages = switch_vid_page-Swapped k.screen.video_mem k.last_term next hl hn ne in
    record {
      line = λ p h. ground arith;
      length = ground arith;
      x = ground arith;
      y = ground arith;
      characters = λ j h.
          recolor-behind (num_rows * num_cols) 0 _ _ (omega arith)
          ∙ pages.saved (2 * j) (omega arith);
    }

-- Switching to a terminal shows what was saved of it.
pub record Shown (k : Kernel) (next : ℕ) (k' : Kernel) : Type 0 where
  pub line :
      (p : ℕ)
      → p < key_buf_size
      → k'.keyboard.keyboard_buf p ≡ k.keyboard.keyboard_buf_arr (next - 1) p
  pub length : k'.keyboard.keybuf_count ≡ k.keyboard.keybuf_count_arr (next - 1)
  pub x : k'.screen.screen_x ≡ k.screen.screen_x_arr next
  pub y : k'.screen.screen_y ≡ k.screen.screen_y_arr next
  pub characters :
      (j : ℕ)
      → j < num_rows * num_cols
      → k'.screen.video_mem (video + 2 * j) ≡ k.screen.video_mem (vid_page_addr next + 2 * j)
  pub last : k'.last_term ≡ next

change_terminal-Shown :
    (k : Kernel) (next : ℕ)
    → k.last_term ≢ 0
    → next ≢ 0
    → k.last_term ≢ next
    → Shown k next (change_terminal k next)
unfolding change_terminal switch_screen
change_terminal-Shown k next hl hn ne =
    let pages = switch_vid_page-Swapped k.screen.video_mem k.last_term next hl hn ne in
    record {
      line = λ p h. ground arith;
      length = ground arith;
      x = ground arith;
      y = ground arith;
      characters =
          λ j h. recolor-char (num_rows * num_cols) 0 j _ ∙ pages.shown (2 * j) (omega arith);
      last = refl;
    }

-- With alt down, a function key of another terminal changes to that terminal.
terminal_switch-changes {ℓ} :
    (P : Kernel → Type ℓ) (k : Kernel) (key : ℕ)
    → k.keyboard.alt_buf ≡ 1
    → display_of key ≢ 0
    → display_of key ≢ k.last_term
    → P (change_terminal k (display_of key))
    → P (terminal_switch k key).1
unfolding terminal_switch
terminal_switch-changes P k key a hz hl q =
    let Q = λ (r : ℕ × Kernel). P r.1 in
    each_branch Q (k.keyboard.alt_buf == 1)
      (λ on.
        each_branch Q (display_of key == 0) (λ e. absurd (ground (arith, e, hz)))
          (λ e.
            each_branch Q (display_of key == k.last_term) (λ e. absurd (ground (arith, e, hl)))
              (λ e. q)))
      (λ off. absurd (ground (arith, off, a)))

-- A user who leaves the displayed terminal with alt and a function key, and later comes back with
-- alt and its own key from a terminal other than it, finds the line being typed, its length, the
-- cursor and every character of the screen as they were, when what was saved of the terminal
-- stayed as it was.
pub terminal_switch-Resumed :
    (k k' : Kernel) (away back : ℕ)
    → k.keyboard.alt_buf ≡ 1
    → k'.keyboard.alt_buf ≡ 1
    → display_of back ≡ k.last_term
    → k.last_term ≢ 0
    → display_of away ≢ 0
    → display_of away ≢ k.last_term
    → k'.last_term ≢ 0
    → k'.last_term ≢ k.last_term
    → Keeps k.last_term (terminal_switch k away).1 k'
    → Resumed k (terminal_switch k' back).1
terminal_switch-Resumed k k' away back a a' b hl ha hal hl' hll keep =
    let saved =
      terminal_switch-changes (Saved k) k away a ha hal
        (change_terminal-Saved k (display_of away) hl ha (ground arith)) in
    let shown =
      terminal_switch-changes (Shown k' (display_of back)) k' back a' (ground arith) (ground arith)
        (change_terminal-Shown k' (display_of back) hl' (ground arith) (ground arith)) in
    record {
      line = λ p h. ground (arith, shown.line p h, keep.line p h, saved.line p h);
      length = ground (arith, shown.length, keep.length, saved.length);
      x = ground (arith, shown.x, keep.x, saved.x);
      y = ground (arith, shown.y, keep.y, saved.y);
      characters =
          λ j h. ground (arith, shown.characters j h, keep.page (2 * j), saved.characters j h);
      last = shown.last ∙ b;
    }
