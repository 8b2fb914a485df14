-- ===== src/Screen/Scroll.antt =====
-- What scrolling does to the characters of a page.
use unix_operation_system.Prelude.{
  ℕ, zero, suc, ◌+◌, ◌-◌, ◌*◌, ◌≤◌, ◌<◌, ◌≡◌, refl, ap, ◌∙◌, ◌⊎◌, inl, inr, arith, Bool-cases, ◌==◌,
  ==→eq,
}
use unix_operation_system.Memory.{Memory, write}
use unix_operation_system.Screen.{
  cell, num_cols, num_rows, attrib, scroll_row, scroll_rows, clear_last, scroll_page, put_cell,
}

module _ (page : ℕ) where
  scroll_row-outside :
      (k y x : ℕ) (m : Memory) (p : ℕ)
      → (p < cell page x (y - 1)) ⊎ (cell page x (y - 1) + 2 * k ≤ p)
      → scroll_row k page y x m p ≡ m p
  unfolding scroll_row
  scroll_row-outside zero y x m p o = refl
  scroll_row-outside (suc k) y x m p o =
      scroll_row-outside k y (x + 1) (write m (cell page x (y - 1)) (m (cell page x y))) p
        (omega arith)
      ∙ ground arith

  scroll_row-cell :
      (k y x j : ℕ) (m : Memory)
      → 0 < y
      → x + k ≤ num_cols
      → x ≤ j
      → j < x + k
      → scroll_row k page y x m (cell page j (y - 1)) ≡ m (cell page j y)
  unfolding scroll_row
  scroll_row-cell zero y x j m hy hk p q = absurd (omega arith)
  scroll_row-cell (suc k) y x j m hy hk p q = elim (Bool-cases (x == j)) [
    | inl e ↦
        scroll_row-outside k y (x + 1) (write m (cell page x (y - 1)) (m (cell page x y)))
          (cell page j (y - 1)) (ground arith)
        ∙ ground arith
    | inr d ↦
        scroll_row-cell k y (x + 1) j (write m (cell page x (y - 1)) (m (cell page x y))) hy
          (omega arith) (ground arith) (omega arith)
        ∙ ground arith
  ]

  scroll_row-attr :
      (k y x j r : ℕ) (m : Memory)
      → scroll_row k page y x m (cell page j r + 1) ≡ m (cell page j r + 1)
  unfolding scroll_row
  scroll_row-attr zero y x j r m = refl
  scroll_row-attr (suc k) y x j r m =
      scroll_row-attr k y (x + 1) j r (write m (cell page x (y - 1)) (m (cell page x y)))
      ∙ ground arith

  scroll_rows-outside :
      (k y : ℕ) (m : Memory) (p : ℕ)
      → 0 < y
      → (p < cell page 0 (y - 1)) ⊎ (cell page 0 (y + k - 1) ≤ p)
      → scroll_rows k page y m p ≡ m p
  unfolding scroll_rows
  scroll_rows-outside zero y m p h o = refl
  scroll_rows-outside (suc k) y m p h o =
      scroll_rows-outside k (y + 1) (scroll_row num_cols page y 0 m) p (omega arith) (omega arith)
      ∙ scroll_row-outside num_cols y 0 m p (omega arith)

  scroll_rows-cell :
      (k y j r : ℕ) (m : Memory)
      → 0 < y
      → j < num_cols
      → y ≤ r + 1
      → r + 1 < y + k
      → scroll_rows k page y m (cell page j r) ≡ m (cell page j (r + 1))
  unfolding scroll_rows
  scroll_rows-cell zero y j r m h hj p q = absurd (omega arith)
  scroll_rows-cell (suc k) y j r m h hj p q = elim (Bool-cases (r + 1 == y)) [
    | inl e ↦
        let this : r + 1 ≡ y = ==→eq (r + 1) y e in
        scroll_rows-outside k (y + 1) (scroll_row num_cols page y 0 m) (cell page j r) (omega arith)
          (omega arith)
        ∙ ap (scroll_row num_cols page y 0 m) (omega arith)
        ∙ scroll_row-cell num_cols y 0 j m h (omega arith) (omega arith) (omega arith)
        ∙ ap m (omega arith)
    | inr d ↦
        scroll_rows-cell k (y + 1) j r (scroll_row num_cols page y 0 m) (omega arith) hj
          (ground arith) (omega arith)
        ∙ scroll_row-outside num_cols y 0 m (cell page j (r + 1)) (ground arith)
  ]

  scroll_rows-attr :
      (k y j r : ℕ) (m : Memory)
      → scroll_rows k page y m (cell page j r + 1) ≡ m (cell page j r + 1)
  unfolding scroll_rows
  scroll_rows-attr zero y j r m = refl
  scroll_rows-attr (suc k) y j r m =
      scroll_rows-attr k (y + 1) j r (scroll_row num_cols page y 0 m)
      ∙ scroll_row-attr num_cols y 0 j r m

  clear_last-outside :
      (k x : ℕ) (m : Memory) (p : ℕ)
      → (p < cell page x (num_rows - 1)) ⊎ (cell page (x + k) (num_rows - 1) ≤ p)
      → clear_last k page x m p ≡ m p
  unfolding clear_last
  clear_last-outside zero x m p o = refl
  clear_last-outside (suc k) x m p o =
      clear_last-outside k (x + 1) (put_cell m (cell page x (num_rows - 1)) b' ' attrib) p
        (omega arith)
      ∙ ground arith

  clear_last-cell :
      (k x j : ℕ) (m : Memory)
      → x ≤ j
      → j < x + k
      → (clear_last k page x m (cell page j (num_rows - 1)) ≡ b' ')
        × (clear_last k page x m (cell page j (num_rows - 1) + 1) ≡ attrib)
  unfolding clear_last
  clear_last-cell zero x j m p q = absurd (omega arith)
  clear_last-cell (suc k) x j m p q = elim (Bool-cases (x == j)) [
    | inl e ↦ (
      clear_last-outside k (x + 1) (put_cell m (cell page x (num_rows - 1)) b' ' attrib)
            (cell page j (num_rows - 1)) (ground arith)
          ∙ ground arith,
      clear_last-outside k (x + 1) (put_cell m (cell page x (num_rows - 1)) b' ' attrib)
            (cell page j (num_rows - 1) + 1) (ground arith)
          ∙ ground arith,
    )
    | inr d ↦
        clear_last-cell k (x + 1) j (put_cell m (cell page x (num_rows - 1)) b' ' attrib)
          (ground arith) (omega arith)
  ]

-- A page after it is scrolled by one row
pub record Scrolled (page : ℕ) (m m' : Memory) : Type 0 where
  pub moved_up :
      (x y : ℕ) → x < num_cols → y + 1 < num_rows → m' (cell page x y) ≡ m (cell page x (y + 1))
  pub attr_stays :
      (x y : ℕ) → x < num_cols → y + 1 < num_rows → m' (cell page x y + 1) ≡ m (cell page x y + 1)
  pub last_blank : (x : ℕ) → x < num_cols → m' (cell page x (num_rows - 1)) ≡ b' '
  pub last_attr : (x : ℕ) → x < num_cols → m' (cell page x (num_rows - 1) + 1) ≡ attrib
  pub elsewhere : (p : ℕ) → (p < page) ⊎ (page + 4000 ≤ p) → m' p ≡ m p

-- Scrolling a page moves each row's characters one row up and blanks the last row. The attributes
-- of the rows above the last stay where they are, and nothing outside the page changes.
pub scroll_page-Scrolled : (page : ℕ) (m : Memory) → Scrolled page m (scroll_page page m)
unfolding scroll_page
scroll_page-Scrolled page m =
    let m' = scroll_rows (num_rows - 1) page 1 m in
    record {
      moved_up = λ x y hx hy.
          clear_last-outside page num_cols 0 m' (cell page x y) (omega arith)
          ∙ scroll_rows-cell page (num_rows - 1) 1 x y m (omega arith) hx (omega arith)
              (omega arith);
      attr_stays = λ x y hx hy.
          clear_last-outside page num_cols 0 m' (cell page x y + 1) (omega arith)
          ∙ scroll_rows-attr page (num_rows - 1) 1 x y m;
      last_blank = λ x hx. (clear_last-cell page num_cols 0 x m' (omega arith) (omega arith)).0;
      last_attr = λ x hx. (clear_last-cell page num_cols 0 x m' (omega arith) (omega arith)).1;
      elsewhere = λ p o.
          clear_last-outside page num_cols 0 m' p (omega arith)
          ∙ scroll_rows-outside page (num_rows - 1) 1 m p (omega arith) (omega arith);
    }
