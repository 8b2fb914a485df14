-- ===== src/Keyboard/Scancode.antt =====
-- The table of student-distrib/devices/keyboard.c from scan codes to characters.
use unix_operation_system.Prelude.{
  ℕ, zero, suc, ◌<◌, ◌≡◌, refl, ◌⊎◌, arith, Bool, true, ◌&&◌, ◌||◌, not, ◌==◌, List, [], ◌∷◌,
  get_or, length,
}

-- The character of each key, and the one with shift
pub scancode_table : List (ℕ × ℕ)
scancode_table =
    (0, 0)
    ∷ (0, 0)
    ∷ (b'1', b'!')
    ∷ (b'2', b'@')
    ∷ (b'3', b'#')
    ∷ (b'4', b'$')
    ∷ (b'5', b'%')
    ∷ (b'6', b'^')
    ∷ (b'7', b'&')
    ∷ (b'8', b'*')
    ∷ (b'9', b'(')
    ∷ (b'0', b')')
    ∷ (b'-', b'_')
    ∷ (b'=', b'+')
    ∷ (8, 8)
    ∷ (9, 9)
    ∷ (b'q', b'Q')
    ∷ (b'w', b'W')
    ∷ (b'e', b'E')
    ∷ (b'r', b'R')
    ∷ (b't', b'T')
    ∷ (b'y', b'Y')
    ∷ (b'u', b'U')
    ∷ (b'i', b'I')
    ∷ (b'o', b'O')
    ∷ (b'p', b'P')
    ∷ (b'[', b'{')
    ∷ (b']', b'}')
    ∷ (10, 10)
    ∷ (0, 0)
    ∷ (b'a', b'A')
    ∷ (b's', b'S')
    ∷ (b'd', b'D')
    ∷ (b'f', b'F')
    ∷ (b'g', b'G')
    ∷ (b'h', b'H')
    ∷ (b'j', b'J')
    ∷ (b'k', b'K')
    ∷ (b'l', b'L')
    ∷ (b';', b':')
    ∷ (39, 34)
    ∷ (b'`', b'~')
    ∷ (0, 0)
    ∷ (92, b'|')
    ∷ (b'z', b'Z')
    ∷ (b'x', b'X')
    ∷ (b'c', b'C')
    ∷ (b'v', b'V')
    ∷ (b'b', b'B')
    ∷ (b'n', b'N')
    ∷ (b'm', b'M')
    ∷ (b',', b'<')
    ∷ (b'.', b'>')
    ∷ (b'/', b'?')
    ∷ (0, 0)
    ∷ (0, 0)
    ∷ (0, 0)
    ∷ (b' ', b' ')
    ∷ []

-- `scancode[key]`; `beyond` is what stands behind the table, which has 58 entries.
unfoldable pub scancode : (ℕ → ℕ × ℕ) → ℕ → ℕ × ℕ
unfolding scancode_table
scancode beyond key = get_or scancode_table key (beyond key)

-- A test that all entries of a list pass is passed by the one that is found.
all_of {ℓ} : {A : Type ℓ} → (A → Bool) → List A → Bool
all_of p [] = true
all_of p (x ∷ xs) = p x && all_of p xs

get_or-all_of {ℓ} :
    {A : Type ℓ} (p : A → Bool) (xs : List A) (n : ℕ) (d : A)
    → all_of p xs ≡ true
    → n < length xs
    → p (get_or xs n d) ≡ true
unfolding all_of
get_or-all_of p [] n d h l = ground (arith, l)
get_or-all_of p (x ∷ xs) zero d h l = ground (arith, h)
get_or-all_of p (x ∷ xs) (suc n) d h l =
    get_or-all_of p xs n d (ground (arith, h)) (ground (arith, l))

-- The characters that end a line or delete are the same with shift.
control_same : ℕ × ℕ → Bool
control_same (value, shifted) = not ((value == b'\n') || (value == 8)) || (shifted == value)

scancode_table-control_same : all_of control_same scancode_table ≡ true
unfolding all_of control_same scancode_table
scancode_table-control_same = refl

scancode_table-length : length scancode_table ≡ 58
unfolding scancode_table
scancode_table-length = refl

-- A key of the table whose character ends a line or deletes has the same character with shift.
pub scancode-same :
    (beyond : ℕ → ℕ × ℕ) (key : ℕ)
    → key < 58
    → ((scancode beyond key).0 ≡ b'\n') ⊎ ((scancode beyond key).0 ≡ 8)
    → (scancode beyond key).1 ≡ (scancode beyond key).0
unfolding scancode control_same
scancode-same beyond key h e =
    let p =
      get_or-all_of control_same scancode_table key (beyond key) scancode_table-control_same
        (ground (arith, scancode_table-length)) in
    ground (arith, p, e)
