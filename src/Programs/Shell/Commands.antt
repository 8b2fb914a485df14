-- ===== src/Programs/Shell/Commands.antt =====
-- Lines, the commands in them, and where they stand in memory
use unix_operation_system.Prelude.{
  ℕ, zero, suc, ◌+◌, ◌-◌, ◌<◌, ◌≤◌, ◌≡◌, ◌≢◌, refl, ap, arith, Bool, true, false, ◌&&◌, some, List,
  [], ◌∷◌, length, ◌==◌, if◌then◌else◌, both_branches, Bool-cases, inl, inr,
}
use unix_operation_system.Prelude.Int.{ℤ, pos, is_nat, sub_ℕ}
use unix_operation_system.Memory.{Memory, write}
use unix_operation_system.Programs.{user_strcmp_loop}
use unix_operation_system.Programs.Shell.{without_newline}

-- The characters of `l` stand at `a`.
abbrev pub Chars : Memory → ℕ → List ℕ → Type 0
Chars m a [] = Unit
Chars m a (x ∷ l) = (m a ≡ x) × Chars m (a + 1) l

-- None of them is a NUL.
abbrev pub NoNul : List ℕ → Type 0
NoNul [] = Unit
NoNul (x ∷ l) = (x ≢ 0) × NoNul l

-- With a NUL behind them, which none of them is
abbrev pub Text : Memory → ℕ → List ℕ → Type 0
Text m a [] = m a ≡ 0
Text m a (x ∷ l) = (m a ≡ x) × (x ≢ 0) × Text m (a + 1) l

-- A line without the newline at its end
abbrev pub chomp : List ℕ → List ℕ
chomp [] = []
chomp (x ∷ []) = if x == b'\n' then [] else x ∷ []
chomp (x ∷ y ∷ l) = x ∷ chomp (y ∷ l)

abbrev pub same : List ℕ → List ℕ → Bool
same [] [] = true
same [] (y ∷ w) = false
same (x ∷ v) [] = false
same (x ∷ v) (y ∷ w) = (x == y) && same v w

differ : (x y : ℕ) → x == y ≡ false → is_nat (sub_ℕ x y) 0 ≡ false
differ x y e = ground (arith, e)

-- ece391_strcmp gives 0 just for two texts that are the same.
pub strcmp-same :
    (f : ℕ) (m : Memory) (a b : ℕ) (v w : List ℕ)
    → Text m a v
    → Text m b w
    → length v < f
    → (r : ℤ) × (user_strcmp_loop f m a b ≡ some r) × (is_nat r 0 ≡ same v w)
unfolding user_strcmp_loop
strcmp-same zero m a b v w ta tb h = absurd (omega arith)
strcmp-same (suc f) m a b [] [] ta tb h = (pos 0, rw (ta, tb) refl, refl)
strcmp-same (suc f) m a b [] (y ∷ w) ta tb h =
    let e : 0 == y ≡ false = ground (arith, tb.1) in
    (sub_ℕ 0 y, rw (ta, tb.0, e) refl, differ 0 y e)
strcmp-same (suc f) m a b (x ∷ v) [] ta tb h =
    let e : x == 0 ≡ false = ground (arith, ta.1) in
    (sub_ℕ x 0, rw (ta.0, tb, e) refl, differ x 0 e)
strcmp-same (suc f) m a b (x ∷ v) (y ∷ w) ta tb h = elim (Bool-cases (x == y)) [
  | inl e ↦
      let (r, runs, is) = strcmp-same f m (a + 1) (b + 1) v w ta.2 tb.2 (omega arith) in
      let no : x == 0 ≡ false = ground (arith, ta.1) in (r, rw (ta.0, tb.0, e, no) runs, rw e is)
  | inr e ↦ (sub_ℕ x y, rw (ta.0, tb.0, e) refl, rw e (differ x y e))
]

pub chomp-length :
    (m : Memory) (a : ℕ) (l : List ℕ)
    → Chars m a l
    → without_newline m a (length l) ≡ length (chomp l)
unfolding without_newline
chomp-length m a [] h = refl
chomp-length m a (x ∷ []) h = let p : a + 0 ≡ a = omega arith in rw (p, h.0) (ground arith)
chomp-length m a (x ∷ y ∷ l) h =
    let later = chomp-length m (a + 1) (y ∷ l) h.1 in
    let last : m (a + (suc (suc (length l)) - 1)) ≡ m (a + 1 + (suc (length l) - 1)) =
      ap m (omega arith) in
    ground (arith, later, last)

pub without_newline-le : (m : Memory) (a n : ℕ) → without_newline m a n ≤ n
unfolding without_newline
without_newline-le m a n = ground arith

Chars-chomp : (m : Memory) (a : ℕ) (l : List ℕ) → Chars m a l → Chars m a (chomp l)
Chars-chomp m a [] h = tt
Chars-chomp m a (x ∷ []) h = both_branches (Chars m a) (x == b'\n') tt h
Chars-chomp m a (x ∷ y ∷ l) h = (h.0, Chars-chomp m (a + 1) (y ∷ l) h.1)

NoNul-chomp : (l : List ℕ) → NoNul l → NoNul (chomp l)
NoNul-chomp [] h = tt
NoNul-chomp (x ∷ []) h = both_branches NoNul (x == b'\n') tt h
NoNul-chomp (x ∷ y ∷ l) h = (h.0, NoNul-chomp (y ∷ l) h.1)

-- A NUL behind characters makes a text of them.
terminated :
    (m : Memory) (a : ℕ) (w : List ℕ) (q : ℕ)
    → q ≡ a + length w
    → Chars m a w
    → NoNul w
    → Text (write m q 0) a w
terminated m a [] q e c n = ground (arith, e)
terminated m a (x ∷ w) q e c n =
    (ground (arith, e, c.0), n.0, terminated m (a + 1) w q (omega (arith, e)) c.1 n.1)

-- The line that a read has given, as the shell leaves it
pub line-Text :
    (m : Memory) (a : ℕ) (l : List ℕ)
    → Chars m a l
    → NoNul l
    → Text (write m (a + without_newline m a (length l)) 0) a (chomp l)
line-Text m a l c n =
    terminated m a (chomp l) _ (ap (λ (k : ℕ). a + k) (chomp-length m a l c)) (Chars-chomp m a l c)
      (NoNul-chomp l n)
