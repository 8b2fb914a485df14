-- ===== src/Strings/Reverse.antt =====
-- strrev of student-distrib/lib.c turns a string round in its place.
use unix_operation_system.Prelude.{
  ℕ, zero, suc, ◌+◌, ◌-◌, ◌*◌, ◌≤◌, ◌<◌, ◌≡◌, refl, sym, ap, ◌∙◌, ◌⊎◌, inl, inr, arith, false, some,
  ltb, ◌&&◌, leb, Bool-cases, ◌==◌, if◌then◌else◌, each_branch,
}
use unix_operation_system.Memory.{Memory, write, IsString, SameOutside, max_rounds}
use unix_operation_system.Strings.Length.{strlen_loop-IsString}
use unix_operation_system.Strings.{strrev_loop, strrev, strlen}

-- The place from which the character at `p` comes when those from `beg` to `end` are turned round
abbrev mirror : ℕ → ℕ → ℕ → ℕ → ℕ
mirror s beg end p = if leb (s + beg) p && leb p (s + end) then s + beg + (s + end - p) else p

abbrev swap : Memory → ℕ → ℕ → Memory
swap m a b = write (write m b (m a)) a (m b)

-- Turning round is swapping the ends and turning round what is between them.
mirror-swap :
    (m : Memory) (s beg end p : ℕ)
    → beg < end
    → swap m (s + beg) (s + end) (mirror s (beg + 1) (end - 1) p) ≡ m (mirror s beg end p)
mirror-swap m s beg end p lt = elim (Bool-cases (p == s + beg)) [
  | inl first ↦
      let out : mirror s (beg + 1) (end - 1) p ≡ s + beg = ground (arith, first) in
      let here : mirror s beg end p ≡ s + end = ground (arith, first, lt) in
      rw (out, here) (ground arith)
  | inr n ↦ elim (Bool-cases (p == s + end)) [
    | inl last ↦
        let out : mirror s (beg + 1) (end - 1) p ≡ s + end = ground (arith, last, lt) in
        let here : mirror s beg end p ≡ s + beg = ground (arith, last, lt) in
        rw (out, here) (ground (arith, lt))
    | inr n' ↦
        let same : mirror s (beg + 1) (end - 1) p ≡ mirror s beg end p =
          ground (arith, n, n', lt) in
        let q = mirror s beg end p in
        let ne : (q == s + beg) ≡ false = ground (arith, n, n', lt) in
        let ne' : (q == s + end) ≡ false = ground (arith, n, n', lt) in rw (same, ne, ne') refl
  ]
]

strrev_loop-mirror :
    (f : ℕ) (m : Memory) (s beg end p : ℕ)
    → end < beg + 2 * f
    → strrev_loop f m s beg end p ≡ m (mirror s beg end p)
unfolding strrev_loop
strrev_loop-mirror zero m s beg end p fuel = ap m (ground (arith, fuel))
strrev_loop-mirror (suc f) m s beg end p fuel =
    each_branch (λ (r : Memory). r p ≡ m (mirror s beg end p)) (ltb beg end)
      (λ e.
        strrev_loop-mirror f (swap m (s + beg) (s + end)) s (beg + 1) (end - 1) p
          (ground (arith, e))
        ∙ mirror-swap m s beg end p (ground (arith, e)))
      (λ e. ap m (ground (arith, e)))

strrev_loop-outside : (n : ℕ) (m : Memory) (s : ℕ) → SameOutside s n m (strrev_loop n m s 0 (n - 1))
unfolding strrev_loop
strrev_loop-outside zero m s p o = refl
strrev_loop-outside (suc n) m s p o =
    strrev_loop-mirror (suc n) m s 0 (suc n - 1) p (omega arith) ∙ ap m (ground (arith, o))

-- The memory after the string of `n` characters at `s` is turned round
pub record Reversed (m : Memory) (s n : ℕ) (m' : Memory) : Type 0 where
  pub chars : (i : ℕ) → i < n → m' (s + i) ≡ m (s + (n - 1 - i))
  pub outside : SameOutside s n m m'

turned_twice :
    {m m' m'' : Memory} {s n : ℕ} → Reversed m s n m' → Reversed m' s n m'' → (p : ℕ) → m'' p ≡ m p
turned_twice {m} {m'} {m''} {s} {n} once twice p = elim (Bool-cases (leb s p && ltb p (s + n))) [
  | inl within ↦
      let i = p - s in
      let lt : i < n = ground (arith, within) in
      let here : s + i ≡ p = ground (arith, within) in
      let there : s + (n - 1 - (n - 1 - i)) ≡ p = ground (arith, within) in
      ap m'' (sym here) ∙ twice.chars i lt ∙ once.chars (n - 1 - i) (omega arith) ∙ ap m there
  | inr without ↦
      let out : (p < s) ⊎ (s + n ≤ p) = ground (arith, without) in
      twice.outside p out ∙ once.outside p out
]

module _ {s n : ℕ} (fits : n < max_rounds) where
  pub Reversed-IsString : {m m' : Memory} → IsString m s n → Reversed m s n m' → IsString m' s n
  Reversed-IsString str r = record {
    ends = r.outside (s + n) (omega arith) ∙ str.ends;
    goes_on = λ i h z. str.goes_on (n - 1 - i) (omega arith) (ground (arith, r.chars i h, z));
  }

  strrev_once :
      (m : Memory) → IsString m s n → (m' : Memory) × (strrev m s ≡ some m') × Reversed m s n m'
  unfolding strrev strlen
  strrev_once m str =
      let m' = strrev_loop n m s 0 (n - 1) in
      let at = λ (p : ℕ). strrev_loop-mirror n m s 0 (n - 1) p in
      (
        m',
        rw (strlen_loop-IsString str max_rounds 0 (omega arith) (omega arith)) refl,
        record {
          chars = λ i h. at (s + i) (omega arith) ∙ ap m (ground (arith, h));
          outside = strrev_loop-outside n m s;
        },
      )

  -- strrev of a string that is shorter than the address space ends, turns its characters round in
  -- their place and changes nothing else; a second strrev gives back the memory as it was.
  pub strrev-Reversed :
      (m : Memory)
      → IsString m s n
      → (m' : Memory) × (strrev m s ≡ some m')
        × Reversed m s n m'
        × ((m'' : Memory) × (strrev m' s ≡ some m'') × ((p : ℕ) → m'' p ≡ m p))
  unfolding strrev
  strrev-Reversed m str =
      let once = strrev_once m str in
      let twice = strrev_once once.0 (Reversed-IsString str once.2) in
      (once.0, once.1, once.2, (twice.0, twice.1, turned_twice once.2 twice.2))
