-- ===== src/Programs/Support.antt =====
-- The functions of syscalls/ece391support.c against those of student-distrib/lib.c.
use unix_operation_system.Prelude.{
  ℕ, zero, suc, ◌+◌, ◌-◌, ◌/◌, ◌%◌, ◌≡◌, refl, sym, ap, arith, none, some, ◌==◌, Bool-cases, inl,
  inr, Option, leb, false, if◌then◌else◌, ◌>>=◌,
}
use native.Mathlib.Numerals.{unary_clauses}
use unix_operation_system.Prelude.Int.{pos, sub_ℕ}
use unix_operation_system.Memory.{Memory, write, max_rounds}
use unix_operation_system.Strings.{
  strlen_loop, strlen, strlen_unsigned, strcpy_loop, strcpy_unsigned, strncmp_loop,
  strncmp_unsigned, strrev_loop, strrev,
}
use unix_operation_system.Numbers.{digit, write_digits, itoa_buffer}
use unix_operation_system.Programs.{
  user_strlen_loop, ece391_strlen, user_strcpy_loop, ece391_strcpy, ece391_strncmp,
  user_strrev_loop, ece391_strrev, user_itoa_loop, ece391_itoa,
}

-- On a memory, each function does what the one of the kernel does.
pub record Agrees (m : Memory) : Type 0 where
  pub length : (s : ℕ) → ece391_strlen m s ≡ strlen_unsigned m s
  pub copy : (dst src : ℕ) → ece391_strcpy m dst src ≡ strcpy_unsigned m dst src
  pub compare : (s1 s2 n : ℕ) → ece391_strncmp n m s1 s2 ≡ strncmp_unsigned m s1 s2 n
  pub reverse : (s : ℕ) → ece391_strrev m s ≡ strrev m s
  pub print : (value buf radix : ℕ) → ece391_itoa m value buf radix ≡ itoa_buffer m value buf radix

strlen_same : (f : ℕ) (m : Memory) (s i : ℕ) → user_strlen_loop f m (s + i) i ≡ strlen_loop f m s i
unfolding user_strlen_loop strlen_loop
strlen_same zero m s i = refl
strlen_same (suc f) m s i = elim (Bool-cases (m (s + i) == 0)) [
  | inl e ↦ ground (arith, e)
  | inr e ↦ ground (arith, e, strlen_same f m s (i + 1))
]

strcpy_same :
    (f : ℕ) (m : Memory) (dst src i : ℕ)
    → user_strcpy_loop f m (dst + i) (src + i) ≡ strcpy_loop f m dst src i
unfolding user_strcpy_loop strcpy_loop
strcpy_same zero m dst src i = refl
strcpy_same (suc f) m dst src i = elim (Bool-cases (m (src + i) == 0)) [
  | inl e ↦ let nul : m (src + i) ≡ 0 = ground (arith, e) in rw nul refl
  | inr e ↦
      let rest = strcpy_same f (write m (dst + i) (m (src + i))) dst src (i + 1) in
      ground (arith, e, rest)
]

sub_ℕ-self : (a : ℕ) → sub_ℕ a a ≡ pos 0
sub_ℕ-self a = ground arith

strncmp_same :
    (n : ℕ) (m : Memory) (s1 s2 i : ℕ)
    → ece391_strncmp n m (s1 + i) (s2 + i) ≡ strncmp_loop n m s1 s2 i
unfolding ece391_strncmp strncmp_loop
strncmp_same zero m s1 s2 i = refl
strncmp_same (suc n) m s1 s2 i = elim (Bool-cases (m (s1 + i) == m (s2 + i))) [
  | inr ne ↦ ground (arith, ne)
  | inl e ↦
      let same : m (s1 + i) ≡ m (s2 + i) = ground (arith, e) in
      elim (Bool-cases (m (s1 + i) == 0)) [
        | inl nul ↦ rw (e, nul, same) (sym (sub_ℕ-self (m (s2 + i))))
        | inr c ↦
            rw (e, c)
              (elim (Bool-cases (n == 0)) [
                | inl last ↦ let is : n ≡ 0 = ground (arith, last) in rw is refl
                | inr more ↦
                    let p : s1 + i + 1 ≡ s1 + (i + 1) = omega arith in
                    let q : s2 + i + 1 ≡ s2 + (i + 1) = omega arith in
                    rw (more, p, q) (strncmp_same n m s1 s2 (i + 1))
              ])
      ]
]

reversed_same :
    (m : Memory) (s n : ℕ)
    → (if leb n 1 then m else user_strrev_loop n m s 0 (n - 1)) ≡ strrev_loop n m s 0 (n - 1)
unfolding user_strrev_loop strrev_loop
reversed_same m s zero = refl
reversed_same m s (suc n) = elim (Bool-cases (n == 0)) [
  | inl z ↦ let is : n ≡ 0 = ground (arith, z) in rw is refl
  | inr more ↦ let long : leb (suc n) 1 ≡ false = ground (arith, more) in rw long refl
]

strrev_of :
    (m : Memory) (s : ℕ) (o : Option ℕ)
    → (o >>= λ n. some (if leb n 1 then m else user_strrev_loop n m s 0 (n - 1)))
      ≡ (o >>= λ n. some (strrev_loop n m s 0 (n - 1)))
strrev_of m s none = refl
strrev_of m s (some n) = ap some (reversed_same m s n)

strlen_top : (m : Memory) (s : ℕ) → ece391_strlen m s ≡ strlen m s
unfolding ece391_strlen strlen
strlen_top m s = simp unary_clauses at (strlen_same max_rounds m s 0)

strrev_same : (m : Memory) (s : ℕ) → ece391_strrev m s ≡ strrev m s
unfolding ece391_strrev strrev
strrev_same m s = rw (strlen_top m s) (strrev_of m s (strlen m s))

itoa_same : (f : ℕ) (m : Memory) (v b r : ℕ) → user_itoa_loop f m v b r ≡ write_digits f m v b r
unfolding user_itoa_loop write_digits
itoa_same zero m v b r = refl
itoa_same (suc f) m v b r = elim (Bool-cases (v == 0)) [
  | inl z ↦ ground (arith, z)
  | inr n ↦ ground (arith, n, itoa_same f (write m b (digit (v % r))) (v / r) (b + 1) r)
]

-- The functions on strings and numbers that the programs share do the same on every memory as those
-- of the kernel: strlen, strcpy, strncmp, strrev and itoa, and do not end where these do not.
pub support-Agrees : (m : Memory) → Agrees m
unfolding ece391_strlen strlen_unsigned ece391_strcpy strcpy_unsigned strncmp_unsigned strlen
    ece391_itoa itoa_buffer
support-Agrees m = record {
  length = strlen_top m;
  copy = λ dst src. simp unary_clauses at (strcpy_same max_rounds m dst src 0);
  compare = λ s1 s2 n. simp unary_clauses at (strncmp_same n m s1 s2 0);
  reverse = strrev_same m;
  print = λ value buf radix.
      let e = itoa_same 32 m value buf radix in
      rw e (
        ap
          (λ (o : Option Memory).
            if value == 0 then some (write (write m buf b'0') (buf + 1) 0) else o)
          (strrev_same
            (write (write_digits 32 m value buf radix).0 (write_digits 32 m value buf radix).1 0)
            buf));
}
