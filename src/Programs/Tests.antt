-- ===== src/Programs/Tests.antt =====
-- A system on which cat and ls run: its file is a list of pieces.
use unix_operation_system.Prelude.{
  ℕ, zero, suc, ◌+◌, ◌-◌, ◌≤◌, ◌≡◌, refl, ap, ◌∙◌, arith, Option, some, List, [], ◌∷◌, ◌++◌, length,
  get_or, if◌then◌else◌, leb, ltb, ◌&&◌,
}
use unix_operation_system.Prelude.Int.{ℤ, pos, fail, to_nat}
use unix_operation_system.Memory.{Memory, write}
use unix_operation_system.Numbers.Buffer.{Holds}
use unix_operation_system.Sample.{image, buffer}
use unix_operation_system.Programs.Support.{Agrees, support-Agrees}
use unix_operation_system.Programs.Reading.{Calls, Literals, ls}
use unix_operation_system.Programs.Pieces.{Plain, Serves, ls-lines, lines}

support-Agrees_example : Agrees image
support-Agrees_example = support-Agrees image

record System : Type 0 where
  memory : Memory
  left : List (List ℕ)
  written : List ℕ

abbrev filled : Memory → ℕ → List ℕ → Memory
filled m buf p a = if leb buf a && ltb a (buf + length p) then get_or p (a - buf) 0 else m a

filled-Holds : (m : Memory) (buf : ℕ) (p : List ℕ) → Holds (filled m buf p) buf p
filled-Holds m buf p i h = let same : buf + i - buf ≡ i = omega arith in rw same (ground (arith, h))

abbrev chars : ℕ → Memory → ℕ → List ℕ
chars zero m a = []
chars (suc n) m a = m a ∷ chars n m (a + 1)

chars-Holds : (m : Memory) (a : ℕ) (text : List ℕ) → Holds m a text → chars (length text) m a ≡ text
chars-Holds m a [] h = refl
chars-Holds m a (x ∷ xs) h =
    let first : m a ≡ x = ap m (omega arith) ∙ h 0 (omega arith) in
    let later : Holds m (a + 1) xs = λ i lt. ap m (omega arith) ∙ h (suc i) (omega arith) in
    rw (first, chars-Holds m (a + 1) xs later) refl

abbrev read_piece : System → ℕ → List (List ℕ) → Option (ℤ × System)
read_piece s buf [] = some (pos 0, s)
read_piece s buf (p ∷ ps) =
    some (pos (length p), record s { memory = filled (s.memory) buf p; left = ps })

abbrev calls : Calls System
calls = record {
  memory = λ s. s.memory;
  store = λ s a v. record s { memory = write (s.memory) a v };
  ece391_getargs = λ s buf n. some (pos 0, s);
  ece391_open = λ s name. some (pos 2, s);
  ece391_close = λ s fd. some (pos 0, s);
  ece391_vidmap = λ s start. some (fail, s);
  ece391_execute = λ s command. some (fail, s);
  call_sys = λ s num. some (fail, s);
  ece391_read = λ s fd buf n. read_piece s buf (s.left);
  ece391_write =
      λ s fd buf n. some (n, record s { written = s.written ++ chars (to_nat n) (s.memory) buf });
}

data Good : List (List ℕ) → Type 0 where
  done : Good []
  more :
      {p : List ℕ} {ps : List (List ℕ)}
      → 1 ≤ length p
      → length p ≤ 32
      → Plain p
      → Good ps
      → Good (p ∷ ps)

record At (s : System) (ps : List (List ℕ)) (out : List ℕ) : Type 0 where
  left : s.left ≡ ps
  written : s.written ≡ out
  good : Good ps

Good-piece :
    {p : List ℕ} {ps : List (List ℕ)}
    → Good (p ∷ ps)
    → (1 ≤ length p) × (length p ≤ 32) × Plain p × Good ps
Good-piece (more lo hi plain rest) = (lo, hi, plain, rest)

calls-Serves : (size : ℕ) → 32 ≤ size → Serves calls buffer size (pos 2) At
calls-Serves size enough = record {
  piece =
      λ {s} {p} {ps} {out} at. let g = Good-piece at.good in (g.0, omega (arith, enough, g.1), g.2);
  reads = λ {s} {p} {ps} {out} at. (
    record s { memory = filled (s.memory) buffer p; left = ps },
    rw at.left refl,
    filled-Holds (s.memory) buffer p,
    record { left = refl; written = at.written; good = (Good-piece at.good).3 },
  );
  ends = λ {s} {out} at. (s, rw at.left refl, at);
  writes = λ {s} {ps} {out} text at plain held. (
    pos (length text),
    record s { written = s.written ++ chars (length text) (s.memory) buffer },
    refl,
    refl,
    record {
      left = at.left;
      written = rw (chars-Holds (s.memory) buffer text held, at.written) refl;
      good = at.good;
    },
  );
  stores = λ {s} {ps} {out} i v inside at.
      (refl, record { left = at.left; written = at.written; good = at.good });
}

abbrev literals : Literals
literals = record { buf = buffer; no_arguments = 1; not_found = 2; read_failed = 3; dot = 4 }

abbrev two_pieces : List (List ℕ)
two_pieces = (b'h' ∷ b'i' ∷ []) ∷ (b'o' ∷ []) ∷ []

abbrev system : System
system = record { memory = λ a. 0; left = two_pieces; written = [] }

system-At : At system two_pieces []
system-At = record {
  left = refl;
  written = refl;
  good =
      more (omega arith) (omega arith) (λ i h. ground (arith, h))
        (more (omega arith) (omega arith) (λ i h. ground (arith, h)) done);
}

ls-lines_example :
    (s' : System) × (ls calls literals 3 system ≡ some (0, s')) × At s' [] ([] ++ lines two_pieces)
ls-lines_example =
    ls-lines calls literals (pos 2) At (calls-Serves 32 (omega arith)) 3 system system two_pieces []
      refl refl system-At (omega arith)
