-- ===== src/Programs/Printing.antt =====
-- What terminal_write of student-distrib/devices/terminal.c puts on the screen for a program: the
-- characters of a text, one after the other.
use unix_operation_system.Prelude.{
  ℕ, zero, suc, ◌+◌, ◌-◌, ◌≤◌, ◌<◌, ◌≡◌, ◌≢◌, refl, ap, ◌∙◌, arith, true, some, List, [], ◌∷◌, ◌++◌,
  length, get_or, leb, ◌==◌, Bool-cases, inl, inr, if◌then◌else◌, ne→==,
}
use unix_operation_system.Prelude.Int.{pos}
use unix_operation_system.Memory.{Memory, IsString, max_rounds}
use unix_operation_system.Strings.Length.{strlen_unsigned-IsString}
use unix_operation_system.Numbers.Buffer.{Holds}
use unix_operation_system.Screen.{Screen}
use unix_operation_system.State.{Kernel}
use unix_operation_system.Terminal.{write_char, write_loop, terminal_write}

-- The screen after a text is put out by the process that runs
abbrev pub put_text : Kernel → List ℕ → Screen → Screen
put_text k [] s = s
put_text k (c ∷ cs) s = put_text k cs (write_char k c s)

pub put_text-append :
    (k : Kernel) (xs ys : List ℕ) (s : Screen)
    → put_text k (xs ++ ys) s ≡ put_text k ys (put_text k xs s)
put_text-append k [] ys s = refl
put_text-append k (x ∷ xs) ys s = put_text-append k xs ys (write_char k x s)

-- What the output depends on is the same.
pub record SameOutput (k k' : Kernel) : Type 0 where
  pub display : k'.display_term ≡ k.display_term
  pub running : k'.running_term ≡ k.running_term
  pub process :
      (k'.terminal k'.display_term).terminal_process_running
      ≡ (k.terminal k.display_term).terminal_process_running
  pub write_flag : k'.keyboard.write_flag ≡ k.keyboard.write_flag

write_char-same :
    (k k' : Kernel) (c : ℕ) (s : Screen) → SameOutput k k' → write_char k' c s ≡ write_char k c s
unfolding write_char
write_char-same k k' c s same =
    ground (arith, same.display, same.running, same.process, same.write_flag)

write_loop-put_text :
    (k k' : Kernel) (buf i : ℕ) (text : List ℕ) (s : Screen)
    → SameOutput k k'
    → ((j : ℕ) → j < length text → k'.memory (buf + (i + j)) ≡ get_or text j 0)
    → write_loop (length text) k' buf i s ≡ put_text k text s
unfolding write_loop
write_loop-put_text k k' buf i [] s same held = refl
write_loop-put_text k k' buf i (c ∷ cs) s same held =
    let first : k'.memory (buf + i) ≡ c = ap k'.memory (omega arith) ∙ held 0 (omega arith) in
    write_loop-put_text k k' buf (i + 1) cs (write_char k' (k'.memory (buf + i)) s) same
      (λ j h. ap k'.memory (omega arith) ∙ held (suc j) (omega arith))
    ∙ ap (put_text k cs) (ap (λ (d : ℕ). write_char k' d s) first ∙ write_char-same k k' c s same)

-- Before a NUL there is a string.
pub IsString-before : (m : Memory) (s d : ℕ) → m (s + d) ≡ 0 → (n : ℕ) × (n ≤ d) × IsString m s n
IsString-before m s zero e =
    (0, omega arith, record { ends = e; goes_on = λ i h. absurd (omega arith) })
IsString-before m s (suc d) e = elim (Bool-cases (m s == 0)) [
  | inl z ↦
      (0, omega arith, record { ends = ground (arith, z); goes_on = λ i h. absurd (omega arith) })
  | inr c ↦
      let (n, le, str) = IsString-before m (s + 1) d (ground (arith, e)) in
      (
        suc n,
        omega (arith, le),
        record {
          ends = ground (arith, str.ends);
          goes_on = λ i h. ground (arith, str.goes_on (i - 1), c, h);
        },
      )
]

-- With a NUL somewhere behind the buffer, a text in it is written whole.
pub terminal_write-text :
    (k k' : Kernel) (buf d : ℕ) (text : List ℕ)
    → SameOutput k k'
    → buf ≢ 0
    → Holds (k'.memory) buf text
    → k'.memory (buf + d) ≡ 0
    → d < max_rounds
    → (ret : ℕ) × (terminal_write k' buf (length text)
        ≡ some (pos ret, record k' { screen = put_text k text (k'.screen); interrupts_on = true }))
unfolding terminal_write
terminal_write-text k k' buf d text same some_buf held nul fits =
    let (n, le, str) = IsString-before k'.memory buf d nul in
    let shown =
      write_loop-put_text k k' buf 0 text k'.screen same
        (λ j h. ap k'.memory (omega arith) ∙ held j h) in
    (
      (if leb (length text) n then length text else n),
      rw (ne→== buf 0 some_buf, strlen_unsigned-IsString str (omega (arith, le, fits)), shown) refl,
    )

pub SameOutput-trans : {a b c : Kernel} → SameOutput a b → SameOutput b c → SameOutput a c
SameOutput-trans s t = record {
  display = t.display ∙ s.display;
  running = t.running ∙ s.running;
  process = t.process ∙ s.process;
  write_flag = t.write_flag ∙ s.write_flag;
}
