-- ===== src/Programs/Shell/Sessions.antt =====
-- What the shell runs over the calls of the kernel, of the lines that it reads.
use unix_operation_system.Prelude.{
  ℕ, zero, suc, ◌+◌, ◌<◌, ◌≤◌, ◌≡◌, ◌⊎◌, refl, ◌∙◌, arith, true, false, some, List, [], ◌∷◌, length,
  ◌==◌,
}
use unix_operation_system.Prelude.Int.{ℤ, pos, is_fail, is_nat}
use unix_operation_system.Memory.{Memory, write, max_rounds, lt-max_rounds}
use unix_operation_system.State.{Kernel}
use unix_operation_system.Syscall.Calls.{sys_read}
use unix_operation_system.Programs.{ece391_strcmp}
use unix_operation_system.Programs.Reading.{ece391_fdputs}
use unix_operation_system.Programs.Machine.{Setting, kernel_calls, of_outcome}
use unix_operation_system.Programs.Shell.{Texts, without_newline, report, shell_loop, shell}
use unix_operation_system.Programs.Shell.Commands.{
  Chars, NoNul, Text, chomp, same, strcmp-same, line-Text, chomp-length, without_newline-le,
}

abbrev pub exit_command : List ℕ
exit_command = b'e' ∷ b'x' ∷ b'i' ∷ b't' ∷ []

-- A NUL that does not stand in a text leaves it.
Text-write :
    (m : Memory) (a : ℕ) (w : List ℕ) (q : ℕ)
    → (q < a) ⊎ (a + length w < q)
    → Text m a w
    → Text (write m q 0) a w
Text-write m a [] q apart t = ground (arith, apart, t)
Text-write m a (x ∷ w) q apart t =
    (ground (arith, apart, t.0), t.1, Text-write m (a + 1) w q (omega arith) t.2)

-- The first byte of a text tells whether it is empty.
Text-empty : (m : Memory) (a : ℕ) (w : List ℕ) → w ≡ [] → Text m a w → m a ≡ 0
Text-empty m a [] e t = t
Text-empty m a (x ∷ w) e t = absurd cc

Text-first : (m : Memory) (a x : ℕ) (w v : List ℕ) → v ≡ x ∷ w → Text m a v → m a == 0 ≡ false
Text-first m a x w [] e t = absurd cc
Text-first m a x w (y ∷ v) e t = ground (arith, t.0, t.1)

module _ (c : Setting) (t : Texts) where
  -- The kernel with the command of a line in the buffer: a NUL stands behind the line without its newline.
  abbrev pub cut : List ℕ → Kernel → Kernel
  cut l k = record k { memory = write k.memory (t.buf + length (chomp l)) 0 }

  -- The prompt is written in `k`, and the line `l` is read, in `k'`.
  pub record Line (l : List ℕ) (k k' : Kernel) : Type 0 where
    pub prompted : Kernel
    pub prompt : ece391_fdputs (kernel_calls c) k (pos 1) t.prompt ≡ some prompted
    pub read :
        of_outcome (sys_read c.others prompted (pos 0) t.buf (pos 1023)) ≡ some (pos (length l), k')
    pub chars : Chars k'.memory t.buf l
    pub no_nul : NoNul l
    pub short : length l ≤ 1023
    pub exit : Text k'.memory t.exit exit_command
    pub apart : (t.exit + 4 < t.buf) ⊎ (t.buf + 1023 < t.exit)

  -- What is said of a status
  pub data Told : ℤ → Kernel → Kernel → Type 0 where
    unknown :
        {r : ℤ} {k k' : Kernel}
        → is_fail r ≡ true
        → ece391_fdputs (kernel_calls c) k (pos 1) t.no_such_command ≡ some k'
        → Told r k k'
    exception :
        {r : ℤ} {k k' : Kernel}
        → is_fail r ≡ false
        → is_nat r 256 ≡ true
        → ece391_fdputs (kernel_calls c) k (pos 1) t.by_exception ≡ some k'
        → Told r k k'
    abnormal :
        {r : ℤ} {k k' : Kernel}
        → is_fail r ≡ false
        → is_nat r 256 ≡ false
        → is_nat r 0 ≡ false
        → ece391_fdputs (kernel_calls c) k (pos 1) t.abnormally ≡ some k'
        → Told r k k'
    normal :
        {r : ℤ} {k : Kernel}
        → is_fail r ≡ false
        → is_nat r 256 ≡ false
        → is_nat r 0 ≡ true
        → Told r k k

  -- A session of `n` lines and the commands in it
  pub data Session : ℕ → Kernel → List (List ℕ) → Kernel → Type 0 where
    ends :
        {l : List ℕ} {k k' : Kernel}
        → Line l k k'
        → same (chomp l) exit_command ≡ true
        → Session 1 k [] (cut l k')
    blank :
        {n : ℕ} {l : List ℕ} {cs : List (List ℕ)} {k k' end : Kernel}
        → Line l k k'
        → chomp l ≡ []
        → Session n (cut l k') cs end
        → Session (n + 1) k cs end
    command :
        {n : ℕ} {l w : List ℕ} {x : ℕ} {cs : List (List ℕ)} {k k' k1 k2 end : Kernel} {r : ℤ}
        → Line l k k'
        → chomp l ≡ x ∷ w
        → same (x ∷ w) exit_command ≡ false
        → (kernel_calls c).ece391_execute (cut l k') t.buf ≡ some (r, k1)
        → Told r k1 k2
        → Session n k2 cs end
        → Session (n + 1) k ((x ∷ w) ∷ cs) end

  report-Told : {r : ℤ} {k k' : Kernel} → Told r k k' → report (kernel_calls c) t r k ≡ some k'
  unfolding report
  report-Told (unknown fails e) = rw (fails, e) refl
  report-Told (exception f0 is e) = rw (f0, is, e) refl
  report-Told (abnormal f0 f1 f2 e) = rw (f0, f1, f2, e) refl
  report-Told (normal f0 f1 is) = rw (f0, f1, is) refl

  -- What the shell finds in its buffer then
  record Given (l : List ℕ) (k k' : Kernel) : Type 0 where
    at : without_newline k'.memory t.buf (length l) ≡ length (chomp l)
    text : Text (cut l k').memory t.buf (chomp l)
    differs : ℤ
    compared : ece391_strcmp (cut l k').memory t.buf t.exit ≡ some differs
    says_exit : is_nat differs 0 ≡ same (chomp l) exit_command

  Line-Given : {l : List ℕ} {k k' : Kernel} → Line l k k' → Given l k k'
  unfolding ece391_strcmp
  Line-Given {l} {k} {k'} v =
      let at = chomp-length k'.memory t.buf l v.chars in
      let small : length (chomp l) ≤ length l =
        rw (← at) (without_newline-le k'.memory t.buf (length l)) in
      let text : Text (cut l k').memory t.buf (chomp l) =
        let found = line-Text k'.memory t.buf l v.chars v.no_nul in rw at at found in
      let few : length (chomp l) ≤ 1023 = omega (arith, small, v.short) in
      let kept =
        Text-write k'.memory t.exit exit_command (t.buf + length (chomp l))
          (omega (arith, few, v.apart)) v.exit in
      let (r, e, is) =
        strcmp-same max_rounds (cut l k').memory t.buf t.exit (chomp l) exit_command text kept
          (lt-max_rounds (length (chomp l)) (omega (arith, few))) in
      record { at = at; text = text; differs = r; compared = e; says_exit = is }

  shell_loop-Session :
      (f : ℕ) {n : ℕ} {k end : Kernel} {cs : List (List ℕ)}
      → Session n k cs end
      → n ≤ f
      → shell_loop (kernel_calls c) t f k ≡ some (0, end)
  unfolding shell_loop
  shell_loop-Session zero (ends v is) h = absurd (omega (arith, h))
  shell_loop-Session zero (blank v empty s) h = absurd (omega (arith, h))
  shell_loop-Session zero (command v is other ran told s) h = absurd (omega (arith, h))
  shell_loop-Session (suc f) (ends v is) h =
      let g = Line-Given v in rw (v.prompt, v.read, g.at, g.compared, g.says_exit, is) refl
  shell_loop-Session (suc f) (blank {n} {l} {cs} {k} {k'} v empty s) h =
      let g = Line-Given v in
      let first = Text-empty (cut l k').memory t.buf (chomp l) empty g.text in
      let no : is_nat g.differs 0 ≡ false = g.says_exit ∙ rw empty refl in
      rw (v.prompt, v.read, g.at, g.compared, no, first) (shell_loop-Session f s (omega (arith, h)))
  shell_loop-Session (suc f) (command {n} {l} {w} {x} {cs} {k} {k'} v is other ran told s) h =
      let g = Line-Given v in
      let first = Text-first (cut l k').memory t.buf x w (chomp l) is g.text in
      let no : is_nat g.differs 0 ≡ false = g.says_exit ∙ rw is other in
      rw (v.prompt, v.read, g.at, g.compared, no, first, ran, report-Told told)
        (shell_loop-Session f s (omega (arith, h)))

  -- On the calls of the kernel: let the start message be written, and let then lines be read after the
  -- prompt, each of at most 1023 characters without a NUL, up to one that says exit, where the string
  -- exit stands apart from the buffer. For each line between that is not empty let the kernel return from
  -- the execution of what stands in the buffer once a NUL is behind the line without its newline, and
  -- let the message for the status be written: that the command is unknown for -1, that an exception
  -- ended it for 256, that it ended abnormally for another status than 0, none for 0. Then the shell goes
  -- through exactly these states and returns 0, in the state after the line that says exit, within a round
  -- for each line.
  pub shell-Session :
      (f n : ℕ) (k k1 end : Kernel) (cs : List (List ℕ))
      → ece391_fdputs (kernel_calls c) k (pos 1) t.starting ≡ some k1
      → Session n k1 cs end
      → n ≤ f
      → shell (kernel_calls c) t f k ≡ some (0, end)
  unfolding shell
  shell-Session f n k k1 end cs started s h = rw started (shell_loop-Session f s h)
