-- ===== src/Terminal/Read.antt =====
-- What terminal_read of student-distrib/devices/terminal.c gives to a program.
use unix_operation_system.Prelude.{
  ℕ, zero, suc, ◌+◌, ◌≤◌, ◌<◌, ◌≡◌, ◌≢◌, refl, ◌∙◌, ◌⊎◌, inl, inr, arith, true, false, not, some,
  List, [], ◌∷◌, leb, ◌==◌, if◌then◌else◌, min, each_branch, Bool-cases, update,
}
use unix_operation_system.Prelude.Int.{ℤ, pos}
use unix_operation_system.Memory.{Memory}
use unix_operation_system.Blocks.{memset, memset-Set}
use unix_operation_system.State.{Kernel}
use unix_operation_system.Strings.{strncmp, strncmp_signed_loop}
use unix_operation_system.Keyboard.{key_buf_size}
use unix_operation_system.Keyboard.Handler.{enter}
use unix_operation_system.Terminal.{
  is_waiting, wait_loop, count_exit, read_loop, read_line, terminal_read, asked,
}

-- The first of the states between the steps in which Enter is pressed at the displayed terminal and a
-- process of that terminal runs
pub data Ready : List (Kernel → Kernel) → Kernel → Kernel → Type 0 where
  now :
      {es : List (Kernel → Kernel)} {k : Kernel}
      → (k.terminal k.display_term).read_flag ≢ 0
      → k.running_term ≡ k.display_term
      → Ready es k k
  later :
      {e : Kernel → Kernel} {es : List (Kernel → Kernel)} {k k' : Kernel}
      → ((k.terminal k.display_term).read_flag ≡ 0) ⊎ (k.running_term ≢ k.display_term)
      → Ready es (e k) k'
      → Ready (e ∷ es) k k'

is_waiting-now :
    (k : Kernel)
    → (k.terminal k.display_term).read_flag ≢ 0
    → k.running_term ≡ k.display_term
    → is_waiting k ≡ false
is_waiting-now k pressed shown = ground (arith, pressed, shown)

is_waiting-later :
    (k : Kernel)
    → ((k.terminal k.display_term).read_flag ≡ 0) ⊎ (k.running_term ≢ k.display_term)
    → is_waiting k ≡ true
is_waiting-later k (inl none_pressed) = ground (arith, none_pressed)
is_waiting-later k (inr hidden) = ground (arith, hidden)

wait_loop-Ready :
    {es : List (Kernel → Kernel)} {k k' : Kernel} → Ready es k k' → wait_loop es k ≡ some k'
unfolding wait_loop
wait_loop-Ready (now {es = []} {k} h r) = rw (is_waiting-now k h r) refl
wait_loop-Ready (now {es = e ∷ es} {k} h r) = rw (is_waiting-now k h r) refl
wait_loop-Ready (later {e} {es} {k} h r) = rw (is_waiting-later k h, wait_loop-Ready r)

read_loop-outside :
    (n : ℕ) (line : ℕ → ℕ) (count buf i p : ℕ) (m : Memory)
    → (p < buf + i) ⊎ (buf + i + n ≤ p)
    → read_loop n line count buf i m p ≡ m p
unfolding read_loop
read_loop-outside zero line count buf i p m o = refl
read_loop-outside (suc n) line count buf i p m o =
    read_loop-outside n line count buf (i + 1) p _ (omega arith) ∙ ground arith

read_loop-byte :
    (n : ℕ) (line : ℕ → ℕ) (count buf i j : ℕ) (m : Memory)
    → i ≤ j
    → j < i + n
    → read_loop n line count buf i m (buf + j) ≡ (if leb j count then line j else 0)
unfolding read_loop
read_loop-byte zero line count buf i j m h l = absurd (omega arith)
read_loop-byte (suc n) line count buf i j m h l = elim (Bool-cases (i == j)) [
  | inl e ↦ read_loop-outside n line count buf (i + 1) (buf + j) _ (ground arith) ∙ ground arith
  | inr d ↦ read_loop-byte n line count buf (i + 1) j _ (ground arith) (omega arith)
]

-- A line is read when the buffer holds it up to its end, with NULs behind, and the line buffer of
-- the keyboard is empty again.
pub record LineRead (k : Kernel) (buf nbytes : ℕ) (k' : Kernel) : Type 0 where
  pub bytes :
      (i : ℕ)
      → i < nbytes
      → k'.memory (buf + i)
        ≡ (if leb i (k.terminal k.display_term).count then k.keyboard.keyboard_buf i else 0)
  pub outside :
      (p : ℕ)
      → (p < buf) ⊎ (buf + 4 ≤ p)
      → (p < buf) ⊎ (buf + nbytes ≤ p)
      → k'.memory p ≡ k.memory p
  pub emptied : (i : ℕ) → i < key_buf_size → k'.keyboard.keyboard_buf i ≡ 0
  pub interrupts : k'.interrupts_on ≡ true

-- Of the state that is read, counting an exit changes nothing.
record SameLine (k k' : Kernel) : Type 0 where
  keyboard : k'.keyboard ≡ k.keyboard
  display : k'.display_term ≡ k.display_term
  count : (k'.terminal k.display_term).count ≡ (k.terminal k.display_term).count

count_exit-SameLine : (k : Kernel) → SameLine k (count_exit k)
unfolding count_exit
count_exit-SameLine k = record {
  keyboard = ground arith;
  display = ground arith;
  count = ground arith;
}

pub read_line-LineRead :
    (k : Kernel) (buf nbytes : ℕ)
    → k.running_term ≡ k.display_term
    → let (result, k') = read_line k buf nbytes in
      (result ≡ pos (min nbytes (k.terminal k.display_term).count)) × LineRead k buf nbytes k'
unfolding read_line
read_line-LineRead k buf nbytes shown =
    let off : Kernel = record k { memory = memset k.memory buf 0 4; interrupts_on = false } in
    let same = count_exit-SameLine off in
    let cleared = memset-Set k.memory buf 0 4 in
    let count = (k.terminal k.display_term).count in
    let P = λ (r : ℤ × Kernel). (r.0 ≡ pos (min nbytes count)) × LineRead k buf nbytes r.1 in
    each_branch P (not (k.running_term == k.display_term))
      (λ hidden. absurd (ground (arith, hidden, shown)))
      (λ e. (
        ground (arith, same.display, same.count),
        record {
          bytes = λ i h.
              read_loop-byte nbytes (count_exit off).keyboard.keyboard_buf _ buf 0 i _ (omega arith)
                (omega arith)
              ∙ ground (arith, same.display, same.count, same.keyboard);
          outside = λ p near far.
              read_loop-outside nbytes _ _ buf 0 p _ (ground (arith, far)) ∙ cleared.outside p near;
          emptied = λ i h. ground arith;
          interrupts = refl;
        },
      ))

-- terminal_read first takes back the flag of an earlier Enter: it sets the read_flag of the displayed
-- terminal to 0 and changes nothing else. It returns once the steps of the rest of the kernel reach, from
-- there, the first state in which the read_flag of the displayed terminal is set and that terminal is
-- the running one. If the terminals are still so when interrupts are off, the result
-- is the number of bytes asked for or the length of the line, whichever is less, and the line is
-- read.
pub terminal_read-LineRead :
    (es : List (Kernel → Kernel)) (late : Kernel → Kernel) (k k' : Kernel) (buf nbytes : ℕ)
    → Ready es
        (record k {
          terminal =
              update k.terminal k.display_term
                (record (k.terminal k.display_term) { read_flag = 0 });
        })
        k'
    → (late k').running_term ≡ (late k').display_term
    → (end : Kernel) × ((terminal_read es late k buf nbytes
          ≡ some (pos (min nbytes ((late k').terminal (late k').display_term).count), end))
        × LineRead (late k') buf nbytes end)
unfolding terminal_read asked
terminal_read-LineRead es late k k' buf nbytes ready shown =
    let r = read_line-LineRead (late k') buf nbytes shown in
    ((read_line (late k') buf nbytes).1, (rw (wait_loop-Ready ready) (ground (arith, r.0)), r.1))

-- When the displayed terminal changes between the last test of the wait and the switching off of
-- interrupts, terminal_read returns 0, leaves the typed line and the rest of the keyboard's state as they are,
-- and interrupts stay off.
pub terminal_read-overtaken :
    (es : List (Kernel → Kernel)) (late : Kernel → Kernel) (k k' : Kernel) (buf nbytes : ℕ)
    → Ready es
        (record k {
          terminal =
              update k.terminal k.display_term
                (record (k.terminal k.display_term) { read_flag = 0 });
        })
        k'
    → (late k').running_term ≢ (late k').display_term
    → (end : Kernel) × ((terminal_read es late k buf nbytes ≡ some (pos 0, end))
        × ((end.interrupts_on ≡ false) × (end.keyboard ≡ (late k').keyboard)))
unfolding terminal_read asked read_line
terminal_read-overtaken es late k k' buf nbytes ready hidden = (
  (read_line (late k') buf nbytes).1,
  (
    rw (wait_loop-Ready ready) (ground (arith, hidden)),
    (ground (arith, hidden), ground (arith, hidden)),
  ),
)

-- When four characters are typed, whatever they are, the line buffer holds bytes and Enter is
-- pressed, terminal_read counts no exit: Enter has stored a newline behind the word, where the
-- comparison, which is over five characters, asks for a NUL.
pub count_exit-enter :
    (k : Kernel)
    → ((i : ℕ) → k.keyboard.keyboard_buf i < 256)
    → k.keyboard.keybuf_count ≡ 4
    → count_exit (enter k) ≡ enter k
unfolding count_exit enter strncmp strncmp_signed_loop
count_exit-enter k bytes four = ground (arith, four, bytes 0, bytes 1, bytes 2, bytes 3)
