-- ===== src/Programs/Pieces.antt =====
-- What cat and ls write, of what their reads give them. A program stores in its buffer only.
use mathlib.Core.List.{append_assoc, append-nil}
use unix_operation_system.Prelude.{
  ℕ, zero, suc, ◌+◌, ◌≤◌, ◌<◌, ◌≡◌, ◌≢◌, refl, arith, false, some, List, [], ◌∷◌, ◌++◌, length,
  get_or,
}
use unix_operation_system.Prelude.Int.{ℤ, pos, is_fail, is_nat}
use unix_operation_system.Memory.{write}
use unix_operation_system.Numbers.Buffer.{Holds, length-append, get_or-append}
use unix_operation_system.Programs.Reading.{Calls, Literals, cat_loop, cat, ls_loop, ls}

-- No NUL is among the characters.
abbrev pub Plain : List ℕ → Type 0
Plain cs = (i : ℕ) → i < length cs → get_or cs i 0 ≢ 0

abbrev pub joined : List (List ℕ) → List ℕ
joined [] = []
joined (p ∷ ps) = p ++ joined ps

abbrev pub lines : List (List ℕ) → List ℕ
lines [] = []
lines (p ∷ ps) = (p ++ (b'\n' ∷ [])) ++ lines ps

-- The system calls on a descriptor from which reads of `size` bytes give pieces: in the states where
-- `At s ps out` holds, the pieces `ps` are still to be read, and `out` was written.
pub record Serves {S : Type 0} (c : Calls S) (buf size : ℕ) (fd : ℤ)
    (At : S → List (List ℕ) → List ℕ → Type 0) : Type 0 where
  pub piece :
      {s : S} {p : List ℕ} {ps : List (List ℕ)} {out : List ℕ}
      → At s (p ∷ ps) out
      → (1 ≤ length p) × (length p ≤ size) × Plain p
  pub reads :
      {s : S} {p : List ℕ} {ps : List (List ℕ)} {out : List ℕ}
      → At s (p ∷ ps) out
      → (s' : S) × (c.ece391_read s fd buf size ≡ some (pos (length p), s'))
        × Holds (c.memory s') buf p
        × At s' ps out
  pub ends :
      {s : S} {out : List ℕ}
      → At s [] out
      → (s' : S) × (c.ece391_read s fd buf size ≡ some (pos 0, s')) × At s' [] out
  pub writes :
      {s : S} {ps : List (List ℕ)} {out : List ℕ} (text : List ℕ)
      → At s ps out
      → Plain text
      → Holds (c.memory s) buf text
      → (ret : ℤ) × (s' : S) × (c.ece391_write s (pos 1) buf (pos (length text)) ≡ some (ret, s'))
        × (is_fail ret ≡ false)
        × At s' ps (out ++ text)
  pub stores :
      {s : S} {ps : List (List ℕ)} {out : List ℕ} (i v : ℕ)
      → i ≤ size
      → At s ps out
      → (c.memory (c.store s (buf + i) v) ≡ write (c.memory s) (buf + i) v)
        × At (c.store s (buf + i) v) ps out

module _ {S : Type 0} (c : Calls S) (l : Literals) (fd : ℤ)
    (At : S → List (List ℕ) → List ℕ → Type 0) where
  cat_loop-joined :
      Serves c (l.buf) 1024 fd At
      → (f : ℕ) (s : S) (ps : List (List ℕ)) (out : List ℕ) → At s ps out
      → length ps < f
      → (s' : S) × (cat_loop c l f fd s ≡ some (0, s')) × At s' [] (out ++ joined ps)
  unfolding cat_loop
  cat_loop-joined v zero s ps out at fuel = absurd (omega arith)
  cat_loop-joined v (suc f) s [] out at fuel =
      let (end, e, at') = v.ends at in (end, rw e refl, rw (append-nil out) at')
  cat_loop-joined v (suc f) s (p ∷ ps) out at fuel =
      let (some_p, _, plain) = v.piece at in
      let (s1, e1, held, at1) = v.reads at in
      let (ret, s2, e2, ok, at2) = v.writes p at1 plain held in
      let more : is_nat (pos (length p)) 0 ≡ false = ground (arith, some_p) in
      let (end, e, at') = cat_loop-joined v f s2 ps (out ++ p) at2 (omega arith) in
      (end, rw (e1, more, e2, ok) e, rw (← append_assoc out p (joined ps)) at')

  -- When the arguments are got and the file opens, and its descriptor serves pieces of at most 1024
  -- characters, cat returns 0 after it has written all of the pieces, in order and nothing else; a
  -- round more than there are pieces is enough.
  pub cat-joined :
      Serves c (l.buf) 1024 fd At
      → (f : ℕ) (s s1 s2 : S) (ps : List (List ℕ)) (out : List ℕ)
      → c.ece391_getargs s l.buf 1024 ≡ some (pos 0, s1)
      → c.ece391_open s1 l.buf ≡ some (fd, s2)
      → is_fail fd ≡ false
      → At s2 ps out
      → length ps < f
      → (s' : S) × (cat c l f s ≡ some (0, s')) × At s' [] (out ++ joined ps)
  unfolding cat
  cat-joined v f s s1 s2 ps out got opened ok at fuel =
      let (end, e, at') = cat_loop-joined v f s2 ps out at fuel in
      (end, rw (got, opened, ok) e, at')

  line-Holds :
      (s : S) (p : List ℕ)
      → Holds (c.memory s) (l.buf) p
      → c.memory (c.store s (l.buf + length p) b'\n') ≡ write (c.memory s) (l.buf + length p) b'\n'
      → Holds (c.memory (c.store s (l.buf + length p) b'\n')) (l.buf) (p ++ (b'\n' ∷ []))
  line-Holds s p h e =
      rw (e, length-append p b'\n') (λ i lt. rw (get_or-append p b'\n' i) (ground (arith, h i, lt)))

  line-Plain : (p : List ℕ) → Plain p → Plain (p ++ (b'\n' ∷ []))
  line-Plain p plain i lt =
      let lt' : i < length p + 1 = rw (length-append p b'\n') at lt in
      rw (get_or-append p b'\n' i) (ground (arith, plain i, lt'))

  ls_loop-lines :
      Serves c (l.buf) 32 fd At
      → (f : ℕ) (s : S) (ps : List (List ℕ)) (out : List ℕ) → At s ps out
      → length ps < f
      → (s' : S) × (ls_loop c l f fd s ≡ some (0, s')) × At s' [] (out ++ lines ps)
  unfolding ls_loop
  ls_loop-lines v zero s ps out at fuel = absurd (omega arith)
  ls_loop-lines v (suc f) s [] out at fuel =
      let (end, e, at') = v.ends at in (end, rw e refl, rw (append-nil out) at')
  ls_loop-lines v (suc f) s (p ∷ ps) out at fuel =
      let (some_p, size, plain) = v.piece at in
      let (s1, e1, held, at1) = v.reads at in
      let (stored, at2) = v.stores (length p) b'\n' size at1 in
      let line = p ++ (b'\n' ∷ []) in
      let (ret, s3, e2, ok, at3) =
        v.writes line at2 (line-Plain p plain) (line-Holds s1 p held stored) in
      let more : is_nat (pos (length p)) 0 ≡ false = ground (arith, some_p) in
      let long = length-append p b'\n' in
      let (end, e, at') = ls_loop-lines v f s3 ps (out ++ line) at3 (omega arith) in
      (end, rw (e1, more, ← long, e2, ok) e, rw (← append_assoc out line (lines ps)) at')

  -- When the directory opens, and its descriptor serves names of at most 32 characters, ls returns 0
  -- after it has written each name with a newline, in order and nothing else; a round more than there
  -- are names is enough.
  pub ls-lines :
      Serves c (l.buf) 32 fd At
      → (f : ℕ) (s s1 : S) (ps : List (List ℕ)) (out : List ℕ)
      → c.ece391_open s l.dot ≡ some (fd, s1)
      → is_fail fd ≡ false
      → At s1 ps out
      → length ps < f
      → (s' : S) × (ls c l f s ≡ some (0, s')) × At s' [] (out ++ lines ps)
  unfolding ls
  ls-lines v f s s1 ps out opened ok at fuel =
      let (end, e, at') = ls_loop-lines v f s1 ps out at fuel in (end, rw (opened, ok) e, at')
