-- ===== src/Blocks/Words.antt =====
-- The instructions of memset, memset_word, memset_dword and memcpy in student-distrib/lib.c: bytes up
-- to an aligned address, then words, then the bytes that are left.
use unix_operation_system.Prelude.{
  ℕ, zero, suc, ◌+◌, ◌*◌, ◌/◌, ◌%◌, ◌<◌, ◌≡◌, refl, sym, ap, ◌∙◌, arith, ◌==◌, if◌then◌else◌,
  each_branch,
}
use unix_operation_system.Memory.{Memory, write, Apart, store_word, copy_word}
use unix_operation_system.Blocks.{memset_loop, memset, memcpy_loop, memcpy}

-- `rep stosl` and `rep stosw`, with `k` in %ecx
unfoldable pub stosl : ℕ → Memory → ℕ → ℕ → Memory
stosl zero m edi eax = m
stosl (suc k) m edi eax = stosl k (store_word m edi eax) (edi + 4) eax

unfoldable pub stosw : ℕ → Memory → ℕ → ℕ → Memory
stosw zero m edi eax = m
stosw (suc k) m edi eax =
    stosw k (write (write m edi (eax % 256)) (edi + 1) (eax / 256 % 256)) (edi + 2) eax

-- `.memset_aligned` and `.memset_bottom`, where %eax holds the byte `c` four times
unfoldable pub memset_aligned : ℕ → Memory → ℕ → ℕ → Memory
memset_aligned ecx m edi c =
    memset_loop (ecx % 4) (stosl (ecx / 4) m edi (c * 0x1010101)) (edi + 4 * (ecx / 4)) c

-- `.memset_top`, with `n` in %ecx
unfoldable pub memset_top : ℕ → Memory → ℕ → ℕ → Memory
unfolding memset_aligned
memset_top zero m edi c = m
memset_top (suc n) m edi c =
    let rest = memset_top n (write m edi c) (edi + 1) c in
    if edi % 4 == 0 then memset_aligned (suc n) m edi c else rest

unfoldable pub memset_word : Memory → ℕ → ℕ → ℕ → Memory
memset_word m s c n = stosw n m s c

unfoldable pub memset_dword : Memory → ℕ → ℕ → ℕ → Memory
memset_dword m s c n = stosl n m s c

-- `rep movsl`: a word is read before it is written.
unfoldable pub movsl : ℕ → Memory → ℕ → ℕ → Memory
movsl zero m edi esi = m
movsl (suc k) m edi esi = movsl k (copy_word m edi esi) (edi + 4) (esi + 4)

unfoldable pub memcpy_aligned : ℕ → Memory → ℕ → ℕ → Memory
memcpy_aligned ecx m edi esi =
    memcpy_loop (ecx % 4) (movsl (ecx / 4) m edi esi) (edi + 4 * (ecx / 4)) (esi + 4 * (ecx / 4))

unfoldable pub memcpy_top : ℕ → Memory → ℕ → ℕ → Memory
unfolding memcpy_aligned
memcpy_top zero m edi esi = m
memcpy_top (suc n) m edi esi =
    let rest = memcpy_top n (write m edi (m esi)) (edi + 1) (esi + 1) in
    if edi % 4 == 0 then memcpy_aligned (suc n) m edi esi else rest

memset_loop-split :
    (a b : ℕ) (m : Memory) (s c : ℕ)
    → memset_loop (a + b) m s c ≡ memset_loop b (memset_loop a m s c) (s + a) c
unfolding memset_loop
memset_loop-split zero b m s c =
    let same : 0 + b ≡ b = omega arith in let here : s + 0 ≡ s = omega arith in rw (same, here) refl
memset_loop-split (suc a) b m s c =
    let next : suc a + b ≡ suc (a + b) = omega arith in
    let there : s + suc a ≡ s + 1 + a = omega arith in
    rw (next, there) (memset_loop-split a b (write m s c) (s + 1) c)

memset_loop-step :
    (n : ℕ) (m : Memory) (s c s' : ℕ)
    → s + 1 ≡ s'
    → memset_loop (suc n) m s c ≡ memset_loop n (write m s c) s' c
unfolding memset_loop
memset_loop-step n m s c s' e = rw e refl

stosl-memset_loop :
    (k : ℕ) (m : Memory) (s c : ℕ)
    → c < 256
    → stosl k m s (c * 0x1010101) ≡ memset_loop (4 * k) m s c
unfolding stosl memset_loop store_word
stosl-memset_loop zero m s c lt = refl
stosl-memset_loop (suc k) m s c lt =
    let four : 4 * suc k ≡ suc (suc (suc (suc (4 * k)))) = omega arith in
    let byte0 : c * 0x1010101 % 256 ≡ c = omega arith in
    let byte1 : c * 0x1010101 / 256 % 256 ≡ c = omega arith in
    let byte2 : c * 0x1010101 / 65536 % 256 ≡ c = omega arith in
    let byte3 : c * 0x1010101 / 16777216 % 256 ≡ c = omega arith in
    let one = write m s c in
    let two = write one (s + 1) c in
    let three = write two (s + 2) c in
    let all = write three (s + 3) c in
    rw (four, byte0, byte1, byte2, byte3)
      (stosl-memset_loop k all (s + 4) c lt
        ∙ sym (
            memset_loop-step (suc (suc (suc (4 * k)))) m s c (s + 1) refl
            ∙ memset_loop-step (suc (suc (4 * k))) one (s + 1) c (s + 2) (omega arith)
            ∙ memset_loop-step (suc (4 * k)) two (s + 2) c (s + 3) (omega arith)
            ∙ memset_loop-step (4 * k) three (s + 3) c (s + 4) (omega arith)))

memset_aligned-memset_loop :
    (n : ℕ) (m : Memory) (s c : ℕ) → c < 256 → memset_aligned n m s c ≡ memset_loop n m s c
unfolding memset_aligned
memset_aligned-memset_loop n m s c lt =
    let sum : n ≡ 4 * (n / 4) + n % 4 = omega arith in
    ap (λ w. memset_loop (n % 4) w (s + 4 * (n / 4)) c) (stosl-memset_loop (n / 4) m s c lt)
    ∙ sym (memset_loop-split (4 * (n / 4)) (n % 4) m s c)
    ∙ ap (λ k. memset_loop k m s c) (sym sum)

memset_top-memset_loop :
    (n : ℕ) (m : Memory) (s c : ℕ) → c < 256 → memset_top n m s c ≡ memset_loop n m s c
unfolding memset_top memset_loop
memset_top-memset_loop zero m s c lt = refl
memset_top-memset_loop (suc n) m s c lt =
    let loop = memset_loop n (write m s c) (s + 1) c in
    each_branch (λ r. r ≡ loop) (s % 4 == 0) {x = memset_aligned (suc n) m s c}
      {y = memset_top n (write m s c) (s + 1) c} (λ e. memset_aligned-memset_loop (suc n) m s c lt)
      (λ e. memset_top-memset_loop n (write m s c) (s + 1) c lt)

memcpy_loop-split :
    (a b : ℕ) (m : Memory) (d e : ℕ)
    → memcpy_loop (a + b) m d e ≡ memcpy_loop b (memcpy_loop a m d e) (d + a) (e + a)
unfolding memcpy_loop
memcpy_loop-split zero b m d e =
    let same : 0 + b ≡ b = omega arith in
    let here : d + 0 ≡ d = omega arith in
    let there : e + 0 ≡ e = omega arith in rw (same, here, there) refl
memcpy_loop-split (suc a) b m d e =
    let next : suc a + b ≡ suc (a + b) = omega arith in
    let here : d + suc a ≡ d + 1 + a = omega arith in
    let there : e + suc a ≡ e + 1 + a = omega arith in
    rw (next, here, there) (memcpy_loop-split a b (write m d (m e)) (d + 1) (e + 1))

memcpy_loop-step :
    (n : ℕ) (m : Memory) (d e v d' e' : ℕ)
    → m e ≡ v
    → d + 1 ≡ d'
    → e + 1 ≡ e'
    → memcpy_loop (suc n) m d e ≡ memcpy_loop n (write m d v) d' e'
unfolding memcpy_loop
memcpy_loop-step n m d e v d' e' read here there = rw (read, here, there) refl

movsl-memcpy_loop :
    (k : ℕ) (m : Memory) (d e : ℕ)
    → Apart e (4 * k) d (4 * k)
    → movsl k m d e ≡ memcpy_loop (4 * k) m d e
unfolding movsl memcpy_loop copy_word
movsl-memcpy_loop zero m d e apart = refl
movsl-memcpy_loop (suc k) m d e apart =
    let four : 4 * suc k ≡ suc (suc (suc (suc (4 * k)))) = omega arith in
    let one = write m d (m e) in
    let two = write one (d + 1) (m (e + 1)) in
    let three = write two (d + 2) (m (e + 2)) in
    rw four (
      movsl-memcpy_loop k (copy_word m d e) (d + 4) (e + 4) (omega arith)
      ∙ sym (
          memcpy_loop-step (suc (suc (suc (4 * k)))) m d e (m e) (d + 1) (e + 1) refl refl refl
          ∙ memcpy_loop-step (suc (suc (4 * k))) one (d + 1) (e + 1) (m (e + 1)) (d + 2) (e + 2)
              (ground arith) (omega arith) (omega arith)
          ∙ memcpy_loop-step (suc (4 * k)) two (d + 2) (e + 2) (m (e + 2)) (d + 3) (e + 3)
              (ground arith) (omega arith) (omega arith)
          ∙ memcpy_loop-step (4 * k) three (d + 3) (e + 3) (m (e + 3)) (d + 4) (e + 4)
              (ground arith) (omega arith) (omega arith)))

memcpy_aligned-memcpy_loop :
    (n : ℕ) (m : Memory) (d e : ℕ) → Apart e n d n → memcpy_aligned n m d e ≡ memcpy_loop n m d e
unfolding memcpy_aligned
memcpy_aligned-memcpy_loop n m d e apart =
    let sum : n ≡ 4 * (n / 4) + n % 4 = omega arith in
    ap (λ w. memcpy_loop (n % 4) w (d + 4 * (n / 4)) (e + 4 * (n / 4)))
      (movsl-memcpy_loop (n / 4) m d e (omega arith))
    ∙ sym (memcpy_loop-split (4 * (n / 4)) (n % 4) m d e)
    ∙ ap (λ k. memcpy_loop k m d e) (sym sum)

memcpy_top-memcpy_loop :
    (n : ℕ) (m : Memory) (d e : ℕ) → Apart e n d n → memcpy_top n m d e ≡ memcpy_loop n m d e
unfolding memcpy_top memcpy_loop
memcpy_top-memcpy_loop zero m d e apart = refl
memcpy_top-memcpy_loop (suc n) m d e apart =
    let m' = write m d (m e) in
    let loop = memcpy_loop n m' (d + 1) (e + 1) in
    each_branch (λ r. r ≡ loop) (d % 4 == 0) {x = memcpy_aligned (suc n) m d e}
      {y = memcpy_top n m' (d + 1) (e + 1)} (λ h. memcpy_aligned-memcpy_loop (suc n) m d e apart)
      (λ h. memcpy_top-memcpy_loop n m' (d + 1) (e + 1) (omega arith))

-- The instructions of memset and of memcpy, which work on words where the address is aligned, leave the
-- same memory as the loops over all bytes, for any length and address; those of memcpy where source and
-- destination are apart.
pub words-bytes :
    (m : Memory) (s c n dest src : ℕ)
    → Apart src n dest n
    → (memset_top n m s (c % 256) ≡ memset m s c n)
      × (memcpy_top n m dest src ≡ memcpy m dest src n)
unfolding memset memcpy
words-bytes m s c n dest src apart = (
  memset_top-memset_loop n m s (c % 256) (omega arith),
  memcpy_top-memcpy_loop n m dest src apart,
)
