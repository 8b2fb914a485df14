-- ===== src/Blocks/Wide.antt =====
-- What memset_word and memset_dword of student-distrib/lib.c leave in memory.
use unix_operation_system.Prelude.{
  ℕ, zero, suc, ◌+◌, ◌*◌, ◌/◌, ◌%◌, ◌^◌, ◌<◌, ◌≡◌, refl, ◌∙◌, inl, arith,
}
use unix_operation_system.Memory.{
  Memory, write, SameOutside, word32, store_word, store_word-outside, word32-store_word,
  word32-same,
}
use unix_operation_system.Blocks.Words.{stosl, stosw, memset_word, memset_dword}

stosl-outside : (k : ℕ) (m : Memory) (s v : ℕ) → SameOutside s (4 * k) m (stosl k m s v)
unfolding stosl
stosl-outside zero m s v p o = refl
stosl-outside (suc k) m s v p o =
    stosl-outside k (store_word m s v) (s + 4) v p (omega arith)
    ∙ store_word-outside m s v p (omega arith)

stosl-inside :
    (k : ℕ) (m : Memory) (s v i : ℕ) → v < 2 ^ 32 → i < k → word32 (stosl k m s v) (s + 4 * i) ≡ v
unfolding stosl
stosl-inside zero m s v i lt h = absurd (omega arith)
stosl-inside (suc k) m s v zero lt h =
    let m' = store_word m s v in
    let rest = λ (p : ℕ) (o : p < s + 4). stosl-outside k m' (s + 4) v p (inl o) in
    let here : s + 4 * 0 ≡ s = omega arith in
    rw here (
      word32-same m' (stosl k m' (s + 4) v) s (rest s (omega arith)) (rest (s + 1) (omega arith))
        (rest (s + 2) (omega arith)) (rest (s + 3) (omega arith))
      ∙ word32-store_word m s v lt)
stosl-inside (suc k) m s v (suc i) lt h =
    let shift : s + 4 * suc i ≡ s + 4 + 4 * i = omega arith in
    rw shift (stosl-inside k (store_word m s v) (s + 4) v i lt (omega arith))

abbrev word16 : Memory → ℕ → ℕ
word16 m a = m a + 256 * m (a + 1)

abbrev two_bytes : Memory → ℕ → ℕ → Memory
two_bytes m s v = write (write m s (v % 256)) (s + 1) (v / 256 % 256)

stosw-outside : (k : ℕ) (m : Memory) (s v : ℕ) → SameOutside s (2 * k) m (stosw k m s v)
unfolding stosw
stosw-outside zero m s v p o = refl
stosw-outside (suc k) m s v p o =
    stosw-outside k (two_bytes m s v) (s + 2) v p (omega arith) ∙ ground (arith, o)

stosw-inside :
    (k : ℕ) (m : Memory) (s v i : ℕ) → i < k → word16 (stosw k m s v) (s + 2 * i) ≡ v % 65536
unfolding stosw
stosw-inside zero m s v i h = absurd (omega arith)
stosw-inside (suc k) m s v zero h =
    let rest = stosw-outside k (two_bytes m s v) (s + 2) v in
    rw (rest (s + 2 * 0) (omega arith), rest (s + 2 * 0 + 1) (omega arith)) (ground arith)
stosw-inside (suc k) m s v (suc i) h =
    let shift : s + 2 * suc i ≡ s + 2 + 2 * i = omega arith in
    rw shift (stosw-inside k (two_bytes m s v) (s + 2) v i (omega arith))

-- memset_word sets `n` words of two bytes to the low 16 bits of `c`, memset_dword `n` words of four
-- bytes to `c`, for every index below `n`, and neither changes any byte outside its words.
pub wide-set :
    (m : Memory) (s c n i : ℕ)
    → c < 2 ^ 32
    → i < n
    → (word16 (memset_word m s c n) (s + 2 * i) ≡ c % 65536)
      × SameOutside s (2 * n) m (memset_word m s c n)
      × (word32 (memset_dword m s c n) (s + 4 * i) ≡ c)
      × SameOutside s (4 * n) m (memset_dword m s c n)
unfolding memset_word memset_dword
wide-set m s c n i lt h = (
  stosw-inside n m s c i h,
  stosw-outside n m s c,
  stosl-inside n m s c i lt h,
  stosl-outside n m s c,
)
