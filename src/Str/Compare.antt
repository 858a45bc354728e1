-- ===== src/Str/Compare.antt =====
-- memcmp and strncmp: which two blocks, or strings, they tell apart, and how.
use os_hw.Prelude.{
  ℕ, zero, suc, ◌+◌, ◌^◌, ◌<◌, ◌≡◌, ◌≢◌, refl, subst, dec_lt, ◌⊎◌, inl, inr, not, ◌&&◌, arith, ◌==◌,
  Bool-cases, some,
}
use os_hw.Prelude.Bytes.{Bytes}
use os_hw.Str.{difference, memcmp, strncmp, strlen}

-- Where two blocks of `n` bytes first differ, if they do.
pub data Compared (p q n : ℕ) (m : Bytes) (r : ℕ) : Type 0 where
  equal : ((i : ℕ) → i < n → m (p + i) ≡ m (q + i)) → r ≡ 0 → Compared p q n m r
  differ :
      (k : ℕ)
      → k < n
      → ((i : ℕ) → i < k → m (p + i) ≡ m (q + i))
      → m (p + k) ≢ m (q + k)
      → r ≡ difference (m (p + k)) (m (q + k))
      → Compared p q n m r

-- a statement on all places but the first, and on the first
shift_in :
    (p q k : ℕ) (m : Bytes)
    → m p ≡ m q
    → ((i : ℕ) → i < k → m (p + 1 + i) ≡ m (q + 1 + i))
    → (i : ℕ) → i < k + 1
    → m (p + i) ≡ m (q + i)
shift_in p q k m e h zero lt = ground (arith, e)
shift_in p q k m e h (suc i) lt = ground (arith, h i (omega arith))

Compared-suc :
    (p q n r : ℕ) (m : Bytes)
    → m p ≡ m q
    → Compared (p + 1) (q + 1) n m r
    → Compared p q (suc n) m r
Compared-suc p q n r m e (equal h z) = equal (λ i lt. shift_in p q n m e h i (omega arith)) z
Compared-suc p q n r m e (differ k lt h ne d) =
    differ (k + 1) (omega arith) (shift_in p q k m e h) (ground arith) (ground (arith, d))

-- `memcmp` is 0 when the two blocks agree. When they do not, it is the difference of the first two
-- bytes that differ.
pub memcmp-Compared : (p q n : ℕ) (m : Bytes) → Compared p q n m (memcmp p q n m)
unfolding memcmp
memcmp-Compared p q zero m = equal (λ i lt. absurd (omega arith)) refl
memcmp-Compared p q (suc n) m = elim (Bool-cases (m p == m q)) [
  | inl e ↦ rw e (Compared-suc p q n _ m (ground arith) (memcmp-Compared (p + 1) (q + 1) n m))
  | inr e ↦
      rw e (differ 0 (omega arith) (λ i lt. absurd (omega arith)) (ground arith) (ground arith))
]

-- How two strings compare in their first `n` bytes.
pub data Ordered (p q n : ℕ) (m : Bytes) (r : ℕ) : Type 0 where
  alike : ((i : ℕ) → i < n → (m (p + i) ≡ m (q + i)) × (m (p + i) ≢ 0)) → r ≡ 0 → Ordered p q n m r
  ends :
      (k : ℕ)
      → k < n
      → ((i : ℕ) → i < k → (m (p + i) ≡ m (q + i)) × (m (p + i) ≢ 0))
      → (m (p + k) ≡ 0) ⊎ (m (p + k) ≢ m (q + k))
      → r ≡ difference (m (p + k)) (m (q + k))
      → Ordered p q n m r

shift_string :
    (p q k : ℕ) (m : Bytes)
    → (m p ≡ m q) × (m p ≢ 0)
    → ((i : ℕ) → i < k → (m (p + 1 + i) ≡ m (q + 1 + i)) × (m (p + 1 + i) ≢ 0))
    → (i : ℕ) → i < k + 1
    → (m (p + i) ≡ m (q + i)) × (m (p + i) ≢ 0)
shift_string p q k m e h zero lt = (ground (arith, e), ground (arith, e))
shift_string p q k m e h (suc i) lt =
    let later = h i (omega arith) in (ground (arith, later.0), ground (arith, later.1))

Ordered-suc :
    (p q n r : ℕ) (m : Bytes)
    → (m p ≡ m q) × (m p ≢ 0)
    → Ordered (p + 1) (q + 1) n m r
    → Ordered p q (suc n) m r
Ordered-suc p q n r m e (alike h z) = alike (λ i lt. shift_string p q n m e h i (omega arith)) z
Ordered-suc p q n r m e (ends k lt h stop d) =
    ends (k + 1) (omega arith) (shift_string p q k m e h) (ground arith) (ground (arith, d))

-- `strncmp` is 0 when the first `n` bytes of both strings agree and none of them ends the string.
-- Otherwise it is the difference of the two bytes at the first place where the strings differ or
-- both end.
pub strncmp-Ordered : (p q n : ℕ) (m : Bytes) → Ordered p q n m (strncmp p q n m)
unfolding strncmp
strncmp-Ordered p q zero m = alike (λ i lt. absurd (omega arith)) refl
strncmp-Ordered p q (suc n) m = elim (Bool-cases (not (m p == 0) && (m p == m q))) [
  | inl e ↦ rw e (Ordered-suc p q n _ m (ground arith) (strncmp-Ordered (p + 1) (q + 1) n m))
  | inr e ↦ rw e (ends 0 (omega arith) (λ i lt. absurd (omega arith)) (ground arith) (ground arith))
]

-- The first `n` bytes of two strings are the same, up to where the first string ends.
abbrev pub SameString : (p q n : ℕ) → Bytes → Type 0
SameString p q n m = (i : ℕ) → i < n → ((j : ℕ) → j < i → m (p + j) ≢ 0) → m (p + i) ≡ m (q + i)

pub strncmp-SameString :
    (p q n : ℕ) (m : Bytes) → ((a : ℕ) → m a < 2 ^ 8) → strncmp p q n m ≡ 0 → SameString p q n m
strncmp-SameString p q n m bytes = of_order (strncmp p q n m) (strncmp-Ordered p q n m)
  where
    stops :
        (k : ℕ) → (m (p + k) ≡ 0) ⊎ (m (p + k) ≢ m (q + k)) → m (p + k) ≡ m (q + k) → m (p + k) ≡ 0
    stops k (inl z) e = z
    stops k (inr ne) e = absurd (ne e)

    of_order : (r : ℕ) → Ordered p q n m r → r ≡ 0 → SameString p q n m
    of_order r (alike h z) e = λ i lt before. (h i lt).0
    of_order r (ends k lt h stop d) e =
        let same : m (p + k) ≡ m (q + k) = omega (arith, d, e, bytes (p + k), bytes (q + k)) in
        let last = stops k stop same in
        λ i less before. elim (dec_lt i k) [
          | yes low ↦ (h i low).0
          | no high ↦ elim (dec_lt k i) [
            | yes past ↦ absurd (before k past last)
            | no here ↦ let at : k ≡ i = omega arith in subst (λ j. m (p + j) ≡ m (q + j)) at same
          ]
        ]

pub SameString-strncmp : (p q n : ℕ) (m : Bytes) → SameString p q n m → strncmp p q n m ≡ 0
SameString-strncmp p q n m same = of_order (strncmp p q n m) (strncmp-Ordered p q n m)
  where
    of_order : (r : ℕ) → Ordered p q n m r → r ≡ 0
    of_order r (alike h z) = z
    of_order r (ends k lt h stop d) =
        let e = same k lt (λ j less. (h j less).1) in omega (arith, d, e)

-- The string at `s` is `n` bytes long.
pub record IsLength (s n : ℕ) (m : Bytes) : Type 0 where
  pub ended : m (s + n) ≡ 0
  pub before : (i : ℕ) → i < n → m (s + i) ≢ 0

-- `strlen` finds the length of a string that ends, given as many rounds as it has bytes, the last
-- 0 counted.
pub strlen-IsLength :
    (fuel s n : ℕ) (m : Bytes) → IsLength s n m → n < fuel → strlen fuel s m ≡ some n
unfolding strlen
strlen-IsLength zero s n m h lt = absurd (omega arith)
strlen-IsLength (suc fuel) s zero m h lt = ground (arith, h.ended)
strlen-IsLength (suc fuel) s (suc n) m h lt =
    let rest =
      strlen-IsLength fuel (s + 1) n m
        (record {
          ended = ground (arith, h.ended);
          before = λ i less. ground (arith, h.before (i + 1) (omega arith));
        })
        (omega arith) in
    ground (arith, h.before 0 (omega arith))
