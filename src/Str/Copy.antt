-- ===== src/Str/Copy.antt =====
-- strncpy and safestrcpy: the string that they leave.
use os_hw.Prelude.{
  ℕ, zero, suc, ◌+◌, ◌-◌, ◌≤◌, ◌<◌, ◌≡◌, ◌≢◌, ◌∙◌, ◌⊎◌, inl, inr, ◌&&◌, arith, ltb, leb, ◌==◌,
  if◌then◌else◌, Bool-cases, min,
}
use os_hw.Prelude.Bytes.{Bytes, update}
use os_hw.Str.{pad, strncpy, safe_copy, safestrcpy}
use os_hw.Str.Compare.{IsLength}

pad_lem :
    (n s : ℕ) (m : Bytes) (a : ℕ) → pad n s m a ≡ (if leb s a && ltb a (s + n) then 0 else m a)
unfolding pad
pad_lem zero s m a = ground arith
pad_lem (suc n) s m a = pad_lem n (s + 1) (update m s 0) a ∙ ground arith

-- the rest of the string, once its first byte has been copied to `s`
IsLength-rest :
    (s t k : ℕ) (m : Bytes)
    → IsLength t (suc k) m
    → (s < t) ⊎ (t + suc k < s)
    → IsLength (t + 1) k (update m s (m t))
IsLength-rest s t k m h out = record {
  ended = ground (arith, h.ended);
  before = λ i lt. ground (arith, h.before (i + 1) (omega arith));
}

-- `m` with the `n` bytes at `s` set to those of a string of `k` bytes at `t`, then zeros
abbrev pub padded : (n s t k : ℕ) → Bytes → Bytes
padded n s t k m a =
    if leb s a && ltb a (s + n) then (if ltb (a - s) k then m (t + (a - s)) else 0) else m a

-- `strncpy` of a string that ends, and that the `n` bytes at `s` do not overlap, copies its first
-- `n` bytes, fills what is left of the `n` with zeros, and changes no other byte.
pub strncpy_lem :
    (n s t k : ℕ) (m : Bytes) (a : ℕ)
    → IsLength t k m
    → (s + n ≤ t) ⊎ (t + k < s)
    → strncpy n s t m a ≡ padded n s t k m a
unfolding strncpy
strncpy_lem zero s t k m a h out = ground arith
strncpy_lem (suc n) s t zero m a h out =
    let first : m t ≡ 0 = ground (arith, h.ended) in
    ground (arith, pad_lem n (s + 1) (update m s (m t)) a)
strncpy_lem (suc n) s t (suc k) m a h out =
    let first : m t ≢ 0 = ground (arith, h.before 0 (omega arith)) in
    let rest =
      strncpy_lem n (s + 1) (t + 1) k (update m s (m t)) a (IsLength-rest s t k m h (omega arith))
        (omega arith) in
    ground arith

-- What `safestrcpy` leaves at `s` of a string of `k` bytes at `t`, given `n` bytes and one more.
pub record Copied (n s t k : ℕ) (m m' : Bytes) : Type 0 where
  pub text : (i : ℕ) → i < min k n → m' (s + i) ≡ m (t + i)
  pub ended : m' (s + min k n) ≡ 0
  pub other : (a : ℕ) → (a < s) ⊎ (s + n < a) → m' a ≡ m a

safe_copy-Copied :
    (n s t k : ℕ) (m : Bytes)
    → IsLength t k m
    → (s + n < t) ⊎ (t + k < s)
    → Copied n s t k m (safe_copy n s t m)
unfolding safe_copy
safe_copy-Copied zero s t k m h out = record {
  text = λ i lt. absurd (omega arith);
  ended = ground arith;
  other = λ a far. ground arith;
}
safe_copy-Copied (suc n) s t zero m h out =
    let first : m t ≡ 0 = ground (arith, h.ended) in
    record {
      text = λ i lt. absurd (omega arith);
      ended = ground arith;
      other = λ a far. ground arith;
    }
safe_copy-Copied (suc n) s t (suc k) m h out =
    let first : m t ≢ 0 = ground (arith, h.before 0 (omega arith)) in
    let rest =
      safe_copy-Copied n (s + 1) (t + 1) k (update m s (m t))
        (IsLength-rest s t k m h (omega arith)) (omega arith) in
    record {
      text = λ i lt. elim (Bool-cases (i == 0)) [
        | inl e ↦ ground (arith, rest.other s (inl (omega arith)))
        | inr e ↦ ground (arith, rest.text (i - 1) (ground arith))
      ];
      ended = ground (arith, rest.ended);
      other = λ a far. ground (arith, rest.other a (omega arith));
    }

-- `safestrcpy` of a string that ends, and that the `n + 1` bytes at `s` do not overlap, leaves a
-- string that ends, of the first `n` bytes of the source or of all of it if that is shorter, and
-- changes no byte beyond the `n + 1`.
pub safestrcpy-Copied :
    (n s t k : ℕ) (m : Bytes)
    → IsLength t k m
    → (s + n < t) ⊎ (t + k < s)
    → let m' = safestrcpy (suc n) s t m in Copied n s t k m m' × IsLength s (min k n) m'
unfolding safestrcpy
safestrcpy-Copied n s t k m h out =
    let c = safe_copy-Copied n s t k m h out in
    (
      c,
      record {
        ended = c.ended;
        before = λ i lt. ground (arith, c.text i lt, h.before i (omega arith));
      },
    )
