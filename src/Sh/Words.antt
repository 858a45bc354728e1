-- ===== src/Sh/Words.antt =====
-- gettoken and peek: the words of a line lie within it, and a symbol that is next is passed over.
use os_hw.Prelude.{
  ℕ, zero, suc, ◌+◌, ◌-◌, ◌≤◌, ◌<◌, ◌≡◌, ◌≢◌, refl, ◌∙◌, ap, true, false, not, ◌&&◌, List, [], ◌∷◌,
  ltb, ◌==◌, Bool-cases, ==→eq, ==→ne, inl, inr, arith,
}
use os_hw.Prelude.Bytes.{Bytes}
use os_hw.Sh.{is_in, is_space, is_symbol, Token, skip, word_end, token_at, gettoken, peek}

module _ (m : Bytes) (es : ℕ) (end : m es ≡ 0) where
  pub skip-bound : (n s : ℕ) → s ≤ es → (s ≤ skip m es n s) × (skip m es n s ≤ es)
  unfolding skip
  skip-bound zero s le = (omega arith, le)
  skip-bound (suc n) s le = elim (Bool-cases (ltb s es && is_space (m s))) [
    | inl on ↦ let (lo, hi) = skip-bound n (s + 1) (ground (arith, on)) in rw on (omega arith, hi)
    | inr off ↦ rw off (omega arith, le)
  ]

  skip_none : (n s : ℕ) → is_space (m s) ≡ false → skip m es n s ≡ s
  unfolding skip
  skip_none zero s h = refl
  skip_none (suc n) s h =
      let off : (ltb s es && is_space (m s)) ≡ false = ground (arith, h) in rw off refl

  word_end-bound : (n s : ℕ) → s ≤ es → (s ≤ word_end m es n s) × (word_end m es n s ≤ es)
  unfolding word_end
  word_end-bound zero s le = (omega arith, le)
  word_end-bound (suc n) s le =
      elim (Bool-cases (ltb s es && (not (is_space (m s)) && not (is_symbol (m s))))) [
        | inl on ↦
            let (lo, hi) = word_end-bound n (s + 1) (ground (arith, on)) in rw on (omega arith, hi)
        | inr off ↦ rw off (omega arith, le)
      ]

  inside : (s : ℕ) → s ≤ es → m s ≢ 0 → s < es
  inside s le ne = elim (Bool-cases (s == es)) [
    | inl same ↦ absurd (ne (ap m (==→eq _ _ same) ∙ end))
    | inr other ↦ let h = ==→ne _ _ other in omega arith
  ]

  token_at-bound : (s : ℕ) → s ≤ es → (s ≤ (token_at m es s).1) × ((token_at m es s).1 ≤ es)
  unfolding token_at
  token_at-bound s le = elim (Bool-cases (m s == 0)) [
    | inl zero_byte ↦ rw zero_byte (omega arith, le)
    | inr byte ↦
        let lt = inside s le (==→ne _ _ byte) in
        elim (Bool-cases (is_in (b'|' ∷ b'(' ∷ b')' ∷ b';' ∷ b'&' ∷ b'<' ∷ []) (m s))) [
          | inl one ↦ rw (byte, one) (omega arith, omega arith)
          | inr other ↦ elim (Bool-cases (m s == b'>')) [
            | inr letter ↦ rw (byte, other, letter) (word_end-bound (es - s) s le)
            | inl arrow ↦ elim (Bool-cases (m (s + 1) == b'>')) [
              | inr single ↦ rw (byte, other, arrow, single) (omega arith, omega arith)
              | inl double ↦
                  let next = inside (s + 1) (omega arith) (λ z. ground (arith, double, z)) in
                  rw (byte, other, arrow, double) (omega arith, omega arith)
            ]
          ]
        ]
  ]

  -- Where a token lies.
  pub record IsToken (s : ℕ) (t : Token) : Type 0 where
    pub starts : s ≤ t.q
    pub ordered : t.q ≤ t.eq
    pub ends : t.eq ≤ t.next
    pub within : t.next ≤ es

  pub gettoken-IsToken : (s : ℕ) → s ≤ es → IsToken s (gettoken m es s)
  unfolding gettoken
  gettoken-IsToken s le =
      let (q_lo, q_hi) = skip-bound (es - s) s le in
      let (eq_lo, eq_hi) = token_at-bound (skip m es (es - s) s) q_hi in
      let e = (token_at m es (skip m es (es - s) s)).1 in
      let (lo, hi) = skip-bound (es - e) e eq_hi in
      record { starts = q_lo; ordered = eq_lo; ends = lo; within = hi }

  pub peek-bound :
      (toks : List ℕ) (s : ℕ) → s ≤ es → (s ≤ (peek m es toks s).1) × ((peek m es toks s).1 ≤ es)
  unfolding peek
  peek-bound toks s le = skip-bound (es - s) s le

  symbol_step : (s : ℕ) → is_symbol (m s) ≡ true → s < (token_at m es s).1
  unfolding token_at
  symbol_step s h = ground (arith, h)

  -- `gettoken` goes past a symbol that `peek` has found.
  pub gettoken-peek :
      (toks : List ℕ) (s : ℕ)
      → ((c : ℕ) → is_in toks c ≡ true → is_symbol c ≡ true)
      → s ≤ es
      → (peek m es toks s).0 ≡ true
      → (s < (gettoken m es ((peek m es toks s).1)).next)
        × ((gettoken m es ((peek m es toks s).1)).next ≤ es)
  unfolding peek gettoken
  gettoken-peek toks s symbols le found =
      let p = skip m es (es - s) s in
      let (lo, hi) = skip-bound (es - s) s le in
      let symbol : is_symbol (m p) ≡ true = symbols (m p) (ground (arith, found)) in
      let dark : is_space (m p) ≡ false = ground (arith, symbol) in
      let stays : skip m es (es - p) p ≡ p = skip_none (es - p) p dark in
      let step = symbol_step p symbol in
      let (_, e_hi) = token_at-bound p hi in
      let e = (token_at m es p).1 in
      let (n_lo, n_hi) = skip-bound (es - e) e e_hi in rw stays (omega arith, n_hi)
