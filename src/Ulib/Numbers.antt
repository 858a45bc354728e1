-- ===== src/Ulib/Numbers.antt =====
-- atoi and printint: numbers as text.
use os_hw.Prelude.{
  ℕ, zero, suc, ◌+◌, ◌-◌, ◌*◌, ◌/◌, ◌%◌, ◌^◌, ◌≤◌, ◌<◌, ◌≡◌, refl, ◌∙◌, ap, subst, Bool, true,
  false, ◌&&◌, List, [], ◌∷◌, append-nil, leb, ◌==◌, Bool-cases, inl, inr, arith,
}
use os_hw.Prelude.Bytes.{Bytes}
use os_hw.Ulib.{is_digit, atoi_from, atoi, digit, digits, backwards, printint}

-- The text `l` lies at `s`, and no digit follows it.
abbrev pub IsText : Bytes → ℕ → List ℕ → Type 0
IsText m s [] = is_digit (m s) ≡ false
IsText m s (c ∷ l) = (m s ≡ c) × IsText m (s + 1) l

abbrev length : List ℕ → ℕ
length [] = 0
length (c ∷ l) = suc (length l)

-- what `atoi` makes of the digits `l` after the number `n`
abbrev fold : ℕ → List ℕ → ℕ
fold n [] = n
fold n (c ∷ l) = fold ((n * 10 + c - b'0') % 2 ^ 32) l

abbrev AllDigits : List ℕ → Type 0
AllDigits [] = Unit {0}
AllDigits (c ∷ l) = (is_digit c ≡ true) × AllDigits l

atoi_from_lem :
    (fuel s n : ℕ) (l : List ℕ) (m : Bytes)
    → AllDigits l
    → IsText m s l
    → length l ≤ fuel
    → atoi_from fuel s n m ≡ fold n l
unfolding atoi_from
atoi_from_lem zero s n [] m all text enough = refl
atoi_from_lem zero s n (c ∷ l) m all text enough = absurd (omega arith)
atoi_from_lem (suc fuel) s n [] m all text enough = rw text refl
atoi_from_lem (suc fuel) s n (c ∷ l) m (first, all) (at, text) enough =
    let here : is_digit (m s) ≡ true = ap is_digit at ∙ first in
    rw here (
      atoi_from_lem fuel (s + 1) _ l m all text (omega arith)
      ∙ ap (λ c. fold ((n * 10 + c - b'0') % 2 ^ 32) l) at)

digit-digit : (x : ℕ) → (is_digit (digit (x % 10)) ≡ true) × (digit (x % 10) ≡ b'0' + x % 10)
digit-digit x = (ground arith, ground arith)

abbrev power : ℕ → ℕ
power zero = 1
power (suc n) = 2 * power n

-- The digits of `x` before the text `l`.
fold-digits :
    (fuel x : ℕ) (l : List ℕ)
    → x < 2 ^ 32
    → x < power fuel
    → fold 0 (backwards (digits fuel x 10) l) ≡ fold x l
unfolding digits backwards
fold-digits zero x l small enough = ap (λ n. fold n l) (omega arith)
fold-digits (suc fuel) x l small enough =
    let c = digit (x % 10) in
    let code = (digit-digit x).1 in
    elim (Bool-cases (x / 10 == 0)) [
      | inl last ↦
          let value : (0 * 10 + c - b'0') % 2 ^ 32 ≡ x = ground (arith, last, code) in
          rw last (ap (λ n. fold n l) value)
      | inr more ↦
          let value : (x / 10 * 10 + c - b'0') % 2 ^ 32 ≡ x = rw code (omega arith) in
          rw more (
            fold-digits fuel (x / 10) (c ∷ l) (omega arith) (omega arith)
            ∙ ap (λ n. fold n l) value)
    ]

digits-AllDigits : (fuel x : ℕ) → AllDigits (digits fuel x 10)
unfolding digits
digits-AllDigits zero x = tt
digits-AllDigits (suc fuel) x = elim (Bool-cases (x / 10 == 0)) [
  | inl last ↦ rw last ((digit-digit x).0, tt)
  | inr more ↦ rw more ((digit-digit x).0, digits-AllDigits fuel (x / 10))
]

backwards-AllDigits : (cs l : List ℕ) → AllDigits cs → AllDigits l → AllDigits (backwards cs l)
unfolding backwards
backwards-AllDigits [] l all rest = rest
backwards-AllDigits (c ∷ cs) l (first, all) rest = backwards-AllDigits cs (c ∷ l) all (first, rest)

length-backwards : (cs l : List ℕ) → length (backwards cs l) ≡ length cs + length l
unfolding backwards
length-backwards [] l = omega arith
length-backwards (c ∷ cs) l = length-backwards cs (c ∷ l) ∙ omega arith

length-digits : (fuel x : ℕ) → length (digits fuel x 10) ≤ fuel
unfolding digits
length-digits zero x = omega arith
length-digits (suc fuel) x = elim (Bool-cases (x / 10 == 0)) [
  | inl last ↦ rw last (omega arith)
  | inr more ↦ rw more (let h = length-digits fuel (x / 10) in omega arith)
]

printint_lem : (x : ℕ) (sgn : Bool) → x < 2 ^ 31 → printint x 10 sgn ≡ backwards (digits 32 x 10) []
unfolding printint
printint_lem x sgn small =
    let positive : leb (2 ^ 31) x ≡ false = ground arith in
    let neg : (sgn && leb (2 ^ 31) x) ≡ false = ground (arith, positive) in
    rw neg (ap (λ cs. backwards cs []) (append-nil (digits 32 x 10)))

-- `atoi` of what `printint` prints of a number below 2^31 in base 10, with no digit after it, is
-- that number, given 32 rounds.
pub atoi-printint :
    (fuel s x : ℕ) (sgn : Bool) (m : Bytes)
    → x < 2 ^ 31
    → 32 ≤ fuel
    → IsText m s (printint x 10 sgn)
    → atoi fuel s m ≡ x
unfolding atoi
atoi-printint fuel s x sgn m small enough text =
    let l = backwards (digits 32 x 10) [] in
    let size : length l ≤ 32 =
      let h = length-digits 32 x in rw (length-backwards (digits 32 x 10) []) (omega arith) in
    atoi_from_lem fuel s 0 l m (backwards-AllDigits (digits 32 x 10) [] (digits-AllDigits 32 x) tt)
      (subst (IsText m s) (printint_lem x sgn small) text) (omega arith)
    ∙ fold-digits 32 x [] (omega arith) (omega arith)
