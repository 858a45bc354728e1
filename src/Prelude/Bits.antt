-- ===== src/Prelude/Bits.antt =====
-- The bits of a number, by its binary digits: `x >> k & 1`, `x | 1 << k` and `x & ~(1 << k)`.
use Prim.Native.Nat.{
  ℕ, zero, suc, ◌+◌, ◌*◌, ◌/◌, ◌%◌, ◌≤◌, ◌<◌, max, digits, bit_or, bit_or-bitwise,
}
use mathlib.Core.Path.{◌≡◌, refl, ap}
use mathlib.Core.Logic.{◌≢◌}
use native.Mathlib.Omega.{arith}

unfoldable pub bit_at : ℕ → ℕ → ℕ
bit_at x zero = x % 2
bit_at x (suc k) = bit_at (x / 2) k

pub set_bit : ℕ → ℕ → ℕ
set_bit x zero = x / 2 * 2 + 1
set_bit x (suc k) = set_bit (x / 2) k * 2 + x % 2

pub clear_bit : ℕ → ℕ → ℕ
clear_bit x zero = x / 2 * 2
clear_bit x (suc k) = clear_bit (x / 2) k * 2 + x % 2

pub bit_at-lt : (x k : ℕ) → bit_at x k < 2
unfolding bit_at
bit_at-lt x zero = omega arith
bit_at-lt x (suc k) = bit_at-lt (x / 2) k

pub bit_at-set_self : (x k : ℕ) → bit_at (set_bit x k) k ≡ 1
unfolding bit_at set_bit
bit_at-set_self x zero = omega arith
bit_at-set_self x (suc k) =
    let e : (set_bit (x / 2) k * 2 + x % 2) / 2 ≡ set_bit (x / 2) k = omega arith in
    rw e (bit_at-set_self (x / 2) k)

pub bit_at-set_ne : (x k j : ℕ) → k ≢ j → bit_at (set_bit x k) j ≡ bit_at x j
unfolding bit_at set_bit
bit_at-set_ne x zero zero ne = absurd (omega arith)
bit_at-set_ne x zero (suc j) ne = let e : (x / 2 * 2 + 1) / 2 ≡ x / 2 = omega arith in rw e
bit_at-set_ne x (suc k) zero ne = omega arith
bit_at-set_ne x (suc k) (suc j) ne =
    let e : (set_bit (x / 2) k * 2 + x % 2) / 2 ≡ set_bit (x / 2) k = omega arith in
    rw e (bit_at-set_ne (x / 2) k j (λ q. ne (omega arith)))

pub bit_at-clear_self : (x k : ℕ) → bit_at (clear_bit x k) k ≡ 0
unfolding bit_at clear_bit
bit_at-clear_self x zero = omega arith
bit_at-clear_self x (suc k) =
    let e : (clear_bit (x / 2) k * 2 + x % 2) / 2 ≡ clear_bit (x / 2) k = omega arith in
    rw e (bit_at-clear_self (x / 2) k)

pub bit_at-clear_ne : (x k j : ℕ) → k ≢ j → bit_at (clear_bit x k) j ≡ bit_at x j
unfolding bit_at clear_bit
bit_at-clear_ne x zero zero ne = absurd (omega arith)
bit_at-clear_ne x zero (suc j) ne = let e : x / 2 * 2 / 2 ≡ x / 2 = omega arith in rw e
bit_at-clear_ne x (suc k) zero ne = omega arith
bit_at-clear_ne x (suc k) (suc j) ne =
    let e : (clear_bit (x / 2) k * 2 + x % 2) / 2 ≡ clear_bit (x / 2) k = omega arith in
    rw e (bit_at-clear_ne (x / 2) k j (λ q. ne (omega arith)))

-- The fuel of `|` does not matter once it reaches its left operand.
enough_digits :
    (x a b y : ℕ) → (a ≤ x) × (a ≤ y) → digits (λ d. d) max x a b ≡ digits (λ d. d) max y a b
enough_digits zero zero b zero bounds = refl
enough_digits (suc x) zero b zero bounds = refl
enough_digits zero zero b (suc y) bounds = refl
enough_digits (suc x) zero b (suc y) bounds = refl
enough_digits zero (suc a) b y (le, _) = absurd (omega arith)
enough_digits (suc x) (suc a) b zero (_, le) = absurd (omega arith)
enough_digits (suc x) (suc a) b (suc y) (le_x, le_y) =
    let half = enough_digits x (suc a / 2) (b / 2) y (omega arith, omega arith) in
    ap (λ d. d * 2 + max (suc a % 2) (b % 2)) half

or_half : (a b : ℕ) → bit_or a b ≡ bit_or (a / 2) (b / 2) * 2 + max (a % 2) (b % 2)
or_half (suc a) b =
    let half = enough_digits a (suc a / 2) (b / 2) (suc a / 2) (omega arith, omega arith) in
    simp bit_or-bitwise (omega (arith, half))
or_half zero b = simp bit_or-bitwise (omega arith)

or_zero : (n a : ℕ) → a ≤ n → bit_or a 0 ≡ a
or_zero n zero le = refl
or_zero zero (suc a) le = absurd (omega arith)
or_zero (suc n) (suc a) le = omega (arith, or_half (suc a) 0, or_zero n (suc a / 2) (omega arith))

-- The `k` lowest digits are zero, and all others are.
abbrev IsHigh : ℕ → ℕ → Type 0
IsHigh zero a = Unit {0}
IsHigh (suc k) a = (a % 2 ≡ 0) × IsHigh k (a / 2)

abbrev IsLow : ℕ → ℕ → Type 0
IsLow zero f = f ≡ 0
IsLow (suc k) f = IsLow k (f / 2)

or_disjoint : (k a f : ℕ) → IsHigh k a → IsLow k f → bit_or a f ≡ a + f
or_disjoint zero a f high low = rw low (omega (arith, or_zero a a (omega arith)))
or_disjoint (suc k) a f (even, high) low =
    omega (arith, or_half a f, or_disjoint k (a / 2) (f / 2) high low)

-- `|` of the address of a page and flags
pub bit_or-flags : (a f : ℕ) → a % 4096 ≡ 0 → f < 4096 → bit_or a f ≡ a + f
bit_or-flags a f high low = or_disjoint 12 a f (omega arith) (omega arith)

pub bit_or_one : (x : ℕ) → bit_or x 1 ≡ x / 2 * 2 + 1
bit_or_one x = omega (arith, or_half x 1, or_zero (x / 2) (x / 2) (omega arith))
