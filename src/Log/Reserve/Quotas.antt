-- ===== src/Log/Reserve/Quotas.antt =====
-- The quotas of the calls in progress, as a list.
use os_hw.Prelude.{
  ℕ, zero, suc, ◌+◌, ◌*◌, ◌≤◌, ◌<◌, ◌≡◌, some, List, [], ◌∷◌, All, arith, length, get_elem?, set,
}
use os_hw.Log.{max_op_blocks}
use os_hw.Log.Reserve.{sum, remove}

pub sum-set :
    (qs : List ℕ) (i q : ℕ) → get_elem? qs i ≡ some (suc q) → sum (set qs i q) + 1 ≡ sum qs
sum-set [] i q e = cc
sum-set (p ∷ qs) zero q e = ground arith
sum-set (p ∷ qs) (suc i) q e = omega (arith, sum-set qs i q e)

pub sum-remove :
    (qs : List ℕ) (i : ℕ) (q : ℕ) → get_elem? qs i ≡ some q → sum (remove qs i) + q ≡ sum qs
sum-remove [] i q e = cc
sum-remove (p ∷ qs) zero q e = ground arith
sum-remove (p ∷ qs) (suc i) q e = omega (arith, sum-remove qs i q e)

pub length-remove :
    (qs : List ℕ) (i : ℕ) (q : ℕ) → get_elem? qs i ≡ some q → length (remove qs i) + 1 ≡ length qs
length-remove [] i q e = cc
length-remove (p ∷ qs) zero q e = omega arith
length-remove (p ∷ qs) (suc i) q e = omega (arith, length-remove qs i q e)

abbrev pub Small : List ℕ → Type 0
Small = All (λ q. q ≤ max_op_blocks)

pub sum-le : (qs : List ℕ) → Small qs → sum qs ≤ length qs * max_op_blocks
sum-le [] h = omega arith
sum-le (q ∷ qs) h = omega (arith, sum-le qs h.1)

pub Small-set :
    (qs : List ℕ) (i q : ℕ) → Small qs → get_elem? qs i ≡ some (suc q) → Small (set qs i q)
Small-set [] i q h e = tt
Small-set (p ∷ qs) zero q h e = (ground arith, h.1)
Small-set (p ∷ qs) (suc i) q h e = (h.0, Small-set qs i q h.1 e)

pub Small-remove : (qs : List ℕ) (i : ℕ) → Small qs → Small (remove qs i)
Small-remove [] i h = tt
Small-remove (p ∷ qs) zero h = h.1
Small-remove (p ∷ qs) (suc i) h = (h.0, Small-remove qs i h.1)

pub length-pos :
    {A : Type 0} {a : A} (xs : List A) (i : ℕ) → get_elem? xs i ≡ some a → 0 < length xs
length-pos [] i e = cc
length-pos (x ∷ xs) i e = omega arith
