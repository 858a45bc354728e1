-- ===== src/Bio/Lookup.antt =====
-- What the two loops of bget find.
use os_hw.Prelude.{
  ℕ, zero, suc, ◌≡◌, ◌∙◌, refl, inl, inr, Bool, true, false, ◌||◌, none, some, List, [], ◌∷◌, arith,
  ltb, ◌==◌, ==→eq, Bool-cases, Option-cases,
}
use os_hw.Bio.{Buf, caches, find_cached, find_clean, slots, without}

abbrev pub mem : ℕ → List ℕ → Bool
mem i [] = false
mem i (j ∷ js) = (j == i) || mem i js

pub find_cached-some :
    (is : List ℕ) (dev b : ℕ) (bs : ℕ → Buf) {i : ℕ}
    → find_cached is dev b bs ≡ some i
    → (mem i is ≡ true) × (caches dev b (bs i) ≡ true)
unfolding find_cached
find_cached-some [] dev b bs e = cc
find_cached-some (j ∷ js) dev b bs {i} e = elim (Bool-cases (caches dev b (bs j))) [
  | inl h ↦ (ground arith, ground arith)
  | inr h ↦ let (in_rest, hit) = find_cached-some js dev b bs (rw h at e) in (ground arith, hit)
]

pub find_cached-none :
    (is : List ℕ) (dev b : ℕ) (bs : ℕ → Buf)
    → find_cached is dev b bs ≡ none
    → (i : ℕ) → mem i is ≡ true
    → caches dev b (bs i) ≡ false
unfolding find_cached
find_cached-none [] dev b bs e i m = cc
find_cached-none (j ∷ js) dev b bs e i m = elim (Bool-cases (caches dev b (bs j))) [
  | inl h ↦ absurd (ground arith)
  | inr h ↦ elim (Bool-cases (j == i)) [
    | inl q ↦ ground (arith, ==→eq j i q)
    | inr q ↦ find_cached-none js dev b bs (rw h at e) i (ground arith)
  ]
]

pub find_clean-some :
    (is : List ℕ) (bs : ℕ → Buf) {i : ℕ}
    → find_clean is bs ≡ some i
    → (mem i is ≡ true) × ((bs i).busy ≡ false) × ((bs i).dirty ≡ false)
unfolding find_clean
find_clean-some [] bs e = cc
find_clean-some (j ∷ js) bs {i} e = elim (Option-cases (find_clean js bs)) [
  | inl h ↦ let e' = rw h at e in (ground arith, ground arith, ground arith)
  | inr (k, h) ↦
      let e' = rw h at e in
      let (in_rest, idle, clean) = find_clean-some js bs (h ∙ e') in (ground arith, idle, clean)
]

pub mem-slots : (n i : ℕ) → mem i (slots n) ≡ ltb i n
mem-slots zero i = ground arith
mem-slots (suc n) i = ground (arith, mem-slots n i)

pub mem-without : (i k : ℕ) (is : List ℕ) → mem k (i ∷ without i is) ≡ (i == k) || mem k is
mem-without i k [] = refl
mem-without i k (j ∷ js) = ground (arith, mem-without i k js)
