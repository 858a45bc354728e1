-- ===== src/Grep/Language.antt =====
-- What the expressions of grep.c mean, and that its matcher finds just that.
use os_hw.Prelude.{
  ℕ, ◌≡◌, refl, ◌∙◌, ap, ◌≢◌, ◌⊎◌, inl, inr, Bool, true, false, ◌&&◌, ◌||◌, List, [], ◌∷◌, ◌++◌,
  ◌==◌, Bool-cases, ==→eq, ==→ne, eq→==, ne→==, arith,
}
use os_hw.Grep.{fits, matchstar, is_end, match_one, matchhere, search, match}

-- Each byte of the text fits `c`.
abbrev pub AllFit : ℕ → List ℕ → Type 0
AllFit c [] = Unit {0}
AllFit c (x ∷ text) = (fits c x ≡ true) × AllFit c text

-- The text starts with bytes that fit `c`, any number of them, and then is as `Rest` says.
abbrev pub Star : (c : ℕ) → (Rest : List ℕ → Type 0) → List ℕ → Type 0
Star c Rest text = (u v : List ℕ) × (text ≡ u ++ v) × AllFit c u × Rest v

abbrev pub One : (c : ℕ) → (Rest : List ℕ → Type 0) → List ℕ → Type 0
One c Rest text = (x : ℕ) × (v : List ℕ) × (text ≡ x ∷ v) × (fits c x ≡ true) × Rest v

-- The text starts with what the expression describes.
abbrev pub Starts : (re text : List ℕ) → Type 0
Starts [] text = Unit {0}
Starts (c ∷ []) text = ((c ≡ b'$') × (text ≡ [])) ⊎ ((c ≢ b'$') × One c (λ _. Unit {0}) text)
Starts (c ∷ d ∷ re) text =
    ((d ≡ b'*') × Star c (Starts re) text) ⊎ ((d ≢ b'*') × One c (Starts (d ∷ re)) text)

-- What the expression describes stands somewhere in the text, or at its start after a `^`.
abbrev pub Matches : (re text : List ℕ) → Type 0
Matches [] text = Unit {0}
Matches (c ∷ re) text =
    ((c ≡ b'^') × Starts re text)
    ⊎ ((c ≢ b'^') × ((u v : List ℕ) × (text ≡ u ++ v) × Starts (c ∷ re) v))

both : (a b : Bool) → (a && b) ≡ true → (a ≡ true) × (b ≡ true)
both true b h = (refl, h)
both false b h = absurd (ground (arith, h))

right : (a b : Bool) → b ≡ true → (a || b) ≡ true
right true b h = refl
right false b h = h

module _ (here : List ℕ → Bool) (Rest : List ℕ → Type 0)
    (sound : (t : List ℕ) → here t ≡ true → Rest t) where
  matchstar_sound : (c : ℕ) (t : List ℕ) → matchstar c here t ≡ true → Star c Rest t
  unfolding matchstar
  matchstar_sound c [] h = ([], [], refl, tt, sound [] h)
  matchstar_sound c (x ∷ t) h = elim (Bool-cases (here (x ∷ t))) [
    | inl now ↦ ([], x ∷ t, refl, tt, sound (x ∷ t) now)
    | inr later ↦
        let (first, more) = both (fits c x) (matchstar c here t) (rw later at h) in
        let (u, v, e, all, rest) = matchstar_sound c t more in
        (x ∷ u, v, ap (λ l. x ∷ l) e, (first, all), rest)
  ]

  match_one_sound : (c : ℕ) (t : List ℕ) → match_one c here t ≡ true → One c Rest t
  match_one_sound c [] h = absurd (ground (arith, h))
  match_one_sound c (x ∷ t) h =
      let (first, rest) = both (fits c x) (here t) h in (x, t, refl, first, sound t rest)

  search_sound : (t : List ℕ) → search here t ≡ true → (u v : List ℕ) × (t ≡ u ++ v) × Rest v
  unfolding search
  search_sound [] h = ([], [], refl, sound [] h)
  search_sound (x ∷ t) h = elim (Bool-cases (here (x ∷ t))) [
    | inl now ↦ ([], x ∷ t, refl, sound (x ∷ t) now)
    | inr later ↦
        let (u, v, e, rest) = search_sound t (rw later at h) in (x ∷ u, v, ap (λ l. x ∷ l) e, rest)
  ]

module _ (here : List ℕ → Bool) (Rest : List ℕ → Type 0)
    (complete : (t : List ℕ) → Rest t → here t ≡ true) where
  matchstar_complete :
      (c : ℕ) (u v : List ℕ) → AllFit c u → Rest v → matchstar c here (u ++ v) ≡ true
  unfolding matchstar
  matchstar_complete c [] [] all rest = complete [] rest
  matchstar_complete c [] (x ∷ v) all rest = rw (complete (x ∷ v) rest) refl
  matchstar_complete c (x ∷ u) v (first, all) rest =
      right (here (x ∷ (u ++ v))) (fits c x && matchstar c here (u ++ v))
        (rw first (matchstar_complete c u v all rest))

  match_one_complete : (c : ℕ) (t : List ℕ) → One c Rest t → match_one c here t ≡ true
  match_one_complete c t (x, v, e, first, rest) =
      ap (match_one c here) e ∙ rw first (complete v rest)

  search_complete : (u v : List ℕ) → Rest v → search here (u ++ v) ≡ true
  unfolding search
  search_complete [] [] rest = complete [] rest
  search_complete [] (x ∷ v) rest = rw (complete (x ∷ v) rest) refl
  search_complete (x ∷ u) v rest = right (here (x ∷ (u ++ v))) _ (search_complete u v rest)

is_end-empty : (t : List ℕ) → is_end t ≡ true → t ≡ []
is_end-empty [] h = refl
is_end-empty (x ∷ t) h = absurd (ground (arith, h))

matchhere_sound : (re t : List ℕ) → matchhere re t ≡ true → Starts re t
unfolding matchhere
matchhere_sound [] t h = tt
matchhere_sound (c ∷ []) t h = elim (Bool-cases (c == b'$')) [
  | inl e ↦ inl (==→eq _ _ e, is_end-empty t (rw e at h))
  | inr e ↦
      inr (==→ne _ _ e, match_one_sound (λ _. true) (λ _. Unit {0}) (λ t h. tt) c t (rw e at h))
]
matchhere_sound (c ∷ d ∷ re) t h = elim (Bool-cases (d == b'*')) [
  | inl e ↦
      inl (
        ==→eq _ _ e,
        matchstar_sound (matchhere re) (Starts re) (matchhere_sound re) c t (rw e at h),
      )
  | inr e ↦ inr (
    ==→ne _ _ e,
    match_one_sound (matchhere (d ∷ re)) (Starts (d ∷ re)) (matchhere_sound (d ∷ re)) c t
        (rw e at h),
  )
]

matchhere_complete : (re t : List ℕ) → Starts re t → matchhere re t ≡ true
unfolding matchhere
matchhere_complete [] t s = refl
matchhere_complete (c ∷ []) t (inl (e, empty)) = rw (eq→== _ _ e) (ap is_end empty)
matchhere_complete (c ∷ []) t (inr (ne, one)) =
    rw (ne→== _ _ ne) (match_one_complete (λ _. true) (λ _. Unit {0}) (λ t r. refl) c t one)
matchhere_complete (c ∷ d ∷ re) t (inl (e, (u, v, split, all, rest))) = rw (eq→== _ _ e) (
    ap (matchstar c (matchhere re)) split
    ∙ matchstar_complete (matchhere re) (Starts re) (matchhere_complete re) c u v all rest)
matchhere_complete (c ∷ d ∷ re) t (inr (ne, one)) = rw (ne→== _ _ ne) (
    match_one_complete (matchhere (d ∷ re)) (Starts (d ∷ re)) (matchhere_complete (d ∷ re)) c t one)

-- `match` returns 1 just when what the expression describes stands in the text, at its start if the
-- expression begins with `^`.
pub match-Matches :
    (re text : List ℕ)
    → (match re text ≡ true → Matches re text) × (Matches re text → match re text ≡ true)
unfolding match
match-Matches [] text =
    (λ h. tt, λ m. search_complete (λ _. true) (λ _. Unit {0}) (λ t r. refl) [] text tt)
match-Matches (c ∷ re) text = elim (Bool-cases (c == b'^')) [
  | inl e ↦ (
    λ h. inl (==→eq _ _ e, matchhere_sound re text (rw e at h)),
    λ m. elim m [
      | inl (_, starts) ↦ rw e (matchhere_complete re text starts)
      | inr (ne, _) ↦ absurd (ne (==→eq _ _ e))
    ],
  )
  | inr e ↦ (
    λ h. inr (
      ==→ne _ _ e,
      search_sound (matchhere (c ∷ re)) (Starts (c ∷ re)) (matchhere_sound (c ∷ re)) text
          (rw e at h),
    ),
    λ m. elim m [
      | inl (same, _) ↦ absurd (==→ne _ _ e same)
      | inr (_, (u, v, split, starts)) ↦ rw e (
          ap (search (matchhere (c ∷ re))) split
          ∙ search_complete (matchhere (c ∷ re)) (Starts (c ∷ re)) (matchhere_complete (c ∷ re)) u v
              starts)
    ],
  )
]
