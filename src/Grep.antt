-- ===== src/Grep.antt =====
-- grep.c: its matcher of regular expressions. A string is the list of its bytes before the 0.
pub mod Language
pub mod Tests
use os_hw.Prelude.{ℕ, Bool, true, false, not, ◌&&◌, ◌||◌, List, [], ◌∷◌, ◌==◌, if◌then◌else◌}

-- one byte of the text against one of the expression
abbrev pub fits : (c x : ℕ) → Bool
fits c x = (c == b'.') || (c == x)

-- `matchstar` for the byte `c`, where `here` is `matchhere` for the rest of the expression
pub matchstar : (c : ℕ) → (here : List ℕ → Bool) → List ℕ → Bool
matchstar c here [] = here []
matchstar c here (x ∷ text) = here (x ∷ text) || (fits c x && matchstar c here text)

-- `*text == '\0'`
abbrev pub is_end : List ℕ → Bool
is_end [] = true
is_end (_ ∷ _) = false

-- `matchhere` for a byte that no `*` follows, and the rest
abbrev pub match_one : (c : ℕ) → (here : List ℕ → Bool) → List ℕ → Bool
match_one c here [] = false
match_one c here (x ∷ text) = fits c x && here text

pub matchhere : (re text : List ℕ) → Bool
unfolding matchstar
matchhere [] text = true
matchhere (c ∷ []) text = if c == b'$' then is_end text else match_one c (λ _. true) text
matchhere (c ∷ d ∷ re) text =
    let star = matchstar c (matchhere re) text in
    let one = match_one c (matchhere (d ∷ re)) text in if d == b'*' then star else one

-- the loop of `match`
pub search : (here : List ℕ → Bool) → List ℕ → Bool
search here [] = here []
search here (x ∷ text) = here (x ∷ text) || search here text

pub match : (re text : List ℕ) → Bool
unfolding matchhere search
match [] text = search (matchhere []) text
match (c ∷ re) text = if c == b'^' then matchhere re text else search (matchhere (c ∷ re)) text
