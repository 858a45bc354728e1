-- ===== src/Grep/Tests.antt =====
-- grep.c at work: "ab*c$" in "xabbc", and not in "xabd".
use os_hw.Prelude.{ℕ, ◌≡◌, refl, true, false, List, [], ◌∷◌}
use os_hw.Grep.{matchstar, matchhere, search, match}
use os_hw.Grep.Language.{Matches, match-Matches}

abbrev re : List ℕ
re = b'a' ∷ b'b' ∷ b'*' ∷ b'c' ∷ b'$' ∷ []

abbrev line : List ℕ
line = b'x' ∷ b'a' ∷ b'b' ∷ b'b' ∷ b'c' ∷ []

found : match re line ≡ true
unfolding match matchhere matchstar search
found = refl

missing : match re (b'x' ∷ b'a' ∷ b'b' ∷ b'd' ∷ []) ≡ false
unfolding match matchhere matchstar search
missing = refl

match-Matches_example :
    (match re line ≡ true → Matches re line) × (Matches re line → match re line ≡ true)
match-Matches_example = match-Matches re line
