-- ===== src/Console/Read.antt =====
-- consoleread on the list of the bytes that can be read.
use os_hw.Prelude.{
  ℕ, zero, suc, ◌+◌, ◌-◌, ◌%◌, ◌^◌, ◌≡◌, refl, sym, ◌∙◌, ap, Bool, List, [], ◌∷◌, arith, ◌==◌, ltb,
  if◌then◌else◌, Bool-cases, inl, inr,
}
use os_hw.Console.{Console, input_buf, newline, eof, Reading, asleep, failed, returned, consoleread}
use os_hw.Console.Ring.{window, lines, ready, edit, IsRing, IsSound}

-- A call takes bytes up to the count or the first newline. C-d ends it: it is left for the next
-- call if this one has bytes already.
abbrev pub take : (n target : ℕ) → (killed : Bool) → List ℕ → List ℕ × Reading × List ℕ
take zero target killed q = ([], returned (target - 0), q)
take (suc n) target killed [] = ([], if killed then failed else asleep (suc n), [])
take (suc n) target killed (c ∷ q) =
    let rest = take n target killed q in
    if c == eof
    then ([], returned (target - suc n), if ltb (suc n) target then c ∷ q else q)
    else if c == newline
    then (c ∷ [], returned (target - n), q)
    else (c ∷ rest.0, rest.1, rest.2)

-- What a turn leaves: `out` are the bytes, the outcome and the bytes left for other calls.
pub record IsTaken (s : Console) (out : List ℕ × Reading × List ℕ)
    (got : List ℕ × Reading × Console) : Type 0 where
  pub bytes : got.0 ≡ out.0
  pub outcome : got.1 ≡ out.1
  pub left : ready (got.2) ≡ out.2
  pub line : edit (got.2) ≡ edit s
  pub sound : IsSound (got.2)

abbrev advance : Console → Console
advance s = record s { r = (s.r + 1) % 2 ^ 32 }

lines-advance : (n : ℕ) (s : Console) → IsRing s → lines s ≡ suc n → lines (advance s) ≡ n
lines-advance n s v e = let r = v.r_word in let w = v.w_word in omega arith

advance-IsSound : (n : ℕ) (s : Console) → IsSound s → lines s ≡ suc n → IsSound (advance s)
advance-IsSound n s v e =
    let less = lines-advance n s v.ring e in
    let bounded = v.ring.bounded in
    record {
      ring = record {
        r_word = omega arith;
        w_word = v.ring.w_word;
        e_word = v.ring.e_word;
        bounded = omega (arith, less);
      };
      plain = v.plain;
    }

-- A turn of `consoleread` takes from the bytes that can be read what a call takes from their list,
-- sleeps or fails where the list ends, and leaves the line that is edited.
pub consoleread-IsTaken :
    (n target : ℕ) (killed : Bool) (s : Console)
    → IsSound s
    → IsTaken s (take n target killed (ready s)) (consoleread n target killed s)
unfolding consoleread
consoleread-IsTaken zero target killed s v = record {
  bytes = refl;
  outcome = refl;
  left = refl;
  line = refl;
  sound = v;
}
consoleread-IsTaken (suc n) target killed s v = elim (Bool-cases (s.r == s.w)) [
  | inl empty ↦
      let none : lines s ≡ 0 = ground (arith, empty) in
      rw (empty, none)
        (record {
          bytes = refl;
          outcome = refl;
          left = ap (window s.buf s.r) none;
          line = refl;
          sound = v;
        })
  | inr more ↦
      let r = v.ring.r_word in
      let w = v.ring.w_word in
      let k = lines s - 1 in
      let size : lines s ≡ suc k = ground (arith, more) in
      let next = lines-advance k s v.ring size in
      let after = advance-IsSound k s v size in
      let all : ready s ≡ s.buf (s.r % input_buf) ∷ ready (advance s) =
        ap (window s.buf s.r) size
        ∙ ap (λ j. s.buf (s.r % input_buf) ∷ window s.buf ((s.r + 1) % 2 ^ 32) j) (sym next) in
      let back : ((s.r + 1) % 2 ^ 32 + 2 ^ 32 - 1) % 2 ^ 32 ≡ s.r = omega arith in
      rw (more, all, back)
        (elim (Bool-cases (s.buf (s.r % input_buf) == eof)) [
          | inl stop ↦ elim (Bool-cases (ltb (suc n) target)) [
            | inl kept ↦
                rw (stop, kept)
                  (record { bytes = refl; outcome = refl; left = all; line = refl; sound = v })
            | inr first ↦
                rw (stop, first)
                  (record { bytes = refl; outcome = refl; left = refl; line = refl; sound = after })
          ]
          | inr byte ↦ elim (Bool-cases (s.buf (s.r % input_buf) == newline)) [
            | inl last ↦
                rw (byte, last)
                  (record { bytes = refl; outcome = refl; left = refl; line = refl; sound = after })
            | inr inner ↦
                let rest = consoleread-IsTaken n target killed (advance s) after in
                rw (byte, inner)
                  (record {
                    bytes = ap (◌∷◌ (s.buf (s.r % input_buf))) rest.bytes;
                    outcome = rest.outcome;
                    left = rest.left;
                    line = rest.line;
                    sound = rest.sound;
                  })
          ]
        ])
]
