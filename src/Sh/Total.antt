-- ===== src/Sh/Total.antt =====
-- The parser of sh.c ends on every line, and what it makes fits its tables and the line.
use os_hw.Prelude.{
  ℕ, zero, suc, ◌+◌, ◌-◌, ◌≤◌, ◌<◌, ◌≡◌, refl, subst, ◌||◌, List, [], ◌∷◌, ◌++◌, length,
  length-append, leb, ◌==◌, Bool-cases, inl, inr, arith,
}
use os_hw.Prelude.Bytes.{Bytes}
use os_hw.Sh.{
  Run, stuck, panicked, value, ◌>>=◌, max_args, Cmd, exec, redir, pipe, list, back, add_arg,
  gettoken, peek, redirect, parseredirs, parse_args, parseblock, parseexec, parsepipe, parse_back,
  parseline,
}
use os_hw.Sh.Words.{gettoken-IsToken, peek-bound, gettoken-peek}

module _ (m : Bytes) (from es : ℕ) (end : m es ≡ 0) where
  abbrev pub AllWords : List (ℕ × ℕ) → Type 0
  AllWords [] = Unit {0}
  AllWords ((q, eq) ∷ args) = (from ≤ q) × (q ≤ eq) × (eq ≤ es) × AllWords args

  -- The words lie in the line, which begins at `from`; the command within the redirections has at most `k`, so that
  -- `argv` has room for a 0 behind them, and all others at most 9.
  abbrev pub IsCmd : ℕ → Cmd → Type 0
  IsCmd k (exec args) = (length args ≤ k) × AllWords args
  IsCmd k (redir c file efile mode fd) = IsCmd k c × (from ≤ file) × (file ≤ efile) × (efile ≤ es)
  IsCmd k (pipe left right) = IsCmd 9 left × IsCmd 9 right
  IsCmd k (list left right) = IsCmd 9 left × IsCmd 9 right
  IsCmd k (back c) = IsCmd 9 c

  -- The call ended, with such a command and a place in the line from `s` on, or with a message.
  abbrev pub Ends : ℕ → ℕ → Run (Cmd × ℕ) → Type 0
  Ends k s stuck = ⊥
  Ends k s panicked = Unit {0}
  Ends k s (value (c, s')) = IsCmd k c × (s ≤ s') × (s' ≤ es)

  IsCmd-weaken : (j k : ℕ) (c : Cmd) → j ≤ k → IsCmd j c → IsCmd k c
  IsCmd-weaken j k (exec args) le (few, words) = (omega arith, words)
  IsCmd-weaken j k (redir c file efile mode fd) le (v, a, b, d) = (IsCmd-weaken j k c le v, a, b, d)
  IsCmd-weaken j k (pipe left right) le v = v
  IsCmd-weaken j k (list left right) le v = v
  IsCmd-weaken j k (back c) le v = v

  AllWords-append :
      (args : List (ℕ × ℕ)) (q eq : ℕ)
      → AllWords args
      → from ≤ q
      → q ≤ eq
      → eq ≤ es
      → AllWords (args ++ ((q, eq) ∷ []))
  AllWords-append [] q eq all ge le hi = (ge, le, hi, tt)
  AllWords-append ((a, b) ∷ args) q eq (x, y, z, all) ge le hi =
      (x, y, z, AllWords-append args q eq all ge le hi)

  add_arg-IsCmd :
      (k q eq : ℕ) (c : Cmd)
      → IsCmd k c
      → from ≤ q
      → q ≤ eq
      → eq ≤ es
      → IsCmd (suc k) (add_arg q eq c)
  unfolding add_arg
  add_arg-IsCmd k q eq (exec args) (few, words) ge le hi = (
    let h = length-append args ((q, eq) ∷ []) in omega (arith, h),
    AllWords-append args q eq words ge le hi,
  )
  add_arg-IsCmd k q eq (redir c file efile mode fd) (v, a, b, d) ge le hi =
      (add_arg-IsCmd k q eq c v ge le hi, a, b, d)
  add_arg-IsCmd k q eq (pipe left right) v ge le hi = v
  add_arg-IsCmd k q eq (list left right) v ge le hi = v
  add_arg-IsCmd k q eq (back c) v ge le hi = v

  Ends-bind :
      (j k s t : ℕ) (r : Run (Cmd × ℕ)) (f : Cmd × ℕ → Run (Cmd × ℕ))
      → Ends j t r
      → ((c : Cmd) (s' : ℕ) → IsCmd j c → t ≤ s' → s' ≤ es → Ends k s (f (c, s')))
      → Ends k s (r >>= f)
  Ends-bind j k s t stuck f h next = h
  Ends-bind j k s t panicked f h next = tt
  Ends-bind j k s t (value (c, s')) f (v, lo, hi) next = next c s' v lo hi

  Ends-later : (k s t : ℕ) (r : Run (Cmd × ℕ)) → s ≤ t → Ends k t r → Ends k s r
  Ends-later k s t stuck le h = h
  Ends-later k s t panicked le h = tt
  Ends-later k s t (value (c, s')) le (v, lo, hi) = (v, omega arith, hi)

  redirect-IsCmd :
      (k tok q eq : ℕ) (c : Cmd)
      → IsCmd k c
      → from ≤ q
      → q ≤ eq
      → eq ≤ es
      → IsCmd k (redirect m es tok q eq c)
  redirect-IsCmd k tok q eq c v ge le hi = elim (Bool-cases (tok == b'<')) [
    | inl input ↦ rw input (v, ge, le, hi)
    | inr other ↦ elim (Bool-cases ((tok == b'>') || (tok == b'+'))) [
      | inl to ↦ rw (other, to) (v, ge, le, hi)
      | inr none ↦ rw (other, none) v
    ]
  ]

  parseredirs-Ends :
      (n k s : ℕ) (c : Cmd)
      → IsCmd k c
      → from ≤ s
      → s ≤ es
      → es < s + n
      → Ends k s (parseredirs m es n c s)
  unfolding parseredirs
  parseredirs-Ends zero k s c v ge le enough = absurd (omega arith)
  parseredirs-Ends (suc n) k s c v ge le enough =
      let toks : List ℕ = b'<' ∷ b'>' ∷ [] in
      let p = peek m es toks s in
      let (lo, hi) = peek-bound m es end toks s le in
      elim (Bool-cases p.0) [
        | inr none ↦ rw none (v, lo, hi)
        | inl found ↦
            let (past, next_hi) =
              gettoken-peek m es end toks s (λ c h. ground (arith, h)) le found in
            let tok = gettoken m es p.1 in
            let name = gettoken m es tok.next in
            let word = gettoken-IsToken m es end tok.next next_hi in
            let w1 = word.starts in
            let w2 = word.ordered in
            let w3 = word.ends in
            let w4 = word.within in
            elim (Bool-cases (name.ret == b'a')) [
              | inr bad ↦ rw (found, bad) tt
              | inl good ↦
                  rw (found, good)
                    (Ends-later k s name.next _ (omega arith) (
                      parseredirs-Ends n k name.next (redirect m es tok.ret name.q name.eq c)
                        (redirect-IsCmd k tok.ret name.q name.eq c v (omega arith) w2 (omega arith))
                        (omega arith) w4 (omega arith)))
            ]
      ]

  parse_args-Ends :
      (n argc s : ℕ) (c : Cmd)
      → IsCmd argc c
      → from ≤ s
      → s ≤ es
      → argc + n ≡ 10
      → argc ≤ 9
      → Ends 9 s (parse_args m es n argc c s)
  unfolding parse_args
  parse_args-Ends zero argc s c v ge le sum few = absurd (omega arith)
  parse_args-Ends (suc n) argc s c v ge le sum few =
      let toks : List ℕ = b'|' ∷ b')' ∷ b'&' ∷ b';' ∷ [] in
      let p = peek m es toks s in
      let (lo, hi) = peek-bound m es end toks s le in
      let tok = gettoken m es p.1 in
      let word = gettoken-IsToken m es end p.1 hi in
      let w1 = word.starts in
      let w2 = word.ordered in
      let w3 = word.ends in
      let w4 = word.within in
      let whole = IsCmd-weaken argc 9 c few v in
      elim (Bool-cases p.0) [
        | inl found ↦ rw found (whole, lo, hi)
        | inr none ↦ elim (Bool-cases (tok.ret == 0)) [
          | inl last ↦ rw (none, last) (whole, omega arith, w4)
          | inr more ↦ elim (Bool-cases (tok.ret == b'a')) [
            | inr bad ↦ rw (none, more, bad) tt
            | inl good ↦ elim (Bool-cases (leb max_args (argc + 1))) [
              | inl many ↦ rw (none, more, good, many) tt
              | inr room ↦
                  let few' : argc + 1 ≤ 9 = ground (arith, room) in
                  rw (none, more, good, room)
                    (Ends-bind (argc + 1) 9 s tok.next _ _
                      (parseredirs-Ends (suc (es - tok.next)) (argc + 1) tok.next
                        (add_arg tok.q tok.eq c)
                        (let sum : suc argc ≡ argc + 1 = omega arith in
                          subst (λ k. IsCmd k (add_arg tok.q tok.eq c)) sum
                            (add_arg-IsCmd argc tok.q tok.eq c v (omega arith) w2 (omega arith)))
                        (omega arith) w4 (omega arith))
                      (λ c' s' v' lo' hi'. Ends-later 9 s s' _ (omega arith) (
                        parse_args-Ends n (argc + 1) s' c' v' (omega arith) hi' (omega arith)
                          few')))
            ]
          ]
        ]
      ]

  -- what the rules need of `parseline`, which they call behind an opening parenthesis
  module _ (line : ℕ → Run (Cmd × ℕ)) (s : ℕ) (low : from ≤ s)
      (line_ends : (t : ℕ) → s < t → t ≤ es → Ends 9 t (line t)) where
    parseblock-Ends : (t : ℕ) → s ≤ t → t ≤ es → Ends 9 t (parseblock m es line t)
    unfolding parseblock
    parseblock-Ends t ge le =
        let opening : List ℕ = b'(' ∷ [] in
        let closing : List ℕ = b')' ∷ [] in
        let p = peek m es opening t in
        elim (Bool-cases p.0) [
          | inr none ↦ rw none tt
          | inl found ↦
              let (past, hi) =
                gettoken-peek m es end opening t (λ c h. ground (arith, h)) le found in
              let u = (gettoken m es p.1).next in
              rw found (
                Ends-bind 9 9 t u (line u) _ (line_ends u (omega arith) hi) (λ c s' v lo' hi'.
                  let p' = peek m es closing s' in
                  elim (Bool-cases p'.0) [
                    | inr open_block ↦ rw open_block tt
                    | inl closed ↦
                        let (past', hi'') =
                          gettoken-peek m es end closing s' (λ c h. ground (arith, h)) hi' closed in
                        let after = (gettoken m es p'.1).next in
                        rw closed (
                          Ends-later 9 t after _ (omega arith) (
                            parseredirs-Ends (suc (es - after)) 9 after c v (omega arith) hi''
                              (omega arith)))
                  ]))
        ]

    parseexec-Ends : (t : ℕ) → s ≤ t → t ≤ es → Ends 9 t (parseexec m es line t)
    unfolding parseexec
    parseexec-Ends t ge le =
        let opening : List ℕ = b'(' ∷ [] in
        let p = peek m es opening t in
        let (lo, hi) = peek-bound m es end opening t le in
        elim (Bool-cases p.0) [
          | inl found ↦ rw found (Ends-later 9 t p.1 _ lo (parseblock-Ends p.1 (omega arith) hi))
          | inr none ↦ rw none (
              Ends-bind 0 9 t p.1 _ _
                (parseredirs-Ends (suc (es - p.1)) 0 p.1 (exec []) (omega arith, tt) (omega arith)
                  hi (omega arith))
                (λ c s' v lo' hi'.
                  Ends-later 9 t s' _ (omega arith)
                    (parse_args-Ends max_args 0 s' c v (omega arith) hi' refl (omega arith))))
        ]

    parsepipe-Ends : (n t : ℕ) → s ≤ t → t ≤ es → es < t + n → Ends 9 t (parsepipe m es line n t)
    unfolding parsepipe
    parsepipe-Ends zero t ge le enough = absurd (omega arith)
    parsepipe-Ends (suc n) t ge le enough =
        Ends-bind 9 9 t t _ _ (parseexec-Ends t ge le) (λ c s' v lo' hi'.
          let toks : List ℕ = b'|' ∷ [] in
          let p = peek m es toks s' in
          let (lo, hi) = peek-bound m es end toks s' hi' in
          elim (Bool-cases p.0) [
            | inr none ↦ rw none (v, omega arith, hi)
            | inl found ↦
                let (past, hi'') =
                  gettoken-peek m es end toks s' (λ c h. ground (arith, h)) hi' found in
                let u = (gettoken m es p.1).next in
                rw found (
                  Ends-bind 9 9 t u _ _ (parsepipe-Ends n u (omega arith) hi'' (omega arith))
                    (λ right s'' v' lo'' hi3. ((v, v'), omega arith, hi3)))
          ])

  parse_back-Ends :
      (n s : ℕ) (c : Cmd)
      → IsCmd 9 c
      → from ≤ s
      → s ≤ es
      → es < s + n
      → Ends 9 s (parse_back m es n c s)
  unfolding parse_back
  parse_back-Ends zero s c v ge le enough = absurd (omega arith)
  parse_back-Ends (suc n) s c v ge le enough =
      let toks : List ℕ = b'&' ∷ [] in
      let p = peek m es toks s in
      let (lo, hi) = peek-bound m es end toks s le in
      elim (Bool-cases p.0) [
        | inr none ↦ rw none (v, lo, hi)
        | inl found ↦
            let (past, hi') = gettoken-peek m es end toks s (λ c h. ground (arith, h)) le found in
            let u = (gettoken m es p.1).next in
            rw found (
              Ends-later 9 s u _ (omega arith)
                (parse_back-Ends n u (back c) v (omega arith) hi' (omega arith)))
      ]

  -- `parseline` ends, from every place in a line: with as many rounds as bytes are left, and one
  -- more, it comes to a command and a place further on, or to a message. The words of the command
  -- lie in the line, and each list of words has at most 9, so that `argv` has room for the 0.
  pub parseline-Ends : (n s : ℕ) → from ≤ s → s ≤ es → es < s + n → Ends 9 s (parseline m es n s)
  unfolding parseline
  parseline-Ends zero s ge le enough = absurd (omega arith)
  parseline-Ends (suc n) s ge le enough =
      Ends-bind 9 9 s s _ _
        (Ends-bind 9 9 s s _ _
          (parsepipe-Ends (parseline m es n) s ge
            (λ t gt hi. parseline-Ends n t (omega arith) hi (omega arith)) (suc (es - s)) s
            (omega arith) le (omega arith))
          (λ c s' v lo hi.
            Ends-later 9 s s' _ lo
              (parse_back-Ends (suc (es - s')) s' c v (omega arith) hi (omega arith))))
        (λ c s' v lo' hi'.
          let toks : List ℕ = b';' ∷ [] in
          let p = peek m es toks s' in
          let (lo, hi) = peek-bound m es end toks s' hi' in
          elim (Bool-cases p.0) [
            | inr none ↦ rw none (v, omega arith, hi)
            | inl found ↦
                let (past, hi'') =
                  gettoken-peek m es end toks s' (λ c h. ground (arith, h)) hi' found in
                let u = (gettoken m es p.1).next in
                rw found (
                  Ends-bind 9 9 s u _ _ (parseline-Ends n u (omega arith) hi'' (omega arith))
                    (λ right s'' v' lo'' hi3. ((v, v'), omega arith, hi3)))
          ])
