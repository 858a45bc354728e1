-- ===== src/Sh/Command.antt =====
-- parsecmd: what becomes of a line.
use os_hw.Prelude.{
  ℕ, suc, ◌-◌, ◌≤◌, ◌≡◌, refl, ◌⊎◌, inl, inr, Bool, false, ◌||◌, not, List, [], ◌∷◌, ◌==◌,
  if◌then◌else◌, Bool-cases, arith,
}
use os_hw.Prelude.Bytes.{Bytes, update}
use os_hw.Sh.{
  Run, stuck, panicked, value, ◌>>=◌, Cmd, exec, redir, pipe, list, back, peek, parseline, cut_args,
  nulterminate, parsecmd,
}
use os_hw.Sh.Total.{IsCmd, Ends, parseline-Ends}

-- Some word of the list ends at `a`.
abbrev pub ends_word : ℕ → List (ℕ × ℕ) → Bool
ends_word a [] = false
ends_word a ((q, eq) ∷ args) = a == eq || ends_word a args

-- A word of the command, or the name of a file in it, ends at `a`.
abbrev pub ends_at : ℕ → Cmd → Bool
ends_at a (exec args) = ends_word a args
ends_at a (redir c file efile mode fd) = a == efile || ends_at a c
ends_at a (pipe left right) = ends_at a left || ends_at a right
ends_at a (list left right) = ends_at a left || ends_at a right
ends_at a (back c) = ends_at a c

-- The memory with a 0 at the end of each word of the command, and as it was elsewhere.
abbrev pub IsCut : Cmd → (m m' : Bytes) → Type 0
IsCut c m m' = (a : ℕ) → m' a ≡ (if ends_at a c then 0 else m a)

cut_args-ends_word :
    (args : List (ℕ × ℕ)) (m : Bytes) (a : ℕ)
    → cut_args args m a ≡ (if ends_word a args then 0 else m a)
unfolding cut_args
cut_args-ends_word [] m a = refl
cut_args-ends_word ((q, eq) ∷ args) m a = ground (arith, cut_args-ends_word args (update m eq 0) a)

nulterminate-IsCut : (c : Cmd) (m : Bytes) → IsCut c m (nulterminate c m)
unfolding nulterminate
nulterminate-IsCut (exec args) m a = cut_args-ends_word args m a
nulterminate-IsCut (redir c file efile mode fd) m a = ground (arith, nulterminate-IsCut c m a)
nulterminate-IsCut (pipe left right) m a =
    ground (arith, nulterminate-IsCut left m a, nulterminate-IsCut right (nulterminate left m) a)
nulterminate-IsCut (list left right) m a =
    ground (arith, nulterminate-IsCut left m a, nulterminate-IsCut right (nulterminate left m) a)
nulterminate-IsCut (back c) m a = nulterminate-IsCut c m a

module _ (m0 : Bytes) (es : ℕ) (end : m0 es ≡ 0) where
  abbrev peeked : Cmd × ℕ → Run (Cmd × Bytes)
  peeked (c, s') =
      if not ((peek m0 es [] s').1 == es) then panicked else value (c, nulterminate c m0)

  -- On every line that ends with a 0, parsecmd ends, with a message or with a command: its words lie
  -- in the line, no list of words has more than 9, so that `argv` has room for the 0 behind them,
  -- and the memory has a 0 at the end of each word and is as before elsewhere.
  pub parsecmd-IsCmd :
      (s : ℕ)
      → s ≤ es
      → (parsecmd m0 s es ≡ panicked)
        ⊎ ((c : Cmd) × (m' : Bytes) × (parsecmd m0 s es ≡ value (c, m'))
            × IsCmd m0 s es end 9 c
            × IsCut c m0 m')
  unfolding parsecmd
  parsecmd-IsCmd s le =
      outcome (parseline m0 es (suc (es - s)) s)
        (parseline-Ends m0 s es end (suc (es - s)) s (omega arith) le (omega arith))
    where
      outcome :
          (r : Run (Cmd × ℕ))
          → Ends m0 s es end 9 s r
          → ((r >>= peeked) ≡ panicked)
            ⊎ ((c : Cmd) × (m' : Bytes) × ((r >>= peeked) ≡ value (c, m'))
                × IsCmd m0 s es end 9 c
                × IsCut c m0 m')
      outcome stuck h = absurd h
      outcome panicked h = inl refl
      outcome (value (c, s')) (v, _, _) = elim (Bool-cases ((peek m0 es [] s').1 == es)) [
        | inr left ↦ inl (rw left refl)
        | inl whole ↦ inr (c, nulterminate c m0, rw whole refl, v, nulterminate-IsCut c m0)
      ]
