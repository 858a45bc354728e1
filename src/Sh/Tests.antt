-- ===== src/Sh/Tests.antt =====
-- sh.c at work on short lines.
use os_hw.Prelude.{ℕ, zero, suc, ◌≡◌, ◌⊎◌, refl, [], ◌∷◌, List, arith}
use os_hw.Prelude.Bytes.{Bytes}
use os_hw.Sh.{add_arg, panicked, value, Cmd, exec, redir, pipe, list, back, parseline, parsecmd}
use os_hw.Sh.Total.{IsCmd}
use os_hw.Sh.Command.{IsCut, parsecmd-IsCmd}

-- a line from address 0 on
abbrev line : List ℕ → Bytes
line [] i = 0
line (c ∷ l) zero = c
line (c ∷ l) (suc i) = line l i

-- "ls|wc"
abbrev piped : Bytes
piped = line (b'l' ∷ b's' ∷ b'|' ∷ b'w' ∷ b'c' ∷ [])

parseline-piped : parseline piped 5 6 0 ≡ value (pipe (exec ((0, 2) ∷ [])) (exec ((3, 5) ∷ [])), 5)
unfolding parseline add_arg
parseline-piped = refl

-- "(a;b)>c&"
parseline-block :
    parseline (line (b'(' ∷ b'a' ∷ b';' ∷ b'b' ∷ b')' ∷ b'>' ∷ b'c' ∷ b'&' ∷ [])) 8 9 0
    ≡ value (back (redir (list (exec ((1, 2) ∷ [])) (exec ((3, 4) ∷ []))) 6 7 513 1), 8)
unfolding parseline add_arg
parseline-block = refl

-- "a >"
parsecmd-missing : parsecmd (line (b'a' ∷ b' ' ∷ b'>' ∷ [])) 0 3 ≡ panicked
unfolding parsecmd
parsecmd-missing = refl

parsecmd-IsCmd_example :
    (parsecmd piped 0 5 ≡ panicked)
    ⊎ ((c : Cmd) × (m' : Bytes) × (parsecmd piped 0 5 ≡ value (c, m'))
        × IsCmd piped 0 5 refl 9 c
        × IsCut c piped m')
parsecmd-IsCmd_example = parsecmd-IsCmd piped 5 refl 0 (omega arith)
