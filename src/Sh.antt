-- ===== src/Sh.antt =====
-- sh.c: the parser of command lines. A line lies in memory from `s` on, and ends at `es` with a 0;
-- a word of it is the addresses of its start and its end.
pub mod Words
pub mod Total
pub mod Command
pub mod Tests
use os_hw.Prelude.{
  ℕ, zero, suc, ◌+◌, ◌-◌, Bool, true, false, not, ◌&&◌, ◌||◌, List, [], ◌∷◌, ◌++◌, length, ltb, leb,
  ◌==◌, if◌then◌else◌,
}
use os_hw.Prelude.Bytes.{Bytes, update}

-- What a call comes to: `stuck` is a loop that has not ended in the rounds given, `panicked` the end
-- of the process with a message.
pub data Run (A : Type 0) : Type 0 where
  stuck : Run A
  panicked : Run A
  value : A → Run A

infixl 1 ◌>>=◌
abbrev pub ◌>>=◌ : {A B : Type 0} → Run A → (A → Run B) → Run B
stuck >>= f = stuck
panicked >>= f = panicked
value x >>= f = f x

abbrev pub max_args : ℕ
max_args = 10

-- `struct cmd`: the words of a command, or what stands around other commands
pub data Cmd : Type 0 where
  exec : List (ℕ × ℕ) → Cmd
  redir : (cmd : Cmd) → (file efile mode fd : ℕ) → Cmd
  pipe : (left right : Cmd) → Cmd
  list : (left right : Cmd) → Cmd
  back : Cmd → Cmd

abbrev pub is_in : List ℕ → ℕ → Bool
is_in [] c = false
is_in (d ∷ l) c = (c == d) || is_in l c

-- `whitespace` and `symbols`
abbrev pub is_space : ℕ → Bool
is_space c = (c == b' ') || ((c == 9) || ((c == 13) || ((c == 10) || (c == 11))))

abbrev pub is_symbol : ℕ → Bool
is_symbol = is_in (b'<' ∷ b'|' ∷ b'>' ∷ b'&' ∷ b';' ∷ b'(' ∷ b')' ∷ [])

-- `O_RDONLY`, and `O_WRONLY|O_CREATE`
abbrev pub for_reading : ℕ
for_reading = 0

abbrev pub for_writing : ℕ
for_writing = 513

-- `cmd->argv[argc] = q; cmd->eargv[argc] = eq`, for the command within the redirections
pub add_arg : (q eq : ℕ) → Cmd → Cmd
add_arg q eq (exec args) = exec (args ++ ((q, eq) ∷ []))
add_arg q eq (redir c file efile mode fd) = redir (add_arg q eq c) file efile mode fd
add_arg q eq (pipe left right) = pipe left right
add_arg q eq (list left right) = list left right
add_arg q eq (back c) = back c

-- What `gettoken` returns, with `*q`, `*eq` and `*ps`.
pub record Token : Type 0 where
  pub ret : ℕ
  pub q : ℕ
  pub eq : ℕ
  pub next : ℕ

module _ (m : Bytes) (es : ℕ) where
  -- the loop over blanks, with as many rounds as bytes are left
  pub skip : (rounds s : ℕ) → ℕ
  skip zero s = s
  skip (suc n) s = let rest = skip n (s + 1) in if ltb s es && is_space (m s) then rest else s

  -- the loop to the end of a word
  pub word_end : (rounds s : ℕ) → ℕ
  word_end zero s = s
  word_end (suc n) s =
      let rest = word_end n (s + 1) in
      if ltb s es && (not (is_space (m s)) && not (is_symbol (m s))) then rest else s

  -- the `switch` of `gettoken`: what it returns and where the token ends
  pub token_at : ℕ → ℕ × ℕ
  unfolding word_end
  token_at s =
      let c = m s in
      if c == 0
      then (c, s)
      else if is_in (b'|' ∷ b'(' ∷ b')' ∷ b';' ∷ b'&' ∷ b'<' ∷ []) c
      then (c, s + 1)
      else if c == b'>'
      then (if m (s + 1) == b'>' then (b'+', s + 2) else (c, s + 1))
      else (b'a', word_end (es - s) s)

  pub gettoken : ℕ → Token
  unfolding skip token_at
  gettoken s =
      let q = skip (es - s) s in
      let t = token_at q in record { ret = t.0; q = q; eq = t.1; next = skip (es - t.1) t.1 }

  -- Whether one of `toks` is next, and where.
  pub peek : List ℕ → ℕ → Bool × ℕ
  unfolding skip
  peek toks s = let s' = skip (es - s) s in (not (m s' == 0) && is_in toks (m s'), s')

  -- the redirection that `tok` stands for
  abbrev redirect : (tok q eq : ℕ) → Cmd → Cmd
  redirect tok q eq c =
      if tok == b'<'
      then redir c q eq for_reading 0
      else if (tok == b'>') || (tok == b'+')
      then redir c q eq for_writing 1
      else c

  pub parseredirs : (rounds : ℕ) → Cmd → ℕ → Run (Cmd × ℕ)
  unfolding gettoken peek
  parseredirs zero c s = stuck
  parseredirs (suc n) c s =
      let p = peek (b'<' ∷ b'>' ∷ []) s in
      let tok = gettoken p.1 in
      let name = gettoken tok.next in
      let rest = parseredirs n (redirect tok.ret name.q name.eq c) name.next in
      if not p.0 then value (c, p.1) else if not (name.ret == b'a') then panicked else rest

  -- The loop of `parseexec` with `argc` words so far; it ends at MAXARGS at the latest.
  pub parse_args : (rounds argc : ℕ) → Cmd → ℕ → Run (Cmd × ℕ)
  unfolding parseredirs
  parse_args zero argc c s = stuck
  parse_args (suc n) argc c s =
      let p = peek (b'|' ∷ b')' ∷ b'&' ∷ b';' ∷ []) s in
      let tok = gettoken p.1 in
      let rest =
        parseredirs (suc (es - tok.next)) (add_arg tok.q tok.eq c) tok.next
        >>= (λ (c', s'). parse_args n (argc + 1) c' s') in
      if p.0
      then value (c, p.1)
      else if tok.ret == 0
      then value (c, tok.next)
      else if not (tok.ret == b'a')
      then panicked
      else if leb max_args (argc + 1)
      then panicked
      else rest

  -- The rules of the grammar; `line` is the call of `parseline` within a block.
  module _ (line : ℕ → Run (Cmd × ℕ)) where
    pub parseblock : ℕ → Run (Cmd × ℕ)
    unfolding parse_args
    parseblock s =
        let p = peek (b'(' ∷ []) s in
        if not p.0
        then panicked
        else (line (gettoken p.1).next >>= (λ (c, s').
            let p' = peek (b')' ∷ []) s' in
            let after = (gettoken p'.1).next in
            if not p'.0 then panicked else parseredirs (suc (es - after)) c after))

    pub parseexec : ℕ → Run (Cmd × ℕ)
    unfolding parseblock
    parseexec s =
        let p = peek (b'(' ∷ []) s in
        if p.0
        then parseblock p.1
        else (parseredirs (suc (es - p.1)) (exec []) p.1
            >>= (λ (c, s'). parse_args max_args 0 c s'))

    pub parsepipe : (rounds : ℕ) → ℕ → Run (Cmd × ℕ)
    unfolding parseexec
    parsepipe zero s = stuck
    parsepipe (suc n) s = parseexec s >>= (λ (c, s').
        let p = peek (b'|' ∷ []) s' in
        let rest =
          parsepipe n (gettoken p.1).next >>= (λ (right, s''). value (pipe c right, s'')) in
        if p.0 then rest else value (c, p.1))

  -- the loop over `&`
  pub parse_back : (rounds : ℕ) → Cmd → ℕ → Run (Cmd × ℕ)
  unfolding peek gettoken
  parse_back zero c s = stuck
  parse_back (suc n) c s =
      let p = peek (b'&' ∷ []) s in
      let rest = parse_back n (back c) (gettoken p.1).next in if p.0 then rest else value (c, p.1)

  pub parseline : (rounds : ℕ) → ℕ → Run (Cmd × ℕ)
  unfolding parsepipe parse_back
  parseline zero s = stuck
  parseline (suc n) s =
      parsepipe (parseline n) (suc (es - s)) s
      >>= (λ (c, s'). parse_back (suc (es - s')) c s')
      >>= (λ (c, s').
          let p = peek (b';' ∷ []) s' in
          let rest =
            parseline n (gettoken p.1).next >>= (λ (right, s''). value (list c right, s'')) in
          if p.0 then rest else value (c, p.1))

-- the words of a command
pub cut_args : List (ℕ × ℕ) → Bytes → Bytes
cut_args [] m = m
cut_args ((q, eq) ∷ args) m = cut_args args (update m eq 0)

pub nulterminate : Cmd → Bytes → Bytes
unfolding cut_args
nulterminate (exec args) m = cut_args args m
nulterminate (redir c file efile mode fd) m = update (nulterminate c m) efile 0
nulterminate (pipe left right) m = nulterminate right (nulterminate left m)
nulterminate (list left right) m = nulterminate right (nulterminate left m)
nulterminate (back c) m = nulterminate c m

-- `parsecmd` of the line from `s` to `es`, with as many rounds of `parseline` as it has bytes, and
-- one more.
pub parsecmd : (m : Bytes) → (s es : ℕ) → Run (Cmd × Bytes)
unfolding parseline nulterminate
parsecmd m s es = parseline m es (suc (es - s)) s >>= (λ (c, s').
    if not ((peek m es [] s').1 == es) then panicked else value (c, nulterminate c m))
