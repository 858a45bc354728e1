-- ===== src/Console/Editor.antt =====
-- The editor of one line that the console is.
use os_hw.Prelude.{
  ℕ, zero, suc, ◌+◌, ◌<◌, true, Bool, not, ◌&&◌, ◌||◌, List, [], ◌∷◌, ◌++◌, length, ◌==◌, ltb,
  if◌then◌else◌,
}
use os_hw.Console.{Console, input_buf, backspace, newline, eof, is_erase, is_list, is_kill}
use os_hw.Console.Ring.{ready, edit}

-- `done` are the bytes that can be read, `line` those that are edited.
pub record Editor : Type 0 where
  pub done : List ℕ
  pub line : List ℕ
  pub shown : List ℕ
  pub woken : Bool

abbrev pub view : Console → Editor
view s = record { done = ready s; line = edit s; shown = s.shown; woken = s.woken }

abbrev pub rub_out : ℕ → List ℕ → List ℕ
rub_out zero shown = shown
rub_out (suc n) shown = rub_out n (shown ++ (backspace ∷ []))

abbrev pub but_last : List ℕ → List ℕ
but_last [] = []
but_last (c ∷ []) = []
but_last (c ∷ (d ∷ l)) = c ∷ but_last (d ∷ l)

-- a byte at the end of the line
abbrev pub enter : ℕ → Editor → Editor
enter c t =
    let line = t.line ++ (c ∷ []) in
    let shown = t.shown ++ (c ∷ []) in
    if (c == newline) || ((c == eof) || (length t.done + length line == input_buf))
    then record { done = t.done ++ line; line = []; shown = shown; woken = true }
    else record { done = t.done; line = line; shown = shown; woken = t.woken }

-- What a key does: kill the line, erase its last byte, list the processes, or enter a byte.
abbrev pub press : ℕ → Editor → Editor
press c t =
    if is_list c
    then t
    else if is_kill c
    then record t { line = []; shown = rub_out (length t.line) t.shown }
    else if is_erase c
    then (if length t.line == 0
        then t
        else record t { line = but_last t.line; shown = t.shown ++ (backspace ∷ []) })
    else if not (c == 0) && ltb (length t.done + length t.line) input_buf
    then enter (if c == 13 then newline else c) t
    else t

abbrev pub press_all : List ℕ → Editor → Editor
press_all [] t = t
press_all (c ∷ cs) t = press_all cs (press c t)

abbrev pub AllBytes : List ℕ → Type 0
AllBytes [] = Unit {0}
AllBytes (c ∷ cs) = (c < 256) × AllBytes cs

abbrev pub has_list : List ℕ → Bool → Bool
has_list [] b = b
has_list (c ∷ cs) b = has_list cs (b || is_list c)
