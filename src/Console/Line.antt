-- ===== src/Console/Line.antt =====
-- A line that is typed and then read.
use os_hw.Prelude.{
  ℕ, zero, suc, ◌+◌, ◌-◌, ◌≤◌, ◌<◌, ◌≡◌, refl, sym, ◌∙◌, ap, ap₂, true, false, Bool, not, ◌&&◌,
  ◌||◌, List, [], ◌∷◌, ◌++◌, length, length-append, append-nil, append_assoc, arith, ◌==◌, ltb,
}
use os_hw.Console.{
  Console, input_buf, newline, eof, is_erase, is_list, is_kill, returned, consoleintr, consoleread,
}
use os_hw.Console.Ring.{ready, edit, IsSound}
use os_hw.Console.Editor.{Editor, view, press, press_all, AllBytes}
use os_hw.Console.Edit.{consoleintr-press_all}
use os_hw.Console.Read.{take, consoleread-IsTaken}

-- a byte that is no key of the editor
abbrev pub is_plain : ℕ → Bool
is_plain c =
    ltb c 256
    && not (
        (c == 0)
        || (c == eof)
        || is_erase c
        || (c == newline)
        || (c == 13)
        || is_list c
        || is_kill c)

abbrev pub AllPlain : List ℕ → Type 0
AllPlain [] = Unit {0}
AllPlain (c ∷ cs) = (is_plain c ≡ true) × AllPlain cs

press_all-append :
    (cs ds : List ℕ) (t : Editor) → press_all (cs ++ ds) t ≡ press_all ds (press_all cs t)
press_all-append [] ds t = refl
press_all-append (c ∷ cs) ds t = press_all-append cs ds (press c t)

-- Plain bytes that fit go to the end of the line.
record IsTyped (t : Editor) (cs : List ℕ) (t' : Editor) : Type 0 where
  kept : t'.done ≡ t.done
  added : t'.line ≡ t.line ++ cs

press_plain :
    (c : ℕ) (t : Editor)
    → is_plain c ≡ true
    → length t.done + length t.line + 1 < input_buf
    → IsTyped t (c ∷ []) (press c t)
press_plain c t plain room =
    let size = length-append t.line (c ∷ []) in
    let list : is_list c ≡ false = ground (arith, plain) in
    let kill : is_kill c ≡ false = ground (arith, plain) in
    let erase : is_erase c ≡ false = ground (arith, plain) in
    let fits : (not (c == 0) && ltb (length t.done + length t.line) input_buf) ≡ true =
      ground (arith, plain) in
    let not_cr : (c == 13) ≡ false = ground (arith, plain) in
    let stays : ((c == newline)
          || ((c == eof) || (length t.done + (length t.line + 1) == input_buf)))
        ≡ false =
      ground (arith, plain) in
    rw (list, kill, erase, fits, not_cr, size, stays) (record { kept = refl; added = refl })

press_all-IsTyped :
    (cs : List ℕ) (t : Editor)
    → AllPlain cs
    → length t.done + length t.line + length cs < input_buf
    → IsTyped t cs (press_all cs t)
press_all-IsTyped [] t all room = record { kept = refl; added = sym (append-nil t.line) }
press_all-IsTyped (c ∷ cs) t (plain, all) room =
    let first = press_plain c t plain (omega arith) in
    let size : length ((press c t).line) ≡ length t.line + 1 =
      ap length first.added ∙ length-append t.line (c ∷ []) in
    let same : length ((press c t).done) ≡ length t.done = ap length first.kept in
    let rest = press_all-IsTyped cs (press c t) all (omega (arith, size, same, room)) in
    record {
      kept = rest.kept ∙ first.kept;
      added = rest.added ∙ ap (λ l. l ++ cs) first.added ∙ append_assoc t.line (c ∷ []) cs;
    }

take-line :
    (n target : ℕ) (killed : Bool) (cs : List ℕ)
    → AllPlain cs
    → length cs < n
    → n ≤ target
    → take n target killed (cs ++ (newline ∷ []))
      ≡ (cs ++ (newline ∷ []), returned (target - n + length cs + 1), [])
take-line zero target killed cs all lt le = absurd (omega arith)
take-line (suc n) target killed [] all lt le =
    ap (λ k. (newline ∷ [], returned k, [])) (omega arith)
take-line (suc n) target killed (c ∷ cs) (plain, all) lt le =
    let rest = take-line n target killed cs all (omega arith) (omega arith) in
    let not_eof : (c == eof) ≡ false = ground (arith, plain) in
    let not_end : (c == newline) ≡ false = ground (arith, plain) in
    rw (not_eof, not_end, rest)
      (ap (λ k. (c ∷ (cs ++ (newline ∷ [])), returned k, [])) (omega arith))

press_all-line :
    (junk cs : List ℕ) (t : Editor)
    → AllPlain junk
    → AllPlain cs
    → t.line ≡ []
    → length t.done + length junk < input_buf
    → length t.done + length cs < input_buf
    → ((press_all (junk ++ (21 ∷ (cs ++ (13 ∷ [])))) t).done ≡ t.done ++ (cs ++ (newline ∷ [])))
      × ((press_all (junk ++ (21 ∷ (cs ++ (13 ∷ [])))) t).line ≡ [])
press_all-line junk cs t all_junk all empty room_junk room =
    let t1 = press_all junk t in
    let first = press_all-IsTyped junk t all_junk (rw empty (omega arith)) in
    let t2 = press 21 t1 in
    let kept : length t2.done ≡ length t.done = ap length first.kept in
    let t3 = press_all cs t2 in
    let typed = press_all-IsTyped cs t2 all (omega (arith, kept)) in
    let size : length t3.done + length t3.line ≡ length t.done + length cs =
      ap₂ ◌+◌ (ap length typed.kept ∙ kept) (ap length typed.added) in
    let fits : ltb (length t3.done + length t3.line) input_buf ≡ true = ground (arith, size) in
    let whole : press_all (junk ++ (21 ∷ (cs ++ (13 ∷ [])))) t ≡ press 13 t3 =
      press_all-append junk (21 ∷ (cs ++ (13 ∷ []))) t ∙ press_all-append cs (13 ∷ []) t2 in
    rw (whole, fits)
      (ap₂ (λ d l. d ++ (l ++ (newline ∷ []))) (typed.kept ∙ first.kept) typed.added, refl)

AllBytes-append : (cs ds : List ℕ) → AllPlain cs → AllBytes ds → AllBytes (cs ++ ds)
AllBytes-append [] ds all rest = rest
AllBytes-append (c ∷ cs) ds (plain, all) rest =
    (ground (arith, plain), AllBytes-append cs ds all rest)

-- With nothing left to read and nothing on the line, let plain bytes be typed, killed with C-u, and
-- then a line with Enter, each of them shorter than the ring. Then one turn of a consoleread that
-- wants more bytes than the line has returns the line with its newline, and leaves the console
-- with nothing to read and nothing on the line.
pub consoleread-consoleintr :
    (junk cs : List ℕ) (n : ℕ) (killed : Bool) (s : Console)
    → IsSound s
    → ready s ≡ []
    → edit s ≡ []
    → AllPlain junk
    → AllPlain cs
    → length junk < input_buf
    → length cs < input_buf
    → length cs < n
    → (s' : Console) × (consoleread n n killed
          ((consoleintr (junk ++ (21 ∷ (cs ++ (13 ∷ [])))) false s).0)
        ≡ (cs ++ (newline ∷ []), returned (length cs + 1), s'))
      × IsSound s'
      × (ready s' ≡ [])
      × (edit s' ≡ [])
consoleread-consoleintr junk cs n killed s v none blank all_junk all short_junk short wanted =
    let keys = junk ++ (21 ∷ (cs ++ (13 ∷ []))) in
    let bytes =
      AllBytes-append junk (21 ∷ (cs ++ (13 ∷ []))) all_junk
        (omega arith, AllBytes-append cs (13 ∷ []) all (omega arith, tt)) in
    let s1 = (consoleintr keys false s).0 in
    let (sound, same, _) = consoleintr-press_all keys false s v bytes in
    let (done, line) =
      press_all-line junk cs (view s) all_junk all blank (rw none (omega arith))
        (rw none (omega arith)) in
    let left : ready s1 ≡ cs ++ (newline ∷ []) =
      ap (λ t. t.done) same ∙ done ∙ ap (λ q. q ++ (cs ++ (newline ∷ []))) none in
    let got = consoleread-IsTaken n n killed s1 sound in
    let taken : take n n killed (ready s1) ≡ (cs ++ (newline ∷ []), returned (length cs + 1), []) =
      ap (take n n killed) left
      ∙ take-line n n killed cs all wanted (omega arith)
      ∙ ap (λ k. (cs ++ (newline ∷ []), returned k, [])) (omega arith) in
    let r = consoleread n n killed s1 in
    (
      r.2,
      ap₂ (λ b o. (b, o, r.2)) (got.bytes ∙ ap (λ x. x.0) taken)
          (got.outcome ∙ ap (λ x. x.1) taken),
      got.sound,
      got.left ∙ ap (λ x. x.2) taken,
      got.line ∙ ap (λ t. t.line) same ∙ line,
    )
