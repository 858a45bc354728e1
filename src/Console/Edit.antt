-- ===== src/Console/Edit.antt =====
-- consoleintr as an editor of one line.
use os_hw.Prelude.{
  ℕ, zero, suc, ◌+◌, ◌-◌, ◌%◌, ◌^◌, ◌<◌, ◌≡◌, ◌≢◌, refl, sym, ◌∙◌, ap, ap₂, subst, true, false,
  Bool, not, ◌&&◌, ◌||◌, List, [], ◌∷◌, ◌++◌, length, arith, ◌==◌, ltb, if◌then◌else◌, ne→==,
  Bool-cases, inl, inr,
}
use os_hw.Prelude.Bytes.{Bytes}
use os_hw.Console.{
  Console, input_buf, backspace, newline, eof, is_erase, is_list, is_kill, erase, kill_from, store,
  end_line, default, key, consoleintr,
}
use os_hw.Console.Editor.{
  Editor, view, rub_out, but_last, enter, press, press_all, AllBytes, has_list,
}
use os_hw.Console.Store.{
  store-IsRing, typed-store, ready-store, edit-store, store_plain, ready-end_line, end_line-IsSound,
  edit-end_line,
}
use os_hw.Console.Ring.{window, lines, typed, ready, edit, IsRing, IsSound, length-window}

but_last-window : (buf : Bytes) (k r : ℕ) → but_last (window buf r (suc k)) ≡ window buf r k
but_last-window buf zero r = refl
but_last-window buf (suc k) r =
    ap (◌∷◌ (buf (r % input_buf))) (but_last-window buf k ((r + 1) % 2 ^ 32))

typed-erase : (n : ℕ) (s : Console) → IsRing s → typed s ≡ suc n → typed (erase s) ≡ n
typed-erase n s v e = let w = v.w_word in let e_word = v.e_word in omega arith

erase-IsSound : (n : ℕ) (s : Console) → IsSound s → typed s ≡ suc n → IsSound (erase s)
erase-IsSound n s v e =
    let less = typed-erase n s v.ring e in
    let bounded = v.ring.bounded in
    record {
      ring = record {
        r_word = v.ring.r_word;
        w_word = v.ring.w_word;
        e_word = omega arith;
        bounded = omega (arith, less);
      };
      plain = λ i lt. v.plain i (omega (arith, less));
    }

view-erase :
    (n : ℕ) (s : Console) → IsSound s → typed s ≡ suc n → edit (erase s) ≡ but_last (edit s)
view-erase n s v e = rw (typed-erase n s v.ring e, e) (sym (but_last-window s.buf n s.w))

kill_from_lem :
    (n : ℕ) (s : Console)
    → IsSound s
    → typed s ≡ n
    → kill_from n s ≡ record s { e = s.w; shown = rub_out n s.shown }
unfolding kill_from
kill_from_lem zero s v e =
    let w = v.ring.w_word in
    let e_word = v.ring.e_word in
    let same : s.e ≡ s.w = omega arith in ap (λ x. record s { e = x }) same
kill_from_lem (suc n) s v e =
    let w = v.ring.w_word in
    let e_word = v.ring.e_word in
    let more : (s.e == s.w) ≡ false = ground arith in
    let place : (s.w + n) % 2 ^ 32 % input_buf ≡ (s.e + 2 ^ 32 - 1) % 2 ^ 32 % input_buf =
      omega arith in
    let other : (s.buf ((s.e + 2 ^ 32 - 1) % 2 ^ 32 % input_buf) == newline) ≡ false =
      ne→== _ _ (subst (λ i. s.buf i ≢ newline) place (v.plain n (omega arith))) in
    rw (more, other) (kill_from_lem n (erase s) (erase-IsSound n s v e) (typed-erase n s v.ring e))

abbrev editor : List ℕ → List ℕ → List ℕ → Bool → Editor
editor d l o b = record { done = d; line = l; shown = o; woken = b }

end_line-enter :
    (s : Console) (v : IsSound s) (c : ℕ)
    → c < 256
    → lines s + typed s < input_buf
    → IsSound (end_line c (store c s)) × (view (end_line c (store c s)) ≡ enter c (view s))
end_line-enter s v c byte room =
    let s1 = store c s in
    let ring = store-IsRing s v c byte room in
    let line : edit s1 ≡ edit s ++ (c ∷ []) = edit-store s v c byte room in
    let done : ready s1 ≡ ready s = ready-store s v c byte room in
    let sizes : length (ready s) + length (edit s ++ (c ∷ [])) ≡ lines s + suc (typed s) =
      ap₂ ◌+◌ (length-window s.buf s.r (lines s)) (
        ap length (sym line) ∙ length-window s1.buf s.w (typed s1) ∙ typed-store s v c byte room) in
    let full : (s1.e == (s.r + input_buf) % 2 ^ 32) ≡ (lines s + suc (typed s) == input_buf) =
      (let r = v.ring.r_word in let w = v.ring.w_word in let e = v.ring.e_word in ground arith) in
    elim (Bool-cases ((c == newline) || ((c == eof) || (lines s + suc (typed s) == input_buf)))) [
      | inl so ↦
          rw (full, sizes, so)
            (
              end_line-IsSound s1 ring,
              ap₂ (λ a b. editor a b s1.shown true) (ready-end_line s1 ring ∙ ap₂ ◌++◌ done line)
                  (edit-end_line s1 ring),
            )
      | inr not_so ↦
          let ne : c ≢ newline = ground (arith, not_so) in
          rw (full, sizes, not_so)
            (
              record { ring = ring; plain = store_plain s v c byte room ne },
              ap₂ (λ a b. editor a b s1.shown s.woken) done line,
            )
    ]

default-press :
    (s : Console) (v : IsSound s) (c : ℕ)
    → c < 256
    → IsSound (default c s)
      × (view (default c s) ≡ (
          if not (c == 0) && ltb (length (ready s) + length (edit s)) input_buf
          then enter (if c == 13 then newline else c) (view s)
          else view s))
unfolding default
default-press s v c byte =
    let r = v.ring.r_word in
    let w = v.ring.w_word in
    let e = v.ring.e_word in
    let small = v.ring.bounded in
    let sum : (s.e + 2 ^ 32 - s.r) % 2 ^ 32 ≡ lines s + typed s = omega arith in
    let sizes : length (ready s) + length (edit s) ≡ lines s + typed s =
      ap₂ ◌+◌ (length-window s.buf s.r (lines s)) (length-window s.buf s.w (typed s)) in
    elim (Bool-cases (not (c == 0) && ltb (lines s + typed s) input_buf)) [
      | inl so ↦
          rw (sum, sizes, so)
            (end_line-enter s v (if c == 13 then newline else c) (ground arith)
              (ground (arith, so)))
      | inr not_so ↦ rw (sum, sizes, not_so) (v, refl)
    ]

key-press :
    (s : Console) (v : IsSound s) (c : ℕ)
    → c < 256
    → IsSound (key c s) × (view (key c s) ≡ press c (view s))
unfolding key
key-press s v c byte =
    let r = v.ring.r_word in
    let w = v.ring.w_word in
    let e = v.ring.e_word in
    let small = v.ring.bounded in
    let size = length-window s.buf s.w (typed s) in
    elim (Bool-cases (is_list c)) [
      | inl list ↦ rw list (v, refl)
      | inr other ↦ elim (Bool-cases (is_kill c)) [
        | inl kill ↦
            let none : (s.w + 2 ^ 32 - s.w) % 2 ^ 32 ≡ 0 = omega arith in
            rw (other, kill, kill_from_lem (typed s) s v refl, size)
              (
                record {
                  ring = record { r_word = r; w_word = w; e_word = w; bounded = omega arith };
                  plain = λ i lt. absurd (omega arith);
                },
                ap (λ n. editor (ready s) (window s.buf s.w n) (rub_out (typed s) s.shown) s.woken)
                    none,
              )
        | inr letter ↦ elim (Bool-cases (is_erase c)) [
          | inr byte_key ↦ rw (other, letter, byte_key) (default-press s v c byte)
          | inl erased ↦ rw (other, letter, erased, size) (key-erase s v)
        ]
      ]
    ]
  where
    key-erase :
        (s : Console)
        → IsSound s
        → IsSound (if s.e == s.w then s else erase s)
          × (view (if s.e == s.w then s else erase s) ≡ (
              if typed s == 0 then view s else record (view s) {
                line = but_last (edit s);
                shown = s.shown ++ (backspace ∷ []);
              }))
    key-erase s v =
        let w = v.ring.w_word in
        let e = v.ring.e_word in
        elim (Bool-cases (typed s == 0)) [
          | inl empty ↦
              let same : (s.e == s.w) ≡ true = ground (arith, empty) in rw (same, empty) (v, refl)
          | inr rest ↦
              let differ : (s.e == s.w) ≡ false = ground (arith, rest) in
              let n = typed s - 1 in
              let size : typed s ≡ suc n = ground (arith, rest) in
              rw (differ, rest)
                (
                  erase-IsSound n s v size,
                  ap (λ l. editor (ready s) l (s.shown ++ (backspace ∷ [])) s.woken)
                      (view-erase n s v size),
                )
        ]

-- Whatever bytes are typed, the indices of the ring stay in order, and the bytes that can be read,
-- the line that is edited, what is shown and whether readers are woken are those of the editor that
-- takes the same keys; the processes are listed if that key is among them.
pub consoleintr-press_all :
    (cs : List ℕ) (dump : Bool) (s : Console)
    → IsSound s
    → AllBytes cs
    → IsSound ((consoleintr cs dump s).0)
      × (view ((consoleintr cs dump s).0) ≡ press_all cs (view s))
      × ((consoleintr cs dump s).1 ≡ has_list cs dump)
unfolding consoleintr
consoleintr-press_all [] dump s v all = (v, refl, refl)
consoleintr-press_all (c ∷ cs) dump s v (byte, all) =
    let (next, same) = key-press s v c byte in
    let (sound, typed_all, listed) =
      consoleintr-press_all cs (dump || is_list c) (key c s) next all in
    (sound, typed_all ∙ ap (press_all cs) same, listed)
