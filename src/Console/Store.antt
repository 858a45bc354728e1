-- ===== src/Console/Store.antt =====
-- A byte at the end of the ring, and the end of a line.
use os_hw.Prelude.{
  ℕ, suc, ◌+◌, ◌-◌, ◌%◌, ◌^◌, ◌<◌, ◌≡◌, ◌≢◌, ◌∙◌, ap, ap₂, true, [], ◌∷◌, ◌++◌, arith, ◌==◌,
  Bool-cases, inl, inr,
}
use os_hw.Prelude.Bytes.{update}
use os_hw.Console.{Console, input_buf, newline, store}
use os_hw.Console.Ring.{
  window, lines, typed, ready, edit, IsRing, IsSound, window-update, window-append, window-last,
}

-- What storing `c` does to the two lists.
module _ (s : Console) (v : IsSound s) (c : ℕ) (byte : c < 256)
    (room : lines s + typed s < input_buf) where
  abbrev s' : Console
  s' = store c s

  pub typed-store : typed s' ≡ suc (typed s)
  typed-store =
      let r = v.ring.r_word in let w = v.ring.w_word in let e = v.ring.e_word in omega arith

  pub store-IsRing : IsRing s'
  store-IsRing =
      let e = v.ring.e_word in
      record {
        r_word = v.ring.r_word;
        w_word = v.ring.w_word;
        e_word = omega arith;
        bounded = omega (arith, typed-store);
      }

  place : s.e ≡ (s.r + (lines s + typed s)) % 2 ^ 32
  place = let r = v.ring.r_word in let w = v.ring.w_word in let e = v.ring.e_word in omega arith

  line_place : s.e ≡ (s.w + typed s) % 2 ^ 32
  line_place = let w = v.ring.w_word in let e = v.ring.e_word in omega arith

  pub ready-store : ready s' ≡ ready s
  ready-store =
      ap (λ i. window (update s.buf (i % input_buf) (c % 256)) s.r (lines s)) place
      ∙ window-update s.buf (lines s) s.r (lines s + typed s) (c % 256) v.ring.r_word (omega arith)
          room

  pub edit-store : edit s' ≡ edit s ++ (c ∷ [])
  edit-store =
      let last : update s.buf (s.e % input_buf) (c % 256) ((s.w + typed s) % 2 ^ 32 % input_buf)
          ≡ c =
        ground (arith, line_place) in
      ap (window s'.buf s.w) typed-store
      ∙ window-last s'.buf (typed s) s.w v.ring.w_word
      ∙ ap₂ (λ l x. l ++ (x ∷ []))
          (ap (λ i. window (update s.buf (i % input_buf) (c % 256)) s.w (typed s)) line_place
            ∙ window-update s.buf (typed s) s.w (typed s) (c % 256) v.ring.w_word (omega arith)
                (omega arith))
          last

  pub store_plain :
      c ≢ newline → (i : ℕ) → i < typed s' → s'.buf ((s.w + i) % 2 ^ 32 % input_buf) ≢ newline
  store_plain ne i lt h =
      let at = line_place in
      let w = v.ring.w_word in
      let old = v.plain i in
      let grown = typed-store in
      elim (Bool-cases (i == typed s)) [
        | inl here ↦ ground (arith, at, here, ne, h)
        | inr there ↦
            let before : i < typed s = ground (arith, there, lt, grown) in
            let small = v.ring.bounded in
            let apart : ((s.w + i) % 2 ^ 32 % input_buf) ≢ (s.e % input_buf) = omega arith in
            old before (ground (arith, apart, h))
      ]

-- What moving `input.w` up to `input.e` does.
pub ready-end_line :
    (s : Console) → IsRing s → ready (record s { w = s.e; woken = true }) ≡ ready s ++ edit s
ready-end_line s v =
    let r = v.r_word in
    let w = v.w_word in
    let e = v.e_word in
    let b = v.bounded in
    let sum : (s.e + 2 ^ 32 - s.r) % 2 ^ 32 ≡ lines s + typed s = omega arith in
    let next : (s.r + lines s) % 2 ^ 32 ≡ s.w = omega arith in
    ap (window s.buf s.r) sum
    ∙ window-append s.buf (lines s) (typed s) s.r r
    ∙ ap (λ i. ready s ++ window s.buf i (typed s)) next

pub end_line-IsSound : (s : Console) → IsRing s → IsSound (record s { w = s.e; woken = true })
end_line-IsSound s v =
    let r = v.r_word in
    let w = v.w_word in
    let e = v.e_word in
    let b = v.bounded in
    record {
      ring = record { r_word = r; w_word = e; e_word = e; bounded = omega arith };
      plain = λ i lt. absurd (omega arith);
    }

pub edit-end_line : (s : Console) → IsRing s → edit (record s { w = s.e; woken = true }) ≡ []
edit-end_line s v =
    let e = v.e_word in
    let none : (s.e + 2 ^ 32 - s.e) % 2 ^ 32 ≡ 0 = omega arith in ap (window s.buf s.e) none
