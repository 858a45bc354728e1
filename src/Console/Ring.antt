-- ===== src/Console/Ring.antt =====
-- The ring of the console as two lists: the bytes that can be read, and those of the line that is
-- edited.
use os_hw.Prelude.{
  ℕ, zero, suc, ◌+◌, ◌-◌, ◌%◌, ◌^◌, ◌≤◌, ◌<◌, ◌≡◌, ◌≢◌, refl, ◌∙◌, ap, ap₂, List, [], ◌∷◌, ◌++◌,
  length, arith,
}
use os_hw.Prelude.Bytes.{Bytes, update}
use os_hw.Console.{Console, input_buf, newline}

-- the `k` bytes of the ring from index `r` on
abbrev pub window : Bytes → ℕ → ℕ → List ℕ
window buf r zero = []
window buf r (suc k) = buf (r % input_buf) ∷ window buf ((r + 1) % 2 ^ 32) k

abbrev pub lines : Console → ℕ
lines s = (s.w + 2 ^ 32 - s.r) % 2 ^ 32

abbrev pub typed : Console → ℕ
typed s = (s.e + 2 ^ 32 - s.w) % 2 ^ 32

abbrev pub ready : Console → List ℕ
ready s = window s.buf s.r (lines s)

abbrev pub edit : Console → List ℕ
edit s = window s.buf s.w (typed s)

-- The indices are words, in order around the ring.
pub record IsRing (s : Console) : Type 0 where
  pub r_word : s.r < 2 ^ 32
  pub w_word : s.w < 2 ^ 32
  pub e_word : s.e < 2 ^ 32
  pub bounded : lines s + typed s ≤ input_buf

-- Besides, the line that is edited has no newline.
pub record IsSound (s : Console) : Type 0 where
  pub ring : IsRing s
  pub plain : (i : ℕ) → i < typed s → s.buf ((s.w + i) % 2 ^ 32 % input_buf) ≢ newline

pub length-window : (buf : Bytes) (r k : ℕ) → length (window buf r k) ≡ k
length-window buf r zero = refl
length-window buf r (suc k) = ap suc (length-window buf ((r + 1) % 2 ^ 32) k)

-- a store outside the window
pub window-update :
    (buf : Bytes) (k r d x : ℕ)
    → r < 2 ^ 32
    → k ≤ d
    → d < input_buf
    → window (update buf ((r + d) % 2 ^ 32 % input_buf) x) r k ≡ window buf r k
window-update buf zero r d x small out lt = refl
window-update buf (suc k) r zero x small out lt = absurd (omega arith)
window-update buf (suc k) r (suc d) x small out lt =
    let next : (r + suc d) % 2 ^ 32 ≡ ((r + 1) % 2 ^ 32 + d) % 2 ^ 32 = omega arith in
    ap₂ ◌∷◌ (ground arith) (
      ap (λ i. window (update buf (i % input_buf) x) ((r + 1) % 2 ^ 32) k) next
      ∙ window-update buf k ((r + 1) % 2 ^ 32) d x (omega arith) (omega arith) (omega arith))

pub window-append :
    (buf : Bytes) (j k r : ℕ)
    → r < 2 ^ 32
    → window buf r (j + k) ≡ window buf r j ++ window buf ((r + j) % 2 ^ 32) k
window-append buf zero k r small =
    let e : (r + 0) % 2 ^ 32 ≡ r = omega arith in
    let none : 0 + k ≡ k = omega arith in rw (e, none) refl
window-append buf (suc j) k r small =
    let e : suc j + k ≡ suc (j + k) = omega arith in
    let next : (r + suc j) % 2 ^ 32 ≡ ((r + 1) % 2 ^ 32 + j) % 2 ^ 32 = omega arith in
    rw (e, next)
      (ap (◌∷◌ (buf (r % input_buf))) (window-append buf j k ((r + 1) % 2 ^ 32) (omega arith)))

-- the byte behind the window
pub window-last :
    (buf : Bytes) (k r : ℕ)
    → r < 2 ^ 32
    → window buf r (suc k) ≡ window buf r k ++ (buf ((r + k) % 2 ^ 32 % input_buf) ∷ [])
window-last buf k r small =
    let e : suc k ≡ k + 1 = omega arith in ap (window buf r) e ∙ window-append buf k 1 r small
