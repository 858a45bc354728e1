-- ===== src/Console/Screen.antt =====
-- cgaputc of console.c: the text screen of 25 lines of 80 cells, two bytes each.
use os_hw.Prelude.{
  ℕ, ◌+◌, ◌-◌, ◌*◌, ◌/◌, ◌%◌, ◌≤◌, ◌<◌, ◌≡◌, refl, ◌∙◌, ap, subst, Bool, true, false, List, [], ◌∷◌,
  not, ◌&&◌, ◌||◌, leb, ltb, ◌==◌, fun_ext, if◌then◌else◌, Bool-cases, inl, inr, arith,
}
use os_hw.Prelude.Bytes.{Bytes, update}
use os_hw.Prelude.Outcome.{Outcome, ok, panic, ◌>>=◌}
use os_hw.Str.{memmove, memset}
use os_hw.Str.Move.{memmove_lem, memset_lem}
use os_hw.Console.{backspace, newline}

-- The memory of the screen, from 0 on, and the cursor that the controller holds.
pub record Screen : Type 0 where
  pub crt : Bytes
  pub pos : ℕ

-- `crt[pos] = (c&0xff) | 0x0700`
abbrev pub put_cell : (pos c : ℕ) → Bytes → Bytes
put_cell pos c crt = update (update crt (2 * pos) (c % 256)) (2 * pos + 1) 7

abbrev is_letter : ℕ → Bool
is_letter c = if c == newline then false else if c == backspace then false else true

abbrev pub move_cursor : (c pos : ℕ) → ℕ
move_cursor c pos =
    if c == newline
    then pos + (80 - pos % 80)
    else if c == backspace
    then (if ltb 0 pos then pos - 1 else pos)
    else pos + 1

pub scroll : Screen → Screen
scroll s =
    if leb 24 (s.pos / 80)
    then (let pos = s.pos - 80 in
        record {
          crt = memset (2 * pos) 0 (2 * (24 * 80 - pos)) (memmove 0 (2 * 80) (2 * 23 * 80) s.crt);
          pos = pos;
        })
    else s

unfoldable pub cgaputc : ℕ → Screen → Outcome Screen
unfolding scroll
cgaputc c s =
    let pos = move_cursor c s.pos in
    let crt = if is_letter c then put_cell s.pos c s.crt else s.crt in
    if ltb (25 * 80) pos
    then panic
    else (let s' = scroll (record { crt = crt; pos = pos }) in
        ok (record s' { crt = put_cell s'.pos b' ' s'.crt }))

-- `uartputc` of what `consputc` sends to the serial port
abbrev pub serial : ℕ → List ℕ
serial c = if c == backspace then 8 ∷ b' ' ∷ 8 ∷ [] else c ∷ []

-- A whole output of `consputc` on the screen.
pub cgaputs : List ℕ → Screen → Outcome Screen
unfolding cgaputc
cgaputs [] s = ok s
cgaputs (c ∷ cs) s = cgaputc c s >>= cgaputs cs

-- The letters of the screen and the place of the cursor.
abbrev Text : Type 0
Text = (ℕ → ℕ) × ℕ

-- Where the cursor goes, if the screen had no end: a newline takes it to the start of the next line,
-- a backspace one cell back but not off the screen, a letter one cell on.
abbrev next_place : (c pos : ℕ) → ℕ
next_place c pos =
    if c == newline then 80 * (pos / 80 + 1) else if c == backspace then pos - 1 else pos + 1

-- The letters with `c` at `pos`, if it is one.
abbrev with_letter : (c pos : ℕ) → (ℕ → ℕ) → ℕ → ℕ
with_letter c pos cell i =
    if i == pos && not (c == newline || c == backspace) then c % 256 else cell i

-- the text of `display` as `cgaputc` computes it
abbrev moved_text : ℕ → Text → Text
moved_text c (cell, pos) =
    let written = if is_letter c then update cell pos (c % 256) else cell in
    let next = move_cursor c pos in
    if ltb next (24 * 80)
    then (update written next b' ', next)
    else (update (λ i. if ltb i (23 * 80) then written (i + 80) else 0) (23 * 80) b' ', 23 * 80)

-- A byte on the screen: a letter goes to the cursor, which moves on; below the 24th line all lines
-- move up by one, and the new one is empty. The cursor stands on a blank.
abbrev pub display : ℕ → Text → Text
display c (cell, pos) =
    let written = with_letter c pos cell in
    let next = next_place c pos in
    if ltb next (24 * 80)
    then (update written next b' ', next)
    else (update (λ i. if ltb i (23 * 80) then written (i + 80) else 0) (23 * 80) b' ', 23 * 80)

move_cursor-next_place : (c pos : ℕ) → move_cursor c pos ≡ next_place c pos
move_cursor-next_place c pos = ground arith

with_letter_lem :
    (c pos : ℕ) (cell : ℕ → ℕ)
    → (if is_letter c then update cell pos (c % 256) else cell) ≡ with_letter c pos cell
with_letter_lem c pos cell = fun_ext (λ i. ground arith)

moved_text-display : (c : ℕ) (t : Text) → moved_text c t ≡ display c t
moved_text-display c (cell, pos) =
    rw (with_letter_lem c pos cell, move_cursor-next_place c pos) refl

abbrev pub display_all : List ℕ → Text → Text
display_all [] t = t
display_all (c ∷ cs) t = display_all cs (display c t)

-- `s` shows the text `t`, with the cursor in the first 24 lines.
pub record IsShown (t : Text) (s : Screen) : Type 0 where
  pub inside : s.pos < 24 * 80
  pub cursor : s.pos ≡ t.1
  pub cells : (i : ℕ) → i < 24 * 80 → s.crt (2 * i) ≡ t.0 i

-- the letters after `put_cell`
cells-put_cell :
    (crt : Bytes) (cell : ℕ → ℕ) (p c n : ℕ)
    → ((i : ℕ) → i < n → crt (2 * i) ≡ cell i)
    → (i : ℕ) → i < n
    → put_cell p c crt (2 * i) ≡ update cell p (c % 256) i
cells-put_cell crt cell p c n same i lt = let h = same i lt in ground (arith, h)

cells-written :
    (c p n : ℕ) (crt : Bytes) (cell : ℕ → ℕ)
    → ((i : ℕ) → i < n → crt (2 * i) ≡ cell i)
    → (i : ℕ) → i < n
    → (if is_letter c then put_cell p c crt else crt) (2 * i)
      ≡ (if is_letter c then update cell p (c % 256) else cell) i
cells-written c p n crt cell same i lt = elim (Bool-cases (is_letter c)) [
  | inl letter ↦ rw letter (cells-put_cell crt cell p c n same i lt)
  | inr other ↦ rw other (same i lt)
]

scroll-kept : (s : Screen) → s.pos < 24 * 80 → scroll s ≡ s
unfolding scroll
scroll-kept s lt = let h : leb 24 (s.pos / 80) ≡ false = ground arith in rw h refl

-- the lines move up
scroll-moved :
    (s : Screen)
    → s.pos ≡ 24 * 80
    → ((scroll s).pos ≡ 23 * 80)
      × ((i : ℕ)
          → i < 24 * 80
          → (scroll s).crt (2 * i) ≡ (if ltb i (23 * 80) then s.crt (2 * (i + 80)) else 0))
unfolding scroll
scroll-moved s full =
    let h : leb 24 (s.pos / 80) ≡ true = ground (arith, full) in
    rw h (
      omega arith,
      λ i lt.
          let up = memmove_lem 0 (2 * 80) (2 * 23 * 80) s.crt (2 * i) in
          let fill =
            memset_lem (2 * (s.pos - 80)) 0 (2 * (24 * 80 - (s.pos - 80)))
              (memmove 0 (2 * 80) (2 * 23 * 80) s.crt) (2 * i) in
          let from : 2 * (i + 80) ≡ 2 * 80 + (2 * i - 0) = omega arith in
          fill ∙ rw from (ground (arith, up, full)),
    )

move_cursor-bound : (c pos : ℕ) → pos < 24 * 80 → move_cursor c pos ≤ 24 * 80
move_cursor-bound c pos lt = ground arith

-- the blank at the cursor
cursor-IsShown :
    (t : Text) (s : Screen)
    → IsShown t s
    → IsShown (update t.0 t.1 b' ', t.1) (record s { crt = put_cell s.pos b' ' s.crt })
cursor-IsShown t s v = record {
  inside = v.inside;
  cursor = v.cursor;
  cells = λ i lt.
      cells-put_cell s.crt t.0 s.pos b' ' (24 * 80) v.cells i lt
      ∙ ap (λ p. update t.0 p b' ' i) v.cursor;
}

cgaputc-moved_text :
    (c : ℕ) (t : Text) (s : Screen)
    → IsShown t s
    → (s' : Screen) × (cgaputc c s ≡ ok s') × IsShown (moved_text c t) s'
unfolding cgaputc
cgaputc-moved_text c (cell, pos) s v =
    let inside = v.inside in
    let q = move_cursor c s.pos in
    let low = move_cursor-bound c s.pos inside in
    let crt = if is_letter c then put_cell s.pos c s.crt else s.crt in
    let moved : Screen = record { crt = crt; pos = q } in
    let calm : ltb (25 * 80) q ≡ false = ground (arith, low) in
    let cells = cells-written c s.pos (24 * 80) s.crt cell v.cells in
    let at : moved_text c (cell, s.pos) ≡ moved_text c (cell, pos) =
      ap (λ p. moved_text c (cell, p)) v.cursor in
    elim (Bool-cases (ltb q (24 * 80))) [
      | inl above ↦
          let lt : q < 24 * 80 = ground (arith, above) in
          let kept = scroll-kept moved lt in
          (
            record moved { crt = put_cell q b' ' crt },
            rw (calm, kept) refl,
            subst (λ t. IsShown t (record moved { crt = put_cell q b' ' crt })) at
                (rw above (
                  cursor-IsShown (if is_letter c then update cell s.pos (c % 256) else cell, q)
                    moved (record { inside = lt; cursor = refl; cells = cells }))),
          )
      | inr below ↦
          let full : q ≡ 24 * 80 = ground (arith, below, low) in
          let (to, rows) = scroll-moved moved full in
          let r = scroll moved in
          (
            record r { crt = put_cell r.pos b' ' r.crt },
            rw calm refl,
            subst (λ t. IsShown t (record r { crt = put_cell r.pos b' ' r.crt })) at
                (rw below (
                  cursor-IsShown
                    (
                      λ i.
                          if ltb i (23 * 80)
                          then (if is_letter c then update cell s.pos (c % 256) else cell) (i + 80)
                          else 0,
                      23 * 80,
                    )
                    r
                    (record {
                      inside = omega (arith, to);
                      cursor = to;
                      cells = λ i lt. rows i lt ∙ row i _ _ (cells (i + 80));
                    }))),
          )
    ]
  where
    row :
        (i a b : ℕ)
        → (i + 80 < 24 * 80 → a ≡ b)
        → (if ltb i (23 * 80) then a else 0) ≡ (if ltb i (23 * 80) then b else 0)
    row i a b h = elim (Bool-cases (ltb i (23 * 80))) [
      | inl lt ↦ rw lt (h (ground (arith, lt)))
      | inr ge ↦ rw ge refl
    ]

-- cgaputc with the cursor in the first 24 lines does not panic, keeps it there, and changes the
-- letters and the cursor as `display` says.
pub cgaputc-IsShown :
    (c : ℕ) (t : Text) (s : Screen)
    → IsShown t s
    → (s' : Screen) × (cgaputc c s ≡ ok s') × IsShown (display c t) s'
cgaputc-IsShown c t s v =
    let (s', run, shown) = cgaputc-moved_text c t s v in
    (s', run, subst (λ u. IsShown u s') (moved_text-display c t) shown)

-- Whatever is put out while the cursor is in the first 24 lines, cgaputc never panics, and the
-- letters and the cursor are what `display` makes of the output, byte by byte.
pub cgaputs-IsShown :
    (cs : List ℕ) (t : Text) (s : Screen)
    → IsShown t s
    → (s' : Screen) × (cgaputs cs s ≡ ok s') × IsShown (display_all cs t) s'
unfolding cgaputs
cgaputs-IsShown [] t s v = (s, refl, v)
cgaputs-IsShown (c ∷ cs) t s v =
    let (s1, run, first) = cgaputc-IsShown c t s v in
    let (s2, runs, rest) = cgaputs-IsShown cs (display c t) s1 first in (s2, rw run runs, rest)
