-- ===== src/Pipe/Turns.antt =====
-- What a turn of pipewrite and of piperead does to the queue, on every branch.
use os_hw.Prelude.{
  ℕ, zero, suc, ◌+◌, ◌-◌, ◌%◌, ◌^◌, ◌<◌, ◌≡◌, refl, sym, ◌∙◌, ap, inl, inr, Bool, true, false, not,
  ◌&&◌, ◌||◌, List, [], ◌∷◌, ◌++◌, length, take, drop, take-nil, drop-nil, take-append-drop, arith,
  ◌==◌, leb, if◌then◌else◌, Bool-cases, append-nil, append_assoc,
}
use os_hw.Prelude.Bytes.{Bytes}
use os_hw.Pipe.{Pipe, pipesize, put, Turn, done, failed, asleep, write_turn, read_copy, read_turn}
use os_hw.Pipe.Queue.{
  size, IsValid, window, contents, is_full-false, is_full-true, size-put, put-IsValid, contents-put,
}

-- how a turn of `pipewrite` must end when there is room for `room` bytes
abbrev pub write_result : Bool → Pipe → ℕ → List ℕ → Turn (Unit {0}) (List ℕ)
write_result killed p room xs =
    if leb (length xs) room
    then done tt
    else if not p.readopen || killed
    then failed
    else asleep (drop room xs)

-- What a turn of `pipewrite` of the bytes `xs` leaves when there is room for `room` bytes.
pub record Written (killed : Bool) (room : ℕ) (xs : List ℕ) (p p' : Pipe)
    (t : Turn (Unit {0}) (List ℕ)) : Type 0 where
  pub valid : IsValid p'
  pub queued : contents p' ≡ contents p ++ take room xs
  pub result : t ≡ write_result killed p room xs
  pub kept : (p'.nread ≡ p.nread) × (p'.readopen ≡ p.readopen) × (p'.writeopen ≡ p.writeopen)

put-kept :
    (p : Pipe) (x : ℕ)
    → ((put p x).nread ≡ p.nread)
      × ((put p x).readopen ≡ p.readopen)
      × ((put p x).writeopen ≡ p.writeopen)
unfolding put
put-kept p x = (refl, refl, refl)

write_turn-room :
    (killed : Bool) (room : ℕ) (xs : List ℕ) (p : Pipe)
    → room + size p ≡ pipesize
    → IsValid p
    → let (p', t) = write_turn killed p xs in Written killed room xs p p' t
unfolding write_turn
write_turn-room killed room [] p e v = record {
  valid = v;
  queued = rw (take-nil room) (sym (append-nil (contents p)));
  result = ground arith;
  kept = (refl, refl, refl);
}
write_turn-room killed zero (x ∷ xs) p e v = rw (is_full-true p v (omega arith)) (record {
  valid = ground arith;
  queued = ground (arith, append-nil (contents p));
  result = ground arith;
  kept = ground arith;
})
write_turn-room killed (suc room) (x ∷ xs) p e v =
    let free : size p < pipesize = omega arith in
    let rest =
      write_turn-room killed room xs (put p x) (omega (arith, size-put p x v free))
        (put-IsValid p x v free) in
    rw (is_full-false p v free) (record {
      valid = rest.valid;
      queued =
          rest.queued
          ∙ rw (contents-put p x v free) (append_assoc (contents p) (x ∷ []) (take room xs));
      result = rest.result ∙ ground (arith, put-kept p x);
      kept = ground (arith, rest.kept, put-kept p x);
    })

-- A turn of `pipewrite` appends as many of its bytes as there is room for, in order, and leaves
-- the rest of the pipe alone. It is done when that is all of them. Otherwise it fails if no reader
-- is left or the process was killed, and sleeps with the other bytes still to write if not.
pub write_turn-Written :
    (killed : Bool) (xs : List ℕ) (p : Pipe)
    → IsValid p
    → let (p', t) = write_turn killed p xs in Written killed (pipesize - size p) xs p p' t
write_turn-Written killed xs p v =
    write_turn-room killed (pipesize - size p) xs p (omega (arith, v.bounded)) v

window_of_pos :
    (buf : Bytes) (r k : ℕ)
    → 0 < k
    → window buf r k ≡ buf (r % pipesize) ∷ window buf ((r + 1) % 2 ^ 32) (k - 1)
window_of_pos buf r zero h = absurd (omega arith)
window_of_pos buf r (suc k) h = ap (λ j. window buf r (suc j)) (omega arith)

-- the pipe after one byte is read
abbrev advanced : Pipe → Pipe
advanced p = record p { nread = (p.nread + 1) % 2 ^ 32 }

contents-empty : (p : Pipe) → IsValid p → (p.nread == p.nwrite) ≡ true → contents p ≡ []
contents-empty p v e = let z : size p ≡ 0 = ground arith in ap (window p.buf p.nread) z

contents-advanced :
    (p : Pipe)
    → IsValid p
    → (p.nread == p.nwrite) ≡ false
    → contents p ≡ p.buf (p.nread % pipesize) ∷ contents (advanced p)
contents-advanced p v e =
    let pos : 0 < size p = ground arith in
    let left : size p - 1 ≡ size (advanced p) = omega arith in
    window_of_pos p.buf p.nread (size p) pos
    ∙ ap (λ k. p.buf (p.nread % pipesize) ∷ window p.buf ((p.nread + 1) % 2 ^ 32) k) left

advanced-IsValid : (p : Pipe) → IsValid p → (p.nread == p.nwrite) ≡ false → IsValid (advanced p)
advanced-IsValid p v e = ground arith

-- What the copying loop of `piperead` takes from the front of the queue.
record Copied (n : ℕ) (p : Pipe) (bytes : List ℕ) (p' : Pipe) : Type 0 where
  valid : IsValid p'
  front : bytes ≡ take n (contents p)
  rest : contents p' ≡ drop n (contents p)
  kept : (p'.nwrite ≡ p.nwrite) × (p'.readopen ≡ p.readopen) × (p'.writeopen ≡ p.writeopen)

read_copy-Copied :
    (n : ℕ) (p : Pipe) → IsValid p → let (bytes, p') = read_copy n p in Copied n p bytes p'
unfolding read_copy
read_copy-Copied zero p v = record {
  valid = v;
  front = refl;
  rest = refl;
  kept = (refl, refl, refl);
}
read_copy-Copied (suc n) p v = elim (Bool-cases (p.nread == p.nwrite)) [
  | inl e ↦
      let none_left = contents-empty p v e in
      rw e (record {
        valid = v;
        front = rw none_left refl;
        rest = rw none_left refl;
        kept = (refl, refl, refl);
      })
  | inr e ↦
      let later = read_copy-Copied n (advanced p) (advanced-IsValid p v e) in
      let first = contents-advanced p v e in
      rw e (record {
        valid = later.valid;
        front = rw first (ap (λ bs. p.buf (p.nread % pipesize) ∷ bs) later.front);
        rest = rw first later.rest;
        kept = later.kept;
      })
]

-- how a turn of `piperead` of up to `n` bytes must end
abbrev pub read_result : Bool → ℕ → Pipe → Turn (List ℕ) (Unit {0})
read_result killed n p =
    if (size p == 0) && p.writeopen
    then (if killed then failed else asleep tt)
    else done (take n (contents p))

-- What a turn of `piperead` of up to `n` bytes leaves.
pub record Taken (killed : Bool) (n : ℕ) (p p' : Pipe) (t : Turn (List ℕ) (Unit {0})) : Type 0 where
  pub valid : IsValid p'
  pub result : t ≡ read_result killed n p
  pub rest : contents p' ≡ drop n (contents p)
  pub kept : (p'.nwrite ≡ p.nwrite) × (p'.readopen ≡ p.readopen) × (p'.writeopen ≡ p.writeopen)

indices_meet : (p : Pipe) → IsValid p → (p.nread == p.nwrite) ≡ (size p == 0)
indices_meet p v = ground arith

-- A turn of `piperead` takes up to `n` bytes from the front of the queue, and is done with those.
-- Only an empty pipe with a writer left makes it sleep, or fail if the process was killed; an
-- empty pipe with no writer gives no bytes.
pub read_turn-Taken :
    (killed : Bool) (n : ℕ) (p : Pipe)
    → IsValid p
    → let (p', t) = read_turn killed p n in Taken killed n p p' t
unfolding read_turn
read_turn-Taken killed n p v = elim (Bool-cases ((size p == 0) && p.writeopen)) [
  | inl e ↦
      let none_left = contents-empty p v (ground arith) in
      let same : contents p ≡ drop n (contents p) = rw none_left (sym (drop-nil n)) in
      rw (indices_meet p v, e)
        (record { valid = ground arith; result = ground arith; rest = same; kept = ground arith })
  | inr e ↦
      let c = read_copy-Copied n p v in
      rw (indices_meet p v, e)
        (record { valid = c.valid; result = rw e (ap done c.front); rest = c.rest; kept = c.kept })
]

abbrev pub got : Turn (List ℕ) (Unit {0}) → List ℕ
got (done bytes) = bytes
got failed = []
got (asleep _) = []

-- The bytes that a turn of `piperead` returns, and those that it leaves, are those there were.
pub got-append :
    {killed : Bool} {n : ℕ} {p p' : Pipe} {t : Turn (List ℕ) (Unit {0})}
    → IsValid p
    → Taken killed n p p' t
    → got t ++ contents p' ≡ contents p
got-append {killed} {n} {p} v r = elim (Bool-cases ((size p == 0) && p.writeopen)) [
  | inl e ↦
      let none_left = contents-empty p v (ground arith) in
      ground (arith, r.result, r.rest, drop-nil {A = ℕ} n)
  | inr e ↦ ground (arith, r.result, r.rest, take-append-drop n (contents p))
]
