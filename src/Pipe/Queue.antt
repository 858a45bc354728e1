-- ===== src/Pipe/Queue.antt =====
-- The pipe as a queue of at most 512 bytes.
use os_hw.Prelude.{
  ℕ, zero, suc, ◌+◌, ◌-◌, ◌%◌, ◌^◌, ◌≤◌, ◌<◌, ◌≡◌, refl, ap, ap₂, true, false, List, [], ◌∷◌, ◌++◌,
  length, arith,
}
use os_hw.Prelude.Bytes.{Bytes, update}
use os_hw.Pipe.{Pipe, pipesize, is_full, put}

abbrev pub size : Pipe → ℕ
size p = (p.nwrite + 2 ^ 32 - p.nread) % 2 ^ 32

-- Both indices are words, and the ring holds at most 512 bytes.
pub record IsValid (p : Pipe) : Type 0 where
  pub read_word : p.nread < 2 ^ 32
  pub write_word : p.nwrite < 2 ^ 32
  pub bounded : size p ≤ pipesize

-- the `k` bytes of the ring from index `r` on
abbrev pub window : Bytes → ℕ → ℕ → List ℕ
window buf r zero = []
window buf r (suc k) = buf (r % pipesize) ∷ window buf ((r + 1) % 2 ^ 32) k

abbrev pub contents : Pipe → List ℕ
contents p = window p.buf p.nread (size p)

window-put :
    (buf : Bytes) (k r w x : ℕ)
    → r < 2 ^ 32
    → k < pipesize
    → w ≡ (r + k) % 2 ^ 32
    → window (update buf (w % pipesize) x) r (suc k) ≡ window buf r k ++ (x ∷ [])
window-put buf zero r w x small room e = ground arith
window-put buf (suc k) r w x small room e =
    ap₂ ◌∷◌ (ground arith)
      (window-put buf k ((r + 1) % 2 ^ 32) w x (omega arith) (omega arith) (omega arith))

pub is_full-false : (p : Pipe) → IsValid p → size p < pipesize → is_full p ≡ false
is_full-false p v h = ground arith

pub is_full-true : (p : Pipe) → IsValid p → size p ≡ pipesize → is_full p ≡ true
is_full-true p v h = ground arith

pub size-put : (p : Pipe) (x : ℕ) → IsValid p → size p < pipesize → size (put p x) ≡ size p + 1
unfolding put
size-put p x v room = omega arith

pub put-IsValid : (p : Pipe) (x : ℕ) → IsValid p → size p < pipesize → IsValid (put p x)
unfolding put
put-IsValid p x v room = omega arith

pub contents-put :
    (p : Pipe) (x : ℕ) → IsValid p → size p < pipesize → contents (put p x) ≡ contents p ++ (x ∷ [])
unfolding put
contents-put p x v room =
    let e : (((p.nwrite + 1) % 2 ^ 32) + 2 ^ 32 - p.nread) % 2 ^ 32 ≡ suc (size p) = omega arith in
    rw e (window-put p.buf (size p) p.nread p.nwrite x v.read_word room (omega arith))

length-window : (buf : Bytes) (k r : ℕ) → length (window buf r k) ≡ k
length-window buf zero r = refl
length-window buf (suc k) r = ap suc (length-window buf k ((r + 1) % 2 ^ 32))

pub length-contents : (p : Pipe) → length (contents p) ≡ size p
length-contents p = length-window p.buf (size p) p.nread
