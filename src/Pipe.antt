-- ===== src/Pipe.antt =====
-- pipe.c: a ring of 512 bytes with free-running 32-bit indices. A call holds the pipe's lock from
-- its start, or from where it wakes, until it returns or goes to sleep: such a stretch is a turn.
pub mod Queue
pub mod Turns
pub mod System
use os_hw.Prelude.{
  ℕ, zero, suc, ◌+◌, ◌%◌, ◌^◌, Bool, true, false, not, ◌&&◌, ◌||◌, List, [], ◌∷◌, ◌==◌,
  if◌then◌else◌,
}
use os_hw.Prelude.Bytes.{Bytes, update}

abbrev pub pipesize : ℕ
pipesize = 512

-- `struct pipe` without its lock
pub record Pipe : Type 0 where
  pub buf : Bytes
  pub nread : ℕ
  pub nwrite : ℕ
  pub readopen : Bool
  pub writeopen : Bool

-- The addresses `&p->nread` and `&p->nwrite`, as channels to sleep on.
pub data Chan : Type 0 where
  nread_chan nwrite_chan : Chan

-- the part of `pipealloc` that sets up the new pipe
pub new_pipe : Bytes → Pipe
new_pipe junk = record { buf = junk; nread = 0; nwrite = 0; readopen = true; writeopen = true }

-- How a turn ends: with a result, with -1, or in `sleep` with the rest still to do.
pub data Turn (A W : Type 0) : Type 0 where
  done : A → Turn A W
  failed : Turn A W
  asleep : W → Turn A W

-- The new pipe, the channels on which `wakeup` was called, and whether the page was freed.
pub record Closed : Type 0 where
  pub pipe : Pipe
  pub woken : Chan
  pub freed : Bool

pub close : Pipe → Bool → Closed
close p writable =
    let p' = if writable then record p { writeopen = false } else record p { readopen = false } in
    record {
      pipe = p';
      woken = if writable then nread_chan else nwrite_chan;
      freed = not p'.readopen && not p'.writeopen;
    }

-- Whether a turn of `pipewrite` calls `wakeup(&p->nread)`: when done and before it sleeps.
pub write_wakes : Turn (Unit {0}) (List ℕ) → Bool
write_wakes (done _) = true
write_wakes failed = false
write_wakes (asleep _) = true

-- Whether a turn of `piperead` calls `wakeup(&p->nwrite)`: when done.
pub read_wakes : Turn (List ℕ) (Unit {0}) → Bool
read_wakes (done _) = true
read_wakes failed = false
read_wakes (asleep _) = false

abbrev pub is_asleep : {A W : Type 0} → Turn A W → Bool
is_asleep (done _) = false
is_asleep failed = false
is_asleep (asleep _) = true

abbrev pub is_full : Pipe → Bool
is_full p = p.nwrite == (p.nread + pipesize) % 2 ^ 32

-- p->data[p->nwrite++ % PIPESIZE] = x
pub put : Pipe → ℕ → Pipe
put p x = record p { buf = update p.buf (p.nwrite % pipesize) x; nwrite = (p.nwrite + 1) % 2 ^ 32 }

-- A turn of `pipewrite` with the bytes `addr[i..n)` to write.
pub write_turn : (killed : Bool) → Pipe → List ℕ → Pipe × Turn (Unit {0}) (List ℕ)
unfolding put
write_turn killed p [] = (p, done tt)
write_turn killed p (x ∷ xs) =
    let rest = write_turn killed (put p x) xs in
    if is_full p then (p, if not p.readopen || killed then failed else asleep (x ∷ xs)) else rest

-- the copying loop of `piperead`, for `n` rounds at most
read_copy : ℕ → Pipe → List ℕ × Pipe
read_copy zero p = ([], p)
read_copy (suc n) p =
    let rest = read_copy n (record p { nread = (p.nread + 1) % 2 ^ 32 }) in
    if p.nread == p.nwrite then ([], p) else (p.buf (p.nread % pipesize) ∷ rest.0, rest.1)

-- A turn of `piperead` of up to `n` bytes.
pub read_turn : (killed : Bool) → Pipe → ℕ → Pipe × Turn (List ℕ) (Unit {0})
unfolding read_copy
read_turn killed p n =
    if (p.nread == p.nwrite) && p.writeopen
    then (p, if killed then failed else asleep tt)
    else (let (bytes, p') = read_copy n p in (p', done bytes))
