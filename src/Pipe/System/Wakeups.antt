-- ===== src/Pipe/System/Wakeups.antt =====
-- Who sleeps on the pipe, and what wakes them.
use os_hw.Prelude.{
  ℕ, ◌+◌, ◌-◌, ◌<◌, ◌≡◌, ap, Bool, true, false, List, length, take, length-append, length-take,
  length-drop, min, arith, if◌then◌else◌,
}
use os_hw.Prelude.Bytes.{Bytes}
use os_hw.Pipe.{Pipe, pipesize, new_pipe, Turn, close, write_wakes, read_wakes}
use os_hw.Pipe.Queue.{size, IsValid, contents, length-contents}
use os_hw.Pipe.Turns.{Written, write_turn-Written, Taken, read_turn-Taken}
use os_hw.Pipe.System.{
  System, after_write, after_read, after_close, Step, write, read, shut, Reach, here, next, init,
}

-- A reader sleeps only on an empty pipe that may still be written, a writer only on a full pipe
-- that may still be read.
pub record IsAwake (s : System) : Type 0 where
  pub valid : IsValid s.pipe
  pub readers :
      s.readers_asleep ≡ true
      → (size s.pipe ≡ 0) × (s.pipe.writeopen ≡ true) × (s.pipe.readopen ≡ true)
  pub writers : s.writers_asleep ≡ true → (size s.pipe ≡ pipesize) × (s.pipe.readopen ≡ true)

size-Written :
    {killed : Bool} {xs : List ℕ} {p p' : Pipe} {t : Turn (Unit {0}) (List ℕ)}
    → Written killed (pipesize - size p) xs p p' t
    → size p' ≡ size p + min (pipesize - size p) (length xs)
size-Written {xs} {p} {p'} w = omega (
  arith,
  ap length w.queued,
  length-contents p,
  length-contents p',
  length-append (contents p) (take (pipesize - size p) xs),
  length-take (pipesize - size p) xs,
)

size-Taken :
    {killed : Bool} {n : ℕ} {p p' : Pipe} {t : Turn (List ℕ) (Unit {0})}
    → Taken killed n p p' t
    → size p' ≡ size p - n
size-Taken {n} {p} {p'} r =
    omega
      (arith, ap length r.rest, length-contents p, length-contents p', length-drop n (contents p))

write-IsAwake :
    (xs : List ℕ) (s : System)
    → s.pipe.writeopen ≡ true
    → IsAwake s
    → IsAwake (after_write false xs s)
unfolding after_write write_wakes
write-IsAwake xs s o a =
    let w = write_turn-Written false xs s.pipe a.valid in
    record {
      valid = w.valid;
      readers = λ e. ground (arith, w.result, w.kept, a.readers, size-Written w);
      writers = λ e. ground (arith, w.result, w.kept, a.writers, size-Written w);
    }

read-IsAwake :
    (killed : Bool) (n : ℕ) (s : System)
    → s.pipe.readopen ≡ true
    → IsAwake s
    → IsAwake (after_read killed n s)
unfolding after_read read_wakes
read-IsAwake killed n s o a =
    let r = read_turn-Taken killed n s.pipe a.valid in
    record {
      valid = r.valid;
      readers = λ e. ground (arith, r.result, r.kept, a.readers, size-Taken r);
      writers = λ e. ground (arith, r.result, r.kept, a.writers, size-Taken r);
    }

close-IsAwake :
    (w : Bool) (s : System)
    → (if w then s.writers_asleep else s.readers_asleep) ≡ false
    → IsAwake s
    → IsAwake (after_close w s)
unfolding after_close close
close-IsAwake true s q a = record { valid = ground arith; readers = λ e. cc; writers = λ e. cc }
close-IsAwake false s q a = record { valid = ground arith; readers = λ e. cc; writers = λ e. cc }

Step-IsAwake : {s t : System} → Step false s t → IsAwake s → IsAwake t
Step-IsAwake {s} (write true xs h o) a = cc
Step-IsAwake {s} (write false xs h o) a = write-IsAwake xs s o a
Step-IsAwake {s} (read killed n o) a = read-IsAwake killed n s o a
Step-IsAwake {s} (shut w q) a = close-IsAwake w s q a

-- While no writer is killed in its call, no wakeup is lost: a reader sleeps only while the pipe is
-- empty and has a writer, and a writer only while it is full and has a reader.
pub Reach-IsAwake : (junk : Bytes) {s : System} → Reach false (init junk) s → IsAwake s
unfolding new_pipe
Reach-IsAwake junk here = record { valid = omega arith; readers = λ e. cc; writers = λ e. cc }
Reach-IsAwake junk (next r st) = Step-IsAwake st (Reach-IsAwake junk r)

-- A writer that is killed while it fills the pipe returns without waking the readers: where one
-- slept, it sleeps on, and the pipe is full.
pub killed_writer-loses-wakeup :
    (xs : List ℕ) (s : System)
    → IsAwake s
    → s.readers_asleep ≡ true
    → pipesize < length xs
    → let s' = after_write true xs s in (s'.readers_asleep ≡ true) × (size s'.pipe ≡ pipesize)
unfolding after_write write_wakes
killed_writer-loses-wakeup xs s a e long =
    let w = write_turn-Written true xs s.pipe a.valid in
    (ground (arith, w.result, a.readers e), omega (arith, size-Written w, a.readers e))
