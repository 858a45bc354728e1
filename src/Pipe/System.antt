-- ===== src/Pipe/System.antt =====
-- Any number of readers and writers of one pipe, their turns in any order.
pub mod Wakeups
pub mod Tests
use os_hw.Prelude.{
  ℕ, ◌-◌, ◌≤◌, ◌≡◌, refl, sym, ◌∙◌, ap, Bool, true, false, not, ◌&&◌, ◌||◌, List, [], ◌++◌, take,
  drop, ◌==◌, if◌then◌else◌, append-nil, append_assoc, arith,
}
use os_hw.Prelude.Bytes.{Bytes}
use os_hw.Pipe.{
  Pipe, pipesize, new_pipe, nread_chan, nwrite_chan, Turn, done, failed, asleep, close, write_turn,
  read_turn, write_wakes, read_wakes, is_asleep,
}
use os_hw.Pipe.Queue.{size, IsValid, contents}
use os_hw.Pipe.Turns.{got, got-append, write_turn-Written, read_turn-Taken}

-- The pipe, whether some process sleeps on `nread` and on `nwrite`, and what went through.
pub record System : Type 0 where
  pub pipe : Pipe
  pub readers_asleep : Bool
  pub writers_asleep : Bool
  pub written : List ℕ
  pub received : List ℕ

-- A write takes as many bytes as fit.
pub after_write : Bool → List ℕ → System → System
after_write killed xs s =
    let (p, t) = write_turn killed s.pipe xs in
    record s {
      pipe = p;
      readers_asleep = s.readers_asleep && not (write_wakes t);
      writers_asleep = s.writers_asleep || is_asleep t;
      written = s.written ++ take (pipesize - size s.pipe) xs;
    }

pub after_read : Bool → ℕ → System → System
after_read killed n s =
    let (p, t) = read_turn killed s.pipe n in
    record s {
      pipe = p;
      readers_asleep = s.readers_asleep || is_asleep t;
      writers_asleep = s.writers_asleep && not (read_wakes t);
      received = s.received ++ got t;
    }

pub after_close : Bool → System → System
after_close writable s =
    let c = close s.pipe writable in
    record s {
      pipe = c.pipe;
      readers_asleep = elim c.woken [ nread_chan ↦ false | nwrite_chan ↦ s.readers_asleep ];
      writers_asleep = elim c.woken [ nread_chan ↦ s.writers_asleep | nwrite_chan ↦ false ];
    }

-- An end of the pipe is closed when its last file descriptor is: then no process is in a call on
-- that end, and none will make one. The turn of a sleeper that is killed does not change the pipe,
-- and the flag that some process sleeps is not cleared by it. `kills` says whether a writer may be
-- killed in the middle of its call.
pub data Step (kills : Bool) (s : System) : System → Type 0 where
  write :
      (killed : Bool) (xs : List ℕ)
      → (killed && not kills) ≡ false
      → s.pipe.writeopen ≡ true
      → Step kills s (after_write killed xs s)
  read : (killed : Bool) (n : ℕ) → s.pipe.readopen ≡ true → Step kills s (after_read killed n s)
  shut :
      (writable : Bool)
      → (if writable then s.writers_asleep else s.readers_asleep) ≡ false
      → Step kills s (after_close writable s)

pub data Reach (kills : Bool) (s : System) : System → Type 0 where
  here : Reach kills s s
  next : {t u : System} → Reach kills s t → Step kills t u → Reach kills s u

-- the system when `pipealloc` returns
abbrev pub init : Bytes → System
init junk = record {
  pipe = new_pipe junk;
  readers_asleep = false;
  writers_asleep = false;
  written = [];
  received = [];
}

-- The pipe is a queue: what came out, then what is still in it, is what went in.
pub record IsFifo (s : System) : Type 0 where
  pub valid : IsValid s.pipe
  pub order : s.received ++ contents s.pipe ≡ s.written

close-kept :
    (p : Pipe) (w : Bool)
    → let c = close p w in
      (c.pipe.buf ≡ p.buf) × (c.pipe.nread ≡ p.nread) × (c.pipe.nwrite ≡ p.nwrite)
unfolding close
close-kept p true = (refl, refl, refl)
close-kept p false = (refl, refl, refl)

write-IsFifo :
    (killed : Bool) (xs : List ℕ) (s : System) → IsFifo s → IsFifo (after_write killed xs s)
unfolding after_write
write-IsFifo killed xs s f =
    let w = write_turn-Written killed xs s.pipe f.valid in
    record { valid = w.valid; order = rw (w.queued, ← append_assoc, f.order) refl }

read-IsFifo : (killed : Bool) (n : ℕ) (s : System) → IsFifo s → IsFifo (after_read killed n s)
unfolding after_read
read-IsFifo killed n s f =
    let r = read_turn-Taken killed n s.pipe f.valid in
    record { valid = r.valid; order = rw (append_assoc, got-append f.valid r) f.order }

close-IsFifo : (w : Bool) (s : System) → IsFifo s → IsFifo (after_close w s)
unfolding after_close close
close-IsFifo true s f = record { valid = ground arith; order = f.order }
close-IsFifo false s f = record { valid = ground arith; order = f.order }

Step-IsFifo : {kills : Bool} {s t : System} → Step kills s t → IsFifo s → IsFifo t
Step-IsFifo {s} (write killed xs h o) f = write-IsFifo killed xs s f
Step-IsFifo {s} (read killed n o) f = read-IsFifo killed n s f
Step-IsFifo {s} (shut w q) f = close-IsFifo w s f

-- However the turns of readers, writers and closers interleave, killed or not, the pipe never
-- holds more than 512 bytes, and the bytes received so far, followed by those in the pipe, are the
-- bytes written so far.
pub Reach-IsFifo : {kills : Bool} (junk : Bytes) {s : System} → Reach kills (init junk) s → IsFifo s
unfolding new_pipe
Reach-IsFifo junk here = record { valid = omega arith; order = refl }
Reach-IsFifo junk (next r st) = Step-IsFifo st (Reach-IsFifo junk r)
