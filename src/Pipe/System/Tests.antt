-- ===== src/Pipe/System/Tests.antt =====
-- A pipe that is written and read, and one whose writer is killed.
use os_hw.Prelude.{ℕ, zero, suc, ◌≡◌, ◌-◌, ◌^◌, refl, ap, true, false, List, [], ◌∷◌, length, arith}
use os_hw.Prelude.Bytes.{Bytes}
use os_hw.Pipe.{Pipe, new_pipe, pipesize, write_turn, read_turn}
use os_hw.Pipe.Queue.{size, IsValid, contents}
use os_hw.Pipe.System.{
  System, write, read, Reach, here, next, init, after_write, after_read, IsFifo, Reach-IsFifo,
}
use os_hw.Pipe.System.Wakeups.{IsAwake, Reach-IsAwake, killed_writer-loses-wakeup}

abbrev junk : Bytes
junk _ = 99

-- three bytes in, two out
abbrev mid_stream : System
mid_stream = after_read false 2 (after_write false (1 ∷ 2 ∷ 3 ∷ []) (init junk))

mid_stream_received : (mid_stream.received ≡ 1 ∷ 2 ∷ []) × (contents mid_stream.pipe ≡ 3 ∷ [])
unfolding after_write after_read new_pipe write_turn read_turn
mid_stream_received = (refl, refl)

mid_stream-Reach : Reach false (init junk) mid_stream
unfolding after_write new_pipe write_turn
mid_stream-Reach = next (next here (write false (1 ∷ 2 ∷ 3 ∷ []) refl refl)) (read false 2 refl)

Reach-IsFifo_example : IsFifo mid_stream
Reach-IsFifo_example = Reach-IsFifo junk mid_stream-Reach

Reach-IsAwake_example : IsAwake mid_stream
Reach-IsAwake_example = Reach-IsAwake junk mid_stream-Reach

-- a ring that is one byte from full, its indices about to wrap around
abbrev nearly_full : Pipe
nearly_full = record {
  buf = junk;
  nread = 2 ^ 32 - 511;
  nwrite = 0;
  readopen = true;
  writeopen = true;
}

nearly_full-IsValid : IsValid nearly_full
nearly_full-IsValid = record {
  read_word = omega arith;
  write_word = omega arith;
  bounded = omega arith;
}

abbrev sevens : ℕ → List ℕ
sevens zero = []
sevens (suc n) = 7 ∷ sevens n

length-sevens : (n : ℕ) → length (sevens n) ≡ n
length-sevens zero = refl
length-sevens (suc n) = ap suc (length-sevens n)

-- a reader has found the pipe empty and sleeps
abbrev waiting : System
waiting = after_read false 5 (init junk)

waiting-Reach : Reach false (init junk) waiting
unfolding new_pipe
waiting-Reach = next here (read false 5 refl)

waiting_asleep : waiting.readers_asleep ≡ true
unfolding after_read new_pipe read_turn
waiting_asleep = refl

killed_writer-loses-wakeup_example :
    let s' = after_write true (sevens 600) waiting in
    (s'.readers_asleep ≡ true) × (size s'.pipe ≡ pipesize)
killed_writer-loses-wakeup_example =
    killed_writer-loses-wakeup (sevens 600) waiting (Reach-IsAwake junk waiting-Reach)
      waiting_asleep (omega (arith, length-sevens 600))
