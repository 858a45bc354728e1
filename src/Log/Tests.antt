-- ===== src/Log/Tests.antt =====
-- log.c on a disk with a log of 30 blocks from block 2 on.
use os_hw.Prelude.{◌≡◌, refl, false, none, some, [], ◌∷◌, All, arith}
use os_hw.Prelude.Bytes.{Bytes, update, get_word}
use os_hw.Prelude.Outcome.{ok}
use os_hw.Store.{Store}
use os_hw.Log.{Log, log_write, commit}
use os_hw.Log.Commit.{IsReady, AllOrNothing, crash_points, crash_points-AllOrNothing}
use os_hw.Log.Durable.{IsCommitted, commit-IsCommitted}
use os_hw.Log.Write.{Wrote, log_write-Wrote}
use os_hw.Log.Reserve.{System}

abbrev zeros : Bytes
zeros _ = 0

abbrev sevens : Bytes
sevens _ = 7

abbrev empty_log : Log
empty_log = record {
  start = 2;
  size = 30;
  outstanding = 0;
  committing = false;
  dev = 1;
  n = 0;
  block = λ _. 0;
}

abbrev one_entry : Log
one_entry = record empty_log { outstanding = 1; n = 1; block = update (λ _. 0) 0 40 }

abbrev blank : Store
blank = record { disk = λ _. zeros; pinned = λ _. none; past = [] }

-- block 40 is dirty
abbrev one_dirty : Store
one_dirty = record blank { pinned = update (λ _. none) 40 (some sevens) }

one_dirty-IsReady : IsReady one_entry one_dirty
unfolding get_word
one_dirty-IsReady = record {
  fits = record { few = omega arith; word = λ i lt. ground arith };
  placed = record { room = omega arith; apart = λ i lt. ground arith };
  clean = λ b lo hi. ground arith;
  listed = λ b x q. (0, omega arith, ground arith);
  none_listed = refl;
}

crash_points-AllOrNothing_example :
    All (AllOrNothing one_entry one_dirty) (crash_points one_entry one_dirty)
crash_points-AllOrNothing_example = crash_points-AllOrNothing one_entry one_dirty one_dirty-IsReady

commit-IsCommitted_example :
    let (l', s') = commit one_entry one_dirty in IsCommitted one_entry one_dirty l' s'
commit-IsCommitted_example = commit-IsCommitted one_entry one_dirty one_dirty-IsReady

-- a second block joins the transaction
abbrev two_entries : Log
two_entries = record one_entry { n = 2; block = update one_entry.block 1 41 }

abbrev two_dirty : Store
two_dirty = record one_dirty { pinned = update one_dirty.pinned 41 (some zeros) }

second_write : log_write one_entry one_dirty 41 zeros ≡ ok (two_entries, two_dirty)
unfolding log_write
second_write = refl

log_write-Wrote_example : Wrote one_entry one_dirty 41 zeros two_entries two_dirty
log_write-Wrote_example =
    log_write-Wrote one_entry one_dirty 41 zeros one_dirty-IsReady (ground arith) (omega arith)
      second_write

-- one call begins and logs block 40
abbrev begun : Log
begun = record empty_log { outstanding = 1 }

abbrev wrote : Log
wrote = record begun { n = 1; block = update (λ _. 0) 0 40 }

abbrev logging : System
logging = record { log = wrote; store = one_dirty; quotas = 9 ∷ [] }
