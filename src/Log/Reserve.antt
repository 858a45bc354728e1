-- ===== src/Log/Reserve.antt =====
-- begin_op, log_write and end_op as called by concurrent file-system calls, in any order. Each
-- call between its `begin_op` and its `end_op` may still log some blocks: its quota, at first
-- `MAXOPBLOCKS`, which the comment above `begin_op` counts on.
pub mod Quotas
pub mod Safety
pub mod Full
use os_hw.Prelude.{
  ℕ, zero, suc, ◌+◌, ◌≤◌, ◌<◌, ◌≡◌, Bool, true, false, some, List, [], ◌∷◌, All, length, get_elem?,
  set,
}
use os_hw.Prelude.Bytes.{Bytes}
use os_hw.Prelude.Outcome.{ok}
use os_hw.Store.{Store}
use os_hw.Log.{Log, max_op_blocks, log_size, begin_op, leave, log_write, commit}

abbrev pub sum : List ℕ → ℕ
sum [] = 0
sum (q ∷ qs) = q + sum qs

-- the calls without the one at place `i`
abbrev pub remove : List ℕ → ℕ → List ℕ
remove [] i = []
remove (q ∷ qs) zero = qs
remove (q ∷ qs) (suc i) = q ∷ remove qs i

pub record System : Type 0 where
  pub log : Log
  pub store : Store
  pub quotas : List ℕ

-- One call begins, logs a block, ends while others go on, or ends as the last one; then the
-- commit runs, with `committing` set.
pub data Step (s : System) : System → Type 0 where
  begins :
      {l : Log}
      → begin_op s.log ≡ some l
      → Step s (record s { log = l; quotas = max_op_blocks ∷ s.quotas })
  logs :
      (i q b : ℕ) (x : Bytes) {l : Log} {st : Store}
      → get_elem? s.quotas i ≡ some (suc q)
      → log_write s.log s.store b x ≡ ok (l, st)
      → Step s (record { log = l; store = st; quotas = set s.quotas i q })
  ends :
      (i q : ℕ) {l : Log} {last : Bool}
      → get_elem? s.quotas i ≡ some q
      → leave s.log ≡ ok (l, last)
      → Step s (record s { log = l; quotas = remove s.quotas i })
  commits :
      s.log.committing ≡ true
      → Step s (record s {
        log = record (commit s.log s.store).0 { committing = false };
        store = (commit s.log s.store).1;
      })

-- The log as `initlog` leaves it, on a disk whose log has `LOGSIZE` blocks, as mkfs makes it, or
-- more. The first of them is the header.
pub record IsFresh (l : Log) : Type 0 where
  pub no_entries : l.n ≡ 0
  pub no_calls : l.outstanding ≡ 0
  pub not_committing : l.committing ≡ false
  pub roomy : log_size ≤ l.size

pub data Reach (s : System) : System → Type 0 where
  here : Reach s s
  next : {t u : System} → Reach s t → Step t u → Reach s u

abbrev pub start_system : Log → Store → System
start_system l s = record { log = l; store = s; quotas = [] }

-- What the calls may still log fits into the entries of the header; the log still has `size` blocks.
pub record IsReserved (size : ℕ) (s : System) : Type 0 where
  pub counted : s.log.outstanding ≡ length s.quotas
  pub few : length s.quotas ≤ 3
  pub within : s.log.n + sum s.quotas ≤ log_size
  pub quota : All (λ q. q ≤ max_op_blocks) s.quotas
  pub alone : s.log.committing ≡ true → length s.quotas ≡ 0
  pub sized : s.log.size ≡ size
