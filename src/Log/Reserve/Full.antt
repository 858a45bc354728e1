-- ===== src/Log/Reserve/Full.antt =====
-- The log of LOGSIZE blocks that mkfs makes: three calls that reserve MAXOPBLOCKS blocks each can
-- fill it before they have logged all of them.
use os_hw.Prelude.{
  false, ℕ, zero, suc, ◌+◌, ◌-◌, ◌≤◌, ◌<◌, ◌≡◌, ◌≢◌, refl, subst, ◌∙◌, some, List, [], ◌∷◌, arith,
  get_elem?, set, ne→==, leb, ap, ==_refl, dec_lt,
}
use os_hw.Prelude.Bytes.{Bytes, update}
use os_hw.Prelude.Outcome.{ok, panic}
use os_hw.Store.{Store, pin}
use os_hw.Log.{Log, log_size, rounds, begin_op, find_block, log_write}
use os_hw.Log.Head.{rounds-eq}
use native.Mathlib.Nat.{zero-add}
use os_hw.Log.Reserve.{System, start_system, begins, logs, IsFresh, Reach, here, next}

find_block-absent :
    (k i b : ℕ) (f : ℕ → ℕ) → ((j : ℕ) → i ≤ j → j < i + k → f j ≢ b) → find_block k i f b ≡ i + k
unfolding find_block
find_block-absent zero i b f absent = omega arith
find_block-absent (suc k) i b f absent =
    let rest = find_block-absent k (i + 1) b f (λ j lo hi. absent j (omega arith) (omega arith)) in
    rw (ne→== (f i) b (absent i (omega arith) (omega arith))) (omega (arith, rest))

begin_op-room :
    (l : Log)
    → l.committing ≡ false
    → l.n ≡ 0
    → l.outstanding ≤ 2
    → begin_op l ≡ some (record l { outstanding = l.outstanding + 1 })
unfolding begin_op
begin_op-room l idle empty few = ground arith

module _ (l : Log) (s : Store) (x : Bytes) (fresh : IsFresh l) (sized : l.size ≡ log_size) where
  -- the entries once the blocks from 1000 on are logged, `k` of them
  names : ℕ → ℕ → ℕ
  names zero = l.block
  names (suc k) = update (names k) k (1000 + k)

  pins : ℕ → Store
  pins zero = s
  pins (suc k) = pin (pins k) (1000 + k) x

  logged : ℕ → Log
  unfolding names
  logged k = record l { outstanding = 3; n = k; block = names k }

  -- The first call logs ten blocks, then the second, then the third.
  quotas : ℕ → List ℕ
  quotas k = (10 - k) ∷ (20 - k - (10 - k)) ∷ (30 - k - (20 - k)) ∷ []

  filled : ℕ → System
  unfolding logged pins quotas
  filled k = record { log = logged k; store = pins k; quotas = quotas k }

  names_lem : (k j : ℕ) → j < k → names k j ≡ 1000 + j
  unfolding names
  names_lem zero j lt = absurd (omega arith)
  names_lem (suc k) j lt = elim (dec_lt j k) [
    | yes p ↦ let rest = names_lem k j p in ground arith
    | no p ↦ let last : j ≡ k = omega arith in ground arith
  ]

  log_write-next :
      (k : ℕ)
      → k + 1 < log_size
      → log_write (logged k) (pins k) (1000 + k) x ≡ ok (logged (suc k), pins (suc k))
  unfolding log_write logged names pins
  log_write-next k room =
      let count : rounds k ≡ k = rounds-eq k (omega arith) in
      let entry : find_block k 0 (names k) (1000 + k) ≡ k =
        find_block-absent k 0 (1000 + k) (names k)
          (λ j lo hi e. let name = names_lem k j (omega arith) in absurd (omega (arith, e, name)))
        ∙ zero-add k in
      let space : leb (l.size - 1) k ≡ false = ground (arith, sized) in
      let few : leb log_size k ≡ false = ground arith in
      rw (count, entry, few, space, ==_refl k)
        (ap (λ n. ok (record (logged k) { n = n; block = names (suc k) }, pins (suc k)))
          (omega arith))

  three_begun : record l { outstanding = l.outstanding + 1 + 1 + 1 } ≡ logged 0
  unfolding logged names
  three_begun = rw (fresh.no_calls, fresh.no_entries) refl

  quotas-next :
      (k : ℕ)
      → k < 30
      → (i q : ℕ) × (get_elem? (quotas k) i ≡ some (suc q)) × (set (quotas k) i q ≡ quotas (suc k))
  unfolding quotas
  quotas-next k lt = elim (dec_lt k 10) [
    | yes first ↦ (0, 9 - k, ap some (omega arith), ground arith)
    | no p ↦ elim (dec_lt k 20) [
      | yes second ↦ (1, 19 - k, ap some (omega arith), ground arith)
      | no q ↦ (2, 29 - k, ap some (omega arith), ground arith)
    ]
  ]

  filled-Reach : (k : ℕ) → k < log_size → Reach (start_system l s) (filled k)
  unfolding filled quotas
  filled-Reach zero lt =
      let one = record l { outstanding = l.outstanding + 1 } in
      let two = record l { outstanding = l.outstanding + 1 + 1 } in
      let three : record l { outstanding = l.outstanding + 1 + 1 + 1 } ≡ logged 0 = three_begun in
      subst
        (λ m. Reach (start_system l s) (record { log = m; store = s; quotas = 10 ∷ 10 ∷ 10 ∷ [] }))
        three
        (next
          (next
            (next here (
              begins (
                begin_op-room l fresh.not_committing fresh.no_entries
                  (omega (arith, fresh.no_calls)))))
            (begins (
              begin_op-room one fresh.not_committing fresh.no_entries
                (omega (arith, fresh.no_calls)))))
          (begins (
            begin_op-room two fresh.not_committing fresh.no_entries
              (omega (arith, fresh.no_calls)))))
  filled-Reach (suc k) lt =
      let (i, q, call, left) = quotas-next k (omega arith) in
      subst
        (λ qs.
          Reach (start_system l s)
            (record { log = logged (suc k); store = pins (suc k); quotas = qs }))
        left
        (next (filled-Reach k (omega arith))
          (logs i q (1000 + k) x call (log_write-next k (omega arith))))

  full-panic : (b : ℕ) (y : Bytes) → log_write (logged 29) (pins 29) b y ≡ panic
  unfolding log_write logged
  full-panic b y = ground (arith, sized)

-- From any fresh log of LOGSIZE blocks, three calls that have begun can come to where one of them,
-- which has logged 9 of its `MAXOPBLOCKS` blocks, panics when it logs another.
pub fresh-panics :
    (l : Log) (s : Store) (x : Bytes)
    → IsFresh l
    → l.size ≡ log_size
    → (t : System) × Reach (start_system l s) t
      × (get_elem? t.quotas 2 ≡ some 1)
      × ((b : ℕ) (y : Bytes) → log_write t.log t.store b y ≡ panic)
unfolding filled quotas
fresh-panics l s x fresh sized = (
  filled l s x fresh sized 29,
  filled-Reach l s x fresh sized 29 (omega arith),
  refl,
  full-panic l s x fresh sized,
)
