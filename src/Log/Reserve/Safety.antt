-- ===== src/Log/Reserve/Safety.antt =====
-- What log_write and end_op find, however concurrent calls interleave.
use os_hw.Prelude.{
  ℕ, ◌+◌, ◌*◌, ◌≤◌, ◌<◌, ◌≡◌, ◌≢◌, refl, subst, sym, ◌∙◌, ◌⊎◌, inl, inr, Bool, true, false,
  Bool-cases, some, ◌∷◌, arith, get_elem?, length-set,
}
use os_hw.Prelude.Bytes.{Bytes}
use os_hw.Prelude.Outcome.{ok, panic, returns_of_ne_panic}
use os_hw.Store.{Store}
use os_hw.Log.{Log, max_op_blocks, log_size, begin_op, leave, log_write, commit}
use os_hw.Log.Reserve.{
  System, start_system, Step, begins, logs, ends, commits, IsFresh, Reach, here, next, IsReserved,
}
use os_hw.Log.Reserve.Quotas.{
  sum-set, sum-remove, length-remove, sum-le, Small-set, Small-remove, length-pos,
}

begin_op-inv :
    (l : Log) {m : Log}
    → begin_op l ≡ some m
    → (l.committing ≡ false)
      × (l.n + (l.outstanding + 1) * max_op_blocks ≤ log_size)
      × (record l { outstanding = l.outstanding + 1 } ≡ m)
unfolding begin_op
begin_op-inv l e = (ground arith, ground arith, ground arith)

leave-inv :
    (l : Log) {m : Log} {last : Bool}
    → leave l ≡ ok (m, last)
    → 0 < l.outstanding
    → l.outstanding ≤ 3
    → (l.committing ≡ false)
      × (m.outstanding + 1 ≡ l.outstanding)
      × (m.n ≡ l.n)
      × (m.size ≡ l.size)
      × (m.committing ≡ true → m.outstanding ≡ 0)
unfolding leave
leave-inv l e pos few = (ground arith, ground arith, ground arith, ground arith, ground arith)

leave-ne-panic : (l : Log) → l.committing ≡ false → leave l ≢ panic
unfolding leave
leave-ne-panic l idle = ground arith

leave-returns : (l : Log) → l.committing ≡ false → (r : Log × Bool) × (leave l ≡ ok r)
leave-returns l idle = returns_of_ne_panic (leave l) (leave-ne-panic l idle)

log_write-fields :
    (l : Log) (s : Store) (b : ℕ) (x : Bytes) {m : Log} {st : Store}
    → log_write l s b x ≡ ok (m, st)
    → (m.n ≤ l.n + 1)
      × (m.outstanding ≡ l.outstanding)
      × (m.size ≡ l.size)
      × (m.committing ≡ l.committing)
unfolding log_write
log_write-fields l s b x e = (ground arith, ground arith, ground arith, ground arith)

commit-inv :
    (l : Log) (s : Store)
    → let m = (commit l s).0 in (m.n ≤ l.n) × (m.outstanding ≡ l.outstanding) × (m.size ≡ l.size)
unfolding commit
commit-inv l s = (ground arith, ground arith, ground arith)

Step-IsReserved : {size : ℕ} {s t : System} → Step s t → IsReserved size s → IsReserved size t
Step-IsReserved {size} {s} (begins {l} e) r =
    let (idle, fits, is) = begin_op-inv s.log e in
    subst (λ l. IsReserved size (record s { log = l; quotas = max_op_blocks ∷ s.quotas })) is
      (record {
        counted = omega (arith, r.counted);
        few = omega (arith, r.counted);
        within = omega (arith, r.counted, sum-le s.quotas r.quota);
        quota = (omega arith, r.quota);
        alone = λ c. cc;
        sized = r.sized;
      })
Step-IsReserved {size} {s} (logs i q b x e w) r =
    let (n, calls, same, committing) = log_write-fields s.log s.store b x w in
    record {
      counted = omega (arith, calls, r.counted, length-set s.quotas i q);
      few = omega (arith, r.few, length-set s.quotas i q);
      within = omega (arith, n, r.within, sum-set s.quotas i q e);
      quota = Small-set s.quotas i q r.quota e;
      alone = λ c. length-set s.quotas i q ∙ r.alone (sym committing ∙ c);
      sized = same ∙ r.sized;
    }
Step-IsReserved {size} {s} (ends i q e w) r =
    let (idle, calls, n, same, last) =
      leave-inv s.log w (omega (arith, r.counted, length-remove s.quotas i q e))
        (omega (arith, r.counted, r.few)) in
    record {
      counted = omega (arith, calls, r.counted, length-remove s.quotas i q e);
      few = omega (arith, r.few, length-remove s.quotas i q e);
      within = omega (arith, n, r.within, sum-remove s.quotas i q e);
      quota = Small-remove s.quotas i r.quota;
      alone = λ c. omega (arith, last c, calls, r.counted, length-remove s.quotas i q e);
      sized = same ∙ r.sized;
    }
Step-IsReserved {size} {s} (commits c) r =
    let (n, calls, same) = commit-inv s.log s.store in
    record {
      counted = omega (arith, calls, r.counted);
      few = r.few;
      within = omega (arith, n, r.within);
      quota = r.quota;
      alone = λ c. cc;
      sized = same ∙ r.sized;
    }

Reach-IsReserved : {size : ℕ} {s t : System} → IsReserved size s → Reach s t → IsReserved size t
Reach-IsReserved h here = h
Reach-IsReserved h (next r st) = Step-IsReserved st (Reach-IsReserved h r)

fresh-IsReserved : (l : Log) (s : Store) → IsFresh l → IsReserved l.size (start_system l s)
fresh-IsReserved l s f = record {
  counted = f.no_calls;
  few = omega arith;
  within = omega (arith, f.no_entries);
  quota = tt;
  alone = λ c. refl;
  sized = refl;
}

-- How a `log_write` ends: it returns, or it panics where the log has LOGSIZE blocks, of which
-- all but the header and one are in use.
abbrev pub Logs : (size : ℕ) → Log → Store → ℕ → Bytes → Type 0
Logs size l s b x =
    ((r : Log × Store) × (log_write l s b x ≡ ok r))
    ⊎ ((size ≡ log_size) × (l.n + 1 ≡ log_size) × (log_write l s b x ≡ panic))

-- From a fresh log, however the calls interleave, one that is in progress can end: `end_op` finds
-- that no commit is running.
pub Reach-leave :
    (l : Log) (s : Store) {t : System} (i q : ℕ)
    → IsFresh l
    → Reach (start_system l s) t
    → get_elem? t.quotas i ≡ some q
    → (r : Log × Bool) × (leave t.log ≡ ok r)
Reach-leave l s {t} i q f r e =
    let g = Reach-IsReserved (fresh-IsReserved l s f) r in
    leave-returns t.log (elim (Bool-cases t.log.committing) [
      | inl c ↦ absurd (omega (arith, g.alone c, length-pos t.quotas i e))
      | inr c ↦ c
    ])
