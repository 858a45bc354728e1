-- ===== src/Log/Durable.antt =====
-- The state that commit leaves.
use os_hw.Prelude.{
  ℕ, zero, suc, ◌+◌, ◌≤◌, ◌<◌, ◌≡◌, refl, sym, ◌∙◌, ◌⊎◌, inl, inr, none, List, [], ◌∷◌, All, arith,
  ◌==◌, Bool-cases, Option-cases, dec_lt,
}
use os_hw.Prelude.Bytes.{get_word}
use os_hw.Store.{Disk, Store, bread, bwrite, bread-unpinned}
use os_hw.Log.{Log, install_from, install_trans, write_head, commit}
use os_hw.Log.Head.{rounds-eq}
use os_hw.Log.Area.{Outside}
use os_hw.Log.Commit.{
  IsReady, committed, committed_lem, copied, installed, erased, commit_steps, commit_idle,
}

-- Every dirty block is an entry of the log from `t` on.
abbrev Pins : Log → ℕ → Store → Type 0
Pins l t s = (b : ℕ) → (s.pinned b ≡ none) ⊎ ((i : ℕ) × (t ≤ i) × (i < l.n) × (l.block i ≡ b))

Pins-suc :
    (l : Log) (t : ℕ) (s : Store)
    → Pins l t s
    → Pins l (t + 1) (bwrite s (l.block t) (bread s (l.start + t + 1)))
Pins-suc l t s p b = elim (Bool-cases (l.block t == b)) [
  | inl hit ↦ inl (rw hit)
  | inr miss ↦ elim (p b) [
    | inl e ↦ inl (rw miss e)
    | inr (i, le, lt, e) ↦ inr (i, ground arith, lt, e)
  ]
]

install_from-unpinned :
    (l : Log) (k t : ℕ) (s : Store)
    → t + k ≡ l.n
    → Pins l t s
    → (b : ℕ) → (install_from k t l s).pinned b ≡ none
unfolding install_from
install_from-unpinned l zero t s e p b = elim (p b) [
  | inl q ↦ q
  | inr (i, le, lt, q) ↦ absurd (omega arith)
]
install_from-unpinned l (suc k) t s e p b =
    install_from-unpinned l k (t + 1) _ (omega arith) (Pins-suc l t s p) b

pinned-write_head :
    (l : Log) (s : Store) (b : ℕ) → s.pinned b ≡ none → (write_head l s).pinned b ≡ none
unfolding write_head
pinned-write_head l s b e = ground arith

log_range : (l : Log) (b : ℕ) → Outside l b ⊎ ((l.start ≤ b) × (b < l.start + l.size))
log_range l b = ground arith

always : (p : List Disk) → All (λ d. Unit {0}) p
always [] = tt
always (d ∷ p) = (tt, always p)

-- What `commit` leaves behind.
pub record IsCommitted (l : Log) (s : Store) (l' : Log) (s' : Store) : Type 0 where
  pub cleared : l'.n ≡ 0
  pub written : (b : ℕ) → Outside l b → s'.disk b ≡ bread s b
  pub unpinned : (b : ℕ) → s'.pinned b ≡ none
  pub ready : IsReady l' s'

module _ {l : Log} {s : Store} (ready : IsReady l s) where
  -- the states of `Commit` for this run, with nothing asked of the disks on the way
  abbrev headed : Store
  headed = committed ready (λ d q. tt) s.past (always s.past)

  abbrev homed : Store
  homed = installed ready (λ d q. tt) s.past (always s.past)

  headed-Pins : Pins l 0 headed
  unfolding committed
  headed-Pins b = elim (log_range l b) [
    | inr (lo, hi) ↦ inl ((committed_lem ready (λ d q. tt) s.past (always s.past)).2 b lo hi)
    | inl out ↦
        let same = (copied ready (λ d q. tt) s.past (always s.past)).pins b out in
        elim (Option-cases (s.pinned b)) [
          | inl e ↦ inl (pinned-write_head l _ b (same ∙ e))
          | inr (x, e) ↦ let (i, lt, is) = ready.listed b x e in inr (i, omega arith, lt, is)
        ]
  ]

  homed-unpinned : (b : ℕ) → homed.pinned b ≡ none
  unfolding installed install_trans
  homed-unpinned =
      rw (rounds-eq l.n ready.fits.few)
        (install_from-unpinned l l.n 0 headed (omega arith) headed-Pins)

  -- An empty log over an unpinned cache is ready for the next transaction.
  cleared-IsReady :
      (s' : Store)
      → get_word (s'.disk l.start) 0 ≡ 0
      → ((b : ℕ) → s'.pinned b ≡ none)
      → IsReady (record l { n = 0 }) s'
  cleared-IsReady s' e none_pinned = record {
    fits = record { few = omega arith; word = λ i lt. absurd (omega arith) };
    placed = record {
      room = omega (arith, ready.placed.room);
      apart = λ i lt. absurd (omega arith);
    };
    clean = λ b lo hi. none_pinned b;
    listed = λ b x q. cc (none_pinned b);
    none_listed = e;
  }

  done_lem : 0 < l.n → IsCommitted l s (record l { n = 0 }) (write_head (record l { n = 0 }) homed)
  done_lem pos =
      let e = erased ready (λ d q. tt) s.past (always s.past) in
      let p = λ (b : ℕ). pinned-write_head (record l { n = 0 }) homed b (homed-unpinned b) in
      record {
        cleared = refl;
        written = e.home;
        unpinned = p;
        ready = cleared-IsReady _ e.none_listed p;
      }

  idle_lem : l.n ≡ 0 → IsCommitted l s l s
  idle_lem e =
      let p = λ (b : ℕ). idle_pinned b in
      record {
        cleared = e;
        written = λ b out. sym (bread-unpinned s b (p b));
        unpinned = p;
        ready = ready;
      }
    where
      idle_pinned : (b : ℕ) → s.pinned b ≡ none
      idle_pinned b = elim (Option-cases (s.pinned b)) [
        | inl q ↦ q
        | inr (x, q) ↦ let (i, lt, is) = ready.listed b x q in absurd (omega arith)
      ]

-- From a log and a store that are ready, `commit` writes every block of the transaction to its
-- home, unpins them, and leaves the log empty and ready for the next transaction.
pub commit-IsCommitted :
    (l : Log) (s : Store) → IsReady l s → let (l', s') = commit l s in IsCommitted l s l' s'
commit-IsCommitted l s ready = elim (dec_lt 0 l.n) [
  | yes pos ↦ rw (commit_steps ready (λ d q. tt) s.past (always s.past) pos) (done_lem ready pos)
  | no idle ↦ rw (commit_idle ready s (omega arith)) (idle_lem ready (omega arith))
]
