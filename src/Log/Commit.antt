-- ===== src/Log/Commit.antt =====
-- commit: the disks that a crash may leave on its way, and the recovery from each.
use os_hw.Prelude.{
  ℕ, zero, suc, ◌+◌, ◌<◌, ◌≡◌, refl, sym, subst, ◌∙◌, ◌⊎◌, inl, inr, some, List, ◌∷◌, [], All,
  arith, Option-cases, lt→ltb, ne→==, ==_refl, dec_lt,
}
use os_hw.Prelude.Bytes.{Bytes, get_word}
use os_hw.Store.{Disk, Store, bread, bwrite, bread-eq, bread-unpinned}
use os_hw.Log.{Log, write_from, write_log, write_head, install_trans, commit}
use os_hw.Log.Head.{Fits, write_head-Lists, rounds-eq}
use os_hw.Log.Area.{Outside, Placed, LogUnpinned, Empty, Logged, recovered}
use os_hw.Log.Install.{Logged-home, Logged-zero, install_trans-Logged}
use os_hw.Log.Recover.{ne-start, write_head-other, recovered-Empty, recovered-Logged}

-- The state in which the last operation of a transaction calls `commit`: the entries of the log
-- are the dirty blocks, and the log on the disk is empty.
pub record IsReady (l : Log) (s : Store) : Type 0 where
  pub fits : Fits l
  pub placed : Placed l
  pub clean : LogUnpinned l s
  pub listed : (b : ℕ) (x : Bytes) → s.pinned b ≡ some x → (i : ℕ) × (i < l.n) × (l.block i ≡ b)
  pub none_listed : get_word (s.disk l.start) 0 ≡ 0

-- every disk that a crash during `commit` can leave, the last one first
pub crash_points : Log → Store → List Disk
crash_points l s = let s' = (commit l (record s { past = [] })).1 in s'.disk ∷ s'.past

-- Recovery from `d` yields the disk before the transaction, or all that it wrote.
abbrev pub AllOrNothing : Log → Store → Disk → Type 0
AllOrNothing l s d =
    ((b : ℕ) → Outside l b → recovered l d b ≡ s.disk b)
    ⊎ ((b : ℕ) → Outside l b → recovered l d b ≡ bread s b)

past-write_head : (l : Log) (s : Store) → (write_head l s).past ≡ s.disk ∷ s.past
unfolding write_head
past-write_head l s = refl

module _ {l : Log} {s₀ : Store} (ready : IsReady l s₀) where
  nothing : {d : Disk} → Empty l s₀.disk d → AllOrNothing l s₀ d
  nothing e = inl (recovered-Empty (omega (arith, ready.placed.room)) e)

  pub commit_idle : (s : Store) → l.n ≡ 0 → commit l s ≡ (l, s)
  unfolding commit
  commit_idle s e = ground arith

-- A run of `commit` from any history `p` of disks: each disk on the way has whatever
-- `AllOrNothing` implies.
module _ {l : Log} {s₀ : Store} (ready : IsReady l s₀) {Q : Disk → Type 0}
    (into : (d : Disk) → AllOrNothing l s₀ d → Q d) (p : List Disk) (safe : All Q p) where
  -- `write_log` with `t` blocks copied
  pub record Copying (t : ℕ) (s : Store) : Type 0 where
    pub clean : LogUnpinned l s
    pub pins : (b : ℕ) → Outside l b → s.pinned b ≡ s₀.pinned b
    pub empty : Empty l s₀.disk s.disk
    pub copy : (i : ℕ) → i < t → s.disk (l.start + i + 1) ≡ bread s₀ (l.block i)
    pub past : All Q s.past

  -- Outside the log every buffer still has its content.
  same : {t : ℕ} {s : Store} → Copying t s → (b : ℕ) → Outside l b → bread s b ≡ bread s₀ b
  same {s} c b out = bread-eq s s₀ b (c.pins b out) (c.empty.home b out)

  Copying-suc :
      {t : ℕ} {s : Store}
      → t < l.n
      → Copying t s
      → Copying (t + 1) (bwrite s (l.start + t + 1) (bread s (l.block t)))
  Copying-suc {t} {s} lt c = record {
    clean = λ b lo hi. ground (arith, c.clean b lo hi);
    pins = λ b out. ground (arith, c.pins b out, ready.placed.room);
    empty = record {
      none_listed = rw (ne→== (l.start + t + 1) l.start (omega arith)) c.empty.none_listed;
      home = λ b out.
          rw (ne→== (l.start + t + 1) b (ground (arith, ready.placed.room))) (c.empty.home b out);
    };
    copy = λ i q. elim (dec_lt i t) [
      | yes p ↦ rw (ne→== (l.start + t + 1) (l.start + i + 1) (omega arith)) (c.copy i p)
      | no p ↦
          let e : i ≡ t = omega arith in
          rw (e, ==_refl (l.start + t + 1)) (same c (l.block t) (ready.placed.apart t lt))
    ];
    past = (into s.disk (nothing ready c.empty), c.past);
  }

  write_from-Copying :
      (k t : ℕ) (s : Store) → t + k ≡ l.n → Copying t s → Copying l.n (write_from k t l s)
  unfolding write_from
  write_from-Copying zero t s e c = subst (λ k. Copying k s) (omega arith) c
  write_from-Copying (suc k) t s e c =
      write_from-Copying k (t + 1) _ (omega arith) (Copying-suc (omega arith) c)

  -- The write of the header is the commit: before it the log is empty, after it full.
  write_head-Logged : {s : Store} → Copying l.n s → Logged l (bread s₀) 0 (write_head l s).disk
  write_head-Logged {s} c = record {
    head = write_head-Lists l s ready.fits;
    copy = λ i lt. write_head-other l s (l.start + i + 1) (omega arith) ∙ c.copy i lt;
    home = λ b out.
        let e = write_head-other l s b (ne-start l b (omega (arith, ready.placed.room)) out) in
        elim (Option-cases (s₀.pinned b)) [
          | inl q ↦ inl (e ∙ c.empty.home b out ∙ sym (bread-unpinned s₀ b q))
          | inr (x, q) ↦ let (i, lt, is) = ready.listed b x q in inr (i, omega arith, lt, is)
        ];
  }

  write_head-LogUnpinned : (s : Store) → LogUnpinned l s → LogUnpinned l (write_head l s)
  unfolding write_head
  write_head-LogUnpinned s clean b lo hi = ground (arith, clean b lo hi)

  -- the states of `commit` after the header is written, and after the blocks are home
  unfoldable pub committed : Store
  committed = write_head l (write_log l (record s₀ { past = p }))

  unfoldable pub installed : Store
  installed = install_trans l committed

  pub copied : Copying l.n (write_log l (record s₀ { past = p }))
  unfolding write_log
  copied = rw (rounds-eq l.n ready.fits.few) (
      write_from-Copying l.n 0 (record s₀ { past = p }) (omega arith)
        (record {
          clean = ready.clean;
          pins = λ b out. refl;
          empty = record { none_listed = ready.none_listed; home = λ b out. refl };
          copy = λ i lt. absurd (omega arith);
          past = safe;
        }))

  pub committed_lem :
      Logged l (bread s₀) 0 committed.disk × All Q committed.past × LogUnpinned l committed
  unfolding committed
  committed_lem = (
    write_head-Logged copied,
    rw past-write_head (into _ (nothing ready copied.empty), copied.past),
    write_head-LogUnpinned _ copied.clean,
  )

  pub installed_lem :
      Logged l (bread s₀) l.n installed.disk × All Q installed.past × LogUnpinned l installed
  unfolding installed
  installed_lem =
      let (g, past, clean) = committed_lem in
      install_trans-Logged ready.placed Q
        (λ d q. into d (inr (recovered-Logged ready.fits.few ready.placed q))) committed
        ready.fits.few clean g past

  pub erased : Empty l (bread s₀) (write_head (record l { n = 0 }) installed).disk
  erased = record {
    none_listed =
        (write_head-Lists (record l { n = 0 }) installed
          (record { few = omega arith; word = λ i lt. absurd (omega arith) })).count;
    home = λ b out.
        write_head-other (record l { n = 0 }) installed b
          (ne-start l b (omega (arith, ready.placed.room)) out)
        ∙ Logged-home ready.placed installed_lem.0 b out;
  }

  pub commit_steps :
      0 < l.n
      → commit l (record s₀ { past = p })
        ≡ (record l { n = 0 }, write_head (record l { n = 0 }) installed)
  unfolding commit installed committed
  commit_steps pos = rw (rounds-eq l.n ready.fits.few, lt→ltb 0 l.n pos)

  past_safe : 0 < l.n → let s' = (commit l (record s₀ { past = p })).1 in All Q (s'.disk ∷ s'.past)
  past_safe pos =
      rw (commit_steps pos, past-write_head)
        (
          into _ (inr (recovered-Empty (omega (arith, ready.placed.room)) erased)),
          (
            into _ (
                inr (
                  recovered-Logged ready.fits.few ready.placed
                    (Logged-zero ready.placed installed_lem.0))),
            installed_lem.1,
          ),
        )

-- At whatever disk write of `commit` the machine stops, the recovery that follows leaves every
-- block outside the log as it was before the transaction, or every one as the transaction left it.
-- The log has its place on the disk and lists the dirty blocks, none of which is its own.
pub crash_points-AllOrNothing :
    (l : Log) (s : Store) → IsReady l s → All (AllOrNothing l s) (crash_points l s)
unfolding crash_points
crash_points-AllOrNothing l s ready = elim (dec_lt 0 l.n) [
  | yes pos ↦ past_safe ready (λ d q. q) [] tt pos
  | no idle ↦
      rw (commit_idle ready (record s { past = [] }) (omega arith))
        (nothing ready (record { none_listed = ready.none_listed; home = λ b out. refl }), tt)
]
