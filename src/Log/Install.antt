-- ===== src/Log/Install.antt =====
-- install_trans: the disks on its way, and the last one.
use os_hw.Prelude.{
  ℕ, zero, suc, ◌+◌, ◌≤◌, ◌<◌, ◌≡◌, ◌∙◌, ap, subst, inl, inr, All, arith, ◌==◌, ==→eq, Bool-cases,
}
use os_hw.Prelude.Bytes.{Bytes, update}
use os_hw.Store.{Disk, Store, bread, bwrite, bread-unpinned}
use os_hw.Log.{Log, log_size, install_from, install_trans}
use os_hw.Log.Head.{rounds-eq}
use os_hw.Log.Area.{Outside, Placed, LogUnpinned, Logged}

module _ {l : Log} {new : ℕ → Bytes} (placed : Placed l) where
  pub Logged-zero : {t : ℕ} {d : Disk} → Logged l new t d → Logged l new 0 d
  Logged-zero g = record {
    head = g.head;
    copy = g.copy;
    home = λ b out. elim (g.home b out) [
      | inl e ↦ inl e
      | inr (i, le, lt, e) ↦ inr (i, omega arith, lt, e)
    ];
  }

  -- Copying entry `t` home.
  Logged-suc :
      {t : ℕ} {d : Disk} {x : Bytes}
      → t < l.n
      → x ≡ new (l.block t)
      → Logged l new t d
      → Logged l new (t + 1) (update d (l.block t) x)
  Logged-suc {t} {d} {x} lt e g = record {
    head = rw (outside l.start (omega (arith, placed.room))) g.head;
    copy = λ i q. rw (outside (l.start + i + 1) (omega (arith, placed.room))) (g.copy i q);
    home = λ b out. elim (Bool-cases (l.block t == b)) [
      | inl hit ↦ inl (rw hit (e ∙ ap new (==→eq (l.block t) b hit)))
      | inr miss ↦ elim (g.home b out) [
        | inl q ↦ inl (rw miss q)
        | inr (i, le, small, q) ↦ inr (i, ground arith, small, q)
      ]
    ];
  }
    where
      outside : (a : ℕ) → (l.start ≤ a) × (a < l.start + l.size) → update d (l.block t) x a ≡ d a
      outside a inside = ground (arith, placed.apart t lt)

  -- A run of the loop from entry `t` on keeps the full log throughout, so each disk on the way
  -- has whatever a full log implies.
  install_from-Logged :
      (Q : Disk → Type 0)
      → ((d : Disk) → Logged l new 0 d → Q d)
      → (k t : ℕ) (s : Store) → t + k ≡ l.n
      → LogUnpinned l s
      → Logged l new t s.disk
      → All Q s.past
      → let s' = install_from k t l s in Logged l new l.n s'.disk × All Q s'.past × LogUnpinned l s'
  unfolding install_from
  install_from-Logged Q into zero t s e clean g past =
      let end : t ≡ l.n = omega arith in (subst (λ k. Logged l new k s.disk) end g, past, clean)
  install_from-Logged Q into (suc k) t s e clean g past =
      let logged : bread s (l.start + t + 1) ≡ new (l.block t) =
        bread-unpinned s _ (clean (l.start + t + 1) (omega arith) (omega (arith, placed.room)))
        ∙ g.copy t (omega arith) in
      install_from-Logged Q into k (t + 1) (bwrite s (l.block t) (bread s (l.start + t + 1)))
        (omega arith) (λ b lo hi. ground (arith, clean b lo hi)) (Logged-suc (omega arith) logged g)
        (into s.disk (Logged-zero g), past)

  -- Once all entries are home, the blocks outside the log are the new ones.
  pub Logged-home : {d : Disk} → Logged l new l.n d → (b : ℕ) → Outside l b → d b ≡ new b
  Logged-home g b out = elim (g.home b out) [
    | inl e ↦ e
    | inr (i, le, lt, e) ↦ absurd (omega arith)
  ]

  pub install_trans-Logged :
      (Q : Disk → Type 0)
      → ((d : Disk) → Logged l new 0 d → Q d)
      → (s : Store) → l.n ≤ log_size
      → LogUnpinned l s
      → Logged l new 0 s.disk
      → All Q s.past
      → let s' = install_trans l s in Logged l new l.n s'.disk × All Q s'.past × LogUnpinned l s'
  unfolding install_trans
  install_trans-Logged Q into s few clean g past =
      rw (rounds-eq l.n few) (install_from-Logged Q into l.n 0 s (omega arith) clean g past)
