-- ===== src/Proc/Follows.antt =====
-- What wakeup1 does to a process, as a relation that composes.
use os_hw.Prelude.{
  ℕ, ◌<◌, ◌≡◌, refl, ◌∙◌, ap, ◌⊎◌, inl, Bool, true, false, Option, none, some, arith, ltb,
  if◌then◌else◌, lt→ltb, ==→eq, ◌↔◌, ==_refl,
}
use os_hw.Proc.{Proc, sleeping, runnable, zombie, Chan, of_proc, same_chan, wake, wakeup1, nproc}
use os_hw.Proc.Wake.{wakeup1_lem}

-- The process at slot `i` sleeps in `wait`.
abbrev pub Waits : ℕ → Proc → Type 0
Waits i p = (p.state ≡ sleeping) × (p.chan ≡ some (of_proc i))

-- `q` is `p` but for its parent, and may have been woken from sleep on `c`.
pub record Follows (c : Chan) (p q : Proc) : Type 0 where
  pub pid : q.pid ≡ p.pid
  pub chan : q.chan ≡ p.chan
  pub state :
      (q.state ≡ p.state) ⊎ ((p.state ≡ sleeping) × (p.chan ≡ some c) × (q.state ≡ runnable))

same_chan-eq : (o : Option Chan) (c : Chan) → same_chan o c ≡ true → o ≡ some c
same_chan-eq none c e = cc
same_chan-eq (some (of_proc i)) (of_proc j) e = ap (λ k. some (of_proc k)) (==→eq i j e)
same_chan-eq (some (of_proc i)) (Chan.of_addr b) e = cc
same_chan-eq (some (Chan.of_addr a)) (of_proc j) e = cc
same_chan-eq (some (Chan.of_addr a)) (Chan.of_addr b) e =
    ap (λ k. some (Chan.of_addr k)) (==→eq a b e)

wake-Follows : (c : Chan) (p : Proc) → Follows c p (wake c p)
wake-Follows c p = record {
  pid = ground arith;
  chan = ground arith;
  state = ground (arith, same_chan-eq p.chan c);
}

pub Follows-refl : (c : Chan) (p : Proc) → Follows c p p
Follows-refl c p = record { pid = refl; chan = refl; state = inl refl }

pub Follows-trans : {c : Chan} {p q r : Proc} → Follows c p q → Follows c q r → Follows c p r
Follows-trans f g = record {
  pid = g.pid ∙ f.pid;
  chan = g.chan ∙ f.chan;
  state = ground (arith, f.state, g.state, f.chan);
}

pub Follows-parent : (c : Chan) (p : Proc) (o : Option ℕ) → Follows c p (record p { parent = o })
Follows-parent c p o = record { pid = refl; chan = refl; state = inl refl }

-- Nothing falls asleep, and a zombie stays one.
pub Follows-awake : {c : Chan} {p q : Proc} (i : ℕ) → Follows c p q → ¬ Waits i p → ¬ Waits i q
Follows-awake {q} i f h w = h (ground (arith, f.state, f.chan))

pub Follows-zombie :
    {c : Chan} {p q : Proc} → Follows c p q → (p.state ≡ zombie) ↔ (q.state ≡ zombie)
Follows-zombie f = ((λ e. ground (arith, f.state)), λ e. ground (arith, f.state))

Follows-if : (b : Bool) (c : Chan) (p : Proc) → Follows c p (if b then wake c p else p)
Follows-if true c p = wake-Follows c p
Follows-if false c p = Follows-refl c p

pub wakeup1-Follows : (c : Chan) (ps : ℕ → Proc) (j : ℕ) → Follows c (ps j) (wakeup1 c ps j)
wakeup1-Follows c ps j = rw (wakeup1_lem c ps j) (Follows-if (ltb j nproc) c (ps j))

wake-awake : (i : ℕ) (p : Proc) → ¬ Waits i (wake (of_proc i) p)
wake-awake i p h = ground (arith, ==_refl i)

-- After `wakeup1` on a slot's address the process there does not sleep in `wait`.
pub wakeup1-awake : (i : ℕ) (ps : ℕ → Proc) → i < nproc → ¬ Waits i (wakeup1 (of_proc i) ps i)
wakeup1-awake i ps lt = rw (wakeup1_lem (of_proc i) ps i, lt→ltb i nproc lt) (wake-awake i (ps i))

parent-if : (b : Bool) (c : Chan) (p : Proc) → (if b then wake c p else p).parent ≡ p.parent
parent-if true c p = ground arith
parent-if false c p = refl

pub parent-wakeup1 : (c : Chan) (ps : ℕ → Proc) (j : ℕ) → (wakeup1 c ps j).parent ≡ (ps j).parent
parent-wakeup1 c ps j = rw (wakeup1_lem c ps j) (parent-if (ltb j nproc) c (ps j))
