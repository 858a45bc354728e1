-- ===== src/Spin/Nesting.antt =====
-- pushcli and popcli: like cli and sti, but matched.
use os_hw.Prelude.{
  ℕ, zero, suc, ◌+◌, ◌-◌, ◌<◌, ◌≡◌, refl, sym, ◌∙◌, ap, false, ◌==◌, if◌then◌else◌, Bool-cases, inl,
  inr, arith,
}
use os_hw.Prelude.Outcome.{Outcome, ok, ◌>>=◌}
use os_hw.Spin.{Cpu, pushcli, popcli}

-- Interrupts are off while the CPU counts a pushcli.
abbrev pub IsOff : Cpu → Type 0
IsOff c = 0 < c.ncli → c.interrupts ≡ false

pub pushes : ℕ → Cpu → Cpu
pushes zero c = c
pushes (suc n) c = pushcli (pushes n c)

pub pops : ℕ → Cpu → Outcome Cpu
pops zero c = ok c
pops (suc n) c = popcli c >>= pops n

pushed :
    (n : ℕ) (c : Cpu)
    → (0 < n)
    → ((pushes n c).interrupts ≡ false) × ((pushes n c).ncli ≡ c.ncli + n)
unfolding pushes pushcli
pushed zero c pos = absurd (omega arith)
pushed (suc zero) c pos = (refl, refl)
pushed (suc (suc n)) c pos =
    (refl, let h = pushed (suc n) c (omega arith) in let count = h.1 in omega arith)

popcli-pushcli :
    (c : Cpu)
    → IsOff c
    → popcli (pushcli c) ≡ ok (record c { intena = if c.ncli == 0 then c.interrupts else c.intena })
unfolding popcli pushcli
popcli-pushcli c off =
    let some_left : (c.ncli + 1 == 0) ≡ false = ground arith in
    let back : c.ncli + 1 - 1 ≡ c.ncli = omega arith in
    elim (Bool-cases (c.ncli == 0)) [
      | inl first ↦ rw (some_left, back, first) refl
      | inr nested ↦
          rw (some_left, back, nested)
            (ap (λ b. ok (record c { interrupts = b })) (sym (off (ground (arith, nested)))))
    ]

pop-nested : (n : ℕ) (c : Cpu) → popcli (pushcli (pushes (suc n) c)) ≡ ok (pushes (suc n) c)
pop-nested n c =
    let h = pushed (suc n) c (omega arith) in
    let count = h.1 in
    let nested : ((pushes (suc n) c).ncli == 0) ≡ false = ground arith in
    popcli-pushcli (pushes (suc n) c) (λ _. h.0)
    ∙ ap
        (λ b. ok (record (pushes (suc n) c) {
          intena = if b then (pushes (suc n) c).interrupts else (pushes (suc n) c).intena;
        }))
        nested

-- As many popcli as pushcli, nested, leave interrupts and the count as they were; in between
-- interrupts are off. At the start they are off if the CPU counts a pushcli.
pub pops-pushes :
    (n : ℕ) (c : Cpu)
    → IsOff c
    → (c' : Cpu) × (pops n (pushes n c) ≡ ok c')
      × (c'.interrupts ≡ c.interrupts)
      × (c'.ncli ≡ c.ncli)
      × (0 < n → (pushes n c).interrupts ≡ false)
unfolding pushes pops
pops-pushes zero c off = (c, refl, refl, refl, λ pos. absurd (omega arith))
pops-pushes (suc zero) c off = (
  record c { intena = if c.ncli == 0 then c.interrupts else c.intena },
  rw (popcli-pushcli c off) refl,
  refl,
  refl,
  λ pos. (pushed 1 c pos).0,
)
pops-pushes (suc (suc n)) c off =
    let (c', run, flag, count, between) = pops-pushes (suc n) c off in
    (c', rw (pop-nested n c) run, flag, count, λ pos. (pushed (suc (suc n)) c pos).0)
