-- ===== src/Proc/Wake.antt =====
-- wakeup1, for each slot of the table.
use os_hw.Prelude.{
  ℕ, zero, suc, ◌+◌, ◌≡◌, refl, ◌∙◌, ap, inl, inr, true, false, ◌&&◌, ==→eq, arith, ◌==◌, ltb, leb,
  if◌then◌else◌, Bool-cases,
}
use os_hw.Proc.{Proc, Chan, wake, wake_from, wakeup1, nproc}

wake_from_lem :
    (k i : ℕ) (c : Chan) (ps : ℕ → Proc) (j : ℕ)
    → wake_from k i c ps j ≡ (if leb i j && ltb j (i + k) then wake c (ps j) else ps j)
unfolding wake_from
wake_from_lem zero i c ps j = ground arith
wake_from_lem (suc k) i c ps j = wake_from_lem k (i + 1) c _ j ∙ elim (Bool-cases (i == j)) [
  | inl e ↦
      let low : (leb (i + 1) j && ltb j (i + 1 + k)) ≡ false = ground arith in
      let in_range : (leb i j && ltb j (i + suc k)) ≡ true = ground arith in
      rw (e, low, in_range) (ap (λ a. wake c (ps a)) (==→eq i j e))
  | inr e ↦
      let same : (leb (i + 1) j && ltb j (i + 1 + k)) ≡ (leb i j && ltb j (i + suc k)) =
        ground arith in
      rw (e, same) refl
]

-- `wakeup1` makes exactly the processes that sleep on `c` runnable, and changes nothing else.
pub wakeup1_lem :
    (c : Chan) (ps : ℕ → Proc) (j : ℕ)
    → wakeup1 c ps j ≡ (if ltb j nproc then wake c (ps j) else ps j)
unfolding wakeup1
wakeup1_lem c ps j = wake_from_lem nproc 0 c ps j ∙ ground arith
