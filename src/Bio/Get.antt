-- ===== src/Bio/Get.antt =====
-- bget: the buffer that it takes, and the contents of the others.
use os_hw.Prelude.{
  ℕ, ◌<◌, ◌≡◌, ◌∙◌, sym, ap, subst, refl, inl, inr, true, false, Option, none, some, arith, ◌==◌,
  ==→eq, Bool-cases,
}
use os_hw.Prelude.Bytes.{Bytes}
use os_hw.Prelude.Outcome.{ok}
use os_hw.Bio.{Buf, Cache, nbuf, caches, set_buf, find_cached, find_clean, recycle, get_at, bget}
use os_hw.Bio.Lookup.{find_cached-some, find_cached-none, find_clean-some}
use os_hw.Bio.Current.{
  IsCoherent, Current, cached, uncached, Held, busy-IsCoherent, changed-Current,
}

-- From `c` to `c'` the buffer in slot `i` has come to be held for block `b`, and no block has
-- another content.
pub record Gets (c : Cache) (b : ℕ) (c' : Cache) (i : ℕ) : Type 0 where
  pub coherent : IsCoherent c'
  pub held : Held c' i b
  pub same : (a : ℕ) (x : Bytes) → Current c a x → Current c' a x
  pub fresh : (c'.bufs i).valid ≡ false → (c'.bufs i).dirty ≡ false
  pub disk : c'.disk ≡ c.disk

taken-Gets :
    (c : Cache) (b i : ℕ)
    → IsCoherent c
    → i < nbuf
    → caches 1 b (c.bufs i) ≡ true
    → Gets c b (set_buf c i (record (c.bufs i) { busy = true })) i
taken-Gets c b i s lt hit = record {
  coherent =
      busy-IsCoherent c i (record (c.bufs i) { busy = true }) refl refl refl (s.filled i lt) s;
  held = record { slot = lt; busy = ground arith; dev = ground arith; blockno = ground arith };
  same = changed-Current c i (record (c.bufs i) { busy = true }) refl refl refl refl;
  fresh = λ v. ground (arith, s.filled i lt);
  disk = refl;
}

abbrev recycled : ℕ → Buf → Buf
recycled b p = record p { dev = 1; blockno = b; busy = true; valid = false; dirty = false }

-- a buffer that is free and clean, taken for a block that none caches
module _ (c : Cache) (b i : ℕ) (s : IsCoherent c) (lt : i < nbuf) (idle : (c.bufs i).busy ≡ false)
    (clean : (c.bufs i).dirty ≡ false)
    (missing : (j : ℕ) → j < nbuf → caches 1 b (c.bufs j) ≡ false) where
  abbrev after : Cache
  after = set_buf c i (recycled b (c.bufs i))

  recycled_unique :
      (j k : ℕ)
      → j < nbuf
      → k < nbuf
      → (after.bufs j).dev ≡ 1
      → (after.bufs k).dev ≡ 1
      → (after.bufs j).blockno ≡ (after.bufs k).blockno
      → j ≡ k
  recycled_unique j k lj lk dj dk e = elim (Bool-cases (i == j)) [
    | inl p ↦ elim (Bool-cases (i == k)) [
      | inl q ↦ ground arith
      | inr q ↦ absurd (ground (arith, missing k lk))
    ]
    | inr p ↦ elim (Bool-cases (i == k)) [
      | inl q ↦ absurd (ground (arith, missing j lj))
      | inr q ↦ s.unique j k lj lk (rw p at dj) (rw q at dk) (rw (p, q) at e)
    ]
  ]

  recycled-Current : (a : ℕ) (x : Bytes) → Current c a x → Current after a x
  recycled-Current a x (cached k l d e v r) = elim (Bool-cases (i == k)) [
    | inr q ↦ cached k l (rw q d) (rw q e) (rw q v) (rw q r)
    | inl q ↦
        let same : i ≡ k = ==→eq i k q in
        uncached
          (λ j lj dj ej. elim (Bool-cases (i == j)) [
            | inl p ↦ rw p refl
            | inr p ↦
                let meet : j ≡ k = s.unique j k lj l (rw p at dj) d ((rw p at ej) ∙ sym e) in
                absurd (ground arith)
          ])
          (r
            ∙ subst (λ n. (c.bufs n).bytes ≡ c.disk a) same
                (s.settled i lt (subst (λ n. (c.bufs n).dev ≡ 1) (sym same) d) idle clean
                    (subst (λ n. (c.bufs n).valid ≡ true) (sym same) v)
                  ∙ subst (λ n. c.disk (c.bufs n).blockno ≡ c.disk a) (sym same) (ap c.disk e)))
  ]
  recycled-Current a x (uncached h r) =
      uncached
        (λ j lj dj ej. elim (Bool-cases (i == j)) [
          | inl p ↦ rw p refl
          | inr p ↦ rw p (h j lj (rw p at dj) (rw p at ej))
        ])
        r

  recycled-Gets : Gets c b after i
  recycled-Gets = record {
    coherent = record {
      unique = recycled_unique;
      listed = s.listed;
      settled = λ j l d free q v. elim (Bool-cases (i == j)) [
        | inl e ↦ absurd (ground arith)
        | inr e ↦ rw e (s.settled j l (rw e at d) (rw e at free) (rw e at q) (rw e at v))
      ];
      filled = λ j l d. elim (Bool-cases (i == j)) [
        | inl e ↦ absurd (ground arith)
        | inr e ↦ rw e (s.filled j l (rw e at d))
      ];
    };
    held = record { slot = lt; busy = ground arith; dev = ground arith; blockno = ground arith };
    same = recycled-Current;
    fresh = λ v. ground arith;
    disk = refl;
  }

recycle-Gets :
    (c : Cache) (b : ℕ) (found : Option ℕ) {c' : Cache} {i : ℕ}
    → IsCoherent c
    → ((j : ℕ) → j < nbuf → caches 1 b (c.bufs j) ≡ false)
    → find_clean c.order c.bufs ≡ found
    → recycle 1 b c found ≡ ok (some (c', i))
    → Gets c b c' i
unfolding recycle
recycle-Gets c b none s missing f e = cc
recycle-Gets c b (some j) {c'} {i} s missing f e =
    let (m, idle, clean) = find_clean-some c.order c.bufs f in
    let lt : j < nbuf = ground (arith, s.listed j) in
    let target : after c b j s lt idle clean missing ≡ c' = ground arith in
    let slot : j ≡ i = ground arith in
    subst (λ d. Gets c b d i) target
      (subst (λ k. Gets c b (after c b j s lt idle clean missing) k) slot
        (recycled-Gets c b j s lt idle clean missing))

get_at-Gets :
    (c : Cache) (b : ℕ) (found : Option ℕ) {c' : Cache} {i : ℕ}
    → IsCoherent c
    → find_cached c.order 1 b c.bufs ≡ found
    → get_at 1 b c found ≡ ok (some (c', i))
    → Gets c b c' i
unfolding get_at
get_at-Gets c b none s f e =
    recycle-Gets c b (find_clean c.order c.bufs) s
      (λ j lt. find_cached-none c.order 1 b c.bufs f j (ground (arith, s.listed j))) refl e
get_at-Gets c b (some j) {c'} {i} s f e =
    let (m, hit) = find_cached-some c.order 1 b c.bufs f in
    let lt : j < nbuf = ground (arith, s.listed j) in
    let target : set_buf c j (record (c.bufs j) { busy = true }) ≡ c' = ground arith in
    let slot : j ≡ i = ground arith in
    subst (λ d. Gets c b d i) target
      (subst (λ k. Gets c b (set_buf c j (record (c.bufs j) { busy = true })) k) slot
        (taken-Gets c b j s lt hit))

pub bget-Gets :
    (c : Cache) (b : ℕ) {c' : Cache} {i : ℕ}
    → IsCoherent c
    → bget 1 b c ≡ ok (some (c', i))
    → Gets c b c' i
unfolding bget
bget-Gets c b s e = get_at-Gets c b (find_cached c.order 1 b c.bufs) s refl e
