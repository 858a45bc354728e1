-- ===== src/Log/Write.antt =====
-- log_write: the transaction as it grows.
use os_hw.Prelude.{
  ℕ, zero, suc, ◌+◌, ◌-◌, ◌^◌, ◌≤◌, ◌<◌, ◌≡◌, ◌≢◌, refl, inl, inr, subst, arith, ◌==◌, ==→eq,
  if◌then◌else◌, Bool-cases, dec_lt,
}
use os_hw.Prelude.Bytes.{Bytes, update}
use os_hw.Prelude.Outcome.{ok}
use os_hw.Store.{Store, bread, pin}
use os_hw.Log.{Log, log_size, rounds, find_block, log_write}
use os_hw.Log.Head.{rounds-eq}
use os_hw.Log.Area.{Outside}
use os_hw.Log.Commit.{IsReady}

-- `r` is the first entry below `n` that names block `b`, or `n`.
record IsFirst (f : ℕ → ℕ) (b i n r : ℕ) : Type 0 where
  low : i ≤ r
  high : r ≤ n
  hit : r < n → f r ≡ b
  miss : (j : ℕ) → i ≤ j → j < n → f j ≡ b → r < n

find_block-IsFirst :
    (k i n : ℕ) (f : ℕ → ℕ) (b : ℕ) → i + k ≡ n → IsFirst f b i n (find_block k i f b)
unfolding find_block
find_block-IsFirst zero i n f b e = record {
  low = omega arith;
  high = omega arith;
  hit = λ lt. absurd (omega arith);
  miss = λ j lo hi q. absurd (omega arith);
}
find_block-IsFirst (suc k) i n f b e = elim (Bool-cases (f i == b)) [
  | inl here ↦ rw here (record {
    low = omega arith;
    high = omega arith;
    hit = λ lt. ==→eq (f i) b here;
    miss = λ j lo hi q. omega arith;
  })
  | inr there ↦
      let rest = find_block-IsFirst k (i + 1) n f b (omega arith) in
      rw there (record {
        low = omega (arith, rest.low);
        high = rest.high;
        hit = rest.hit;
        miss = λ j lo hi q. elim (dec_lt i j) [
          | yes p ↦ rest.miss j (omega arith) hi q
          | no p ↦ absurd (ground arith)
        ];
      })
]

-- the log once entry `r` names block `b`
abbrev pub entered : Log → ℕ → ℕ → Log
entered l b r = record l { n = if r == l.n then l.n + 1 else l.n; block = update l.block r b }

entered-IsReady :
    (l : Log) (s : Store) (b : ℕ) (x : Bytes) (r : ℕ)
    → IsReady l s
    → IsFirst l.block b 0 l.n r
    → l.n < log_size
    → l.n < l.size - 1
    → Outside l b
    → b < 2 ^ 32
    → IsReady (entered l b r) (pin s b x)
entered-IsReady l s b x r ready first few room out small = record {
  fits = record { few = ground arith; word = λ i lt. ground (arith, ready.fits.word i) };
  placed = record { room = ground arith; apart = λ i lt. ground (arith, ready.placed.apart i) };
  clean = λ c lo hi. ground (arith, ready.clean c lo hi);
  listed = λ c y q. elim (Bool-cases (b == c)) [
    | inl same ↦ (r, ground arith, ground arith)
    | inr other ↦
        let (i, lt, is) = ready.listed c y (rw other at q) in (i, ground arith, ground arith)
  ];
  none_listed = ready.none_listed;
}

-- What a successful `log_write` of block `b` with content `x` does to the log and the cache.
pub record Wrote (l : Log) (s : Store) (b : ℕ) (x : Bytes) (l' : Log) (s' : Store) : Type 0 where
  pub ready : IsReady l' s'
  pub current : bread s' b ≡ x
  pub other : (c : ℕ) → b ≢ c → bread s' c ≡ bread s c
  pub unwritten : (c : ℕ) → s'.disk c ≡ s.disk c
  pub growth : (l.n ≤ l'.n) × (l'.n ≤ l.n + 1)
  pub absorbed : (i : ℕ) → i < l.n → l.block i ≡ b → l'.n ≡ l.n

entered-Wrote :
    (l : Log) (s : Store) (b : ℕ) (x : Bytes) (r : ℕ)
    → IsFirst l.block b 0 l.n r
    → IsReady (entered l b r) (pin s b x)
    → Wrote l s b x (entered l b r) (pin s b x)
entered-Wrote l s b x r first ready' = record {
  ready = ready';
  current = ground arith;
  other = λ c ne. ground arith;
  unwritten = λ c. refl;
  growth = (ground arith, ground arith);
  absorbed = λ i lt e. ground (arith, first.miss i (omega arith) lt e);
}

pub log_write-inv :
    (l : Log) (s : Store) (b : ℕ) (x : Bytes) {r : Log × Store}
    → log_write l s b x ≡ ok r
    → (l.n < log_size)
      × (l.n < l.size - 1)
      × ((entered l b (find_block (rounds l.n) 0 l.block b), pin s b x) ≡ r)
unfolding log_write
log_write-inv l s b x e = (ground arith, ground arith, ground arith)

-- A `log_write` of a block outside the log that returns keeps the transaction ready to commit,
-- gives block `b` its new content in the cache and no other block a new one, writes nothing to the
-- disk, and takes at most one more entry of the log, and none if the block has one.
pub log_write-Wrote :
    (l : Log) (s : Store) (b : ℕ) (x : Bytes) {l' : Log} {s' : Store}
    → IsReady l s
    → Outside l b
    → b < 2 ^ 32
    → log_write l s b x ≡ ok (l', s')
    → Wrote l s b x l' s'
log_write-Wrote l s b x {l'} {s'} ready out small e =
    let (few, room, same) = log_write-inv l s b x e in
    let first : IsFirst l.block b 0 l.n (find_block (rounds l.n) 0 l.block b) =
      find_block-IsFirst (rounds l.n) 0 l.n l.block b
        (omega (arith, rounds-eq l.n ready.fits.few)) in
    let ready' = entered-IsReady l s b x _ ready first few room out small in
    subst (λ (p : Log × Store). Wrote l s b x p.0 p.1) same (entered-Wrote l s b x _ first ready')

-- `log_write` returns if the log has room for one more block and an operation is going on.
pub log_write-returns :
    (l : Log) (s : Store) (b : ℕ) (x : Bytes)
    → l.n < log_size
    → l.n < l.size - 1
    → 0 < l.outstanding
    → l.outstanding < 2 ^ 31
    → (r : Log × Store) × (log_write l s b x ≡ ok r)
unfolding log_write
log_write-returns l s b x few room busy small =
    ((entered l b (find_block (rounds l.n) 0 l.block b), pin s b x), ground arith)
