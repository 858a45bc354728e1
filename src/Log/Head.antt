-- ===== src/Log/Head.antt =====
-- The header block, as `write_head` stores and `read_head` reads it.
use os_hw.Prelude.{ℕ, zero, suc, ◌+◌, ◌*◌, ◌^◌, ◌≤◌, ◌<◌, ◌≡◌, refl, ◌∙◌, inr, arith, ==_refl}
use native.Mathlib.Decide.{dec_lt}
use os_hw.Prelude.Bytes.{Bytes, update, get_word, get_word-put_word_self, get_word-put_word_ne}
use os_hw.Store.{Store, bread}
use os_hw.Log.{Log, log_size, rounds, read_blocks, read_head, put_blocks, write_head}

-- The header block `h` lists the entries of `l`.
pub record Lists (l : Log) (h : Bytes) : Type 0 where
  pub count : get_word h 0 ≡ l.n
  pub entry : (i : ℕ) → i < l.n → get_word h (4 + 4 * i) ≡ l.block i

-- A log whose header fits, with block numbers that are words.
pub record Fits (l : Log) : Type 0 where
  pub few : l.n ≤ log_size
  pub word : (i : ℕ) → i < l.n → l.block i < 2 ^ 32

pub rounds-eq : (n : ℕ) → n ≤ log_size → rounds n ≡ n
rounds-eq n h = ground arith

-- the words up to where the loop starts are left alone
put_blocks-below :
    (k i a : ℕ) (f : ℕ → ℕ) (h : Bytes) → a ≤ 4 * i → get_word (put_blocks k i f h) a ≡ get_word h a
unfolding put_blocks
put_blocks-below zero i a f h le = refl
put_blocks-below (suc k) i a f h le =
    put_blocks-below k (i + 1) a f _ (omega arith)
    ∙ get_word-put_word_ne h (4 + 4 * i) a (f i) (inr (omega arith))

put_blocks-entry :
    (k i t : ℕ) (f : ℕ → ℕ) (h : Bytes)
    → i ≤ t
    → t < i + k
    → f t < 2 ^ 32
    → get_word (put_blocks k i f h) (4 + 4 * t) ≡ f t
unfolding put_blocks
put_blocks-entry zero i t f h le lt w = absurd (omega arith)
put_blocks-entry (suc k) i t f h le lt w = elim (dec_lt i t) [
  | yes p ↦ put_blocks-entry k (i + 1) t f _ (omega arith) (omega arith) w
  | no p ↦
      let e : t ≡ i = omega arith in
      put_blocks-below k (i + 1) (4 + 4 * t) f _ (omega arith)
      ∙ rw e (get_word-put_word_self h (4 + 4 * i) (f i) (rw e at w))
]

read_blocks-entry :
    (k i t : ℕ) (h : Bytes) (f : ℕ → ℕ)
    → (i ≤ t → t < i + k → read_blocks k i h f t ≡ get_word h (4 + 4 * t))
      × (t < i → read_blocks k i h f t ≡ f t)
unfolding read_blocks
read_blocks-entry zero i t h f = ((λ le lt. absurd (omega arith)), λ lt. refl)
read_blocks-entry (suc k) i t h f =
    let rest = read_blocks-entry k (i + 1) t h (update f i (get_word h (4 + 4 * i))) in
    (
      (λ le lt. elim (dec_lt i t) [
        | yes p ↦ rest.0 (omega arith) (omega arith)
        | no p ↦ ground (arith, rest.1 (omega arith))
      ]),
      λ lt. ground (arith, rest.1 (omega arith)),
    )

-- What `write_head` puts into the header block lists the log's entries.
pub write_head-Lists : (l : Log) (s : Store) → Fits l → Lists l ((write_head l s).disk l.start)
unfolding write_head
write_head-Lists l s fits = record {
  count =
      rw (==_refl l.start, rounds-eq l.n fits.few)
        (put_blocks-below l.n 0 0 l.block _ (omega arith)
          ∙ get_word-put_word_self _ 0 l.n (omega (arith, fits.few)));
  entry = λ i lt.
      rw (==_refl l.start, rounds-eq l.n fits.few)
        (put_blocks-entry l.n 0 i l.block _ (omega arith) (omega arith) (fits.word i lt));
}

-- `read_head` of a header that lists `l` finds the count and the entries of `l`.
pub read_head-Lists :
    (l m : Log) (s : Store)
    → l.n ≤ log_size
    → Lists l (bread s m.start)
    → ((read_head m s).n ≡ l.n) × ((i : ℕ) → i < l.n → (read_head m s).block i ≡ l.block i)
unfolding read_head
read_head-Lists l m s few is = (
  is.count,
  λ i lt.
      rw (is.count, rounds-eq l.n few)
        ((read_blocks-entry l.n 0 i (bread s m.start) m.block).0 (omega arith) (omega arith)
          ∙ is.entry i lt),
)
