-- ===== src/Vm/Words.antt =====
-- The words of pages: which stores change which entries.
use os_hw.Prelude.{ℕ, ◌+◌, ◌*◌, ◌%◌, ◌≤◌, ◌<◌, ◌≡◌, ap, ◌≢◌, ◌⊎◌, inl, inr, dec_lt, arith}
use os_hw.Prelude.Bytes.{Bytes, get_word, put_word}
use os_hw.Str.{memset}
use os_hw.Str.Move.{memset_lem}
use os_hw.Kalloc.{page_size}
use os_hw.Kalloc.Pages.{IsWithin, get_word-same}

-- Entries of two pages, and two entries of one.
pub entries_apart :
    (p q i j : ℕ)
    → p % page_size ≡ 0
    → q % page_size ≡ 0
    → p ≢ q
    → i < 1024
    → j < 1024
    → (p + 4 * i + 4 ≤ q + 4 * j) ⊎ (q + 4 * j + 4 ≤ p + 4 * i)
entries_apart p q i j ap aq ne hi hj = elim (dec_lt p q) [
  | yes lt ↦ inl (omega arith)
  | no ge ↦ inr (omega arith)
]

pub entries_ne : (p i j : ℕ) → i ≢ j → (p + 4 * i + 4 ≤ p + 4 * j) ⊎ (p + 4 * j + 4 ≤ p + 4 * i)
entries_ne p i j ne = elim (dec_lt i j) [ yes lt ↦ inl (omega arith) | no ge ↦ inr (omega arith) ]

-- the memory once a page is set to zero
abbrev pub zeroed : ℕ → Bytes → Bytes
zeroed p m = memset p 0 page_size m

pub zeroed-IsWithin : (p : ℕ) (m : Bytes) → IsWithin p m (zeroed p m)
zeroed-IsWithin p m a out = ground (arith, memset_lem p 0 page_size m a)

pub get_word-zeroed : (p j : ℕ) (m : Bytes) → j < 1024 → get_word (zeroed p m) (p + 4 * j) ≡ 0
unfolding get_word
get_word-zeroed p j m lt = ground (
  arith,
  memset_lem p 0 page_size m (p + 4 * j),
  memset_lem p 0 page_size m (p + 4 * j + 1),
  memset_lem p 0 page_size m (p + 4 * j + 2),
  memset_lem p 0 page_size m (p + 4 * j + 3),
)

pub put_word-IsWithin : (p i v : ℕ) (m : Bytes) → i < 1024 → IsWithin p m (put_word m (p + 4 * i) v)
unfolding put_word
put_word-IsWithin p i v m lt a out = ground arith

-- an entry of another page than the one that changes
pub get_word-within :
    (p q j : ℕ) (m m' : Bytes)
    → p % page_size ≡ 0
    → q % page_size ≡ 0
    → p ≢ q
    → j < 1024
    → IsWithin p m m'
    → get_word m' (q + 4 * j) ≡ get_word m (q + 4 * j)
get_word-within p q j m m' ap aq ne lt within = get_word-same m m' (q + 4 * j) (λ b lo hi.
    within b (elim (dec_lt p q) [ yes below ↦ inr (omega arith) | no above ↦ inl (omega arith) ]))
