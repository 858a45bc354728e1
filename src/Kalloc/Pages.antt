-- ===== src/Kalloc/Pages.antt =====
-- The free list of kalloc.c as a list of pages.
use os_hw.Prelude.{
  ℕ, ◌+◌, ◌%◌, ◌^◌, ◌≤◌, ◌<◌, ◌≡◌, refl, ◌∙◌, ap, ◌≢◌, ◌⊎◌, Bool, false, not, ◌||◌, List, [], ◌∷◌,
  ltb, leb, ◌==◌, ne→==, eq→==, arith,
}
use os_hw.Prelude.Bytes.{Bytes, get_word, put_word, get_word-put_word_self}
use os_hw.Prelude.Outcome.{ok}
use os_hw.Str.{memset}
use os_hw.Str.Move.{memset_lem}
use os_hw.Kalloc.{page_size, phys_top, v2p, Kmem, kalloc, kfree}

-- A page that the allocator may have: it is aligned, and in the physical memory after the kernel.
pub record IsPage (end p : ℕ) : Type 0 where
  pub aligned : p % page_size ≡ 0
  pub after : end ≤ p
  pub below : v2p p < phys_top
  pub word : p < 2 ^ 32

abbrev pub occurs : ℕ → List ℕ → Bool
occurs p [] = false
occurs p (q ∷ l) = (p == q) || occurs p l

-- The list that starts at `f` in memory has the pages `l`, all different.
abbrev pub IsChain : (end : ℕ) → Bytes → ℕ → List ℕ → Type 0
IsChain end m f [] = f ≡ 0
IsChain end m f (p ∷ l) =
    (f ≡ p) × IsPage end p × (occurs p l ≡ false) × IsChain end m (get_word m p) l

pub IsPage-nonzero : (end p : ℕ) → IsPage end p → p ≢ 0
IsPage-nonzero end p page z = let below = page.below in ground (arith, z)

-- The memory changes within page `x` only.
abbrev pub IsWithin : (x : ℕ) → (m m' : Bytes) → Type 0
IsWithin x m m' = (a : ℕ) → (a < x) ⊎ (x + page_size ≤ a) → m' a ≡ m a

pub get_word-same :
    (m m' : Bytes) (a : ℕ)
    → ((b : ℕ) → a ≤ b → b < a + 4 → m' b ≡ m b)
    → get_word m' a ≡ get_word m a
unfolding get_word
get_word-same m m' a same =
    let e0 : m' a ≡ m a = same a (omega arith) (omega arith) in
    rw
      (
        e0,
        same (a + 1) (omega arith) (omega arith),
        same (a + 2) (omega arith) (omega arith),
        same (a + 3) (omega arith) (omega arith),
      )
      refl

pub IsChain-within :
    (end x : ℕ) (m m' : Bytes) (f : ℕ) (l : List ℕ)
    → x % page_size ≡ 0
    → occurs x l ≡ false
    → IsWithin x m m'
    → IsChain end m f l
    → IsChain end m' f l
IsChain-within end x m m' f [] aligned fresh within chain = chain
IsChain-within end x m m' f (p ∷ l) aligned fresh within (head, page, once, rest) =
    let apart : x ≢ p = ground (arith, fresh) in
    let others : occurs x l ≡ false = ground (arith, fresh) in
    let mine = page.aligned in
    let next : get_word m' p ≡ get_word m p =
      get_word-same m m' p (λ b lo hi. within b (ground arith)) in
    (
      head,
      page,
      once,
      IsChain-within end x m m' (get_word m' p) l aligned others within (rw next rest),
    )

-- the free list as the pages `l`
abbrev pub IsFree : (end : ℕ) → Kmem → List ℕ → Type 0
IsFree end k l = IsChain end k.mem k.freelist l

kfree-IsWithin :
    (p f : ℕ) (m : Bytes) → p % page_size ≡ 0 → IsWithin p m (put_word (memset p 1 page_size m) p f)
unfolding put_word
kfree-IsWithin p f m aligned a out = ground (arith, memset_lem p 1 page_size m a)

-- `kalloc` takes the first page of the list, and returns 0 where there is none.
pub kalloc-first :
    (end p : ℕ) (k : Kmem) (l : List ℕ)
    → IsFree end k (p ∷ l)
    → kalloc k ≡ (p, record k { freelist = get_word k.mem p })
unfolding kalloc
kalloc-first end p k l (e, page, _, _) =
    let some_page : (p == 0) ≡ false = ne→== _ _ (IsPage-nonzero end p page) in
    rw (e, some_page) refl

pub freelist-word : (end : ℕ) (k : Kmem) (l : List ℕ) → IsFree end k l → k.freelist < 2 ^ 32
freelist-word end k [] e = ground arith
freelist-word end k (p ∷ l) (e, page, _, _) = rw e (page.word)

-- With an empty list `kalloc` returns 0 and changes nothing.
pub kalloc_empty : (end : ℕ) (k : Kmem) → IsFree end k [] → kalloc k ≡ (0, k)
unfolding kalloc
kalloc_empty end k e = rw (eq→== _ _ e) refl

-- `kfree` of a page that is not in the list puts it in front, and `kalloc`
-- then gives it again.
pub kfree-IsFree :
    (end p : ℕ) (k : Kmem) (l : List ℕ)
    → IsFree end k l
    → IsPage end p
    → occurs p l ≡ false
    → k.freelist < 2 ^ 32
    → (k' : Kmem) × (kfree end p k ≡ ok k')
      × IsFree end k' (p ∷ l)
      × (kalloc k' ≡ (p, record k' { freelist = k.freelist }))
unfolding kfree
kfree-IsFree end p k l chain page fresh word =
    let m' = put_word (memset p 1 page_size k.mem) p k.freelist in
    let aligned = page.aligned in
    let after = page.after in
    let below = page.below in
    let guard : (not (p % page_size == 0) || ltb p end || leb phys_top (v2p p)) ≡ false =
      ground arith in
    let within = kfree-IsWithin p k.freelist k.mem aligned in
    let next : get_word m' p ≡ k.freelist = get_word-put_word_self _ p k.freelist word in
    let k' : Kmem = record { mem = m'; freelist = p } in
    let list : IsFree end k' (p ∷ l) = (
      refl,
      page,
      fresh,
      rw next (IsChain-within end p k.mem m' k.freelist l aligned fresh within chain),
    ) in
    (
      k',
      rw guard refl,
      list,
      kalloc-first end p k' l list ∙ ap (λ f. (p, record k' { freelist = f })) next,
    )
