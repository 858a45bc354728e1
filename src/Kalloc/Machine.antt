-- ===== src/Kalloc/Machine.antt =====
-- The kernel and its allocator: pages are taken, written and given back in any order.
use os_hw.Prelude.{
  ℕ, ◌+◌, ◌≤◌, ◌<◌, ◌≡◌, refl, sym, ◌∙◌, ap, subst, ◌≢◌, inl, inr, Bool, true, false, List, [], ◌∷◌,
  ◌==◌, Bool-cases, ==→eq, eq→==, arith,
}
use os_hw.Prelude.Bytes.{update, get_word}
use os_hw.Prelude.Outcome.{ok}
use os_hw.Kalloc.{page_size, Kmem, kalloc, kfree}
use os_hw.Kalloc.Pages.{
  IsPage, occurs, IsChain-within, IsFree, kfree-IsFree, freelist-word, kalloc-first,
}

-- The allocator, and which pages the rest of the kernel holds.
pub record Machine : Type 0 where
  pub kmem : Kmem
  pub held : ℕ → Bool

-- The kernel calls `kfree` for pages that it holds, and writes only to those.
pub data Step (end : ℕ) (s : Machine) : Machine → Type 0 where
  alloc :
      (p : ℕ) (k : Kmem)
      → kalloc s.kmem ≡ (p, k)
      → p ≢ 0
      → Step end s (record { kmem = k; held = update s.held p true })
  free :
      (p : ℕ) (k : Kmem)
      → s.held p ≡ true
      → kfree end p s.kmem ≡ ok k
      → Step end s (record { kmem = k; held = update s.held p false })
  store :
      (p a v : ℕ)
      → s.held p ≡ true
      → p ≤ a
      → a < p + page_size
      → Step end s (record s { kmem = record s.kmem { mem = update s.kmem.mem a v } })

pub data Reach (end : ℕ) (s : Machine) : Machine → Type 0 where
  here : Reach end s s
  next : {t u : Machine} → Reach end s t → Step end t u → Reach end s u

-- The list is empty, and what the kernel holds are pages.
pub record IsStart (end : ℕ) (s : Machine) : Type 0 where
  pub empty : s.kmem.freelist ≡ 0
  pub pages : (p : ℕ) → s.held p ≡ true → IsPage end p

-- The list has pages, all different, none of them held.
pub record IsSound (end : ℕ) (s : Machine) (l : List ℕ) : Type 0 where
  pub chain : IsFree end s.kmem l
  pub pages : (p : ℕ) → s.held p ≡ true → IsPage end p
  pub apart : (p : ℕ) → s.held p ≡ true → occurs p l ≡ false

alloc-IsSound :
    (end : ℕ) (s : Machine) (l : List ℕ) (p : ℕ) (k : Kmem)
    → IsSound end s l
    → kalloc s.kmem ≡ (p, k)
    → p ≢ 0
    → (l' : List ℕ) × (l ≡ p ∷ l')
      × IsSound end (record { kmem = k; held = update s.held p true }) l'
unfolding kalloc
alloc-IsSound end s [] p k sound run some_page =
    let none_left : (s.kmem.freelist == 0) ≡ true = eq→== _ _ sound.chain in
    let nothing : ℕ × Kmem = (0, s.kmem) in
    let e : nothing ≡ (p, k) = rw none_left at run in absurd (some_page (sym (ap (λ r. r.0) e)))
alloc-IsSound end s (q ∷ l) p k sound run some_page =
    let first = kalloc-first end q s.kmem l sound.chain in
    let taken : ℕ × Kmem = (q, record s.kmem { freelist = get_word s.kmem.mem q }) in
    let e : taken ≡ (p, k) = sym first ∙ run in
    let (head, page, once, chain) = sound.chain in
    let fresh : (r : ℕ) → s.held r ≡ true → occurs r l ≡ false =
      λ r h. ground (arith, sound.apart r h) in
    subst
      (λ r.
        (l' : List ℕ) × (q ∷ l ≡ r.0 ∷ l')
        × IsSound end (record { kmem = r.1; held = update s.held r.0 true }) l')
      e
      (
        l,
        refl,
        record {
          chain = chain;
          pages = λ r h. elim (Bool-cases (q == r)) [
            | inl same ↦ subst (IsPage end) (==→eq _ _ same) page
            | inr other ↦ sound.pages r (rw other at h)
          ];
          apart = λ r h. elim (Bool-cases (q == r)) [
            | inl same ↦ subst (λ r. occurs r l ≡ false) (==→eq _ _ same) once
            | inr other ↦ fresh r (rw other at h)
          ];
        },
      )

Step-IsSound :
    (end : ℕ) (s t : Machine) (l : List ℕ)
    → IsSound end s l
    → Step end s t
    → (l' : List ℕ) × IsSound end t l'
Step-IsSound end s _ l sound (alloc p k run some_page) =
    let (l', e, after) = alloc-IsSound end s l p k sound run some_page in (l', after)
Step-IsSound end s _ l sound (free p k mine run) =
    let page = sound.pages p mine in
    let fresh = sound.apart p mine in
    let (k', run', chain, again) =
      kfree-IsFree end p s.kmem l sound.chain page fresh (freelist-word end s.kmem l sound.chain) in
    let same : k' ≡ k = cc in
    (
      p ∷ l,
      record {
        chain = subst (λ k. IsFree end k (p ∷ l)) same chain;
        pages = λ q h. elim (Bool-cases (p == q)) [
          | inl same ↦ absurd (ground arith)
          | inr other ↦ sound.pages q (rw other at h)
        ];
        apart = λ q h. elim (Bool-cases (p == q)) [
          | inl same ↦ absurd (ground arith)
          | inr other ↦ ground (arith, other, sound.apart q (rw other at h))
        ];
      },
    )
Step-IsSound end s _ l sound (store p a v mine low high) = (
  l,
  record {
    chain =
        IsChain-within end p s.kmem.mem (update s.kmem.mem a v) s.kmem.freelist l
          ((sound.pages p mine).aligned) (sound.apart p mine) (λ b out. ground (arith, out))
          sound.chain;
    pages = sound.pages;
    apart = sound.apart;
  },
)

Reach-IsSound :
    (end : ℕ) (s t : Machine) → IsStart end s → Reach end s t → (l : List ℕ) × IsSound end t l
Reach-IsSound end s _ start here =
    ([], record { chain = start.empty; pages = start.pages; apart = λ p h. refl })
Reach-IsSound end s u start (next {t} reach step) =
    let (l, sound) = Reach-IsSound end s t start reach in Step-IsSound end t u l sound step

-- However pages are taken, written and given back: a page that `kalloc` returns is aligned, lies in
-- the physical memory after the kernel, and is held by no one. At the start the list is empty, and
-- what the kernel holds are such pages.
pub Reach-kalloc :
    (end : ℕ) (s t : Machine) (p : ℕ) (k : Kmem)
    → IsStart end s
    → Reach end s t
    → kalloc t.kmem ≡ (p, k)
    → p ≢ 0
    → IsPage end p × (t.held p ≡ false)
Reach-kalloc end s t p k start reach run some_page =
    let (l, sound) = Reach-IsSound end s t start reach in
    let (l', e, after) = alloc-IsSound end t l p k sound run some_page in
    let (head, page, once, chain) = subst (IsFree end t.kmem) e sound.chain in
    (
      page,
      elim (Bool-cases (t.held p)) [
        | inl mine ↦ absurd (ground (arith, e, sound.apart p mine))
        | inr given_back ↦ given_back
      ],
    )

-- However pages are taken, written and given back, `kfree` of a page that the kernel holds returns,
-- and the next `kalloc` gives that page again and leaves the list as it was before.
pub Reach-kfree :
    (end : ℕ) (s t : Machine) (p : ℕ)
    → IsStart end s
    → Reach end s t
    → t.held p ≡ true
    → (k : Kmem) × (kfree end p t.kmem ≡ ok k)
      × (kalloc k ≡ (p, record k { freelist = t.kmem.freelist }))
Reach-kfree end s t p start reach mine =
    let (l, sound) = Reach-IsSound end s t start reach in
    let (k, run, chain, again) =
      kfree-IsFree end p t.kmem l sound.chain (sound.pages p mine) (sound.apart p mine)
        (freelist-word end t.kmem l sound.chain) in
    (k, run, again)
