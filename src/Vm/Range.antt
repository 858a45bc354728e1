-- ===== src/Vm/Range.antt =====
-- The loop of mappages, for any number of pages.
use os_hw.Prelude.{
  ℕ, zero, suc, ◌+◌, ◌*◌, ◌%◌, ◌^◌, ◌≤◌, ◌<◌, ◌≡◌, refl, sym, ◌∙◌, ap, subst, ◌⊎◌, inl, inr, Bool,
  true, false, List, [], length, ◌==◌, ==_refl, arith,
}
use os_hw.Prelude.Outcome.{ok}
use os_hw.Kalloc.{page_size, Kmem}
use os_hw.Vm.{present, map_page, map_from}
use os_hw.Vm.Tables.{mapping, IsSpace}
use os_hw.Vm.Space.{pte, pte_lem, IsEntered, map_page-IsEntered}

-- The pages from `a` on, `n` and one more, aligned, as are the physical ones from `pa` on.
pub record IsRange (a pa perm n : ℕ) : Type 0 where
  pub aligned : a % page_size ≡ 0
  pub fits : a + n * page_size < 2 ^ 32
  pub phys_aligned : pa % page_size ≡ 0
  pub phys_fits : pa + n * page_size < 2 ^ 32
  pub flags : perm < page_size

-- What `mappages` does over these pages; `done` is whether it returns 0.
pub record IsMappedRange (end pgdir a pa perm n : ℕ) (k : Kmem) (l : List ℕ) (done : Bool)
    (k' : Kmem) (l' : List ℕ) : Type 0 where
  pub space : IsSpace end pgdir k' l'
  pub mapped :
      done ≡ true
      → (j : ℕ) → j ≤ n
      → mapping k'.mem pgdir (a + j * page_size) ≡ pte (pa + j * page_size) perm
  pub other :
      (x : ℕ)
      → x < 2 ^ 32
      → (x < a) ⊎ (a + n * page_size + page_size ≤ x)
      → mapping k'.mem pgdir x ≡ mapping k.mem pgdir x
  pub few : done ≡ false → length l ≤ n

pte_bound : (pa perm n a : ℕ) → IsRange a pa perm n → pte pa perm < 2 ^ 32
pte_bound pa perm n a r =
    let aligned = r.phys_aligned in
    let fits = r.phys_fits in
    let small = r.flags in rw (pte_lem pa perm aligned small) (omega arith)

IsRange-next :
    (a pa perm n : ℕ) → IsRange a pa perm (suc n) → IsRange (a + page_size) (pa + page_size) perm n
IsRange-next a pa perm n r =
    let aligned = r.aligned in
    let fits = r.fits in
    let phys_aligned = r.phys_aligned in
    let phys_fits = r.phys_fits in
    record {
      aligned = omega arith;
      fits = omega arith;
      phys_aligned = omega arith;
      phys_fits = omega arith;
      flags = r.flags;
    }

-- a round of the loop, which is not the last
map_from_next :
    (n pgdir a last pa perm : ℕ) (k k' : Kmem)
    → map_page pgdir a pa perm k ≡ ok (true, k')
    → a < last
    → a + page_size < 2 ^ 32
    → pa + page_size < 2 ^ 32
    → map_from (suc n) pgdir a last pa perm k
      ≡ map_from n pgdir (a + page_size) last (pa + page_size) perm k'
unfolding map_from
map_from_next n pgdir a last pa perm k k' run lt fits phys_fits =
    let more : (a == last) ≡ false = ground arith in
    let next : (a + page_size) % 2 ^ 32 ≡ a + page_size = omega arith in
    let phys_next : (pa + page_size) % 2 ^ 32 ≡ pa + page_size = omega arith in
    rw (run, more, next, phys_next) refl

map_from_last :
    (n pgdir a pa perm : ℕ) (k k' : Kmem)
    → map_page pgdir a pa perm k ≡ ok (true, k')
    → map_from (suc n) pgdir a a pa perm k ≡ ok (true, k')
unfolding map_from
map_from_last n pgdir a pa perm k k' run = rw (run, ==_refl a) refl

map_from_full :
    (n pgdir a last pa perm : ℕ) (k : Kmem)
    → map_page pgdir a pa perm k ≡ ok (false, k)
    → map_from (suc n) pgdir a last pa perm k ≡ ok (false, k)
unfolding map_from
map_from_full n pgdir a last pa perm k run = rw run refl

IsMappedRange-full :
    (end pgdir a pa perm n : ℕ) (k : Kmem) (l : List ℕ)
    → IsSpace end pgdir k l
    → l ≡ []
    → IsMappedRange end pgdir a pa perm n k l false k l
IsMappedRange-full end pgdir a pa perm n k l s empty = record {
  space = s;
  mapped = λ h. absurd (ground (arith, h));
  other = λ x lt out. refl;
  few = λ _. rw empty (omega arith);
}

-- the first page, and those after it
IsMappedRange-both :
    (end pgdir a pa perm n : ℕ) (k k' k'' : Kmem) (l l' l'' : List ℕ) (done : Bool)
    → IsRange a pa perm (suc n)
    → IsEntered end pgdir k l a (pte pa perm) k' l'
    → IsMappedRange end pgdir (a + page_size) (pa + page_size) perm n k' l' done k'' l''
    → IsMappedRange end pgdir a pa perm (suc n) k l done k'' l''
IsMappedRange-both end pgdir a pa perm n k k' k'' l l' l'' done r e rest =
    let aligned = r.aligned in
    let fits = r.fits in
    record {
      space = rest.space;
      mapped = λ h j le. mapped_at h j le;
      other = λ x lt out.
          rest.other x lt
            (elim out [ inl below ↦ inl (omega arith) | inr above ↦ inr (omega arith) ])
          ∙ e.other x lt (λ q. elim out [ inl below ↦ omega arith | inr above ↦ omega arith ]);
      few = λ h. let a = rest.few h in let b = e.taken in omega arith;
    }
  where
    mapped_at :
        done ≡ true
        → (j : ℕ) → j ≤ suc n
        → mapping k''.mem pgdir (a + j * page_size) ≡ pte (pa + j * page_size) perm
    mapped_at h zero le =
        let fits = r.fits in
        let at : a + 0 * page_size ≡ a = omega arith in
        let phys_at : pa + 0 * page_size ≡ pa = omega arith in
        rw (at, phys_at) (rest.other a (omega arith) (inl (omega arith)) ∙ e.here)
    mapped_at h (suc j) le =
        let at : a + suc j * page_size ≡ a + page_size + j * page_size = omega arith in
        let phys_at : pa + suc j * page_size ≡ pa + page_size + j * page_size = omega arith in
        rw (at, phys_at) (rest.mapped h j (omega arith))

-- Over pages without entries, `mappages` maps each of them to its physical page, or fails because
-- the free list had no more pages than those after the first; other pages stay as they were.
pub map_from-IsMappedRange :
    (end pgdir a pa perm n : ℕ) (k : Kmem) (l : List ℕ)
    → IsSpace end pgdir k l
    → IsRange a pa perm n
    → ((j : ℕ) → j ≤ n → present (mapping k.mem pgdir (a + j * page_size)) ≡ false)
    → (done : Bool) × (k' : Kmem) × (l' : List ℕ) × (map_from
          (suc n)
          pgdir
          a
          (a + n * page_size)
          pa
          perm
          k
        ≡ ok (done, k'))
      × IsMappedRange end pgdir a pa perm n k l done k' l'
map_from-IsMappedRange end pgdir a pa perm zero k l s r free =
    let fits = r.fits in
    let at : a + 0 * page_size ≡ a = omega arith in
    elim (map_page-IsEntered end pgdir a pa perm k l s (omega arith) (pte_bound pa perm 0 a r)
      (subst (λ x. present (mapping k.mem pgdir x) ≡ false) at (free 0 (omega arith)))) [
        | inl (k', l', run, e) ↦ (
          true,
          k',
          l',
          rw at (map_from_last 0 pgdir a pa perm k k' run),
          record {
            space = e.space;
            mapped = λ h j le.
                let here : a + j * page_size ≡ a = omega arith in
                let phys_here : pa + j * page_size ≡ pa = omega arith in
                rw (here, phys_here) (e.here);
            other = λ x lt out. e.other x lt (λ q.
                let al = r.aligned in
                elim out [ inl below ↦ omega arith | inr above ↦ omega arith ]);
            few = λ h. absurd (ground (arith, h));
          },
        )
        | inr (empty, run) ↦ (
          false,
          k,
          l,
          map_from_full 0 pgdir a (a + 0 * page_size) pa perm k run,
          IsMappedRange-full end pgdir a pa perm 0 k l s empty,
        )
      ]
map_from-IsMappedRange end pgdir a pa perm (suc n) k l s r free =
    let fits = r.fits in
    let phys_fits = r.phys_fits in
    let aligned = r.aligned in
    let at : a + 0 * page_size ≡ a = omega arith in
    elim (map_page-IsEntered end pgdir a pa perm k l s (omega arith) (pte_bound pa perm (suc n) a r)
      (subst (λ x. present (mapping k.mem pgdir x) ≡ false) at (free 0 (omega arith)))) [
        | inl (k', l', run, e) ↦
            let (done, k'', l'', runs, rest) =
              map_from-IsMappedRange end pgdir (a + page_size) (pa + page_size) perm n k' l'
                (e.space) (IsRange-next a pa perm n r)
                (λ j le.
                  let place : a + page_size + j * page_size ≡ a + suc j * page_size = omega arith in
                  ap present
                    (e.other (a + page_size + j * page_size) (omega arith) (λ q. omega arith))
                  ∙ subst (λ x. present (mapping k.mem pgdir x) ≡ false) (sym place)
                      (free (suc j) (omega arith))) in
            let last : a + page_size + n * page_size ≡ a + suc n * page_size = omega arith in
            (
              done,
              k'',
              l'',
              map_from_next (suc n) pgdir a (a + suc n * page_size) pa perm k k' run (omega arith)
                    (omega arith) (omega arith)
                  ∙ subst
                      (λ x.
                        map_from (suc n) pgdir (a + page_size) x (pa + page_size) perm k'
                        ≡ ok (done, k''))
                      last runs,
              IsMappedRange-both end pgdir a pa perm n k k' k'' l l' l'' done r e rest,
            )
        | inr (empty, run) ↦ (
          false,
          k,
          l,
          map_from_full (suc n) pgdir a (a + suc n * page_size) pa perm k run,
          IsMappedRange-full end pgdir a pa perm (suc n) k l s empty,
        )
      ]
