-- ===== src/Kalloc/Tests.antt =====
-- kalloc.c at work on a kernel that holds one page.
use os_hw.Prelude.{ℕ, ◌+◌, ◌≡◌, refl, sym, ap, subst, false, ◌==◌, ==→eq, arith}
use os_hw.Prelude.Bytes.{update, put_word, get_word-put_word_self}
use os_hw.Prelude.Outcome.{ok, panic}
use os_hw.Str.{memset}
use os_hw.Kalloc.{page_size, Kmem, kalloc, kfree}
use os_hw.Kalloc.Pages.{IsPage}
use os_hw.Kalloc.Machine.{Machine, free, Reach, here, next, IsStart, Reach-kalloc, Reach-kfree}

abbrev end : ℕ
end = 2148532224

abbrev page : ℕ
page = 2151677952

abbrev boot : Machine
boot = record { kmem = record { mem = λ a. 0; freelist = 0 }; held = λ p. p == page }

page-IsPage : IsPage end page
page-IsPage = record {
  aligned = refl;
  after = omega arith;
  below = omega arith;
  word = omega arith;
}

boot-IsStart : IsStart end boot
boot-IsStart = record {
  empty = refl;
  pages = λ p h. subst (IsPage end) (sym (==→eq _ _ h)) page-IsPage;
}

abbrev freed : Kmem
freed = record { mem = put_word (memset page 1 page_size boot.kmem.mem) page 0; freelist = page }

kfree-freed : kfree end page boot.kmem ≡ ok freed
unfolding kfree
kfree-freed = refl

kfree-unaligned : kfree end (page + 1) boot.kmem ≡ panic
unfolding kfree
kfree-unaligned = refl

abbrev idle : Machine
idle = record { kmem = freed; held = update boot.held page false }

idle-Reach : Reach end boot idle
idle-Reach = next here (free page freed refl kfree-freed)

kalloc-freed : kalloc freed ≡ (page, record freed { freelist = 0 })
unfolding kalloc
kalloc-freed =
    ap (λ f. (page, record freed { freelist = f })) (get_word-put_word_self _ page 0 (omega arith))

Reach-kfree_example :
    (k : Kmem) × (kfree end page boot.kmem ≡ ok k) × (kalloc k ≡ (page, record k { freelist = 0 }))
Reach-kfree_example = Reach-kfree end boot boot page boot-IsStart here refl

Reach-kalloc_example : IsPage end page × (idle.held page ≡ false)
Reach-kalloc_example =
    Reach-kalloc end boot idle page (record freed { freelist = 0 }) boot-IsStart idle-Reach
      kalloc-freed (λ e. absurd (ground (arith, e)))
