-- ===== src/Bio/Tests.antt =====
-- Block 40 is read into a cache that `binit` has set up, written, and released.
use os_hw.Prelude.{ℕ, suc, ◌≡◌, refl, inr, false, [], ◌∷◌, ◌++◌, map, Option, none, some, arith}
use os_hw.Prelude.Outcome.{Outcome, ok, panic}
use os_hw.Store.{Disk}
use os_hw.Bio.Lookup.{mem}
use os_hw.Bio.{Cache, wakeup, slots, binit, bget, bread, bwrite, brelse, iderw}
use os_hw.Bio.Current.{binit-IsCoherent}
use os_hw.Bio.Read.{IsRead, bread-IsRead}
use os_hw.Bio.Write.{IsWritten, bwrite-IsWritten, IsReleased, brelse-IsReleased}

abbrev blank : Disk
blank _ _ = 5

abbrev got : Outcome (Option (Cache × ℕ)) → Cache × ℕ
got panic = (binit blank, 0)
got (ok none) = (binit blank, 0)
got (ok (some r)) = r

abbrev fetched : Cache × ℕ
fetched = got (bread 1000 1 40 (binit blank))

-- the last buffer of the list is taken
read_run : bread 1000 1 40 (binit blank) ≡ ok (some fetched)
unfolding bread bget binit iderw
read_run = refl

bread-IsRead_example : IsRead (binit blank) 40 fetched.0 fetched.1
bread-IsRead_example = bread-IsRead 1000 (binit blank) 40 (binit-IsCoherent blank) read_run

fetched-IsRead : IsRead (binit blank) 40 fetched.0 fetched.1
fetched-IsRead = bread-IsRead 1000 (binit blank) 40 (binit-IsCoherent blank) read_run

bwrite-IsWritten_example :
    (c' : Cache) × (bwrite 1000 fetched.0 fetched.1 ≡ ok c') × IsWritten fetched.0 fetched.1 40 c'
bwrite-IsWritten_example =
    bwrite-IsWritten 1000 fetched.0 fetched.1 40 fetched-IsRead.coherent fetched-IsRead.held
      (omega arith)

unchanged : (fetched.0.bufs fetched.1).bytes ≡ fetched.0.disk 40
unfolding bread bget binit iderw
unchanged = refl

-- the list is still that of `binit`, with slot 0 at its end
listed : fetched.0.order ≡ map suc (slots 29) ++ fetched.1 ∷ []
unfolding bread bget binit iderw
listed = refl

not_before : mem fetched.1 (map suc (slots 29)) ≡ false
unfolding bread bget binit iderw
not_before = refl

brelse-IsReleased_example :
    (c' : Cache) × (brelse fetched.0 fetched.1 ≡ ok (c', wakeup fetched.1 ∷ []))
    × IsReleased fetched.0 fetched.1 (map suc (slots 29)) [] c'
brelse-IsReleased_example =
    brelse-IsReleased fetched.0 fetched.1 40 (map suc (slots 29)) [] fetched-IsRead.coherent
      fetched-IsRead.held (inr unchanged) listed not_before refl
