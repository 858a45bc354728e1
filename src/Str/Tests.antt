-- ===== src/Str/Tests.antt =====
-- Two strings, "hi" at 100 and "hit" at 200, in memory that holds 9 elsewhere.
use os_hw.Prelude.{◌≡◌, refl, arith}
use os_hw.Prelude.Bytes.{Bytes, update}
use os_hw.Str.{memmove, strncmp, difference}
use os_hw.Str.Move.{moved, memmove_lem}
use os_hw.Str.Compare.{IsLength}

abbrev hi : Bytes
hi = update (update (update (λ _. 9) 100 104) 101 105) 102 0

abbrev both : Bytes
both = update (update (update (update hi 200 104) 201 105) 202 116) 203 0

-- "hi" moves up by one byte, onto itself
memmove_lem_example : memmove 101 100 3 both 102 ≡ moved 101 100 3 both 102
memmove_lem_example = memmove_lem 101 100 3 both 102

moved_up : moved 101 100 3 both 102 ≡ 105
moved_up = refl

-- "hi" comes before "hit"
hi_hit : (strncmp 100 200 5 both ≡ difference 0 116) × (strncmp 100 200 2 both ≡ 0)
unfolding strncmp
hi_hit = (refl, refl)

hi-IsLength : IsLength 100 2 both
hi-IsLength = record { ended = refl; before = λ i lt. ground arith }
