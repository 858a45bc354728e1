-- ===== src/Ulib/Tests.antt =====
-- The user library at work: "407" at address 0, and the format "%d%%" at 8 with the argument -5 at 16.
use os_hw.Prelude.{◌≡◌, refl, ◌∷◌, [], ◌==◌, if◌then◌else◌, true, arith}
use os_hw.Prelude.Bytes.{Bytes, get_word}
use os_hw.Ulib.{atoi, digits, backwards, printint, print_byte, directive, printf_from, printf}
use os_hw.Ulib.Numbers.{IsText, atoi-printint}

abbrev mem : Bytes
mem a =
    if a == 0
    then b'4'
    else if a == 1
    then b'0'
    else if a == 2
    then b'7'
    else if a == 8
    then b'%'
    else if a == 9
    then b'd'
    else if a == 10
    then b'%'
    else if a == 11
    then b'%'
    else if a == 16
    then 251
    else if a == 17
    then 255
    else if a == 18
    then 255
    else if a == 19
    then 255
    else 0

text : IsText mem 0 (printint 407 10 true)
unfolding printint digits backwards
text = (refl, (refl, (refl, refl)))

atoi-printint_example : atoi 32 0 mem ≡ 407
atoi-printint_example = atoi-printint 32 0 407 true mem (omega arith) (omega arith) text

printf_negative : printf 8 8 16 mem ≡ b'-' ∷ b'5' ∷ b'%' ∷ []
unfolding printf printf_from print_byte directive printint digits backwards get_word
printf_negative = refl
