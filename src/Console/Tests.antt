-- ===== src/Console/Tests.antt =====
-- console.c at work: what is typed is edited and read, and shown on an empty screen.
use os_hw.Prelude.{ℕ, ◌+◌, ◌≡◌, refl, ◌≤◌, true, false, [], ◌∷◌, ◌++◌, List, length, inl, arith}
use os_hw.Prelude.Outcome.{ok, panic}
use os_hw.Console.{Console, newline, asleep, returned, consoleintr, consoleread}
use os_hw.Console.Ring.{ready, edit, IsSound}
use os_hw.Console.Editor.{view, press_all, has_list}
use os_hw.Console.Edit.{consoleintr-press_all}
use os_hw.Console.Line.{consoleread-consoleintr}
use os_hw.Console.Print.{int_buf, print_int, print_int-bound}
use os_hw.Console.Screen.{Screen, IsShown, cgaputc, cgaputs, display_all, cgaputs-IsShown}

-- the indices are about to wrap around
abbrev idle : Console
idle = record {
  buf = λ i. 0;
  r = 4294967290;
  w = 4294967290;
  e = 4294967290;
  shown = [];
  woken = false;
}

idle-IsSound : IsSound idle
idle-IsSound = record {
  ring = record {
    r_word = omega arith;
    w_word = omega arith;
    e_word = omega arith;
    bounded = omega arith;
  };
  plain = λ i lt. absurd (omega arith);
}

abbrev text : List ℕ
text = b'a' ∷ b'b' ∷ b'c' ∷ b'd' ∷ b'e' ∷ b'f' ∷ b'g' ∷ b'h' ∷ []

-- "xy", C-u, "abcdefgh", Enter
abbrev keys : List ℕ
keys = b'x' ∷ b'y' ∷ 21 ∷ text ++ (13 ∷ [])

consoleread-empty : consoleread 5 5 false idle ≡ ([], asleep 5, idle)
unfolding consoleread
consoleread-empty = refl

consoleread-consoleintr_example :
    (s' : Console) × (consoleread 20 20 false
        ((consoleintr ((b'x' ∷ b'y' ∷ []) ++ (21 ∷ (text ++ (13 ∷ [])))) false idle).0)
      ≡ (text ++ (newline ∷ []), returned (length text + 1), s'))
    × IsSound s'
    × (ready s' ≡ [])
    × (edit s' ≡ [])
consoleread-consoleintr_example =
    consoleread-consoleintr (b'x' ∷ b'y' ∷ []) text 20 false idle idle-IsSound refl refl
      (refl, (refl, tt)) (refl, (refl, (refl, (refl, (refl, (refl, (refl, (refl, tt))))))))
      (omega arith) (omega arith) (omega arith)

consoleintr-press_all_example :
    IsSound ((consoleintr keys false idle).0)
    × (view ((consoleintr keys false idle).0) ≡ press_all keys (view idle))
    × ((consoleintr keys false idle).1 ≡ has_list keys false)
consoleintr-press_all_example = consoleintr-press_all keys false idle idle-IsSound (omega arith)

print_int-minimum :
    print_int 2147483648 10 true
    ≡ b'-' ∷ b'2' ∷ b'1' ∷ b'4' ∷ b'7' ∷ b'4' ∷ b'8' ∷ b'3' ∷ b'6' ∷ b'4' ∷ b'8' ∷ []
unfolding print_int
print_int-minimum = refl

print_int-bound_example :
    (length (int_buf 2147483648 10 true) ≤ 11) × (length (print_int 2147483648 10 true) ≤ 11)
print_int-bound_example = print_int-bound 2147483648 10 true (inl refl) (omega arith)

abbrev blank : Screen
blank = record { crt = λ a. 0; pos = 1919 }

blank-IsShown : IsShown (λ i. 0, 1919) blank
blank-IsShown = record { inside = omega arith; cursor = refl; cells = λ i lt. refl }

cgaputc-outside : cgaputc b'a' (record { crt = λ a. 0; pos = 2000 }) ≡ panic
unfolding cgaputc
cgaputc-outside = refl

cgaputs-IsShown_example :
    (s' : Screen) × (cgaputs text blank ≡ ok s') × IsShown (display_all text (λ i. 0, 1919)) s'
cgaputs-IsShown_example = cgaputs-IsShown text (λ i. 0, 1919) blank blank-IsShown
