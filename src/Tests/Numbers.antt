-- ===== src/Tests/Numbers.antt =====
-- The conversions of numbers in the C locale, to a buffer of 65 bytes at 60.
use x_expr.Prelude.{
  ℕ, ◌+◌, ◌-◌, ◌^◌, ◌<◌, ◌≡◌, refl, ◌||◌, ◌&&◌, none, some, List, [], ◌∷◌, ◌++◌, arith, ◌==◌, leb,
  if◌then◌else◌, length, replicate, drop,
}
use x_expr.Memory.{Word, State, ok}
use x_expr.Sys.{put_buffer}
use x_expr.Tests.Scene.{heap}
use x_expr.Number.{Ctype, magnitude, x_lib_inttostr, x_lib_strtoint}
use x_expr.Number.Print.{printed, length-printed, inttostr-printed}
use x_expr.Number.Scan.{CLocale}
use x_expr.Number.RoundTrip.{strtoint-high, strtoint-inttostr}
use x_expr.Number.Total.{Ascii, finished, low, Ending, strtoint-Ending}

abbrev ascii : Ctype
ascii = record {
  isspace = λ c. c == b' ' || (leb 9 c && leb c 13);
  isdigit = λ c. leb b'0' c && leb c b'9';
  toupper = λ c. if leb b'a' c && leb c b'z' then c - 32 else c;
}

ascii-CLocale : CLocale ascii
ascii-CLocale = record {
  digit = λ c. refl;
  lower = λ c h h'. ground (arith, h, h');
  graph = λ c h h'. ground (arith, h, h');
}

-- -255
abbrev minus_255 : Word
minus_255 = 2 ^ 64 - 255

abbrev room : List ℕ
room = replicate 65 7

abbrev desk : State
desk = put_buffer heap 60 room

strtoint-inttostr_example :
    (t : State) × (b : List ℕ) × (x_lib_inttostr minus_255 60 16 desk ≡ ok 60 t)
    × (t.buffers 60 ≡ some b)
    × (x_lib_strtoint ascii b 16
        ≡ some (minus_255, 0 ∷ drop (length (printed 16 minus_255) + 1) room))
strtoint-inttostr_example =
    strtoint-inttostr ascii-CLocale 16 minus_255 desk {b = room} (omega arith) (omega arith)
      (omega arith) (omega arith) (omega arith) refl (omega arith)

inttostr-printed_example :
    x_lib_inttostr minus_255 60 16 desk
    ≡ ok 60 (
        put_buffer desk 60
          (printed 16 minus_255 ++ (0 ∷ drop (length (printed 16 minus_255) + 1) room)))
inttostr-printed_example =
    inttostr-printed minus_255 16 (omega arith) (omega arith) (omega arith) desk {b = room}
      (omega arith) (omega arith) refl
      (omega (arith, (length-printed minus_255 16 (omega arith) (omega arith) (omega arith)).1))

-- " -1f,"
abbrev listed : List ℕ
listed = b' ' ∷ b'-' ∷ b'1' ∷ b'f' ∷ b',' ∷ []

listed-Ascii : Ascii listed
listed-Ascii =
    low (omega arith)
      (low (omega arith) (low (omega arith) (low (omega arith) (low (omega arith) finished))))

strtoint-Ending_example :
    (w : Word) × (rest : List ℕ) × (x_lib_strtoint ascii (listed ++ 0 ∷ []) 16 ≡ some (w, rest))
    × (magnitude w < 2 ^ 63)
    × Ending listed [] rest
strtoint-Ending_example =
    strtoint-Ending ascii 16 listed [] listed-Ascii refl (omega arith) (omega arith)

strtoint-high_example : x_lib_strtoint ascii (printed 10 42 ++ 0xC3 ∷ 0xA9 ∷ 0 ∷ []) 10 ≡ none
strtoint-high_example =
    strtoint-high ascii-CLocale 10 (omega arith) (omega arith) 42 0xC3 (0xA9 ∷ 0 ∷ []) (omega arith)
      (omega arith) (omega arith)
