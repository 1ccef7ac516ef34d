-- ===== src/Tests/Text.antt =====
-- The string functions on concrete texts.
use x_expr.Prelude.{ℕ, ◌≡◌, refl, ◌↔◌, some, List, [], ◌∷◌, arith}
use x_expr.Memory.{ok, bytes}
use x_expr.Sys.{put_block, put_buffer}
use x_expr.Tests.Scene.{sys, heap}
use x_expr.Strings.Dup.{strndup-Text}
use x_expr.Strings.{x_lib_strndup, x_lib_strcmp}
use x_expr.Strings.Laws.{Text, done, more, strcmp-Text}

abbrev ab : List ℕ
ab = b'a' ∷ b'b' ∷ []

ab-Text : Text ab
ab-Text = more (omega arith) (more (omega arith) done)

abbrev ad : List ℕ
ad = b'a' ∷ b'd' ∷ []

ad-Text : Text ad
ad-Text = more (omega arith) (more (omega arith) done)

strcmp-Text_example :
    (a : ℕ) × (b : ℕ) × (x_lib_strcmp (b'a' ∷ b'b' ∷ 0 ∷ []) (b'a' ∷ b'd' ∷ 0 ∷ []) ≡ some (a, b))
    × (a ≡ b ↔ ab ≡ ad)
strcmp-Text_example = strcmp-Text [] [] ab-Text ad-Text

strndup-Text_example :
    x_lib_strndup sys (b'a' ∷ b'b' ∷ 0 ∷ 9 ∷ []) 1 heap
    ≡ ok 50 (put_buffer (put_block heap 50 (some bytes)) 50 (b'a' ∷ 0 ∷ []))
strndup-Text_example = strndup-Text sys {s = heap} (9 ∷ []) 1 50 ab-Text refl (omega arith)
