-- ===== src/Tests/Write.antt =====
-- A base with a write buffer at 200, of which one byte is filled, and a text: one of its own at 300, and
-- one that starts in the buffer.
use x_expr.Prelude.{ℕ, ◌≡◌, refl, true, some, List, [], ◌∷◌, inr, arith}
use x_expr.Memory.{State, ok, load, unit_at}
use x_expr.Obj.{x_obj_data_i, x_firstobj, x_restobj}
use x_expr.Base.{
  x_base, x_base_isset, rest_n, elem_n, x_base_field_io_fields, x_base_field_files,
  x_base_field_write_buf,
}
use x_expr.Base.Write.{x_base_write}
use x_expr.Base.Write.Buffered.{Buffered, advanced, write-Buffered, write-Copied}
use x_expr.Strings.{copy_within}
use x_expr.Strings.Within.{Copied, source_of}
use x_expr.Tests.Scene.{at, obj, sys}

abbrev words : List ℕ
words = b'a' ∷ b'b' ∷ 0 ∷ []

abbrev scene : (text size : ℕ) → (b : List ℕ) → State
scene text size b = record {
  objs = at (
      (1, obj 0 100 0 (2 ∷ []))
      ∷ (2, obj 0 101 0 (0 ∷ 3 ∷ []))
      ∷ (3, obj 0 101 0 (4 ∷ 0 ∷ []))
      ∷ (4, obj 0 101 0 (5 ∷ 0 ∷ []))
      ∷ (5, obj 0 101 0 (0 ∷ 6 ∷ []))
      ∷ (6, obj 0 101 0 (0 ∷ 7 ∷ []))
      ∷ (7, obj 0 101 0 (0 ∷ 8 ∷ []))
      ∷ (8, obj 0 101 0 (0 ∷ 9 ∷ []))
      ∷ (9, obj 0 101 0 (10 ∷ 0 ∷ []))
      ∷ (10, obj 0 101 0 (11 ∷ 0 ∷ []))
      ∷ (11, obj 0 101 0 (200 ∷ 12 ∷ []))
      ∷ (12, obj 0 102 0 (1 ∷ []))
      ∷ (20, obj 0 101 0 (21 ∷ 22 ∷ []))
      ∷ (21, obj 0 102 0 (text ∷ []))
      ∷ (22, obj 0 101 0 (23 ∷ 0 ∷ []))
      ∷ (23, obj 0 102 0 (size ∷ []))
      ∷ []);
  blocks = at [];
  buffers = at ((200, b) ∷ (300, words) ∷ []);
  calls = [];
}

scene-set :
    (text size : ℕ) (b : List ℕ) → x_base_isset 1 (scene text size b) ≡ ok true (scene text size b)
unfolding x_base_isset x_base x_firstobj x_obj_data_i load unit_at
scene-set text size b = refl

scene-field :
    (text size : ℕ) (b : List ℕ)
    → x_base_field_write_buf 1 (scene text size b) ≡ ok 10 (scene text size b)
unfolding x_base_field_write_buf x_base_field_files x_base_field_io_fields elem_n rest_n x_base
    x_firstobj x_restobj x_obj_data_i load unit_at
scene-field text size b = refl

scene-Buffered :
    (text size : ℕ) (b : List ℕ)
    → Buffered (scene text size b) 1 20 21 200 text size 1 b 12 (obj 0 102 0 (1 ∷ []))
scene-Buffered text size b = record {
  rest = 22;
  count = 23;
  field = 10;
  buf = 11;
  at_args = record {
    obj = obj 0 101 0 (21 ∷ 22 ∷ []);
    at = record { ne_null = omega arith; holds = refl };
    same = refl;
  };
  at_rest = record {
    obj = obj 0 101 0 (23 ∷ 0 ∷ []);
    at = record { ne_null = omega arith; holds = refl };
    same = refl;
  };
  at_count = record {
    obj = obj 0 102 0 (size ∷ []);
    at = record { ne_null = omega arith; holds = refl };
    same = refl;
  };
  at_atom = record {
    obj = obj 0 102 0 (text ∷ []);
    at = record { ne_null = omega arith; holds = refl };
    same = refl;
  };
  is_set = scene-set text size b;
  is_field = scene-field text size b;
  at_field = record {
    obj = obj 0 101 0 (11 ∷ 0 ∷ []);
    at = record { ne_null = omega arith; holds = refl };
    same = refl;
  };
  at_buf = record {
    obj = obj 0 101 0 (200 ∷ 12 ∷ []);
    at = record { ne_null = omega arith; holds = refl };
    same = refl;
  };
  at_pos = record { ne_null = omega arith; holds = refl };
  pos_unit = refl;
  dst_set = omega arith;
  dst_bytes = refl;
}

abbrev room : List ℕ
room = 9 ∷ 0 ∷ 0 ∷ 0 ∷ []

write-Buffered_example :
    x_base_write sys 1 20 (scene 300 2 room)
    ≡ ok 21
        (advanced (scene 300 2 room) 200 1 2 (9 ∷ b'a' ∷ b'b' ∷ 0 ∷ []) 12 (obj 0 102 0 (1 ∷ [])))
write-Buffered_example =
    write-Buffered (scene-Buffered 300 2 room) sys {src = words} (omega arith) refl (omega arith)
      (inr (omega arith)) (omega arith) (omega arith)

abbrev letters : List ℕ
letters = b'a' ∷ b'b' ∷ b'c' ∷ b'd' ∷ []

-- The text is the buffer itself, and its first byte is repeated.
write-Copied_example :
    (r : List ℕ) × (x_base_write sys 1 20 (scene 200 3 letters)
      ≡ ok 21 (advanced (scene 200 3 letters) 200 1 3 r 12 (obj 0 102 0 (1 ∷ []))))
    × Copied letters r (source_of letters r 1 0) 1 0 3
write-Copied_example =
    write-Copied sys 0 (scene-Buffered 200 3 letters) (omega arith) (omega arith) (omega arith)

copies_itself : copy_within letters 1 0 3 ≡ some (b'a' ∷ b'a' ∷ b'a' ∷ b'a' ∷ [])
unfolding copy_within
copies_itself = refl
