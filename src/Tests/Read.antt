-- ===== src/Tests/Read.antt =====
-- A base whose input is descriptor 3, and the arguments of a read of two bytes into the atom at 21.
use x_expr.Prelude.{
  ◌≡◌, ◌≤◌, ◌↔◌, ◌⊎◌, List, refl, true, ℕ, some, [], ◌∷◌, arith, get_elem?, length,
}
use x_expr.Memory.{State, ok, load, unit_at, asked}
use x_expr.Memory.Bytes.{peek, Bytes, none_left, one_more}
use x_expr.Sys.{System, x_sys_read_char, x_sys_eof}
use x_expr.Sys.ReadChar.{got, read_value, read_char-Answered}
use x_expr.Obj.{x_obj_data_i, x_firstobj, x_restobj}
use x_expr.Base.{
  x_base, x_base_isset, rest_n, elem_n, x_base_field_io_fields, x_base_field_files,
  x_base_field_filein,
}
use x_expr.Base.Read.{x_base_read}
use x_expr.Base.Read.Outcome.{Asking, ending, read-Asking}
use x_expr.Tests.Scene.{at, obj, sys}

abbrev input : State
input = record {
  objs = at (
      (1, obj 0 100 0 (2 ∷ []))
      ∷ (2, obj 0 101 0 (0 ∷ 3 ∷ []))
      ∷ (3, obj 0 101 0 (4 ∷ 0 ∷ []))
      ∷ (4, obj 0 101 0 (5 ∷ 0 ∷ []))
      ∷ (5, obj 0 101 0 (0 ∷ 6 ∷ []))
      ∷ (6, obj 0 101 0 (7 ∷ 0 ∷ []))
      ∷ (7, obj 0 101 0 (8 ∷ 0 ∷ []))
      ∷ (8, obj 0 102 0 (3 ∷ []))
      ∷ (20, obj 0 101 0 (21 ∷ 22 ∷ []))
      ∷ (21, obj 0 102 0 (0 ∷ []))
      ∷ (22, obj 0 101 0 (23 ∷ 0 ∷ []))
      ∷ (23, obj 0 102 0 (2 ∷ []))
      ∷ []);
  blocks = at [];
  buffers = at [];
  calls = [];
}

abbrev rest_of_file : List ℕ
rest_of_file = b'x' ∷ []

-- The file has one byte left.
abbrev one_left : System
one_left = record sys { read = λ s fd size. (1, rest_of_file) }

input-set : x_base_isset 1 input ≡ ok true input
unfolding x_base_isset x_base x_firstobj x_obj_data_i load unit_at
input-set = refl

input-field : x_base_field_filein 1 input ≡ ok 7 input
unfolding x_base_field_filein x_base_field_files x_base_field_io_fields elem_n rest_n x_base
    x_firstobj x_restobj x_obj_data_i load unit_at
input-field = refl

input-Asking : Asking input 1 20 21 (obj 0 102 0 (0 ∷ [])) 23 (obj 0 102 0 (2 ∷ [])) 2 3
input-Asking = record {
  rest = 22;
  field = 7;
  fd_atom = 8;
  is_set = input-set;
  is_field = input-field;
  at_field = record {
    obj = obj 0 101 0 (8 ∷ 0 ∷ []);
    at = record { ne_null = omega arith; holds = refl };
    same = refl;
  };
  at_fd = record {
    obj = obj 0 102 0 (3 ∷ []);
    at = record { ne_null = omega arith; holds = refl };
    same = refl;
  };
  at_args = record {
    obj = obj 0 101 0 (21 ∷ 22 ∷ []);
    at = record { ne_null = omega arith; holds = refl };
    same = refl;
  };
  at_rest = record {
    obj = obj 0 101 0 (23 ∷ 0 ∷ []);
    at = record { ne_null = omega arith; holds = refl };
    same = refl;
  };
  at_count = record { ne_null = omega arith; holds = refl };
  count_unit = refl;
  at_atom = record { ne_null = omega arith; holds = refl };
  off_args = omega arith;
  off_rest = omega arith;
  off_count = omega arith;
  room = omega arith;
}

x-Bytes : Bytes rest_of_file
x-Bytes = one_more (omega arith) none_left

read-Asking_example :
    (us : List ℕ) × (x_base_read one_left 1 20 input ≡ ending one_left input-Asking us)
    × ((i : ℕ) (b : ℕ) → get_elem? rest_of_file i ≡ some b → peek us i ≡ some b)
    × ((i : ℕ) → length rest_of_file ≤ i → peek us i ≡ peek (0 ∷ []) i)
read-Asking_example = read-Asking one_left input-Asking (got b'x' [] x-Bytes (omega arith))

read_char-Answered_example :
    (x_sys_read_char one_left 3 input
      ≡ ok (read_value rest_of_file) (record input { calls = asked 3 1 ∷ [] }))
    × ((read_value rest_of_file ≡ x_sys_eof) ↔ ((rest_of_file ≡ []) ⊎ (rest_of_file ≡ 255 ∷ [])))
read_char-Answered_example = read_char-Answered one_left 3 (got b'x' [] x-Bytes (omega arith))
