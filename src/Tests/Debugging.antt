-- ===== src/Tests/Debugging.antt =====
-- An atom at 60 that holds 9 and has the flag of a shared object, and a printf that copies the format
-- up to its first conversion.
use x_expr.Prelude.{ℕ, ◌≡◌, refl, ◌≢◌, some, List, [], ◌∷◌, ◌==◌, if◌then◌else◌, replicate, arith}
use x_expr.Memory.{State, ok, put_obj}
use x_expr.Sys.{put_buffer, buffer_at}
use x_expr.Strings.{x_lib_strlen, strlen_loop}
use x_expr.Strings.Laws.{Text, done, more}
use x_expr.Number.Digits.{numeral}
use x_expr.Error.{stderr_fileno, string_at}
use x_expr.Debug.{Printf, debug_head, dump_format, flag_text, x_obj_dump}
use x_expr.Debug.Flags.{flag_text-numeral}
use x_expr.Debug.Written.{Conforming, reported}
use x_expr.Debug.Dump.{shown, dump-atom}
use x_expr.Memory.Points.{Points}
use x_expr.Obj.Static.{
  Loaded, atom_type, pair_type, units_atom, units_pair, length_atom, length_pair, true_obj,
  false_obj,
}
use x_expr.Obj.TypeInfo.Builtin.{Free}
use x_expr.Tests.Scene.{obj, sys}
use x_expr.Tests.Typed.{loaded}

abbrev up_to_percent : List ℕ → List ℕ
up_to_percent [] = []
up_to_percent (c ∷ s) = let rest = up_to_percent s in if c == b'%' then [] else c ∷ rest

abbrev cut : Printf
cut = record { sprintf = λ fmt args. up_to_percent fmt; stack = λ n. replicate n 7 }

cut-Conforming : Conforming cut
cut-Conforming = record {
  opening = refl;
  closing = refl;
  hexadecimal = λ n. omega arith;
  flag_buffer = refl;
}

flag_text-numeral_example : flag_text cut 0x120 ≡ some (numeral 64 2 0x120)
flag_text-numeral_example = flag_text-numeral cut 0x120 refl (omega arith)

abbrev atom_there : State
atom_there = put_buffer (put_obj loaded 60 (some (obj 0 102 0x100 (9 ∷ [])))) 121 (b'A' ∷ 0 ∷ [])

atom_there-Loaded : Loaded sys atom_there
atom_there-Loaded q o atom_type = record { ne_null = omega arith; holds = refl }
atom_there-Loaded q o pair_type = record { ne_null = omega arith; holds = refl }
atom_there-Loaded q o units_atom = record { ne_null = omega arith; holds = refl }
atom_there-Loaded q o units_pair = record { ne_null = omega arith; holds = refl }
atom_there-Loaded q o length_atom = record { ne_null = omega arith; holds = refl }
atom_there-Loaded q o length_pair = record { ne_null = omega arith; holds = refl }
atom_there-Loaded q o true_obj = record { ne_null = omega arith; holds = refl }
atom_there-Loaded q o false_obj = record { ne_null = omega arith; holds = refl }

atom_there-Free : Free sys atom_there
atom_there-Free = record { ne_null = omega arith; unused = refl }

atom_there-Points : Points atom_there 60 (obj 0 102 0x100 (9 ∷ []))
atom_there-Points = record { ne_null = omega arith; holds = refl }

types_apart : sys.atom_type ≢ sys.pair_type
types_apart = omega arith

type_set : sys.atom_type ≢ 0
type_set = omega arith

name_there : string_at 121 atom_there ≡ ok (b'A' ∷ []) atom_there
unfolding string_at buffer_at x_lib_strlen strlen_loop
name_there = refl

head-Text : Text (up_to_percent debug_head)
head-Text = more (omega arith) (
    more (omega arith) (
      more (omega arith) (
        more (omega arith) (
          more (omega arith) (
            more (omega arith) (
              more (omega arith) (
                more (omega arith)
                  (more (omega arith) (more (omega arith) (more (omega arith) (done)))))))))))

dump-atom_example :
    x_obj_dump cut sys (b'f' ∷ []) 7 0 60 0 atom_there
    ≡ ok tt (
        reported cut sys
          (b'f' ∷ [])
          7
          stderr_fileno
          dump_format
          (shown cut-Conforming atom_there-Free atom_there-Loaded types_apart type_set
            (b'f' ∷ [])
            7
            0
            atom_there-Points
            refl
            refl
            []
            (b'A' ∷ []))
          atom_there)
dump-atom_example =
    dump-atom cut-Conforming atom_there-Free atom_there-Loaded types_apart type_set (b'f' ∷ []) 7 0
      atom_there-Points refl refl 0 refl name_there (omega arith) head-Text (omega arith)
      (omega arith)
