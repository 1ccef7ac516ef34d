-- ===== src/Tests/Reporting.antt =====
-- An error about an atom at 60 whose text is "x", without a base.
use x_expr.Prelude.{◌≡◌, refl, none, [], ◌∷◌, arith}
use x_expr.Memory.{State, ok}
use x_expr.Strings.Laws.{done, more}
use x_expr.Base.{x_base_isset}
use x_expr.Error.{stderr_fileno, error_prefix, error_quote, error_hook, x_obj_error}
use x_expr.Error.Reported.{wrote_all, a_text, error-Subject}
use x_expr.Tests.Scene.{at, obj, sys}

abbrev faulty : State
faulty = record {
  objs = at ((60, obj 0 102 0 (71 ∷ [])) ∷ []);
  blocks = at [];
  buffers = at ((70, b'n' ∷ b'o' ∷ 0 ∷ []) ∷ (71, b'x' ∷ 0 ∷ []) ∷ []);
  calls = [];
}

faulty-hook : error_hook sys 0 faulty ≡ ok none faulty
unfolding error_hook x_base_isset
faulty-hook = refl

error-Subject_example :
    x_obj_error sys 0 70 60 faulty
    ≡ ok tt (
        wrote_all faulty stderr_fileno
          (error_prefix ∷ (b'n' ∷ b'o' ∷ []) ∷ error_quote ∷ (b'x' ∷ []) ∷ []))
error-Subject_example =
    error-Subject sys 0 faulty-hook
      (record {
        ne_null = omega arith;
        post = [];
        holds = refl;
        no_nul = more (omega arith) (more (omega arith) done);
      })
      (a_text {o = obj 0 102 0 (71 ∷ [])} (record { ne_null = omega arith; holds = refl }) refl refl
        (record {
          ne_null = omega arith;
          post = [];
          holds = refl;
          no_nul = more (omega arith) done;
        }))
