-- ===== src/Obj/Field/Stack.antt =====
-- x_obj_push_field and x_obj_pop_field of src/x-obj.c as a stack.
use x_expr.Prelude.{ℕ, ◌*◌, ◌%◌, ◌^◌, ◌≡◌, refl, ◌≢◌, some, List, [], ◌∷◌, set, sym, ap, ◌∙◌}
use x_expr.Memory.{Word, Ptr, null, Obj, State, ok, ◌>>=◌, put_obj, and_then}
use x_expr.Memory.Points.{Points, Points-put, Points-put_other, put-put, put-same, with_units}
use x_expr.Sys.{System}
use x_expr.Obj.{x_obj_size}
use x_expr.Obj.Access.{x_firstobj-ok, x_restobj-ok, set_data_i-ok, unit_zero}
use x_expr.Obj.Free.{Bare}
use x_expr.Obj.Alloc.{x_mkspair}
use x_expr.Obj.Make.{Linked, made, whole, made-Points, made-other, make-made}
use x_expr.Obj.Field.{x_obj_push_field, x_obj_pop_field}

-- Writing a unit back gives the object back.
set-back : {us vs : List Word} {a : Word} (w : Word) → us ≡ a ∷ vs → us ≡ set (set us 0 w) 0 a
set-back w h = rw h

-- The state with the popped pair left behind the base.
abbrev pub with_pair : System → State → (base link p : Ptr) → ℕ → (value old : Word) → State
with_pair sys s base link p flags value old =
    made s base p (whole link sys.pair_type flags (value ∷ old ∷ []))

module _ (sys : System) {s : State} {base link cell : Ptr} {c : Obj} {old : Word} {us : List Word}
    (value p : Ptr) (flags : ℕ) (at_cell : Points s cell c) (holds : c.units ≡ old ∷ us) where
  module _ (bare : Bare s base) (linked : Linked s base link)
      (got : sys.malloc s (x_obj_size * 5 % 2 ^ 64) ≡ p) (ne : p ≢ null) (other : p ≢ base)
      (apart : cell ≢ base) (apart' : cell ≢ p) where
    abbrev pub after : State
    after = with_pair sys s base link p flags value old

    there : Points after cell c
    there =
        made-other s base p (whole link sys.pair_type flags (value ∷ old ∷ [])) at_cell apart apart'

    abbrev pub top_obj : Obj
    top_obj = record c { units = set c.units 0 p }

    top : Points (put_obj after cell (some top_obj)) cell top_obj
    top = Points-put after cell top_obj at_cell.ne_null

    top_units : top_obj.units ≡ p ∷ us
    top_units = rw holds

    pair :
        Points
          (put_obj after cell (some top_obj))
          p
          (whole link sys.pair_type flags (value ∷ old ∷ []))
    pair =
        Points-put_other cell (some top_obj)
          (made-Points s base p (whole link sys.pair_type flags (value ∷ old ∷ [])) ne other)
          (λ e. apart' (sym e))

    restored : after.objs cell ≡ some (record c { units = set (set c.units 0 p) 0 old })
    restored = there.holds ∙ ap some (sym (with_units c (set-back p holds)))

    pub pushes :
        x_obj_push_field sys base cell value flags s ≡ ok value (put_obj after cell (some top_obj))
    unfolding x_obj_push_field x_mkspair
    pushes = rw (
      x_firstobj-ok at_cell holds,
      make-made sys sys.pair_type flags p (value ∷ old ∷ []) bare linked got ne other,
      set_data_i-ok there 0 p (unit_zero holds),
      x_firstobj-ok top top_units,
      x_firstobj-ok pair refl,
    )

    pops :
        x_obj_pop_field cell (put_obj after cell (some top_obj))
        ≡ ok value (
            put_obj
              (put_obj after cell (some top_obj))
              cell
              (some (record c { units = set (set c.units 0 p) 0 old })))
    unfolding x_obj_pop_field
    pops = rw (
      x_firstobj-ok top top_units,
      x_firstobj-ok pair refl,
      x_firstobj-ok top top_units,
      x_restobj-ok pair refl,
      set_data_i-ok top 0 old (unit_zero top_units),
    )

    -- With a base that is NULL or has no type, a field whose cell is neither the base nor the new
    -- pair, and malloc answering the request with an address that is neither NULL nor the base:
    -- x_obj_push_field and then x_obj_pop_field end with the pushed value, and the field is as
    -- before. All that is left is the pair of the value and the old head, linked behind the base.
    pub push_field-pop_field :
        (x_obj_push_field sys base cell value flags >>= λ _. x_obj_pop_field cell) s
        ≡ ok value (with_pair sys s base link p flags value old)
    push_field-pop_field =
        ap (λ r. and_then r λ _. x_obj_pop_field cell) pushes
        ∙ pops
        ∙ ap (ok value) (put-put after cell (some top_obj) _ ∙ put-same after cell restored)
