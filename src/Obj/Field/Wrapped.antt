-- ===== src/Obj/Field/Wrapped.antt =====
-- x_obj_push and x_obj_pop of src/x-obj.c, which get the field's address in an atom.
use x_expr.Prelude.{◌+◌, ◌*◌, ◌%◌, ◌^◌, ◌≡◌, ◌≢◌, some, List, [], ◌∷◌, arith, set, sym, ap, ◌∙◌}
use x_expr.Memory.{Word, Ptr, null, Obj, State, ok, ◌>>=◌, put_obj, and_then}
use x_expr.Memory.Points.{Points, Points-put_other}
use x_expr.Sys.{System}
use x_expr.Obj.{x_obj_size, x_obj_meta_len, x_obj_flag_none, x_obj_isnil}
use x_expr.Obj.Access.{x_firstobj-ok, x_restobj-ok}
use x_expr.Obj.Free.{Bare}
use x_expr.Obj.Make.{Linked, whole, made-other}
use x_expr.Obj.Field.{cell_of, x_obj_push_field, x_obj_pop_field, x_obj_push, x_obj_pop}
use x_expr.Obj.Field.Stack.{with_pair, pushes, push_field-pop_field}

-- An object, its units, and that it is neither of two others.
pub record Cell (s : State) (base p cell : Ptr) (units : List Word) (q : Ptr) : Type 0 where
  pub obj : Obj
  pub at : Points s q obj
  pub is_units : obj.units ≡ units
  pub off_base : q ≢ base
  pub off_new : q ≢ p
  pub off_cell : q ≢ cell

-- The arguments (field value), and the argument (field), whose atom holds the field's address. None of
-- their objects is the base, the field's cell or the new pair at `p`.
pub record Arguments (s : State) (base p cell : Ptr) (value : Word) (push_args pop_args : Ptr)
    : Type 0 where
  pub atom : Ptr
  pub rest : Ptr
  pub pop_rest : Word
  pub at_push : Cell s base p cell (atom ∷ rest ∷ []) push_args
  pub at_rest : Cell s base p cell (value ∷ null ∷ []) rest
  pub at_pop : Cell s base p cell (atom ∷ pop_rest ∷ []) pop_args
  pub at_atom : Cell s base p cell ((cell + x_obj_size * x_obj_meta_len) ∷ []) atom

back_to_cell : (cell : Ptr) → cell_of (cell + x_obj_size * x_obj_meta_len) ≡ cell
back_to_cell cell = omega arith

module _ (sys : System) {s : State} {base cell : Ptr} (value p push_args pop_args : Ptr)
    (args : Arguments s base p cell value push_args pop_args) where
  push-push_field :
      x_obj_push sys base push_args s ≡ x_obj_push_field sys base cell value x_obj_flag_none s
  unfolding x_obj_push x_obj_isnil
  push-push_field = rw (
    x_firstobj-ok args.at_push.at args.at_push.is_units,
    x_firstobj-ok args.at_atom.at args.at_atom.is_units,
    x_restobj-ok args.at_push.at args.at_push.is_units,
    x_firstobj-ok args.at_rest.at args.at_rest.is_units,
    x_restobj-ok args.at_rest.at args.at_rest.is_units,
    back_to_cell cell,
  )

module _ (sys : System) {s : State} {base link cell : Ptr} {c : Obj} {old : Word} {us : List Word}
    (value p push_args pop_args : Ptr) (at_cell : Points s cell c) (holds : c.units ≡ old ∷ us)
    (args : Arguments s base p cell value push_args pop_args) where
  module _ (bare : Bare s base) (linked : Linked s base link)
      (got : sys.malloc s (x_obj_size * 5 % 2 ^ 64) ≡ p) (ne : p ≢ null) (other : p ≢ base)
      (apart : cell ≢ base) (apart' : cell ≢ p) where
    abbrev later : State
    later =
        put_obj (with_pair sys s base link p x_obj_flag_none value old) cell
          (some (record c { units = set c.units 0 p }))

    still : {q : Ptr} {units : List Word} (k : Cell s base p cell units q) → Points later q k.obj
    still k =
        Points-put_other cell _
          (made-other s base p (whole link sys.pair_type x_obj_flag_none (value ∷ old ∷ [])) k.at
            k.off_base k.off_new)
          k.off_cell

    pop-pop_field : x_obj_pop pop_args later ≡ x_obj_pop_field cell later
    unfolding x_obj_pop
    pop-pop_field = rw (
      x_firstobj-ok (still args.at_pop) args.at_pop.is_units,
      x_firstobj-ok (still args.at_atom) args.at_atom.is_units,
      back_to_cell cell,
    )

    -- Under the conditions of the push and pop of a field, with the field's address in an atom,
    -- x_obj_push of the arguments (field value) and then x_obj_pop of (field) end with the pushed
    -- value, and the field is as before; none of the objects of the arguments is the base, the
    -- field's cell or the new pair. All that is left is the pair of the value and the old head,
    -- linked behind the base.
    pub x_obj_push-x_obj_pop :
        (x_obj_push sys base push_args >>= λ _. x_obj_pop pop_args) s
        ≡ ok value (with_pair sys s base link p x_obj_flag_none value old)
    x_obj_push-x_obj_pop =
        let pushed =
          pushes sys value p x_obj_flag_none at_cell holds bare linked got ne other apart apart' in
        ap (λ r. and_then r (λ _. x_obj_pop pop_args))
          (push-push_field sys value p push_args pop_args args ∙ pushed)
        ∙ pop-pop_field
        ∙ sym (ap (λ r. and_then r (λ _. x_obj_pop_field cell)) pushed)
        ∙ push_field-pop_field sys value p x_obj_flag_none at_cell holds bare linked got ne other
            apart apart'
