-- ===== src/Obj/TypeInfo/Unknown.antt =====
-- x_obj_units, x_obj_length and x_obj_type_name of src/x-obj.c where nothing is known of the object.
use x_expr.Prelude.{◌≡◌, false, none, some, ◌==◌, arith}
use x_expr.Memory.{Ptr, null, Obj, State, ok, Cmd, put_obj}
use x_expr.Memory.Points.{Points, not_null}
use x_expr.Sys.{System}
use x_expr.Obj.{x_obj_isnil}
use x_expr.Obj.Access.{x_obj_type-ok, isspair-ok, issatom-ok}
use x_expr.Base.{
  x_base_isset, x_base_field_hook_units, x_base_field_hook_length, x_base_field_hook_type_name,
}
use x_expr.Obj.TypeInfo.{
  unwrap, dispatch_hook, x_obj_prim_type_name, x_obj_type_name, x_obj_prim_units, x_obj_units,
  x_obj_prim_length, x_obj_length,
}
use x_expr.Obj.TypeInfo.Builtin.{
  builtin_size, arg_pair, Free, within, args-there, with_args-ok, subject-ok, unwrap-nil,
}

-- NULL, or without a base an object whose type the library does not know.
pub data Unknown (sys : System) (s : State) (base : Ptr) : Ptr → Type 0 where
  nil : Unknown sys s base null
  foreign :
      {p : Ptr} {o : Obj}
      → Points s p o
      → builtin_size sys o.type ≡ none
      → base ≡ null
      → Unknown sys s base p

not_pair :
    (sys : System) (type : Ptr) → builtin_size sys type ≡ none → (type == sys.pair_type) ≡ false
not_pair sys type h = ground (arith, h)

not_atom :
    (sys : System) (type : Ptr) → builtin_size sys type ≡ none → (type == sys.atom_type) ≡ false
not_atom sys type h = ground (arith, h)

not_nil : (sys : System) (type : Ptr) → builtin_size sys type ≡ none → (type == null) ≡ false
not_nil sys type h = ground (arith, h)

-- Without a base no hook is asked.
no_base_hook :
    (sys : System) (field : Cmd Ptr) (base args : Ptr) (t : State)
    → base ≡ null
    → dispatch_hook sys field base args t ≡ ok null t
unfolding dispatch_hook x_base_isset
no_base_hook sys field base args t h = rw h

-- The state in a call, with the local pair in place.
abbrev inside : System → State → (base p : Ptr) → State
inside sys s base p = put_obj s (sys.frame s) (some (arg_pair base p))

module _ {sys : System} {s : State} (free : Free sys s) (base : Ptr) where
  prim_units-Unknown :
      {p : Ptr}
      → Unknown sys s base p
      → x_obj_prim_units sys base (sys.frame s) (inside sys s base p)
        ≡ ok null (inside sys s base p)
  unfolding x_obj_prim_units x_obj_isnil
  prim_units-Unknown nil = rw (subject-ok (args-there free base null))
  prim_units-Unknown (foreign {p} {o} e h none_set) =
      let e' = within free base p e in
      rw
        (
          subject-ok (args-there free base p),
          not_null e,
          isspair-ok e' sys,
          not_pair sys o.type h,
          issatom-ok e' sys,
          not_atom sys o.type h,
          x_obj_type-ok e',
          not_nil sys o.type h,
        )
        (no_base_hook sys (x_base_field_hook_units base) base (sys.frame s) (inside sys s base p)
          none_set)

  prim_length-Unknown :
      {p : Ptr}
      → Unknown sys s base p
      → x_obj_prim_length sys base (sys.frame s) (inside sys s base p)
        ≡ ok null (inside sys s base p)
  unfolding x_obj_prim_length x_obj_isnil
  prim_length-Unknown nil = rw (subject-ok (args-there free base null))
  prim_length-Unknown (foreign {p} {o} e h none_set) =
      let e' = within free base p e in
      rw
        (
          subject-ok (args-there free base p),
          not_null e,
          isspair-ok e' sys,
          not_pair sys o.type h,
          issatom-ok e' sys,
          not_atom sys o.type h,
          x_obj_type-ok e',
          not_nil sys o.type h,
        )
        (no_base_hook sys (x_base_field_hook_length base) base (sys.frame s) (inside sys s base p)
          none_set)

  prim_type_name-Unknown :
      {p : Ptr}
      → Unknown sys s base p
      → x_obj_prim_type_name sys base (sys.frame s) (inside sys s base p)
        ≡ ok null (inside sys s base p)
  unfolding x_obj_prim_type_name x_obj_isnil
  prim_type_name-Unknown nil = rw (subject-ok (args-there free base null))
  prim_type_name-Unknown (foreign {p} {o} e h none_set) =
      let e' = within free base p e in
      rw
        (
          subject-ok (args-there free base p),
          not_null e,
          issatom-ok e' sys,
          not_atom sys o.type h,
          isspair-ok e' sys,
          not_pair sys o.type h,
          x_obj_type-ok e',
          not_nil sys o.type h,
        )
        (no_base_hook sys (x_base_field_hook_type_name base) base (sys.frame s)
          (inside sys s base p) none_set)

  -- With a free address for the local pair: for NULL with any base, and without a base for an
  -- object whose type is neither built in nor NULL, x_obj_units returns 1, x_obj_length returns 0
  -- and x_obj_type_name returns X_TYPE_NIL_NAME, and the state is as before.
  pub units-Unknown :
      {p : Ptr}
      → Unknown sys s base p
      → (x_obj_units sys base p s ≡ ok 1 s)
        × (x_obj_length sys base p s ≡ ok 0 s)
        × (x_obj_type_name sys base p s ≡ ok sys.nil_name s)
  unfolding x_obj_units x_obj_length x_obj_type_name
  units-Unknown {p} u = (
    with_args-ok free base p (λ x. unwrap 1 (x_obj_prim_units sys base x))
        (unwrap-nil 1 (x_obj_prim_units sys base (sys.frame s)) (prim_units-Unknown u)),
    with_args-ok free base p (λ x. unwrap 0 (x_obj_prim_length sys base x))
        (unwrap-nil 0 (x_obj_prim_length sys base (sys.frame s)) (prim_length-Unknown u)),
    with_args-ok free base p (λ x. unwrap sys.nil_name (x_obj_prim_type_name sys base x))
        (unwrap-nil sys.nil_name (x_obj_prim_type_name sys base (sys.frame s))
          (prim_type_name-Unknown u)),
  )
