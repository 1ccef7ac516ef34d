-- ===== src/Obj/TypeInfo/Named.antt =====
-- x_obj_type_name of src/x-obj.c for the types that the library knows itself.
use x_expr.Prelude.{
  ◌≡◌, ◌⊎◌, inl, inr, true, ◌||◌, Option, none, some, [], ◌∷◌, ◌==◌, if◌then◌else◌, arith, ap, ◌∙◌,
  sym, subst, Bool-cases, eq_of_==,
}
use x_expr.Memory.{Ptr, null, Obj, State, ok, put_obj}
use x_expr.Memory.Points.{Points, not_null}
use x_expr.Sys.{System}
use x_expr.Obj.{x_obj_flag_none, x_obj_isnil}
use x_expr.Obj.Access.{x_obj_type-ok, isspair-ok, issatom-ok}
use x_expr.Obj.Static.{
  x_obj_set, Loaded, atom_type, pair_type, units_atom, units_pair, length_atom, length_pair,
}
use x_expr.Obj.TypeInfo.{unwrap, x_obj_prim_type_name, x_obj_type_name}
use x_expr.Obj.TypeInfo.Builtin.{
  arg_pair, Free, Statics, within, args-there, with_args-ok, subject-ok, unwrap-ok, unwrap-nil,
}

-- The names of the types that the library knows itself.
abbrev pub builtin_name : System → Ptr → Option Ptr
builtin_name sys type =
    if type == sys.pair_type
    then some sys.pair_name
    else if type == sys.atom_type
    then some sys.atom_name
    else if type == null
    then some sys.nil_name
    else none

name-cases :
    (sys : System) (type : Ptr) {n : Ptr}
    → builtin_name sys type ≡ some n
    → ((type ≡ sys.pair_type) × (n ≡ sys.pair_name))
      ⊎ ((type ≡ sys.atom_type) × (n ≡ sys.atom_name))
      ⊎ ((type ≡ null) × (n ≡ sys.nil_name))
name-cases sys type h = elim (Bool-cases (type == sys.pair_type)) [
  | inl pair ↦ inl (eq_of_== type sys.pair_type pair, ground (arith, pair, h))
  | inr other ↦ elim (Bool-cases (type == sys.atom_type)) [
    | inl atom ↦ inr (inl (eq_of_== type sys.atom_type atom, ground (arith, other, atom, h)))
    | inr foreign ↦ elim (Bool-cases (type == null)) [
      | inl nil ↦ inr (inr (eq_of_== type null nil, ground (arith, other, foreign, nil, h)))
      | inr unknown ↦ absurd (ground (arith, other, foreign, unknown, h))
    ]
  ]
]

pub Loaded-Statics : {sys : System} {s : State} → Loaded sys s → Statics sys s
Loaded-Statics {sys} load = record {
  units_atom = load sys.units_atom _ units_atom;
  units_pair = load sys.units_pair _ units_pair;
  length_atom = load sys.length_atom _ length_atom;
  length_pair = load sys.length_pair _ length_pair;
}

module _ {sys : System} {s : State} (free : Free sys s) (load : Loaded sys s) (base : Ptr) {p : Ptr}
    {o : Obj} (e : Points s p o) where
  abbrev inside : State
  inside = put_obj s (sys.frame s) (some (arg_pair base p))

  prim_name :
      (o.type == sys.atom_type || o.type == sys.pair_type || o.type == null) ≡ true
      → x_obj_prim_type_name sys base (sys.frame s) inside ≡ ok o.type inside
  unfolding x_obj_prim_type_name x_obj_isnil
  prim_name known =
      let e' = within free base p e in
      rw (
        subject-ok (args-there free base p),
        not_null e,
        issatom-ok e' sys,
        isspair-ok e' sys,
        x_obj_type-ok e',
        known,
      )

  named :
      {n : Ptr}
      → (o.type == sys.atom_type || o.type == sys.pair_type || o.type == null) ≡ true
      → Points s o.type (x_obj_set null x_obj_flag_none (n ∷ []))
      → x_obj_type_name sys base p s ≡ ok n s
  unfolding x_obj_type_name
  named known at =
      with_args-ok free base p (λ x. unwrap sys.nil_name (x_obj_prim_type_name sys base x))
        (unwrap-ok sys.nil_name (x_obj_prim_type_name sys base (sys.frame s)) (prim_name known)
          (within free base p at))

  unnamed : o.type ≡ null → x_obj_type_name sys base p s ≡ ok sys.nil_name s
  unfolding x_obj_type_name
  unnamed nil =
      let known : (o.type == sys.atom_type || o.type == sys.pair_type || o.type == null) ≡ true =
        ground (arith, nil) in
      with_args-ok free base p (λ x. unwrap sys.nil_name (x_obj_prim_type_name sys base x))
        (unwrap-nil sys.nil_name (x_obj_prim_type_name sys base (sys.frame s))
          (prim_name known ∙ ap (λ q. ok q inside) nil))

  pub type_name-builtin :
      {n : Ptr} → builtin_name sys o.type ≡ some n → x_obj_type_name sys base p s ≡ ok n s
  type_name-builtin {n} h = elim (name-cases sys o.type h) [
    | inl (pair, name) ↦
        let known : (o.type == sys.atom_type || o.type == sys.pair_type || o.type == null) ≡ true =
          ground (arith, pair) in
        named known (
          subst (λ q. Points s q (x_obj_set null x_obj_flag_none (n ∷ []))) (sym pair)
            (rw name (load sys.pair_type _ pair_type)))
    | inr (inl (atom, name)) ↦
        let known : (o.type == sys.atom_type || o.type == sys.pair_type || o.type == null) ≡ true =
          ground (arith, atom) in
        named known (
          subst (λ q. Points s q (x_obj_set null x_obj_flag_none (n ∷ []))) (sym atom)
            (rw name (load sys.atom_type _ atom_type)))
    | inr (inr (nil, name)) ↦ unnamed nil ∙ ap (λ m. ok m s) (sym name)
  ]
