-- ===== src/Obj/TypeInfo/Builtin.antt =====
-- x_obj_units, x_obj_length and x_obj_type_name of src/x-obj.c where no hook is asked.
use x_expr.Prelude.{
  ◌≡◌, refl, ◌≢◌, ◌⊎◌, inl, inr, true, false, ◌||◌, Option, none, some, [], ◌∷◌, arith, ◌==◌,
  if◌then◌else◌, ap, ◌∙◌, fun_ext, Bool-cases, eq_of_==,
}
use x_expr.Memory.{Word, Ptr, null, Obj, State, ok, Cmd, put_obj, and_then}
use x_expr.Memory.Points.{Points, not_null, Points-put, Points-put_other}
use x_expr.Sys.{System}
use x_expr.Obj.{x_obj_flag_none, x_obj_isnil}
use x_expr.Obj.Access.{x_obj_type-ok, isspair-ok, issatom-ok, x_firstobj-ok}
use x_expr.Obj.TypeInfo.{
  with_args, unwrap, subject, x_atom_prim_units, x_pair_prim_units, x_obj_prim_units, x_obj_units,
  x_atom_prim_length, x_pair_prim_length, x_obj_prim_length, x_obj_length,
}

-- x_obj_set(NULL, X_OBJ_FLAG_NONE, {.i = n})
abbrev pub static : Word → Obj
static n = record { heap = null; type = null; flags = x_obj_flag_none; units = n ∷ []; before = [] }

-- The units of the types that the library knows itself.
abbrev pub builtin_size : System → Ptr → Option Word
builtin_size sys type =
    if type == sys.pair_type
    then some 2
    else if type == sys.atom_type || type == null
    then some 1
    else none

-- The local argument pair of a call about `p`.
abbrev pub arg_pair : (base p : Ptr) → Obj
arg_pair base p = record {
  heap = null;
  type = null;
  flags = x_obj_flag_none;
  units = p ∷ base ∷ [];
  before = [];
}

-- The static objects of x-obj.c with the numbers that their initialisers give them.
pub record Statics (sys : System) (s : State) : Type 0 where
  pub units_atom : Points s sys.units_atom (static 1)
  pub units_pair : Points s sys.units_pair (static 2)
  pub length_atom : Points s sys.length_atom (static 1)
  pub length_pair : Points s sys.length_pair (static 2)

-- The local object's address is free.
pub record Free (sys : System) (s : State) : Type 0 where
  pub ne_null : sys.frame s ≢ null
  pub unused : s.objs (sys.frame s) ≡ none

module _ {sys : System} {s : State} (free : Free sys s) where
  -- Dropping the local pair gives back the state.
  drop-args : (o : Obj) → put_obj (put_obj s (sys.frame s) (some o)) (sys.frame s) none ≡ s
  drop-args o =
      ap (λ f. record s { objs = f })
        (fun_ext λ q. elim (Bool-cases (q == sys.frame s)) [
          | inl same ↦
              let e : s.objs q ≡ none = rw (eq_of_== q (sys.frame s) same) free.unused in
              rw (same, e)
          | inr other ↦ rw other
        ])

  -- An object is elsewhere than the local pair.
  elsewhere : {p : Ptr} {o : Obj} → Points s p o → p ≢ sys.frame s
  elsewhere e h = ground (arith, free.unused, e.holds, h)

  pub within :
      (base p : Ptr) {q : Ptr} {o : Obj}
      → Points s q o
      → Points (put_obj s (sys.frame s) (some (arg_pair base p))) q o
  within base p e = Points-put_other (sys.frame s) (some (arg_pair base p)) e (elsewhere e)

  pub args-there :
      (base p : Ptr)
      → Points (put_obj s (sys.frame s) (some (arg_pair base p))) (sys.frame s) (arg_pair base p)
  args-there base p = Points-put s (sys.frame s) (arg_pair base p) free.ne_null

  -- A call whose body only reads leaves the state as it was.
  pub with_args-ok :
      {A : Type 0} (base p : Ptr) (call : Ptr → Cmd A) {a : A}
      → call (sys.frame s) (put_obj s (sys.frame s) (some (arg_pair base p)))
        ≡ ok a (put_obj s (sys.frame s) (some (arg_pair base p)))
      → with_args sys base p call s ≡ ok a s
  unfolding with_args
  with_args-ok base p call {a} h =
      ap (λ r. and_then r λ a t. ok a (put_obj t (sys.frame s) none)) h
      ∙ ap (ok a) (drop-args (arg_pair base p))

-- The subject of a primitive that gets the local pair.
pub subject-ok :
    {t : State} {args base p : Ptr} → Points t args (arg_pair base p) → subject args t ≡ ok p t
unfolding subject x_obj_isnil
subject-ok a = rw (not_null a) (x_firstobj-ok a refl)

pub unwrap-ok :
    {t : State} {q : Ptr} (default : Word) {n : Word} (prim : Cmd Ptr)
    → prim t ≡ ok q t
    → Points t q (static n)
    → unwrap default prim t ≡ ok n t
unfolding unwrap x_obj_isnil
unwrap-ok default prim h e = rw (h, not_null e) (x_firstobj-ok e refl)

pub unwrap-nil :
    {t : State} (default : Word) (prim : Cmd Ptr)
    → prim t ≡ ok null t
    → unwrap default prim t ≡ ok default t
unfolding unwrap x_obj_isnil
unwrap-nil default prim h = rw h

module _ (sys : System) {t : State} {args base p : Ptr} {o : Obj}
    (a : Points t args (arg_pair base p)) (e : Points t p o) where
  prim_units-pair :
      (o.type == sys.pair_type) ≡ true → x_obj_prim_units sys base args t ≡ ok sys.units_pair t
  unfolding x_obj_prim_units x_obj_isnil x_pair_prim_units
  prim_units-pair pair = rw (subject-ok a, not_null e, isspair-ok e sys, pair)

  prim_length-pair :
      (o.type == sys.pair_type) ≡ true → x_obj_prim_length sys base args t ≡ ok sys.length_pair t
  unfolding x_obj_prim_length x_obj_isnil x_pair_prim_length
  prim_length-pair pair = rw (subject-ok a, not_null e, isspair-ok e sys, pair)

  prim_units-atom :
      (o.type == sys.pair_type) ≡ false
      → (o.type == sys.atom_type || o.type == null) ≡ true
      → x_obj_prim_units sys base args t ≡ ok sys.units_atom t
  unfolding x_obj_prim_units x_obj_isnil x_atom_prim_units
  prim_units-atom other atom =
      rw
        (subject-ok a, not_null e, isspair-ok e sys, other, issatom-ok e sys, x_obj_type-ok e, atom)

  prim_length-atom :
      (o.type == sys.pair_type) ≡ false
      → (o.type == sys.atom_type || o.type == null) ≡ true
      → x_obj_prim_length sys base args t ≡ ok sys.length_atom t
  unfolding x_obj_prim_length x_obj_isnil x_atom_prim_length
  prim_length-atom other atom =
      rw
        (subject-ok a, not_null e, isspair-ok e sys, other, issatom-ok e sys, x_obj_type-ok e, atom)

-- A type that the library knows is the pair type, with two units, or else the atom type or none, with
-- one.
builtin-cases :
    (sys : System) (type : Ptr) {n : Word}
    → builtin_size sys type ≡ some n
    → (((type == sys.pair_type) ≡ true) × (n ≡ 2))
      ⊎ (((type == sys.pair_type) ≡ false)
          × ((type == sys.atom_type || type == null) ≡ true)
          × (n ≡ 1))
builtin-cases sys type h = elim (Bool-cases (type == sys.pair_type)) [
  | inl pair ↦ inl (pair, ground (arith, pair, h))
  | inr other ↦ inr (other, ground (arith, other, h), ground (arith, other, h))
]

module _ {sys : System} {s : State} (free : Free sys s) (statics : Statics sys s) (base : Ptr)
    {p : Ptr} {o : Obj} (e : Points s p o) where
  inside : Points (put_obj s (sys.frame s) (some (arg_pair base p))) p o
  inside = within free base p e

  there : Points (put_obj s (sys.frame s) (some (arg_pair base p))) (sys.frame s) (arg_pair base p)
  there = args-there free base p

  units-by :
      {q : Ptr} {n : Word}
      → x_obj_prim_units sys base (sys.frame s) (put_obj s (sys.frame s) (some (arg_pair base p)))
        ≡ ok q (put_obj s (sys.frame s) (some (arg_pair base p)))
      → Points (put_obj s (sys.frame s) (some (arg_pair base p))) q (static n)
      → x_obj_units sys base p s ≡ ok n s
  unfolding x_obj_units
  units-by h at =
      with_args-ok free base p (λ x. unwrap 1 (x_obj_prim_units sys base x))
        (unwrap-ok 1 (x_obj_prim_units sys base (sys.frame s)) h at)

  length-by :
      {q : Ptr} {n : Word}
      → x_obj_prim_length sys base (sys.frame s) (put_obj s (sys.frame s) (some (arg_pair base p)))
        ≡ ok q (put_obj s (sys.frame s) (some (arg_pair base p)))
      → Points (put_obj s (sys.frame s) (some (arg_pair base p))) q (static n)
      → x_obj_length sys base p s ≡ ok n s
  unfolding x_obj_length
  length-by h at =
      with_args-ok free base p (λ x. unwrap 0 (x_obj_prim_length sys base x))
        (unwrap-ok 0 (x_obj_prim_length sys base (sys.frame s)) h at)

  -- With the static units and length objects in place and a free address for the local pair: for an
  -- object of the built-in pair or atom type, or without a type, x_obj_units and x_obj_length both
  -- return the units of that type, 2 for a pair and else 1, for any base, and the state is as
  -- before.
  pub units-builtin :
      {n : Word}
      → builtin_size sys o.type ≡ some n
      → (x_obj_units sys base p s ≡ ok n s) × (x_obj_length sys base p s ≡ ok n s)
  units-builtin {n} h = elim (builtin-cases sys o.type h) [
    | inl (pair, two) ↦ rw two (
      units-by (prim_units-pair sys there inside pair) (within free base p statics.units_pair),
      length-by (prim_length-pair sys there inside pair) (within free base p statics.length_pair),
    )
    | inr (other, atom, one) ↦ rw one (
      units-by (prim_units-atom sys there inside other atom)
          (within free base p statics.units_atom),
      length-by (prim_length-atom sys there inside other atom)
          (within free base p statics.length_atom),
    )
  ]
