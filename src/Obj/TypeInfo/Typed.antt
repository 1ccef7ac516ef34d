-- ===== src/Obj/TypeInfo/Typed.antt =====
-- What the dispatch of src/x-obj.c says of the objects that the constructors of include/x-obj.h make.
use x_expr.Prelude.{
  ℕ, ◌+◌, ◌*◌, ◌%◌, ◌^◌, ◌≡◌, refl, ◌≢◌, Bool, true, false, not, bit_or, none, some, List, [], ◌∷◌,
  ◌==◌, length, arith, ◌∙◌, sym, subst, ==_of_ne, ==_of_eq,
}
use x_expr.Memory.{Word, Ptr, null, Obj, State, ok, Cmd}
use x_expr.Sys.{System}
use x_expr.Obj.{x_obj_flag_own, x_obj_size, x_obj_type_issatom, x_obj_type_isspair}
use x_expr.Obj.Access.{isspair-ok, issatom-ok}
use x_expr.Obj.Alloc.{x_mksatom, x_mksatomown, x_mkspair}
use x_expr.Obj.Free.{Bare}
use x_expr.Obj.Make.{Linked, made, whole, make-made, made-Points, made-other}
use x_expr.Obj.Static.{Static, Loaded}
use x_expr.Obj.TypeInfo.{x_obj_type_name, x_obj_units, x_obj_length}
use x_expr.Obj.TypeInfo.Builtin.{builtin_size, Free, units-builtin}
use x_expr.Obj.TypeInfo.Named.{builtin_name, Loaded-Statics, type_name-builtin}

-- The constructors of include/x-obj.h by what they are given.
pub data Constructor : Type 0 where
  an_atom : Word → Constructor
  an_owner : Word → Constructor
  a_pair : (x y : Word) → Constructor

abbrev pub construct : System → Ptr → ℕ → Constructor → Cmd Ptr
construct sys base flags (an_atom x) = x_mksatom sys base flags x
construct sys base flags (an_owner x) = x_mksatomown sys base flags x
construct sys base flags (a_pair x y) = x_mkspair sys base flags x y

abbrev pub units_of : Constructor → List Word
units_of (an_atom x) = x ∷ []
units_of (an_owner x) = x ∷ []
units_of (a_pair x y) = x ∷ y ∷ []

abbrev pub is_atom_of : Constructor → Bool
is_atom_of (a_pair x y) = false
is_atom_of _ = true

abbrev pub name_of : System → Constructor → Ptr
name_of sys (a_pair x y) = sys.pair_name
name_of sys _ = sys.atom_name

-- What an object's type slot says: the predicates, the sizes and the name.
pub record Typed (sys : System) (base p : Ptr) (s : State) (atom pair : Bool) (size : ℕ)
    (name : Ptr) : Type 0 where
  pub is_atom : x_obj_type_issatom sys p s ≡ ok atom s
  pub is_pair : x_obj_type_isspair sys p s ≡ ok pair s
  pub units : x_obj_units sys base p s ≡ ok size s
  pub len : x_obj_length sys base p s ≡ ok size s
  pub named : x_obj_type_name sys base p s ≡ ok name s

module _ (sys : System) {s : State} {base link p : Ptr} (flags : ℕ)
    (distinct : sys.atom_type ≢ sys.pair_type) (load : Loaded sys s) (bare : Bare s base)
    (linked : Linked s base link) (set : p ≢ null) (fresh : s.objs p ≡ none) (off_base : p ≢ base)
    (off_static : (q : Ptr) (o : Obj) → Static sys q o → q ≢ base) where
  -- The static objects are still there.
  Loaded-made : (o : Obj) → Loaded sys (made s base p o)
  Loaded-made o q c st =
      made-other s base p o (load q c st) (off_static q c st)
        (λ e. ground (arith, (load q c st).holds, fresh, e))

  module _ (type : Ptr) (f : ℕ) (args : List Word) {n : ℕ} {name : Ptr}
      (size : builtin_size sys type ≡ some n) (called : builtin_name sys type ≡ some name) where
    abbrev new : Obj
    new = whole link type f args

    made-Typed :
        {t : State}
        → made s base p new ≡ t
        → Free sys t
        → Typed sys base p t (type == sys.atom_type) (type == sys.pair_type) n name
    made-Typed same free =
        subst
          (λ v.
            Free sys v → Typed sys base p v (type == sys.atom_type) (type == sys.pair_type) n name)
          same typed free
      where
        typed :
            Free sys (made s base p new)
            → Typed sys base p
                (made s base p new)
                (type == sys.atom_type)
                (type == sys.pair_type)
                n
                name
        typed free =
            let there = made-Points s base p new set off_base in
            let sizes = units-builtin free (Loaded-Statics (Loaded-made new)) base there size in
            record {
              is_atom = issatom-ok there sys;
              is_pair = isspair-ok there sys;
              units = sizes.0;
              len = sizes.1;
              named = type_name-builtin free (Loaded-made new) base there called;
            }

  atom-Typed :
      (f : ℕ) (x : Word) {t : State}
      → made s base p (whole link sys.atom_type f (x ∷ [])) ≡ t
      → Free sys t
      → Typed sys base p t true false 1 sys.atom_name
  atom-Typed f x same free =
      let other = ==_of_ne sys.atom_type sys.pair_type distinct in
      let itself = ==_of_eq sys.atom_type sys.atom_type refl in
      rw (itself, other) at
        (made-Typed sys.atom_type f (x ∷ []) {n = 1} {name = sys.atom_name} (ground (arith, other))
          (ground (arith, other)) same free)

  same_end : {q r : Ptr} {t u : State} → ok q t ≡ ok r u → t ≡ u
  same_end h = cc

  -- With a base that is NULL or has no type and is no static object, the static objects of x-obj.c
  -- in place, the atom and the pair type at different addresses, malloc answering the request with
  -- an address that is neither NULL nor the base and where no object is, and afterwards a free
  -- address for the local pair of a call: an object that x_mksatom, x_mksatomown or x_mkspair
  -- returned is recognised by x_obj_type_issatom or x_obj_type_isspair respectively and not by the
  -- other, x_obj_units and x_obj_length are the units that it was made with, and x_obj_type_name is
  -- the name of its type.
  pub construct-Typed :
      (k : Constructor) {t : State}
      → sys.malloc s (x_obj_size * (3 + length (units_of k)) % 2 ^ 64) ≡ p
      → construct sys base flags k s ≡ ok p t
      → Free sys t
      → Typed sys base p t (is_atom_of k) (not (is_atom_of k)) (length (units_of k)) (name_of sys k)
  unfolding x_mksatom x_mksatomown x_mkspair
  construct-Typed (an_atom x) got runs free =
      atom-Typed flags x
        (same_end
          (sym (make-made sys sys.atom_type flags p (x ∷ []) bare linked got set off_base) ∙ runs))
        free
  construct-Typed (an_owner x) got runs free =
      atom-Typed (bit_or flags x_obj_flag_own) x
        (same_end (
          sym (
            make-made sys sys.atom_type (bit_or flags x_obj_flag_own) p (x ∷ []) bare linked got set
              off_base)
          ∙ runs))
        free
  construct-Typed (a_pair x y) got runs free =
      let other = ==_of_ne sys.pair_type sys.atom_type (λ e. distinct (sym e)) in
      let itself = ==_of_eq sys.pair_type sys.pair_type refl in
      rw (itself, other) at
        (made-Typed sys.pair_type flags (x ∷ y ∷ []) {n = 2} {name = sys.pair_name} (rw itself refl)
          (rw itself refl)
          (same_end (
            sym (make-made sys sys.pair_type flags p (x ∷ y ∷ []) bare linked got set off_base)
            ∙ runs))
          free)
