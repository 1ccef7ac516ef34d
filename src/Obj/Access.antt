-- ===== src/Obj/Access.antt =====
-- The macros of include/x-obj.h on an object that is known.
use x_expr.Prelude.{ℕ, ◌≡◌, List, ◌∷◌, ◌==◌, get_elem?, set, some}
use x_expr.Memory.{Word, Ptr, Obj, State, ok, put_obj}
use x_expr.Memory.Points.{Points, load-ok, unit_at-ok}
use x_expr.Sys.{System}
use x_expr.Obj.{
  x_obj_heap, set_heap, x_obj_type, x_obj_flags, set_flags, x_obj_data_i, set_data_i, x_firstobj,
  x_restobj, x_obj_type_issatom, x_obj_type_isspair,
}

pub unit_zero : {vs us : List Word} {a : Word} → vs ≡ a ∷ us → get_elem? vs 0 ≡ some a
unit_zero h = rw h

pub unit_one : {vs us : List Word} {a b : Word} → vs ≡ a ∷ b ∷ us → get_elem? vs 1 ≡ some b
unit_one h = rw h

module _ {s : State} {p : Ptr} {o : Obj} (e : Points s p o) where
  pub x_obj_heap-ok : x_obj_heap p s ≡ ok o.heap s
  unfolding x_obj_heap
  x_obj_heap-ok = rw (load-ok e)

  pub set_heap-ok : (q : Ptr) → set_heap p q s ≡ ok tt (put_obj s p (some (record o { heap = q })))
  unfolding set_heap
  set_heap-ok q = rw (load-ok e)

  pub x_obj_type-ok : x_obj_type p s ≡ ok o.type s
  unfolding x_obj_type
  x_obj_type-ok = rw (load-ok e)

  pub x_obj_flags-ok : x_obj_flags p s ≡ ok o.flags s
  unfolding x_obj_flags
  x_obj_flags-ok = rw (load-ok e)

  pub set_flags-ok : (f : ℕ) → set_flags p f s ≡ ok tt (put_obj s p (some (record o { flags = f })))
  unfolding set_flags
  set_flags-ok f = rw (load-ok e)

  pub isspair-ok : (sys : System) → x_obj_type_isspair sys p s ≡ ok (o.type == sys.pair_type) s
  unfolding x_obj_type_isspair
  isspair-ok sys = rw (load-ok e)

  pub issatom-ok : (sys : System) → x_obj_type_issatom sys p s ≡ ok (o.type == sys.atom_type) s
  unfolding x_obj_type_issatom
  issatom-ok sys = rw (load-ok e)

  pub data_i-ok : (i : ℕ) {w : Word} → get_elem? o.units i ≡ some w → x_obj_data_i p i s ≡ ok w s
  unfolding x_obj_data_i
  data_i-ok i h = rw (load-ok e, unit_at-ok o.units i s h)

  pub set_data_i-ok :
      (i : ℕ) (v : Word) {w : Word}
      → get_elem? o.units i ≡ some w
      → set_data_i p i v s ≡ ok tt (put_obj s p (some (record o { units = set o.units i v })))
  unfolding set_data_i
  set_data_i-ok i v h = rw (load-ok e, unit_at-ok o.units i s h)

  pub x_firstobj-ok : {a : Word} {us : List Word} → o.units ≡ a ∷ us → x_firstobj p s ≡ ok a s
  unfolding x_firstobj
  x_firstobj-ok {a} h = data_i-ok 0 (unit_zero h)

  pub x_restobj-ok : {a b : Word} {us : List Word} → o.units ≡ a ∷ b ∷ us → x_restobj p s ≡ ok b s
  unfolding x_restobj
  x_restobj-ok {b} h = data_i-ok 1 (unit_one h)
