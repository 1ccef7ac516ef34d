-- ===== src/Obj/Account/Invariant.antt =====
-- The account that a full base keeps of its objects in src/x-obj.c, as an invariant of the state.
use x_expr.Prelude.{
  ℕ, ◌%◌, ◌^◌, ◌≤◌, ◌≡◌, true, false, none, some, List, [], ◌∷◌, ◌==◌, ltb, length, refl, ap, ◌∙◌,
  ◌⊎◌, inl, inr, Option, Bool-cases, eq_of_==, bit_or, if◌then◌else◌,
}
use mathlib.Core.Option
use x_expr.Memory.{Word, Ptr, Obj, object, State, slt, put_obj}
use x_expr.Memory.Points.{Points}
use x_expr.Memory.Reads.{body, Extends}
use x_expr.Bits.{bit_and-bit_or, bit_and-bit_or_other}
use x_expr.Obj.{x_obj_flag_own, x_obj_flag_meta, has_flag}
use x_expr.Obj.Alloc.{Config}
use x_expr.Obj.Account.Live.{Live}

-- The base and its settings are in place, the objects at the addresses of the list are live and
-- distinct, the count is their number modulo the word, and a positive limit is not exceeded.
pub record Accounted (core : State) (base : Ptr) (c : Config) (a : Ptr) (s : State) (xs : List Ptr)
    : Type 0 where
  pub within : Extends core s
  pub ao : Obj
  pub at_count : Points s a ao
  pub count_unit : ao.units ≡ length xs % 2 ^ 64 ∷ []
  pub live : Live core c.extra a s xs
  pub bounded : slt 0 c.limit ≡ true → length xs ≤ c.limit

-- The flags that x_obj_alloc gives an object.
pub flag-kept :
    (extra : Word) (flags : ℕ)
    → has_flag flags x_obj_flag_own ≡ false
    → has_flag (if ltb 0 extra then bit_or flags x_obj_flag_meta else flags) x_obj_flag_own ≡ false
flag-kept extra flags h = elim (Bool-cases (ltb 0 extra)) [
  | inl some_units ↦
      rw (some_units, bit_and-bit_or_other flags x_obj_flag_meta x_obj_flag_own refl) h
  | inr no_units ↦ rw no_units h
]

pub flag-extended :
    (extra : Word) (flags : ℕ)
    → has_flag flags x_obj_flag_meta ≡ false
    → has_flag (if ltb 0 extra then bit_or flags x_obj_flag_meta else flags) x_obj_flag_meta
      ≡ ltb 0 extra
flag-extended extra flags h = elim (Bool-cases (ltb 0 extra)) [
  | inl some_units ↦ rw (some_units, bit_and-bit_or flags x_obj_flag_meta)
  | inr no_units ↦ rw no_units h
]

map-none : (o : Option Obj) → Option.map body o ≡ none → o ≡ none
map-none none h = refl
map-none (some o) h = absurd (cc)

-- A write that spares the core, or leaves the type and the units.
pub Extends-put :
    (core s : State) (p : Ptr) (o : Option Obj)
    → Extends core s
    → (core.objs p ≡ none) ⊎ (Option.map body (s.objs p) ≡ Option.map body o)
    → Extends core (put_obj s p o)
Extends-put core s p o ext h r = elim (Bool-cases (r == p)) [
  | inr other ↦ rw other (ext r)
  | inl here ↦
      rw (here, eq_of_== r p here)
        (elim h [
          | inl out ↦ inl out
          | inr same ↦ elim (ext p) [ inl out ↦ inl out | inr there ↦ inr (there ∙ same) ]
        ])
]

-- What is nowhere in the whole is not in the part.
pub Extends-none :
    (core s : State) (p : Ptr) → Extends core s → s.objs p ≡ none → core.objs p ≡ none
Extends-none core s p ext e = elim (ext p) [
  | inl out ↦ out
  | inr same ↦ map-none (core.objs p) (same ∙ ap (Option.map body) e)
]

pub same_object : {p q : Ptr} → some (object p) ≡ some (object q) → p ≡ q
same_object h = cc

pub tail_eq : {x : Word} {us vs : List Word} → x ∷ us ≡ x ∷ vs → us ≡ vs
tail_eq h = cc
