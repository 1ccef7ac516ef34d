-- ===== src/Tests/Roots.antt =====
-- A base at 1 whose root chain holds the pairs at 30, with a stale mark, and at 31.
use x_expr.Prelude.{
  ℕ, ◌≡◌, refl, inl, inr, Bool, true, false, ◌&&◌, ◌||◌, Option, none, some, List, [], ◌∷◌, arith,
  ◌==◌, ◌<◌, has, if◌then◌else◌, Bool-cases, Option-cases, eq_of_==, ==_of_eq, ne_of_==, ap, sym,
  ◌∙◌,
}
use x_expr.Bits.{bit_clear}
use x_expr.Memory.{Ptr, null, Obj, State, ok, load, unit_at}
use x_expr.Obj.{x_obj_flag_mark, x_obj_data_i, x_firstobj, x_restobj, x_obj_isnil}
use x_expr.Base.{
  x_base, x_base_isset, rest_n, elem_n, x_base_field_meta_fields, x_base_field_heap_fields,
  x_base_field_heap_mark, x_base_field_heap_root_chain,
}
use x_expr.Heap.{hook_fn, x_heap_root_chain, x_heap_root_chain_mark}
use x_expr.Heap.Marked.{has_mark}
use x_expr.Heap.Mark.{Valid, Pairs}
use x_expr.Heap.MarkRun.{Covers, white_count}
use x_expr.Heap.Chain.{Chain, nil, link}
use x_expr.Heap.Clear.{cleared}
use x_expr.Heap.RootExact.{RootsMarked, root_chain_mark-RootsMarked}
use mathlib.Core.Option
use x_expr.Heap.RootStack.{
  Op, push, pop, stack_run, root_run, Registers, done, pushes, pops, Stacked, run-Stacked,
}
use x_expr.Tests.Scene.{at, obj, sys}

abbrev table : List (Ptr × Obj)
table =
    (1, obj 0 100 0 (2 ∷ []))
    ∷ (2, obj 0 101 0x100 (0 ∷ 3 ∷ []))
    ∷ (3, obj 0 101 0x100 (0 ∷ 4 ∷ []))
    ∷ (4, obj 0 101 0x100 (0 ∷ 5 ∷ []))
    ∷ (5, obj 0 101 0x100 (6 ∷ 0 ∷ []))
    ∷ (6, obj 0 101 0x100 (20 ∷ 7 ∷ []))
    ∷ (7, obj 0 101 0x100 (20 ∷ 8 ∷ []))
    ∷ (8, obj 0 101 0x100 (20 ∷ 9 ∷ []))
    ∷ (9, obj 0 101 0x100 (20 ∷ 10 ∷ []))
    ∷ (10, obj 0 101 0x100 (20 ∷ 11 ∷ []))
    ∷ (11, obj 0 101 0x100 (20 ∷ 12 ∷ []))
    ∷ (12, obj 0 101 0x100 (21 ∷ 0 ∷ []))
    ∷ (20, obj 0 101 0x100 (0 ∷ 0 ∷ []))
    ∷ (21, obj 0 101 0x100 (30 ∷ 0 ∷ []))
    ∷ (30, obj 31 101 0x200 (40 ∷ 31 ∷ []))
    ∷ (31, obj 0 101 0 (41 ∷ 0 ∷ []))
    ∷ (40, obj 0 102 0 (5 ∷ []))
    ∷ (41, obj 0 102 0 (6 ∷ []))
    ∷ (42, obj 0 102 0 (7 ∷ []))
    ∷ []

abbrev rooted : State
rooted = record { objs = at table; blocks = at []; buffers = at []; calls = [] }

some_obj : {c o : Obj} → some c ≡ some o → c ≡ o
some_obj h = cc

both_left : (a b : Bool) → (a && b) ≡ true → a ≡ true
both_left a b h = ground arith

both_right : (a b : Bool) → (a && b) ≡ true → b ≡ true
both_right a b h = ground arith

abbrev is_some : Option Obj → Bool
is_some none = false
is_some (some o) = true

neither : (a : Bool) (c : Option Obj) → (a || is_some c) ≡ true → a ≡ false → c ≡ none → ⊥
neither a c h e gone = ground (arith, h, e, gone)

abbrev keys : List (Ptr × Obj) → List Ptr
keys [] = []
keys ((p, o) ∷ rest) = p ∷ keys rest

-- The checks below are made for any test of an address.
module _ (valid : Ptr → Bool) where
  abbrev pair_units : List ℕ → Bool
  pair_units [] = false
  pair_units (a ∷ []) = false
  pair_units (a ∷ b ∷ us) = valid a && valid b

  abbrev entry : Obj → Bool
  entry o = if o.type == 101 then pair_units o.units else true

  abbrev all_entries : List (Ptr × Obj) → Bool
  all_entries [] = true
  all_entries ((p, o) ∷ rest) = entry o && all_entries rest

  entry_at :
      (rest : List (Ptr × Obj)) (p : Ptr) (o : Obj)
      → all_entries rest ≡ true
      → at rest p ≡ some o
      → entry o ≡ true
  entry_at [] p o good e = absurd cc
  entry_at ((q, c) ∷ rest) p o good e = elim (Bool-cases (p == q)) [
    | inl same ↦
        let here : some c ≡ some o = rw same at e in
        ap entry (sym (some_obj here)) ∙ both_left (entry c) (all_entries rest) good
    | inr other ↦ entry_at rest p o (both_right (entry c) (all_entries rest) good) (rw other at e)
  ]

  units_of :
      (us : List ℕ)
      → pair_units us ≡ true
      → (a b : ℕ) × (rest : List ℕ) × (us ≡ a ∷ b ∷ rest) × (valid a ≡ true) × (valid b ≡ true)
  units_of [] h = absurd cc
  units_of (a ∷ []) h = absurd cc
  units_of (a ∷ b ∷ us) h =
      (a, b, us, refl, both_left (valid a) (valid b) h, both_right (valid a) (valid b) h)

key_at :
    (rest : List (Ptr × Obj)) (p : Ptr) (o : Obj) → at rest p ≡ some o → has p (keys rest) ≡ true
key_at [] p o e = absurd cc
key_at ((q, c) ∷ rest) p o e = elim (Bool-cases (p == q)) [
  | inl same ↦ rw same
  | inr other ↦ rw (other, key_at rest p o (rw other at e))
]

-- NULL, or in the table.
abbrev is_valid : Ptr → Bool
is_valid p = p == 0 || is_some (at table p)

is_valid-Valid : (p : Ptr) → is_valid p ≡ true → Valid sys rooted p
is_valid-Valid p h = elim (Bool-cases (p == 0)) [
  | inl zero_there ↦ inl (eq_of_== p 0 zero_there)
  | inr set ↦ elim (Option-cases (at table p)) [
    | inl gone ↦ absurd (neither (p == 0) (at table p) h set gone)
    | inr (o, e) ↦ inr (o, record { ne_null = ne_of_== p 0 set; holds = e })
  ]
]

rooted-Pairs : Pairs sys rooted
rooted-Pairs p o e ty =
    let is_pair : (o.type == 101) ≡ true = ==_of_eq o.type 101 ty in
    let checked : pair_units is_valid o.units ≡ true =
      rw is_pair at (entry_at is_valid table p o refl e.holds) in
    let (a, b, us, eq, va, vb) = units_of is_valid o.units checked in
    (a, b, us, eq, is_valid-Valid a va, is_valid-Valid b vb)

rooted-Covers : Covers (keys table) rooted
rooted-Covers p o e = key_at table p o e.holds

rooted-Chain : Chain rooted 30 (30 ∷ 31 ∷ [])
rooted-Chain =
    link {o = obj 31 101 0x200 (40 ∷ 31 ∷ [])} (record { ne_null = omega arith; holds = refl }) refl
      (link {o = obj 0 101 0 (41 ∷ 0 ∷ [])} (record { ne_null = omega arith; holds = refl }) refl
        nil)

rooted-set : x_base_isset 1 rooted ≡ ok true rooted
unfolding x_base_isset x_base x_firstobj x_obj_data_i load unit_at
rooted-set = refl

rooted-head : x_heap_root_chain 1 rooted ≡ ok 30 rooted
unfolding x_heap_root_chain x_base_field_heap_root_chain x_base_field_heap_fields
    x_base_field_meta_fields elem_n rest_n x_base x_firstobj x_restobj x_obj_data_i load unit_at
rooted-head = refl

rooted-hook : hook_fn (x_base_field_heap_mark 1) 1 rooted ≡ ok null rooted
unfolding hook_fn x_obj_isnil x_base_isset x_base_field_heap_mark x_base_field_heap_fields
    x_base_field_meta_fields elem_n rest_n x_base x_firstobj x_restobj x_obj_data_i load unit_at
rooted-hook = refl

few : white_count x_obj_flag_mark (cleared x_obj_flag_mark (30 ∷ 31 ∷ []) rooted) (keys table) < 30
unfolding has_mark bit_clear
few = omega arith

root_chain_mark-RootsMarked_example :
    (t : State) × (x_heap_root_chain_mark sys 3 30 1 x_obj_flag_mark rooted ≡ ok null t)
    × RootsMarked sys x_obj_flag_mark rooted (30 ∷ 31 ∷ []) t
root_chain_mark-RootsMarked_example =
    root_chain_mark-RootsMarked sys x_obj_flag_mark 1 3 30 (keys table) rooted-set rooted-head
      rooted-Chain (omega arith) few rooted-Covers rooted-Pairs rooted-hook

rooted-Stacked : Stacked rooted 21 (30 ∷ 31 ∷ [])
rooted-Stacked = record {
  head = 30;
  cell = obj 0 101 0x100 (30 ∷ 0 ∷ []);
  rest = 0 ∷ [];
  at = record { ne_null = omega arith; holds = refl };
  holds = refl;
  chain = rooted-Chain;
  apart = refl;
}

-- A frame registers two objects, and then more is taken back than it registered.
abbrev frame : List Op
frame = push 41 ∷ push 42 ∷ pop ∷ pop ∷ pop ∷ []

frame-Registers : Registers rooted 21 frame
frame-Registers =
    pushes {o = obj 0 102 0 (6 ∷ [])} (record { ne_null = omega arith; holds = refl }) (omega arith)
      (pushes {o = obj 0 102 0 (7 ∷ [])} (record { ne_null = omega arith; holds = refl })
        (omega arith) (pops (pops (pops done))))

run-Stacked_example : (t : State) × (root_run 21 frame rooted ≡ ok tt t) × Stacked t 21 (31 ∷ [])
unfolding stack_run Option.bind
run-Stacked_example = run-Stacked frame rooted-Stacked frame-Registers refl
