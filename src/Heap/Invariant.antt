-- ===== src/Heap/Invariant.antt =====
-- The heap behind a base that is not set up yet, as allocations keep it.
use x_expr.Prelude.{
  ℕ, ◌+◌, ◌-◌, ◌*◌, ◌%◌, ◌^◌, ◌≡◌, refl, ◌≢◌, inl, inr, Bool, true, false, none, some, List, ◌∷◌,
  ◌||◌, bit_and, arith, ◌==◌, has, sym, ap, ◌∙◌, Bool-cases, eq_of_==,
}
use x_expr.Bits.{bit_clear, bit_and-bit_clear}
use x_expr.Memory.{Word, Ptr, null, Obj, State}
use x_expr.Memory.Points.{Points}
use x_expr.Sys.{System}
use x_expr.Obj.{x_obj_size, x_obj_flag_none, has_flag}
use x_expr.Obj.Free.{Disposable}
use x_expr.Heap.Mark.{Pairs}
use x_expr.Heap.MarkRun.{Covers}
use x_expr.Heap.Chain.{Chain, nil, link}
use x_expr.Heap.Sweep.{released, blocks_of}
use x_expr.Heap.Sweep.Ready.{Ready, done, keep, free, has-append}
use x_expr.Heap.Collect.{AllClean}

module _ (sys : System) (base : Ptr) where
  -- malloc answers the request for an object of `n` units with a new block.
  pub record Fresh (s : State) (n : ℕ) (p : Ptr) : Type 0 where
    pub got : sys.malloc s (x_obj_size * (3 + n) % 2 ^ 64) ≡ p
    pub set : p ≢ null
    pub other : p ≢ base
    pub no_obj : s.objs p ≡ none
    pub no_block : s.blocks p ≡ none

module _ (sys : System) (m : ℕ) (base : Ptr) where
  -- The base has no type and no tree. Its chain has each object once, and not the base; all are
  -- without the mask, and a sweep can free them. The units of pairs are NULL or lead to objects, and
  -- every object is at an address of `dom`.
  pub record Sound (s : State) (xs dom : List Ptr) : Type 0 where
    pub cell : Obj
    pub rest : List Word
    pub at : Points s base cell
    pub bare : cell.type ≡ null
    pub unset : cell.units ≡ null ∷ rest
    pub chain : Chain s cell.heap xs
    pub apart : has base xs ≡ false
    pub ready : Ready m s xs
    pub clean : AllClean m s xs
    pub pairs : Pairs sys s
    pub covers : Covers dom s

pub chain-holds :
    {s : State} {h q : Ptr} {xs : List Ptr} → Chain s h xs → has q xs ≡ true → s.objs q ≡ none → ⊥
chain-holds nil on gone = absurd cc
chain-holds {s} {q} (link {p} {o} e out c) on gone = elim (Bool-cases (q == p)) [
  | inl same ↦
      let here : s.objs p ≡ none = sym (ap s.objs (eq_of_== q p same)) ∙ gone in
      ground (arith, e.holds, here)
  | inr other ↦ chain-holds c (ground (arith, on, other)) gone
]

live_home : {s : State} (q : Ptr) (o : Obj) → Disposable s q o → s.blocks q ≡ none → ⊥
live_home q o d gone = ground (arith, d.home, gone)

-- A dead block does not go back.
pub dead-released :
    (m : ℕ) {s : State} {qs : List Ptr} (b : Ptr)
    → Ready m s qs
    → s.blocks b ≡ none
    → has b (released m s qs) ≡ false
unfolding blocks_of
dead-released m b done dead = refl
dead-released m b (keep k r) dead = rw k (dead-released m b r dead)
dead-released m {s} b (free {q} {qs} {o} k d apart r) dead =
    rw (k, has-append, dead-released m b r dead, d.points.holds) (not_its b q o dead d)
  where
    not_its :
        (b q : Ptr) (o : Obj)
        → s.blocks b ≡ none
        → Disposable s q o
        → (has b (blocks_of q (some o)) || false) ≡ false
    not_its b q o dead d = elim (Bool-cases (b == q)) [
      | inl same ↦ absurd (live_home q o d (sym (ap s.blocks (eq_of_== b q same)) ∙ dead))
      | inr other ↦ ground (arith, other, dead, d.owned)
    ]

pub no_flags : (n : ℕ) → has_flag x_obj_flag_none n ≡ false
unfolding bit_clear
no_flags n =
    let none_there : 0 - bit_and 0 n ≡ 0 = omega arith in
    let e : bit_and 0 n ≡ 0 = ap (λ x. bit_and x n) (sym none_there) ∙ bit_and-bit_clear 0 n in rw e

pub apart_on : (xs : List Ptr) (q r : Ptr) → has q xs ≡ true → has r xs ≡ false → (q == r) ≡ false
apart_on xs q r on off = elim (Bool-cases (q == r)) [
  | inl same ↦ absurd (absent (ap (λ x. has x xs) (eq_of_== q r same)) on off)
  | inr other ↦ other
]
  where
    absent : {a b : Bool} → a ≡ b → a ≡ true → b ≡ false → ⊥
    absent e x y = cc
