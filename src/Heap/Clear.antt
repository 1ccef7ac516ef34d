-- ===== src/Heap/Clear.antt =====
-- x_heap_chain_clear of src/x-heap.c: the whole chain, and nothing else, loses the flags.
use x_expr.Prelude.{
  ℕ, zero, suc, ◌<◌, ◌≡◌, refl, inl, inr, false, some, List, ◌∷◌, arith, ◌==◌, has, ap, ◌∙◌,
  if◌then◌else◌, Bool-cases, eq_of_==, length, fun_ext,
}
use mathlib.Core.Option
use x_expr.Bits.{bit_clear}
use x_expr.Memory.{Ptr, null, Obj, State, ok, put_obj}
use x_expr.Memory.Points.{Points-put, not_null}
use x_expr.Obj.Access.{x_obj_heap-ok, x_obj_flags-ok, set_flags-ok}
use x_expr.Heap.{x_heap_chain_clear}
use x_expr.Heap.Chain.{Chain, nil, link, frame-put}

abbrev pub without : ℕ → Obj → Obj
without m o = record o { flags = bit_clear o.flags m }

-- The state in which the objects of a list have lost the flags `m`.
abbrev pub cleared : ℕ → List Ptr → State → State
cleared m xs s = record s {
  objs = λ q. if has q xs then Option.map (without m) (s.objs q) else s.objs q;
}

-- Clearing one object and then the rest is clearing them all.
cleared-cons :
    (m : ℕ) (s : State) (p : Ptr) (o : Obj) (xs : List Ptr)
    → s.objs p ≡ some o
    → has p xs ≡ false
    → cleared m xs (put_obj s p (some (without m o))) ≡ cleared m (p ∷ xs) s
cleared-cons m s p o xs e out =
    ap (λ f. record s { objs = f })
      (fun_ext λ q. elim (Bool-cases (q == p)) [
        | inl same ↦
            let eq = eq_of_== q p same in
            let out' : has q xs ≡ false = rw eq out in
            let e' : s.objs q ≡ some o = rw eq e in rw (same, out', e')
        | inr other ↦ rw other
      ])

-- On a chain without cycles and with more rounds than it is long, x_heap_chain_clear returns NULL
-- and takes the flags off every object of the chain; nothing else changes.
pub chain_clear-cleared :
    (m k : ℕ) {s : State} {p : Ptr} {xs : List Ptr}
    → Chain s p xs
    → length xs < k
    → x_heap_chain_clear k p m s ≡ ok null (cleared m xs s)
unfolding x_heap_chain_clear
chain_clear-cleared m zero c enough = absurd (omega arith)
chain_clear-cleared m (suc k) nil enough = refl
chain_clear-cleared m (suc k) {s} (link {p} {o} {xs} e out c) enough =
    let e' = Points-put s p (without m o) e.ne_null in
    rw (not_null e, x_obj_flags-ok e, set_flags-ok e, x_obj_heap-ok e')
      (chain_clear-cleared m k (frame-put p (some (without m o)) c out) (omega arith)
        ∙ ap (ok null) (cleared-cons m s p o xs e.holds out))

-- The links stay.
pub Chain-cleared :
    (m : ℕ) (ys : List Ptr) {s : State} {p : Ptr} {xs : List Ptr}
    → Chain s p xs
    → Chain (cleared m ys s) p xs
Chain-cleared m ys nil = nil
Chain-cleared m ys {s} (link {p} {o} {xs} e out c) = elim (Bool-cases (has p ys)) [
  | inl on ↦
      link {o = without m o} (record { ne_null = e.ne_null; holds = rw (on, e.holds) }) out
        (Chain-cleared m ys c)
  | inr off ↦
      link {o = o} (record { ne_null = e.ne_null; holds = rw (off, e.holds) }) out
        (Chain-cleared m ys c)
]
