-- ===== src/Heap/Chain.antt =====
-- Objects linked through the heap slot of their headers: the allocation chain and the root chain.
use x_expr.Prelude.{◌≡◌, true, false, Option, List, [], ◌∷◌, arith, ◌==◌, has, ◌∙◌, refl}
use x_expr.Memory.{Ptr, null, Obj, State, put_obj}
use x_expr.Memory.Points.{Points}

-- From `p` the heap links lead through the distinct objects at `xs` to NULL.
pub data Chain (s : State) : Ptr → List Ptr → Type 0 where
  nil : Chain s null []
  link :
      {p : Ptr} {o : Obj} {xs : List Ptr}
      → Points s p o
      → has p xs ≡ false
      → Chain s o.heap xs
      → Chain s p (p ∷ xs)

pub has-cons_false :
    (a x : Ptr) (xs : List Ptr) → has a (x ∷ xs) ≡ false → ((a == x) ≡ false) × (has a xs ≡ false)
has-cons_false a x xs h = ground arith

-- A chain survives what spares its own objects.
pub frame :
    {s t : State} {p : Ptr} {xs : List Ptr}
    → Chain s p xs
    → ((q : Ptr) → has q xs ≡ true → t.objs q ≡ s.objs q)
    → Chain t p xs
frame nil same = nil
frame (link {p} {xs} e out c) same =
    link (record { ne_null = e.ne_null; holds = same p (ground arith) ∙ e.holds }) out
      (frame c (λ q h. same q (ground arith)))

-- Writing the object at an address that is not on the chain.
pub frame-put :
    {s : State} {p : Ptr} {xs : List Ptr} (q : Ptr) (c : Option Obj)
    → Chain s p xs
    → has q xs ≡ false
    → Chain (put_obj s q c) p xs
frame-put q c ch out = frame ch (λ r h. ground arith)

pub not_null : {s : State} {p : Ptr} {xs : List Ptr} → Chain s p xs → has null xs ≡ false
not_null nil = refl
not_null (link {p} {xs} e out c) = ground (arith, e.ne_null, not_null c)
