-- ===== src/Heap/RootStack.antt =====
-- x_heap_root_push and x_heap_root_pop of include/x-heap.h implement a stack of objects.
use x_expr.Prelude.{
  ◌≡◌, refl, ◌≢◌, inl, inr, false, Option, none, some, List, [], ◌∷◌, ◌==◌, has, if◌then◌else◌, sym,
  subst, Bool-cases, ne_of_==, ==_of_ne, set,
}
use mathlib.Core.Option
use x_expr.Memory.{Word, Ptr, Obj, State, ok, Cmd, pure, ◌>>◌, put_obj}
use x_expr.Memory.Points.{Points, Points-put, Points-put_other, not_null}
use x_expr.Obj.Access.{x_firstobj-ok, x_obj_heap-ok, set_data_i-ok, unit_zero}
use x_expr.Heap.{x_heap_root_push, x_heap_root_pop}
use x_expr.Heap.Chain.{Chain, link, frame-put, has-cons_false}
use x_expr.Heap.Roots.{push-ok}

-- What a frame does.
pub data Op : Type 0 where
  push : Ptr → Op
  pop : Op

-- The stack that a frame means to keep: each object at most once, and never more pops than pushes.
abbrev pub stack_step : Op → List Ptr → Option (List Ptr)
stack_step (push node) xs = if has node xs then none else some (node ∷ xs)
stack_step pop [] = none
stack_step pop (x ∷ xs) = some xs

unfoldable pub stack_run : List Op → List Ptr → Option (List Ptr)
stack_run [] xs = some xs
stack_run (op ∷ ops) xs = Option.bind (stack_step op xs) (stack_run ops)

-- The macros, in the same order.
unfoldable pub root_op : Ptr → Op → Cmd (Unit {0})
root_op slot (push node) = x_heap_root_push slot node
root_op slot pop = x_heap_root_pop slot

unfoldable pub root_run : Ptr → List Op → Cmd (Unit {0})
unfolding root_op
root_run slot [] = pure tt
root_run slot (op ∷ ops) = root_op slot op >> root_run slot ops

-- Every pushed address is one of an object other than the slot's own.
pub data Registers (s : State) (slot : Ptr) : List Op → Type 0 where
  done : Registers s slot []
  pushes :
      {node : Ptr} {o : Obj} {ops : List Op}
      → Points s node o
      → node ≢ slot
      → Registers s slot ops
      → Registers s slot (push node ∷ ops)
  pops : {ops : List Op} → Registers s slot ops → Registers s slot (pop ∷ ops)

-- The slot heads a chain of just these objects.
pub record Stacked (s : State) (slot : Ptr) (xs : List Ptr) : Type 0 where
  pub head : Ptr
  pub cell : Obj
  pub rest : List Word
  pub at : Points s slot cell
  pub holds : cell.units ≡ head ∷ rest
  pub chain : Chain s head xs
  pub apart : has slot xs ≡ false

-- Objects stay where an object is put over an object.
Registers-put :
    {s : State} {slot p : Ptr} {ops : List Op} (c o : Obj)
    → Points s p c
    → Registers s slot ops
    → Registers (put_obj s p (some o)) slot ops
Registers-put c o e done = done
Registers-put {s} {p} c o e (pops r) = pops (Registers-put c o e r)
Registers-put {s} {p} c o e (pushes {node} {o = b} at h r) = elim (Bool-cases (node == p)) [
  | inl same ↦
      pushes {o = o} (record { ne_null = at.ne_null; holds = rw same }) h (Registers-put c o e r)
  | inr other ↦
      pushes (Points-put_other p (some o) at (ne_of_== node p other)) h (Registers-put c o e r)
]

push-Stacked :
    {s : State} {slot node : Ptr} {o : Obj} {xs : List Ptr} {ops : List Op}
    → Stacked s slot xs
    → Points s node o
    → node ≢ slot
    → has node xs ≡ false
    → Registers s slot ops
    → (t : State) × (x_heap_root_push slot node s ≡ ok tt t)
      × Stacked t slot (node ∷ xs)
      × Registers t slot ops
push-Stacked {s} {slot} {node} {o} {xs} st at apart new regs =
    let o' = record o { heap = st.head } in
    let c' = record st.cell { units = set st.cell.units 0 node } in
    let s1 = put_obj s node (some o') in
    let slot1 = Points-put_other node (some o') st.at (λ e. apart (sym e)) in
    let node2 = Points-put_other slot (some c') (Points-put s node o' at.ne_null) apart in
    let tail = frame-put slot (some c') (frame-put node (some o') st.chain new) st.apart in
    (
      put_obj s1 slot (some c'),
      push-ok st.at st.holds at apart,
      record {
        head = node;
        cell = c';
        rest = st.rest;
        at = Points-put s1 slot c' st.at.ne_null;
        holds = rw st.holds;
        chain = link node2 new tail;
        apart = rw (==_of_ne slot node (λ e. apart (sym e)), st.apart);
      },
      Registers-put st.cell c' slot1 (Registers-put o o' at regs),
    )

pop-Stacked :
    {s : State} {slot x : Ptr} {xs : List Ptr} {ops : List Op}
    → Stacked s slot (x ∷ xs)
    → Registers s slot ops
    → (t : State) × (x_heap_root_pop slot s ≡ ok tt t) × Stacked t slot xs × Registers t slot ops
unfolding x_heap_root_pop
pop-Stacked {s} {slot} {x} {xs} st regs =
    let (o, e, tail) = top st.chain in
    let c' = record st.cell { units = set st.cell.units 0 o.heap } in
    let (_, off) = has-cons_false slot x xs st.apart in
    (
      put_obj s slot (some c'),
      rw (
        not_null st.at,
        x_firstobj-ok st.at st.holds,
        x_obj_heap-ok e,
        set_data_i-ok st.at 0 o.heap (unit_zero st.holds),
      ),
      record {
        head = o.heap;
        cell = c';
        rest = st.rest;
        at = Points-put s slot c' st.at.ne_null;
        holds = rw st.holds;
        chain = frame-put slot (some c') tail off;
        apart = off;
      },
      Registers-put st.cell c' st.at regs,
    )
  where
    top : {p : Ptr} → Chain s p (x ∷ xs) → (o : Obj) × Points s p o × Chain s o.heap xs
    top (link {o} e out c) = (o, e, c)

none_ne_some : {xs : List Ptr} → none ≡ some xs → ⊥
none_ne_some h = cc

some_stack : {xs ys : List Ptr} → some xs ≡ some ys → xs ≡ ys
some_stack h = cc

-- For a slot that heads a chain of distinct objects, and a sequence of x_heap_root_push of objects
-- other than the slot's own and of x_heap_root_pop, in which no object is pushed that is on the
-- chain and nothing is popped from an empty one: the run ends, and the slot heads a chain of
-- exactly the objects that a list used as a stack would hold.
pub run-Stacked :
    (ops : List Op) {s : State} {slot : Ptr} {xs ys : List Ptr}
    → Stacked s slot xs
    → Registers s slot ops
    → stack_run ops xs ≡ some ys
    → (t : State) × (root_run slot ops s ≡ ok tt t) × Stacked t slot ys
unfolding stack_run root_run root_op Option.bind
run-Stacked [] {s} {slot} st regs e = (s, refl, subst (Stacked s slot) (some_stack e) st)
run-Stacked (push node ∷ ops) {xs} st (pushes at apart regs) e = elim (Bool-cases (has node xs)) [
  | inl twice ↦ absurd (none_ne_some (rw twice at e))
  | inr new ↦
      let (t, runs, st', regs') = push-Stacked st at apart new regs in
      let (u, runs', st'') = run-Stacked ops st' regs' (rw new at e) in (u, rw runs runs', st'')
]
run-Stacked (pop ∷ ops) {xs = []} st (pops regs) e = absurd (none_ne_some e)
run-Stacked (pop ∷ ops) {xs = x ∷ xs} st (pops regs) e =
    let (t, runs, st', regs') = pop-Stacked st regs in
    let (u, runs', st'') = run-Stacked ops st' regs' e in (u, rw runs runs', st'')
