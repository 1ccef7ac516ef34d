-- ===== src/Heap/Sweep/Rounds.antt =====
-- The rounds of x_heap_sweep, one object each, and the sweep of the whole chain behind the base.
use x_expr.Prelude.{
  ℕ, zero, suc, ◌<◌, ◌≡◌, refl, ◌⊎◌, inl, inr, Bool, true, false, Option, none, some, List, ◌||◌,
  ◌&&◌, arith, ◌==◌, has, ap, sym, subst, ◌∙◌, if◌then◌else◌, Bool-cases, eq_of_==, ne_of_==,
  ==_of_eq, ==_of_ne, length,
}
use x_expr.Memory.{Ptr, null, Obj, Block, State, ok, put_obj}
use x_expr.Memory.Points.{Points, Points-put, Points-put_other, Points-unique, not_null}
use x_expr.Sys.{System}
use x_expr.Obj.{x_obj_flag_shared, has_flag}
use x_expr.Obj.Access.{x_obj_flags-ok, set_flags-ok, x_obj_heap-ok, set_heap-ok}
use x_expr.Obj.Free.{Bare, no_base, untyped, own_block, Disposable, disposed, x_obj_free-Bare}
use x_expr.Base.{x_base_field_heap_free}
use x_expr.Heap.{hook_fn, sweep_loop, x_heap_sweep}
use x_expr.Heap.Chain
use x_expr.Heap.Chain.{Chain, nil, link, has-cons_false}
use x_expr.Heap.Clear.{without}
use x_expr.Heap.Sweep.{retained, released, Swept}
use x_expr.Heap.Sweep.Ready.{Ready, keep, free, Ready-frame, not_released}
use x_expr.Heap.Sweep.Loop.{
  kept, relinked, dropped, kept_same, dropped_same, prev_ne_node, Points-dropped, Swept-nil,
  Swept-keep, Swept-free,
}

-- A base whose fields are not read stays one when other objects change.
Bare-put :
    {s : State} {base : Ptr} (p : Ptr) (c : Option Obj)
    → Bare s base
    → (base == p) ≡ false
    → Bare (put_obj s p c) base
Bare-put p c (no_base h) ne = no_base h
Bare-put p c (untyped e ty) ne = untyped (Points-put_other p c e (ne_of_== _ _ ne)) ty

Bare-relinked :
    {s : State} {base prev : Ptr} {po : Obj} (o : Obj)
    → Points s prev po
    → Bare s base
    → Bare (relinked s prev po o) base
Bare-relinked o ep (no_base h) = no_base h
Bare-relinked {s} {base} {prev} {po} o ep (untyped {o = b} e ty) =
    elim (Bool-cases (base == prev)) [
      | inl same ↦
          let eq = eq_of_== base prev same in
          let is_po = Points-unique (subst (λ x. Points s x b) eq e) ep in
          untyped {o = record po { heap = o.heap }}
            (record { ne_null = e.ne_null; holds = rw same refl })
            (ap (λ (x : Obj). x.type) (sym is_po) ∙ ty)
      | inr other ↦ untyped (Points-put_other prev _ e (ne_of_== _ _ other)) ty
    ]

Bare-disposed :
    {s : State} {base : Ptr} (node : Ptr) (o : Obj)
    → Bare s base
    → (base == node) ≡ false
    → Bare (disposed s node o) base
Bare-disposed node o (no_base h) ne = no_base h
Bare-disposed node o (untyped {o = b} e ty) ne =
    untyped {o = b} (record { ne_null = e.ne_null; holds = rw ne e.holds }) ty

-- What is on a list differs from what is not.
differs : (b q : Ptr) (xs : List Ptr) → has b xs ≡ true → has q xs ≡ false → (b == q) ≡ false
differs b q xs h out = elim (Bool-cases (b == q)) [
  | inl same ↦ let no : has b xs ≡ false = rw (eq_of_== b q same) out in absurd (cc)
  | inr other ↦ other
]

-- The blocks that go later are live after one object was freed.
blocks_dropped :
    (s : State) (prev : Ptr) (po : Obj) (node : Ptr) (o : Obj) (xs : List Ptr)
    → (own_block o ≡ null) ⊎ (has (own_block o) xs ≡ false)
    → has node xs ≡ false
    → (b : Ptr) → has b xs ≡ true
    → (dropped s prev po node o).blocks b ≡ s.blocks b
blocks_dropped s prev po node o xs (inl unowned) home b h =
    rw (differs b node xs h home, ==_of_eq (own_block o) null unowned)
blocks_dropped s prev po node o xs (inr apart) home b h =
    rw (differs b node xs h home, differs b (own_block o) xs h apart) (either _)
  where
    either : (c : Bool) {x : Option Block} → (if c && false then none else x) ≡ x
    either true = refl
    either false = refl

-- Relinking the object before it changes nothing about a disposable one.
relinked-Disposable :
    {s : State} {prev node : Ptr} {po o : Obj}
    → Points s prev po
    → (prev == node) ≡ false
    → Disposable s node o
    → Disposable (relinked s prev po o) node o
relinked-Disposable {prev} {node} ep ne d = record {
  points = Points-put_other prev _ d.points (λ h. ne_of_== prev node ne (sym h));
  home = d.home;
  owned = d.owned;
  unit = d.unit;
}

module _ (sys : System) (m : ℕ) where
  -- The round at an object that is kept.
  run_keep :
      (k : ℕ) (base prev : Ptr) {s t : State} {node : Ptr} {o : Obj}
      → Points s node o
      → retained m (s.objs node) ≡ true
      → sweep_loop sys k m null base o.heap node (kept m s node o) ≡ ok tt t
      → sweep_loop sys (suc k) m null base node prev s ≡ ok tt t
  unfolding sweep_loop retained
  run_keep k base prev {s} {o} e keeps run =
      let keeps' : (has_flag o.flags m || has_flag o.flags x_obj_flag_shared) ≡ true =
        rw e.holds at keeps in
      rw
        (
          not_null e,
          x_obj_flags-ok e,
          keeps',
          set_flags-ok e,
          x_obj_heap-ok (Points-put s _ (without m o) e.ne_null),
        )
        run

  -- The round at an object that goes.
  run_free :
      (k : ℕ) {s t : State} {base prev node : Ptr} {po o : Obj}
      → Points s prev po
      → (prev == node) ≡ false
      → Points s node o
      → (node == base) ≡ false
      → Bare (relinked s prev po o) base
      → Disposable s node o
      → retained m (s.objs node) ≡ false
      → sweep_loop sys k m null base o.heap prev (dropped s prev po node o) ≡ ok tt t
      → sweep_loop sys (suc k) m null base node prev s ≡ ok tt t
  unfolding sweep_loop retained
  run_free k {s} {prev} {node} {po} {o} ep ne e other bare d goes run =
      let goes' : (has_flag o.flags m || has_flag o.flags x_obj_flag_shared) ≡ false =
        rw e.holds at goes in
      let d' : Disposable (relinked s prev po o) node o = relinked-Disposable ep ne d in
      rw
        (
          not_null e,
          x_obj_flags-ok e,
          goes',
          x_obj_heap-ok e,
          set_heap-ok ep o.heap,
          x_obj_free-Bare d' bare,
          other,
        )
        run

  -- The loop over what is left of the chain behind `prev`.
  pub rounds :
      (k : ℕ) {s : State} {base prev node : Ptr} {po : Obj} {xs : List Ptr}
      → Points s prev po
      → po.heap ≡ node
      → has prev xs ≡ false
      → Chain s node xs
      → Ready m s xs
      → Bare s base
      → has base xs ≡ false
      → length xs < k
      → (t : State) × (sweep_loop sys k m null base node prev s ≡ ok tt t) × Swept m s prev xs t
  unfolding sweep_loop
  rounds zero ep hangs apart c r bare off enough = absurd (omega arith)
  rounds (suc k) {s} ep hangs apart nil r bare off enough = (s, refl, Swept-nil m ep hangs)
  rounds (suc k) {s} {base} {prev} {node} ep hangs apart (link {o} {xs} e out c) (keep keeps r) bare
        off enough =
      let same = kept_same m xs ep hangs apart e out in
      let (t, run, swept) =
        rounds k {base = base} (Points-put s node (without m o) e.ne_null) refl out
          (Chain.frame c same) (Ready-frame m r same (λ b h. refl))
          (Bare-put node (some (without m o)) bare (has-cons_false base node xs off).0)
          (has-cons_false base node xs off).1 (omega arith) in
      (t, run_keep k base prev e keeps run, Swept-keep m xs ep hangs apart e out keeps swept)
  rounds (suc k) {s} {base} {prev} {node} {po} ep hangs apart (link {o} {xs} e out c)
        (free {o = o'} goes d owns r) bare off enough =
      let same = dropped_same m xs ep hangs apart e out in
      let ne = prev_ne_node m xs ep hangs apart e out in
      let is_o : o' ≡ o = Points-unique d.points e in
      let d' : Disposable s node o = subst (Disposable s node) is_o d in
      let owns' : (own_block o ≡ null) ⊎ (has (own_block o) (released m s xs) ≡ false) =
        rw (← is_o) owns in
      let other = (has-cons_false base node xs off).0 in
      let bare' = Bare-relinked o ep bare in
      let (t, run, swept) =
        rounds k {base = base} (Points-dropped m xs ep hangs apart e out) refl
          (has-cons_false prev node xs apart).1 (Chain.frame c same)
          (Ready-frame m r same (
            blocks_dropped s prev po node o (released m s xs) owns'
              (not_released m node r d'.home out)))
          (Bare-disposed node o bare' other) (has-cons_false base node xs off).1 (omega arith) in
      (
        t,
        run_free k ep ne e (==_of_ne node base (λ h. ne_of_== base node other (sym h))) bare' d'
            goes run,
        Swept-free m xs ep hangs apart e out goes swept,
      )

  -- With an untyped base that is not on its own chain, no free hook in force, a chain whose
  -- unmarked and unshared objects are disposable, and more rounds than the chain is long,
  -- x_heap_sweep from the base's head ends and returns the base. The survivors, those marked or
  -- shared, hang behind the base in their old order without the mark, the others and the blocks
  -- that they own are released, and no other object, block or buffer changes.
  pub sweep-Swept :
      (k : ℕ) {s : State} {base : Ptr} {bo : Obj} {xs : List Ptr}
      → Points s base bo
      → bo.type ≡ null
      → Chain s bo.heap xs
      → has base xs ≡ false
      → Ready m s xs
      → hook_fn (x_base_field_heap_free base) base s ≡ ok null s
      → length xs < k
      → (t : State) × (x_heap_sweep sys k base bo.heap m s ≡ ok base t) × Swept m s base xs t
  unfolding x_heap_sweep
  sweep-Swept k {base} {bo} e ty c off r quiet enough =
      let (t, run, swept) = rounds k {base = base} e refl off c r (untyped e ty) off enough in
      (t, rw (quiet, x_obj_heap-ok e, ==_of_eq bo.heap bo.heap refl, run), swept)
