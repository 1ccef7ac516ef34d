-- ===== src/Heap/Teardown.antt =====
-- The teardown idiom of src/x-heap.c, x_heap_sweep(base, base, flags): the walk starts at the base and
-- frees it on the way.
use x_expr.Prelude.{
  ℕ, suc, ◌≡◌, refl, ◌≢◌, Bool, true, false, not, ◌||◌, none, some, arith, ◌==◌, if◌then◌else◌,
  ==_of_ne, ==_of_eq,
}
use x_expr.Memory.{Ptr, null, Obj, State, fault, load, put_obj, ok}
use x_expr.Memory.Points.{Points, not_null, put-same}
use x_expr.Sys.{System}
use x_expr.Obj.{x_obj_flag_shared, has_flag, set_heap}
use x_expr.Obj.Access.{x_obj_flags-ok, x_obj_heap-ok, set_heap-ok}
use x_expr.Obj.Free.{Disposable, disposed, untyped, x_obj_free-Bare}
use x_expr.Base.{x_base_field_heap_free}
use x_expr.Heap.{hook_fn, sweep_loop, x_heap_sweep}

-- Neither marked with a flag of `m` nor shared.
abbrev pub garbage : ℕ → Obj → Bool
garbage m o = not (has_flag o.flags m || has_flag o.flags x_obj_flag_shared)

kept : {b : Bool} → not b ≡ true → b ≡ false
kept {b} h = ground (arith, h)

module _ (sys : System) (m : ℕ) where
  -- The round of the first object after the base, when the base is gone.
  gone :
      (k : ℕ) {t : State} {base q : Ptr} {o : Obj}
      → base ≢ null
      → t.objs base ≡ none
      → Points t q o
      → garbage m o ≡ true
      → sweep_loop sys (suc k) m null null q base t ≡ fault
  unfolding sweep_loop set_heap load
  gone k {base} ne free e goes =
      let off = kept goes in
      rw (not_null e, x_obj_flags-ok e, off, x_obj_heap-ok e, ==_of_ne base null ne, free)

  -- With an untyped base and no free hook in force: when the base is disposable and the first
  -- object of its chain is another one, and neither has one of the flags or is shared, x_heap_sweep
  -- from the base with at least two rounds ends in undefined behaviour, since it writes the link of
  -- the base that it has just freed.
  pub teardown-fault :
      (k : ℕ) {s : State} {base : Ptr} {bo o : Obj}
      → bo.type ≡ null
      → Disposable s base bo
      → garbage m bo ≡ true
      → Points s bo.heap o
      → garbage m o ≡ true
      → bo.heap ≢ base
      → hook_fn (x_base_field_heap_free base) base s ≡ ok null s
      → x_heap_sweep sys (suc (suc k)) base base m s ≡ fault
  unfolding x_heap_sweep sweep_loop
  teardown-fault k {s} {base} {bo} {o} ty d goes e goes' other quiet =
      let off = kept goes in
      let same : put_obj s base (some bo) ≡ s = put-same s base d.points.holds in
      rw (
        quiet,
        x_obj_heap-ok d.points,
        prev (bo.heap == base),
        not_null d.points,
        x_obj_flags-ok d.points,
        off,
        x_obj_heap-ok d.points,
        set_heap-ok d.points bo.heap,
        same,
        x_obj_free-Bare d (untyped d.points ty),
        ==_of_eq base base refl,
        next,
      )
    where
      prev : (b : Bool) → (if b then base else base) ≡ base
      prev true = refl
      prev false = refl

      there : Points (disposed s base bo) bo.heap o
      there = record { ne_null = e.ne_null; holds = ground (arith, e.holds, other) }

      next : sweep_loop sys (suc k) m null null bo.heap base (disposed s base bo) ≡ fault
      next = gone k d.points.ne_null (ground arith) there goes'
