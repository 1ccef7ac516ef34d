-- ===== src/Heap/Roots.antt =====
-- The root-chain macros of include/x-heap.h: frames push and pop their roots in LIFO order.
use x_expr.Prelude.{◌≡◌, ◌≢◌, some, List, ◌∷◌, sym, ap, ◌∙◌, set}
use x_expr.Memory.{Word, Ptr, Obj, State, ok, ◌>>◌, put_obj}
use x_expr.Memory.Points.{
  put-put, put-same, with_units, Points, not_null, Points-put, Points-put_other,
}
use x_expr.Obj.Access.{x_firstobj-ok, set_heap-ok, set_data_i-ok, x_obj_heap-ok, unit_zero}
use x_expr.Heap.{x_heap_root_push, x_heap_root_pop}

-- The slot that holds a head, and the node that a frame registers.
module _ {s : State} {slot node head : Ptr} {c o : Obj} {us : List Word} (at_slot : Points s slot c)
    (holds : c.units ≡ head ∷ us) (at_node : Points s node o) (apart : node ≢ slot) where
  -- The state after the push.
  abbrev pushed : State
  pushed =
      put_obj (put_obj s node (some (record o { heap = head }))) slot
        (some (record c { units = set c.units 0 node }))

  slot_later : Points (put_obj s node (some (record o { heap = head }))) slot c
  slot_later = Points-put_other node (some (record o { heap = head })) at_slot (λ e. apart (sym e))

  pub push-ok : x_heap_root_push slot node s ≡ ok tt pushed
  unfolding x_heap_root_push
  push-ok = rw (
    not_null at_slot,
    x_firstobj-ok at_slot holds,
    set_heap-ok at_node head,
    set_data_i-ok slot_later 0 node (unit_zero holds),
  )

  -- For a slot and an object other than the slot's own, x_heap_root_push followed by
  -- x_heap_root_pop leaves the slot with its old head; all that changes is the object's link, which
  -- is that head.
  pub push-pop :
      (x_heap_root_push slot node >> x_heap_root_pop slot) s
      ≡ ok tt (put_obj s node (some (record o { heap = head })))
  unfolding x_heap_root_pop
  push-pop =
      rw
        (
          push-ok,
          not_null at_slot,
          x_firstobj-ok there top,
          x_obj_heap-ok node_there,
          set_data_i-ok there 0 head (unit_zero top),
        )
        (ap (ok tt) (put-put linked slot (some slot') _ ∙ put-same linked slot restored))
    where
      slot' : Obj
      slot' = record c { units = set c.units 0 node }

      linked : State
      linked = put_obj s node (some (record o { heap = head }))

      there : Points pushed slot slot'
      there = Points-put linked slot slot' at_slot.ne_null

      top : slot'.units ≡ node ∷ us
      top = rw holds

      node_there : Points pushed node (record o { heap = head })
      node_there =
          Points-put_other slot (some slot')
            (Points-put s node (record o { heap = head }) at_node.ne_null) apart

      back : c.units ≡ set (set c.units 0 node) 0 head
      back = rw holds

      restored : linked.objs slot ≡ some (record c { units = set (set c.units 0 node) 0 head })
      restored = slot_later.holds ∙ ap some (sym (with_units c back))
