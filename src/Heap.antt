-- ===== src/Heap.antt =====
-- src/x-heap.c and the root-chain macros of include/x-heap.h: marking, clearing and sweeping. The
-- walks run on rounds, since a chain or a tree may be of any size.
pub mod Marked
pub mod MarkRun
pub mod MarkTree
pub mod Chain
pub mod Clear
pub mod Sweep
pub mod Collect
pub mod Collected
pub mod Invariant
pub mod Grown
pub mod Reach
pub mod Mark
pub mod Roots
pub mod RootStack
pub mod RootMark
pub mod Bodies
pub mod RootExact
pub mod Teardown
use x_expr.Prelude.{
  ℕ, zero, suc, ◌+◌, Bool, true, false, not, ◌&&◌, ◌||◌, bit_and, bit_or, ◌==◌, if◌then◌else◌,
}
use x_expr.Bits.{bit_clear}
use x_expr.Memory.{Ptr, null, State, Cmd, out_of_fuel, pure, ◌>>=◌, ◌>>◌}
use x_expr.Sys.{System}
use x_expr.Obj.{
  x_obj_flag_none, x_obj_flag_shared, has_flag, x_obj_heap, set_heap, x_obj_flags, set_flags,
  x_firstobj, x_restobj, set_data_i, x_obj_type_isspair, x_obj_isnil,
}
use x_expr.Obj.Alloc.{x_obj_free}
use x_expr.Obj.Field.{x_obj_push_field}
use x_expr.Base.{
  x_base_isset, x_base_field_heap_mark, x_base_field_heap_free, x_base_field_heap_mark_hooks,
  x_base_field_heap_free_hooks, x_base_field_heap_mark_roots, x_base_field_heap_root_chain,
}

-- The code pointer of a heap hook: NULL where the base is not set or the field is nil.
unfoldable pub hook_fn : Cmd Ptr → Ptr → Cmd Ptr
hook_fn field base = do
  set ← x_base_isset base
  if set
      then (do
        f ← field
        hook ← x_firstobj f
        if x_obj_isnil hook then pure null else x_firstobj hook)
      else pure null

module _ (sys : System) where
  -- One more round of the loop of x_heap_tree_mark at `p`, with the hook that the call found.
  unfoldable pub mark_loop : ℕ → Ptr → ℕ → (fn p : Ptr) → Cmd Ptr
  mark_loop zero base flags fn p = λ _. out_of_fuel
  mark_loop (suc k) base flags fn p = if p == null then pure p else (do
    f ← x_obj_flags p
    if bit_and f flags == flags then pure p else (do
      set_flags p (bit_or f flags)
      pair ← x_obj_type_isspair sys p
      if pair
          then (do
            first ← x_firstobj p
            inner ← hook_fn (x_base_field_heap_mark base) base
            _ ← mark_loop k base flags inner first
            rest ← x_restobj p
            mark_loop k base flags fn rest)
          else (if fn == null then pure p else (do
            next ← sys.call_mark fn base p flags
            if next == null then pure null else mark_loop k base flags fn next))))

  unfoldable pub x_heap_tree_mark : ℕ → Ptr → Ptr → ℕ → Cmd Ptr
  unfolding hook_fn mark_loop
  x_heap_tree_mark k base p flags = do
    fn ← hook_fn (x_base_field_heap_mark base) base
    mark_loop k base flags fn p

  -- for (; p_node != NULL; p_node = x_obj_heap(p_node)) of the second pass over the root chain.
  unfoldable pub root_marks : (rounds inside : ℕ) → Ptr → Ptr → ℕ → Cmd (Unit {0})
  unfolding x_heap_tree_mark
  root_marks zero inside base node flags = λ _. out_of_fuel
  root_marks (suc k) inside base node flags = if node == null then pure tt else (do
    _ ← x_heap_tree_mark inside base node flags
    next ← x_obj_heap node
    root_marks k inside base next flags)

  -- One more round of the sweep: `base` is NULL once the walk has freed it.
  unfoldable pub sweep_loop : ℕ → ℕ → (fn base node prev : Ptr) → Cmd (Unit {0})
  unfolding x_obj_free
  sweep_loop zero flags fn base node prev = λ _. out_of_fuel
  sweep_loop (suc k) flags fn base node prev = if node == null then pure tt else (do
    f ← x_obj_flags node
    if has_flag f flags || has_flag f x_obj_flag_shared
        then (do
          set_flags node (bit_clear f flags)
          next ← x_obj_heap node
          sweep_loop k flags fn base next node)
        else (do
          _ ← if fn == null then pure tt else sys.call_free fn base node
          next ← x_obj_heap node
          set_heap prev next
          x_obj_free base node
          sweep_loop k flags fn (if node == base then null else base) next prev))

  unfoldable pub x_heap_sweep : ℕ → Ptr → Ptr → ℕ → Cmd Ptr
  unfolding hook_fn sweep_loop
  x_heap_sweep k base p flags = do
    fn ← hook_fn (x_base_field_heap_free base) base
    head ← x_obj_heap base
    sweep_loop k flags fn base p (if head == p then base else p)
    pure base

unfoldable pub x_heap_chain_clear : ℕ → Ptr → ℕ → Cmd Ptr
x_heap_chain_clear zero node flags = λ _. out_of_fuel
x_heap_chain_clear (suc k) node flags = if node == null then pure null else (do
  f ← x_obj_flags node
  set_flags node (bit_clear f flags)
  next ← x_obj_heap node
  x_heap_chain_clear k next flags)

-- The head of the root chain, and its assignment.
unfoldable pub x_heap_root_chain : Ptr → Cmd Ptr
x_heap_root_chain base = do f ← x_base_field_heap_root_chain base; x_firstobj f

-- The slot is the field cell whose first unit is the head, NULL where the base is not set.
unfoldable pub x_heap_root_slot : Ptr → Cmd Ptr
x_heap_root_slot base = do
  set ← x_base_isset base
  if set then x_base_field_heap_root_chain base else pure null

unfoldable pub x_heap_root_push : (slot node : Ptr) → Cmd (Unit {0})
x_heap_root_push slot node =
    if slot == null
    then pure tt
    else (do head ← x_firstobj slot; set_heap node head; set_data_i slot 0 node)

unfoldable pub x_heap_root_pop : Ptr → Cmd (Unit {0})
x_heap_root_pop slot =
    if slot == null
    then pure tt
    else (do head ← x_firstobj slot; next ← x_obj_heap head; set_data_i slot 0 next)

unfoldable pub x_heap_root_chain_mark : System → (rounds inside : ℕ) → Ptr → ℕ → Cmd Ptr
unfolding root_marks x_heap_chain_clear x_heap_root_chain
x_heap_root_chain_mark sys k inside base flags = do
  set ← x_base_isset base
  if set
      then (do
        head ← x_heap_root_chain base
        _ ← x_heap_chain_clear k head flags
        head ← x_heap_root_chain base
        root_marks sys k inside base head flags
        pure null)
      else pure null

-- x_obj_push_field(p_base, &x_firstobj(p_field), value, X_OBJ_FLAG_NONE) on a field of the base.
unfoldable pub push_on : System → Cmd Ptr → (base value : Ptr) → Cmd (Unit {0})
push_on sys field base value = do
  p_field ← field
  _ ← x_obj_push_field sys base p_field value x_obj_flag_none
  pure tt

unfoldable pub x_heap_mark_hook_add : System → (base hook : Ptr) → Cmd (Unit {0})
unfolding push_on
x_heap_mark_hook_add sys base hook = push_on sys (x_base_field_heap_mark_hooks base) base hook

unfoldable pub x_heap_free_hook_add : System → (base hook : Ptr) → Cmd (Unit {0})
unfolding push_on
x_heap_free_hook_add sys base hook = push_on sys (x_base_field_heap_free_hooks base) base hook

unfoldable pub x_heap_mark_root_add : System → (base root : Ptr) → Cmd (Unit {0})
unfolding push_on
x_heap_mark_root_add sys base root = push_on sys (x_base_field_heap_mark_roots base) base root
