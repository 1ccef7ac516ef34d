-- ===== src/Heap/Sweep.antt =====
-- What x_heap_sweep of src/x-heap.c is meant to leave of a chain: a description that does not walk.
pub mod Ready
pub mod Loop
pub mod Rounds
use x_expr.Prelude.{
  ℕ, ◌≡◌, refl, Bool, true, false, Option, none, some, List, [], ◌∷◌, ◌++◌, ◌||◌, arith, ◌==◌, has,
  ap, ◌∙◌, if◌then◌else◌, ◌<◌, inl, inr,
}
use mathlib.Core.Option
use x_expr.Memory.{Ptr, null, Obj, State}
use x_expr.Memory.Points.{Points}
use x_expr.Obj.{x_obj_flag_shared, has_flag}
use x_expr.Obj.Free.{own_block}
use x_expr.Heap.Clear.{without}
use x_expr.Heap.Chain.{Chain}

-- An object that a sweep keeps: it has a bit of the mark flags, or is shared.
unfoldable pub retained : ℕ → Option Obj → Bool
retained m none = false
retained m (some o) = has_flag o.flags m || has_flag o.flags x_obj_flag_shared

abbrev pub survivors : ℕ → State → List Ptr → List Ptr
survivors m s [] = []
survivors m s (q ∷ qs) = if retained m (s.objs q) then q ∷ survivors m s qs else survivors m s qs

-- The blocks of an object: its own, and the one that it owns.
unfoldable pub blocks_of : Ptr → Option Obj → List Ptr
blocks_of q none = q ∷ []
blocks_of q (some o) = if own_block o == null then q ∷ [] else q ∷ own_block o ∷ []

-- The blocks that go back to the allocator.
abbrev pub released : ℕ → State → List Ptr → List Ptr
released m s [] = []
released m s (q ∷ qs) =
    if retained m (s.objs q) then released m s qs else blocks_of q (s.objs q) ++ released m s qs

-- The object at an address after the chain `xs` was swept, but for its link.
abbrev pub after_sweep : ℕ → List Ptr → State → Ptr → Option Obj
after_sweep m xs s q =
    if has q xs
    then if retained m (s.objs q) then Option.map (without m) (s.objs q) else none
    else s.objs q

-- An object, its link left out or not.
unfoldable pub unlink_if : Bool → Obj → Obj
unlink_if b o = if b then record o { heap = null } else o

-- An object, its link left out at the addresses of a list.
abbrev pub unlinked : List Ptr → Ptr → Obj → Obj
unlinked zs q = unlink_if (has q zs)

-- `t` is `s` after the chain `xs`, which hangs at `prev`, was swept: the survivors hang there in
-- their order, every object is what `after_sweep` says, and the released blocks are no longer live.
-- Links change at `prev` and on the chain only.
pub record Swept (m : ℕ) (s : State) (prev : Ptr) (xs : List Ptr) (t : State) : Type 0 where
  pub head : Obj
  pub points : Points t prev head
  pub chain : Chain t head.heap (survivors m s xs)
  pub objs :
      (q : Ptr)
      → Option.map (unlinked (prev ∷ xs) q) (t.objs q)
        ≡ Option.map (unlinked (prev ∷ xs) q) (after_sweep m xs s q)
  pub blocks : (b : Ptr) → t.blocks b ≡ (if has b (released m s xs) then none else s.blocks b)
  pub buffers : t.buffers ≡ s.buffers
  pub calls : t.calls ≡ s.calls
