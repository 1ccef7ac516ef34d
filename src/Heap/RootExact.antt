-- ===== src/Heap/RootExact.antt =====
-- x_heap_root_chain_mark of src/x-heap.c marks exactly what the registered objects lead to.
use x_expr.Prelude.{ℕ, ◌<◌, ◌≡◌, ◌⊎◌, ◌↔◌, inl, inr, true, List, has, length, Bool-cases}
use x_expr.Memory.{Ptr, null, State, ok}
use x_expr.Memory.Reads.{Extends-Same, Reads, Reads-bind}
use x_expr.Sys.{System}
use x_expr.Obj.{x_firstobj}
use x_expr.Base.{x_base_isset, x_base_field_heap_mark, x_base_field_heap_root_chain}
use x_expr.Base.Reads.{Reads-firstobj, Reads-root_chain, Reads-heap_mark}
use x_expr.Heap.{hook_fn, x_heap_root_chain, x_heap_root_chain_mark}
use x_expr.Heap.Marked.{is_marked, Change, is_marked-Change}
use x_expr.Heap.Mark.{White, Pairs}
use x_expr.Heap.MarkRun.{white_count, Covers}
use x_expr.Heap.MarkTree.{Reads-hook_fn, NoHook-now, White-marked}
use x_expr.Heap.Chain.{Chain}
use x_expr.Heap.Clear.{cleared, chain_clear-cleared, Chain-cleared}
use x_expr.Heap.Bodies.{Pairs-Same, Covers-Same, SameBodies-cleared}
use x_expr.Heap.RootMark.{MarksAll, root_marks-MarksAll}

Reads-x_heap_root_chain : (base : Ptr) → Reads (x_heap_root_chain base)
unfolding x_heap_root_chain
Reads-x_heap_root_chain base =
    Reads-bind (x_base_field_heap_root_chain base) x_firstobj (Reads-root_chain base) Reads-firstobj

module _ (sys : System) (m : ℕ) where
  -- The root chain's objects lose the mask, and then what they lead to through unmarked pairs, they
  -- themselves included, gets it; nothing else changes.
  pub record RootsMarked (s : State) (xs : List Ptr) (t : State) : Type 0 where
    pub change : Change m (cleared m xs s) t
    pub exact :
        (q : Ptr)
        → (is_marked m t q ≡ true) ↔ (
            (is_marked m (cleared m xs s) q ≡ true)
            ⊎ (r : Ptr) × (has r xs ≡ true) × White sys m (cleared m xs s) r q)

  exactly :
      {s t : State} {xs : List Ptr} → MarksAll sys m (cleared m xs s) xs t → RootsMarked s xs t
  exactly {s} {t} {xs} ms = record {
    change = ms.change;
    exact = λ q. (
      λ b. elim (Bool-cases (is_marked m (cleared m xs s) q)) [
        | inl early ↦ inl early
        | inr late ↦ inr (ms.sound q late b)
      ],
      elim [
        | inl early ↦ is_marked-Change m q ms.change early
        | inr (r, on, way) ↦ White-marked sys m t ms.closed way (ms.root r on)
      ],
    );
  }

  -- On a set base without a mark hook in force, whose root chain is a chain without cycles, with
  -- pairs whose two units lead to objects or NULL, a list that covers the memory, more rounds than
  -- the chain is long and, inside, more than there are unmarked objects of the list after the first
  -- pass, x_heap_root_chain_mark ends and returns NULL. The registered objects have lost the mask
  -- first; then an object is marked exactly when it is marked after that, or is reached from a
  -- registered object through pairs unmarked then. Nothing but mark flags changes.
  pub root_chain_mark-RootsMarked :
      (base : Ptr) (k inside : ℕ) (dom : List Ptr) {s : State} {head : Ptr} {xs : List Ptr}
      → x_base_isset base s ≡ ok true s
      → x_heap_root_chain base s ≡ ok head s
      → Chain s head xs
      → length xs < k
      → white_count m (cleared m xs s) dom < inside
      → Covers dom s
      → Pairs sys s
      → hook_fn (x_base_field_heap_mark base) base s ≡ ok null s
      → (t : State) × (x_heap_root_chain_mark sys k inside base m s ≡ ok null t)
        × RootsMarked s xs t
  unfolding x_heap_root_chain_mark
  root_chain_mark-RootsMarked base k inside dom {s} {head} {xs} is_set is_head c short enough cover
        pairs none_set =
      let c1 = cleared m xs s in
      let same = SameBodies-cleared m xs s in
      let head' = (Reads-x_heap_root_chain base s c1 (Extends-Same s c1 same) head s is_head).0 in
      let none' =
        (Reads-hook_fn (x_base_field_heap_mark base) base (Reads-heap_mark base) s c1
          (Extends-Same s c1 same) null s none_set).0 in
      let (t, runs, ms) =
        root_marks-MarksAll sys m base k inside dom xs (Chain-cleared m xs c) short enough
          (Covers-Same dom {s = s} {t = c1} same cover) (Pairs-Same sys {s = s} {t = c1} same pairs)
          (NoHook-now sys m base none') in
      (t, rw (is_set, is_head, chain_clear-cleared m k c short, head', runs), exactly ms)
