-- ===== src/Tests/Gc.antt =====
-- Marking, sweeping and clearing the scene.
use x_expr.Prelude.{
  ◌≡◌, refl, inl, inr, false, some, List, [], ◌∷◌, arith, ◌==◌, ◌<◌, has, Bool-cases, eq_of_==,
}
use x_expr.Memory.{load, unit_at, Word, Ptr, null, Obj, object, State, Cmd, ok, fault}
use x_expr.Memory.Points.{Points}
use x_expr.Obj.{x_obj_flag_mark}
use x_expr.Obj.Free.{own_block, Disposable}
use x_expr.Heap.Marked.{has_mark}
use x_expr.Base.{x_base_isset}
use x_expr.Heap.{hook_fn, x_heap_tree_mark, x_heap_sweep, x_heap_chain_clear}
use x_expr.Heap.Mark.{Pairs}
use x_expr.Heap.MarkRun.{Covers, white_count}
use x_expr.Heap.MarkTree.{Marked, tree_mark-Marked}
use x_expr.Heap.Chain.{Chain, nil, link}
use x_expr.Heap.Clear.{cleared, chain_clear-cleared}
use x_expr.Heap.Teardown.{teardown-fault}
use x_expr.Heap.Sweep.{retained, Swept}
use x_expr.Heap.Sweep.Ready.{Ready, done, keep, free}
use x_expr.Heap.Sweep.Rounds.{sweep-Swept}
use x_expr.Heap.Collect.{AllClean}
use x_expr.Heap.Collected.{collect, Collected, collect-Collected}
use x_expr.Tests.Scene.{obj, sys, heap, chain}

pub heap-base : Points heap 1 (obj 10 0 0 (0 ∷ []))
heap-base = record { ne_null = omega arith; holds = refl }

pub heap-pair : Points heap 10 (obj 20 101 0 (20 ∷ 0 ∷ []))
heap-pair = record { ne_null = omega arith; holds = refl }

pub heap-first : Points heap 20 (obj 30 102 0 (5 ∷ []))
heap-first = record { ne_null = omega arith; holds = refl }

heap-garbage : Points heap 30 (obj 40 102 0x20 (35 ∷ []))
heap-garbage = record { ne_null = omega arith; holds = refl }

heap-shared : Points heap 40 (obj 0 102 0x100 (6 ∷ []))
heap-shared = record { ne_null = omega arith; holds = refl }

pub heap-Chain : Chain heap 10 chain
heap-Chain =
    link heap-pair refl (link heap-first refl (link heap-garbage refl (link heap-shared refl nil)))

disposable :
    (q : Ptr) (o : Obj) (w : Word) (us : List Word)
    → Points heap q o
    → heap.blocks q ≡ some (object q)
    → o.units ≡ w ∷ us
    → own_block o ≡ null
    → Disposable heap q o
disposable q o w us e h eq unowned = record {
  points = e;
  home = h;
  owned = inl unowned;
  unit = inr (w, us, eq);
}

garbage-Disposable : Disposable heap 30 (obj 40 102 0x20 (35 ∷ []))
unfolding own_block
garbage-Disposable = record {
  points = heap-garbage;
  home = refl;
  owned = inr refl;
  unit = inr (35, [], refl);
}

-- Nothing is marked: all but the shared atom would go.
pub heap-Ready : Ready x_obj_flag_mark heap chain
unfolding retained own_block
heap-Ready = free refl (disposable 10 _ 20 (0 ∷ []) heap-pair refl refl refl) (inl refl) (
    free refl (disposable 20 _ 5 [] heap-first refl refl refl) (inl refl)
      (free refl garbage-Disposable (inr refl) (keep refl done)))

pub heap-AllClean : AllClean x_obj_flag_mark heap chain
heap-AllClean q on = elim (Bool-cases (q == 10)) [
  | inl e ↦ rw (eq_of_== q 10 e)
  | inr n1 ↦ elim (Bool-cases (q == 20)) [
    | inl e ↦ rw (eq_of_== q 20 e)
    | inr n2 ↦ elim (Bool-cases (q == 30)) [
      | inl e ↦ rw (eq_of_== q 30 e)
      | inr n3 ↦ elim (Bool-cases (q == 40)) [
        | inl e ↦ rw (eq_of_== q 40 e)
        | inr n4 ↦ let gone : has q chain ≡ false = rw (n1, n2, n3, n4) in absurd (cc)
      ]
    ]
  ]
]

-- The one pair leads to 20 and to NULL.
pub heap-Pairs : Pairs sys heap
heap-Pairs p o e ty = elim (Bool-cases (p == 10)) [
  | inl same ↦
      let is_pair : heap.objs p ≡ some (obj 20 101 0 (20 ∷ 0 ∷ [])) = rw (eq_of_== p 10 same) in
      (20, 0, [], ground (arith, e.holds, is_pair), inr (_, heap-first), inl refl)
  | inr other ↦ absurd (ground (arith, e.holds, ty))
]

abbrev pub addresses : List Ptr
addresses = 1 ∷ chain

pub heap-Covers : Covers addresses heap
heap-Covers p o e = ground (arith, e.holds)

-- The base has no tree, so no hook.
no_hook : (field : Cmd Ptr) → hook_fn field 1 heap ≡ ok null heap
unfolding hook_fn x_base_isset load unit_at
no_hook field = refl

few : white_count x_obj_flag_mark heap addresses < 9
unfolding has_mark
few = omega arith

collect-Collected_example :
    (u : State) × (collect sys 9 9 1 10 x_obj_flag_mark heap ≡ ok 1 u)
    × Collected sys x_obj_flag_mark heap 10 1 chain u
collect-Collected_example =
    collect-Collected sys x_obj_flag_mark (omega arith) 9 9 addresses heap-base refl heap-Chain refl
      heap-Ready heap-AllClean heap-Pairs (inr (_, heap-pair)) heap-Covers (no_hook _) (no_hook _)
      few (omega arith)

tree_mark-Marked_example :
    (r : Ptr) × (t : State) × (x_heap_tree_mark sys 9 1 10 x_obj_flag_mark heap ≡ ok r t)
    × Marked sys x_obj_flag_mark heap 10 t
tree_mark-Marked_example =
    tree_mark-Marked sys x_obj_flag_mark 1 10 9 addresses few heap-Covers heap-Pairs
      (inr (_, heap-pair)) (no_hook _)

sweep-Swept_example :
    (t : State) × (x_heap_sweep sys 9 1 10 x_obj_flag_mark heap ≡ ok 1 t)
    × Swept x_obj_flag_mark heap 1 chain t
sweep-Swept_example =
    sweep-Swept sys x_obj_flag_mark 9 heap-base refl heap-Chain refl heap-Ready (no_hook _)
      (omega arith)

chain_clear-cleared_example :
    x_heap_chain_clear 9 10 x_obj_flag_mark heap ≡ ok null (cleared x_obj_flag_mark chain heap)
chain_clear-cleared_example = chain_clear-cleared x_obj_flag_mark 9 heap-Chain (omega arith)

-- The scene's base and the pair behind it are not marked, and no flag is asked for.
base-Disposable : Disposable heap 1 (obj 10 0 0 (0 ∷ []))
unfolding own_block
base-Disposable = disposable 1 _ 0 [] heap-base refl refl refl

teardown-fault_example : x_heap_sweep sys 9 1 1 0 heap ≡ fault
teardown-fault_example =
    teardown-fault sys 0 7 refl base-Disposable refl heap-pair refl (omega arith) (no_hook _)
