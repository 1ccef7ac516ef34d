-- ===== src/Tests/Growth.antt =====
-- The small heap, and a pair of two of its objects that is allocated in it.
use x_expr.Prelude.{◌≡◌, refl, inr, [], ◌∷◌, arith, ◌<◌}
use x_expr.Memory.{State, ok}
use x_expr.Obj.{x_obj_flag_mark}
use x_expr.Obj.Alloc.{x_mkspair}
use x_expr.Obj.Free.{untyped}
use x_expr.Obj.Make.{behind, made, whole, made-Points, make-made}
use x_expr.Heap.Marked.{has_mark}
use x_expr.Heap.MarkRun.{white_count}
use x_expr.Heap.Collected.{collect, Collected}
use x_expr.Heap.Invariant.{Sound, Fresh}
use x_expr.Heap.Reach.{Allocated, start, pair, Allocated-Sound, Allocated-Collected}
use x_expr.Tests.Scene.{sys, heap, chain}
use x_expr.Tests.Gc.{
  heap-base, heap-Chain, heap-Ready, heap-AllClean, heap-Pairs, heap-Covers, heap-pair, heap-first,
  addresses,
}

heap-Sound : Sound sys x_obj_flag_mark 1 heap chain addresses
heap-Sound = record {
  cell = _;
  rest = [];
  at = heap-base;
  bare = refl;
  unset = refl;
  chain = heap-Chain;
  apart = refl;
  ready = heap-Ready;
  clean = heap-AllClean;
  pairs = heap-Pairs;
  covers = heap-Covers;
}

abbrev larger : State
larger = made heap 1 50 (whole 10 101 0 (10 ∷ 20 ∷ []))

new_block : Fresh sys 1 heap 2 50
new_block = record {
  got = refl;
  set = omega arith;
  other = omega arith;
  no_obj = refl;
  no_block = refl;
}

runs : x_mkspair sys 1 0 10 20 heap ≡ ok 50 larger
unfolding x_mkspair
runs =
    make-made sys 101 0 50 (10 ∷ 20 ∷ []) (untyped heap-base refl) (behind heap-base refl) refl
      (omega arith) (omega arith)

larger-Allocated : Allocated sys 1 heap chain addresses larger (50 ∷ chain) (50 ∷ addresses)
larger-Allocated = pair start (inr (_, heap-pair)) (inr (_, heap-first)) new_block runs

Allocated-Sound_example : Sound sys x_obj_flag_mark 1 larger (50 ∷ chain) (50 ∷ addresses)
Allocated-Sound_example =
    Allocated-Sound sys x_obj_flag_mark 1 (omega arith) heap-Sound larger-Allocated

few : white_count x_obj_flag_mark larger (50 ∷ addresses) < 9
unfolding has_mark
few = omega arith

Allocated-Collected_example :
    (u : State) × (collect sys 9 6 1 50 x_obj_flag_mark larger ≡ ok 1 u)
    × Collected sys x_obj_flag_mark larger 50 1 (50 ∷ chain) u
Allocated-Collected_example =
    Allocated-Collected sys x_obj_flag_mark 1 (omega arith) (omega arith) 9 6 heap-Sound
      larger-Allocated
      (inr (_, made-Points heap 1 50 (whole 10 101 0 (10 ∷ 20 ∷ [])) (omega arith) (omega arith)))
      few (omega arith)
