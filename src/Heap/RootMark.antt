-- ===== src/Heap/RootMark.antt =====
-- x_heap_root_chain_mark of src/x-heap.c: the two passes over the root chain.
use x_expr.Prelude.{
  ℕ, zero, suc, ◌<◌, ◌≡◌, refl, ◌≢◌, inl, inr, true, false, List, [], ◌∷◌, arith, ◌==◌, has, length,
  Bool-cases, eq_of_==, ==_of_eq,
}
use x_expr.Memory.{Ptr, null, Obj, State, ok}
use x_expr.Memory.Points.{Points, not_null}
use x_expr.Sys.{System}
use x_expr.Obj.Access.{x_obj_heap-ok}
use x_expr.Heap.{root_marks}
use x_expr.Heap.Marked.{is_marked, Change, Change-refl, Change-trans, is_marked-Change}
use x_expr.Heap.Mark.{Child, White, Pairs, Marks, Child-forth, White-back, Pairs-forth}
use x_expr.Heap.MarkRun.{white_count, white_count-le, Covers, Covers-forth, NoHook, NoHook-forth}
use x_expr.Heap.MarkTree.{tree_mark-Marks}
use x_expr.Heap.Chain.{Chain, nil, link}
use x_expr.Heap.Collect.{Chain-Change}

module _ (sys : System) (m : ℕ) where
  -- What walks from the roots `xs`, one after the other, do to a state.
  pub record MarksAll (s : State) (xs : List Ptr) (t : State) : Type 0 where
    pub change : Change m s t
    pub root : (q : Ptr) → has q xs ≡ true → is_marked m t q ≡ true
    pub closed :
        (q r : Ptr)
        → is_marked m s q ≡ false
        → is_marked m t q ≡ true
        → Child sys s q r
        → is_marked m t r ≡ true
    pub sound :
        (q : Ptr)
        → is_marked m s q ≡ false
        → is_marked m t q ≡ true
        → (r : Ptr) × (has r xs ≡ true) × White sys m s r q

  MarksAll-nil : (s : State) → MarksAll s [] s
  MarksAll-nil s = record {
    change = Change-refl m s;
    root = λ q h. absurd cc;
    closed = λ q r w b child. absurd cc;
    sound = λ q w b. absurd cc;
  }

  MarksAll-cons :
      {s t u : State} {x : Ptr} {xs : List Ptr}
      → x ≢ null
      → Marks sys m s x t
      → MarksAll t xs u
      → MarksAll s (x ∷ xs) u
  MarksAll-cons {s} {t} {u} {x} {xs} set one two = record {
    change = Change-trans m one.change two.change;
    root = λ q h. elim (Bool-cases (q == x)) [
      | inl same ↦ rw (eq_of_== q x same) (is_marked-Change m x two.change (one.root set))
      | inr other ↦ two.root q (rw other at h)
    ];
    closed = λ q r w b child. elim (Bool-cases (is_marked m t q)) [
      | inl early ↦ is_marked-Change m r two.change (one.closed q r w early child)
      | inr late ↦ two.closed q r late b (Child-forth sys m one.change child)
    ];
    sound = λ q w b. elim (Bool-cases (is_marked m t q)) [
      | inl early ↦ (x, rw (==_of_eq x x refl), (one.sound q w early).1)
      | inr late ↦
          let (r, on, way) = two.sound q late b in
          (r, ground (arith, on), White-back sys m one.change way)
    ];
  }

  chain_tail :
      {s : State} {p x : Ptr} {xs : List Ptr}
      → Chain s p (x ∷ xs)
      → (o : Obj) × Points s p o × (p ≡ x) × Chain s o.heap xs
  chain_tail (link {o} e out c) = (o, e, refl, c)

  -- The second pass.
  pub root_marks-MarksAll :
      (base : Ptr) (k inside : ℕ) (dom xs : List Ptr) {s : State} {p : Ptr}
      → Chain s p xs
      → length xs < k
      → white_count m s dom < inside
      → Covers dom s
      → Pairs sys s
      → NoHook sys base m s
      → (t : State) × (root_marks sys k inside base p m s ≡ ok tt t) × MarksAll s xs t
  unfolding root_marks
  root_marks-MarksAll base zero inside dom xs c short enough cover pairs quiet =
      absurd (omega (arith, short))
  root_marks-MarksAll base (suc k) inside dom [] {s} nil short enough cover pairs quiet =
      (s, refl, MarksAll-nil s)
  root_marks-MarksAll base (suc k) inside dom (x ∷ xs) {s} (link {o} e out c) short enough cover
        pairs quiet =
      let (r, t, runs, one) =
        tree_mark-Marks sys m base x inside dom enough cover pairs (inr (o, e)) quiet in
      let (o', e', _, c') = chain_tail (Chain-Change one.change (link e out c)) in
      let (u, runs', two) =
        root_marks-MarksAll base k inside dom xs c' (omega (arith, short))
          (omega (arith, enough, white_count-le m one.change dom))
          (Covers-forth m one.change dom cover) (Pairs-forth sys m one.change pairs)
          (NoHook-forth sys base m one.change quiet) in
      (u, rw (not_null e, runs, x_obj_heap-ok e') runs', MarksAll-cons e.ne_null one two)
