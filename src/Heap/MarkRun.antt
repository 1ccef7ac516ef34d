-- ===== src/Heap/MarkRun.antt =====
-- x_heap_tree_mark runs to its end: each round marks an object, so more rounds than there are unmarked
-- objects are enough. Where no mark hook is installed.
use x_expr.Prelude.{
  ℕ, zero, suc, ◌+◌, ◌≤◌, ◌<◌, ◌≡◌, ◌≢◌, inl, inr, true, false, List, [], ◌∷◌, bit_and, arith, ◌==◌,
  if◌then◌else◌, has, Bool-cases, eq_of_==, ◌∙◌,
}
use x_expr.Memory.{Word, Ptr, null, Obj, State, ok}
use x_expr.Memory.Points.{Points, Points-put, not_null}
use x_expr.Sys.{System}
use x_expr.Obj.Access.{x_obj_flags-ok, set_flags-ok, isspair-ok, x_firstobj-ok, x_restobj-ok}
use x_expr.Base.{x_base_field_heap_mark}
use x_expr.Heap.{hook_fn, mark_loop}
use x_expr.Heap.Marked.{
  with_mark, has_mark, is_marked, Change, Change-trans, is_marked-Change, origin, image,
}
use x_expr.Heap.Mark.{
  Valid, Pairs, Marks, Marks-none, Marks-leaf, Marks-pair, Pairs-forth, Valid-forth, after,
  Change-after, marked_after,
}

-- The addresses of a list that are not marked.
abbrev pub white_count : ℕ → State → List Ptr → ℕ
white_count m s [] = 0
white_count m s (q ∷ qs) = (if is_marked m s q then 0 else 1) + white_count m s qs

-- Every object is at an address of the list.
abbrev pub Covers : List Ptr → State → Type 0
Covers dom s = (p : Ptr) (o : Obj) → Points s p o → has p dom ≡ true

module _ (m : ℕ) {s t : State} (c : Change m s t) where
  pub white_count-le : (qs : List Ptr) → white_count m t qs ≤ white_count m s qs
  white_count-le [] = omega arith
  white_count-le (q ∷ qs) = ground (arith, white_count-le qs, is_marked-Change m q c)

  white_count-lt :
      (p : Ptr) (qs : List Ptr)
      → has p qs ≡ true
      → is_marked m s p ≡ false
      → is_marked m t p ≡ true
      → white_count m t qs < white_count m s qs
  white_count-lt p [] h w b = absurd (cc)
  white_count-lt p (q ∷ qs) h w b = elim (Bool-cases (p == q)) [
    | inl same ↦
        let eq = eq_of_== p q same in
        let w' : is_marked m s q ≡ false = rw (← eq) w in
        let b' : is_marked m t q ≡ true = rw (← eq) b in
        rw (w', b') (omega (arith, white_count-le qs))
    | inr other ↦
        let there : has p qs ≡ true = rw other at h in
        ground (arith, white_count-lt p qs there w b, is_marked-Change m q c)
  ]

  pub Covers-forth : (dom : List Ptr) → Covers dom s → Covers dom t
  Covers-forth dom cover p o e = let (o', e', _, _) = origin m c e in cover p o' e'

module _ (sys : System) (base : Ptr) (m : ℕ) where
  -- No mark hook in a state, nor in one where only marks were set.
  abbrev pub NoHook : State → Type 0
  NoHook s = (t : State) → Change m s t → hook_fn (x_base_field_heap_mark base) base t ≡ ok null t

  pub NoHook-forth : {s t : State} → Change m s t → NoHook s → NoHook t
  NoHook-forth c h u d = h u (Change-trans m c d)

  -- How a walk ends.
  abbrev pub Walked : ℕ → State → Ptr → Type 0
  Walked k s p =
      (r : Ptr) × (t : State) × (mark_loop sys k base m null p s ≡ ok r t) × Marks sys m s p t

  stop :
      (k : ℕ) (s : State) (p : Ptr)
      → Valid sys s p
      → (p ≢ null → is_marked m s p ≡ true)
      → Walked (suc k) s p
  unfolding mark_loop has_mark
  stop k s p (inl nil) h = (p, s, rw nil, Marks-none sys m h)
  stop k s p (inr (o, e)) h =
      let black : (bit_and o.flags m == m) ≡ true = rw e.holds at (h e.ne_null) in
      (p, s, rw (not_null e, x_obj_flags-ok e, black), Marks-none sys m h)

  module _ (k : ℕ) {s : State} {p : Ptr} {o : Obj} (e : Points s p o)
      (white : is_marked m s p ≡ false) where
    marked : Points (after sys m e white) p (with_mark m o)
    marked = Points-put s p (with_mark m o) e.ne_null

    unset : (bit_and o.flags m == m) ≡ false
    unfolding has_mark
    unset = rw e.holds at white

    -- The round at an object that is no pair.
    run_leaf :
        (o.type == sys.pair_type) ≡ false
        → mark_loop sys (suc k) base m null p s ≡ ok p (after sys m e white)
    unfolding mark_loop
    run_leaf leaf =
        rw (not_null e, x_obj_flags-ok e, unset, set_flags-ok e, isspair-ok marked sys, leaf)

    -- The round at a pair: the two walks that it makes, one after the other.
    run_pair :
        {a b r r' : Word} {us : List Word} {t u : State} {o' : Obj}
        → (o.type == sys.pair_type) ≡ true
        → o.units ≡ a ∷ b ∷ us
        → hook_fn (x_base_field_heap_mark base) base (after sys m e white)
          ≡ ok null (after sys m e white)
        → mark_loop sys k base m null a (after sys m e white) ≡ ok r t
        → Points t p o'
        → o'.units ≡ a ∷ b ∷ us
        → mark_loop sys k base m null b t ≡ ok r' u
        → mark_loop sys (suc k) base m null p s ≡ ok r' u
    unfolding mark_loop
    run_pair pair eq none_set one e' eq' two = rw (
      not_null e,
      x_obj_flags-ok e,
      unset,
      set_flags-ok e,
      isspair-ok marked sys,
      pair,
      x_firstobj-ok marked eq,
      none_set,
      one,
      x_restobj-ok e' eq',
      two,
    )

  module _ (dom : List Ptr) where
    pub walk :
        (k : ℕ) (s : State) (p : Ptr)
        → white_count m s dom < k
        → Covers dom s
        → Pairs sys s
        → NoHook s
        → Valid sys s p
        → Walked k s p
    walk zero s p enough cover pairs quiet valid = absurd (omega arith)
    walk (suc k) s p enough cover pairs quiet (inl nil) = stop k s p (inl nil) (λ h. absurd (h nil))
    walk (suc k) s p enough cover pairs quiet (inr (o, e)) = elim (Bool-cases (is_marked m s p)) [
      | inl black ↦ stop k s p (inr (o, e)) (λ _. black)
      | inr white ↦ elim (Bool-cases (o.type == sys.pair_type)) [
        | inl pair ↦
            let ty = eq_of_== o.type sys.pair_type pair in
            let (a, b, us, eq, va, vb) = pairs p o e ty in
            let c = Change-after sys m e white in
            let fewer = white_count-lt m c p dom (cover p o e) white (marked_after sys m e white) in
            let (r, t, one, ms) =
              walk k (after sys m e white) a (omega (arith, fewer)) (Covers-forth m c dom cover)
                (Pairs-forth sys m c pairs) (NoHook-forth c quiet) (Valid-forth sys m c va) in
            let d = Change-trans m c ms.change in
            let (o', e', _, us') = image m d e in
            let (r', u, two, ms') =
              walk k t b (omega (arith, fewer, white_count-le m ms.change dom))
                (Covers-forth m d dom cover) (Pairs-forth sys m d pairs) (NoHook-forth d quiet)
                (Valid-forth sys m d vb) in
            (
              r',
              u,
              run_pair k e white pair eq (quiet _ c) one e' (us' ∙ eq) two,
              Marks-pair sys m e white ty eq ms ms',
            )
        | inr leaf ↦
            (p, after sys m e white, run_leaf k e white leaf, Marks-leaf sys m e white leaf)
      ]
    ]
