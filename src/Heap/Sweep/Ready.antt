-- ===== src/Heap/Sweep/Ready.antt =====
-- Chains whose garbage can be freed: each object stands in a block of its own, and no two own the
-- same block.
use x_expr.Prelude.{
  ℕ, ◌≡◌, refl, ◌≢◌, ◌⊎◌, inl, inr, true, false, Option, none, some, List, [], ◌∷◌, ◌++◌, ◌||◌,
  arith, ◌==◌, has, ◌∙◌, Bool-cases, eq_of_==, ne_of_==, ==_of_eq,
}
use x_expr.Memory.{Ptr, null, Obj, object, State}
use x_expr.Obj.Free.{own_block, Disposable}
use x_expr.Heap.Sweep.{retained, survivors, blocks_of, released}

pub data Ready (m : ℕ) (s : State) : List Ptr → Type 0 where
  done : Ready m s []
  keep :
      {q : Ptr} {qs : List Ptr} → retained m (s.objs q) ≡ true → Ready m s qs → Ready m s (q ∷ qs)
  free :
      {q : Ptr} {qs : List Ptr} {o : Obj}
      → retained m (s.objs q) ≡ false
      → Disposable s q o
      → (own_block o ≡ null) ⊎ (has (own_block o) (released m s qs) ≡ false)
      → Ready m s qs
      → Ready m s (q ∷ qs)

pub has-append : (a : Ptr) (xs ys : List Ptr) → has a (xs ++ ys) ≡ (has a xs || has a ys)
has-append a [] ys = refl
has-append a (x ∷ xs) ys = ground (arith, has-append a xs ys)

-- Where the objects of the list agree, so do survivors and released blocks.
module _ (m : ℕ) (s t : State) where
  pub survivors-frame :
      (qs : List Ptr)
      → ((q : Ptr) → has q qs ≡ true → t.objs q ≡ s.objs q)
      → survivors m t qs ≡ survivors m s qs
  survivors-frame [] same = refl
  survivors-frame (q ∷ qs) same =
      rw (same q (ground arith), survivors-frame qs (λ r h. same r (ground arith)))

  pub released-frame :
      (qs : List Ptr)
      → ((q : Ptr) → has q qs ≡ true → t.objs q ≡ s.objs q)
      → released m t qs ≡ released m s qs
  released-frame [] same = refl
  released-frame (q ∷ qs) same =
      rw (same q (ground arith), released-frame qs (λ r h. same r (ground arith)))

module _ (m : ℕ) (s : State) where
  pub not_survivor : (a : Ptr) (qs : List Ptr) → has a qs ≡ false → has a (survivors m s qs) ≡ false
  not_survivor a [] h = refl
  not_survivor a (q ∷ qs) h = ground (arith, not_survivor a qs)

-- The address of an object's own block, and that of the block that it owns, go back with it.
home-blocks_of : (q : Ptr) (c : Option Obj) → has q (blocks_of q c) ≡ true
unfolding blocks_of
home-blocks_of q none = rw (==_of_eq q q refl)
home-blocks_of q (some o) = ground (arith, ==_of_eq q q refl)

own-blocks_of :
    (q : Ptr) (o : Obj) → own_block o ≢ null → has (own_block o) (blocks_of q (some o)) ≡ true
unfolding blocks_of
own-blocks_of q o h = ground (arith, ==_of_eq (own_block o) (own_block o) refl)

module _ (m : ℕ) where
  pub Ready-frame :
      {s t : State} {qs : List Ptr}
      → Ready m s qs
      → ((q : Ptr) → has q qs ≡ true → t.objs q ≡ s.objs q)
      → ((b : Ptr) → has b (released m s qs) ≡ true → t.blocks b ≡ s.blocks b)
      → Ready m t qs
  Ready-frame done same blocks = done
  Ready-frame (keep {q} {qs} k r) same blocks =
      keep (rw (same q (ground arith)) k)
        (Ready-frame r (λ x h. same x (ground arith)) (λ b h. blocks b (rw k h)))
  Ready-frame {s} {t} (free {q} {qs} {o} k d apart r) same blocks =
      let here : t.objs q ≡ s.objs q = same q (ground arith) in
      let there = λ (x : Ptr) (h : has x qs ≡ true). same x (ground arith) in
      let back = λ (b : Ptr) (h : has b (blocks_of q (s.objs q)) ≡ true).
        blocks b (released_here q qs b k h) in
      free {o = o} (rw here k)
        (record {
          points = record { ne_null = d.points.ne_null; holds = here ∙ d.points.holds };
          home = back q (home-blocks_of q (s.objs q)) ∙ d.home;
          owned = elim (Bool-cases (own_block o == null)) [
            | inl nil ↦ inl (eq_of_== _ _ nil)
            | inr own ↦
                let h = own-blocks_of q o (ne_of_== _ _ own) in
                elim d.owned [
                  | inl nil ↦ inl nil
                  | inr e ↦ inr (back (own_block o) (rw d.points.holds h) ∙ e)
                ]
          ];
          unit = d.unit;
        })
        (rw (released-frame m s t qs there) apart)
        (Ready-frame r there (λ b h. blocks b (released_there q qs b k h)))
    where
      released_here :
          (q : Ptr) (qs : List Ptr) (b : Ptr)
          → retained m (s.objs q) ≡ false
          → has b (blocks_of q (s.objs q)) ≡ true
          → has b (released m s (q ∷ qs)) ≡ true
      released_here q qs b k h = rw (k, has-append, h)

      released_there :
          (q : Ptr) (qs : List Ptr) (b : Ptr)
          → retained m (s.objs q) ≡ false
          → has b (released m s qs) ≡ true
          → has b (released m s (q ∷ qs)) ≡ true
      released_there q qs b k h = rw (k, has-append) (ground (arith, h))

  -- A block that holds an object off the list does not go back.
  pub not_released :
      {s : State} {qs : List Ptr} (b : Ptr)
      → Ready m s qs
      → s.blocks b ≡ some (object b)
      → has b qs ≡ false
      → has b (released m s qs) ≡ false
  unfolding blocks_of
  not_released b done home out = refl
  not_released b (keep {q} {qs} k r) home out = rw k (not_released b r home (ground arith))
  not_released {s} b (free {q} {qs} {o} k d apart r) home out =
      rw (k, has-append, not_released b r home (ground arith), d.points.holds)
        (apart_from b q o (ground arith) home d)
    where
      apart_from :
          (b q : Ptr) (o : Obj)
          → (b == q) ≡ false
          → s.blocks b ≡ some (object b)
          → Disposable s q o
          → (has b (blocks_of q (some o)) || false) ≡ false
      apart_from b q o ne home d = ground (arith, d.owned)
