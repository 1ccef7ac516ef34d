-- ===== src/Heap/Sweep/Loop.antt =====
-- The loop of x_heap_sweep over a chain behind an object that stays, for a base whose fields are not
-- read and no free hook: it ends, and leaves what `Swept` says.
use x_expr.Prelude.{
  ℕ, ◌≡◌, refl, inl, inr, Bool, true, false, not, Option, none, some, List, [], ◌∷◌, ◌||◌, ◌&&◌,
  arith, ◌==◌, has, ap, sym, subst, ◌∙◌, if◌then◌else◌, Bool-cases, eq_of_==, ==_of_eq,
}
use mathlib.Core.Option
use x_expr.Memory.{Ptr, null, Obj, Block, State, put_obj}
use x_expr.Memory.Points.{Points}
use x_expr.Obj.Free.{own_block, disposed}
use x_expr.Heap.Chain.{Chain, nil, link, has-cons_false}
use x_expr.Heap.Clear.{without}
use x_expr.Heap.Sweep.{retained, blocks_of, released, after_sweep, unlink_if, unlinked, Swept}
use x_expr.Heap.Sweep.Ready.{survivors-frame, released-frame, not_survivor, has-append}

-- Where no link is left out, the objects are equal.
unlink_if-false : (c : Option Obj) → Option.map (unlink_if false) c ≡ c
unfolding unlink_if
unlink_if-false none = refl
unlink_if-false (some o) = refl

-- What agrees with few links left out agrees with more.
widen :
    (b b' : Bool) (c d : Option Obj)
    → (b ≡ true → b' ≡ true)
    → Option.map (unlink_if b) c ≡ Option.map (unlink_if b) d
    → Option.map (unlink_if b') c ≡ Option.map (unlink_if b') d
widen true b' c d h same = rw (h refl) same
widen false b' c d h same =
    ap (Option.map (unlink_if b')) (sym (unlink_if-false c) ∙ same ∙ unlink_if-false d)

off :
    (b : Bool) {c d : Option Obj}
    → b ≡ false
    → Option.map (unlink_if b) c ≡ Option.map (unlink_if b) d
    → c ≡ d
off b {c} {d} h same = sym (unlink_if-false c) ∙ (rw h at same) ∙ unlink_if-false d

-- A block among those of an object or among later ones, against taking them away in turn.
block_choice :
    (b node w : Ptr) (later : Bool) (x : Option Block)
    → (if later
        then none
        else if b == node
        then none
        else if not (w == null) && b == w
        then none
        else x)
      ≡ (if has b (if w == null then node ∷ [] else node ∷ w ∷ []) || later then none else x)
block_choice b node w later x = elim (Bool-cases (w == null)) [
  | inl unowned ↦ rw unowned (ground arith)
  | inr own ↦ rw own (ground arith)
]

abbrev pub kept : ℕ → State → Ptr → Obj → State
kept m s node o = put_obj s node (some (without m o))

-- The state after `node` was taken off the chain behind `prev`, and after it was freed.
abbrev pub relinked : State → Ptr → Obj → Obj → State
relinked s prev po o = put_obj s prev (some (record po { heap = o.heap }))

abbrev pub dropped : State → Ptr → Obj → Ptr → Obj → State
dropped s prev po node o = disposed (relinked s prev po o) node o

module _ (m : ℕ) where
  -- An empty chain.
  pub Swept-nil :
      {s : State} {prev : Ptr} {o : Obj} → Points s prev o → o.heap ≡ null → Swept m s prev [] s
  Swept-nil {s} {prev} {o} e h = record {
    head = o;
    points = e;
    chain = rw h nil;
    objs = λ q. refl;
    blocks = λ b. refl;
    buffers = refl;
    calls = refl;
  }

  module _ {s : State} {prev node : Ptr} {po o : Obj} (xs : List Ptr) (ep : Points s prev po)
      (hangs : po.heap ≡ node) (apart : has prev (node ∷ xs) ≡ false) (e : Points s node o)
      (out : has node xs ≡ false) where
    pub kept_same : (q : Ptr) → has q xs ≡ true → (kept m s node o).objs q ≡ s.objs q
    kept_same q h = elim (Bool-cases (q == node)) [
      | inl same ↦ let no : has q xs ≡ false = rw (eq_of_== q node same) out in absurd (cc)
      | inr other ↦ rw other
    ]

    after_keep :
        retained m (s.objs node) ≡ true
        → (q : Ptr) → after_sweep m xs (kept m s node o) q ≡ after_sweep m (node ∷ xs) s q
    after_keep k q = elim (Bool-cases (q == node)) [
      | inl same ↦
          let eq = eq_of_== q node same in
          let out' : has q xs ≡ false = rw eq out in
          let k' : retained m (s.objs q) ≡ true = rw eq k in
          let e' : s.objs q ≡ some o = rw eq e.holds in rw (same, out', k', e')
      | inr other ↦ rw other
    ]

    pub Swept-keep :
        {t : State}
        → retained m (s.objs node) ≡ true
        → Swept m (kept m s node o) node xs t
        → Swept m s prev (node ∷ xs) t
    Swept-keep {t} k w = record {
      head = po;
      points = record {
        ne_null = ep.ne_null;
        holds =
            off (has prev (node ∷ xs)) apart (w.objs prev) ∙ after_keep k prev ∙ rw apart ep.holds;
      };
      chain =
          rw (k, hangs)
            (link w.points (not_survivor m s node xs out) (
              subst (λ l. Chain t w.head.heap l)
                (survivors-frame m s (kept m s node o) xs kept_same) w.chain));
      objs = λ q.
          widen (has q (node ∷ xs)) (has q (prev ∷ node ∷ xs)) (t.objs q) _ (λ h. ground (arith, h))
            (w.objs q ∙ ap (Option.map (unlinked (node ∷ xs) q)) (after_keep k q));
      blocks = λ b. w.blocks b ∙ rw (released-frame m s (kept m s node o) xs kept_same, k);
      buffers = w.buffers;
      calls = w.calls;
    }

    pub prev_ne_node : (prev == node) ≡ false
    prev_ne_node = (has-cons_false prev node xs apart).0

    pub dropped_same : (q : Ptr) → has q xs ≡ true → (dropped s prev po node o).objs q ≡ s.objs q
    dropped_same q h =
        rw (differs q h node out, differs q h prev (has-cons_false prev node xs apart).1)
      where
        differs : (q : Ptr) → has q xs ≡ true → (r : Ptr) → has r xs ≡ false → (q == r) ≡ false
        differs q h r out' = elim (Bool-cases (q == r)) [
          | inl same ↦ let no : has q xs ≡ false = rw (eq_of_== q r same) out' in absurd (cc)
          | inr other ↦ other
        ]

    pub Points-dropped : Points (dropped s prev po node o) prev (record po { heap = o.heap })
    Points-dropped = record {
      ne_null = ep.ne_null;
      holds = rw (prev_ne_node, ==_of_eq prev prev refl);
    }

    module _ (gone : retained m (s.objs node) ≡ false) where
      -- Every object but the one before it is what it should be.
      after_free :
          (q : Ptr)
          → Option.map
              (unlinked (prev ∷ node ∷ xs) q)
              (after_sweep m xs (dropped s prev po node o) q)
            ≡ Option.map (unlinked (prev ∷ node ∷ xs) q) (after_sweep m (node ∷ xs) s q)
      unfolding unlink_if
      after_free q = elim (Bool-cases (q == node)) [
        | inl same ↦
            let eq = eq_of_== q node same in
            let out' : has q xs ≡ false = rw eq out in
            let gone' : retained m (s.objs q) ≡ false = rw eq gone in rw (same, out', gone')
        | inr other ↦ elim (Bool-cases (q == prev)) [
          | inl at_prev ↦
              let eq = eq_of_== q prev at_prev in
              let out' : has q xs ≡ false = rw eq (has-cons_false prev node xs apart).1 in
              let e' : s.objs q ≡ some po = rw eq ep.holds in rw (other, at_prev, out', e')
          | inr elsewhere ↦ rw (other, elsewhere)
        ]
      ]

      blocks_free :
          (b : Ptr)
          → (if has b (released m s xs) then none else (dropped s prev po node o).blocks b)
            ≡ (if has b (released m s (node ∷ xs)) then none else s.blocks b)
      unfolding blocks_of
      blocks_free b =
          rw (gone, has-append, e.holds)
            (block_choice b node (own_block o) (has b (released m s xs)) (s.blocks b))

      pub Swept-free :
          {t : State} → Swept m (dropped s prev po node o) prev xs t → Swept m s prev (node ∷ xs) t
      Swept-free {t} w = record {
        head = w.head;
        points = w.points;
        chain = rw gone (
            subst (λ l. Chain t w.head.heap l)
              (survivors-frame m s (dropped s prev po node o) xs dropped_same) w.chain);
        objs = λ q.
            widen (has q (prev ∷ xs)) (has q (prev ∷ node ∷ xs)) (t.objs q) _
              (λ h. ground (arith, h)) (w.objs q)
            ∙ after_free q;
        blocks = λ b.
            w.blocks b
            ∙ rw (released-frame m s (dropped s prev po node o) xs dropped_same) (blocks_free b);
        buffers = w.buffers;
        calls = w.calls;
      }
