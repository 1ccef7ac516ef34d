-- ===== src/Heap/Collect.antt =====
-- A collection as include/x-heap.h describes it: mark from a root, then sweep the chain.
use x_expr.Prelude.{
  ℕ, ◌≡◌, refl, ◌≢◌, inl, inr, Bool, true, false, not, Option, none, some, List, [], ◌∷◌, ◌||◌,
  arith, has, subst, ◌∙◌, Bool-cases, Option-cases, ==_of_eq, ==_of_ne,
}
use mathlib.Core.Option
use x_expr.Bits.{bit_and-bit_or, bit_clear-bit_or, bit_clear-disjoint}
use x_expr.Memory.{Ptr, Obj, State}
use x_expr.Obj.{x_obj_flag_shared, has_flag}
use x_expr.Heap.Marked.{with_mark, has_mark, has_mark-with_mark, is_marked, Change}
use x_expr.Heap.Clear.{without}
use x_expr.Heap.Chain.{Chain, nil, link}
use x_expr.Heap.Sweep.{released, blocks_of}
use x_expr.Heap.Sweep.{retained}
use x_expr.Obj.Free.{own_block}
use x_expr.Heap.Sweep.Ready.{Ready, done, keep, free, has-append}

-- Whether the object at an address is shared.
abbrev pub is_shared : Option Obj → Bool
is_shared none = false
is_shared (some o) = has_flag o.flags x_obj_flag_shared

-- The object has none of the mark flags.
abbrev pub is_clean : ℕ → Option Obj → Bool
is_clean m none = true
is_clean m (some o) = not (has_flag o.flags m)

-- A chain keeps its links when marks are set.
pub Chain-Change :
    {m : ℕ} {s t : State} {p : Ptr} {xs : List Ptr} → Change m s t → Chain s p xs → Chain t p xs
Chain-Change c nil = nil
Chain-Change {m} {s} {t} c (link {p} {o} e out rest) = elim (c.objs p) [
  | inl same ↦
      link {o = o} (record { ne_null = e.ne_null; holds = same ∙ e.holds }) out
        (Chain-Change c rest)
  | inr (_, new) ↦
      link {o = with_mark m o} (record { ne_null = e.ne_null; holds = new ∙ rw e.holds }) out
        (Chain-Change c rest)
]

-- A mask of at least one bit.
module _ (m : ℕ) (some_bit : m ≢ 0) where
  pub white_of_clean : (c : Option Obj) → is_clean m c ≡ true → has_mark m c ≡ false
  unfolding has_mark
  white_of_clean none h = refl
  white_of_clean (some o) h = ground (arith, some_bit)

  pub retained-clean : (c : Option Obj) → is_clean m c ≡ true → retained m c ≡ is_shared c
  unfolding retained
  retained-clean none h = refl
  retained-clean (some o) h = ground arith

  retained-with_mark : (o : Obj) → retained m (some (with_mark m o)) ≡ true
  unfolding retained
  retained-with_mark o = rw (bit_and-bit_or o.flags m, ==_of_ne m 0 some_bit)

  module _ {s t : State} (c : Change m s t) where
    -- An object after the marks were set: as it was, or marked now.
    pub data Outcome (q : Ptr) : Type 0 where
      same : t.objs q ≡ s.objs q → is_marked m t q ≡ false → Outcome q
      marked :
          {o : Obj}
          → s.objs q ≡ some o
          → t.objs q ≡ some (with_mark m o)
          → is_marked m t q ≡ true
          → Outcome q

    pub outcome : (q : Ptr) → is_clean m (s.objs q) ≡ true → Outcome q
    outcome q clean = elim (c.objs q) [
      | inl as_before ↦ same as_before (rw as_before (white_of_clean (s.objs q) clean))
      | inr (_, new) ↦ elim (Option-cases (s.objs q)) [
        | inl gone ↦ same (simp (new, gone)) (rw new (rw gone (white_of_clean none refl)))
        | inr (o, e) ↦ marked {o = o} e (simp (new, e)) (rw new (rw e (has_mark-with_mark m o)))
      ]
    ]

    -- What is kept is marked or shared.
    pub retained-Change :
        (q : Ptr)
        → is_clean m (s.objs q) ≡ true
        → retained m (t.objs q) ≡ (is_marked m t q || is_shared (s.objs q))
    retained-Change q clean = go (outcome q clean)
      where
        go : Outcome q → retained m (t.objs q) ≡ (is_marked m t q || is_shared (s.objs q))
        go (same e white) = rw (white, e) (retained-clean (s.objs q) clean)
        go (marked {o} e e' black) = rw (black, e') (retained-with_mark o)

    -- Marking and sweeping gives an object its flags back.
    pub without-Change :
        (q : Ptr) → is_clean m (s.objs q) ≡ true → Option.map (without m) (t.objs q) ≡ s.objs q
    without-Change q clean = go (outcome q clean)
      where
        go : Outcome q → Option.map (without m) (t.objs q) ≡ s.objs q
        go (same e white) = rw e (untouched (s.objs q) clean)
          where
            untouched : (c : Option Obj) → is_clean m c ≡ true → Option.map (without m) c ≡ c
            untouched none h = refl
            untouched (some o) h = rw (bit_clear-disjoint o.flags m (ground arith))
        go (marked {o} e e' black) =
            rw (e', e) (restored o (subst (λ x. is_clean m x ≡ true) e clean))
          where
            restored :
                (o : Obj) → is_clean m (some o) ≡ true → some (without m (with_mark m o)) ≡ some o
            restored o h = rw (bit_clear-bit_or o.flags m (ground arith))

-- Every object of a chain has none of the mark flags.
abbrev pub AllClean : ℕ → State → List Ptr → Type 0
AllClean m s xs = (q : Ptr) → has q xs ≡ true → is_clean m (s.objs q) ≡ true

or_false : (a b : Bool) → (a || b) ≡ false → (a ≡ false) × (b ≡ false)
or_false a b h = ground arith

module _ (m : ℕ) (some_bit : m ≢ 0) {s t : State} (c : Change m s t) where
  -- Marks only save blocks.
  released-Change :
      (b : Ptr) (xs : List Ptr)
      → AllClean m s xs
      → has b (released m s xs) ≡ false
      → has b (released m t xs) ≡ false
  released-Change b [] clean out = refl
  released-Change b (q ∷ qs) clean out =
      go (released-Change b qs (λ x h. clean x (ground (arith, h))) tail)
        (outcome m some_bit c q (clean q (rw (==_of_eq q q refl))))
    where
      tail : has b (released m s qs) ≡ false
      tail = elim (Bool-cases (retained m (s.objs q))) [
        | inl k ↦ rw k at out
        | inr g ↦ (or_false _ _ (rw (g, has-append) at out)).1
      ]

      go :
          has b (released m t qs) ≡ false
          → Outcome m some_bit c q
          → has b (released m t (q ∷ qs)) ≡ false
      go later (marked {o} e e' black) = rw (e', retained-with_mark m some_bit o) later
      go later (same e white) = elim (Bool-cases (retained m (s.objs q))) [
        | inl k ↦ rw (e, k) later
        | inr g ↦
            let own : has b (blocks_of q (s.objs q)) ≡ false =
              (or_false _ _ (rw (g, has-append) at out)).0 in
            rw (e, g, has-append, later, own)
      ]

  pub Ready-Change : {xs : List Ptr} → AllClean m s xs → Ready m s xs → Ready m t xs
  Ready-Change clean done = done
  Ready-Change {xs} clean (keep {q} {qs} k r) =
      keep (go (outcome m some_bit c q (clean q (rw (==_of_eq q q refl)))))
        (Ready-Change (λ x h. clean x (ground (arith, h))) r)
    where
      go : Outcome m some_bit c q → retained m (t.objs q) ≡ true
      go (same e white) = rw e k
      go (marked {o} e e' black) = rw e' (retained-with_mark m some_bit o)
  Ready-Change clean (free {q} {qs} {o} g d apart r) =
      go (Ready-Change (λ x h. clean x (ground (arith, h))) r)
        (outcome m some_bit c q (clean q (rw (==_of_eq q q refl))))
    where
      clean' : AllClean m s qs
      clean' = λ x h. clean x (ground (arith, h))

      go : Ready m t qs → Outcome m some_bit c q → Ready m t (q ∷ qs)
      go rest (marked {o = o'} e e' black) = keep (rw e' (retained-with_mark m some_bit o')) rest
      go rest (same e white) =
          free {qs = qs} {o = o} (rw e g)
            (record {
              points = record { ne_null = d.points.ne_null; holds = e ∙ d.points.holds };
              home = rw c.blocks d.home;
              owned = rw c.blocks d.owned;
              unit = d.unit;
            })
            (elim apart [
              | inl unowned ↦ inl unowned
              | inr out ↦ inr (released-Change (own_block o) qs clean' out)
            ])
            rest
