-- ===== src/Heap/Mark.antt =====
-- x_heap_tree_mark on a tree of pairs, where no mark hook is installed: it ends, and it marks exactly
-- what unmarked objects lead to.
use x_expr.Prelude.{
  ℕ, ◌≡◌, refl, ◌≢◌, ◌⊎◌, inl, inr, true, false, some, List, ◌∷◌, ◌==◌, Bool-cases, ==_of_eq,
  eq_of_==, ne_of_==, sym, ap, subst, ◌∙◌,
}
use x_expr.Memory.{Word, Ptr, null, Obj, State, put_obj}
use x_expr.Memory.Points.{Points, Points-unique}
use x_expr.Sys.{System}
use x_expr.Heap.Marked.{
  with_mark, has_mark, has_mark-with_mark, is_marked, Change, Change-refl, Change-mark,
  Change-trans, is_marked-Change, kept_of_white, origin, image,
}

first_units : {a a' b b' : Word} {us us' : List Word} → a ∷ b ∷ us ≡ a' ∷ b' ∷ us' → a ≡ a'
first_units h = cc

second_units : {a a' b b' : Word} {us us' : List Word} → a ∷ b ∷ us ≡ a' ∷ b' ∷ us' → b ≡ b'
second_units h = cc

module _ (sys : System) where
  -- `r` is the first or the rest of the pair at `p`, and not nil.
  pub data Child (s : State) (p r : Ptr) : Type 0 where
    first :
        {o : Obj} {b : Word} {us : List Word}
        → Points s p o
        → o.type ≡ sys.pair_type
        → o.units ≡ r ∷ b ∷ us
        → r ≢ null
        → Child s p r
    rest :
        {o : Obj} {a : Word} {us : List Word}
        → Points s p o
        → o.type ≡ sys.pair_type
        → o.units ≡ a ∷ r ∷ us
        → r ≢ null
        → Child s p r

  -- A way from `p` to `q` from parent to child, all over objects without the mask.
  pub data White (m : ℕ) (s : State) : Ptr → Ptr → Type 0 where
    here : {p : Ptr} → is_marked m s p ≡ false → White m s p p
    step : {p r q : Ptr} → is_marked m s p ≡ false → Child s p r → White m s r q → White m s p q

  -- NULL, or the address of an object.
  abbrev pub Valid : State → Ptr → Type 0
  Valid s p = (p ≡ null) ⊎ ((o : Obj) × Points s p o)

  -- Every pair has two units, and they are NULL or lead to objects.
  abbrev pub Pairs : State → Type 0
  Pairs s =
      (p : Ptr) (o : Obj)
      → Points s p o
      → o.type ≡ sys.pair_type
      → (a b : Word) × (us : List Word) × (o.units ≡ a ∷ b ∷ us) × Valid s a × Valid s b

  module _ (m : ℕ) where
    -- What a walk from `p` does to a state.
    pub record Marks (s : State) (p : Ptr) (t : State) : Type 0 where
      pub change : Change m s t
      pub root : p ≢ null → is_marked m t p ≡ true
      pub closed :
          (q r : Ptr)
          → is_marked m s q ≡ false
          → is_marked m t q ≡ true
          → Child s q r
          → is_marked m t r ≡ true
      pub sound :
          (q : Ptr) → is_marked m s q ≡ false → is_marked m t q ≡ true → (p ≢ null) × White m s p q

    module _ {s t : State} (c : Change m s t) where
      -- The pairs and their units are the same on both sides of a change.
      pub Child-forth : {q r : Ptr} → Child s q r → Child t q r
      Child-forth (first e ty us h) =
          let (o', e', ty', us') = image m c e in first e' (ty' ∙ ty) (us' ∙ us) h
      Child-forth (rest e ty us h) =
          let (o', e', ty', us') = image m c e in rest e' (ty' ∙ ty) (us' ∙ us) h

      pub Child-back : {q r : Ptr} → Child t q r → Child s q r
      Child-back (first e ty us h) =
          let (o', e', ty', us') = origin m c e in first e' (ty' ∙ ty) (us' ∙ us) h
      Child-back (rest e ty us h) =
          let (o', e', ty', us') = origin m c e in rest e' (ty' ∙ ty) (us' ∙ us) h

      pub white-back : (q : Ptr) → is_marked m t q ≡ false → is_marked m s q ≡ false
      white-back q h = ap (has_mark m) (sym (kept_of_white m q c h)) ∙ h

      pub White-back : {q r : Ptr} → White m t q r → White m s q r
      White-back (here {p} h) = here (white-back p h)
      White-back (step {p} h child w) = step (white-back p h) (Child-back child) (White-back w)

      pub Valid-forth : {q : Ptr} → Valid s q → Valid t q
      Valid-forth (inl h) = inl h
      Valid-forth (inr (o, e)) = let (o', e', _, _) = image m c e in inr (o', e')

      pub Pairs-forth : Pairs s → Pairs t
      Pairs-forth pairs p o e ty =
          let (o', e', ty', us') = origin m c e in
          let (a, b, us, eq, va, vb) = pairs p o' e' (ty' ∙ ty) in
          (a, b, us, sym us' ∙ eq, Valid-forth va, Valid-forth vb)

    -- Nothing is done at NULL or at a marked object.
    pub Marks-none : {s : State} {p : Ptr} → (p ≢ null → is_marked m s p ≡ true) → Marks s p s
    Marks-none {s} h = record {
      change = Change-refl m s;
      root = h;
      closed = λ q r white black child. cc;
      sound = λ q white black. cc;
    }

    module _ {s : State} {p : Ptr} {o : Obj} (e : Points s p o)
        (white : is_marked m s p ≡ false) where
      abbrev pub after : State
      after = put_obj s p (some (with_mark m o))

      pub Change-after : Change m s after
      Change-after = Change-mark m e white

      pub marked_after : is_marked m after p ≡ true
      marked_after = rw (==_of_eq p p refl) (has_mark-with_mark m o)

      -- Only the object itself is new.
      new_after : (q : Ptr) → is_marked m s q ≡ false → is_marked m after q ≡ true → q ≡ p
      new_after q w b = elim (Bool-cases (q == p)) [
        | inl same ↦ eq_of_== q p same
        | inr other ↦ let b' : is_marked m s q ≡ true = rw other at b in absurd (cc)
      ]

      -- An object that is no pair has no children.
      pub Marks-leaf : (o.type == sys.pair_type) ≡ false → Marks s p after
      Marks-leaf leaf = record {
        change = Change-after;
        root = λ _. marked_after;
        closed = λ q r w b child. absurd (childless (new_after q w b) child);
        sound = λ q w b. (e.ne_null, rw (new_after q w b) (here white));
      }
        where
          no_type : {q : Ptr} {o' : Obj} → q ≡ p → Points s q o' → o'.type ≡ sys.pair_type → ⊥
          no_type {o'} eq e' ty =
              ne_of_== _ _ leaf
                (ap (λ (x : Obj). x.type) (Points-unique e (subst (λ x. Points s x o') eq e')) ∙ ty)

          childless : {q r : Ptr} → q ≡ p → Child s q r → ⊥
          childless eq (first e' ty us h) = no_type eq e' ty
          childless eq (rest e' ty us h) = no_type eq e' ty

      module _ {a b : Word} {us : List Word} (ty : o.type ≡ sys.pair_type)
          (eq : o.units ≡ a ∷ b ∷ us) where
        -- The children of the pair are its first and its rest.
        Child-cases : {q r : Ptr} → q ≡ p → Child s q r → (r ≢ null) × ((r ≡ a) ⊎ (r ≡ b))
        Child-cases {q} {r} same (first {o = o'} e' _ us' h) =
            let e'' = Points-unique e (subst (λ x. Points s x o') same e') in
            (h, inl (first_units (sym us' ∙ ap (λ (x : Obj). x.units) (sym e'') ∙ eq)))
        Child-cases {q} {r} same (rest {o = o'} e' _ us' h) =
            let e'' = Points-unique e (subst (λ x. Points s x o') same e') in
            (h, inr (second_units (sym us' ∙ ap (λ (x : Obj). x.units) (sym e'') ∙ eq)))

        still_white :
            (q : Ptr) → (q == p) ≡ false → is_marked m s q ≡ false → is_marked m after q ≡ false
        still_white q other w = rw other w

        -- Walking the first and then the rest, after the pair itself.
        pub Marks-pair : {t u : State} → Marks after a t → Marks t b u → Marks s p u
        Marks-pair {t} {u} one two = record {
          change = whole;
          root =
              λ _. is_marked-Change m p two.change (is_marked-Change m p one.change marked_after);
          closed = λ q r w black child. elim (Bool-cases (q == p)) [
            | inl same ↦
                let (h, which) = Child-cases (eq_of_== q p same) child in
                elim which [
                  | inl is_a ↦
                      is_marked-Change m r two.change (rw is_a (one.root (λ n. h (is_a ∙ n))))
                  | inr is_b ↦ rw is_b (two.root (λ n. h (is_b ∙ n)))
                ]
            | inr other ↦ elim (Bool-cases (is_marked m t q)) [
              | inl early ↦
                  is_marked-Change m r two.change
                    (one.closed q r (still_white q other w) early (Child-forth Change-after child))
              | inr late ↦ two.closed q r late black (Child-forth to_t child)
            ]
          ];
          sound = λ q w black. (
            e.ne_null,
            elim (Bool-cases (q == p)) [
              | inl same ↦ rw (eq_of_== q p same) (here white)
              | inr other ↦ elim (Bool-cases (is_marked m t q)) [
                | inl early ↦
                    let (h, way) = one.sound q (still_white q other w) early in
                    step white (first e ty eq h) (White-back Change-after way)
                | inr late ↦
                    let (h, way) = two.sound q late black in
                    step white (rest e ty eq h) (White-back to_t way)
              ]
            ],
          );
        }
          where
            to_t : Change m s t
            to_t = Change-trans m Change-after one.change

            whole : Change m s u
            whole = Change-trans m to_t two.change
