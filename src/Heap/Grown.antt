-- ===== src/Heap/Grown.antt =====
-- One more allocation keeps the heap sound.
use x_expr.Prelude.{
  ℕ, ◌≡◌, refl, ◌⊎◌, inl, inr, true, false, some, List, [], ◌∷◌, arith, ◌==◌, has, sym, ap, subst,
  ◌∙◌, Bool-cases, eq_of_==, ==_of_eq, ==_of_ne,
}
use x_expr.Memory.{Word, Ptr, null, Obj, object, State}
use x_expr.Memory.Points.{Points, Points-unique}
use x_expr.Sys.{System}
use x_expr.Obj.{x_obj_flag_own, x_obj_flag_shared, x_obj_flag_none}
use x_expr.Obj.Free.{own_block}
use x_expr.Obj.Make.{relink, made, whole, made-Points}
use x_expr.Heap.Mark.{Valid}
use x_expr.Heap.Chain.{link, frame}
use x_expr.Heap.Sweep.{retained, released}
use x_expr.Heap.Sweep.Ready.{Ready, free, Ready-frame}
use x_expr.Heap.Collect.{is_clean}
use x_expr.Heap.Invariant.{Sound, Fresh, chain-holds, dead-released, no_flags, apart_on}

module _ (sys : System) (m : ℕ) (base : Ptr) where
  module _ {s : State} {xs dom : List Ptr} (so : Sound sys m base s xs dom) (type : Ptr)
      (units : List Word) (p : Ptr) (n : ℕ) (fresh : Fresh sys base s n p) where
    abbrev new : Obj
    new = whole so.cell.heap type x_obj_flag_none units

    abbrev pub grown : State
    grown = made s base p new

    off_chain : has p xs ≡ false
    off_chain = elim (Bool-cases (has p xs)) [
      | inl on ↦ absurd (chain-holds so.chain on fresh.no_obj)
      | inr off ↦ off
    ]

    same_objs : (q : Ptr) → (q == base) ≡ false → (q == p) ≡ false → grown.objs q ≡ s.objs q
    same_objs q h h' = rw (==_of_ne base null so.at.ne_null, h, h')

    on_chain : (q : Ptr) → has q xs ≡ true → grown.objs q ≡ s.objs q
    on_chain q on = same_objs q (apart_on xs q base on so.apart) (apart_on xs q p on off_chain)

    unowned : own_block new ≡ null
    unfolding own_block
    unowned = refl

    at_new : Points grown p new
    at_new = made-Points s base p new fresh.set fresh.other

    not_kept : retained m (grown.objs p) ≡ false
    unfolding retained
    not_kept = rw (at_new.holds, no_flags m, no_flags x_obj_flag_shared)

    at_home : grown.blocks p ≡ some (object p)
    at_home = rw (==_of_ne base null so.at.ne_null, ==_of_eq p p refl)

    new_clean : is_clean m (some new) ≡ true
    new_clean = rw (no_flags m)

    same_blocks : (b : Ptr) → has b (released m s xs) ≡ true → grown.blocks b ≡ s.blocks b
    same_blocks b h =
        let off = dead-released m p so.ready fresh.no_block in
        rw (==_of_ne base null so.at.ne_null, apart_on (released m s xs) b p h off)

    new-Ready : Ready m grown (p ∷ xs)
    new-Ready =
        free {o = new} not_kept
          (record {
            points = at_new;
            home = at_home;
            owned = inl unowned;
            unit = inl (no_flags x_obj_flag_own);
          })
          (inl unowned) (Ready-frame m so.ready on_chain same_blocks)

    base_after : Points grown base (relink p so.cell)
    base_after = record {
      ne_null = so.at.ne_null;
      holds = rw (
        ==_of_ne base null so.at.ne_null,
        ==_of_eq base base refl,
        ==_of_ne base p (λ e. fresh.other (sym e)),
        so.at.holds,
      );
    }

    -- An object of the new state is the new one, or was there but for the base's link.
    pub was_there :
        (q : Ptr) (o : Obj)
        → Points grown q o
        → ((q ≡ p) × (o ≡ new))
          ⊎ ((o' : Obj) × Points s q o' × (o'.type ≡ o.type) × (o'.units ≡ o.units))
    was_there q o e = elim (Bool-cases (q == p)) [
      | inl same ↦ inl (
        eq_of_== q p same,
        Points-unique e (subst (λ x. Points grown x new) (sym (eq_of_== q p same)) at_new),
      )
      | inr not_p ↦ elim (Bool-cases (q == base)) [
        | inl is_base ↦
            let eq = eq_of_== q base is_base in
            let o_is : o ≡ relink p so.cell =
              Points-unique e
                (subst (λ x. Points grown x (relink p so.cell)) (sym eq) base_after) in
            inr (
              so.cell,
              subst (λ x. Points s x so.cell) (sym eq) so.at,
              ap (λ (c : Obj). c.type) (sym o_is),
              ap (λ (c : Obj). c.units) (sym o_is),
            )
        | inr not_base ↦ inr (
          o,
          record { ne_null = e.ne_null; holds = sym (same_objs q not_base not_p) ∙ e.holds },
          refl,
          refl,
        )
      ]
    ]

    Valid-grown : {a : Ptr} → Valid sys s a → Valid sys grown a
    Valid-grown (inl nothing) = inl nothing
    Valid-grown {a} (inr (o, e)) = elim (Bool-cases (a == base)) [
      | inl is_base ↦ inr (
        relink p so.cell,
        subst (λ x. Points grown x (relink p so.cell)) (sym (eq_of_== a base is_base)) base_after,
      )
      | inr not_base ↦ elim (Bool-cases (a == p)) [
        | inl is_p ↦ inr (new, subst (λ x. Points grown x new) (sym (eq_of_== a p is_p)) at_new)
        | inr not_p ↦
            inr (o, record { ne_null = e.ne_null; holds = same_objs a not_base not_p ∙ e.holds })
      ]
    ]

    -- The invariant with the new object, if it is a pair only with units that lead to objects or NULL.
    pub Sound-grown :
        (type ≡ sys.pair_type → (a b : Word) × (units ≡ a ∷ b ∷ []) × Valid sys s a × Valid sys s b)
        → Sound sys m base grown (p ∷ xs) (p ∷ dom)
    Sound-grown fits = record {
      cell = relink p so.cell;
      rest = so.rest;
      at = base_after;
      bare = so.bare;
      unset = so.unset;
      chain = link at_new off_chain (frame so.chain on_chain);
      apart = rw (==_of_ne base p (λ e. fresh.other (sym e)), so.apart);
      ready = new-Ready;
      clean = λ q on. elim (Bool-cases (q == p)) [
        | inl same ↦ ap (is_clean m) (ap grown.objs (eq_of_== q p same) ∙ at_new.holds) ∙ new_clean
        | inr other ↦
            let on' : has q xs ≡ true = rw other at on in
            ap (is_clean m) (on_chain q on') ∙ so.clean q on'
      ];
      pairs = λ q o e ty. elim (was_there q o e) [
        | inl (_, is_new) ↦
            let (a, b, us, va, vb) = fits (ap (λ (c : Obj). c.type) (sym is_new) ∙ ty) in
            (a, b, [], ap (λ (c : Obj). c.units) is_new ∙ us, Valid-grown va, Valid-grown vb)
        | inr (o', e', ty', us') ↦
            let (a, b, us, eq, va, vb) = so.pairs q o' e' (ty' ∙ ty) in
            (a, b, us, sym us' ∙ eq, Valid-grown va, Valid-grown vb)
      ];
      covers = λ q o e. elim (was_there q o e) [
        | inl (is_p, _) ↦ rw (==_of_eq q p is_p)
        | inr (o', e', _, _) ↦ ground (arith, so.covers q o' e')
      ];
    }
