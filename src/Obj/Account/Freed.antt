-- ===== src/Obj/Account/Freed.antt =====
-- The account of a full base after one x_obj_free of src/x-obj.c.
use x_expr.Prelude.{
  ◌%◌, ◌^◌, ◌≡◌, ◌≢◌, true, none, some, List, [], ◌∷◌, has, length, arith, sym, subst, ◌∙◌, inl,
}
use x_expr.Memory.{Ptr, Obj, State, put_obj, word_dec}
use x_expr.Memory.Points.{Points, Points-put_other}
use x_expr.Memory.Reads.{Extends}
use x_expr.Sys.{System, put_block}
use x_expr.Obj.Alloc.{Config}
use x_expr.Obj.Full.{Full, counted}
use x_expr.Obj.Account.{without}
use x_expr.Obj.Account.Core.{Core}
use x_expr.Obj.Account.Live.{
  Held, Held-put, Held-put_block, member, Live-frame, Live-without, length-without, not_in-without,
}
use x_expr.Obj.Account.Invariant.{Accounted, Extends-put, same_object, tail_eq}

module _ (sys : System) {core s : State} {base : Ptr} {c : Config} {a : Ptr} {xs : List Ptr}
    (k : Core core base c a) (acc : Accounted core base c a s xs) {bo : Obj}
    (full : Full s base c (length xs % 2 ^ 64) a (acc.ao) bo) where
  module _ (q : Ptr) (there : has q xs ≡ true) where
    abbrev pub held : Held core c.extra a s q
    held = member acc.live there

    abbrev pub freed : State
    freed = put_obj (put_block (counted sys full word_dec s) (held.block) none) q none

    freed-within : Extends core freed
    freed-within =
        Extends-put core (counted sys full word_dec s) q none
          (Extends-put core s a
            (some (record acc.ao { units = word_dec (length xs % 2 ^ 64) ∷ full.rest })) acc.within
            (inl k.no_count))
          (inl held.off_core)

    different : (r : Ptr) → has r (without q xs) ≡ true → q ≢ r
    different r h e =
        ground
          (arith, not_in-without q acc.live, subst (λ x. has x (without q xs) ≡ true) (sym e) h)

    freed-held :
        (r : Ptr)
        → has r (without q xs) ≡ true
        → Held core c.extra a s r
        → Held core c.extra a freed r
    freed-held r h other =
        let counted_one =
          Held-put other a
            (some (record acc.ao { units = word_dec (length xs % 2 ^ 64) ∷ full.rest }))
            other.off_count in
        let given_back =
          Held-put_block counted_one (held.block) none
            (λ e. different r h (same_object (sym held.in_block ∙ e))) in
        Held-put given_back q none (λ e. different r h (sym e))

    less_unit : word_dec (length xs % 2 ^ 64) ∷ full.rest ≡ length (without q xs) % 2 ^ 64 ∷ []
    less_unit =
        let one_less : word_dec (length xs % 2 ^ 64) ≡ length (without q xs) % 2 ^ 64 =
          omega (arith, length-without q xs there) in
        rw (tail_eq (sym full.count_unit ∙ acc.count_unit), one_less)

    at_counted :
        Points
          (put_block (counted sys full word_dec s) (held.block) none)
          a
          (record acc.ao { units = word_dec (length xs % 2 ^ 64) ∷ full.rest })
    at_counted = record { ne_null = acc.at_count.ne_null; holds = ground arith }

    pub freed-Accounted : Accounted core base c a freed (without q xs)
    freed-Accounted = record {
      within = freed-within;
      ao = record acc.ao { units = word_dec (length xs % 2 ^ 64) ∷ full.rest };
      at_count = Points-put_other q none at_counted (λ e. held.off_count (sym e));
      count_unit = less_unit;
      live = Live-frame (Live-without q acc.live) freed-held;
      bounded = λ armed. omega (arith, acc.bounded armed, length-without q xs there);
    }
