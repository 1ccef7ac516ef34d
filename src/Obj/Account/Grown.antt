-- ===== src/Obj/Account/Grown.antt =====
-- The account of a full base after one x_obj_make of src/x-obj.c.
use x_expr.Prelude.{
  ℕ, suc, ◌+◌, ◌*◌, ◌%◌, ◌^◌, ◌≤◌, ◌≡◌, ◌≢◌, true, false, none, some, List, [], ◌∷◌, has, length,
  arith, refl, sym, ap, ◌∙◌, inl, inr, Bool-cases,
}
use mathlib.Core.Option
use x_expr.Memory.{Word, Ptr, null, Obj, bytes, object, State, slt, put_obj, word_inc}
use x_expr.Memory.Points.{Points, Points-put, Points-put_other}
use x_expr.Memory.Reads.{body, Extends}
use x_expr.Sys.{System, put_block}
use x_expr.Obj.{x_obj_size, x_obj_flag_own, x_obj_flag_meta, has_flag}
use x_expr.Obj.Alloc.{Config}
use x_expr.Obj.Full.{Full, counted, home, extended, enlarged}
use x_expr.Obj.Account.Core.{Core}
use x_expr.Obj.Account.Live.{Held, Held-put, Held-put_block, one, member, Live-frame}
use x_expr.Obj.Account.Invariant.{
  Accounted, flag-kept, flag-extended, Extends-put, Extends-none, tail_eq,
}

module _ (sys : System) {core s : State} {base : Ptr} {c : Config} {a : Ptr} {xs : List Ptr}
    (k : Core core base c a) (acc : Accounted core base c a s xs) {bo : Obj}
    (full : Full s base c (length xs % 2 ^ 64) a (acc.ao) bo) where
  module _ (type : Ptr) (flags : ℕ) (p : Ptr) (args : List Word)
      (unowned : has_flag flags x_obj_flag_own ≡ false)
      (plain : has_flag flags x_obj_flag_meta ≡ false) (set : p ≢ null)
      (free_block : s.blocks p ≡ none) (free_home : s.objs (p + x_obj_size * c.extra) ≡ none) where
    abbrev pub new : Ptr
    new = home sys full type flags p args

    abbrev pub grown : State
    grown = enlarged sys full type flags p args args

    pub new_away : (q : Ptr) {o : Obj} → Points s q o → q ≢ new
    new_away q e same = ground (arith, e.holds, free_home, same)

    base_away : {q : Ptr} → Held core c.extra a s q → q ≢ base
    base_away held same = ground (arith, held.off_core, k.at_base.holds, same)

    abbrev counts : State
    counts =
        put_block (counted sys full word_inc (put_block s p (some bytes))) p (some (object new))

    off_core : core.objs new ≡ none
    off_core = Extends-none core s (p + x_obj_size * c.extra) acc.within free_home

    base_there :
        (put_obj counts new (some (extended sys full type flags p args args))).objs base ≡ some bo
    base_there =
        (Points-put_other new (some (extended sys full type flags p args args))
          (Points-put_other a
            (some (record acc.ao { units = word_inc (length xs % 2 ^ 64) ∷ full.rest }))
            full.at_base full.apart)
          (new_away base full.at_base)).holds

    home_set : new ≢ null
    home_set e = set (omega (arith, e))

    grown-within : Extends core grown
    grown-within =
        Extends-put core (put_obj counts new (some (extended sys full type flags p args args))) base
          (some (record bo { heap = new }))
          (Extends-put core counts new (some (extended sys full type flags p args args))
            (Extends-put core s a
              (some (record acc.ao { units = word_inc (length xs % 2 ^ 64) ∷ full.rest }))
              acc.within (inl k.no_count))
            (inl off_core))
          (inr (ap (Option.map body) base_there))

    grown-held : (q : Ptr) → Held core c.extra a s q → Held core c.extra a grown q
    grown-held q held =
        let got = Held-put_block held p (some bytes) (λ e. ground (arith, free_block, e)) in
        let counted_one =
          Held-put got a
            (some (record acc.ao { units = word_inc (length xs % 2 ^ 64) ∷ full.rest }))
            held.off_count in
        let placed = Held-put_block counted_one p (some (object new)) (λ e. ground (arith, e)) in
        let filled =
          Held-put placed new (some (extended sys full type flags p args args))
            (new_away q held.at) in
        Held-put filled base (some (record bo { heap = new })) (base_away held)

    new-held : Held core c.extra a grown new
    new-held = record {
      obj = extended sys full type flags p args args;
      at =
          Points-put_other base (some (record bo { heap = new }))
            (Points-put counts new (extended sys full type flags p args args) home_set)
            (λ e. new_away base full.at_base (sym e));
      unowned = flag-kept c.extra flags unowned;
      flagged = flag-extended c.extra flags plain;
      block = p;
      home = refl;
      block_set = set;
      in_block = ground arith;
      off_core = off_core;
      off_count = λ e. new_away a acc.at_count (sym e);
    }

    new_out : has new xs ≡ false
    new_out = elim (Bool-cases (has new xs)) [
      | inl there ↦ absurd (new_away new (member acc.live there).at refl)
      | inr out ↦ out
    ]

    -- The count's atom has no unit but the count.
    counted_unit : word_inc (length xs % 2 ^ 64) ∷ full.rest ≡ length (new ∷ xs) % 2 ^ 64 ∷ []
    counted_unit =
        let one_more : word_inc (length xs % 2 ^ 64) ≡ suc (length xs) % 2 ^ 64 = omega arith in
        rw (tail_eq (sym full.count_unit ∙ acc.count_unit), one_more)

    count_there :
        Points grown a (record acc.ao { units = word_inc (length xs % 2 ^ 64) ∷ full.rest })
    count_there =
        let at_counts : Points counts a
            (record acc.ao { units = word_inc (length xs % 2 ^ 64) ∷ full.rest }) =
          record { ne_null = acc.at_count.ne_null; holds = ground arith } in
        Points-put_other base (some (record bo { heap = new }))
          (Points-put_other new (some (extended sys full type flags p args args)) at_counts
            (new_away a acc.at_count))
          (λ e. full.apart (sym e))

    pub grown-Accounted :
        (slt 0 c.limit ≡ true → length (new ∷ xs) ≤ c.limit)
        → Accounted core base c a grown (new ∷ xs)
    grown-Accounted room = record {
      within = grown-within;
      ao = record acc.ao { units = word_inc (length xs % 2 ^ 64) ∷ full.rest };
      at_count = count_there;
      count_unit = counted_unit;
      live = one new-held new_out (Live-frame acc.live (λ q h held. grown-held q held));
      bounded = room;
    }
