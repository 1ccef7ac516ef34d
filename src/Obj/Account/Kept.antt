-- ===== src/Obj/Account/Kept.antt =====
-- The account of a full base in src/x-obj.c over any sequence of x_obj_make and x_obj_free.
use x_expr.Prelude.{
  ℕ, suc, ◌+◌, ◌*◌, ◌%◌, ◌^◌, ◌≤◌, ◌<◌, ◌≡◌, ◌≢◌, true, false, List, ◌∷◌, ◌==◌, has, length, arith,
  refl, sym, subst, ap, ◌∙◌, ◌⊎◌, inl, inr, Bool-cases, eq_of_==, ne_of_==,
}
use x_expr.Memory.{Word, Ptr, null, State, ok, fault, slt, sle}
use x_expr.Memory.Reads.{and_then-eq-ok}
use x_expr.Sys.{System}
use x_expr.Obj.{x_obj_size, x_obj_meta_len, x_obj_flag_own, x_obj_flag_meta, has_flag}
use x_expr.Obj.Alloc.{Config, field_int, fits, x_obj_alloc, x_obj_make, x_obj_free}
use x_expr.Obj.Ceiling.{alloc-ceiling}
use x_expr.Obj.Unmet.{alloc_unmet-nowhere}
use x_expr.Obj.Full.{Room, alloc-small, make-fits}
use x_expr.Obj.FullFree.{free-Full}
use x_expr.Base.{x_base_field_alloc_count}
use x_expr.Obj.Account.{Allocator, without, Steps, start, make, free}
use x_expr.Obj.Account.Core.{Core, Full-Core, Limited-Core, full-Core, extra-Core, count-Core}
use x_expr.Obj.Account.Live.{member}
use x_expr.Obj.Account.Invariant.{Accounted}
use x_expr.Obj.Account.Grown.{new_away, grown-Accounted}
use x_expr.Obj.Account.Freed.{freed-Accounted}

-- An allocation is stopped by the ceiling, or there is room.
Room-cases :
    (limit n : Word)
    → ((slt limit 0 ≡ true) ⊎ ((slt limit 0 ≡ false) × (slt 0 limit ≡ true) × (sle limit n ≡ true)))
      ⊎ Room limit n
Room-cases limit n = elim (Bool-cases (slt limit 0)) [
  | inl negative ↦ inl (inl negative)
  | inr sign ↦ elim (Bool-cases (slt 0 limit)) [
    | inr off ↦ inr (sign, λ armed. absurd (ground (arith, off, armed)))
    | inl armed ↦ elim (Bool-cases (sle limit n)) [
      | inl reached ↦ inl (inr (sign, armed, reached))
      | inr below ↦ inr (sign, λ _. below)
    ]
  ]
]

-- Below a positive limit there is room for one more.
one_more :
    (limit n : ℕ)
    → limit < 2 ^ 64
    → (slt 0 limit ≡ true → n ≤ limit)
    → Room limit (n % 2 ^ 64)
    → slt 0 limit ≡ true
    → suc n ≤ limit
one_more limit n word bounded room armed = ground (arith, word, bounded armed, room.1 armed, armed)

-- What x_obj_make returns, x_obj_alloc returned.
make_nowhere :
    (sys : System) (s : State) (base type : Ptr) (flags : ℕ) (args : List Word) {u : State}
    {q : Ptr}
    → ((p : Ptr) (t : State) → x_obj_alloc sys base type flags (length args) s ≢ ok p t)
    → x_obj_make sys base type flags args s ≢ ok q u
unfolding x_obj_make
make_nowhere sys s base type flags args out h =
    let (p, t, e, _) = and_then-eq-ok (x_obj_alloc sys base type flags (length args) s) _ h in
    out p t e

fault-not_ok : {A : Type 0} {x : A} {t : State} → fault ≢ ok x t
fault-not_ok h = cc

same_end : {A : Type 0} {x y : A} {t u : State} → ok x t ≡ ok y u → (x ≡ y) × (t ≡ u)
same_end h = (cc, cc)

module _ (sys : System) {core : State} {base : Ptr} {c : Config} {a : Ptr} (k : Core core base c a)
    (alloc : Allocator sys c.extra) where
  make-Accounted :
      {s u : State} {xs : List Ptr} {q : Ptr} (type : Ptr) (flags : ℕ) (args : List Word)
      → Accounted core base c a s xs
      → has_flag flags x_obj_flag_own ≡ false
      → has_flag flags x_obj_flag_meta ≡ false
      → x_obj_make sys base type flags args s ≡ ok q u
      → Accounted core base c a u (q ∷ xs)
  make-Accounted {s} {u} {xs} {q} type flags args acc unowned plain runs =
      let (bo, full) = Full-Core k acc.within acc.at_count acc.count_unit in
      let (cell, lo, lim) = Limited-Core k acc.within acc.at_count acc.count_unit in
      let request = x_obj_size * (c.extra + x_obj_meta_len + length args) % 2 ^ 64 in
      let p = sys.malloc s request in
      elim (Room-cases c.limit (length xs % 2 ^ 64)) [
        | inl stop ↦ absurd (
            make_nowhere sys s base type flags args
              (alloc-ceiling sys lim type flags (length args) stop) runs)
        | inr room ↦ elim (Bool-cases (p == null)) [
          | inl failed ↦ absurd (
              make_nowhere sys s base type flags args
                (λ r t.
                  alloc_unmet-nowhere sys full type flags (length args) room
                    (eq_of_== p null failed))
                runs)
          | inr got ↦
              let set = ne_of_== p null got in
              elim (Bool-cases (fits c.extra (length args))) [
                | inr small ↦ absurd (
                    make_nowhere sys s base type flags args
                      (λ r t e. absurd (
                        fault-not_ok
                          (sym (alloc-small sys full type flags p args room refl set small) ∙ e)))
                      runs)
                | inl enough ↦
                    let fresh = alloc s request set in
                    let away =
                      new_away sys k acc full type flags p args unowned plain set (fresh.0)
                        (fresh.1) in
                    let made =
                      make-fits sys full type flags p args room refl set enough
                        (λ e. set (omega (arith, e))) (λ e. away base bo full.at_base (sym e)) in
                    let (same, after) = same_end (sym made ∙ runs) in
                    subst (λ r. Accounted core base c a u (r ∷ xs)) same
                      (subst (λ v. Accounted core base c a v ((p + x_obj_size * c.extra) ∷ xs))
                        after
                        (grown-Accounted sys k acc full type flags p args unowned plain set
                          (fresh.0) (fresh.1)
                          (one_more c.limit (length xs) k.limit_word acc.bounded room)))
              ]
        ]
      ]

  free-Accounted :
      {s u : State} {xs : List Ptr} (q : Ptr)
      → Accounted core base c a s xs
      → has q xs ≡ true
      → x_obj_free base q s ≡ ok tt u
      → Accounted core base c a u (without q xs)
  free-Accounted {s} {u} {xs} q acc there runs =
      let (bo, full) = Full-Core k acc.within acc.at_count acc.count_unit in
      let held = member acc.live there in
      let gone =
        free-Full sys full held.block q (full-Core k acc.within) (extra-Core k acc.within) held.at
          held.off_count held.unowned held.flagged held.home held.block_set held.in_block in
      subst (λ v. Accounted core base c a v (without q xs)) ((same_end (sym gone ∙ runs)).1)
        (freed-Accounted sys k acc full q there)

  -- For a full base whose settings (the configuration, where the count and the limit are) can be
  -- read from a part of memory without the count's atom, and an allocator that gives free memory or
  -- NULL: any sequence of successful x_obj_make without X_OBJ_FLAG_OWN and X_OBJ_FLAG_META among
  -- the flags, and of x_obj_free of objects that were made so, keeps the account. That is, the
  -- base's settings are in place, the objects made and not freed are distinct and each stands in a
  -- live block of its own, the count is their number modulo the word, and a positive limit is not
  -- exceeded.
  pub Steps-Accounted :
      {s : State} {xs : List Ptr} {t : State} {ys : List Ptr}
      → Accounted core base c a s xs
      → Steps sys base s xs t ys
      → Accounted core base c a t ys
  Steps-Accounted acc start = acc
  Steps-Accounted acc (make type flags args steps unowned plain runs) =
      make-Accounted type flags args (Steps-Accounted acc steps) unowned plain runs
  Steps-Accounted acc (free q steps there runs) =
      free-Accounted q (Steps-Accounted acc steps) there runs

  -- Under the same conditions and with a positive limit, after any such sequence from a state with
  -- such an account the base's count reads as the number of objects made and not freed, without a
  -- wrap, and that number is at most the limit.
  pub Steps-bounded :
      {s t : State} {xs ys : List Ptr}
      → Accounted core base c a s xs
      → slt 0 c.limit ≡ true
      → Steps sys base s xs t ys
      → (field_int (x_base_field_alloc_count base) t ≡ ok (length ys) t) × (length ys ≤ c.limit)
  Steps-bounded {t} {ys} acc armed steps =
      let now = Steps-Accounted acc steps in
      let small : length ys % 2 ^ 64 ≡ length ys = omega (arith, now.bounded armed, k.limit_word) in
      (
        count-Core k now.within now.at_count now.count_unit ∙ ap (λ n. ok n t) small,
        now.bounded armed,
      )
