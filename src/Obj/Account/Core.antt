-- ===== src/Obj/Account/Core.antt =====
-- What x_obj_alloc and x_obj_free of src/x-obj.c read of a full base, apart from the count itself.
use x_expr.Prelude.{
  ◌<◌, ◌^◌, ◌≡◌, inl, inr, true, none, some, [], ◌∷◌, arith, Option-cases, ap, sym, ◌∙◌,
}
use mathlib.Core.Option
use x_expr.Memory.{Word, Ptr, Obj, State, ok, Cmd}
use x_expr.Memory.Points.{Points}
use x_expr.Memory.Reads.{Body, body, Extends, Reads, Reads-pure, Reads-bind, Reads-if}
use x_expr.Obj.{x_firstobj}
use x_expr.Obj.Access.{x_firstobj-ok}
use x_expr.Obj.Alloc.{Config, config, field_atom, field_int}
use x_expr.Obj.Full.{Full}
use x_expr.Obj.Ceiling.{Limited}
use x_expr.Base.{
  base_full, x_base_field_alloc_count, x_base_field_alloc_limit, x_base_field_alloc_error,
  x_base_field_obj_meta_extra,
}
use x_expr.Base.Reads.{
  Reads-firstobj, Reads-full, Reads-alloc_count, Reads-alloc_limit, Reads-alloc_error,
  Reads-obj_meta_extra,
}

Reads-field_atom : (field : Cmd Ptr) → Reads field → Reads (field_atom field)
unfolding field_atom
Reads-field_atom field r = Reads-bind field x_firstobj r Reads-firstobj

Reads-field_int : (field : Cmd Ptr) → Reads field → Reads (field_int field)
unfolding field_int
Reads-field_int field r =
    Reads-bind (field_atom field) x_firstobj (Reads-field_atom field r) Reads-firstobj

Reads-config : (base : Ptr) → Reads (config base)
unfolding config
Reads-config base = Reads-bind (base_full base) _ (Reads-full base) (λ full.
    Reads-if full
      (Reads-bind (field_int (x_base_field_obj_meta_extra base)) _
        (Reads-field_int _ (Reads-obj_meta_extra base))
        (λ extra.
          Reads-bind (field_int (x_base_field_alloc_limit base)) _
            (Reads-field_int _ (Reads-alloc_limit base))
            (λ limit.
              Reads-bind (field_atom (x_base_field_alloc_error base)) _
                (Reads-field_atom _ (Reads-alloc_error base)) (λ message. Reads-pure _))))
      (Reads-pure _))

-- Part of a state: the base, its tree, and the atoms of its settings. The count's atom `a` is not in
-- it, and reading the settings does not need it.
pub record Core (core : State) (base : Ptr) (c : Config) (a : Ptr) : Type 0 where
  pub bo : Obj
  pub at_base : Points core base bo
  pub limit_word : c.limit < 2 ^ 64
  pub configured : config base core ≡ ok c core
  pub is_full : c.full ≡ true
  pub full : base_full base core ≡ ok true core
  pub extra : field_int (x_base_field_obj_meta_extra base) core ≡ ok c.extra core
  pub counter : field_atom (x_base_field_alloc_count base) core ≡ ok a core
  pub no_count : core.objs a ≡ none
  pub cell : Ptr
  pub limit_atom : field_atom (x_base_field_alloc_limit base) core ≡ ok cell core
  pub lo : Obj
  pub at_limit : Points core cell lo
  pub limit_unit : lo.units ≡ c.limit ∷ []

some_inj : {x y : Body} → some x ≡ some y → x ≡ y
some_inj h = cc

-- An object of the part in the whole.
Extends-Points :
    {s t : State} {p : Ptr} {o : Obj}
    → Extends s t
    → Points s p o
    → (o' : Obj) × Points t p o' × (body o' ≡ body o)
Extends-Points {t} {p} {o} ext e = elim (ext p) [
  | inl missing ↦ absurd (cc)
  | inr same ↦ elim (Option-cases (t.objs p)) [
    | inl missing ↦ absurd (cc)
    | inr (o', h) ↦
        let both : some (body o) ≡ some (body o') =
          ap (Option.map body) (sym e.holds) ∙ same ∙ ap (Option.map body) h in
        (o', record { ne_null = e.ne_null; holds = h }, sym (some_inj both))
  ]
]

module _ {core s : State} {base : Ptr} {c : Config} {a : Ptr} (k : Core core base c a)
    (ext : Extends core s) where
  pub full-Core : base_full base s ≡ ok true s
  full-Core = (Reads-full base core s ext true core k.full).0

  pub extra-Core : field_int (x_base_field_obj_meta_extra base) s ≡ ok c.extra s
  extra-Core = (Reads-field_int _ (Reads-obj_meta_extra base) core s ext c.extra core k.extra).0

  counter-Core : field_atom (x_base_field_alloc_count base) s ≡ ok a s
  counter-Core = (Reads-field_atom _ (Reads-alloc_count base) core s ext a core k.counter).0

  config-Core : config base s ≡ ok c s
  config-Core = (Reads-config base core s ext c core k.configured).0

  module _ {n : Word} {ao : Obj} (at : Points s a ao) (unit : ao.units ≡ n ∷ []) where
    pub count-Core : field_int (x_base_field_alloc_count base) s ≡ ok n s
    unfolding field_int
    count-Core = rw counter-Core (x_firstobj-ok at unit)

    pub Full-Core : (bo : Obj) × Full s base c n a ao bo
    Full-Core =
        let (bo, e, same) = Extends-Points {s = core} ext k.at_base in
        (
          bo,
          record {
            rest = [];
            configured = config-Core;
            is_full = k.is_full;
            counter = counter-Core;
            at_count = at;
            count_unit = unit;
            at_base = e;
            apart = ground (arith, k.no_count, k.at_base.holds);
          },
        )

    pub Limited-Core : (cell : Ptr) × (lo : Obj) × Limited s base c n cell lo
    Limited-Core =
        let (lo, e, same) = Extends-Points {s = core} ext k.at_limit in
        (
          k.cell,
          lo,
          record {
            configured = config-Core;
            counted = count-Core;
            limit_atom =
                (Reads-field_atom _ (Reads-alloc_limit base) core s ext k.cell core k.limit_atom).0;
            points = e;
            unit = ap Body.units same ∙ k.limit_unit;
          },
        )
