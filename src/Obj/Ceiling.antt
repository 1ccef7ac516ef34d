-- ===== src/Obj/Ceiling.antt =====
-- The allocation ceiling of x_obj_alloc in src/x-obj.c: what a full base's limit stops, and how.
use x_expr.Prelude.{
  ℕ, ◌≡◌, refl, ◌≢◌, Bool, true, false, some, ◌⊎◌, inl, inr, [], ◌∷◌, ◌==◌, if◌then◌else◌, ◌∙◌, sym,
}
use x_expr.Memory.{
  Word, Ptr, null, Obj, State, Run, ok, exited, jumped, fault, out_of_fuel, Cmd, pure, ◌>>=◌,
  and_then, put_obj, slt, sle, minus_one,
}
use x_expr.Memory.Points.{Points}
use x_expr.Sys.{System, x_sys_exit}
use x_expr.Obj.{x_firstobj, x_obj_isnil}
use x_expr.Obj.Access.{set_data_i-ok, unit_zero}
use x_expr.Base.{x_base_field_alloc_count, x_base_field_alloc_limit}
use x_expr.Error.{stderr_fileno, x_error, x_obj_error}
use x_expr.Obj.Alloc.{
  Config, field_atom, field_int, config, report_and_exit, at_ceiling, trip, x_obj_alloc,
}

-- What a run of x_obj_alloc reads of the base: its configuration and, where the fields lead, the atoms
-- of the count and the limit.
pub record Limited (s : State) (base : Ptr) (c : Config) (count : Word) (cell : Ptr) (o : Obj)
    : Type 0 where
  pub configured : config base s ≡ ok c s
  pub counted : field_int (x_base_field_alloc_count base) s ≡ ok count s
  pub limit_atom : field_atom (x_base_field_alloc_limit base) s ≡ ok cell s
  pub points : Points s cell o
  pub unit : o.units ≡ c.limit ∷ []

-- The state with the limit at -1.
abbrev pub latched : State → Ptr → Obj → State
latched s cell o = put_obj s cell (some (record o { units = minus_one ∷ [] }))

-- What is left to happen after the report: the process stops with status 2. A nil message is not
-- reported.
abbrev pub stopped : Ptr → Cmd (Unit {0}) → State → Run Ptr
stopped message report s =
    if message == null then exited 2 s else and_then (report s) (λ _ t. exited 2 t)

-- The message atom's text, to standard error, and through x_obj_error.
abbrev pub direct_report : System → Ptr → Cmd (Unit {0})
direct_report sys message = do text ← x_firstobj message; x_error sys stderr_fileno text null

abbrev pub hooked_report : System → (base message : Ptr) → Cmd (Unit {0})
hooked_report sys base message = do text ← x_firstobj message; x_obj_error sys base text null

pub stopped_nowhere :
    (nil : Bool) (s : State) (report : Run (Unit {0})) {p : Ptr} {t : State}
    → (if nil then exited 2 s else and_then report (λ _ t. exited 2 t)) ≢ ok p t
stopped_nowhere true s report h = cc
stopped_nowhere false s (ok a t) h = cc
stopped_nowhere false s (jumped t) h = cc
stopped_nowhere false s (exited n t) h = cc
stopped_nowhere false s fault h = cc
stopped_nowhere false s out_of_fuel h = cc

-- The report's guard, pulled out of the run.
pub guarded :
    (nil : Bool) (report : Cmd (Unit {0})) (s : State)
    → and_then ((if nil then pure tt else report) s) (λ _. x_sys_exit {A = Ptr} 2)
      ≡ (if nil then exited 2 s else and_then (report s) (λ _ t. exited 2 t))
unfolding x_sys_exit
guarded true report s = refl
guarded false report s = refl

module _ (sys : System) {s : State} {base : Ptr} {c : Config} {count : Word} {cell : Ptr} {o : Obj}
    (l : Limited s base c count cell o) (type : Ptr) (flags units : ℕ) where
  -- Under a latched limit the message is reported directly, and the process stops.
  pub alloc-latched :
      slt c.limit 0 ≡ true
      → x_obj_alloc sys base type flags units s ≡ stopped c.message (direct_report sys c.message) s
  unfolding x_obj_alloc report_and_exit x_obj_isnil
  alloc-latched negative =
      rw (l.configured, negative) (guarded (c.message == null) (direct_report sys c.message) s)

  -- For a base whose configuration, count and limit atom can be read: when the limit is positive
  -- and reached by the count, x_obj_alloc writes -1 to the limit first. Then, unless the message is
  -- nil, it reports the message's text through x_obj_error, and if that returns the process stops
  -- with status 2.
  pub alloc-trip :
      slt c.limit 0 ≡ false
      → slt 0 c.limit ≡ true
      → sle c.limit count ≡ true
      → x_obj_alloc sys base type flags units s
        ≡ stopped c.message (hooked_report sys base c.message) (latched s cell o)
  unfolding x_obj_alloc at_ceiling trip x_obj_isnil
  alloc-trip sign armed reached =
      rw
        (
          l.configured,
          sign,
          armed,
          l.counted,
          reached,
          l.limit_atom,
          set_data_i-ok l.points 0 minus_one (unit_zero l.unit),
          l.unit,
        )
        (guarded (c.message == null) (hooked_report sys base c.message) (latched s cell o))

  -- For a base whose configuration, count and limit atom can be read: when the limit is negative,
  -- or positive and reached by the count, x_obj_alloc returns no object, whatever the message and
  -- the error hook do.
  pub alloc-ceiling :
      (slt c.limit 0 ≡ true)
        ⊎ ((slt c.limit 0 ≡ false) × (slt 0 c.limit ≡ true) × (sle c.limit count ≡ true))
      → (p : Ptr) (t : State) → x_obj_alloc sys base type flags units s ≢ ok p t
  alloc-ceiling (inl negative) p t h =
      stopped_nowhere (c.message == null) _ _ (sym (alloc-latched negative) ∙ h)
  alloc-ceiling (inr (sign, armed, reached)) p t h =
      stopped_nowhere (c.message == null) _ _ (sym (alloc-trip sign armed reached) ∙ h)
