-- ===== src/Heap/Bodies.antt =====
-- States that differ in links, flags and extra metadata only: the same pairs with the same units.
use x_expr.Prelude.{ℕ, ◌≡◌, inl, inr, none, some, List, has, sym, ap, ◌∙◌, Bool-cases, Option-cases}
use mathlib.Core.Option
use x_expr.Memory.{Ptr, Obj, State}
use x_expr.Memory.Points.{Points}
use x_expr.Memory.Reads.{Body, body, SameBodies}
use x_expr.Sys.{System}
use x_expr.Heap.Mark.{Valid, Pairs}
use x_expr.Heap.MarkRun.{Covers}
use x_expr.Heap.Clear.{cleared}

none_ne_some : {b : Body} → none ≡ some b → ⊥
none_ne_some h = cc

same_body : {a b : Body} → some a ≡ some b → a ≡ b
same_body h = cc

-- An object and its counterpart on the other side.
counterpart :
    {s t : State} {p : Ptr} {o : Obj}
    → SameBodies s t
    → Points t p o
    → (o' : Obj) × Points s p o' × (o'.type ≡ o.type) × (o'.units ≡ o.units)
counterpart {s} {t} {p} {o} same e = elim (Option-cases (s.objs p)) [
  | inl gone ↦
      absurd
        (none_ne_some (sym (ap (Option.map body) gone) ∙ same p ∙ ap (Option.map body) e.holds))
  | inr (o', e') ↦
      let eq = same_body (sym (ap (Option.map body) e') ∙ same p ∙ ap (Option.map body) e.holds) in
      (
        o',
        record { ne_null = e.ne_null; holds = e' },
        ap (λ (b : Body). b.type) eq,
        ap (λ (b : Body). b.units) eq,
      )
]

Valid-Same : (sys : System) {s t : State} {p : Ptr} → SameBodies s t → Valid sys s p → Valid sys t p
Valid-Same sys {s} {t} same (inl nil) = inl nil
Valid-Same sys {s} {t} same (inr (o, e)) =
    let (o', e', _, _) = counterpart {s = t} {t = s} (λ q. sym (same q)) e in inr (o', e')

pub Pairs-Same : (sys : System) {s t : State} → SameBodies s t → Pairs sys s → Pairs sys t
Pairs-Same sys {s} {t} same pairs = λ p o e ty.
    let (o', e', ty', us') = counterpart {s = s} {t = t} same e in
    let (a, b, us, eq, va, vb) = pairs p o' e' (ty' ∙ ty) in
    (
      a,
      b,
      us,
      sym us' ∙ eq,
      Valid-Same sys {s = s} {t = t} same va,
      Valid-Same sys {s = s} {t = t} same vb,
    )

pub Covers-Same : (dom : List Ptr) {s t : State} → SameBodies s t → Covers dom s → Covers dom t
Covers-Same dom {s} {t} same cover =
    λ p o e. let (o', e', _, _) = counterpart {s = s} {t = t} same e in cover p o' e'

pub SameBodies-cleared : (m : ℕ) (xs : List Ptr) (s : State) → SameBodies s (cleared m xs s)
SameBodies-cleared m xs s q = elim (Bool-cases (has q xs)) [
  | inl on ↦ elim (Option-cases (s.objs q)) [ inl gone ↦ rw (on, gone) | inr (o, e) ↦ rw (on, e) ]
  | inr off ↦ rw off
]
