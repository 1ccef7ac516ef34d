-- ===== src/Memory/Reads.antt =====
-- Commands that read types and data units and write nothing: they do the same in a state that agrees
-- on those. A walk over the base's fields is one, so marking or relinking objects does not disturb it.
use x_expr.Prelude.{
  ℕ, ◌≡◌, refl, Bool, true, false, none, ◌⊎◌, inr, arith, if◌then◌else◌, subst, List,
}
use mathlib.Core.Option
use x_expr.Memory.{
  Word, Ptr, Obj, State, Run, ok, jumped, exited, fault, out_of_fuel, Cmd, pure, and_then, ◌>>=◌,
  load, unit_at,
}

pub record Body : Type 0 where
  pub type : Ptr
  pub units : List Word

abbrev pub body : Obj → Body
body o = record { type = o.type; units = o.units }

-- The same objects, up to heap link, flags and extra metadata.
abbrev pub SameBodies : State → State → Type 0
SameBodies s t = (p : Ptr) → Option.map body (s.objs p) ≡ Option.map body (t.objs p)

-- The objects of the first state are in the second, up to heap link, flags and extra metadata.
abbrev pub Extends : State → State → Type 0
Extends s t =
    (p : Ptr) → (s.objs p ≡ none) ⊎ (Option.map body (s.objs p) ≡ Option.map body (t.objs p))

pub Extends-Same : (s t : State) → SameBodies s t → Extends s t
Extends-Same s t same p = inr (same p)

-- What the command yields in a state it yields in a state that extends it, and it writes nothing.
abbrev pub Reads : {A : Type 0} → Cmd A → Type 0
Reads {A} m =
    (s t : State) → Extends s t → (a : A) (s' : State) → m s ≡ ok a s' → (m t ≡ ok a t) × (s' ≡ s)

pub and_then-eq-ok :
    {A B : Type 0} (r : Run A) (f : A → Cmd B) {b : B} {s' : State}
    → and_then r f ≡ ok b s'
    → (a : A) × (s : State) × (r ≡ ok a s) × (f a s ≡ ok b s')
and_then-eq-ok (ok a s) f h = (a, s, refl, h)
and_then-eq-ok (jumped s) f h = absurd (cc)
and_then-eq-ok (exited n s) f h = absurd (cc)
and_then-eq-ok fault f h = absurd (cc)
and_then-eq-ok out_of_fuel f h = absurd (cc)

pub Reads-pure : {A : Type 0} (a : A) → Reads (pure a)
Reads-pure a s t same b s' h = (ground arith, ground arith)

module _ {A B : Type 0} where
  pub Reads-bind : (m : Cmd A) (f : A → Cmd B) → Reads m → ((a : A) → Reads (f a)) → Reads (m >>= f)
  Reads-bind m f rm rf s t same b s' h =
      let (a, s1, e1, e2) = and_then-eq-ok (m s) f h in
      let (e1', back) = rm s t same a s1 e1 in
      let (e2', back') = rf a s t same b s' (subst (λ x. f a x ≡ ok b s') back e2) in
      (rw e1' e2', back')

pub Reads-if :
    {A : Type 0} (c : Bool) {m n : Cmd A} → Reads m → Reads n → Reads (if c then m else n)
Reads-if true rm rn = rm
Reads-if false rm rn = rn

-- A data unit of the object at `p`.
pub Reads-unit : (p : Ptr) (i : ℕ) → Reads (do o ← load p; unit_at o.units i)
unfolding load unit_at
Reads-unit p i s t same w s' h = ground (arith, same p)

pub Reads-type : (p : Ptr) → Reads (do o ← load p; pure o.type)
unfolding load
Reads-type p s t same w s' h = ground (arith, same p)
