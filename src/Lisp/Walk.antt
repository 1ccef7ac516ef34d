-- ===== src/Lisp/Walk.antt =====
-- The accessors of include/x-obj.h and include/x-lisp.h on nested pairs.
use x_expr.Prelude.{
  ◌≡◌, refl, Bool, true, false, Option, none, some, List, [], ◌∷◌, subst, sym, ap, ◌∙◌,
  Option-cases, inl, inr,
}
use mathlib.Core.Option
use x_expr.Memory.{Word, Ptr, State, Obj, ok, fault, Cmd, pure, ◌>>=◌}
use x_expr.Memory.Points.{Points}
use x_expr.Obj.{x_firstobj, x_restobj}
use x_expr.Obj.Access.{x_firstobj-ok, x_restobj-ok}
use x_expr.Obj.Path.{
  bit_accessor, x_0, x_1, x_00, x_01, x_10, x_11, x_000, x_001, x_010, x_011, x_100, x_101, x_110,
  x_111, x_0000, x_0001, x_0010, x_0011, x_0100, x_0101, x_0110, x_0111, x_1000, x_1001, x_1010,
  x_1011, x_1100, x_1101, x_1110, x_1111,
}
use x_expr.Lisp.{
  lisp_accessor, x_car, x_cdr, x_caar, x_cadr, x_cdar, x_cddr, x_caaar, x_caadr, x_cadar, x_caddr,
  x_cdaar, x_cdadr, x_cddar, x_cdddr, x_caaaar, x_caaadr, x_caadar, x_caaddr, x_cadaar, x_cadadr,
  x_caddar, x_cadddr, x_cdaaar, x_cdaadr, x_cdadar, x_cdaddr, x_cddaar, x_cddadr, x_cdddar,
  x_cddddr,
}

-- Pairs of pairs, down to words that are not looked into.
pub data Nest : Type 0 where
  leaf : Word → Nest
  node : Nest → Nest → Nest

-- The pairs stand in memory, the outermost at an address.
pub data Held (s : State) : Word → Nest → Type 0 where
  is_leaf : {w : Word} → Held s w (leaf w)
  is_node :
      {p a b : Word} {x y : Nest} {o : Obj} {us : List Word}
      → Points s p o
      → o.units ≡ a ∷ b ∷ us
      → Held s a x
      → Held s b y
      → Held s p (node x y)

abbrev pub half : Bool → Nest → Option Nest
half bit (leaf w) = none
half false (node x y) = some x
half true (node x y) = some y

-- The part at a path, whose leftmost bit is the last step.
unfoldable pub part : List Bool → Nest → Option Nest
part [] x = some x
part (bit ∷ path) x = Option.bind (part path x) (half bit)

step : Bool → Ptr → Cmd Ptr
step false = x_firstobj
step true = x_restobj

walk : List Bool → Ptr → Cmd Ptr
walk [] p = pure p
walk (bit ∷ path) p = walk path p >>= step bit

-- Both tables name the walk along the bits, or neither names anything.
data Named (path : List Bool) : Type 0 where
  unnamed : bit_accessor path ≡ none → lisp_accessor path ≡ none → Named path
  named :
      {f g : Ptr → Cmd Ptr}
      → bit_accessor path ≡ some f
      → lisp_accessor path ≡ some g
      → ((p : Ptr) (s : State) → f p s ≡ walk path p s)
      → ((p : Ptr) (s : State) → g p s ≡ walk path p s)
      → Named path

path-Named : (path : List Bool) → Named path
unfolding bit_accessor lisp_accessor walk step x_0 x_1 x_00 x_01 x_10 x_11 x_000 x_001 x_010 x_011
    x_100 x_101 x_110 x_111 x_0000 x_0001 x_0010 x_0011 x_0100 x_0101 x_0110 x_0111 x_1000 x_1001
    x_1010 x_1011 x_1100 x_1101 x_1110 x_1111 x_car x_cdr x_caar x_cadr x_cdar x_cddr x_caaar
    x_caadr x_cadar x_caddr x_cdaar x_cdadr x_cddar x_cdddr x_caaaar x_caaadr x_caadar x_caaddr
    x_cadaar x_cadadr x_caddar x_cadddr x_cdaaar x_cdaadr x_cdadar x_cdaddr x_cddaar x_cddadr
    x_cdddar x_cddddr
path-Named [] = unnamed refl refl
path-Named (false ∷ []) = named refl refl (λ p s. refl) (λ p s. refl)
path-Named (true ∷ []) = named refl refl (λ p s. refl) (λ p s. refl)
path-Named (false ∷ false ∷ []) = named refl refl (λ p s. refl) (λ p s. refl)
path-Named (false ∷ true ∷ []) = named refl refl (λ p s. refl) (λ p s. refl)
path-Named (true ∷ false ∷ []) = named refl refl (λ p s. refl) (λ p s. refl)
path-Named (true ∷ true ∷ []) = named refl refl (λ p s. refl) (λ p s. refl)
path-Named (false ∷ false ∷ false ∷ []) = named refl refl (λ p s. refl) (λ p s. refl)
path-Named (false ∷ false ∷ true ∷ []) = named refl refl (λ p s. refl) (λ p s. refl)
path-Named (false ∷ true ∷ false ∷ []) = named refl refl (λ p s. refl) (λ p s. refl)
path-Named (false ∷ true ∷ true ∷ []) = named refl refl (λ p s. refl) (λ p s. refl)
path-Named (true ∷ false ∷ false ∷ []) = named refl refl (λ p s. refl) (λ p s. refl)
path-Named (true ∷ false ∷ true ∷ []) = named refl refl (λ p s. refl) (λ p s. refl)
path-Named (true ∷ true ∷ false ∷ []) = named refl refl (λ p s. refl) (λ p s. refl)
path-Named (true ∷ true ∷ true ∷ []) = named refl refl (λ p s. refl) (λ p s. refl)
path-Named (false ∷ false ∷ false ∷ false ∷ []) = named refl refl (λ p s. refl) (λ p s. refl)
path-Named (false ∷ false ∷ false ∷ true ∷ []) = named refl refl (λ p s. refl) (λ p s. refl)
path-Named (false ∷ false ∷ true ∷ false ∷ []) = named refl refl (λ p s. refl) (λ p s. refl)
path-Named (false ∷ false ∷ true ∷ true ∷ []) = named refl refl (λ p s. refl) (λ p s. refl)
path-Named (false ∷ true ∷ false ∷ false ∷ []) = named refl refl (λ p s. refl) (λ p s. refl)
path-Named (false ∷ true ∷ false ∷ true ∷ []) = named refl refl (λ p s. refl) (λ p s. refl)
path-Named (false ∷ true ∷ true ∷ false ∷ []) = named refl refl (λ p s. refl) (λ p s. refl)
path-Named (false ∷ true ∷ true ∷ true ∷ []) = named refl refl (λ p s. refl) (λ p s. refl)
path-Named (true ∷ false ∷ false ∷ false ∷ []) = named refl refl (λ p s. refl) (λ p s. refl)
path-Named (true ∷ false ∷ false ∷ true ∷ []) = named refl refl (λ p s. refl) (λ p s. refl)
path-Named (true ∷ false ∷ true ∷ false ∷ []) = named refl refl (λ p s. refl) (λ p s. refl)
path-Named (true ∷ false ∷ true ∷ true ∷ []) = named refl refl (λ p s. refl) (λ p s. refl)
path-Named (true ∷ true ∷ false ∷ false ∷ []) = named refl refl (λ p s. refl) (λ p s. refl)
path-Named (true ∷ true ∷ false ∷ true ∷ []) = named refl refl (λ p s. refl) (λ p s. refl)
path-Named (true ∷ true ∷ true ∷ false ∷ []) = named refl refl (λ p s. refl) (λ p s. refl)
path-Named (true ∷ true ∷ true ∷ true ∷ []) = named refl refl (λ p s. refl) (λ p s. refl)
path-Named (_ ∷ _ ∷ _ ∷ _ ∷ _ ∷ _) = unnamed refl refl

none_ne_some : {x : Nest} → none ≡ some x → ⊥
none_ne_some h = cc

some_inj : {x y : Nest} → some x ≡ some y → x ≡ y
some_inj h = cc

step-Held :
    (bit : Bool) {s : State} {p : Ptr} {x y : Nest}
    → Held s p x
    → half bit x ≡ some y
    → (q : Ptr) × (step bit p s ≡ ok q s) × Held s q y
unfolding step
step-Held bit is_leaf e = absurd cc
step-Held false {s} (is_node {a} at us ha hb) e =
    (a, x_firstobj-ok at us, subst (Held s a) (some_inj e) ha)
step-Held true {s} (is_node {b} at us ha hb) e =
    (b, x_restobj-ok at us, subst (Held s b) (some_inj e) hb)

walk-Held :
    (path : List Bool) {s : State} {p : Ptr} {x y : Nest}
    → Held s p x
    → part path x ≡ some y
    → (q : Ptr) × (walk path p s ≡ ok q s) × Held s q y
unfolding walk part Option.bind
walk-Held [] {s} {p} h e = (p, refl, subst (Held s p) (some_inj e) h)
walk-Held (bit ∷ path) {s} {p} {x} {y} h e = elim (Option-cases (part path x)) [
  | inl none_there ↦ absurd (none_ne_some (sym (ap (λ o. Option.bind o (half bit)) none_there) ∙ e))
  | inr (z, e') ↦
      let (q, runs, hz) = walk-Held path h e' in
      let (r, runs', hy) = step-Held bit hz (sym (ap (λ o. Option.bind o (half bit)) e') ∙ e) in
      (r, rw runs runs', hy)
]

no_name : {f : Ptr → Cmd Ptr} → none ≡ some f → ⊥
no_name h = cc

-- What a table's entry does.
run : Option (Ptr → Cmd Ptr) → Ptr → Cmd Ptr
run none p s = fault
run (some f) p s = f p s

-- When a bit path of one to four bits names an accessor and nested pairs at the address have a part
-- at that path, its leftmost bit the last step, 0 for the first and 1 for the rest, then the
-- accessor returns where that part is, and the state is as before.
pub bit_accessor-Held :
    (path : List Bool) {f : Ptr → Cmd Ptr} {s : State} {p : Ptr} {x y : Nest}
    → bit_accessor path ≡ some f
    → Held s p x
    → part path x ≡ some y
    → (q : Ptr) × (f p s ≡ ok q s) × Held s q y
unfolding run
bit_accessor-Held path {f} {s} {p} is h e = elim (path-Named path) [
  | unnamed gone _ ↦ absurd (no_name (sym gone ∙ is))
  | named {f = f'} is' _ walks _ ↦
      let (q, runs, hy) = walk-Held path h e in
      (q, ap (λ o. run o p s) (sym is ∙ is') ∙ walks p s ∙ runs, hy)
]

-- Each Lisp accessor, x_car and x_cdr to x_cddddr, does the same on every address and state as the
-- bit-path accessor with 0 for each a and 1 for each d of its name, which is there.
pub lisp_accessor-bit_accessor :
    (path : List Bool) {g : Ptr → Cmd Ptr}
    → lisp_accessor path ≡ some g
    → (f : Ptr → Cmd Ptr) × (bit_accessor path ≡ some f) × ((p : Ptr) (s : State) → g p s ≡ f p s)
unfolding run
lisp_accessor-bit_accessor path {g} is = elim (path-Named path) [
  | unnamed _ gone ↦ absurd (no_name (sym gone ∙ is))
  | named {f} is_f is_g walks walks' ↦
      (f, is_f, λ p s. ap (λ o. run o p s) (sym is ∙ is_g) ∙ walks' p s ∙ sym (walks p s))
]
