-- ===== src/Base/Trees.antt =====
-- The tree that x_base_make of src/x-base.c writes, in memory, and walks along it. A tree with a base
-- apart has none of its nodes at the base's own address.
use x_expr.Prelude.{ℕ, zero, suc, ◌≡◌, refl, ◌≢◌, Option, none, some, List, [], ◌∷◌, subst}
use x_expr.Memory.{Word, Ptr, Obj, State, ok, Cmd, ◌>>=◌}
use x_expr.Memory.Points.{Points}
use x_expr.Sys.{System}
use x_expr.Obj.{x_obj_flag_shared, x_firstobj, x_restobj}
use x_expr.Obj.Access.{x_firstobj-ok, x_restobj-ok}
use x_expr.Base.{rest_n, elem_n}
use x_expr.Base.Make.{Tree, value, atom, pair}

-- The shared object that atom(x) or pair(x, y) makes, whatever its link.
pub record Node (base : Ptr) (s : State) (p type : Ptr) (units : List Word) : Type 0 where
  pub obj : Obj
  pub at : Points s p obj
  pub apart : p ≢ base
  pub is_type : obj.type ≡ type
  pub is_shared : obj.flags ≡ x_obj_flag_shared
  pub is_units : obj.units ≡ units

module _ (sys : System) (base : Ptr) (s : State) where
  pub data Represents : Ptr → Tree → Type 0 where
    is_value : {p : Ptr} → Represents p (value p)
    is_atom : {p : Ptr} {x : Word} → Node base s p sys.atom_type (x ∷ []) → Represents p (atom x)
    is_pair :
        {p a b : Ptr} {x y : Tree}
        → Node base s p sys.pair_type (a ∷ b ∷ [])
        → Represents a x
        → Represents b y
        → Represents p (pair x y)

-- The nth rest of a tree, and its element n.
abbrev pub nth_rest : ℕ → Tree → Option Tree
nth_rest zero t = some t
nth_rest (suc n) (value p) = none
nth_rest (suc n) (atom x) = none
nth_rest (suc n) (pair x y) = nth_rest n y

module _ (sys : System) (base : Ptr) (s : State) where
  -- The command finds a tree, and writes nothing.
  abbrev pub Leads : Cmd Ptr → Tree → Type 0
  Leads m t = (p : Ptr) × (m s ≡ ok p s) × Represents sys base s p t

  first_of : {p : Ptr} {x y : Tree} → Represents sys base s p (pair x y) → Leads (x_firstobj p) x
  first_of (is_pair {a} n rx ry) = (a, x_firstobj-ok n.at n.is_units, rx)

  rest_of : {p : Ptr} {x y : Tree} → Represents sys base s p (pair x y) → Leads (x_restobj p) y
  rest_of (is_pair {b} n rx ry) = (b, x_restobj-ok n.at n.is_units, ry)

  pub Leads-first : (m : Cmd Ptr) {x y : Tree} → Leads m (pair x y) → Leads (m >>= x_firstobj) x
  Leads-first m (p, e, r) = let (a, e', rx) = first_of r in (a, rw e e', rx)

  pub Leads-first_first :
      (m : Cmd Ptr) {x y z : Tree}
      → Leads m (pair (pair x y) z)
      → Leads (m >>= λ p. x_firstobj p >>= x_firstobj) x
  Leads-first_first m (p, e, r) =
      let (a, e', rx) = first_of r in let (b, e'', ry) = first_of rx in (b, rw (e, e') e'', ry)

  pub Leads-first_rest :
      (m : Cmd Ptr) {x y z : Tree}
      → Leads m (pair (pair x y) z)
      → Leads (m >>= λ p. x_firstobj p >>= x_restobj) y
  Leads-first_rest m (p, e, r) =
      let (a, e', rx) = first_of r in let (b, e'', ry) = rest_of rx in (b, rw (e, e') e'', ry)

  rest_n-Represents :
      (n : ℕ) {p : Ptr} (t : Tree) {u : Tree}
      → Represents sys base s p t
      → nth_rest n t ≡ some u
      → Leads (rest_n n p) u
  unfolding rest_n
  rest_n-Represents zero {p} t {u} r h =
      let eq : t ≡ u = cc in (p, refl, subst (Represents sys base s p) eq r)
  rest_n-Represents (suc n) (value p) r h = absurd cc
  rest_n-Represents (suc n) (atom x) r h = absurd cc
  rest_n-Represents (suc n) (pair x y) r h =
      let (b, e, ry) = rest_of r in let (q, e', ru) = rest_n-Represents n y ry h in (q, rw e e', ru)

  elem_n-Represents :
      (n : ℕ) {p : Ptr} (t : Tree) {u v : Tree}
      → Represents sys base s p t
      → nth_rest n t ≡ some (pair u v)
      → Leads (elem_n n p) u
  unfolding elem_n
  elem_n-Represents n t r h =
      let (q, e, rp) = rest_n-Represents n t r h in
      let (a, e', ru) = first_of rp in (a, rw e e', ru)

  module _ (m : Cmd Ptr) {t : Tree} where
    pub Leads-rest_n :
        (n : ℕ) {u : Tree} → Leads m t → nth_rest n t ≡ some u → Leads (m >>= rest_n n) u
    Leads-rest_n n (p, e, r) h = let (q, e', ru) = rest_n-Represents n t r h in (q, rw e e', ru)

    pub Leads-elem_n :
        (n : ℕ) {u v : Tree} → Leads m t → nth_rest n t ≡ some (pair u v) → Leads (m >>= elem_n n) u
    Leads-elem_n n (p, e, r) h = let (q, e', ru) = elem_n-Represents n t r h in (q, rw e e', ru)
