-- ===== src/Base/Build.antt =====
-- x_base_make of src/x-base.c: it ends with the tree in memory, while malloc answers.
use x_expr.Prelude.{
  ℕ, zero, suc, ◌+◌, ◌*◌, ◌%◌, ◌^◌, ◌≡◌, refl, ◌≢◌, none, some, List, [], ◌∷◌, arith, length, sym,
  ap, subst, ◌∙◌,
}
use x_expr.Memory.{Word, Ptr, null, Obj, State, ok, Cmd}
use x_expr.Memory.Points.{Points}
use x_expr.Sys.{System}
use x_expr.Obj.{x_obj_size, x_obj_flag_shared}
use x_expr.Obj.Free.{untyped}
use x_expr.Obj.Make.{relink, behind, made, whole, made-Points, made-other, make-made}
use x_expr.Obj.Alloc.{x_obj_make, x_mksatom, x_mkspair}
use x_expr.Base.Make.{Tree, value, atom, pair, build}
use x_expr.Base.Trees.{Node, Represents, is_value, is_atom, is_pair}

-- How many objects a tree is built of.
unfoldable pub count : Tree → ℕ
count (value p) = 0
count (atom x) = 1
count (pair x y) = count x + (count y + 1)

some_ne_none : {o : Obj} → some o ≡ none → ⊥
some_ne_none h = cc

module _ (sys : System) (base : Ptr) where
  -- The next `k` requests get memory, each at an address that is neither the base's nor one that
  -- holds an object.
  unfoldable pub Supply : ℕ → State → Type 0
  Supply zero s = Unit {0}
  Supply (suc k) s =
      (n : ℕ)
      → (sys.malloc s n ≢ null)
        × (sys.malloc s n ≢ base)
        × (s.objs (sys.malloc s n) ≡ none)
        × ((o : Obj) → Supply k (made s base (sys.malloc s n) o))

  -- The base is there as x_base_make makes it first: without a type, and with an empty unit.
  abbrev pub Untyped : State → Type 0
  Untyped s = (o : Obj) × Points s base o × (o.type ≡ null) × (o.units ≡ null ∷ [])

  -- The objects but the base stay.
  abbrev pub Kept : State → State → Type 0
  Kept s t = (q : Ptr) (o : Obj) → Points s q o → q ≢ base → Points t q o

  Node-Kept :
      {s t : State} {p type : Ptr} {us : List Word}
      → Kept s t
      → Node base s p type us
      → Node base t p type us
  Node-Kept {p} kept n = record {
    obj = n.obj;
    at = kept p n.obj n.at n.apart;
    apart = n.apart;
    is_type = n.is_type;
    is_shared = n.is_shared;
    is_units = n.is_units;
  }

  pub Represents-Kept :
      {s t : State} {p : Ptr} {x : Tree}
      → Kept s t
      → Represents sys base s p x
      → Represents sys base t p x
  Represents-Kept kept is_value = is_value
  Represents-Kept kept (is_atom n) = is_atom (Node-Kept kept n)
  Represents-Kept kept (is_pair n rx ry) =
      is_pair (Node-Kept kept n) (Represents-Kept kept rx) (Represents-Kept kept ry)

  -- What one more object does.
  record Step (k : ℕ) (s : State) (m : Cmd Ptr) (type : Ptr) (args : List Word) : Type 0 where
    p : Ptr
    t : State
    runs : m s ≡ ok p t
    node : Node base t p type args
    kept : Kept s t
    free : Untyped t
    supply : Supply k t

  make-Step :
      (k : ℕ) {s : State} (type : Ptr) (args : List Word)
      → Untyped s
      → Supply (suc k) s
      → Step k s (x_obj_make sys base type x_obj_flag_shared args) type args
  unfolding Supply
  make-Step k {s} type args (b, at, nil, us) supply =
      let p = sys.malloc s (x_obj_size * (3 + length args) % 2 ^ 64) in
      let (set, other, gone, next) = supply (x_obj_size * (3 + length args) % 2 ^ 64) in
      let o = whole b.heap type x_obj_flag_shared args in
      record {
        p = p;
        t = made s base p o;
        runs =
            make-made sys type x_obj_flag_shared p args (untyped at nil) (behind at nil) refl set
              other;
        node = record {
          obj = o;
          at = made-Points s base p o set other;
          apart = other;
          is_type = refl;
          is_shared = refl;
          is_units = refl;
        };
        kept = λ q c e h.
            made-other s base p o e h (λ eq. some_ne_none (sym e.holds ∙ ap s.objs eq ∙ gone));
        free = (
          relink p b,
          record { ne_null = at.ne_null; holds = ground (arith, at.holds, other, at.ne_null) },
          nil,
          us,
        );
        supply = next o;
      }

  pub record Built (k : ℕ) (s : State) (tree : Tree) : Type 0 where
    pub p : Ptr
    pub t : State
    pub runs : build sys base tree s ≡ ok p t
    pub represents : Represents sys base t p tree
    pub kept : Kept s t
    pub free : Untyped t
    pub supply : Supply k t

  pub build-Built :
      (tree : Tree) (k : ℕ) {s : State} → Untyped s → Supply (count tree + k) s → Built k s tree
  unfolding build count x_mksatom x_mkspair
  build-Built (value p) k {s} free supply = record {
    p = p;
    t = s;
    runs = refl;
    represents = is_value;
    kept = λ q o e h. e;
    free = free;
    supply = subst (λ n. Supply n s) (omega arith) supply;
  }
  build-Built (atom x) k {s} free supply =
      let a =
        make-Step k sys.atom_type (x ∷ []) free (subst (λ n. Supply n s) (omega arith) supply) in
      record {
        p = a.p;
        t = a.t;
        runs = a.runs;
        represents = is_atom a.node;
        kept = a.kept;
        free = a.free;
        supply = a.supply;
      }
  build-Built (pair x y) k {s} free supply =
      let one : Supply (count x + (count y + suc k)) s =
        subst (λ n. Supply n s) (omega arith) supply in
      let a = build-Built x (count y + suc k) free one in
      let b = build-Built y (suc k) a.free a.supply in
      let c = make-Step k sys.pair_type (a.p ∷ b.p ∷ []) b.free b.supply in
      record {
        p = c.p;
        t = c.t;
        runs = rw (a.runs, b.runs) c.runs;
        represents =
            is_pair c.node (Represents-Kept (λ q o e h. c.kept q o (b.kept q o e h) h) a.represents)
              (Represents-Kept c.kept b.represents);
        kept = λ q o e h. c.kept q o (b.kept q o (a.kept q o e h) h) h;
        free = c.free;
        supply = c.supply;
      }
