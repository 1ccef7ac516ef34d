-- ===== src/Obj/Make.antt =====
-- x_obj_alloc and x_obj_make of src/x-obj.c for a base without full configuration: the object that is
-- made, and where it is linked.
use x_expr.Prelude.{
  ℕ, zero, suc, ◌+◌, ◌*◌, ◌%◌, ◌^◌, ◌≡◌, refl, ◌≢◌, inl, inr, some, List, [], ◌∷◌, ◌++◌, arith,
  ◌==◌, if◌then◌else◌, length, get_elem?, set, length-append, get_elem?-middle, set-middle, sym, ap,
  ◌∙◌, fun_ext, ==_of_ne, Bool-cases,
}
use mathlib.Core.Option
use mathlib.Core.List.{append_assoc}
use x_expr.Memory.{
  Word, Ptr, null, Obj, bytes, object, State, ok, Cmd, put_obj, pure, ◌>>=◌, and_then,
}
use x_expr.Memory.Points.{put-put, put-same, with_units, Points, Points-put, not_null}
use x_expr.Sys.{System, put_block, x_sys_malloc}
use x_expr.Obj.{x_obj_size, set_heap}
use x_expr.Obj.Access.{x_obj_heap-ok, set_heap-ok, set_data_i-ok}
use x_expr.Obj.Free.{Bare, base_full-Bare}
use x_expr.Obj.Alloc.{
  config, fresh_units, fits, place, at_ceiling, allocate, x_obj_alloc, fill, x_obj_make,
}

pub length-fresh_units : (word : ℕ → Word) (i n : ℕ) → length (fresh_units word i n) ≡ n
unfolding fresh_units
length-fresh_units word i zero = refl
length-fresh_units word i (suc n) = ap suc (length-fresh_units word (i + 1) n)

-- The loop over the arguments fills the units behind those that it has filled.
pub fill-ok :
    (sys : System) (p : Ptr) (i : ℕ) (args pre rest : List Word) {s : State} {o : Obj}
    → Points s p o
    → i ≡ length pre
    → o.units ≡ pre ++ rest
    → length rest ≡ length args
    → fill sys p i args s ≡ ok tt (put_obj s p (some (record o { units = pre ++ args })))
unfolding fill
fill-ok sys p i [] pre [] {s} {o} e at_i eq len =
    ap (ok tt) (sym (put-same s p (e.holds ∙ ap some (sym (with_units o eq)))))
fill-ok sys p i [] pre (w ∷ rest) e at_i eq len = absurd (omega (arith, len))
fill-ok sys p i (a ∷ args) pre [] e at_i eq len = absurd (omega (arith, len))
fill-ok sys p i (a ∷ args) pre (w ∷ rest) {s} {o} e at_i eq len =
    rw (set_data_i-ok e i a unit, written)
      (fill-ok sys p (i + 1) args (pre ++ a ∷ []) rest
          (Points-put s p (record o { units = pre ++ a ∷ rest }) e.ne_null)
          (omega (arith, length-append pre (a ∷ []))) (sym (append_assoc pre (a ∷ []) rest))
          (omega (arith, len))
        ∙ ap (ok tt) (
            put-put s p (some (record o { units = pre ++ a ∷ rest })) _
            ∙ ap (λ us. put_obj s p (some (record o { units = us })))
                (append_assoc pre (a ∷ []) args)))
  where
    unit : get_elem? o.units i ≡ some w
    unit = rw (at_i, eq) (get_elem?-middle pre w rest)

    written : set o.units i a ≡ pre ++ a ∷ rest
    written = rw (at_i, eq) (set-middle pre w a rest)

-- The heap link that a new object gets: the base's own, NULL without a base.
pub data Linked (s : State) (base : Ptr) : Ptr → Type 0 where
  alone : base ≡ null → Linked s base null
  behind : {o : Obj} → Points s base o → o.type ≡ null → Linked s base o.heap

abbrev pub relink : Ptr → Obj → Obj
relink p b = record b { heap = p }

-- What the base's address holds afterwards.
abbrev pub relinked : State → Ptr → Ptr → State
relinked s base p = put_obj s base (Option.map (relink p) (s.objs base))

-- The object as x_obj_alloc leaves it: linked, and its units not yet written.
abbrev raw : System → State → Ptr → ℕ → Ptr → Ptr → ℕ → Obj
raw sys s type flags p link n = record {
  heap = link;
  type = type;
  flags = flags;
  units = fresh_units (sys.residue (put_block s p (some bytes)) p) 3 n;
  before = [];
}

-- The state with an object at `p` in a block of its own, before and after the base's link to it.
abbrev pub placed : State → Ptr → Obj → State
placed s p o = put_obj (put_block (put_block s p (some bytes)) p (some (object p))) p (some o)

abbrev pub made : State → Ptr → Ptr → Obj → State
made s base p o = if base == null then placed s p o else relinked (placed s p o) base p

plus_zero : (p : ℕ) → p + x_obj_size * 0 ≡ p
plus_zero p = omega arith

-- The state with an object at `p` whose block was just got from `malloc`.
abbrev header : Ptr → Ptr → ℕ → Obj
header link type flags = record { heap = link; type = type; flags = flags; units = []; before = [] }

place-plain :
    (sys : System) (s : State) (type : Ptr) (flags : ℕ) (p link : Ptr) (n : ℕ)
    → place sys p 0 n (header link type flags) (put_block s p (some bytes))
      ≡ ok p (placed s p (raw sys s type flags p link n))
unfolding place fits
place-plain sys s type flags p link n = rw (plus_zero p)

pub malloc-ok :
    (sys : System) (s : State) (p : Ptr) (n : ℕ)
    → sys.malloc s n ≡ p
    → p ≢ null
    → x_sys_malloc sys n s ≡ ok p (put_block s p (some bytes))
unfolding x_sys_malloc
malloc-ok sys s p n got ne = rw (got, ==_of_ne p null ne)

module _ (sys : System) {s : State} {base : Ptr} (type : Ptr) (flags : ℕ) (p : Ptr) where
  alloc-ok :
      (n : ℕ) {link : Ptr}
      → Bare s base
      → Linked s base link
      → sys.malloc s (x_obj_size * (3 + n) % 2 ^ 64) ≡ p
      → p ≢ null
      → p ≢ base
      → x_obj_alloc sys base type flags n s ≡ ok p (made s base p (raw sys s type flags p link n))
  unfolding x_obj_alloc config at_ceiling allocate
  alloc-ok n bare (alone nil) got ne other = rw (
    base_full-Bare bare,
    malloc-ok sys s p (x_obj_size * (3 + n) % 2 ^ 64) got ne,
    ==_of_ne p null ne,
    nil,
    place-plain sys s type flags p null n,
  )
  alloc-ok n bare (behind {o = b} e nil) got ne other =
      rw
        (
          base_full-Bare bare,
          malloc-ok sys s p (x_obj_size * (3 + n) % 2 ^ 64) got ne,
          ==_of_ne p null ne,
          not_null e,
        )
        (ap (λ r. and_then r next) (x_obj_heap-ok got_block)
          ∙ ap (λ r. and_then r linking) (place-plain sys s type flags p b.heap n)
          ∙ rw (set_heap-ok there p, there.holds))
    where
      linking : Ptr → Cmd Ptr
      linking q = set_heap base q >>= λ _. pure q

      next : Ptr → Cmd Ptr
      next link = place sys p 0 n (header link type flags) >>= linking

      got_block : Points (put_block s p (some bytes)) base b
      got_block = record { ne_null = e.ne_null; holds = e.holds }

      there : Points (placed s p (raw sys s type flags p b.heap n)) base b
      there = record { ne_null = e.ne_null; holds = ground (arith, e.holds, other) }

-- The object that x_obj_make is asked for.
abbrev pub whole : Ptr → Ptr → ℕ → List Word → Obj
whole link type flags args = record {
  heap = link;
  type = type;
  flags = flags;
  units = args;
  before = [];
}

pub made-Points :
    (s : State) (base p : Ptr) (o : Obj) → p ≢ null → p ≢ base → Points (made s base p o) p o
made-Points s base p o ne other = record { ne_null = ne; holds = ground (arith, other) }

-- An object that is neither the base nor the new one stays.
pub made-other :
    (s : State) (base p : Ptr) (o : Obj) {q : Ptr} {c : Obj}
    → Points s q c
    → q ≢ base
    → q ≢ p
    → Points (made s base p o) q c
made-other s base p o e h h' = record {
  ne_null = e.ne_null;
  holds = ground (arith, e.holds, h, h');
}

-- A later write to the object is as if it had been placed so.
pub made-put :
    (s : State) (base p : Ptr) (o o' : Obj)
    → p ≢ base
    → put_obj (made s base p o) p (some o') ≡ made s base p o'
made-put s base p o o' other = elim (Bool-cases (base == null)) [
  | inl nil ↦
      rw nil
        (put-put (put_block (put_block s p (some bytes)) p (some (object p))) p (some o) (some o'))
  | inr set ↦
      rw set (ap (λ f. record (placed s p o) { objs = f }) (fun_ext λ q. ground (arith, other)))
]

module _ (sys : System) {s : State} {base link : Ptr} (type : Ptr) (flags : ℕ) (p : Ptr)
    (args : List Word) where
  -- With a base that is NULL or has no type, when malloc answers the request with an address that
  -- is neither NULL nor the base, x_obj_make returns that address. There is then an object with the
  -- given type, flags and units, in a block of its own, whose link is the base's old one (NULL
  -- without a base), the base links to it, and nothing else changes.
  pub make-made :
      Bare s base
      → Linked s base link
      → sys.malloc s (x_obj_size * (3 + length args) % 2 ^ 64) ≡ p
      → p ≢ null
      → p ≢ base
      → x_obj_make sys base type flags args s ≡ ok p (made s base p (whole link type flags args))
  unfolding x_obj_make
  make-made bare linked got ne other =
      ap (λ r. and_then r filling)
        (alloc-ok sys type flags p (length args) bare linked got ne other)
      ∙ rw (==_of_ne p null ne, filled)
          (ap (ok p) (made-put s base p blank (whole link type flags args) other))
    where
      blank : Obj
      blank = raw sys s type flags p link (length args)

      filling : Ptr → Cmd Ptr
      filling q = if q == null then pure null else (fill sys q 0 args >>= λ _. pure q)

      filled :
          fill sys p 0 args (made s base p blank)
          ≡ ok tt (put_obj (made s base p blank) p (some (whole link type flags args)))
      filled =
          fill-ok sys p 0 args [] blank.units (made-Points s base p blank ne other) refl refl
            (length-fresh_units (sys.residue (put_block s p (some bytes)) p) 3 (length args))

-- Without a full base, x_obj_make that gets no memory returns NULL and changes nothing.
pub make-failed :
    (sys : System) {s : State} {base : Ptr} (type : Ptr) (flags : ℕ) (args : List Word)
    → Bare s base
    → sys.malloc s (x_obj_size * (3 + length args) % 2 ^ 64) ≡ null
    → x_obj_make sys base type flags args s ≡ ok null s
unfolding x_obj_make x_obj_alloc config at_ceiling allocate x_sys_malloc
make-failed sys type flags args bare got = rw (base_full-Bare bare, got)
