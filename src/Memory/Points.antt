-- ===== src/Memory/Points.antt =====
-- What a read through a pointer yields when the object is known.
use x_expr.Prelude.{
  ℕ, List, get_elem?, ◌≡◌, ◌≢◌, false, Option, some, arith, ◌==◌, ap, sym, fun_ext, Bool-cases, inl,
  inr, eq_of_==,
}
use x_expr.Memory.{State, Word, unit_at, Ptr, null, Obj, ok, load, put_obj}

-- `p` is an address that holds the object `o`.
pub record Points (s : State) (p : Ptr) (o : Obj) : Type 0 where
  pub ne_null : p ≢ null
  pub holds : s.objs p ≡ some o

module _ {s : State} {p : Ptr} {o : Obj} (e : Points s p o) where
  pub not_null : (p == null) ≡ false
  not_null = ground (arith, e.ne_null)

  pub load-ok : load p s ≡ ok o s
  unfolding load
  load-ok = rw (not_null, e.holds)

-- The object that was just put at an address, and one at another address.
pub Points-put : (s : State) (p : Ptr) (o : Obj) → p ≢ null → Points (put_obj s p (some o)) p o
Points-put s p o h = record { ne_null = h; holds = ground arith }

pub Points-put_other :
    {s : State} {q : Ptr} {o : Obj} (p : Ptr) (c : Option Obj)
    → Points s q o
    → q ≢ p
    → Points (put_obj s p c) q o
Points-put_other p c e h = record { ne_null = e.ne_null; holds = ground (arith, e.holds) }

-- An address holds one object.
pub Points-unique : {s : State} {p : Ptr} {o o' : Obj} → Points s p o → Points s p o' → o ≡ o'
Points-unique e e' = ground (arith, e.holds, e'.holds)

pub unit_at-ok :
    (us : List Word) (i : ℕ) {w : Word} (s : State)
    → get_elem? us i ≡ some w
    → unit_at us i s ≡ ok w s
unfolding unit_at
unit_at-ok us i s h = rw (h, unit_at)

-- The last of two writes stays.
pub put-put : (s : State) (p : Ptr) (c d : Option Obj) → put_obj (put_obj s p c) p d ≡ put_obj s p d
put-put s p c d = ap (λ f. record s { objs = f }) (fun_ext λ q. ground arith)

-- Putting what is there changes nothing.
pub put-same : (s : State) (p : Ptr) {o : Obj} → s.objs p ≡ some o → put_obj s p (some o) ≡ s
put-same s p {o} e =
    ap (λ f. record s { objs = f })
      (fun_ext λ q. elim (Bool-cases (q == p)) [
        | inl same ↦ let e' : s.objs q ≡ some o = rw (eq_of_== q p same) e in rw (same, e')
        | inr other ↦ rw other
      ])

pub with_units : (o : Obj) {us : List Word} → o.units ≡ us → record o { units = us } ≡ o
with_units o eq = ap (λ us. record o { units = us }) (sym eq)
