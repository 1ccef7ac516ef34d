-- ===== src/Obj/Stops.antt =====
-- How x_obj_alloc of src/x-obj.c stops with a full base, and what it leaves: the latched ceiling, the
-- ceiling that is reached, and no memory.
use x_expr.Prelude.{
  ℕ, ◌+◌, ◌*◌, ◌%◌, ◌^◌, ◌≡◌, refl, true, false, none, some, List, [], ◌∷◌, ap, sym, ◌∙◌,
}
use x_expr.Memory.{Word, Ptr, null, Obj, State, ok, jumped, exited, slt, sle, minus_one}
use x_expr.Memory.Points.{Points, Points-unique, not_null}
use x_expr.Sys.{System}
use x_expr.Obj.{x_obj_size, x_obj_meta_len}
use x_expr.Obj.Access.{x_firstobj-ok}
use x_expr.Obj.Alloc.{Config, x_obj_alloc}
use x_expr.Obj.Ceiling.{
  Limited, latched, stopped, direct_report, hooked_report, alloc-latched, alloc-trip,
}
use x_expr.Obj.Full.{Full, Room}
use x_expr.Obj.Unmet.{alloc-unmet}
use x_expr.Error.{stderr_fileno, error_prefix, error_hook, x_obj_error}
use x_expr.Error.Reported.{Spelled, wrote_all, no_object, error-plain, error-Subject}

-- A base's message, and the texts that a report of it writes: none for nil.
pub data Message (s : State) : Ptr → List (List ℕ) → Type 0 where
  silent : Message s null []
  spoken :
      {p q : Ptr} {o : Obj} {us : List Word} {m : List ℕ}
      → Points s p o
      → o.units ≡ q ∷ us
      → Spelled s q m
      → Message s p (error_prefix ∷ m ∷ [])

direct-Message :
    (sys : System) {s : State} {p : Ptr} {ts : List (List ℕ)}
    → Message s p ts
    → stopped p (direct_report sys p) s ≡ exited 2 (wrote_all s stderr_fileno ts)
direct-Message sys silent = refl
direct-Message sys (spoken e unit said) =
    rw (not_null e, x_firstobj-ok e unit, error-plain sys said stderr_fileno)

hooked-Message :
    (sys : System) {s : State} (base : Ptr) {p : Ptr} {ts : List (List ℕ)}
    → error_hook sys base s ≡ ok none s
    → Message s p ts
    → stopped p (hooked_report sys base p) s ≡ exited 2 (wrote_all s stderr_fileno ts)
hooked-Message sys base unhooked silent = refl
hooked-Message sys base unhooked (spoken e unit said) =
    rw (not_null e, x_firstobj-ok e unit, error-Subject sys base unhooked said no_object)

-- What stops an allocation of `units` data units, without an error hook, and the state that it stops
-- in before the report.
pub data Stop (sys : System) (s : State) (base : Ptr) (c : Config) (n : Word) (cell : Ptr) (o : Obj)
    (units : ℕ) : State → Type 0 where
  latch : slt c.limit 0 ≡ true → Stop sys s base c n cell o units s
  reach :
      slt c.limit 0 ≡ false
      → slt 0 c.limit ≡ true
      → sle c.limit n ≡ true
      → error_hook sys base (latched s cell o) ≡ ok none (latched s cell o)
      → Stop sys s base c n cell o units (latched s cell o)
  lack :
      Room c.limit n
      → sys.malloc s (x_obj_size * (c.extra + x_obj_meta_len + units) % 2 ^ 64) ≡ null
      → Stop sys s base c n cell o units s

-- For a full base whose configuration, count and limit atom can be read, with a message that is nil
-- or an atom whose value is a string: when the limit is negative, or is positive and reached by the
-- count and no error hook is in force, or is not in the way and malloc answers NULL, x_obj_alloc
-- ends with the exit of the process with status 2. All that it has done is to write the error
-- prefix and the message to standard error, nothing for nil, and in the second case before that to
-- set the limit to -1: nothing is counted, linked or allocated.
pub alloc-Stop :
    (sys : System) {s : State} {base : Ptr} {c : Config} {n : Word} {a cell : Ptr} {ao bo o : Obj}
    {t : State} {ts : List (List ℕ)} (type : Ptr) (flags units : ℕ)
    → Full s base c n a ao bo
    → Limited s base c n cell o
    → Stop sys s base c n cell o units t
    → Message t c.message ts
    → x_obj_alloc sys base type flags units s ≡ exited 2 (wrote_all t stderr_fileno ts)
alloc-Stop sys type flags units full l (latch negative) message =
    alloc-latched sys l type flags units negative ∙ direct-Message sys message
alloc-Stop sys {base} type flags units full l (reach sign armed reached unhooked) message =
    alloc-trip sys l type flags units sign armed reached ∙ hooked-Message sys base unhooked message
alloc-Stop sys type flags units full l (lack room unmet) message =
    alloc-unmet sys full type flags units room unmet ∙ direct-Message sys message

-- Where the atom of the limit was left latched, the limit reads as -1.
still_latched :
    {t : State} {base : Ptr} {c : Config} {n : Word} {cell : Ptr} (o : Obj) {o' : Obj}
    → Limited t base c n cell o'
    → Points t cell (record o { units = minus_one ∷ [] })
    → c.limit ≡ minus_one
still_latched {c} o {o'} l kept =
    let same : o' ≡ record o { units = minus_one ∷ [] } = Points-unique l.points kept in
    let words : c.limit ∷ [] ≡ minus_one ∷ [] = sym l.unit ∙ ap (λ x. x.units) same in cc

-- For a base whose configuration, count and limit atom can be read, with a message atom that can be
-- read and an error hook in force: when the limit is positive and reached by the count, and the
-- hook, called after the limit has become -1, jumps away, x_obj_alloc ends by that jump. When the
-- base can still be read where the jump arrives and the limit's atom is still as x_obj_alloc left
-- it, the next x_obj_alloc there does not come to the hook: it writes the message, if there is one,
-- to standard error and the process stops with status 2, whatever is asked for.
pub trip-once :
    (sys : System) {s t : State} {base : Ptr} {c c' : Config} {n n' : Word} {cell q fn : Ptr}
    {o o' mo : Obj} {us : List Word} {ts : List (List ℕ)} (type : Ptr) (flags units : ℕ)
    (type' : Ptr) (flags' units' : ℕ)
    → Limited s base c n cell o
    → slt c.limit 0 ≡ false
    → slt 0 c.limit ≡ true
    → sle c.limit n ≡ true
    → Points (latched s cell o) c.message mo
    → mo.units ≡ q ∷ us
    → error_hook sys base (latched s cell o) ≡ ok (some fn) (latched s cell o)
    → sys.call_error fn base q null (latched s cell o) ≡ jumped t
    → Limited t base c' n' cell o'
    → Points t cell (record o { units = minus_one ∷ [] })
    → Message t c'.message ts
    → (x_obj_alloc sys base type flags units s ≡ jumped t)
      × (x_obj_alloc sys base type' flags' units' t ≡ exited 2 (wrote_all t stderr_fileno ts))
unfolding x_obj_error
trip-once sys {t} {base} {o} type flags units type' flags' units' l sign armed reached e unit hook
      jumps l' kept message =
    (
      alloc-trip sys l type flags units sign armed reached
          ∙ rw (not_null e, x_firstobj-ok e unit, hook, jumps) refl,
      alloc-latched sys l' type' flags' units' (ap (λ w. slt w 0) (still_latched o l' kept))
          ∙ direct-Message sys message,
    )
