-- ===== src/Obj/Account.antt =====
-- x_obj_make and x_obj_free of src/x-obj.c with a full base, one after the other: the objects that are
-- allocated, as a list, and the base's account of them.
pub mod Core
pub mod Live
pub mod Invariant
pub mod Grown
pub mod Freed
pub mod Kept
use x_expr.Prelude.{
  ℕ, ◌+◌, ◌*◌, ◌≡◌, ◌≢◌, true, false, none, some, List, [], ◌∷◌, ◌==◌, ltb, if◌then◌else◌, has,
}
use x_expr.Memory.{Word, Ptr, null, Obj, object, State, ok}
use x_expr.Memory.Points.{Points}
use x_expr.Sys.{System}
use x_expr.Obj.{x_obj_size, x_obj_flag_own, x_obj_flag_meta, has_flag}
use x_expr.Obj.Alloc.{x_obj_make, x_obj_free}

-- The allocator gives memory that is free: no block starts at its address, and no object is where the
-- new one will be, behind `extra` metadata units.
abbrev pub Allocator : System → Word → Type 0
Allocator sys extra =
    (s : State) (size : ℕ)
    → sys.malloc s size ≢ null
    → (s.blocks (sys.malloc s size) ≡ none)
      × (s.objs (sys.malloc s size + x_obj_size * extra) ≡ none)

-- The list without its first q.
abbrev pub without : Ptr → List Ptr → List Ptr
without q [] = []
without q (x ∷ xs) = let rest = without q xs in if q == x then xs else x ∷ rest

-- The states that makes and frees lead to, with the objects that were made and not freed, the newest
-- first. What is made neither owns a block nor is flagged for metadata by the caller.
pub data Steps (sys : System) (base : Ptr) (s : State) (xs : List Ptr)
    : State → List Ptr → Type 0 where
  start : Steps sys base s xs s xs
  make :
      {t u : State} {ys : List Ptr} {q : Ptr} (type : Ptr) (flags : ℕ) (args : List Word)
      → Steps sys base s xs t ys
      → has_flag flags x_obj_flag_own ≡ false
      → has_flag flags x_obj_flag_meta ≡ false
      → x_obj_make sys base type flags args t ≡ ok q u
      → Steps sys base s xs u (q ∷ ys)
  free :
      {t u : State} {ys : List Ptr} (q : Ptr)
      → Steps sys base s xs t ys
      → has q ys ≡ true
      → x_obj_free base q t ≡ ok tt u
      → Steps sys base s xs u (without q ys)
