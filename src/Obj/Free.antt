-- ===== src/Obj/Free.antt =====
-- x_obj_free of src/x-obj.c for a base without full configuration: what it releases.
use x_expr.Prelude.{
  ◌-◌, ◌≡◌, refl, ◌≢◌, ◌⊎◌, inl, inr, Bool, true, false, not, ◌&&◌, none, some, List, [], ◌∷◌,
  arith, ◌==◌, ltb, if◌then◌else◌, ◌∙◌, Bool-cases, ==_of_ne,
}
use x_expr.Memory.{Word, Ptr, null, Obj, bytes, object, State, ok, put_obj}
use x_expr.Memory.Points.{Points, not_null}
use x_expr.Sys.{put_block, x_sys_free}
use x_expr.Obj.{x_obj_flag_own, x_obj_flag_meta, has_flag, x_obj_isnil}
use x_expr.Obj.Access.{x_obj_flags-ok, x_obj_type-ok, x_firstobj-ok}
use x_expr.Obj.Alloc.{free_back, free_owned, free_alloc, x_obj_free}
use x_expr.Base.{base_full}

-- A base that is NULL or has no type: its fields are not read.
pub data Bare (s : State) (base : Ptr) : Type 0 where
  no_base : base ≡ null → Bare s base
  untyped : {o : Obj} → Points s base o → o.type ≡ null → Bare s base

pub base_full-Bare : {s : State} {base : Ptr} → Bare s base → base_full base s ≡ ok false s
unfolding base_full x_obj_isnil
base_full-Bare (no_base h) = rw h
base_full-Bare (untyped e h) = rw (not_null e, x_obj_type-ok e, h)

-- The block that an object owns, NULL for none.
unfoldable pub own_block : Obj → Ptr
own_block o =
    if has_flag o.flags x_obj_flag_own then elim o.units [ [] ↦ null | w ∷ _ ↦ w ] else null

abbrev pub drop_block : State → Ptr → State
drop_block s w = record s { blocks = λ b. if not (w == null) && b == w then none else s.blocks b }

-- An object stands at the start of its block, and what it owns is a block of bytes.
pub record Disposable (s : State) (q : Ptr) (o : Obj) : Type 0 where
  pub points : Points s q o
  pub home : s.blocks q ≡ some (object q)
  pub owned : (own_block o ≡ null) ⊎ (s.blocks (own_block o) ≡ some bytes)
  pub unit :
      (has_flag o.flags x_obj_flag_own ≡ false)
      ⊎ ((w : Word) × (us : List Word) × (o.units ≡ w ∷ us))

-- The state without the object, its block and the block that it owns.
abbrev pub disposed : State → Ptr → Obj → State
disposed s q o = put_obj (put_block (drop_block s (own_block o)) q none) q none

free-bytes :
    (w : Ptr) (s : State)
    → (w ≡ null) ⊎ (s.blocks w ≡ some bytes)
    → x_sys_free w s ≡ ok tt (drop_block s w)
unfolding x_sys_free
free-bytes w s h = ground arith

free_back-zero : (q : Ptr) (s : State) → free_back q 0 s ≡ x_sys_free q s
unfolding free_back
free_back-zero q s =
    let e : q - 0 ≡ q = omega arith in let l : ltb q 0 ≡ false = ground arith in rw (l, e)

free-object :
    (q : Ptr) (s : State)
    → q ≢ null
    → s.blocks q ≡ some (object q)
    → x_sys_free q s ≡ ok tt (put_obj (put_block s q none) q none)
unfolding x_sys_free
free-object q s h e = rw (==_of_ne q null h, e)

-- Giving up another block leaves the object's own block.
home-drop :
    (s : State) (q w : Ptr)
    → (w ≡ null) ⊎ (s.blocks w ≡ some bytes)
    → s.blocks q ≡ some (object q)
    → (drop_block s w).blocks q ≡ some (object q)
home-drop s q w h e = ground arith

-- Without extra units the flag for them makes no difference.
free_either :
    (c : Bool) (q : Ptr) (s : State)
    → (if c then free_back q 0 else x_sys_free q) s ≡ x_sys_free q s
free_either true q s = free_back-zero q s
free_either false q s = refl

module _ {s : State} {q : Ptr} {o : Obj} (d : Disposable s q o) where
  free_owned-ok : free_owned q s ≡ ok tt (drop_block s (own_block o))
  unfolding free_owned own_block
  free_owned-ok = elim (Bool-cases (has_flag o.flags x_obj_flag_own)) [
    | inl own ↦ elim d.unit [
      | inl unowned ↦ absurd (cc)
      | inr (w, us, eq) ↦
          let is_w : own_block o ≡ w = rw (own, eq) in
          rw (x_obj_flags-ok d.points, own, x_firstobj-ok d.points eq, eq)
            (free-bytes w s (rw is_w at d.owned))
    ]
    | inr unowned ↦ rw (x_obj_flags-ok d.points, unowned)
  ]

  free_alloc-ok : free_alloc q 0 (drop_block s (own_block o)) ≡ ok tt (disposed s q o)
  unfolding free_alloc
  free_alloc-ok = rw (x_obj_flags-ok dropped) (
      free_either (has_flag o.flags x_obj_flag_meta) q (drop_block s (own_block o))
      ∙ free-object q _ d.points.ne_null (home-drop s q (own_block o) d.owned d.home))
    where
      dropped : Points (drop_block s (own_block o)) q o
      dropped = record { ne_null = d.points.ne_null; holds = d.points.holds }

  -- With a base that is NULL or has no type, x_obj_free of an object that stands in a block of its
  -- own, and owns nothing or a block of bytes, ends and removes the object, its block and the block
  -- that it owns, and nothing else.
  pub x_obj_free-Bare : {base : Ptr} → Bare s base → x_obj_free base q s ≡ ok tt (disposed s q o)
  unfolding x_obj_free
  x_obj_free-Bare bare = rw (base_full-Bare bare, free_owned-ok, free_alloc-ok)
