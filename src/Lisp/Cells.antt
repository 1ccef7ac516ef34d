-- ===== src/Lisp/Cells.antt =====
-- x_cons, x_setcar and x_setcdr of include/x-lisp.h, with x_car and x_cdr.
use x_expr.Prelude.{ℕ, ◌*◌, ◌%◌, ◌^◌, ◌≡◌, refl, ◌≢◌, some, [], ◌∷◌, ap, ◌∙◌}
use x_expr.Memory.{Word, Ptr, null, State, ok, pure, ◌>>=◌, ◌>>◌, put_obj}
use x_expr.Memory.Points.{Points-put, put-put}
use x_expr.Sys.{System}
use x_expr.Obj.{x_obj_size}
use x_expr.Obj.Access.{x_firstobj-ok, x_restobj-ok, set_data_i-ok}
use x_expr.Obj.Alloc.{x_mkspair}
use x_expr.Obj.Free.{Bare}
use x_expr.Obj.Make.{Linked, made, whole, made-Points, made-put, make-made}
use x_expr.Lisp.{x_cons, x_car, x_cdr, x_setcar, x_setcdr}

module _ (sys : System) {s : State} {base link : Ptr} (flags : ℕ) (p : Ptr) (x y v w : Word) where
  -- With a base that is NULL or has no type, when malloc answers the request with an address that
  -- is neither NULL nor the base: after x_cons of x and y, x_car and x_cdr read x and y; after
  -- x_setcar to v, x_cdr still reads y; after x_setcdr to w, they read v and w; and the state is
  -- then the one that x_cons of v and w leaves.
  pub cons-setcar_setcdr :
      Bare s base
      → Linked s base link
      → sys.malloc s (x_obj_size * 5 % 2 ^ 64) ≡ p
      → p ≢ null
      → p ≢ base
      → (do
        q ← x_cons sys base flags x y
        first ← x_car q
        rest ← x_cdr q
        x_setcar q v
        between ← x_cdr q
        x_setcdr q w
        first' ← x_car q
        rest' ← x_cdr q
        pure (first ∷ rest ∷ between ∷ first' ∷ rest' ∷ []))
          s
        ≡ ok (x ∷ y ∷ y ∷ v ∷ w ∷ []) (made s base p (whole link sys.pair_type flags (v ∷ w ∷ [])))
  unfolding x_cons x_mkspair x_car x_cdr x_setcar x_setcdr
  cons-setcar_setcdr bare linked got there other =
      let o = whole link sys.pair_type flags (x ∷ y ∷ []) in
      let t = made s base p o in
      let at = made-Points s base p o there other in
      let o1 = record o { units = v ∷ y ∷ [] } in
      let t1 = put_obj t p (some o1) in
      let at1 = Points-put t p o1 there in
      let o2 = record o { units = v ∷ w ∷ [] } in
      let at2 = Points-put t1 p o2 there in
      rw
        (
          make-made sys sys.pair_type flags p (x ∷ y ∷ []) bare linked got there other,
          x_firstobj-ok at refl,
          x_restobj-ok at refl,
          set_data_i-ok at 0 v {w = x} refl,
          x_restobj-ok at1 refl,
          set_data_i-ok at1 1 w {w = y} refl,
          x_firstobj-ok at2 refl,
          x_restobj-ok at2 refl,
        )
        (ap (ok (x ∷ y ∷ y ∷ v ∷ w ∷ []))
          (put-put t p (some o1) (some o2) ∙ made-put s base p o o2 other))
