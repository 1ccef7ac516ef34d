-- ===== src/Base/New.antt =====
-- x_base_make of src/x-base.c: the macros of include/x-base.h read the initial values back from the
-- base that it makes.
use x_expr.Prelude.{◌*◌, ◌%◌, ◌^◌, ◌≡◌, refl, ◌≢◌, some, [], ◌∷◌, arith, subst}
use x_expr.Memory.{Ptr, null, Obj, State, ok, put_obj}
use x_expr.Memory.Points.{Points-put, Points-put_other}
use x_expr.Sys.{System}
use x_expr.Obj.{x_obj_size, x_obj_flag_none}
use x_expr.Obj.Access.{set_data_i-ok, unit_zero}
use x_expr.Obj.Free.{Bare}
use x_expr.Obj.Make.{Linked, made, whole, made-Points, make-made}
use x_expr.Base.Make.{BaseInit, base_tree, x_base_make}
use x_expr.Base.Build.{count, Supply, Untyped, Kept, Represents-Kept, build-Built}
use x_expr.Base.Initial.{Initial, tree-Initial}

-- The object that x_base_make asks for first, still without its tree.
abbrev pub blank_base : Ptr → Obj
blank_base link = whole link null x_obj_flag_none (null ∷ [])

module _ (sys : System) {s : State} {outer link : Ptr} (b : Ptr) (init : BaseInit) where
  -- With an outer base that is NULL or has no type, malloc answering the request for the base with
  -- an address that is neither NULL nor the outer base, and as many further requests as the tree
  -- has nodes with addresses other than NULL and the base where no object is, x_base_make returns
  -- that address, and in the state that it leaves every field macro of x-base.h reads the value
  -- that the field was built with: the file descriptors, the hooks and the metadata units that the
  -- caller gave, 0 for the counts and the limit, and NULL for the others.
  pub make-Initial :
      Bare s outer
      → Linked s outer link
      → sys.malloc s (x_obj_size * 4 % 2 ^ 64) ≡ b
      → b ≢ null
      → b ≢ outer
      → Supply sys b (count (base_tree init)) (made s outer b (blank_base link))
      → (t : State) × (x_base_make sys outer init s ≡ ok b t) × Initial init b t
  unfolding x_base_make
  make-Initial bare linked got there other supply =
      let first = made s outer b (blank_base link) in
      let free : Untyped sys b first =
        (blank_base link, made-Points s outer b (blank_base link) there other, refl, refl) in
      let built =
        build-Built sys b (base_tree init) 0 free
          (subst (λ n. Supply sys b n first) (omega arith) supply) in
      let (o, at, nil, us) = built.free in
      let o' = record o { units = built.p ∷ [] } in
      let t = put_obj built.t b (some o') in
      let kept : Kept sys b built.t t = λ q c e h. Points-put_other b (some o') e h in
      (
        t,
        rw (
          make-made sys null x_obj_flag_none b (null ∷ []) bare linked got there other,
          built.runs,
          set_data_i-ok at 0 built.p (unit_zero us),
          us,
        ),
        tree-Initial sys b init (Points-put built.t b o' there) refl
            (Represents-Kept sys b kept built.represents),
      )
