-- ===== src/Obj/FullFree.antt =====
-- x_obj_free of src/x-obj.c with a full base: the count, and the block from its metadata units on.
use x_expr.Prelude.{
  ℕ, ◌+◌, ◌-◌, ◌*◌, ◌≡◌, ◌≢◌, inl, inr, true, false, none, some, ltb, arith, ap, ◌∙◌, refl,
  Bool-cases, ==_of_ne,
}
use x_expr.Memory.{Word, Ptr, null, Obj, object, State, ok, put_obj, word_dec}
use x_expr.Memory.Points.{Points, Points-put_other}
use x_expr.Sys.{System, put_block, x_sys_free}
use x_expr.Obj.{x_obj_size, x_obj_flag_own, x_obj_flag_meta, has_flag}
use x_expr.Obj.Access.{x_obj_flags-ok}
use x_expr.Obj.Alloc.{Config, field_int, free_back, free_owned, free_alloc, x_obj_free}
use x_expr.Base.{base_full, x_base_field_obj_meta_extra}
use x_expr.Obj.Full.{Full, counted, update-ok}

-- Giving back a block that holds an object.
free-block :
    (p q : Ptr) (s : State)
    → p ≢ null
    → s.blocks p ≡ some (object q)
    → x_sys_free p s ≡ ok tt (put_obj (put_block s p none) q none)
unfolding x_sys_free
free-block p q s set e = rw (==_of_ne p null set, e)

-- The block starts `extra` units in front of the object.
free_alloc-home :
    {s : State} {q : Ptr} {o : Obj} (p : Ptr) (extra : ℕ)
    → Points s q o
    → has_flag o.flags x_obj_flag_meta ≡ ltb 0 extra
    → p + x_obj_size * extra ≡ q
    → p ≢ null
    → s.blocks p ≡ some (object q)
    → free_alloc q extra s ≡ ok tt (put_obj (put_block s p none) q none)
unfolding free_alloc free_back
free_alloc-home {s} {q} {o} p extra e meta home set block = elim (Bool-cases (ltb 0 extra)) [
  | inl some_units ↦
      let inside : ltb q (x_obj_size * extra) ≡ false = ground (arith, home) in
      let back : q - x_obj_size * extra ≡ p = omega (arith, home) in
      rw (x_obj_flags-ok e, meta, some_units, inside, back) (free-block p q s set block)
  | inr no_units ↦
      let none_there : extra ≡ 0 = ground (arith, no_units) in
      let same : q ≡ p = omega (arith, home, none_there) in
      rw (x_obj_flags-ok e, meta, no_units)
        (ap (λ x. x_sys_free x s) same ∙ free-block p q s set block)
]

-- With such a base, whose number of metadata units is that of the object's, x_obj_free of an object
-- other than the count atom that owns nothing, has X_OBJ_FLAG_META exactly if there are such units,
-- and stands that many units behind the start of its block: it ends, the count is one less, modulo
-- the word, the object and the block are gone, and nothing else changes.
pub free-Full :
    (sys : System) {s : State} {base : Ptr} {c : Config} {n : Word} {a : Ptr} {ao bo : Obj}
    (full : Full s base c n a ao bo) (p q : Ptr) {o : Obj}
    → base_full base s ≡ ok true s
    → field_int (x_base_field_obj_meta_extra base) s ≡ ok c.extra s
    → Points s q o
    → q ≢ a
    → has_flag o.flags x_obj_flag_own ≡ false
    → has_flag o.flags x_obj_flag_meta ≡ ltb 0 c.extra
    → p + x_obj_size * c.extra ≡ q
    → p ≢ null
    → s.blocks p ≡ some (object q)
    → x_obj_free base q s ≡ ok tt (put_obj (put_block (counted sys full word_dec s) p none) q none)
unfolding x_obj_free free_owned
free-Full sys {s} {a} {ao} full p q {o} is_full extra e apart unowned meta home set block =
    let later : Points (counted sys full word_dec s) q o = Points-put_other a _ e apart in
    rw (is_full, extra, update-ok sys full word_dec s refl, x_obj_flags-ok later, unowned)
      (free_alloc-home p _ later meta home set block)
