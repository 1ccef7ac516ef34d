-- ===== src/Base/Reads.antt =====
-- The walks of include/x-base.h to a base's fields only read types and data units.
use x_expr.Prelude.{ℕ, zero, suc, false, ◌==◌, not}
use x_expr.Memory.{Ptr, null, ◌>>=◌}
use x_expr.Memory.Reads.{Reads, Reads-pure, Reads-bind, Reads-if, Reads-unit, Reads-type}
use x_expr.Obj.{x_firstobj, x_restobj, x_obj_type, x_obj_isnil}
use x_expr.Base.{
  x_base, x_base_isset, rest_n, elem_n, x_base_field_meta_fields, x_base_field_heap_fields,
  x_base_field_alloc_fields, x_base_field_heap_mark, x_base_field_heap_free,
  x_base_field_heap_root_chain, x_base_field_obj_meta_extra, x_base_field_alloc_count,
  x_base_field_alloc_limit, x_base_field_alloc_error, base_full,
}

pub Reads-firstobj : (p : Ptr) → Reads (x_firstobj p)
unfolding x_firstobj
Reads-firstobj p = Reads-unit p 0

pub Reads-restobj : (p : Ptr) → Reads (x_restobj p)
unfolding x_restobj
Reads-restobj p = Reads-unit p 1

Reads-x_obj_type : (p : Ptr) → Reads (x_obj_type p)
unfolding x_obj_type
Reads-x_obj_type p = Reads-type p

Reads-rest_n : (n : ℕ) (p : Ptr) → Reads (rest_n n p)
unfolding rest_n
Reads-rest_n zero p = Reads-pure p
Reads-rest_n (suc n) p = Reads-bind (x_restobj p) (rest_n n) (Reads-restobj p) (Reads-rest_n n)

Reads-elem_n : (n : ℕ) (p : Ptr) → Reads (elem_n n p)
unfolding elem_n
Reads-elem_n n p = Reads-bind (rest_n n p) x_firstobj (Reads-rest_n n p) Reads-firstobj

Reads-base : (b : Ptr) → Reads (x_base b)
unfolding x_base
Reads-base b = Reads-firstobj b

pub Reads-isset : (b : Ptr) → Reads (x_base_isset b)
unfolding x_base_isset
Reads-isset b =
    Reads-if (b == null) (Reads-pure false)
      (Reads-bind (x_base b) _ (Reads-base b) (λ r. Reads-pure (not (r == null))))

pub Reads-full : (b : Ptr) → Reads (base_full b)
unfolding base_full
Reads-full b = Reads-if (b == null) (Reads-pure false) (
    Reads-bind (x_obj_type b) _ (Reads-x_obj_type b)
      (λ t. Reads-if (x_obj_isnil t) (Reads-pure false) (Reads-isset b)))

module _ (b : Ptr) where
  Reads-meta : Reads (x_base_field_meta_fields b)
  unfolding x_base_field_meta_fields
  Reads-meta = Reads-bind (x_base b) (rest_n 2) (Reads-base b) (Reads-rest_n 2)

  Reads-heap_fields : Reads (x_base_field_heap_fields b)
  unfolding x_base_field_heap_fields
  Reads-heap_fields = Reads-bind (x_base_field_meta_fields b) (elem_n 1) Reads-meta (Reads-elem_n 1)

  Reads-alloc_fields : Reads (x_base_field_alloc_fields b)
  unfolding x_base_field_alloc_fields
  Reads-alloc_fields =
      Reads-bind (x_base_field_meta_fields b) (elem_n 2) Reads-meta (Reads-elem_n 2)

  heap_field : (n : ℕ) → Reads (x_base_field_heap_fields b >>= elem_n n)
  heap_field n =
      Reads-bind (x_base_field_heap_fields b) (elem_n n) Reads-heap_fields (Reads-elem_n n)

  alloc_field : (n : ℕ) → Reads (x_base_field_alloc_fields b >>= elem_n n)
  alloc_field n =
      Reads-bind (x_base_field_alloc_fields b) (elem_n n) Reads-alloc_fields (Reads-elem_n n)

  pub Reads-heap_mark : Reads (x_base_field_heap_mark b)
  unfolding x_base_field_heap_mark
  Reads-heap_mark = heap_field 1

  pub Reads-heap_free : Reads (x_base_field_heap_free b)
  unfolding x_base_field_heap_free
  Reads-heap_free = heap_field 2

  pub Reads-root_chain : Reads (x_base_field_heap_root_chain b)
  unfolding x_base_field_heap_root_chain
  Reads-root_chain = heap_field 6

  pub Reads-obj_meta_extra : Reads (x_base_field_obj_meta_extra b)
  unfolding x_base_field_obj_meta_extra
  Reads-obj_meta_extra = heap_field 0

  pub Reads-alloc_count : Reads (x_base_field_alloc_count b)
  unfolding x_base_field_alloc_count
  Reads-alloc_count = alloc_field 0

  pub Reads-alloc_limit : Reads (x_base_field_alloc_limit b)
  unfolding x_base_field_alloc_limit
  Reads-alloc_limit = alloc_field 1

  pub Reads-alloc_error : Reads (x_base_field_alloc_error b)
  unfolding x_base_field_alloc_error
  Reads-alloc_error = alloc_field 2
