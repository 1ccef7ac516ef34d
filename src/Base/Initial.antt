-- ===== src/Base/Initial.antt =====
-- The macros of include/x-base.h on the tree that x_base_make of src/x-base.c writes: each field holds
-- the value that the tree was built with.
use x_expr.Prelude.{ℕ, ◌≡◌, refl, ◌≢◌, true, some, [], ◌∷◌, ==_of_ne}
use x_expr.Memory.{Word, Ptr, null, Obj, State, ok, Cmd, ◌>>=◌}
use x_expr.Memory.Points.{Points, not_null}
use x_expr.Sys.{System}
use x_expr.Obj.Access.{x_firstobj-ok}
use x_expr.Obj.Alloc.{field_atom, field_int}
use x_expr.Base.{
  x_base, x_base_isset, elem_n, x_base_field_io_fields, x_base_field_files,
  x_base_field_meta_fields, x_base_field_hooks, x_base_field_heap_fields, x_base_field_alloc_fields,
  x_base_field_filein, x_base_field_fileout, x_base_field_fileerr, x_base_field_write_buf,
  x_base_field_buffer, x_base_field_profile, x_base_field_profile_allocs,
  x_base_field_hook_type_name, x_base_field_hook_units, x_base_field_hook_length,
  x_base_field_hook_error, x_base_field_obj_meta_extra, x_base_field_heap_mark,
  x_base_field_heap_free, x_base_field_heap_mark_hooks, x_base_field_heap_free_hooks,
  x_base_field_heap_mark_roots, x_base_field_heap_root_chain, x_base_field_alloc_count,
  x_base_field_alloc_limit, x_base_field_alloc_error,
}
use x_expr.Base.Make.{
  BaseInit, Tree, value, atom, pair, nil, field, files_tree, hooks_tree, heap_tree, alloc_tree,
  base_tree,
}
use x_expr.Base.Trees.{
  Represents, nth_rest, is_value, is_atom, is_pair, Leads, Leads-first, Leads-first_first,
  Leads-first_rest, Leads-rest_n, Leads-elem_n,
}

-- The values of a new base's fields.
pub record Initial (init : BaseInit) (b : Ptr) (s : State) : Type 0 where
  pub isset : x_base_isset b s ≡ ok true s
  pub filein : field_int (x_base_field_filein b) s ≡ ok init.filein s
  pub fileout : field_int (x_base_field_fileout b) s ≡ ok init.fileout s
  pub fileerr : field_int (x_base_field_fileerr b) s ≡ ok init.fileerr s
  pub write_buf : field_atom (x_base_field_write_buf b) s ≡ ok null s
  pub buffer : field_atom (x_base_field_buffer b) s ≡ ok null s
  pub profile_allocs : field_int (x_base_field_profile_allocs b) s ≡ ok 0 s
  pub hook_type_name : field_atom (x_base_field_hook_type_name b) s ≡ ok init.p_hook_type_name s
  pub hook_units : field_atom (x_base_field_hook_units b) s ≡ ok init.p_hook_units s
  pub hook_length : field_atom (x_base_field_hook_length b) s ≡ ok init.p_hook_length s
  pub hook_error : field_atom (x_base_field_hook_error b) s ≡ ok init.p_hook_error s
  pub obj_meta_extra : field_int (x_base_field_obj_meta_extra b) s ≡ ok init.obj_meta_extra s
  pub heap_mark : field_atom (x_base_field_heap_mark b) s ≡ ok init.p_heap_mark s
  pub heap_free : field_atom (x_base_field_heap_free b) s ≡ ok init.p_heap_free s
  pub mark_hooks : field_atom (x_base_field_heap_mark_hooks b) s ≡ ok null s
  pub free_hooks : field_atom (x_base_field_heap_free_hooks b) s ≡ ok null s
  pub mark_roots : field_atom (x_base_field_heap_mark_roots b) s ≡ ok null s
  pub root_chain : field_atom (x_base_field_heap_root_chain b) s ≡ ok null s
  pub alloc_count : field_int (x_base_field_alloc_count b) s ≡ ok 0 s
  pub alloc_limit : field_int (x_base_field_alloc_limit b) s ≡ ok 0 s
  pub alloc_error : field_atom (x_base_field_alloc_error b) s ≡ ok null s

module _ (sys : System) (b : Ptr) {s : State} where
  atom_value :
      (m : Cmd Ptr) {x : Word} {y : Tree}
      → Leads sys b s m (pair (atom x) y)
      → field_int m s ≡ ok x s
  unfolding field_int field_atom
  atom_value m (p, e, is_pair n (is_atom na) ry) =
      rw (e, x_firstobj-ok n.at n.is_units, x_firstobj-ok na.at na.is_units)

  held_value :
      (m : Cmd Ptr) {x : Ptr} {y : Tree}
      → Leads sys b s m (pair (value x) y)
      → field_atom m s ≡ ok x s
  unfolding field_atom
  held_value m (p, e, is_pair n is_value ry) = rw (e, x_firstobj-ok n.at n.is_units)

  module _ {o : Obj} {root : Ptr} (init : BaseInit) (at : Points s b o) (us : o.units ≡ root ∷ [])
      (tree : Represents sys b s root (base_tree init)) where
    to_root : Leads sys b s (x_base b) (base_tree init)
    unfolding x_base
    to_root = (root, x_firstobj-ok at us, tree)

    to_io : Leads sys b s (x_base_field_io_fields b) (pair (pair nil (files_tree init)) nil)
    unfolding x_base_field_io_fields base_tree
    to_io = Leads-elem_n sys b s (x_base b) 1 to_root refl

    to_files : Leads sys b s (x_base_field_files b) (files_tree init)
    unfolding x_base_field_files
    to_files = Leads-first_rest sys b s (x_base_field_io_fields b) to_io

    to_meta : Leads sys b s (x_base_field_meta_fields b) (
        pair
          (pair (pair (field (atom 0)) nil) (hooks_tree init))
          (pair (heap_tree init) (pair alloc_tree nil)))
    unfolding x_base_field_meta_fields base_tree
    to_meta = Leads-rest_n sys b s (x_base b) 2 to_root refl

    to_hooks : Leads sys b s (x_base_field_hooks b) (hooks_tree init)
    unfolding x_base_field_hooks
    to_hooks = Leads-first_rest sys b s (x_base_field_meta_fields b) to_meta

    to_heap : Leads sys b s (x_base_field_heap_fields b) (heap_tree init)
    unfolding x_base_field_heap_fields
    to_heap = Leads-elem_n sys b s (x_base_field_meta_fields b) 1 to_meta refl

    to_alloc : Leads sys b s (x_base_field_alloc_fields b) alloc_tree
    unfolding x_base_field_alloc_fields
    to_alloc = Leads-elem_n sys b s (x_base_field_meta_fields b) 2 to_meta refl

    file :
        (n : ℕ) {u v : Tree}
        → nth_rest n (files_tree init) ≡ some (pair u v)
        → Leads sys b s (x_base_field_files b >>= elem_n n) u
    file n h = Leads-elem_n sys b s (x_base_field_files b) n to_files h

    profile_at : Leads sys b s (x_base_field_profile_allocs b) (field (atom 0))
    unfolding x_base_field_profile_allocs x_base_field_profile
    profile_at =
        Leads-first sys b s (x_base_field_profile b)
          (Leads-first_first sys b s (x_base_field_meta_fields b) to_meta)

    hook :
        (n : ℕ) {u v : Tree}
        → nth_rest n (hooks_tree init) ≡ some (pair u v)
        → Leads sys b s (x_base_field_hooks b >>= elem_n n) u
    hook n h = Leads-elem_n sys b s (x_base_field_hooks b) n to_hooks h

    heap_at :
        (n : ℕ) {u v : Tree}
        → nth_rest n (heap_tree init) ≡ some (pair u v)
        → Leads sys b s (x_base_field_heap_fields b >>= elem_n n) u
    heap_at n h = Leads-elem_n sys b s (x_base_field_heap_fields b) n to_heap h

    alloc_at :
        (n : ℕ) {u v : Tree}
        → nth_rest n alloc_tree ≡ some (pair u v)
        → Leads sys b s (x_base_field_alloc_fields b >>= elem_n n) u
    alloc_at n h = Leads-elem_n sys b s (x_base_field_alloc_fields b) n to_alloc h

    root_set : root ≢ null
    unfolding base_tree
    root_set = elim tree [ is_pair n rx ry ↦ n.at.ne_null ]

    is_set : x_base_isset b s ≡ ok true s
    unfolding x_base_isset x_base
    is_set = rw (not_null at, x_firstobj-ok at us, ==_of_ne root null root_set)

    pub tree-Initial : Initial init b s
    unfolding x_base_field_filein x_base_field_fileout x_base_field_fileerr x_base_field_write_buf
        x_base_field_buffer x_base_field_hook_type_name x_base_field_hook_units
        x_base_field_hook_length x_base_field_hook_error x_base_field_obj_meta_extra
        x_base_field_heap_mark x_base_field_heap_free x_base_field_heap_mark_hooks
        x_base_field_heap_free_hooks x_base_field_heap_mark_roots x_base_field_heap_root_chain
        x_base_field_alloc_count x_base_field_alloc_limit x_base_field_alloc_error
    tree-Initial = record {
      isset = is_set;
      filein = atom_value (x_base_field_filein b) (file 0 refl);
      fileout = atom_value (x_base_field_fileout b) (file 1 refl);
      fileerr = atom_value (x_base_field_fileerr b) (file 2 refl);
      write_buf = held_value (x_base_field_write_buf b) (file 3 refl);
      buffer = held_value (x_base_field_buffer b) (file 4 refl);
      profile_allocs = atom_value (x_base_field_profile_allocs b) profile_at;
      hook_type_name = held_value (x_base_field_hook_type_name b) (hook 0 refl);
      hook_units = held_value (x_base_field_hook_units b) (hook 1 refl);
      hook_length = held_value (x_base_field_hook_length b) (hook 2 refl);
      hook_error = held_value (x_base_field_hook_error b) (hook 3 refl);
      obj_meta_extra = atom_value (x_base_field_obj_meta_extra b) (heap_at 0 refl);
      heap_mark = held_value (x_base_field_heap_mark b) (heap_at 1 refl);
      heap_free = held_value (x_base_field_heap_free b) (heap_at 2 refl);
      mark_hooks = held_value (x_base_field_heap_mark_hooks b) (heap_at 3 refl);
      free_hooks = held_value (x_base_field_heap_free_hooks b) (heap_at 4 refl);
      mark_roots = held_value (x_base_field_heap_mark_roots b) (heap_at 5 refl);
      root_chain = held_value (x_base_field_heap_root_chain b) (heap_at 6 refl);
      alloc_count = atom_value (x_base_field_alloc_count b) (alloc_at 0 refl);
      alloc_limit = atom_value (x_base_field_alloc_limit b) (alloc_at 1 refl);
      alloc_error = held_value (x_base_field_alloc_error b) (alloc_at 2 refl);
    }
