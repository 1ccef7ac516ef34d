-- ===== src/Base/Make.antt =====
-- x_base_make of src/x-base.c. The nested pair(...) and atom(...) calls are a tree that is built node
-- by node, each pair after its first and its second argument: C leaves their order open, and with it
-- only the order of the new objects on the heap chain.
use x_expr.Prelude.{[], ◌∷◌}
use x_expr.Memory.{Word, Ptr, null, Cmd, pure, ◌>>=◌, ◌>>◌}
use x_expr.Sys.{System}
use x_expr.Obj.{x_obj_flag_none, x_obj_flag_shared, set_data_i}
use x_expr.Obj.Alloc.{x_obj_make, x_mksatom, x_mkspair}

-- struct x_base_t
pub record BaseInit : Type 0 where
  pub filein : Word
  pub fileout : Word
  pub fileerr : Word
  pub p_hook_type_name : Ptr
  pub p_hook_units : Ptr
  pub p_hook_length : Ptr
  pub p_hook_error : Ptr
  pub obj_meta_extra : Word
  pub p_heap_mark : Ptr
  pub p_heap_free : Ptr

-- A value that is there already (nil, or a hook), atom(x) and pair(x, y).
pub data Tree : Type 0 where
  value : Ptr → Tree
  atom : Word → Tree
  pair : Tree → Tree → Tree

abbrev pub nil : Tree
nil = value null

-- pair(x, nil), the field with no saved value.
abbrev pub field : Tree → Tree
field x = pair x nil

-- The lists of fields of the tree.
abbrev pub files_tree : BaseInit → Tree
files_tree base = pair (field (atom base.filein)) (
    pair (field (atom base.fileout))
      (pair (field (atom base.fileerr)) (pair (field nil) (pair (field nil) nil))))

abbrev pub hooks_tree : BaseInit → Tree
hooks_tree base = pair (field (value base.p_hook_type_name)) (
    pair (field (value base.p_hook_units))
      (pair (field (value base.p_hook_length)) (pair (field (value base.p_hook_error)) nil)))

abbrev pub heap_tree : BaseInit → Tree
heap_tree base = pair (field (atom base.obj_meta_extra)) (
    pair (field (value base.p_heap_mark)) (
      pair (field (value base.p_heap_free))
        (pair (field nil) (pair (field nil) (pair (field nil) (pair (field nil) nil))))))

abbrev pub alloc_tree : Tree
alloc_tree = pair (field (atom 0)) (pair (field (atom 0)) (pair (field nil) nil))

unfoldable pub base_tree : BaseInit → Tree
base_tree base = pair nil (
    pair (pair (pair nil (files_tree base)) nil) (
      pair (pair (pair (field (atom 0)) nil) (hooks_tree base))
        (pair (heap_tree base) (pair alloc_tree nil))))

module _ (sys : System) where
  unfoldable pub build : Ptr → Tree → Cmd Ptr
  build base (value p) = pure p
  build base (atom x) = x_mksatom sys base x_obj_flag_shared x
  build base (pair x y) = do
    first ← build base x
    rest ← build base y
    x_mkspair sys base x_obj_flag_shared first rest

  unfoldable pub x_base_make : Ptr → BaseInit → Cmd Ptr
  unfolding base_tree build
  x_base_make p_base base = do
    p_base ← x_obj_make sys p_base null x_obj_flag_none (null ∷ [])
    root ← build p_base (base_tree base)
    set_data_i p_base 0 root
    pure p_base
