-- ===== src/Obj/TypeInfo.antt =====
-- The type, units and length dispatch of src/x-obj.c. A primitive gets its arguments as a pair; the
-- plain functions build that pair as a local object, whose address `frame` gives, and drop it when
-- they return.
pub mod Builtin
pub mod Unknown
pub mod Named
pub mod Typed
use x_expr.Prelude.{
  ℕ, ◌≡◌, Bool, true, false, not, ◌||◌, Option, none, some, List, [], ◌∷◌, ◌==◌, if◌then◌else◌,
}
use x_expr.Memory.{Word, Ptr, null, State, Cmd, pure, ok, ◌>>=◌, ◌>>◌, put_obj}
use x_expr.Sys.{System}
use x_expr.Obj.{
  x_obj_flag_none, x_obj_type, x_firstobj, x_obj_type_issatom, x_obj_type_isspair, x_obj_isnil,
}
use x_expr.Base.{
  x_base_isset, x_base_field_hook_type_name, x_base_field_hook_units, x_base_field_hook_length,
}

-- x_spair_t args = x_obj_set(NULL, X_OBJ_FLAG_NONE, { p_obj }, { p_base }) around a call.
unfoldable pub with_args : {A : Type 0} → System → Ptr → Ptr → (Ptr → Cmd A) → Cmd A
with_args sys base p call s =
    let args = sys.frame s in
    (do a ← call args; (λ t. ok a (put_obj t args none)))
      (put_obj s args (
        some (record {
          heap = null;
          type = null;
          flags = x_obj_flag_none;
          units = p ∷ base ∷ [];
          before = [];
        })))

-- The subject of a primitive: NULL for nil arguments.
unfoldable pub subject : Ptr → Cmd Ptr
subject args = if x_obj_isnil args then pure null else x_firstobj args

-- The primitive's answer on the local pair, unwrapped.
unfoldable pub unwrap : Word → Cmd Ptr → Cmd Word
unwrap default prim = do
  answer ← prim
  if x_obj_isnil answer then pure default else x_firstobj answer

module _ (sys : System) where
  -- The hook in a field of a base that is set, called; NULL without one.
  unfoldable pub dispatch_hook : Cmd Ptr → (base args : Ptr) → Cmd Ptr
  dispatch_hook field base args = do
    set ← x_base_isset base
    if set
        then (do
          f ← field
          hook ← x_firstobj f
          if x_obj_isnil hook
              then pure null
              else (do fn ← x_firstobj hook; sys.call_fn fn base args))
        else pure null

  unfoldable pub x_obj_prim_type_name : (base args : Ptr) → Cmd Ptr
  unfolding dispatch_hook subject
  x_obj_prim_type_name base args = do
    p ← subject args
    if x_obj_isnil p then pure null else (do
      atom ← x_obj_type_issatom sys p
      pair ← x_obj_type_isspair sys p
      type ← x_obj_type p
      if atom || pair || x_obj_isnil type
          then pure type
          else dispatch_hook (x_base_field_hook_type_name base) base args)

  unfoldable pub x_obj_type_name : (base p : Ptr) → Cmd Ptr
  unfolding with_args unwrap x_obj_prim_type_name
  x_obj_type_name base p =
      with_args sys base p λ args. unwrap sys.nil_name (x_obj_prim_type_name base args)

  unfoldable pub x_atom_prim_units : (base args : Ptr) → Cmd Ptr
  x_atom_prim_units base args = pure sys.units_atom

  unfoldable pub x_pair_prim_units : (base args : Ptr) → Cmd Ptr
  x_pair_prim_units base args = pure sys.units_pair

  unfoldable pub x_obj_prim_units : (base args : Ptr) → Cmd Ptr
  unfolding dispatch_hook subject x_atom_prim_units x_pair_prim_units
  x_obj_prim_units base args = do
    p ← subject args
    if x_obj_isnil p then pure null else (do
      pair ← x_obj_type_isspair sys p
      if pair then x_pair_prim_units base args else (do
        atom ← x_obj_type_issatom sys p
        type ← x_obj_type p
        if atom || x_obj_isnil type
            then x_atom_prim_units base args
            else dispatch_hook (x_base_field_hook_units base) base args))

  unfoldable pub x_obj_units : (base p : Ptr) → Cmd Word
  unfolding with_args unwrap x_obj_prim_units
  x_obj_units base p = with_args sys base p λ args. unwrap 1 (x_obj_prim_units base args)

  unfoldable pub x_atom_prim_length : (base args : Ptr) → Cmd Ptr
  x_atom_prim_length base args = pure sys.length_atom

  unfoldable pub x_pair_prim_length : (base args : Ptr) → Cmd Ptr
  x_pair_prim_length base args = pure sys.length_pair

  unfoldable pub x_obj_prim_length : (base args : Ptr) → Cmd Ptr
  unfolding dispatch_hook subject x_atom_prim_length x_pair_prim_length
  x_obj_prim_length base args = do
    p ← subject args
    if x_obj_isnil p then pure null else (do
      pair ← x_obj_type_isspair sys p
      if pair then x_pair_prim_length base args else (do
        atom ← x_obj_type_issatom sys p
        type ← x_obj_type p
        if atom || x_obj_isnil type
            then x_atom_prim_length base args
            else dispatch_hook (x_base_field_hook_length base) base args))

  unfoldable pub x_obj_length : (base p : Ptr) → Cmd Word
  unfolding with_args unwrap x_obj_prim_length
  x_obj_length base p = with_args sys base p λ args. unwrap 0 (x_obj_prim_length base args)
