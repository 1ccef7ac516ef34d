-- ===== src/Obj/Alloc.antt =====
-- x_obj_alloc, x_obj_make_va, x_obj_make and x_obj_free of src/x-obj.c.
use x_expr.Prelude.{
  ℕ, zero, suc, ◌+◌, ◌*◌, ◌%◌, ◌^◌, ◌-◌, Bool, true, false, List, [], ◌∷◌, bit_or, ◌==◌, ltb,
  if◌then◌else◌, length, replicate, some,
}
use x_expr.Memory.{
  Word, Ptr, null, Obj, object, ok, fault, Cmd, pure, ◌>>=◌, ◌>>◌, put_obj, slt, sle, word_inc,
  word_dec, minus_one,
}
use x_expr.Sys.{System, x_sys_exit, x_sys_malloc, x_sys_free, put_block}
use x_expr.Obj.{
  x_obj_size, x_obj_meta_len, x_obj_flag_own, x_obj_flag_meta, has_flag, x_obj_heap, set_heap,
  x_obj_flags, x_firstobj, set_data_i, x_obj_isnil,
}
use x_expr.Base.{
  base_full, x_base_field_obj_meta_extra, x_base_field_alloc_count, x_base_field_alloc_limit,
  x_base_field_alloc_error,
}
use x_expr.Error.{stderr_fileno, x_error, x_obj_error}

-- What a full base configures, as x_obj_alloc reads it first; all zero without one.
pub record Config : Type 0 where
  pub full : Bool
  pub extra : Word
  pub limit : Word
  pub message : Ptr

-- The current value of a field, an atom, and the word in it.
unfoldable pub field_atom : Cmd Ptr → Cmd Ptr
field_atom field = do f ← field; x_firstobj f

unfoldable pub field_int : Cmd Ptr → Cmd Word
unfolding field_atom
field_int field = do a ← field_atom field; x_firstobj a

unfoldable pub config : Ptr → Cmd Config
config base = do
  full ← base_full base
  if full
      then (do
        extra ← field_int (x_base_field_obj_meta_extra base)
        limit ← field_int (x_base_field_alloc_limit base)
        message ← field_atom (x_base_field_alloc_error base)
        pure (record { full = true; extra = extra; limit = limit; message = message }))
      else pure (record { full = false; extra = 0; limit = 0; message = null })

-- Add to the allocated-object counter.
unfoldable pub update_count : (Word → Word) → Ptr → Cmd (Unit {0})
update_count f base = do
  a ← field_atom (x_base_field_alloc_count base)
  n ← x_firstobj a
  set_data_i a 0 (f n)

-- The words of a new block from index `i` on.
unfoldable pub fresh_units : (ℕ → Word) → ℕ → ℕ → List Word
fresh_units word i zero = []
fresh_units word i (suc n) = word i ∷ fresh_units word (i + 1) n

-- Whether a block as large as was asked for, modulo the size type, holds the extra units, the header and
-- the data units. A negative number of extra units, as a size_t, does not fit.
unfoldable pub fits : Word → ℕ → Bool
fits extra units =
    if ltb 0 extra then ltb (x_obj_size * (extra + x_obj_meta_len + units)) (2 ^ 64) else true

-- The object that a block becomes: `extra` zeroed units, the header, and `units` data units as the
-- block held them. Its pointer is past the extra units. Zeroing or moving past the end of the block
-- is undefined behaviour.
unfoldable pub place : System → Ptr → Word → ℕ → Obj → Cmd Ptr
unfolding fresh_units fits
place sys p extra units o s =
    let q = p + x_obj_size * extra in
    let word = sys.residue s p in
    if fits extra units
    then ok q (
        put_obj (put_block s p (some (object q))) q (
          some (record o {
            units = fresh_units word (extra + x_obj_meta_len) units;
            before = replicate extra 0;
          })))
    else fault

module _ (sys : System) where
  -- The direct report of an allocation that cannot go on, and the stop.
  unfoldable pub report_and_exit : {A : Type 0} → Ptr → Cmd A
  report_and_exit message = do
    _ ←
        if x_obj_isnil message
        then pure tt
        else (do text ← x_firstobj message; x_error sys stderr_fileno text null)
    x_sys_exit 2

  -- Whether the ceiling is armed and the count has reached it.
  unfoldable pub at_ceiling : Ptr → Word → Cmd Bool
  at_ceiling base limit =
      if slt 0 limit
      then (do n ← field_int (x_base_field_alloc_count base); pure (sle limit n))
      else pure false

  -- The limit becomes -1 before the report, which may not come back.
  unfoldable pub trip : {A : Type 0} → Ptr → Ptr → Cmd A
  trip base message = do
    a ← field_atom (x_base_field_alloc_limit base)
    set_data_i a 0 minus_one
    _ ←
        if x_obj_isnil message
        then pure tt
        else (do text ← x_firstobj message; x_obj_error sys base text null)
    x_sys_exit 2

  -- The request, and the object linked behind the base: the part after the guards.
  unfoldable pub allocate : Config → Ptr → Ptr → ℕ → ℕ → Cmd Ptr
  unfolding report_and_exit place update_count
  allocate c base type flags units = do
    p ← x_sys_malloc sys (x_obj_size * (c.extra + x_obj_meta_len + units) % 2 ^ 64)
    if p == null then (if c.full then report_and_exit c.message else pure null) else (do
      _ ← if c.full then update_count word_inc base else pure tt
      let flags' = if ltb 0 c.extra then bit_or flags x_obj_flag_meta else flags
      link ← if base == null then pure null else x_obj_heap base
      q ←
          place sys p c.extra units
            (record { heap = link; type = type; flags = flags'; units = []; before = [] })
      _ ← if base == null then pure tt else set_heap base q
      pure q)

  unfoldable pub x_obj_alloc : Ptr → Ptr → ℕ → ℕ → Cmd Ptr
  unfolding config at_ceiling trip allocate
  x_obj_alloc base type flags units = do
    c ← config base
    if slt c.limit 0 then report_and_exit c.message else (do
      reached ← at_ceiling base c.limit
      if reached then trip base c.message else allocate c base type flags units)

  -- for (; units--; *p++ = va_arg(ap, x_obj_t *));
  unfoldable pub fill : Ptr → ℕ → List Word → Cmd (Unit {0})
  fill p i [] = pure tt
  fill p i (a ∷ args) = do set_data_i p i a; fill p (i + 1) args

  -- The units of x_obj_make are the arguments that follow them.
  unfoldable pub x_obj_make : Ptr → Ptr → ℕ → List Word → Cmd Ptr
  unfolding x_obj_alloc fill
  x_obj_make base type flags args = do
    p ← x_obj_alloc base type flags (length args)
    if p == null then pure null else (do fill p 0 args; pure p)

  unfoldable pub x_mksatom : Ptr → ℕ → Word → Cmd Ptr
  unfolding x_obj_make
  x_mksatom base flags x = x_obj_make base sys.atom_type flags (x ∷ [])

  unfoldable pub x_mksatomown : Ptr → ℕ → Word → Cmd Ptr
  unfolding x_obj_make
  x_mksatomown base flags x = x_obj_make base sys.atom_type (bit_or flags x_obj_flag_own) (x ∷ [])

  unfoldable pub x_mkspair : Ptr → ℕ → Word → Word → Cmd Ptr
  unfolding x_obj_make
  x_mkspair base flags x y = x_obj_make base sys.pair_type flags (x ∷ y ∷ [])

-- A pointer that is moved back by more than itself leaves memory.
unfoldable pub free_back : Ptr → Word → Cmd (Unit {0})
free_back p extra =
    let back = x_obj_size * extra in if ltb p back then (λ _. fault) else x_sys_free (p - back)

-- if (x_obj_flags(p_obj) & X_OBJ_FLAG_OWN) x_sys_free(x_firstobj(p_obj));
unfoldable pub free_owned : Ptr → Cmd (Unit {0})
free_owned p = do
  flags ← x_obj_flags p
  if has_flag flags x_obj_flag_own then (do first ← x_firstobj p; x_sys_free first) else pure tt

unfoldable pub free_alloc : Ptr → Word → Cmd (Unit {0})
unfolding free_back
free_alloc p extra = do
  flags ← x_obj_flags p
  if has_flag flags x_obj_flag_meta then free_back p extra else x_sys_free p

unfoldable pub x_obj_free : Ptr → Ptr → Cmd (Unit {0})
unfolding update_count free_owned free_alloc
x_obj_free base p = do
  full ← base_full base
  extra ← if full then field_int (x_base_field_obj_meta_extra base) else pure 0
  _ ← if full then update_count word_dec base else pure tt
  free_owned p
  free_alloc p extra
