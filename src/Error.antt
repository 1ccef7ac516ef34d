-- ===== src/Error.antt =====
-- src/x.c: x_error, and x_obj_error of src/x-obj.c. Strings are the bytes at their start address, up
-- to the NUL that x_lib_strlen finds.
pub mod Reported
use x_expr.Prelude.{ℕ, Option, none, some, List, [], ◌∷◌, ◌==◌, if◌then◌else◌, take}
use x_expr.Memory.{Ptr, null, fault, Cmd, pure, ◌>>=◌}
use x_expr.Sys.{System, buffer_at, x_sys_write}
use x_expr.Obj.{x_firstobj, x_obj_type_issatom, x_obj_isnil}
use x_expr.Base.{x_base_isset, x_base_field_hook_error}
use x_expr.Strings.{x_lib_strlen}

abbrev pub stderr_fileno : ℕ
stderr_fileno = 2

-- The text of the string at `p`, as x_sys_write gets it with x_lib_strlen's count.
unfoldable pub string_at : Ptr → Cmd (List ℕ)
unfolding buffer_at
string_at p = do
  b ← buffer_at p
  elim (x_lib_strlen b) [ none ↦ (λ _. fault) | some n ↦ pure (take n b) ]

-- "*** ERROR: " and " '"
abbrev pub error_prefix : List ℕ
error_prefix = b'*' ∷ b'*' ∷ b'*' ∷ b' ' ∷ b'E' ∷ b'R' ∷ b'R' ∷ b'O' ∷ b'R' ∷ b':' ∷ b' ' ∷ []

abbrev pub error_quote : List ℕ
error_quote = b' ' ∷ 39 ∷ []

module _ (sys : System) where
  unfoldable pub x_error : ℕ → Ptr → Ptr → Cmd (Unit {0})
  x_error fd message p_text = do
    _ ← x_sys_write sys fd error_prefix
    m ← string_at message
    _ ← x_sys_write sys fd m
    if p_text == null then pure tt else (do
      _ ← x_sys_write sys fd error_quote
      t ← string_at p_text
      _ ← x_sys_write sys fd t
      pure tt)

  -- The error hook's code pointer; `none` where there is no base, no tree or no hook.
  unfoldable pub error_hook : Ptr → Cmd (Option Ptr)
  error_hook base = do
    set ← x_base_isset base
    if set
        then (do
          field ← x_base_field_hook_error base
          hook ← x_firstobj field
          if x_obj_isnil hook then pure none else (do fn ← x_firstobj hook; pure (some fn)))
        else pure none

  -- A hook takes the call. Otherwise the object's text is reported, if it is a static atom.
  unfoldable pub x_obj_error : Ptr → Ptr → Ptr → Cmd (Unit {0})
  unfolding error_hook
  x_obj_error base message p = do
    hook ← error_hook base
    elim hook [
      | some fn ↦ sys.call_error fn base message p
      | none ↦ if p == null then x_error stderr_fileno message null else (do
        atom ← x_obj_type_issatom sys p
        text ← if atom then x_firstobj p else pure null
        x_error stderr_fileno message text)
    ]
