-- ===== src/Lisp.antt =====
-- include/x-lisp.h: the Lisp names of pairs.
pub mod Walk
pub mod Cells
use x_expr.Prelude.{ℕ, Bool, true, false, Option, none, some, List, [], ◌∷◌}
use x_expr.Memory.{Word, Ptr, Cmd, ◌>>=◌}
use x_expr.Sys.{System}
use x_expr.Obj.{x_firstobj, x_restobj, set_data_i}
use x_expr.Obj.Alloc.{x_mkspair}

unfoldable pub x_cons : System → Ptr → ℕ → Word → Word → Cmd Ptr
x_cons sys base flags x y = x_mkspair sys base flags x y

unfoldable pub x_car : Ptr → Cmd Ptr
x_car p = x_firstobj p

unfoldable pub x_cdr : Ptr → Cmd Ptr
x_cdr p = x_restobj p

-- x_car(X) = Y and x_cdr(X) = Y
unfoldable pub x_setcar : Ptr → Word → Cmd (Unit {0})
x_setcar p y = set_data_i p 0 y

unfoldable pub x_setcdr : Ptr → Word → Cmd (Unit {0})
x_setcdr p y = set_data_i p 1 y

module _ (p : Ptr) where
  unfoldable pub x_caar : Cmd Ptr
  x_caar = x_car p >>= x_car

  unfoldable pub x_cadr : Cmd Ptr
  x_cadr = x_cdr p >>= x_car

  unfoldable pub x_cdar : Cmd Ptr
  x_cdar = x_car p >>= x_cdr

  unfoldable pub x_cddr : Cmd Ptr
  x_cddr = x_cdr p >>= x_cdr

  unfoldable pub x_caaar : Cmd Ptr
  x_caaar = x_caar >>= x_car

  unfoldable pub x_caadr : Cmd Ptr
  x_caadr = x_cadr >>= x_car

  unfoldable pub x_cadar : Cmd Ptr
  x_cadar = x_cdar >>= x_car

  unfoldable pub x_caddr : Cmd Ptr
  x_caddr = x_cddr >>= x_car

  unfoldable pub x_cdaar : Cmd Ptr
  x_cdaar = x_caar >>= x_cdr

  unfoldable pub x_cdadr : Cmd Ptr
  x_cdadr = x_cadr >>= x_cdr

  unfoldable pub x_cddar : Cmd Ptr
  x_cddar = x_cdar >>= x_cdr

  unfoldable pub x_cdddr : Cmd Ptr
  x_cdddr = x_cddr >>= x_cdr

  unfoldable pub x_caaaar : Cmd Ptr
  x_caaaar = x_caaar >>= x_car

  unfoldable pub x_caaadr : Cmd Ptr
  x_caaadr = x_caadr >>= x_car

  unfoldable pub x_caadar : Cmd Ptr
  x_caadar = x_cadar >>= x_car

  unfoldable pub x_caaddr : Cmd Ptr
  x_caaddr = x_caddr >>= x_car

  unfoldable pub x_cadaar : Cmd Ptr
  x_cadaar = x_cdaar >>= x_car

  unfoldable pub x_cadadr : Cmd Ptr
  x_cadadr = x_cdadr >>= x_car

  unfoldable pub x_caddar : Cmd Ptr
  x_caddar = x_cddar >>= x_car

  unfoldable pub x_cadddr : Cmd Ptr
  x_cadddr = x_cdddr >>= x_car

  unfoldable pub x_cdaaar : Cmd Ptr
  x_cdaaar = x_caaar >>= x_cdr

  unfoldable pub x_cdaadr : Cmd Ptr
  x_cdaadr = x_caadr >>= x_cdr

  unfoldable pub x_cdadar : Cmd Ptr
  x_cdadar = x_cadar >>= x_cdr

  unfoldable pub x_cdaddr : Cmd Ptr
  x_cdaddr = x_caddr >>= x_cdr

  unfoldable pub x_cddaar : Cmd Ptr
  x_cddaar = x_cdaar >>= x_cdr

  unfoldable pub x_cddadr : Cmd Ptr
  x_cddadr = x_cdadr >>= x_cdr

  unfoldable pub x_cdddar : Cmd Ptr
  x_cdddar = x_cddar >>= x_cdr

  unfoldable pub x_cddddr : Cmd Ptr
  x_cddddr = x_cdddr >>= x_cdr

-- The accessors by the letters of their names: false for an a, true for a d.
unfoldable pub lisp_accessor : List Bool → Option (Ptr → Cmd Ptr)
lisp_accessor [] = none
lisp_accessor (false ∷ []) = some x_car
lisp_accessor (true ∷ []) = some x_cdr
lisp_accessor (false ∷ false ∷ []) = some x_caar
lisp_accessor (false ∷ true ∷ []) = some x_cadr
lisp_accessor (true ∷ false ∷ []) = some x_cdar
lisp_accessor (true ∷ true ∷ []) = some x_cddr
lisp_accessor (false ∷ false ∷ false ∷ []) = some x_caaar
lisp_accessor (false ∷ false ∷ true ∷ []) = some x_caadr
lisp_accessor (false ∷ true ∷ false ∷ []) = some x_cadar
lisp_accessor (false ∷ true ∷ true ∷ []) = some x_caddr
lisp_accessor (true ∷ false ∷ false ∷ []) = some x_cdaar
lisp_accessor (true ∷ false ∷ true ∷ []) = some x_cdadr
lisp_accessor (true ∷ true ∷ false ∷ []) = some x_cddar
lisp_accessor (true ∷ true ∷ true ∷ []) = some x_cdddr
lisp_accessor (false ∷ false ∷ false ∷ false ∷ []) = some x_caaaar
lisp_accessor (false ∷ false ∷ false ∷ true ∷ []) = some x_caaadr
lisp_accessor (false ∷ false ∷ true ∷ false ∷ []) = some x_caadar
lisp_accessor (false ∷ false ∷ true ∷ true ∷ []) = some x_caaddr
lisp_accessor (false ∷ true ∷ false ∷ false ∷ []) = some x_cadaar
lisp_accessor (false ∷ true ∷ false ∷ true ∷ []) = some x_cadadr
lisp_accessor (false ∷ true ∷ true ∷ false ∷ []) = some x_caddar
lisp_accessor (false ∷ true ∷ true ∷ true ∷ []) = some x_cadddr
lisp_accessor (true ∷ false ∷ false ∷ false ∷ []) = some x_cdaaar
lisp_accessor (true ∷ false ∷ false ∷ true ∷ []) = some x_cdaadr
lisp_accessor (true ∷ false ∷ true ∷ false ∷ []) = some x_cdadar
lisp_accessor (true ∷ false ∷ true ∷ true ∷ []) = some x_cdaddr
lisp_accessor (true ∷ true ∷ false ∷ false ∷ []) = some x_cddaar
lisp_accessor (true ∷ true ∷ false ∷ true ∷ []) = some x_cddadr
lisp_accessor (true ∷ true ∷ true ∷ false ∷ []) = some x_cdddar
lisp_accessor (true ∷ true ∷ true ∷ true ∷ []) = some x_cddddr
lisp_accessor (_ ∷ _ ∷ _ ∷ _ ∷ _ ∷ _) = none
