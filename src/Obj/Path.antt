-- ===== src/Obj/Path.antt =====
-- The bit-path accessors of include/x-obj.h: 0 is the first, 1 the rest, and the leftmost bit is the
-- last step.
use x_expr.Prelude.{Bool, true, false, Option, none, some, List, [], ◌∷◌}
use x_expr.Memory.{Ptr, Cmd, ◌>>=◌}
use x_expr.Obj.{x_firstobj, x_restobj}

unfoldable pub x_0 : Ptr → Cmd Ptr
x_0 p = x_firstobj p

unfoldable pub x_1 : Ptr → Cmd Ptr
x_1 p = x_restobj p

module _ (p : Ptr) where
  unfoldable pub x_00 : Cmd Ptr
  x_00 = x_0 p >>= x_0

  unfoldable pub x_01 : Cmd Ptr
  x_01 = x_1 p >>= x_0

  unfoldable pub x_10 : Cmd Ptr
  x_10 = x_0 p >>= x_1

  unfoldable pub x_11 : Cmd Ptr
  x_11 = x_1 p >>= x_1

  unfoldable pub x_000 : Cmd Ptr
  x_000 = x_00 >>= x_0

  unfoldable pub x_001 : Cmd Ptr
  x_001 = x_01 >>= x_0

  unfoldable pub x_010 : Cmd Ptr
  x_010 = x_10 >>= x_0

  unfoldable pub x_011 : Cmd Ptr
  x_011 = x_11 >>= x_0

  unfoldable pub x_100 : Cmd Ptr
  x_100 = x_00 >>= x_1

  unfoldable pub x_101 : Cmd Ptr
  x_101 = x_01 >>= x_1

  unfoldable pub x_110 : Cmd Ptr
  x_110 = x_10 >>= x_1

  unfoldable pub x_111 : Cmd Ptr
  x_111 = x_11 >>= x_1

  unfoldable pub x_0000 : Cmd Ptr
  x_0000 = x_000 >>= x_0

  unfoldable pub x_0001 : Cmd Ptr
  x_0001 = x_001 >>= x_0

  unfoldable pub x_0010 : Cmd Ptr
  x_0010 = x_010 >>= x_0

  unfoldable pub x_0011 : Cmd Ptr
  x_0011 = x_011 >>= x_0

  unfoldable pub x_0100 : Cmd Ptr
  x_0100 = x_100 >>= x_0

  unfoldable pub x_0101 : Cmd Ptr
  x_0101 = x_101 >>= x_0

  unfoldable pub x_0110 : Cmd Ptr
  x_0110 = x_110 >>= x_0

  unfoldable pub x_0111 : Cmd Ptr
  x_0111 = x_111 >>= x_0

  unfoldable pub x_1000 : Cmd Ptr
  x_1000 = x_000 >>= x_1

  unfoldable pub x_1001 : Cmd Ptr
  x_1001 = x_001 >>= x_1

  unfoldable pub x_1010 : Cmd Ptr
  x_1010 = x_010 >>= x_1

  unfoldable pub x_1011 : Cmd Ptr
  x_1011 = x_011 >>= x_1

  unfoldable pub x_1100 : Cmd Ptr
  x_1100 = x_100 >>= x_1

  unfoldable pub x_1101 : Cmd Ptr
  x_1101 = x_101 >>= x_1

  unfoldable pub x_1110 : Cmd Ptr
  x_1110 = x_110 >>= x_1

  unfoldable pub x_1111 : Cmd Ptr
  x_1111 = x_111 >>= x_1

-- The accessors by the bits of their names.
unfoldable pub bit_accessor : List Bool → Option (Ptr → Cmd Ptr)
bit_accessor [] = none
bit_accessor (false ∷ []) = some x_0
bit_accessor (true ∷ []) = some x_1
bit_accessor (false ∷ false ∷ []) = some x_00
bit_accessor (false ∷ true ∷ []) = some x_01
bit_accessor (true ∷ false ∷ []) = some x_10
bit_accessor (true ∷ true ∷ []) = some x_11
bit_accessor (false ∷ false ∷ false ∷ []) = some x_000
bit_accessor (false ∷ false ∷ true ∷ []) = some x_001
bit_accessor (false ∷ true ∷ false ∷ []) = some x_010
bit_accessor (false ∷ true ∷ true ∷ []) = some x_011
bit_accessor (true ∷ false ∷ false ∷ []) = some x_100
bit_accessor (true ∷ false ∷ true ∷ []) = some x_101
bit_accessor (true ∷ true ∷ false ∷ []) = some x_110
bit_accessor (true ∷ true ∷ true ∷ []) = some x_111
bit_accessor (false ∷ false ∷ false ∷ false ∷ []) = some x_0000
bit_accessor (false ∷ false ∷ false ∷ true ∷ []) = some x_0001
bit_accessor (false ∷ false ∷ true ∷ false ∷ []) = some x_0010
bit_accessor (false ∷ false ∷ true ∷ true ∷ []) = some x_0011
bit_accessor (false ∷ true ∷ false ∷ false ∷ []) = some x_0100
bit_accessor (false ∷ true ∷ false ∷ true ∷ []) = some x_0101
bit_accessor (false ∷ true ∷ true ∷ false ∷ []) = some x_0110
bit_accessor (false ∷ true ∷ true ∷ true ∷ []) = some x_0111
bit_accessor (true ∷ false ∷ false ∷ false ∷ []) = some x_1000
bit_accessor (true ∷ false ∷ false ∷ true ∷ []) = some x_1001
bit_accessor (true ∷ false ∷ true ∷ false ∷ []) = some x_1010
bit_accessor (true ∷ false ∷ true ∷ true ∷ []) = some x_1011
bit_accessor (true ∷ true ∷ false ∷ false ∷ []) = some x_1100
bit_accessor (true ∷ true ∷ false ∷ true ∷ []) = some x_1101
bit_accessor (true ∷ true ∷ true ∷ false ∷ []) = some x_1110
bit_accessor (true ∷ true ∷ true ∷ true ∷ []) = some x_1111
bit_accessor (_ ∷ _ ∷ _ ∷ _ ∷ _ ∷ _) = none
