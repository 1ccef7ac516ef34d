-- ===== src/Obj/Datum.antt =====
-- The accessors of include/x-obj.h by the member of `union x_datum_union` that they name. All members
-- are a word but the character, which is a word's low byte.
use x_expr.Prelude.{ℕ, ◌%◌, ◌^◌}
use x_expr.Memory.{Word, Ptr, Cmd, pure, ◌>>=◌}
use x_expr.Obj.{x_obj_data_i, x_firstobj}

abbrev pub x_obj : Word → Word
x_obj w = w

abbrev pub x_fn : Word → Word
x_fn w = w

abbrev pub x_int : Word → Word
x_int w = w

abbrev pub x_char : Word → ℕ
x_char w = w % 2 ^ 8

abbrev pub x_str : Word → Word
x_str w = w

abbrev pub x_ptr : Word → Word
x_ptr w = w

unfoldable pub x_first : Ptr → Cmd Word
unfolding x_obj_data_i
x_first p = x_obj_data_i p 0

unfoldable pub x_second : Ptr → Cmd Word
unfolding x_obj_data_i
x_second p = x_obj_data_i p 1

unfoldable pub x_rest : Ptr → Cmd Word
unfolding x_second
x_rest p = x_second p

unfoldable pub x_firstptr : Ptr → Cmd Word
unfolding x_first
x_firstptr p = do w ← x_first p; pure (x_ptr w)

unfoldable pub x_firstint : Ptr → Cmd Word
unfolding x_first
x_firstint p = do w ← x_first p; pure (x_int w)

unfoldable pub x_firstchar : Ptr → Cmd Word
unfolding x_first
x_firstchar p = do w ← x_first p; pure (x_char w)

unfoldable pub x_firststr : Ptr → Cmd Word
unfolding x_first
x_firststr p = do w ← x_first p; pure (x_str w)

unfoldable pub x_firstfn : Ptr → Cmd Word
unfolding x_first
x_firstfn p = do w ← x_first p; pure (x_fn w)

unfoldable pub x_secondptr : Ptr → Cmd Word
unfolding x_rest
x_secondptr p = do w ← x_rest p; pure (x_ptr w)

unfoldable pub x_secondint : Ptr → Cmd Word
unfolding x_rest
x_secondint p = do w ← x_rest p; pure (x_int w)

unfoldable pub x_secondchar : Ptr → Cmd Word
unfolding x_rest
x_secondchar p = do w ← x_rest p; pure (x_char w)

unfoldable pub x_secondstr : Ptr → Cmd Word
unfolding x_rest
x_secondstr p = do w ← x_rest p; pure (x_str w)

unfoldable pub x_secondfn : Ptr → Cmd Word
unfolding x_rest
x_secondfn p = do w ← x_rest p; pure (x_fn w)

unfoldable pub x_secondobj : Ptr → Cmd Word
unfolding x_rest
x_secondobj p = do w ← x_rest p; pure (x_obj w)

unfoldable pub x_atomptr : Ptr → Cmd Word
unfolding x_firstptr
x_atomptr p = x_firstptr p

unfoldable pub x_atomobj : Ptr → Cmd Word
unfolding x_firstobj
x_atomobj p = x_firstobj p

unfoldable pub x_atomint : Ptr → Cmd Word
unfolding x_firstint
x_atomint p = x_firstint p

unfoldable pub x_atomchar : Ptr → Cmd Word
unfolding x_firstchar
x_atomchar p = x_firstchar p

unfoldable pub x_atomstr : Ptr → Cmd Word
unfolding x_firststr
x_atomstr p = x_firststr p

unfoldable pub x_atomfn : Ptr → Cmd Word
unfolding x_firstfn
x_atomfn p = x_firstfn p

unfoldable pub x_restptr : Ptr → Cmd Word
unfolding x_secondptr
x_restptr p = x_secondptr p

unfoldable pub x_restint : Ptr → Cmd Word
unfolding x_secondint
x_restint p = x_secondint p

unfoldable pub x_restchar : Ptr → Cmd Word
unfolding x_secondchar
x_restchar p = x_secondchar p

unfoldable pub x_reststr : Ptr → Cmd Word
unfolding x_secondstr
x_reststr p = x_secondstr p

unfoldable pub x_restfn : Ptr → Cmd Word
unfolding x_secondfn
x_restfn p = x_secondfn p
