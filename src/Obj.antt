-- ===== src/Obj.antt =====
-- include/x-obj.h: the flags, the layout constants, and the macros that read and assign an object's
-- header and data units.
pub mod Alloc
pub mod Access
pub mod Free
pub mod Make
pub mod TypeInfo
pub mod Field
pub mod Path
pub mod Ceiling
pub mod Full
pub mod FullFree
pub mod Unmet
pub mod Stops
pub mod Datum
pub mod Account
pub mod Static
use x_expr.Prelude.{ℕ, ◌+◌, Bool, true, false, not, bit_and, ◌==◌, set}
use x_expr.Memory.{Word, Ptr, null, Obj, State, Cmd, pure, ◌>>=◌, ◌>>◌, load, store, unit_at}
use x_expr.Sys.{System}

abbrev pub x_obj_flag_none : ℕ
x_obj_flag_none = 0

abbrev pub x_obj_flag_own : ℕ
x_obj_flag_own = 0x20

abbrev pub x_obj_flag_meta : ℕ
x_obj_flag_meta = 0x80

abbrev pub x_obj_flag_shared : ℕ
x_obj_flag_shared = 0x100

abbrev pub x_obj_flag_mark : ℕ
x_obj_flag_mark = 0x200

-- The rest of x_obj_flag_enum.
abbrev pub x_obj_flag_obj : ℕ
x_obj_flag_obj = 0

abbrev pub x_obj_flag_1 : ℕ
x_obj_flag_1 = 0x1

abbrev pub x_obj_flag_2 : ℕ
x_obj_flag_2 = 0x2

abbrev pub x_obj_flag_3 : ℕ
x_obj_flag_3 = 0x4

abbrev pub x_obj_flag_4 : ℕ
x_obj_flag_4 = 0x8

abbrev pub x_obj_flag_attr_mask : ℕ
x_obj_flag_attr_mask = 0xF

abbrev pub x_obj_flag_simple_type : ℕ
x_obj_flag_simple_type = 0x10

abbrev pub x_obj_flag_prim : ℕ
x_obj_flag_prim = 0x10

abbrev pub x_obj_flag_fn : ℕ
x_obj_flag_fn = 0x11

abbrev pub x_obj_flag_int : ℕ
x_obj_flag_int = 0x12

abbrev pub x_obj_flag_char : ℕ
x_obj_flag_char = 0x13

abbrev pub x_obj_flag_str : ℕ
x_obj_flag_str = 0x14

abbrev pub x_obj_flag_ptr : ℕ
x_obj_flag_ptr = 0x15

abbrev pub x_obj_flag_type_mask : ℕ
x_obj_flag_type_mask = 0xF0

abbrev pub x_obj_flag_ro : ℕ
x_obj_flag_ro = 0x40

abbrev pub x_obj_flag_mask : ℕ
x_obj_flag_mask = 0x3FF

-- sizeof(x_obj_t): the bytes of a unit.
abbrev pub x_obj_size : ℕ
x_obj_size = 8

-- The header's units: heap link, type and flags.
abbrev pub x_obj_meta_len : ℕ
x_obj_meta_len = 3

-- A condition `flags & mask`: some bit of the mask is set.
abbrev pub has_flag : ℕ → ℕ → Bool
has_flag flags mask = not (bit_and flags mask == 0)

unfoldable pub x_obj_heap : Ptr → Cmd Ptr
x_obj_heap p = do o ← load p; pure o.heap

unfoldable pub set_heap : Ptr → Ptr → Cmd (Unit {0})
set_heap p q = do o ← load p; store p (record o { heap = q })

unfoldable pub x_obj_type : Ptr → Cmd Ptr
x_obj_type p = do o ← load p; pure o.type

unfoldable pub x_obj_flags : Ptr → Cmd ℕ
x_obj_flags p = do o ← load p; pure o.flags

unfoldable pub set_flags : Ptr → ℕ → Cmd (Unit {0})
set_flags p f = do o ← load p; store p (record o { flags = f })

-- Data unit `i`; a fault where the object has no such unit.
unfoldable pub x_obj_data_i : Ptr → ℕ → Cmd Word
x_obj_data_i p i = do o ← load p; unit_at o.units i

unfoldable pub set_data_i : Ptr → ℕ → Word → Cmd (Unit {0})
set_data_i p i w = do
  o ← load p
  _ ← unit_at o.units i
  store p (record o { units = set o.units i w })

-- Data units 0 and 1. A unit is one word, so x_firstobj, x_firstint, x_atomint and the others that
-- differ in the union's member read the same.
unfoldable pub x_firstobj : Ptr → Cmd Word
unfolding x_obj_data_i
x_firstobj p = x_obj_data_i p 0

unfoldable pub x_restobj : Ptr → Cmd Word
unfolding x_obj_data_i
x_restobj p = x_obj_data_i p 1

-- The predicates on the type slot, by identity of the static type objects.
unfoldable pub x_obj_type_issatom : System → Ptr → Cmd Bool
unfolding x_obj_type
x_obj_type_issatom sys p = do t ← x_obj_type p; pure (t == sys.atom_type)

unfoldable pub x_obj_type_isspair : System → Ptr → Cmd Bool
unfolding x_obj_type
x_obj_type_isspair sys p = do t ← x_obj_type p; pure (t == sys.pair_type)

unfoldable pub x_obj_isnil : Ptr → Bool
x_obj_isnil p = p == null
