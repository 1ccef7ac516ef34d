-- ===== src/Debug.antt =====
-- The debug output of a DEBUG build: src/x.c and the end of src/x-obj.c. What sprintf formats is a
-- parameter; the local buffers are lists of bytes that are not in the state.
pub mod Flags
pub mod Written
pub mod Dump
use x_expr.Prelude.{
  ℕ, ◌+◌, ◌-◌, Bool, ◌||◌, Option, none, some, List, [], ◌∷◌, ◌++◌, ◌==◌, ltb, if◌then◌else◌, take,
  drop, length,
}
use mathlib.Core.Option
use x_expr.Memory.{Word, Ptr, null, State, Cmd, fault, ok, pure, ◌>>=◌, ◌>>◌}
use x_expr.Sys.{System, x_sys_write}
use x_expr.Obj.{
  x_obj_heap, x_obj_type, x_obj_flags, x_firstobj, x_restobj, x_obj_type_isspair, x_obj_isnil,
}
use x_expr.Obj.TypeInfo.{x_obj_type_name}
use x_expr.Strings.{x_lib_strchr, x_lib_strlen}
use x_expr.Number.{inttostr_into}
use x_expr.Error.{stderr_fileno, string_at}

-- What follows a format: a string's text, a number or a pointer.
pub data Arg : Type 0 where
  text : List ℕ → Arg
  word : Word → Arg
  pointer : Ptr → Arg

-- The bytes that sprintf stores in front of the NUL, and those that a local buffer holds before.
pub record Printf : Type 0 where
  pub sprintf : (fmt : List ℕ) → List Arg → List ℕ
  pub stack : ℕ → List ℕ

abbrev pub x_debug_buffer_size : ℕ
x_debug_buffer_size = 65536

-- "\n*** DEBUG(%s:%lu): ", " ***\n", and the formats of a dump.
abbrev pub debug_head : List ℕ
debug_head =
    10 ∷ b'*' ∷ b'*' ∷ b'*' ∷ b' ' ∷ b'D' ∷ b'E' ∷ b'B' ∷ b'U' ∷ b'G' ∷ b'(' ∷ b'%' ∷ b's' ∷ b':'
    ∷ b'%' ∷ b'l' ∷ b'u' ∷ b')' ∷ b':' ∷ b' ' ∷ []

abbrev pub debug_tail : List ℕ
debug_tail = b' ' ∷ b'*' ∷ b'*' ∷ b'*' ∷ 10 ∷ []

abbrev pub hex_format : List ℕ
hex_format = b'0' ∷ b'x' ∷ b'%' ∷ b'l' ∷ b'x' ∷ []

abbrev pub nil_text : List ℕ
nil_text = b'N' ∷ b'I' ∷ b'L' ∷ []

abbrev pub comma : List ℕ
comma = b',' ∷ b' ' ∷ []

-- "%s[%s:%s][%p] HEAP[%p]%s"
abbrev pub dump_format : List ℕ
dump_format =
    b'%' ∷ b's' ∷ b'[' ∷ b'%' ∷ b's' ∷ b':' ∷ b'%' ∷ b's' ∷ b']' ∷ b'[' ∷ b'%' ∷ b'p' ∷ b']' ∷ b' '
    ∷ b'H' ∷ b'E' ∷ b'A' ∷ b'P' ∷ b'[' ∷ b'%' ∷ b'p' ∷ b']' ∷ b'%' ∷ b's' ∷ []

-- A C string's text, in a buffer that has its NUL.
unfoldable pub c_text : List ℕ → Option (List ℕ)
c_text b = Option.map (λ n. take n b) (x_lib_strlen b)

-- What a command goes on with, a fault without it.
unfoldable pub given : {A : Type 0} → Option A → Cmd A
given none s = fault
given (some a) s = ok a s

module _ (pf : Printf) where
  -- s += sprintf(s, fmt, ...) behind what the debug buffer has; `none` past its end.
  unfoldable pub print_on : (so_far fmt : List ℕ) → List Arg → Option (List ℕ)
  print_on so_far fmt args =
      let all = so_far ++ pf.sprintf fmt args in
      if ltb (length all) x_debug_buffer_size then some all else none

  -- The digits of the flags in base 2 from the first 1 on, or the last of them, in a buffer of
  -- (sizeof(x_obj_flag_t) << 3) + 1 bytes.
  unfoldable pub flag_text : Word → Option (List ℕ)
  unfolding c_text
  flag_text flags = Option.bind (inttostr_into flags 2 (pf.stack 33)) λ b.
      Option.bind (x_lib_strchr b b'1') λ found. elim found [
        | some i ↦ c_text (drop i b)
        | none ↦ Option.bind (x_lib_strlen b) λ n. c_text (drop (n - 1) b)
      ]

  module _ (sys : System) where
    unfoldable pub x_debug_va :
        (file : List ℕ) (line fd : ℕ) → (fmt : List ℕ) → List Arg → Cmd (Unit {0})
    unfolding print_on c_text given
    x_debug_va file line fd fmt ap = do
      head ← given (print_on [] debug_head (text file ∷ word line ∷ []))
      shown ← given (c_text (head ++ 0 ∷ []))
      _ ← x_sys_write sys fd shown
      body ← given (print_on [] fmt ap)
      _ ← x_sys_write sys fd body
      _ ← x_sys_write sys fd debug_tail
      pure tt

    unfoldable pub x_debug :
        (file : List ℕ) (line fd : ℕ) → (fmt : List ℕ) → List Arg → Cmd (Unit {0})
    unfolding x_debug_va
    x_debug file line fd fmt args = x_debug_va file line fd fmt args

    unfoldable pub x_obj_debug_va :
        (file : List ℕ) (line : ℕ) (base : Ptr) → (fmt : List ℕ) → List Arg → Cmd (Unit {0})
    unfolding x_debug_va
    x_obj_debug_va file line base fmt ap = x_debug_va file line stderr_fileno fmt ap

    unfoldable pub x_obj_debug :
        (file : List ℕ) (line : ℕ) (base : Ptr) → (fmt : List ℕ) → List Arg → Cmd (Unit {0})
    unfolding x_obj_debug_va
    x_obj_debug file line base fmt args = x_obj_debug_va file line base fmt args

    -- The number at an object's first unit, or NIL for no object, behind what is there already.
    unfoldable pub print_unit : (so_far front : List ℕ) → Ptr → Cmd (List ℕ)
    unfolding print_on given
    print_unit so_far front p =
        if x_obj_isnil p
        then given (print_on so_far (front ++ nil_text) [])
        else (do n ← x_firstobj p; given (print_on so_far (front ++ hex_format) (word n ∷ [])))

    -- ":[first, rest]" of a pair and ":[value]" of another object that has a type.
    unfoldable pub data_text : Ptr → Cmd (List ℕ)
    unfolding print_unit
    data_text p = do
      type ← if x_obj_isnil p then pure null else x_obj_type p
      if x_obj_isnil p || x_obj_isnil type then pure [] else (do
        s ← given (print_on [] (b':' ∷ b'[' ∷ []) [])
        pair ← x_obj_type_isspair sys p
        s ←
            if pair
            then (do
              first ← x_firstobj p
              s ← print_unit s [] first
              rest ← x_restobj p
              print_unit s comma rest)
            else (do n ← x_firstobj p; given (print_on s hex_format (word n ∷ [])))
        given (print_on s (b']' ∷ []) []))

    unfoldable pub x_obj_dump : (file : List ℕ) (line : ℕ) (base p msg : Ptr) → Cmd (Unit {0})
    unfolding flag_text data_text x_obj_debug
    x_obj_dump file line base p msg = do
      type ← x_obj_type_name sys base p
      flags ← if p == null then pure (b'-' ∷ []) else (do f ← x_obj_flags p; given (flag_text f))
      s ← data_text p
      label ← if msg == null then pure [] else string_at msg
      name ← string_at type
      heap ← if p == null then pure null else x_obj_heap p
      x_obj_debug file line base dump_format
          (text label ∷ text name ∷ text flags ∷ pointer p ∷ pointer heap ∷ text s ∷ [])
