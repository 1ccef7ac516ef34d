-- ===== src/Debug/Dump.antt =====
-- x_obj_dump of src/x-obj.c on an atom.
use x_expr.Prelude.{
  ℕ, ◌^◌, ◌<◌, ◌≡◌, ◌≢◌, refl, some, List, [], ◌∷◌, length, ◌==◌, if◌then◌else◌, ==_of_ne, ==_of_eq,
}
use x_expr.Memory.{Word, Ptr, null, Obj, State, ok, pure}
use x_expr.Memory.Points.{Points, not_null}
use x_expr.Sys.{System}
use x_expr.Obj.Access.{x_obj_flags-ok, x_obj_heap-ok}
use x_expr.Obj.Static.{Loaded}
use x_expr.Obj.TypeInfo.Builtin.{Free}
use x_expr.Obj.TypeInfo.Named.{builtin_name, type_name-builtin}
use x_expr.Strings.Laws.{Text}
use x_expr.Number.Digits.{numeral}
use x_expr.Error.{stderr_fileno, string_at}
use x_expr.Debug.{
  Printf, Arg, text, pointer, dump_format, x_debug_buffer_size, given, x_obj_debug_va, x_obj_debug,
  x_obj_dump,
}
use x_expr.Debug.Flags.{flag_text-numeral}
use x_expr.Debug.Written.{
  Conforming, head, body, reported, debug_va-reported, value_text, data_text-atom,
}

module _ {pf : Printf} (con : Conforming pf) {sys : System} {s : State} (free : Free sys s)
    (load : Loaded sys s) (distinct : sys.atom_type ≢ sys.pair_type)
    (type_set : sys.atom_type ≢ null) (file : List ℕ) (line : ℕ) (base : Ptr) {p : Ptr} {o : Obj}
    {w : Word} {us : List Word} (e : Points s p o) (unit : o.units ≡ w ∷ us)
    (atom : o.type ≡ sys.atom_type) where
  -- What a dump shows of the atom.
  abbrev pub shown : (label name : List ℕ) → List Arg
  shown label name =
      text label
      ∷ text name
      ∷ text (numeral 64 2 o.flags)
      ∷ pointer p
      ∷ pointer o.heap
      ∷ text (value_text con sys e unit atom distinct type_set)
      ∷ []

  named : builtin_name sys o.type ≡ some sys.atom_name
  named =
      let other = ==_of_ne sys.atom_type sys.pair_type distinct in
      let itself = ==_of_eq sys.atom_type sys.atom_type refl in rw (atom, other, itself) refl

  -- With a printf that copies the formats without conversions, gives a word at most 16 digits in
  -- base 16 and has 33 bytes for the flags; the static objects in place and a free address for the
  -- local pair of a call; the atom type neither NULL nor the pair type; the message NULL or a
  -- string, the name of the atom type a string, flags below 2^32, and both formatted texts shorter
  -- than the debug buffer, the first without a NUL byte: x_obj_dump of an object of the atom type
  -- ends, and all that it does is to write three times to standard error: the place in the source,
  -- the line with the message, the type's name, the flags in base 2, the addresses and the value,
  -- and the closing mark.
  pub dump-atom :
      (msg : Ptr) {label name : List ℕ}
      → (if msg == null then pure [] else string_at msg) s ≡ ok label s
      → string_at sys.atom_name s ≡ ok name s
      → o.flags < 2 ^ 32
      → Text (head pf sys file line stderr_fileno dump_format (shown label name))
      → length (head pf sys file line stderr_fileno dump_format (shown label name))
        < x_debug_buffer_size
      → length (body pf sys file line stderr_fileno dump_format (shown label name))
        < x_debug_buffer_size
      → x_obj_dump pf sys file line base p msg s
        ≡ ok tt (reported pf sys file line stderr_fileno dump_format (shown label name) s)
  unfolding x_obj_dump x_obj_debug x_obj_debug_va given
  dump-atom msg {label} {name} labelled called small no_nul fits fits' =
      rw
        (
          type_name-builtin free load base e named,
          not_null e,
          x_obj_flags-ok e,
          flag_text-numeral pf o.flags con.flag_buffer small,
          data_text-atom con sys e unit atom distinct type_set,
          labelled,
          called,
          x_obj_heap-ok e,
        )
        (debug_va-reported pf sys file line stderr_fileno dump_format (shown label name) s no_nul
          fits fits')
