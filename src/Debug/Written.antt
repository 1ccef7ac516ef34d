-- ===== src/Debug/Written.antt =====
-- What the debug functions of src/x.c and src/x-obj.c write.
use x_expr.Prelude.{
  ℕ, ◌≤◌, ◌<◌, ◌≡◌, ◌≢◌, true, some, List, [], ◌∷◌, ◌++◌, length, length-append, arith, ltb, ap,
  ◌∙◌, ==_of_ne,
}
use x_expr.Memory.{Word, Ptr, null, Obj, State, Call, wrote, ok}
use x_expr.Memory.Points.{Points, not_null}
use x_expr.Sys.{System, x_sys_write}
use x_expr.Strings.Laws.{Text}
use x_expr.Obj.{x_obj_isnil}
use x_expr.Obj.Access.{x_obj_type-ok, isspair-ok, x_firstobj-ok}
use x_expr.Debug.{
  Printf, Arg, text, word, debug_head, debug_tail, hex_format, x_debug_buffer_size, given, print_on,
  data_text, x_debug_va,
}
use x_expr.Debug.Flags.{c_text-Text}

-- What sprintf promises that the dump of an atom relies on: a format without a conversion is copied,
-- and a word in base 16 has at most 16 digits behind the 0x.
pub record Conforming (pf : Printf) : Type 0 where
  pub opening : pf.sprintf (b':' ∷ b'[' ∷ []) [] ≡ b':' ∷ b'[' ∷ []
  pub closing : pf.sprintf (b']' ∷ []) [] ≡ b']' ∷ []
  pub hexadecimal : (n : Word) → length (pf.sprintf hex_format (word n ∷ [])) ≤ 18
  pub flag_buffer : length (pf.stack 33) ≡ 33

print_on-fits :
    (pf : Printf) (so_far fmt : List ℕ) (args : List Arg)
    → length (so_far ++ pf.sprintf fmt args) < x_debug_buffer_size
    → print_on pf so_far fmt args ≡ some (so_far ++ pf.sprintf fmt args)
unfolding print_on
print_on-fits pf so_far fmt args h =
    let room : ltb (length (so_far ++ pf.sprintf fmt args)) x_debug_buffer_size ≡ true =
      ground (arith, h) in
    rw room

-- One more system call on record.
abbrev pub logged : State → Call → State
logged s c = record s { calls = s.calls ++ c ∷ [] }

module _ (pf : Printf) (sys : System) (file : List ℕ) (line fd : ℕ) (fmt : List ℕ)
    (ap_list : List Arg) where
  abbrev pub head : List ℕ
  head = pf.sprintf debug_head (text file ∷ word line ∷ [])

  abbrev pub body : List ℕ
  body = pf.sprintf fmt ap_list

  -- The three writes of a debug message.
  abbrev pub reported : State → State
  reported s = logged (logged (logged s (wrote fd head)) (wrote fd body)) (wrote fd debug_tail)

  pub debug_va-reported :
      (s : State)
      → Text head
      → length head < x_debug_buffer_size
      → length body < x_debug_buffer_size
      → x_debug_va pf sys file line fd fmt ap_list s ≡ ok tt (reported s)
  unfolding x_debug_va given x_sys_write
  debug_va-reported s no_nul fits fits' = rw (
    print_on-fits pf [] debug_head (text file ∷ word line ∷ []) fits,
    c_text-Text [] no_nul,
    print_on-fits pf [] fmt ap_list fits',
  )

module _ {pf : Printf} (con : Conforming pf) (sys : System) {s : State} {p : Ptr} {o : Obj}
    {w : Word} {us : List Word} (e : Points s p o) (unit : o.units ≡ w ∷ us)
    (atom : o.type ≡ sys.atom_type) (distinct : sys.atom_type ≢ sys.pair_type)
    (type_set : sys.atom_type ≢ null) where
  abbrev pub value_text : List ℕ
  value_text = ((b':' ∷ b'[' ∷ []) ++ pf.sprintf hex_format (word w ∷ [])) ++ b']' ∷ []

  valued : List ℕ
  valued = (b':' ∷ b'[' ∷ []) ++ pf.sprintf hex_format (word w ∷ [])

  length-valued : length valued ≤ 20
  unfolding valued
  length-valued = omega (
    arith,
    length-append (b':' ∷ b'[' ∷ []) (pf.sprintf hex_format (word w ∷ [])),
    con.hexadecimal w,
  )

  opens : print_on pf [] (b':' ∷ b'[' ∷ []) [] ≡ some (b':' ∷ b'[' ∷ [])
  opens =
      print_on-fits pf [] (b':' ∷ b'[' ∷ []) [] (omega (arith, ap length con.opening))
      ∙ ap some con.opening

  values : print_on pf (b':' ∷ b'[' ∷ []) hex_format (word w ∷ []) ≡ some valued
  unfolding valued
  values = print_on-fits pf (b':' ∷ b'[' ∷ []) hex_format (word w ∷ []) (
      omega (
        arith,
        length-append (b':' ∷ b'[' ∷ []) (pf.sprintf hex_format (word w ∷ [])),
        con.hexadecimal w,
      ))

  closes : print_on pf valued (b']' ∷ []) [] ≡ some (valued ++ b']' ∷ [])
  closes =
      print_on-fits pf valued (b']' ∷ []) [] (
        omega (
          arith,
          length-append valued (pf.sprintf (b']' ∷ []) []),
          ap length con.closing,
          length-valued,
        ))
      ∙ ap (λ l. some (valued ++ l)) con.closing

  pub data_text-atom : data_text pf sys p s ≡ ok value_text s
  unfolding data_text given x_obj_isnil valued
  data_text-atom =
      let typed = ==_of_ne sys.atom_type null type_set in
      let other = ==_of_ne sys.atom_type sys.pair_type distinct in
      rw (
        not_null e,
        x_obj_type-ok e,
        atom,
        typed,
        opens,
        isspair-ok e sys,
        atom,
        other,
        x_firstobj-ok e unit,
        values,
        closes,
      )
