-- ===== src/Base/Read/Outcome.antt =====
-- x_base_read of src/x-base.c on a set base: the atom that is filled, and the count on a short read.
use x_expr.Prelude.{
  ℕ, ◌+◌, ◌*◌, ◌%◌, ◌^◌, ◌≤◌, ◌≡◌, ◌≢◌, true, some, List, [], ◌∷◌, ◌++◌, arith, length, get_elem?,
  ◌==◌, if◌then◌else◌, inl, inr, Bool-cases, ap, ◌∙◌,
}
use x_expr.Memory.{Word, Ptr, null, Obj, State, Run, ok, put_obj, asked}
use x_expr.Memory.Points.{Points, load-ok, Points-put_other}
use x_expr.Memory.Bytes.{poke, poke-fits, peek, peek-poke, poke-after}
use x_expr.Sys.{System, x_sys_read}
use x_expr.Sys.ReadChar.{Answered, Answered-Bytes, Answered-length}
use x_expr.Obj.Access.{x_firstobj-ok, x_restobj-ok, set_data_i-ok, unit_zero}
use x_expr.Base.{x_base_isset, x_base_field_filein}
use x_expr.Base.Read.{put_units, fill_buffer, x_base_read}
use x_expr.Base.Write.Buffered.{Holds}

-- What a read of `size` bytes from the base's descriptor `fd` meets: its arguments, the base's field
-- of the input, and an atom with room for the bytes that is none of the cells of the arguments.
pub record Asking (s : State) (base args p_atom : Ptr) (o : Obj) (count : Ptr) (co : Obj)
    (size fd : Word) : Type 0 where
  pub rest : Ptr
  pub field : Ptr
  pub fd_atom : Ptr
  pub is_set : x_base_isset base s ≡ ok true s
  pub is_field : x_base_field_filein base s ≡ ok field s
  pub at_field : Holds s field (fd_atom ∷ null ∷ [])
  pub at_fd : Holds s fd_atom (fd ∷ [])
  pub at_args : Holds s args (p_atom ∷ rest ∷ [])
  pub at_rest : Holds s rest (count ∷ null ∷ [])
  pub at_count : Points s count co
  pub count_unit : co.units ≡ size ∷ []
  pub at_atom : Points s p_atom o
  pub off_args : args ≢ p_atom
  pub off_rest : rest ≢ p_atom
  pub off_count : count ≢ p_atom
  pub room : size ≤ 8 * length o.units

module _ (sys : System) {s : State} {base args p_atom : Ptr} {o : Obj} {count : Ptr} {co : Obj}
    {size fd : Word} (a : Asking s base args p_atom o count co size fd) where
  abbrev pub reply : Word × List ℕ
  reply = sys.read s (fd % 2 ^ 32) size

  abbrev pub asked_once : State
  asked_once = record s { calls = s.calls ++ asked (fd % 2 ^ 32) size ∷ [] }

  -- The atom with its new units.
  abbrev pub filled : List Word → State
  filled us = put_obj asked_once p_atom (some (record o { units = us }))

  same : {q : Ptr} {c : Obj} → Points s q c → Points asked_once q c
  same e = record { ne_null = e.ne_null; holds = e.holds }

  fill_buffer-ok :
      {us : List Word}
      → poke o.units 0 (reply.1) ≡ some us
      → fill_buffer p_atom (reply.1) asked_once ≡ ok tt (filled us)
  unfolding fill_buffer put_units
  fill_buffer-ok h = rw (load-ok (same a.at_atom), h)

  -- A cell of the arguments after the read.
  later : {q : Ptr} {c : Obj} (us : List Word) → Points s q c → q ≢ p_atom → Points (filled us) q c
  later us e off = Points-put_other p_atom (some (record o { units = us })) (same e) off

  -- How the call ends when the atom's units are `us`.
  abbrev pub ending : List Word → Run Ptr
  ending us =
      if reply.0 == size
      then ok p_atom (filled us)
      else ok null (put_obj (filled us) count (some (record co { units = reply.0 ∷ [] })))

  read-ending :
      {us : List Word}
      → poke o.units 0 (reply.1) ≡ some us
      → x_base_read sys base args s ≡ ending us
  unfolding x_base_read x_sys_read
  read-ending {us} h =
      rw
        (
          a.is_set,
          a.is_field,
          x_firstobj-ok a.at_field.at a.at_field.same,
          x_firstobj-ok a.at_fd.at a.at_fd.same,
          x_firstobj-ok a.at_args.at a.at_args.same,
          x_restobj-ok a.at_args.at a.at_args.same,
          x_firstobj-ok a.at_rest.at a.at_rest.same,
          x_firstobj-ok a.at_count a.count_unit,
          fill_buffer-ok h,
        )
        (elim (Bool-cases (reply.0 == size)) [
          | inl whole ↦ rw whole
          | inr part ↦ rw (
            part,
            x_restobj-ok (later us a.at_args.at a.off_args) a.at_args.same,
            x_firstobj-ok (later us a.at_rest.at a.off_rest) a.at_rest.same,
            set_data_i-ok (later us a.at_count a.off_count) 0 (reply.0) (unit_zero a.count_unit),
            a.count_unit,
          )
        ])

  -- With well-formed arguments, a set base with an input descriptor, an atom with room for the
  -- bytes that is none of the cells of the arguments, and `read` answering as read(2) does:
  -- x_base_read asks once for that many bytes from that descriptor, the atom's units have the bytes
  -- that came at their start and are otherwise as before, and it returns the atom if the answer is
  -- the size, and else NULL with the answer in the count atom. Nothing else changes.
  pub read-Asking :
      Answered size reply
      → (us : List Word) × (x_base_read sys base args s ≡ ending us)
        × ((i : ℕ) (b : ℕ) → get_elem? (reply.1) i ≡ some b → peek us i ≡ some b)
        × ((i : ℕ) → length (reply.1) ≤ i → peek us i ≡ peek o.units i)
  read-Asking answer =
      let len = Answered-length answer in
      let small = Answered-Bytes answer in
      let (us, h) = poke-fits o.units 0 (reply.1) (omega (arith, len, a.room)) in
      (
        us,
        read-ending h,
        λ i b e.
            let start : i ≡ 0 + i = omega arith in
            ap (λ j. peek us j) start ∙ peek-poke o.units 0 (reply.1) small h i e,
        λ i behind. poke-after o.units 0 (reply.1) small h i (omega (arith, behind)),
      )
