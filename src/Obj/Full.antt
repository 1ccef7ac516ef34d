-- ===== src/Obj/Full.antt =====
-- x_obj_make of src/x-obj.c with a full base: the count, the metadata units and the link.
use x_expr.Prelude.{
  ℕ, ◌+◌, ◌*◌, ◌%◌, ◌^◌, ◌<◌, ◌≡◌, refl, ◌≢◌, inl, inr, true, false, Option, some, List, [], ◌∷◌,
  bit_or, ◌==◌, ltb, if◌then◌else◌, length, replicate, arith, fun_ext, sym, ap, ◌∙◌, Bool-cases,
  ==_of_ne,
}
use mathlib.Core.Option
use x_expr.Memory.{
  Word, Ptr, null, Obj, bytes, object, State, ok, fault, Cmd, pure, ◌>>=◌, and_then, put_obj, slt,
  sle, word_inc,
}
use x_expr.Memory.Points.{Points, Points-put, Points-put_other, not_null}
use x_expr.Memory.Reads.{body, Reads, Reads-bind}
use x_expr.Sys.{System, put_block, x_sys_malloc}
use x_expr.Obj.{x_obj_size, x_obj_meta_len, x_obj_flag_meta, x_firstobj}
use x_expr.Obj.Access.{x_obj_heap-ok, set_heap-ok, x_firstobj-ok, set_data_i-ok, unit_zero}
use x_expr.Obj.Make.{fill-ok, length-fresh_units}
use x_expr.Obj.Alloc.{
  Config, config, field_atom, field_int, update_count, fresh_units, fits, place, at_ceiling,
  allocate, x_obj_alloc, fill, x_obj_make,
}
use x_expr.Base.{x_base_field_alloc_count}
use x_expr.Base.Reads.{Reads-firstobj, Reads-alloc_count}

-- A full base, as x_obj_alloc reads it: its configuration, and the atom of the count.
pub record Full (s : State) (base : Ptr) (c : Config) (n : Word) (a : Ptr) (ao bo : Obj)
    : Type 0 where
  pub rest : List Word
  pub configured : config base s ≡ ok c s
  pub is_full : c.full ≡ true
  pub counter : field_atom (x_base_field_alloc_count base) s ≡ ok a s
  pub at_count : Points s a ao
  pub count_unit : ao.units ≡ n ∷ rest
  pub at_base : Points s base bo
  pub apart : base ≢ a

-- No limit, or one that is above the count.
abbrev pub Room : Word → Word → Type 0
Room limit n = (slt limit 0 ≡ false) × (slt 0 limit ≡ true → sle limit n ≡ false)

-- A request that does not wrap.
fits_of_lt :
    (extra : Word) (units : ℕ)
    → x_obj_size * (extra + x_obj_meta_len + units) < 2 ^ 64
    → fits extra units ≡ true
unfolding fits
fits_of_lt extra units h = ground (arith, h)

-- A write behind another one elsewhere.
put-between :
    (s : State) {p q : Ptr} (x y z : Option Obj)
    → p ≢ q
    → put_obj (put_obj (put_obj s p x) q y) p z ≡ put_obj (put_obj s p z) q y
put-between s x y z apart = ap (λ f. record s { objs = f }) (fun_ext λ r. ground (arith, apart))

Reads-count_atom : (base : Ptr) → Reads (field_atom (x_base_field_alloc_count base))
unfolding field_atom
Reads-count_atom base =
    Reads-bind (x_base_field_alloc_count base) x_firstobj (Reads-alloc_count base) Reads-firstobj

module _ (sys : System) {s : State} {base : Ptr} {c : Config} {n : Word} {a : Ptr} {ao bo : Obj}
    (full : Full s base c n a ao bo) where
  pub below_ceiling : Room c.limit n → at_ceiling sys base c.limit s ≡ ok false s
  unfolding at_ceiling field_int
  below_ceiling room = elim (Bool-cases (slt 0 c.limit)) [
    | inr off ↦ rw off
    | inl armed ↦
        rw (armed, full.counter, x_firstobj-ok full.at_count full.count_unit, room.1 armed)
  ]

  -- The count is written as f of it.
  abbrev pub counted : (Word → Word) → State → State
  counted f t = put_obj t a (some (record ao { units = f n ∷ full.rest }))

  pub update-ok :
      (f : Word → Word) (t : State) → t.objs ≡ s.objs → update_count f base t ≡ ok tt (counted f t)
  unfolding update_count
  update-ok f t same =
      let at : Points t a ao = record {
        ne_null = full.at_count.ne_null;
        holds = ap (λ o. o a) same ∙ full.at_count.holds;
      } in
      let there =
        (Reads-count_atom base s t (λ q. inr (ap (λ o. Option.map body (o q)) (sym same))) a s
          full.counter).0 in
      rw (
        there,
        x_firstobj-ok at full.count_unit,
        set_data_i-ok at 0 (f n) (unit_zero full.count_unit),
        full.count_unit,
      )

  module _ (type : Ptr) (flags : ℕ) (p : Ptr) (args : List Word) where
    abbrev pub home : Ptr
    home = p + x_obj_size * c.extra

    -- The object that is asked for: with a mark that metadata units stand in front, if they do.
    abbrev pub extended : List Word → Obj
    extended units = record {
      heap = bo.heap;
      type = type;
      flags = if ltb 0 c.extra then bit_or flags x_obj_flag_meta else flags;
      units = units;
      before = replicate c.extra 0;
    }

    -- One more is counted, the object stands in a new block behind its metadata units, and the base
    -- links to it.
    abbrev pub enlarged : List Word → State
    enlarged units =
        put_obj
          (put_obj
            (put_block (counted word_inc (put_block s p (some bytes))) p (some (object home))) home
            (some (extended units)))
          base (some (record bo { heap = home }))

    module _ (room : Room c.limit n)
        (got : sys.malloc s (x_obj_size * (c.extra + x_obj_meta_len + length args) % 2 ^ 64) ≡ p)
        (set : p ≢ null) where
      abbrev got_block : State
      got_block = put_block s p (some bytes)

      malloc-block :
          x_sys_malloc sys (x_obj_size * (c.extra + x_obj_meta_len + length args) % 2 ^ 64) s
          ≡ ok p got_block
      unfolding x_sys_malloc
      malloc-block = rw (got, ==_of_ne p null set)

      base_there : Points (counted word_inc got_block) base bo
      base_there =
          Points-put_other a (some (record ao { units = word_inc n ∷ full.rest }))
            (record { ne_null = full.at_base.ne_null; holds = full.at_base.holds }) full.apart

      pub alloc-small :
          fits c.extra (length args) ≡ false
          → x_obj_alloc sys base type flags (length args) s ≡ fault
      unfolding x_obj_alloc allocate place
      alloc-small small = rw (
        full.configured,
        room.0,
        below_ceiling room,
        malloc-block,
        ==_of_ne p null set,
        full.is_full,
        update-ok word_inc got_block refl,
        not_null full.at_base,
        x_obj_heap-ok base_there,
        small,
      )

      abbrev blank : List Word
      blank =
          fresh_units (sys.residue (counted word_inc got_block) p) (c.extra + x_obj_meta_len)
            (length args)

      module _ (enough : fits c.extra (length args) ≡ true) (home_set : home ≢ null)
          (off_base : home ≢ base) where
        alloc-Full : x_obj_alloc sys base type flags (length args) s ≡ ok home (enlarged blank)
        unfolding x_obj_alloc allocate place
        alloc-Full = rw (
          full.configured,
          room.0,
          below_ceiling room,
          malloc-block,
          ==_of_ne p null set,
          full.is_full,
          update-ok word_inc got_block refl,
          not_null full.at_base,
          x_obj_heap-ok base_there,
          enough,
          set_heap-ok base_last home,
        )
          where
            base_last :
                Points
                  (put_obj
                    (put_block (counted word_inc got_block) p (some (object home)))
                    home
                    (some (extended blank)))
                  base
                  bo
            base_last =
                Points-put_other home (some (extended blank))
                  (record { ne_null = full.at_base.ne_null; holds = base_there.holds })
                  (λ e. off_base (sym e))

        pub make-fits : x_obj_make sys base type flags args s ≡ ok home (enlarged args)
        unfolding x_obj_make
        make-fits =
            ap (λ r. and_then r filling) alloc-Full
            ∙ rw (==_of_ne home null home_set, filled)
                (ap (ok home) (
                  put-between _ (some (extended blank)) (some (record bo { heap = home }))
                    (some (extended args)) off_base))
          where
            filling : Ptr → Cmd Ptr
            filling q = if q == null then pure null else (fill sys q 0 args >>= λ _. pure q)

            there : Points (enlarged blank) home (extended blank)
            there =
                Points-put_other base (some (record bo { heap = home }))
                  (Points-put _ home (extended blank) home_set) off_base

            filled :
                fill sys home 0 args (enlarged blank)
                ≡ ok tt (put_obj (enlarged blank) home (some (extended args)))
            filled = fill-ok sys home 0 args [] blank there refl refl (
                length-fresh_units (sys.residue (counted word_inc got_block) p)
                  (c.extra + x_obj_meta_len) (length args))

      -- With a full base whose configuration, count atom and heap link can be read, the count in an
      -- atom other than the base, and no limit or one above the count: when the bytes of the
      -- metadata units, the header and the units together are below 2^64, malloc answers the
      -- request for them with an address other than NULL, and the address behind the metadata units
      -- is not NULL, the base or the count atom, x_obj_make returns the latter. The count is then
      -- one more, modulo the word, an object with the given type and units stands there in that
      -- block, with its metadata units zeroed in front and X_OBJ_FLAG_META added if there are some,
      -- its link is the base's old one, the base links to it, and nothing else changes.
      pub make-Full :
          x_obj_size * (c.extra + x_obj_meta_len + length args) < 2 ^ 64
          → home ≢ null
          → home ≢ base
          → home ≢ a
          → x_obj_make sys base type flags args s ≡ ok home (enlarged args)
      make-Full no_wrap home_set off_base off_count =
          make-fits (fits_of_lt c.extra (length args) no_wrap) home_set off_base
