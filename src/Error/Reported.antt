-- ===== src/Error/Reported.antt =====
-- What x_error of src/x.c and x_obj_error of src/x-obj.c write.
use x_expr.Prelude.{
  ℕ, ◌≡◌, ◌≢◌, none, some, List, [], ◌∷◌, ◌++◌, take, take-length, ap, ◌∙◌, ==_of_ne, ==_of_eq,
}
use x_expr.Memory.{Word, Ptr, null, Obj, State, Cmd, pure, wrote, ok, fault}
use x_expr.Memory.Points.{Points, not_null}
use x_expr.Sys.{System, buffer_at, x_sys_write}
use x_expr.Obj.Access.{issatom-ok, x_firstobj-ok}
use x_expr.Strings.Laws.{Text, strlen-Text}
use x_expr.Error.{
  stderr_fileno, string_at, error_prefix, error_quote, x_error, error_hook, x_obj_error,
}

-- The C string at an address.
pub record Spelled (s : State) (p : Ptr) (t : List ℕ) : Type 0 where
  pub ne_null : p ≢ null
  pub post : List ℕ
  pub holds : s.buffers p ≡ some (t ++ 0 ∷ post)
  pub no_nul : Text t

string_at-Spelled : {s : State} {p : Ptr} {t : List ℕ} → Spelled s p t → string_at p s ≡ ok t s
unfolding string_at buffer_at
string_at-Spelled {s} {p} {t} h =
    rw (==_of_ne p null h.ne_null, h.holds)
      (ap
          (λ r.
            (elim r as (λ _. Cmd (List ℕ)) [
              | none ↦ (λ _. fault)
              | some n ↦ pure (take n (t ++ 0 ∷ h.post))
            ])
              s)
          (strlen-Text h.post h.no_nul)
        ∙ ap (λ l. ok l s) (take-length t (0 ∷ h.post)))

-- Texts written to a descriptor one after the other.
abbrev pub wrote_all : State → ℕ → List (List ℕ) → State
wrote_all s fd [] = s
wrote_all s fd (t ∷ ts) = wrote_all (record s { calls = s.calls ++ wrote fd t ∷ [] }) fd ts

-- The object of an error, and what is written of it: the text of an atom that has one.
pub data Subject (sys : System) (s : State) : Ptr → List (List ℕ) → Type 0 where
  no_object : Subject sys s null []
  no_atom : {p : Ptr} {o : Obj} → Points s p o → o.type ≢ sys.atom_type → Subject sys s p []
  no_text :
      {p : Ptr} {o : Obj} {us : List Word}
      → Points s p o
      → o.type ≡ sys.atom_type
      → o.units ≡ null ∷ us
      → Subject sys s p []
  a_text :
      {p : Ptr} {o : Obj} {q : Ptr} {us : List Word} {t : List ℕ}
      → Points s p o
      → o.type ≡ sys.atom_type
      → o.units ≡ q ∷ us
      → Spelled s q t
      → Subject sys s p (error_quote ∷ t ∷ [])

-- The string is still there after writes.
still :
    {s : State} (fd : ℕ) (ts : List (List ℕ)) {p : Ptr} {t : List ℕ}
    → Spelled s p t
    → Spelled (wrote_all s fd ts) p t
still fd [] h = h
still {s} fd (x ∷ ts) h =
    still {s = record s { calls = s.calls ++ wrote fd x ∷ [] }} fd ts
      (record { ne_null = h.ne_null; post = h.post; holds = h.holds; no_nul = h.no_nul })

module _ (sys : System) {s : State} {message : Ptr} {m : List ℕ} (said : Spelled s message m)
    (fd : ℕ) where
  pub error-plain : x_error sys fd message null s ≡ ok tt (wrote_all s fd (error_prefix ∷ m ∷ []))
  unfolding x_error x_sys_write
  error-plain = rw (string_at-Spelled (still fd (error_prefix ∷ []) said))

  error-quoted :
      {q : Ptr} {t : List ℕ}
      → Spelled s q t
      → x_error sys fd message q s
        ≡ ok tt (wrote_all s fd (error_prefix ∷ m ∷ error_quote ∷ t ∷ []))
  unfolding x_error x_sys_write
  error-quoted {q} h = rw (
    string_at-Spelled (still fd (error_prefix ∷ []) said),
    ==_of_ne q null h.ne_null,
    string_at-Spelled (still fd (error_prefix ∷ m ∷ error_quote ∷ []) h),
  )

-- Without an error hook in force and with a string for the message, x_obj_error writes to standard
-- error the prefix, the message, and for an object of the atom type whose value is a string also
-- the quote and that string; for no object, an object of another type or an atom without a text it
-- writes the first two only. It then ends, and does nothing else.
pub error-Subject :
    (sys : System) {s : State} (base : Ptr) {message p : Ptr} {m : List ℕ} {tail : List (List ℕ)}
    → error_hook sys base s ≡ ok none s
    → Spelled s message m
    → Subject sys s p tail
    → x_obj_error sys base message p s ≡ ok tt (wrote_all s stderr_fileno (error_prefix ∷ m ∷ tail))
unfolding x_obj_error
error-Subject sys base unhooked said no_object = rw unhooked (error-plain sys said stderr_fileno)
error-Subject sys base unhooked said (no_atom {p} {o} e other) =
    rw (unhooked, not_null e, issatom-ok e sys, ==_of_ne o.type sys.atom_type other)
      (error-plain sys said stderr_fileno)
error-Subject sys base unhooked said (no_text {p} {o} e atom unit) =
    rw
      (
        unhooked,
        not_null e,
        issatom-ok e sys,
        ==_of_eq o.type sys.atom_type atom,
        x_firstobj-ok e unit,
      )
      (error-plain sys said stderr_fileno)
error-Subject sys base unhooked said (a_text {p} {o} e atom unit h) =
    rw
      (
        unhooked,
        not_null e,
        issatom-ok e sys,
        ==_of_eq o.type sys.atom_type atom,
        x_firstobj-ok e unit,
      )
      (error-quoted sys said stderr_fileno h)
