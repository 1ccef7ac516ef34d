-- ===== src/Heap/Reach.antt =====
-- Whatever x_mkspair and x_mksatom allocate, in any order, the heap stays fit for a collection.
use x_expr.Prelude.{ℕ, ◌<◌, ◌≡◌, refl, ◌≢◌, List, [], ◌∷◌, length, sym, subst, ◌∙◌}
use x_expr.Memory.{Word, Ptr, null, State, ok, Cmd}
use x_expr.Memory.Points.{not_null}
use x_expr.Sys.{System}
use x_expr.Obj.{x_obj_flag_none}
use x_expr.Obj.Access.{x_firstobj-ok}
use x_expr.Obj.Alloc.{x_mksatom, x_mkspair}
use x_expr.Obj.Free.{untyped}
use x_expr.Obj.Make.{behind, make-made}
use x_expr.Base.{x_base, x_base_isset, x_base_field_heap_mark, x_base_field_heap_free}
use x_expr.Heap.{hook_fn}
use x_expr.Heap.Mark.{Valid}
use x_expr.Heap.MarkRun.{white_count}
use x_expr.Heap.Collected.{collect, Collected, collect-Collected}
use x_expr.Heap.Invariant.{Sound, Fresh}
use x_expr.Heap.Grown.{Sound-grown}

module _ (sys : System) (base : Ptr) where
  -- The states that allocations lead to from a state: with the objects of the chain, the newest first,
  -- and the addresses that objects are at. A pair is made of NULLs and addresses of objects.
  pub data Allocated (s : State) (xs dom : List Ptr) : State → List Ptr → List Ptr → Type 0 where
    start : Allocated s xs dom s xs dom
    pair :
        {t u : State} {ys env : List Ptr} {a b p : Ptr}
        → Allocated s xs dom t ys env
        → Valid sys t a
        → Valid sys t b
        → Fresh sys base t 2 p
        → x_mkspair sys base x_obj_flag_none a b t ≡ ok p u
        → Allocated s xs dom u (p ∷ ys) (p ∷ env)
    atom :
        {t u : State} {ys env : List Ptr} {p : Ptr} (x : Word)
        → Allocated s xs dom t ys env
        → Fresh sys base t 1 p
        → x_mksatom sys base x_obj_flag_none x t ≡ ok p u
        → Allocated s xs dom u (p ∷ ys) (p ∷ env)

same_state : {p : Ptr} {t u : State} → ok p t ≡ ok p u → t ≡ u
same_state h = cc

module _ (sys : System) (m : ℕ) (base : Ptr) (distinct : sys.atom_type ≢ sys.pair_type) where
  -- Take a base without a type and without a tree, a chain behind it of distinct objects other than
  -- the base, without the mask, the unretained ones disposable, with the units of every pair NULL
  -- or at objects, and a list of the addresses of all objects; the atom and the pair type differ.
  -- Any sequence of x_mkspair of NULLs and objects and of x_mksatom, each without flags and each
  -- got from malloc at a new address, keeps all of that, for the chain and the list with the new
  -- objects in front.
  pub Allocated-Sound :
      {s : State} {xs dom : List Ptr} {t : State} {ys env : List Ptr}
      → Sound sys m base s xs dom
      → Allocated sys base s xs dom t ys env
      → Sound sys m base t ys env
  unfolding x_mkspair x_mksatom
  Allocated-Sound so start = so
  Allocated-Sound so (pair {t} {u} {ys} {env} {a} {b} {p} al va vb fresh runs) =
      let now = Allocated-Sound so al in
      let units = a ∷ b ∷ [] in
      let made_so =
        make-made sys sys.pair_type x_obj_flag_none p units (untyped now.at now.bare)
          (behind now.at now.bare) fresh.got fresh.set fresh.other in
      subst (λ v. Sound sys m base v (p ∷ ys) (p ∷ env)) (same_state (sym made_so ∙ runs))
        (Sound-grown sys m base now sys.pair_type units p 2 fresh (λ _. (a, b, refl, va, vb)))
  Allocated-Sound so (atom {t} {u} {ys} {env} {p} x al fresh runs) =
      let now = Allocated-Sound so al in
      let units = x ∷ [] in
      let made_so =
        make-made sys sys.atom_type x_obj_flag_none p units (untyped now.at now.bare)
          (behind now.at now.bare) fresh.got fresh.set fresh.other in
      subst (λ v. Sound sys m base v (p ∷ ys) (p ∷ env)) (same_state (sym made_so ∙ runs))
        (Sound-grown sys m base now sys.atom_type units p 1 fresh (λ e. absurd (distinct e)))

-- A base without a tree has no hooks.
unset_hook :
    {s : State} {sys : System} {m : ℕ} {base : Ptr} {xs dom : List Ptr} (field : Cmd Ptr)
    → Sound sys m base s xs dom
    → hook_fn field base s ≡ ok null s
unfolding hook_fn x_base_isset x_base
unset_hook field so = rw (not_null so.at, x_firstobj-ok so.at so.unset)

-- From such a heap, after any sequence of such allocations, a collection with a mask that has some
-- bit, from a root that is an object or NULL, and with enough rounds (more than the unmarked
-- objects, and than the chain's length) ends and returns the base, and leaves of the chain exactly
-- the objects that were shared or that the root led to.
pub Allocated-Collected :
    (sys : System) (m : ℕ) (base : Ptr)
    → sys.atom_type ≢ sys.pair_type
    → m ≢ 0
    → (inside rounds : ℕ) {s t : State} {xs dom ys env : List Ptr} {root : Ptr}
    → Sound sys m base s xs dom
    → Allocated sys base s xs dom t ys env
    → Valid sys t root
    → white_count m t env < inside
    → length ys < rounds
    → (u : State) × (collect sys inside rounds base root m t ≡ ok base u)
      × Collected sys m t root base ys u
Allocated-Collected sys m base distinct some_bit inside rounds {t} {ys} {env} {root} so al valid
      enough enough' =
    let now = Allocated-Sound sys m base distinct so al in
    collect-Collected sys m some_bit inside rounds env now.at now.bare now.chain now.apart now.ready
      now.clean now.pairs valid now.covers (unset_hook (x_base_field_heap_mark base) now)
      (unset_hook (x_base_field_heap_free base) now) enough enough'
