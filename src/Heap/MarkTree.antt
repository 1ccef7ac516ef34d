-- ===== src/Heap/MarkTree.antt =====
-- What x_heap_tree_mark does to a tree of pairs when the base has no mark hook.
use x_expr.Prelude.{
  ℕ, ◌<◌, ◌≡◌, ◌≢◌, ◌⊎◌, inl, inr, ◌↔◌, true, false, List, sym, ap, Bool-cases, Option-cases,
}
use mathlib.Core.Option
use x_expr.Memory.{Ptr, null, State, ok, Cmd}
use x_expr.Memory.Reads.{body, SameBodies, Extends-Same, Reads, Reads-pure, Reads-bind, Reads-if}
use x_expr.Sys.{System}
use x_expr.Obj.{x_firstobj, x_obj_isnil}
use x_expr.Base.{x_base_isset, x_base_field_heap_mark}
use x_expr.Base.Reads.{Reads-isset, Reads-firstobj, Reads-heap_mark}
use x_expr.Heap.{hook_fn, x_heap_tree_mark}
use x_expr.Heap.Marked.{is_marked, Change, Change-refl, is_marked-Change}
use x_expr.Heap.Mark.{Child, White, here, step, Valid, Pairs, Marks}
use x_expr.Heap.MarkRun.{white_count, Covers, NoHook, walk}

pub Reads-hook_fn : (field : Cmd Ptr) (base : Ptr) → Reads field → Reads (hook_fn field base)
unfolding hook_fn
Reads-hook_fn field base r = Reads-bind (x_base_isset base) _ (Reads-isset base) (λ set.
    Reads-if set
      (Reads-bind field _ r (λ f.
        Reads-bind (x_firstobj f) _ (Reads-firstobj f)
          (λ hook. Reads-if (x_obj_isnil hook) (Reads-pure null) (Reads-firstobj hook))))
      (Reads-pure null))

pub SameBodies-Change : (m : ℕ) {s t : State} → Change m s t → SameBodies s t
SameBodies-Change m {s} {t} c q = elim (c.objs q) [
  | inl same ↦ ap (Option.map body) (sym same)
  | inr (_, new) ↦ elim (Option-cases (s.objs q)) [
    | inl gone ↦ simp (new, gone)
    | inr (o, e) ↦ simp (new, e)
  ]
]

module _ (sys : System) (m : ℕ) where
  -- A marked start of a white way leads to a marked end.
  pub White-marked :
      {s : State} (t : State) {p q : Ptr}
      → ((x r : Ptr)
          → is_marked m s x ≡ false
          → is_marked m t x ≡ true
          → Child sys s x r
          → is_marked m t r ≡ true)
      → White sys m s p q
      → is_marked m t p ≡ true
      → is_marked m t q ≡ true
  White-marked t closed (here _) b = b
  White-marked t closed (step w child way) b = White-marked t closed way (closed _ _ w b child)

  -- The walk from `p` ends. It sets the mask on the objects that unmarked objects lead to from `p`,
  -- and changes nothing else.
  pub record Marked (s : State) (p : Ptr) (t : State) : Type 0 where
    pub change : Change m s t
    pub exact :
        (q : Ptr)
        → (is_marked m t q ≡ true) ↔ ((is_marked m s q ≡ true) ⊎ (p ≢ null) × White sys m s p q)

  exactly : {s t : State} {p : Ptr} → Marks sys m s p t → Marked s p t
  exactly {s} {t} ms = record {
    change = ms.change;
    exact = λ q. (
      λ b. elim (Bool-cases (is_marked m s q)) [
        | inl early ↦ inl early
        | inr late ↦ inr (ms.sound q late b)
      ],
      elim [
        | inl early ↦ is_marked-Change m q ms.change early
        | inr (h, way) ↦ White-marked t ms.closed way (ms.root h)
      ],
    );
  }

  -- The same run, in any state in which no hook is found.
  pub tree_mark-Marks :
      (base p : Ptr) (k : ℕ) (dom : List Ptr) {s : State}
      → white_count m s dom < k
      → Covers dom s
      → Pairs sys s
      → Valid sys s p
      → NoHook sys base m s
      → (r : Ptr) × (t : State) × (x_heap_tree_mark sys k base p m s ≡ ok r t) × Marks sys m s p t
  unfolding x_heap_tree_mark
  tree_mark-Marks base p k dom {s} enough cover pairs valid quiet =
      let (r, t, runs, ms) = walk sys base m dom k s p enough cover pairs quiet valid in
      (r, t, rw (quiet s (Change-refl m s)) runs, ms)

  -- A hook that is not there stays away while marks are set.
  pub NoHook-now :
      (base : Ptr) {s : State}
      → hook_fn (x_base_field_heap_mark base) base s ≡ ok null s
      → NoHook sys base m s
  NoHook-now base {s} none_set t c =
      (Reads-hook_fn (x_base_field_heap_mark base) base (Reads-heap_mark base) s t
        (Extends-Same s t (SameBodies-Change m c)) null s none_set).0

  -- Without a mark hook in force, with pairs whose two units lead to objects or NULL, a start that
  -- is an object or NULL, a list that covers the memory and more rounds than it has unmarked
  -- objects, x_heap_tree_mark ends, and an object is marked afterwards exactly when it was before
  -- or is reached from the start through unmarked pairs. Nothing but mark flags changes.
  pub tree_mark-Marked :
      (base p : Ptr) (k : ℕ) (dom : List Ptr) {s : State}
      → white_count m s dom < k
      → Covers dom s
      → Pairs sys s
      → Valid sys s p
      → hook_fn (x_base_field_heap_mark base) base s ≡ ok null s
      → (r : Ptr) × (t : State) × (x_heap_tree_mark sys k base p m s ≡ ok r t) × Marked s p t
  tree_mark-Marked base p k dom enough cover pairs valid none_set =
      let (r, t, runs, ms) =
        tree_mark-Marks base p k dom enough cover pairs valid (NoHook-now base none_set) in
      (r, t, runs, exactly ms)
