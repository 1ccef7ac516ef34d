-- ===== src/Heap/Collected.antt =====
-- A mark from a root followed by a sweep of the chain: what survives is what the root leads to and what
-- is shared.
use x_expr.Prelude.{
  ℕ, ◌<◌, ◌≡◌, refl, ◌≢◌, ◌⊎◌, ◌↔◌, inl, inr, Bool, true, false, Option, none, some, List, ◌∷◌,
  ◌||◌, ◌&&◌, arith, has, ap, sym, subst, ◌∙◌, if◌then◌else◌, Bool-cases, length,
}
use mathlib.Core.Option
use x_expr.Memory.{Ptr, null, Obj, State, ok, Cmd, ◌>>=◌}
use x_expr.Memory.Points.{Points}
use x_expr.Sys.{System}
use x_expr.Obj.{x_obj_heap}
use x_expr.Obj.Access.{x_obj_heap-ok}
use x_expr.Base.{x_base_field_heap_mark, x_base_field_heap_free}
use x_expr.Memory.Reads.{Extends-Same}
use x_expr.Base.Reads.{Reads-heap_free}
use x_expr.Heap.{hook_fn, x_heap_tree_mark, x_heap_sweep}
use x_expr.Heap.Marked.{with_mark, is_marked, Change}
use x_expr.Heap.Mark.{White, Valid, Pairs}
use x_expr.Heap.MarkRun.{white_count, Covers}
use x_expr.Heap.MarkTree.{Marked, tree_mark-Marked, Reads-hook_fn, SameBodies-Change}
use x_expr.Heap.Chain.{Chain}
use x_expr.Heap.Sweep.{Swept, after_sweep, unlink_if}
use x_expr.Heap.Sweep.Ready.{Ready}
use x_expr.Heap.Sweep.Rounds.{sweep-Swept}
use x_expr.Heap.Collect.{
  is_shared, AllClean, white_of_clean, Chain-Change, retained-Change, without-Change, Ready-Change,
}

abbrev pub is_some : Option Obj → Bool
is_some none = false
is_some (some _) = true

-- After a collection from `root`: an object of the chain `xs` is still there exactly when it was shared
-- or the root led to it, and each that is there is as it was, but for its link.
pub record Collected (sys : System) (m : ℕ) (s : State) (root base : Ptr) (xs : List Ptr)
    (u : State) : Type 0 where
  pub middle : State
  pub marked : Marked sys m s root middle
  pub swept : Swept m middle base xs u
  pub survives :
      (q : Ptr)
      → ((has q xs ≡ true) × (is_some (u.objs q) ≡ true)) ↔ (
          (has q xs ≡ true)
          × (is_some (s.objs q) ≡ true)
          × ((is_shared (s.objs q) ≡ true) ⊎ (root ≢ null) × White sys m s root q))
  pub intact :
      (q : Ptr)
      → (if has q xs then Option.map (unlink_if true) (u.objs q) else none)
        ≡ (if has q xs && is_some (u.objs q) then Option.map (unlink_if true) (s.objs q) else none)

is_some-map : (f : Obj → Obj) (c : Option Obj) → is_some (Option.map f c) ≡ is_some c
is_some-map f none = refl
is_some-map f (some o) = refl

-- A value under a test is there when the test holds and it is.
is_some-if :
    (b : Bool) (c : Option Obj)
    → (is_some (if b then c else none) ≡ true) ↔ ((b ≡ true) × (is_some c ≡ true))
is_some-if true c = (λ h. (refl, h), λ h. h.1)
is_some-if false c = (λ h. absurd (cc), λ h. absurd (cc))

pick :
    (f : Obj → Obj) (b : Bool) (c : Option Obj)
    → Option.map f (if b then c else none)
      ≡ (if is_some (if b then c else none) then Option.map f c else none)
pick f true none = refl
pick f true (some o) = refl
pick f false c = refl

or_true : (a b : Bool) → (a || b) ≡ true → b ≡ false → a ≡ true
or_true a b h e = ground arith

apart_values : {b : Bool} → b ≡ true → b ≡ false → ⊥
apart_values h e = cc

module _ (sys : System) (m : ℕ) (some_bit : m ≢ 0) {s t u : State} {root base : Ptr} {xs : List Ptr}
    (clean : AllClean m s xs) (mk : Marked sys m s root t) (sw : Swept m t base xs u) where
  abbrev stays : Ptr → Bool
  stays q = is_marked m t q || is_shared (s.objs q)

  -- What the sweep leaves at an address of the chain.
  left :
      (q : Ptr)
      → has q xs ≡ true
      → Option.map (unlink_if true) (u.objs q)
        ≡ Option.map (unlink_if true) (if stays q then s.objs q else none)
  left q on =
      let on' : has q (base ∷ xs) ≡ true = ground (arith, on) in
      let same = retained-Change m some_bit mk.change q (clean q on) in
      let back = without-Change m some_bit mk.change q (clean q on) in
      let swept : Option.map (unlink_if true) (u.objs q)
          ≡ Option.map (unlink_if true) (after_sweep m xs t q) =
        rw on' at (sw.objs q) in
      swept ∙ rw (on, same, back)

  still :
      (q : Ptr)
      → has q xs ≡ true
      → is_some (u.objs q) ≡ is_some (if stays q then s.objs q else none)
  still q on =
      sym (is_some-map (unlink_if true) (u.objs q))
      ∙ ap is_some (left q on)
      ∙ is_some-map (unlink_if true) (if stays q then s.objs q else none)

  there :
      (q : Ptr)
      → has q xs ≡ true
      → (is_some (u.objs q) ≡ true) ↔ ((stays q ≡ true) × (is_some (s.objs q) ≡ true))
  there q on = (
    λ h. (is_some-if (stays q) (s.objs q)).0 (sym (still q on) ∙ h),
    λ h. still q on ∙ (is_some-if (stays q) (s.objs q)).1 h,
  )

  kept_iff :
      (q : Ptr)
      → has q xs ≡ true
      → (stays q ≡ true) ↔ ((is_shared (s.objs q) ≡ true) ⊎ (root ≢ null) × White sys m s root q)
  kept_iff q on = (
    λ h. elim (Bool-cases (is_shared (s.objs q))) [
      | inl shared ↦ inl shared
      | inr unshared ↦
          elim ((mk.exact q).0 (or_true (is_marked m t q) (is_shared (s.objs q)) h unshared)) [
            | inl early ↦
                absurd (apart_values early (white_of_clean m some_bit (s.objs q) (clean q on)))
            | inr way ↦ inr way
          ]
    ],
    elim [
      | inl shared ↦ ground (arith, shared)
      | inr way ↦ let b : is_marked m t q ≡ true = (mk.exact q).1 (inr way) in rw b
    ],
  )

  collected : Collected sys m s root base xs u
  collected = record {
    middle = t;
    marked = mk;
    swept = sw;
    survives = λ q. (
      λ (on, here). let (stay, was) = (there q on).0 here in (on, was, (kept_iff q on).0 stay),
      λ (on, was, why). (on, (there q on).1 ((kept_iff q on).1 why, was)),
    );
    intact = λ q. elim (Bool-cases (has q xs)) [
      | inr off ↦ rw off
      | inl on ↦ rw (on, left q on, still q on) (pick (unlink_if true) (stays q) (s.objs q))
    ];
  }

-- The base's link and type do not change when marks are set.
base_after :
    {m : ℕ} {s t : State} {p : Ptr} {o : Obj}
    → Change m s t
    → Points s p o
    → (o' : Obj) × Points t p o' × (o'.type ≡ o.type) × (o'.heap ≡ o.heap)
base_after {m} {p} {o} c e = elim (c.objs p) [
  | inl same ↦ (o, record { ne_null = e.ne_null; holds = same ∙ e.holds }, refl, refl)
  | inr (_, new) ↦
      (with_mark m o, record { ne_null = e.ne_null; holds = new ∙ rw e.holds }, refl, refl)
]

-- A collection: mark from a root, and sweep the chain behind the base.
abbrev pub collect : System → (inside rounds : ℕ) → Ptr → Ptr → ℕ → Cmd Ptr
collect sys inside rounds base root m = do
  _ ← x_heap_tree_mark sys inside base root m
  head ← x_obj_heap base
  x_heap_sweep sys rounds base head m

module _ (sys : System) (m : ℕ) (some_bit : m ≢ 0) where
  -- A collection is x_heap_tree_mark from a root and then x_heap_sweep of the whole chain behind
  -- the base. Take an untyped base without mark and free hooks in force, a chain of objects none of
  -- which is the base, all of them without the mark flags and those that are not shared disposable,
  -- every pair with two units that lead to objects or NULL, a root that is an object or NULL, a
  -- mask with some bit, and enough rounds: more than the unmarked objects of a list that covers the
  -- memory for the mark, more than the chain's length for the sweep. Then the collection ends,
  -- returns the base, and an object of the chain is still there exactly when it was shared or the
  -- root led to it through unmarked pairs; each that is there has its old contents but for its
  -- link.
  pub collect-Collected :
      (inside rounds : ℕ) (dom : List Ptr) {s : State} {root base : Ptr} {bo : Obj} {xs : List Ptr}
      → Points s base bo
      → bo.type ≡ null
      → Chain s bo.heap xs
      → has base xs ≡ false
      → Ready m s xs
      → AllClean m s xs
      → Pairs sys s
      → Valid sys s root
      → Covers dom s
      → hook_fn (x_base_field_heap_mark base) base s ≡ ok null s
      → hook_fn (x_base_field_heap_free base) base s ≡ ok null s
      → white_count m s dom < inside
      → length xs < rounds
      → (u : State) × (collect sys inside rounds base root m s ≡ ok base u)
        × Collected sys m s root base xs u
  collect-Collected inside rounds dom {s} {root} {base} {bo} {xs} e ty c off ready clean pairs valid
        cover no_mark no_free enough enough' =
      let (r, t, run, mk) =
        tree_mark-Marked sys m base root inside dom enough cover pairs valid no_mark in
      let (bo', e', ty', link') = base_after mk.change e in
      let quiet =
        (Reads-hook_fn (x_base_field_heap_free base) base (Reads-heap_free base) s t
          (Extends-Same s t (SameBodies-Change m mk.change)) null s no_free).0 in
      let chain' : Chain t bo'.heap xs =
        subst (λ p. Chain t p xs) (sym link') (Chain-Change mk.change c) in
      let (u, run', sw) =
        sweep-Swept sys m rounds e' (ty' ∙ ty) chain' off
          (Ready-Change m some_bit mk.change clean ready) quiet enough' in
      (u, rw (run, x_obj_heap-ok e', run'), collected sys m some_bit clean mk sw)
