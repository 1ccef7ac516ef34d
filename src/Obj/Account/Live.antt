-- ===== src/Obj/Account/Live.antt =====
-- Lists of live objects, and what a write to memory leaves of them.
use x_expr.Prelude.{
  suc, ◌+◌, ◌*◌, ◌≡◌, ◌≢◌, true, false, Option, none, some, List, [], ◌∷◌, ◌==◌, ltb, has, length,
  arith, refl, sym, subst, inl, inr, Bool-cases, eq_of_==,
}
use x_expr.Memory.{Word, Ptr, null, Obj, Block, object, State, put_obj}
use x_expr.Memory.Points.{Points, Points-put_other}
use x_expr.Sys.{put_block}
use x_expr.Obj.{x_obj_size, x_obj_flag_own, x_obj_flag_meta, has_flag}
use x_expr.Obj.Account.{without}

-- An object that x_obj_make made: in a block of its own behind the metadata units, and neither the
-- count's atom nor an object of the core.
pub record Held (core : State) (extra : Word) (a : Ptr) (s : State) (q : Ptr) : Type 0 where
  pub obj : Obj
  pub at : Points s q obj
  pub unowned : has_flag obj.flags x_obj_flag_own ≡ false
  pub flagged : has_flag obj.flags x_obj_flag_meta ≡ ltb 0 extra
  pub block : Ptr
  pub home : block + x_obj_size * extra ≡ q
  pub block_set : block ≢ null
  pub in_block : s.blocks block ≡ some (object q)
  pub off_core : core.objs q ≡ none
  pub off_count : q ≢ a

module _ {core : State} {extra : Word} {a : Ptr} {s : State} {q : Ptr}
    (h : Held core extra a s q) where
  -- A write to another object or another block.
  pub Held-put : (p : Ptr) (o : Option Obj) → q ≢ p → Held core extra a (put_obj s p o) q
  Held-put p o other = record {
    obj = h.obj;
    at = Points-put_other p o h.at other;
    unowned = h.unowned;
    flagged = h.flagged;
    block = h.block;
    home = h.home;
    block_set = h.block_set;
    in_block = h.in_block;
    off_core = h.off_core;
    off_count = h.off_count;
  }

  pub Held-put_block :
      (p : Ptr) (b : Option Block)
      → s.blocks p ≢ some (object q)
      → Held core extra a (put_block s p b) q
  Held-put_block p b other = record {
    obj = h.obj;
    at = record { ne_null = h.at.ne_null; holds = h.at.holds };
    unowned = h.unowned;
    flagged = h.flagged;
    block = h.block;
    home = h.home;
    block_set = h.block_set;
    in_block = elim (Bool-cases (h.block == p)) [
      | inl here ↦
          absurd
            (other (subst (λ b. s.blocks b ≡ some (object q)) (eq_of_== h.block p here) h.in_block))
      | inr away ↦ rw away h.in_block
    ];
    off_core = h.off_core;
    off_count = h.off_count;
  }

-- Distinct objects that are held.
pub data Live (core : State) (extra : Word) (a : Ptr) (s : State) : List Ptr → Type 0 where
  nobody : Live core extra a s []
  one :
      {q : Ptr} {xs : List Ptr}
      → Held core extra a s q
      → has q xs ≡ false
      → Live core extra a s xs
      → Live core extra a s (q ∷ xs)

pub has-without : (q r : Ptr) (xs : List Ptr) → has r (without q xs) ≡ true → has r xs ≡ true
has-without q r [] h = h
has-without q r (x ∷ xs) h = elim (Bool-cases (q == x)) [
  | inl here ↦ ground (arith, here, h)
  | inr other ↦ let later = has-without q r xs in ground (arith, other, h, later)
]

absent : (q x : Ptr) (xs : List Ptr) → has x xs ≡ false → has x (without q xs) ≡ false
absent q x xs out = elim (Bool-cases (has x (without q xs))) [
  | inl there ↦ absurd (ground (arith, has-without q x xs there, out))
  | inr gone ↦ gone
]

pub length-without :
    (q : Ptr) (xs : List Ptr) → has q xs ≡ true → length xs ≡ suc (length (without q xs))
length-without q [] h = absurd (cc)
length-without q (x ∷ xs) h = elim (Bool-cases (q == x)) [
  | inl here ↦ ground (arith, here)
  | inr other ↦ let later = length-without q xs in ground (arith, other, h, later)
]

module _ {core : State} {extra : Word} {a : Ptr} {s : State} where
  pub member :
      {q : Ptr} {xs : List Ptr} → Live core extra a s xs → has q xs ≡ true → Held core extra a s q
  member {q} nobody h = absurd (cc)
  member {q} (one {q = x} {xs} held out live) h = elim (Bool-cases (q == x)) [
    | inl here ↦ subst (Held core extra a s) (sym (eq_of_== q x here)) held
    | inr other ↦ member live (ground (arith, other, h))
  ]

  -- The list without an object does not have it.
  pub not_in-without :
      (q : Ptr) {xs : List Ptr} → Live core extra a s xs → has q (without q xs) ≡ false
  not_in-without q nobody = refl
  not_in-without q (one {q = x} {xs} held out live) = elim (Bool-cases (q == x)) [
    | inl here ↦ ground (arith, here, out)
    | inr other ↦ let later = not_in-without q live in ground (arith, other, later)
  ]

  pub Live-frame :
      {t : State} {xs : List Ptr}
      → Live core extra a s xs
      → ((q : Ptr) → has q xs ≡ true → Held core extra a s q → Held core extra a t q)
      → Live core extra a t xs
  Live-frame nobody keep = nobody
  Live-frame (one {q} {xs} held out live) keep =
      one (keep q (ground arith) held) out (Live-frame live (λ r h. keep r (ground arith)))

  pub Live-without :
      (q : Ptr) {xs : List Ptr} → Live core extra a s xs → Live core extra a s (without q xs)
  Live-without q nobody = nobody
  Live-without q (one {q = x} {xs} held out live) = elim (Bool-cases (q == x)) [
    | inl here ↦ rw here live
    | inr other ↦ rw other (one held (absent q x xs out) (Live-without q live))
  ]
