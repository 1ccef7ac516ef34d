-- ===== src/Tests/Scene.antt =====
-- A small heap: an untyped base at 1 whose chain is a pair at 10, its first at 20, garbage at 30 that
-- owns the buffer at 35, and a shared atom at 40.
use x_expr.Prelude.{ℕ, Option, none, some, List, [], ◌∷◌, ◌==◌, if◌then◌else◌}
use x_expr.Memory.{Word, Ptr, null, Obj, bytes, object, State, pure}
use x_expr.Sys.{System}

-- Objects and blocks by address.
abbrev pub at {ℓ} : {A : Type ℓ} → List (Ptr × A) → Ptr → Option A
at [] q = none
at ((p, a) ∷ rest) q = if q == p then some a else at rest q

abbrev pub obj : Ptr → Ptr → ℕ → List Word → Obj
obj heap type flags units = record {
  heap = heap;
  type = type;
  flags = flags;
  units = units;
  before = [];
}

-- The allocator gives out address 50; nothing is installed.
abbrev pub sys : System
sys = record {
  malloc = λ s n. 50;
  residue = λ s p i. 7;
  write = λ s fd text. 0;
  read = λ s fd size. (0, []);
  open_file = λ s path flags. 3;
  close_file = λ s fd. 0;
  clock = λ s. 0;
  clocks_per_sec = 1000000;
  atom_type = 102;
  pair_type = 101;
  units_atom = 103;
  units_pair = 104;
  length_atom = 105;
  length_pair = 106;
  true_obj = 107;
  false_obj = 108;
  nil_name = 120;
  atom_name = 121;
  pair_name = 122;
  true_text = 123;
  false_text = 124;
  frame = λ s. 1000;
  call_fn = λ fn base args. pure null;
  call_mark = λ fn base p flags. pure null;
  call_free = λ fn base p. pure tt;
  call_error = λ fn base message p. pure tt;
}

abbrev pub heap : State
heap = record {
  objs = at (
      (1, obj 10 0 0 (0 ∷ []))
      ∷ (10, obj 20 101 0 (20 ∷ 0 ∷ []))
      ∷ (20, obj 30 102 0 (5 ∷ []))
      ∷ (30, obj 40 102 0x20 (35 ∷ []))
      ∷ (40, obj 0 102 0x100 (6 ∷ []))
      ∷ []);
  blocks = at (
      (1, object 1)
      ∷ (10, object 10)
      ∷ (20, object 20)
      ∷ (30, object 30)
      ∷ (35, bytes)
      ∷ (40, object 40)
      ∷ []);
  buffers = at ((35, b'h' ∷ 0 ∷ []) ∷ []);
  calls = [];
}

abbrev pub chain : List Ptr
chain = 10 ∷ 20 ∷ 30 ∷ 40 ∷ []
