-- ===== src/Memory.antt =====
-- The memory that include/x-obj.h lays objects out in, and runs over it. An object is a header (heap
-- link, type and flags: the build has X_HEAP) and its data units. A unit is a machine word, read
-- through whichever member of `union x_datum_union` the code names; a pointer is such a word, 0 for
-- NULL. Memory is read object by object, so pointer arithmetic appears only where x-obj.c does it: at
-- the units that stand before a header.
pub mod Points
pub mod Reads
pub mod Bytes
use x_expr.Prelude.{
  ℕ, ◌+◌, ◌-◌, ◌%◌, ◌^◌, Bool, Option, none, some, List, [], ◌∷◌, ◌++◌, ◌==◌, ltb, leb,
  if◌then◌else◌, get_elem?, set,
}

abbrev pub Word : Type 0
Word = ℕ

abbrev pub Ptr : Type 0
Ptr = ℕ

abbrev pub null : Ptr
null = 0

-- The order of two words read as signed integers (x_int_t).
abbrev pub signed : Word → ℕ
signed w = (w + 2 ^ 63) % 2 ^ 64

abbrev pub slt : Word → Word → Bool
slt a b = ltb (signed a) (signed b)

abbrev pub sle : Word → Word → Bool
sle a b = leb (signed a) (signed b)

-- `w++` and `w--` at the width of a word, and -1.
abbrev pub word_inc : Word → Word
word_inc w = (w + 1) % 2 ^ 64

abbrev pub word_dec : Word → Word
word_dec w = (w + (2 ^ 64 - 1)) % 2 ^ 64

abbrev pub minus_one : Word
minus_one = 2 ^ 64 - 1

-- `before` holds the extra metadata units that stand in front of the header, in memory order.
pub record Obj : Type 0 where
  pub heap : Ptr
  pub type : Ptr
  pub flags : ℕ
  pub units : List Word
  pub before : List Word

-- What a block from `malloc` is used for: plain bytes, or the object at an address in it.
pub data Block : Type 0 where
  bytes : Block
  object : Ptr → Block

-- A system call by its file descriptor, and the text or the path that it was given.
pub data Call : Type 0 where
  wrote : ℕ → List ℕ → Call
  asked : ℕ → Word → Call
  opened : List ℕ → Word → Call
  closed : ℕ → Call
  timed : Call

-- `objs` has every object: in a block, in static storage or on the stack. `blocks` has what `malloc`
-- handed out and `free` has not taken back. `buffers` has byte arrays by their start, C strings among
-- them. `calls` lists the system calls so far, the oldest first: what they answer may depend on it.
pub record State : Type 0 where
  pub objs : Ptr → Option Obj
  pub blocks : Ptr → Option Block
  pub buffers : Ptr → Option (List ℕ)
  pub calls : List Call

-- How a run ends: with a value, by a hook's longjmp, by `exit`, or by undefined behaviour. The last
-- is for the rounds of a loop that this model bounds.
pub data Run (A : Type 0) : Type 0 where
  ok : A → State → Run A
  jumped : State → Run A
  exited : ℕ → State → Run A
  fault : Run A
  out_of_fuel : Run A

abbrev pub Cmd : Type 0 → Type 0
Cmd A = State → Run A

abbrev pub pure : {A : Type 0} → A → Cmd A
pure = ok

module _ {A B : Type 0} where
  abbrev pub and_then : Run A → (A → Cmd B) → Run B
  and_then (ok a s) k = k a s
  and_then (jumped s) k = jumped s
  and_then (exited n s) k = exited n s
  and_then fault k = fault
  and_then out_of_fuel k = out_of_fuel

  infixl 5 ◌>>=◌ ◌>>◌
  abbrev pub ◌>>=◌ : Cmd A → (A → Cmd B) → Cmd B
  m >>= k = λ s. and_then (m s) k

  abbrev pub ◌>>◌ : Cmd A → Cmd B → Cmd B
  m >> n = m >>= λ _. n

abbrev pub put_obj : State → Ptr → Option Obj → State
put_obj s p o = record s { objs = λ q. if q == p then o else s.objs q }

-- `*p`, a fault at NULL and where no object is.
unfoldable pub load : Ptr → Cmd Obj
load p s = if p == null then fault else elim (s.objs p) [ none ↦ fault | some o ↦ ok o s ]

abbrev pub store : Ptr → Obj → Cmd (Unit {0})
store p o s = ok tt (put_obj s p (some o))

unfoldable pub unit_at : List Word → ℕ → Cmd Word
unit_at us i s = elim (get_elem? us i) [ none ↦ fault | some w ↦ ok w s ]
