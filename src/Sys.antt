-- ===== src/Sys.antt =====
-- src/x-sys.c, and what the program takes from outside: the C library's allocator, the addresses of
-- the static type objects, and the functions that an embedder installs as hooks.
pub mod ReadChar
use x_expr.Prelude.{
  ℕ, Option, none, some, List, [], ◌∷◌, ◌++◌, ◌==◌, ◌+◌, ◌-◌, ◌*◌, ◌/◌, ◌%◌, ◌^◌, ltb, leb,
  if◌then◌else◌,
}
use x_expr.Memory.{
  Word, Ptr, null, Block, bytes, object, State, Call, wrote, asked, opened, closed, timed, ok,
  exited, fault, Cmd, pure, ◌>>=◌, sle, slt, put_obj,
}

-- `malloc` names the address that a request of so many bytes gets, NULL for a failure, and `residue`
-- the words that the block at an address holds, by unit, before it is written. `write`, `read`,
-- `open` and `close` are what the system calls answer, an int or ssize_t with -1 as all ones, and
-- `read` also the bytes that it puts into the buffer. `clock` counts in parts of a second, of which
-- there are `clocks_per_sec`. The static objects of x-obj.c (the types, the units and lengths, the two
-- booleans) and the literals in them and X_TYPE_NIL_NAME have addresses that the linker chooses, and `frame` is where a call's local object
-- stands. The hooks are called by their code pointer.
pub record System : Type 0 where
  pub malloc : State → ℕ → Ptr
  pub residue : State → Ptr → ℕ → Word
  pub write : State → ℕ → List ℕ → Word
  pub read : State → ℕ → Word → Word × List ℕ
  pub open_file : State → List ℕ → Word → Word
  pub close_file : State → ℕ → Word
  pub clock : State → Word
  pub clocks_per_sec : Word
  pub atom_type : Ptr
  pub pair_type : Ptr
  pub units_atom : Ptr
  pub units_pair : Ptr
  pub length_atom : Ptr
  pub length_pair : Ptr
  pub true_obj : Ptr
  pub false_obj : Ptr
  pub nil_name : Ptr
  pub atom_name : Ptr
  pub pair_name : Ptr
  pub true_text : Ptr
  pub false_text : Ptr
  pub frame : State → Ptr
  pub call_fn : (fn base args : Ptr) → Cmd Ptr
  pub call_mark : (fn base obj : Ptr) → ℕ → Cmd Ptr
  pub call_free : (fn base obj : Ptr) → Cmd (Unit {0})
  pub call_error : (fn base message obj : Ptr) → Cmd (Unit {0})

abbrev pub put_block : State → Ptr → Option Block → State
put_block s b c = record s { blocks = λ q. if q == b then c else s.blocks q }

abbrev pub put_buffer : State → Ptr → List ℕ → State
put_buffer s p b = record s { buffers = λ q. if q == p then some b else s.buffers q }

-- The bytes that a pointer leads to.
unfoldable pub buffer_at : Ptr → Cmd (List ℕ)
buffer_at p s = if p == null then fault else elim (s.buffers p) [ none ↦ fault | some b ↦ ok b s ]

unfoldable pub x_sys_exit : {A : Type 0} → ℕ → Cmd A
x_sys_exit status s = exited status s

-- A successful request makes a live block.
unfoldable pub x_sys_malloc : System → ℕ → Cmd Ptr
x_sys_malloc sys size s =
    let p = sys.malloc s size in if p == null then ok null s else ok p (put_block s p (some bytes))

-- The block's bytes are gone, and so is the object that it held. `free(NULL)` does nothing; any
-- other address that is not a live block is a fault.
unfoldable pub x_sys_free : Ptr → Cmd (Unit {0})
x_sys_free p s = if p == null then ok tt s else elim (s.blocks p) [
  | none ↦ fault
  | some bytes ↦ ok tt (put_block s p none)
  | some (object q) ↦ ok tt (put_obj (put_block s p none) q none)
]

-- The write is on record, and its outcome is the system's: a count, or -1.
unfoldable pub x_sys_write : System → ℕ → List ℕ → Cmd Word
x_sys_write sys fd text s =
    ok (sys.write s fd text) (record s { calls = s.calls ++ wrote fd text ∷ [] })

-- The answer, and the bytes that `read` put at the start of the caller's buffer.
unfoldable pub x_sys_read : System → ℕ → (size : Word) → Cmd (Word × List ℕ)
x_sys_read sys fd size s =
    ok (sys.read s fd size) (record s { calls = s.calls ++ asked fd size ∷ [] })

unfoldable pub x_sys_open : System → (path : List ℕ) → (flags : Word) → Cmd Word
x_sys_open sys path flags s =
    ok (sys.open_file s path flags) (record s { calls = s.calls ++ opened path flags ∷ [] })

unfoldable pub x_sys_close : System → ℕ → Cmd Word
x_sys_close sys fd s = ok (sys.close_file s fd) (record s { calls = s.calls ++ closed fd ∷ [] })

-- The int EOF, and an x_char_t, which is a signed char of 8 bits, made an int of 32.
abbrev pub x_sys_eof : ℕ
x_sys_eof = 2 ^ 32 - 1

unfoldable pub char_to_int : ℕ → ℕ
char_to_int c = if ltb c (2 ^ 7) then c else 2 ^ 32 - 2 ^ 8 + c

-- What x_sys_read_char makes of a read of one byte. A read that fills nothing and claims to have is
-- an uninitialised variable.
unfoldable pub one_char : Word × List ℕ → Cmd ℕ
unfolding char_to_int
one_char (result, []) = if sle result 0 then pure x_sys_eof else (λ _. fault)
one_char (result, b ∷ _) = if sle result 0 then pure x_sys_eof else pure (char_to_int (b % 2 ^ 8))

unfoldable pub x_sys_read_char : System → ℕ → Cmd ℕ
unfolding x_sys_read one_char
x_sys_read_char sys fd = do got ← x_sys_read sys fd 1; one_char got

-- clock() * 1000000 / CLOCKS_PER_SEC on signed words. The division rounds towards zero, and a product
-- past the word is undefined.
unfoldable pub microseconds : (per_sec clock : Word) → Option Word
microseconds per_sec clock =
    if slt clock 0
    then (let size = (2 ^ 64 - clock) * 1000000 in
        if leb size (2 ^ 63) then some ((2 ^ 64 - size / per_sec) % 2 ^ 64) else none)
    else if ltb (clock * 1000000) (2 ^ 63)
    then some (clock * 1000000 / per_sec)
    else none

unfoldable pub x_sys_clock : System → Cmd Word
unfolding microseconds
x_sys_clock sys s = elim (microseconds sys.clocks_per_sec (sys.clock s)) [
  | none ↦ fault
  | some t ↦ ok t (record s { calls = s.calls ++ timed ∷ [] })
]
