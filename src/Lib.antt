-- ===== src/Lib.antt =====
-- x-expr: a small library of objects (atoms and pairs), a base that holds the state of an
-- environment, and a mark-and-sweep collector.
--
-- The parts and how they meet. src/x-obj.c allocates, makes and frees objects, and dispatches on
-- their type; with a full base it keeps a count, enforces a limit and reports through the base's
-- error hook. src/x-heap.c links the objects of a base in a chain, marks them from roots and
-- sweeps the chain, freeing through src/x-obj.c. src/x-base.c builds the tree of fields that the
-- other two read with the macros of include/x-base.h. src/x.c reports errors, src/x-stdlib.c
-- stands in for the C library, and src/x-sys.c is the way to the system.
--
-- Which file models which part:
-- - Memory: memory as include/x-obj.h lays it out. An object is a record of its heap link, type,
--   flags and units; a state has the objects by address, the live blocks of malloc, the byte
--   buffers and the system calls made. A run is a function of the state that ends with a value, by
--   the longjmp of a hook, by exit, by undefined behaviour (a read through NULL or where no object
--   is, a free of a block that is not live), or out of rounds. Memory.Points and Memory.Reads have
--   what reads yield, Memory.Bytes has a word's bytes.
-- - Sys: src/x-sys.c, and the record System of what comes from outside: malloc, what the system
--   calls answer, the addresses that a linker or the stack gives, and the hooks that an embedder
--   installs. Sys.ReadChar is about x_sys_read_char.
-- - Obj: include/x-obj.h (x_obj_heap, x_obj_type, x_obj_flags, x_firstobj, x_restobj). Obj.Alloc
--   has x_obj_alloc, x_obj_make and x_obj_free of src/x-obj.c, with Obj.Make and Obj.Free about
--   them without a full base, Obj.Full, Obj.FullFree, Obj.Ceiling, Obj.Unmet and Obj.Stops with one, and
--   Obj.Account about sequences of them; Obj.Static has the static objects of src/x-obj.c;
--   Obj.TypeInfo has x_obj_type_name, x_obj_units and x_obj_length; Obj.Field has
--   x_obj_push_field, x_obj_pop_field, x_obj_push and x_obj_pop; Obj.Path has the bit-path
--   accessors, and Obj.Datum those by the member of the union.
-- - Base: the macros of include/x-base.h; Base.Make has x_base_make, with Base.Trees, Base.Build,
--   Base.Initial and Base.New about it, Base.Write x_base_write and Base.Read x_base_read, of
--   src/x-base.c.
-- - Error: x_error of src/x.c and x_obj_error of src/x-obj.c, with Error.Reported about them.
--   Debug: the debug output of a DEBUG build in both files, with what sprintf formats as a
--   parameter; Debug.Flags, Debug.Written and Debug.Dump are about it.
-- - Heap: src/x-heap.c and the root macros of include/x-heap.h. Heap.Mark, Heap.MarkRun and
--   Heap.MarkTree are about marking, Heap.Clear and Heap.Sweep about the walks along the chain,
--   Heap.Collected about a whole collection, Heap.Roots, Heap.RootStack, Heap.RootMark and
--   Heap.RootExact about the root chain, Heap.Bodies about what links and flags do not change,
--   Heap.Invariant, Heap.Grown and Heap.Reach about allocations and collections together,
--   Heap.Teardown about a sweep that starts at the base.
-- - Strings: src/x-stdlib.c; Strings.Laws and Strings.Dup are about it, and Strings.Within about a copy
--   inside one buffer.
-- - Number: src/x-lib.c. Number.Reverse, Number.Digits and Number.Print are about x_lib_inttostr,
--   Number.Scan and Number.Total about x_lib_strtoint, Number.RoundTrip about both.
-- - Lisp: include/x-lisp.h, and in Lisp.Walk its names against those of Obj.Path.
-- - Prelude and Bits: the shared names, and the laws of flag masks and of the exclusive or. Tests:
--   the theorems at concrete states.
--
-- The build that is modelled has X_HEAP, and has neither X_USE_STDLIB nor X_PROFILE; Debug has
-- what DEBUG adds to it. A word has 64 bits; the counter of allocated objects and the limit wrap
-- and compare as signed words. A number of metadata units with which the request for an object wraps
-- modulo 2^64 is undefined behaviour; without metadata units the data units are taken to be as few
-- as a call's arguments. A byte buffer is known by its start address, and different buffers do not
-- overlap; only x_base_write's text may also start inside another buffer, the write buffer.
--
-- Rounds. The walks of the collector may be of any length, so they run on a number of rounds, and
-- a walk that has none left ends as out_of_fuel. The theorems give the rounds that suffice: more
-- than the chain is long for the walks along it, more than there are unmarked objects for
-- x_heap_tree_mark.
--
-- Not modelled: the macros x_obj_meta_i and x_obj_is_type of include/x-obj.h, which no code of the
-- library uses; the machine and version names of include/x.h; the builds without X_HEAP, with
-- X_USE_STDLIB or with X_PROFILE; and the programs under examples and tests.
pub mod Prelude
pub mod Bits
pub mod Memory
pub mod Sys
pub mod Strings
pub mod Obj
pub mod Base
pub mod Error
pub mod Debug
pub mod Number
pub mod Lisp
pub mod Heap
mod Tests
