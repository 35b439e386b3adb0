-- ===== src/Lib.antt =====
-- The C runtimes of the miniML compilers in this repository, modelled and verified. Each compiler
-- emits RISC-V or LLVM code that is linked with a small runtime: a copying garbage collector over
-- two spaces, closures with partial application, and printing. The compilers themselves are OCaml
-- programs and are not modelled.
--
-- Parts, and the files that model them:
--   * Base (with Tests, Lists, Int, Words): shared names. An `Outcome` is how a C function ends;
--     `add_word` and `sub_word` are 64-bit arithmetic; `tagged` is the word 2 * n + 1 by which
--     compiled code passes an integer.
--   * Memory, Memory.Copy, Memory.Merge: the heap's words by byte address, and the loops and library
--     calls that copy, clear, read and replace words.
--   * Forwarding: where a copying collector has put the objects, shared by Pudge and Xml.
--   * Pudge: PudgeWithMoML/lib/runtime/runtime.c. Pudge holds `GC_state` and `init_GC`;
--     Pudge.Collect `update_stack_data_ptrs` and `_gc_collect`; Pudge.Malloc `my_malloc`;
--     Pudge.Closure the closures from `_alloc_closure` to `apply_closure_chain`; Pudge.Print
--     `print_int`; Pudge.Status the reports. Pudge.Heap says what a heap is. The children of Collect
--     follow the collector: Copied and Invariant (one copy), Advance and Stage (one step), Roots,
--     First and Second (the two passes), Correct (the whole), Graph and Preserve (what it promises),
--     Twice (two collections).
--     Malloc.Room and Malloc.Grow do that for allocation, Closure.Alloc for new closures. For partial
--     applications, Closure.Values says which words may be stored, Closure.Moved and Closure.Locals
--     how a collection leaves the heap and the stack, Closure.Merge what is stored, and Closure.Extend
--     and Closure.Apply put this together; Closure.Kept is about closures in a collection,
--     Closure.Chain about too many arguments. Malloc.Live is about garbage that a collection has to
--     give back. Status.Layout is about the report of a heap. Run says what a program does with the
--     runtime, step by step, and Run.Safety what holds of every state.
--   * AkaMl: akaML/lib/runtime/runtime.c, built with ENABLE_GC. AkaMl holds `gc_data` and `init_gc`
--     with the banks; AkaMl.Header the object headers; AkaMl.Collect `mark_and_copy`, `collect` and
--     what they call; AkaMl.Alloc `gc_alloc`; AkaMl.Closure `alloc_closure`, `copy_closure` and
--     `applyN`; AkaMl.Print `print_int`; AkaMl.Status the reports. Collect.Ends and Alloc.Ends
--     are about arbitrary banks, Collect.Trace, Closure.Copy and Closure.Push about single functions,
--     Closure.Apply about `applyN`.
--   * Xml: XML/bin/runtime.c. Xml holds the spaces and `rt_init`; Xml.Value the tagged integers;
--     Xml.Collect `forward_obj` and `gc_collect`; Xml.Alloc `gc_alloc_bytes` and the constructors of
--     blocks and closures; Xml.Apply `apply1`. Xml.Heap says what a heap is. Collect.Forward is about
--     one forwarded object; Invariant (one copy), Advance (one word), Step (one forwarded pointer),
--     Words, Objects and Roots (the loops), Graph and Preserve (what a collection promises) follow
--     the collector. Alloc.Room, Alloc.Grow and Alloc.Fresh do that for allocation,
--     Alloc.Live is about garbage that a collection has to give back; Apply.Curry is
--     about an application to several arguments, Apply.New about that of a new closure. Xml.Call is
--     `rv_call`: which registers and stack words it passes; Xml.Init is about `rt_init`, Xml.Status
--     holds what `print_gc_status` prints, and Xml.Run and Run.Safety are about programs that make
--     closures, read their words and collect.
--   * Omlet: OMLet/lib/gc.c and OMLet/lib/runtime.c, built with ENABLE_GC. Omlet holds the heaps and
--     `init_heap`; Omlet.Header `box_header_t`; Omlet.Collect `copy_object`, `update_pointers`,
--     `mark_and_copy` and `collect`; Omlet.Malloc `omlet_malloc`; Omlet.Closure `alloc_closure`,
--     `apply` and `print_int`; Omlet.Status the report. Collect.Ends and Malloc.Ends are about
--     arbitrary heaps. Collect.Forest says what a heap is in which no object is pointed to twice;
--     Walk, Copy, Fields, Roots and Exact follow the collector through one, and Malloc.Live is about
--     garbage there. Collect.Shared is about two pointers to one object, Malloc.Room about allocation
--     where there is room, Closure.Apply about `apply` there, and Closure.Curry about an application
--     in two steps.
--   * The modules Tests, ClosureTests, ChainTests and RunTests, and Xml.HeapTests apply the theorems to
--     small heaps.
--
-- How the C state corresponds. Heap words are a function from byte addresses to words. The roots
-- that a collector scans (stack cells and global variables) are lists of words, which cannot alias
-- the heap's words. A local variable that must survive a collection stands on that list, as the C
-- keeps it on the machine stack. Where the source reads the stack pointer (`update_sp`), the list
-- is already what lies between the base and the stack pointer. `malloc` gives the address at
-- which a space begins. `printf` is given the value that it prints. Compiled code, which a closure
-- calls through `call_closure` in PudgeWithMoML/lib/runtime/call_closure.s, `callf` in OMLet/lib/callf.s
-- or the inline assembly of `applyN` and `rv_call`, is a parameter; Xml.Call reads the assembly of
-- `rv_call` up to its jump.
--
-- Loops. A pass of the collector takes `alloc_offset + 1` units of fuel; every round moves on by
-- at least a word of a part that has `alloc_offset` words. Offsets into a space stay below 2 ^ 32,
-- so that the plain sums of the loops cannot wrap; counters and sizes wrap as in C.
-- In akaML the recursion of `mark_and_copy` takes fuel that the caller gives; two units are enough,
-- since from a word of the heap it goes no further. The search for a header takes a step for each
-- word below the object, which is all that there are. In XML the scan of the copies has a round for
-- every two words of the to-space, the least that an object takes. In OMLet the fuel is the depth of
-- the recursion of `update_pointers`; the caller gives it, and an eighth of the heap's size is enough,
-- since each level copies an object with its header. `_apply_closure_chain` takes fuel too, since it
-- goes on as long as compiled code returns closures that take no argument.
--
-- Where C leaves undefined what an operation does, the model has a `fault` (a read outside the heap that
-- a collection copies from in OMLet, a store past a closure there, `update_ptr_on_stack` from a word of
-- the heap in akaML), or the theorems assume that it does not come up: sizes, counters of type `int`
-- and sums of addresses are below what their types hold. In XML sizes are rounded up by a mask of 32
-- bits, as in the source, and the objects of a heap take fewer than 2 ^ 32 bytes each.
--
-- Not modelled: logging under DEBUG but for `print_stack`, the text of reports and messages, `flush`,
-- the assembly code but for that of `rv_call`, forward declarations and the macros for logging and
-- variadic arguments; of akaML and OMLet the build without a collector.
pub mod AkaMl
pub mod Base
pub mod Forwarding
pub mod Memory
pub mod Omlet
pub mod Pudge
pub mod Xml
