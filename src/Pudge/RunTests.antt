-- ===== src/Pudge/RunTests.antt =====
-- A run of a program over PudgeWithMoML/lib/runtime/runtime.c: the heap is made, collected while it is
-- empty, and holds one closure then, which the program keeps.
use pudge_with_mo_ml.Base.{◌+◌, ◌*◌, ◌≡◌, refl, inl, [], ◌∷◌, arith, ok}
use pudge_with_mo_ml.Memory.{store}
use pudge_with_mo_ml.Pudge.{Runtime, init_gc, space_size}
use pudge_with_mo_ml.Pudge.Collect.{collect}
use pudge_with_mo_ml.Pudge.Malloc.{my_malloc, round_up, is_full, check_room, make_room, bump}
use pudge_with_mo_ml.Pudge.Closure.{Call, alloc_closure_inner, init_closure}
use pudge_with_mo_ml.Pudge.Run.{Run, start, step, changes_roots, collects, allocates, Sound}
use pudge_with_mo_ml.Pudge.Run.Safety.{init_gc-Run}

abbrev returns_code : Call
returns_code code args w = ok (code, w)

abbrev loaded : Runtime
loaded = record {
  base_sp = 0;
  space_capacity = 0;
  heap_start = 0;
  new_space = 0;
  alloc_offset = 0;
  old_space = 0;
  alloc_count = 0;
  alloc_bytes_count = 0;
  collect_count = 0;
  obj_count = 0;
  mem = λ a. 0;
  stack = [];
  globals = 0 ∷ [];
}

abbrev booted : Runtime
booted = record loaded {
  base_sp = 1_000_000;
  space_capacity = space_size;
  heap_start = 4096;
  new_space = 4096;
  old_space = 4096 + 8 * space_size;
}

booted-eq : init_gc 1_000_000 4096 loaded ≡ booted
unfolding init_gc
booted-eq = refl

collected : collect booted ≡ ok booted
unfolding collect
collected = refl

abbrev allocated : Runtime
allocated = record booted {
  obj_count = 1;
  mem = init_closure 4104 65537 2 (store booted.mem 4096 5);
  alloc_offset = 6;
  alloc_count = 1;
  alloc_bytes_count = 48;
}

allocated-eq : alloc_closure_inner 65537 2 booted ≡ ok (4104, allocated)
unfolding alloc_closure_inner my_malloc make_room is_full check_room bump round_up
allocated-eq = refl

run : Run returns_code (init_gc 1_000_000 4096 loaded) (record allocated { stack = 4104 ∷ [] })
run = rw booted-eq (
    step
      (step (step start (collects collected))
        (allocates 65537 2 4104 (omega arith) (inl (omega arith)) allocated-eq))
      (changes_roots (4104 ∷ []) (0 ∷ [])))

init_gc-Run_example : Sound (record allocated { stack = 4104 ∷ [] })
init_gc-Run_example =
    init_gc-Run returns_code 1_000_000 4096 loaded (record allocated { stack = 4104 ∷ [] }) refl
      (omega arith) run
