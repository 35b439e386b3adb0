-- ===== src/Xml/RunTests.antt =====
-- A run of a program over XML/bin/runtime.c: the heap is made, a closure stands on the stack, and the
-- program puts an integer on top.
use pudge_with_mo_ml.Base.{[]}
use pudge_with_mo_ml.Memory.{store}
use pudge_with_mo_ml.Xml.{Runtime}
use pudge_with_mo_ml.Xml.Alloc.{init_closure}
use pudge_with_mo_ml.Xml.Run.{Run}

abbrev loaded : Runtime
loaded = record {
  from_start = 0;
  from_end = 0;
  to_start = 0;
  to_end = 0;
  alloc_ptr = 0;
  to_alloc = 0;
  runs = 0;
  allocations = 0;
  bytes_allocated_total = 0;
  current_bank = 0;
  vt_block = 64;
  vt_closure = 96;
  mem = λ a. 0;
  stack = [];
}

abbrev booted : Runtime
booted = record loaded {
  from_start = 8192;
  from_end = 532_480;
  to_start = 532_480;
  to_end = 1_056_768;
  alloc_ptr = 8192;
  to_alloc = 532_480;
}

abbrev allocated : Runtime
allocated = record booted {
  mem = init_closure 8192 65537 2 (store booted.mem 8192 96);
  alloc_ptr = 8240;
  allocations = 1;
  bytes_allocated_total = 48;
}
