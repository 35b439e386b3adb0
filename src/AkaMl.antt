-- ===== src/AkaMl.antt =====
-- akaML/lib/runtime/runtime.c: the collector's state and the two banks.
pub mod Print
pub mod Header
pub mod Collect
pub mod Alloc
pub mod Closure
pub mod Status
mod Tests
mod ClosureTests
use pudge_with_mo_ml.Base.{
  ℕ, ◌+◌, ◌-◌, ◌*◌, Bool, true, false, ◌&&◌, List, [], ◌∷◌, leb, ltb, ◌==◌, if◌then◌else◌,
}
use pudge_with_mo_ml.Memory.{Memory}

-- `gc_data` with `gc_stats`, the words of the banks, and the stack cells from the collector's frame
-- (`top`) to `PTR_STACK` (`bottom`), in that order.
pub record Runtime : Type 0 where
  pub start_bank_main : ℕ
  pub final_bank_main : ℕ
  pub start_bank_sub : ℕ
  pub final_bank_sub : ℕ
  pub ptr_base : ℕ
  pub words_allocated_total : ℕ
  pub bank_current : ℕ
  pub collections_count : ℕ
  pub allocations_count : ℕ
  pub mem : Memory
  pub stack : List ℕ

-- `SIZE_HEAP`, in words
abbrev pub size_heap : ℕ
size_heap = 1800

-- `init_gc`; `main` and `sub` are what the two calls of `malloc` return.
unfoldable pub init_gc : (main sub : ℕ) → Runtime → Runtime
init_gc main sub w = record w {
  start_bank_main = main;
  final_bank_main = main + 8 * size_heap;
  start_bank_sub = sub;
  final_bank_sub = sub + 8 * size_heap;
  ptr_base = main;
  bank_current = 0;
  words_allocated_total = 0;
  collections_count = 0;
  allocations_count = 0;
}

-- the blocks that `destroy_gc` gives back, in order
unfoldable pub destroy_gc : Runtime → List ℕ
destroy_gc w = w.start_bank_main ∷ w.start_bank_sub ∷ []

unfoldable pub is_in_bank_main : ℕ → Runtime → Bool
is_in_bank_main p w = leb w.start_bank_main p && ltb p w.final_bank_main

unfoldable pub is_in_bank_sub : ℕ → Runtime → Bool
is_in_bank_sub p w = leb w.start_bank_sub p && ltb p w.final_bank_sub

-- `GET_BANK_START`, `GET_BANK_FINAL`, `GET_IS_IN_BANK_CUR` and `GET_IS_IN_BANK_OLD`
unfoldable pub bank_start : Runtime → ℕ
bank_start w = if w.bank_current == 0 then w.start_bank_main else w.start_bank_sub

unfoldable pub bank_final : Runtime → ℕ
bank_final w = if w.bank_current == 0 then w.final_bank_main else w.final_bank_sub

unfoldable pub is_in_bank_cur : ℕ → Runtime → Bool
unfolding is_in_bank_main is_in_bank_sub
is_in_bank_cur p w = if w.bank_current == 0 then is_in_bank_main p w else is_in_bank_sub p w

unfoldable pub is_in_bank_old : ℕ → Runtime → Bool
unfolding is_in_bank_main is_in_bank_sub
is_in_bank_old p w = if w.bank_current == 1 then is_in_bank_main p w else is_in_bank_sub p w
