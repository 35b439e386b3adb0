-- ===== src/Xml/Apply/New.antt =====
-- A new closure of XML/bin/runtime.c, applied to all its arguments.
use pudge_with_mo_ml.Base.{
  ℕ, ◌+◌, ◌-◌, ◌*◌, ◌^◌, ◌≤◌, ◌<◌, ◌≡◌, refl, inl, ◌∙◌, arith, ltb-false, leb-false, List, [],
  length, ok, ◌>>=◌,
}
use pudge_with_mo_ml.Base.Words.{add_word}
use pudge_with_mo_ml.Memory.{Memory, store, zero_words, read_words}
use pudge_with_mo_ml.Memory.Copy.{zero_words-Outside}
use pudge_with_mo_ml.Xml.{Runtime}
use pudge_with_mo_ml.Xml.Alloc.{alloc_closure, gc_alloc_bytes, bump, init_closure}
use pudge_with_mo_ml.Xml.Apply.{Call}
use pudge_with_mo_ml.Xml.Apply.Curry.{IsPartial, apply_all, apply_all-calls, size_bytes_eq}

module _ (code arity : ℕ) (w : Runtime) (pos : 0 < w.alloc_ptr) (some_args : 0 < arity)
    (bounded : arity + 4 < 2 ^ 29) (room : w.alloc_ptr + (32 + 8 * arity) ≤ w.from_end) where
  abbrev c : ℕ
  c = w.alloc_ptr

  abbrev fields : Memory
  fields = store (store (store (store w.mem c w.vt_closure) (c + 8) arity) (c + 16) 0) (c + 24) code

  abbrev after : Runtime
  after = record w {
    mem = zero_words fields (c + 32) arity;
    alloc_ptr = c + (32 + 8 * arity);
    allocations = add_word w.allocations 1;
    bytes_allocated_total = add_word w.bytes_allocated_total (32 + 8 * arity);
  }

  alloc_eq : alloc_closure code arity w ≡ ok (c, after)
  unfolding alloc_closure gc_alloc_bytes bump init_closure
  alloc_eq = rw (
    leb-false (2 ^ 63) arity (omega arith),
    size_bytes_eq arity bounded,
    ltb-false w.from_end (c + (32 + 8 * arity)) room,
  )

  field : (b : ℕ) → b < c + 32 → after.mem b ≡ fields b
  field b lt = zero_words-Outside fields (c + 32) arity b (inl lt)

  after-IsPartial : IsPartial c code arity [] after
  unfolding read_words
  after-IsPartial = record {
    not_null = omega arith;
    below = omega arith;
    bounded = bounded;
    has_arity = field (c + 8) (omega arith) ∙ ground arith;
    has_received = field (c + 16) (omega arith) ∙ ground arith;
    has_code = field (c + 24) (omega arith) ∙ ground arith;
    has_args = refl;
    missing = some_args;
  }

-- A new closure of at least one argument and fewer than 2 ^ 29 - 4, applied to as many arguments as it takes, one `apply1`
-- after the other, calls its code once with exactly these. The heap has room for the closure and
-- for the partial applications in between.
pub alloc_closure-apply_all :
    (call : Call) (code : ℕ) (xs : List ℕ) (w : Runtime)
    → 0 < w.alloc_ptr
    → 0 < length xs
    → length xs + 4 < 2 ^ 29
    → w.alloc_ptr + (32 + 8 * length xs) + (length xs - 1) * (32 + 8 * length xs) ≤ w.from_end
    → (w' : Runtime) × ((alloc_closure code (length xs) w >>= λ r. apply_all call r.0 xs r.1)
        ≡ call code xs w')
alloc_closure-apply_all call code xs w pos some_args bounded room =
    let here : w.alloc_ptr + (32 + 8 * length xs) ≤ w.from_end = omega arith in
    let e = alloc_eq code (length xs) w pos some_args bounded here in
    let p = after-IsPartial code (length xs) w pos some_args bounded here in
    let r =
      apply_all-calls call w.alloc_ptr code (length xs) [] xs
        (after code (length xs) w pos some_args bounded here) p (omega arith) room in
    (r.0, rw e r.1)
