-- ===== src/Pudge/ChainTests.antt =====
-- `_apply_closure_chain` of PudgeWithMoML/lib/runtime/runtime.c at two closures of one argument. The
-- code of the first returns the second one; in the other test code returns the first one again.
use pudge_with_mo_ml.Base.{
  ℕ, ◌+◌, ◌*◌, ◌≤◌, ◌<◌, ◌≡◌, ◌≢◌, refl, sym, ◌∙◌, ap, [], ◌∷◌, ◌++◌, arith, ◌==◌, if◌then◌else◌,
  ok, out_of_fuel, ◌>>=◌, ok_injective, take, drop, get_or,
}
use pudge_with_mo_ml.Memory.{Memory, read_words}
use pudge_with_mo_ml.Pudge.{Runtime}
use pudge_with_mo_ml.Pudge.Closure.{
  Call, push, pop_to, apply_closure, apply_loop, apply_closure_chain,
}
use pudge_with_mo_ml.Pudge.Closure.Alloc.{IsClosure}
use pudge_with_mo_ml.Pudge.Closure.Apply.{run, apply_closure-run}
use pudge_with_mo_ml.Pudge.Closure.Chain.{Lacks, apply_loop-stops, apply_closure_chain-over}

abbrev words : Memory
words a =
    if a == 4104
    then 65537
    else if a == 4112
    then 1
    else if a == 4160
    then 65541
    else if a == 4168
    then 1
    else 0

abbrev sample : Runtime
sample = record {
  base_sp = 1_000_000;
  space_capacity = 64;
  heap_start = 4096;
  new_space = 4096;
  alloc_offset = 12;
  old_space = 4608;
  alloc_count = 2;
  alloc_bytes_count = 80;
  collect_count = 0;
  obj_count = 2;
  mem = words;
  stack = 5 ∷ [];
  globals = [];
}

zero_word : (k : ℕ) → k < 1 → (words (4128 + 8 * k) ≡ 0) × (words (4184 + 8 * k) ≡ 0)
zero_word k lt = ground arith

first : IsClosure words 4104 65537 1 0
first = record {
  code_at = refl;
  argc_at = refl;
  recived_at = refl;
  zeros = λ k ge lt. (zero_word k lt).0;
}

second : IsClosure words 4160 65541 1 0
second = record {
  code_at = refl;
  argc_at = refl;
  recived_at = refl;
  zeros = λ k ge lt. (zero_word k lt).1;
}

abbrev again : Call
again code args w = ok (4104, w)

abbrev Good : ℕ → Runtime → Type 0
Good c w = (c ≡ 4104) × (w.mem ≡ words)

good-IsClosure : (c : ℕ) (w : Runtime) → Good c w → IsClosure w.mem c 65537 1 0
good-IsClosure c w g = rw (g.0, g.1) first

lacks : (c : ℕ) (w : Runtime) → Good c w → Lacks c w
lacks c w g = record {
  code = 65537;
  arity = 1;
  got = 0;
  closure = good-IsClosure c w g;
  less = omega arith;
  small = omega arith;
}

full_call :
    (c n pos : ℕ) (w : Runtime)
    → Good c w
    → n ≡ 1
    → apply_closure again c n pos w
      ≡ run again 65537 (read_words w.mem (c + 24) 0 ++ take n (drop pos w.stack)) w
full_call c n pos w g e =
    apply_closure-run again c 65537 1 0 w (good-IsClosure c w g) (omega arith) (omega arith) n pos
      (omega arith)

one : (c n : ℕ) (w : Runtime) → Good c w → 0 < n → w.mem (c + 16) + n ≤ w.mem (c + 8) → n ≡ 1
one c n w g pos le =
    let l = good-IsClosure c w g in
    let a : w.mem (c + 16) ≡ 0 = l.recived_at in
    let b : w.mem (c + 8) ≡ 1 = l.argc_at in omega arith

ends :
    (c n pos : ℕ) (w : Runtime)
    → Good c w
    → 0 < n
    → w.mem (c + 16) + n ≤ w.mem (c + 8)
    → apply_closure again c n pos w ≢ out_of_fuel
ends c n pos w g lt le e = let h = sym (full_call c n pos w g (one c n w g lt le)) ∙ e in cc

keeps :
    (c n pos : ℕ) (w : Runtime) (r : ℕ × Runtime)
    → Good c w
    → w.mem (c + 16) + n ≡ w.mem (c + 8)
    → apply_closure again c n pos w ≡ ok r
    → Good r.0 r.1
keeps c n pos w r g e x =
    let l = good-IsClosure c w g in
    let a : w.mem (c + 16) ≡ 0 = l.recived_at in
    let b : w.mem (c + 8) ≡ 1 = l.argc_at in
    let h = sym (full_call c n pos w g (omega arith)) ∙ x in
    let z = ok_injective _ r h in (sym (ap (λ q. q.0) z), sym (ap (λ q. q.1.mem) z) ∙ g.1)

apply_loop-stops_example : apply_loop again 4 4104 3 0 0 sample ≢ out_of_fuel
apply_loop-stops_example =
    apply_loop-stops again Good lacks ends keeps 4 4104 3 0 0 sample (refl, refl) (omega arith)
      (omega arith) (omega arith)

-- the first code returns the second closure, and the second code returns its argument
abbrev two_codes : Call
two_codes code args w = if code == 65537 then ok (4160, w) else ok (get_or args 0 0, w)

abbrev between : Runtime
between = record sample { stack = 5 ∷ 21 ∷ 23 ∷ [] }

ran :
    run two_codes 65537
      (read_words words 4128 0 ++ take 1 (21 ∷ 23 ∷ []))
      (push (21 ∷ 23 ∷ []) sample)
    ≡ ok (4160, between)
unfolding read_words
ran = refl

apply_closure_chain-over_example : apply_closure_chain two_codes 2 4104 5 (21 ∷ 23 ∷ []) sample ≡ (
    run two_codes 65541 (read_words words 4184 0 ++ take 1 (drop 2 (5 ∷ 21 ∷ 23 ∷ []))) between
    >>= λ r. ok (r.0, pop_to 1 r.1))
apply_closure_chain-over_example =
    apply_closure_chain-over two_codes 0 4104 65537 1 0 1 sample (21 ∷ 23 ∷ []) 4160 between 65541 1
      0 first (omega arith, omega arith, refl) (omega arith, omega arith) ran second
      (omega arith, refl)
