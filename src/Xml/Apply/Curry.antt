-- ===== src/Xml/Apply/Curry.antt =====
-- Repeated `apply1` of XML/bin/runtime.c.
use pudge_with_mo_ml.Memory.Copy.{
  read_words-append, read_words_shift, copy_words_self, copy_words-Outside, store_ne, store_self,
}
use pudge_with_mo_ml.Base.{
  ap, ℕ, suc, ◌+◌, ◌-◌, ◌*◌, ◌/◌, ◌^◌, ◌≤◌, ◌<◌, ◌≡◌, ◌≢◌, refl, inl, inr, ◌∙◌, true, false, arith,
  ltb-false, ◌==◌, length-append, sym, List, [], ◌∷◌, ◌++◌, length, Outcome, ok, ◌>>=◌,
}
use pudge_with_mo_ml.Xml.{add_word, Runtime}
use pudge_with_mo_ml.Xml.Apply.{slt, Call, apply1, push_arg}
use pudge_with_mo_ml.Memory.{Memory, store, copy_words, read_words}
use pudge_with_mo_ml.Xml.Collect.{round_up, clos_bytes, rounds}
use pudge_with_mo_ml.Xml.Alloc.{copy_closure, gc_alloc_bytes, bump}

-- The size of a closure, rounded up, where it does not wrap.
pub size_bytes_eq : (arity : ℕ) → arity + 4 < 2 ^ 29 → round_up (clos_bytes arity) ≡ 32 + 8 * arity
unfolding round_up clos_bytes
size_bytes_eq arity h = omega arith

-- A closure at `f` with its code, its arity and the arguments that it has, too few for a call, in
-- the part of the heap in use.
pub record IsPartial (f code arity : ℕ) (args : List ℕ) (w : Runtime) : Type 0 where
  pub not_null : f ≢ 0
  pub below : f + 8 * (4 + arity) ≤ w.alloc_ptr
  pub bounded : arity + 4 < 2 ^ 29
  pub has_arity : w.mem (f + 8) ≡ arity
  pub has_received : w.mem (f + 16) ≡ length args
  pub has_code : w.mem (f + 24) ≡ code
  pub has_args : read_words w.mem (f + 32) (length args) ≡ args
  pub missing : length args < arity

-- The value of an application to several arguments, one `apply1` after the other.
unfoldable pub apply_all : Call → ℕ → List ℕ → Runtime → Outcome (ℕ × Runtime)
apply_all call f [] w = ok (f, w)
apply_all call f (x ∷ xs) w = apply1 call f x w >>= λ r. apply_all call r.0 xs r.1

module _ (call : Call) (f code arity : ℕ) (args : List ℕ) (x : ℕ) (w : Runtime)
    (p : IsPartial f code arity args w) where
  null_test : (f == 0) ≡ false
  null_test = ground (arith, p.not_null)

  -- The last argument is there: the code is called with all of them.
  pub apply1-last : length args + 1 ≡ arity → apply1 call f x w ≡ call code (args ++ x ∷ []) w
  unfolding apply1
  apply1-last e =
      let more : slt (add_word (length args) 1) arity ≡ false = ground (arith, p.bounded) in
      let all : (add_word (length args) 1 == arity) ≡ true = ground (arith, p.bounded) in
      let r : rounds (length args) ≡ length args = ground (arith, p.bounded) in
      rw (null_test, p.has_received, p.has_arity, more, all, r, p.has_code, p.has_args)

  abbrev dst : ℕ
  dst = w.alloc_ptr

  abbrev size : ℕ
  size = 32 + 8 * arity

  abbrev copied : Memory
  copied = copy_words (store w.mem dst w.vt_closure) dst f (4 + arity)

  abbrev pushed : Memory
  pushed = store (store copied (dst + 32 + 8 * length args) x) (dst + 16) (length args + 1)

  abbrev grown : Runtime
  grown = record w {
    alloc_ptr = dst + size;
    allocations = add_word w.allocations 1;
    bytes_allocated_total = add_word w.bytes_allocated_total size;
  }

  abbrev after : Runtime
  after = record grown { mem = pushed }

  size_eq : clos_bytes arity ≡ size
  unfolding clos_bytes
  size_eq = omega (arith, p.bounded)

  rounded : round_up size ≡ size
  unfolding round_up
  rounded = omega (arith, p.bounded)

  copy_eq :
      w.alloc_ptr + 8 * (4 + arity) ≤ w.from_end
      → copy_closure f w ≡ ok (dst, record grown { mem = copied })
  unfolding copy_closure gc_alloc_bytes bump
  copy_eq room =
      let still : store w.mem dst w.vt_closure (f + 8) ≡ arity =
        store_ne w.mem dst w.vt_closure (f + 8) (omega (arith, p.below)) ∙ p.has_arity in
      let words : size / 8 ≡ 4 + arity = omega arith in
      rw (
        p.has_arity,
        size_eq,
        rounded,
        ltb-false w.from_end (dst + size) (omega arith),
        still,
        size_eq,
        words,
      )

  copied_word : (k : ℕ) → k < 4 + arity → 0 < k → copied (dst + 8 * k) ≡ w.mem (f + 8 * k)
  copied_word k lt pos =
      copy_words_self (store w.mem dst w.vt_closure) dst f (4 + arity) k
        (inr (omega (arith, p.below))) lt
      ∙ store_ne w.mem dst w.vt_closure (f + 8 * k) (omega (arith, p.below))

  copied_received : copied (dst + 16) ≡ length args
  copied_received =
      ap copied (omega arith)
      ∙ copied_word 2 (omega arith) (omega arith)
      ∙ ap w.mem (omega arith)
      ∙ p.has_received

  push_eq : push_arg dst x copied ≡ pushed
  unfolding push_arg
  push_eq =
      let e : add_word (length args) 1 ≡ length args + 1 = omega (arith, p.missing, p.bounded) in
      rw (copied_received, e)

  -- An argument more, but not the last.
  apply1-more :
      length args + 1 < arity
      → w.alloc_ptr + 8 * (4 + arity) ≤ w.from_end
      → apply1 call f x w ≡ ok (dst, after)
  unfolding apply1
  apply1-more lt room =
      let more : slt (add_word (length args) 1) arity ≡ true = ground (arith, p.bounded) in
      rw (null_test, p.has_received, p.has_arity, more, copy_eq room, push_eq)

  pushed_word :
      (k : ℕ) → 0 < k → k < 4 + length args → k ≢ 2 → pushed (dst + 8 * k) ≡ w.mem (f + 8 * k)
  pushed_word k pos lt ne =
      store_ne (store copied (dst + 32 + 8 * length args) x) (dst + 16) (length args + 1)
        (dst + 8 * k) (omega arith)
      ∙ store_ne copied (dst + 32 + 8 * length args) x (dst + 8 * k) (omega arith)
      ∙ copied_word k (omega (arith, p.missing)) pos

  after_arity : pushed (dst + 8) ≡ arity
  after_arity = pushed_word 1 (omega arith) (omega arith) (omega arith) ∙ p.has_arity

  after_code : pushed (dst + 24) ≡ code
  after_code = pushed_word 3 (omega arith) (omega arith) (omega arith) ∙ p.has_code

  after_old_args : read_words pushed (dst + 32) (length args) ≡ args
  after_old_args =
      read_words_shift pushed w.mem (dst + 32) (f + 32) (length args) (λ k lt.
        ap pushed (omega arith)
        ∙ pushed_word (4 + k) (omega arith) (omega arith) (omega arith)
        ∙ ap w.mem (omega arith))
      ∙ p.has_args

  after_new_arg : read_words pushed (dst + 32 + 8 * length args) 1 ≡ x ∷ []
  unfolding read_words
  after_new_arg =
      ap (λ v. v ∷ [])
        (store_ne (store copied (dst + 32 + 8 * length args) x) (dst + 16) (length args + 1)
            (dst + 32 + 8 * length args) (omega arith)
          ∙ store_self copied (dst + 32 + 8 * length args) x)

  after_args : read_words pushed (dst + 32) (length args + 1) ≡ args ++ x ∷ []
  after_args =
      rw (read_words-append pushed (dst + 32) (length args) 1, after_old_args, after_new_arg)

  grown_length : length (args ++ x ∷ []) ≡ length args + 1
  grown_length = length-append args (x ∷ [])

  after-IsPartial : length args + 1 < arity → IsPartial dst code arity (args ++ x ∷ []) after
  after-IsPartial lt = record {
    not_null = omega (arith, p.not_null, p.below);
    below = omega arith;
    bounded = p.bounded;
    has_arity = after_arity;
    has_received =
        store_self (store copied (dst + 32 + 8 * length args) x) (dst + 16) (length args + 1)
        ∙ sym grown_length;
    has_code = after_code;
    has_args = rw grown_length after_args;
    missing = rw grown_length lt;
  }

  after_kept : (a : ℕ) → a < dst → pushed a ≡ w.mem a
  after_kept a lt =
      store_ne (store copied (dst + 32 + 8 * length args) x) (dst + 16) (length args + 1) a
        (omega arith)
      ∙ store_ne copied (dst + 32 + 8 * length args) x a (omega arith)
      ∙ copy_words-Outside (store w.mem dst w.vt_closure) dst f (4 + arity) a (inl lt)
      ∙ store_ne w.mem dst w.vt_closure a (omega arith)

bind_ok : (o : Outcome (ℕ × Runtime)) → (o >>= λ r. ok (r.0, r.1)) ≡ o
bind_ok (ok a) = refl
bind_ok (Outcome.exit n) = refl
bind_ok Outcome.abort = refl
bind_ok Outcome.fault = refl
bind_ok Outcome.out_of_fuel = refl

append_snoc : (xs ys : List ℕ) (x : ℕ) → (xs ++ x ∷ []) ++ ys ≡ xs ++ x ∷ ys
append_snoc [] ys x = refl
append_snoc (z ∷ xs) ys x = ap (◌∷◌ z) (append_snoc xs ys x)

-- the room for one partial application, and for the others
room_step : (n s : ℕ) → (suc (suc n) - 1) * s ≡ s + (suc n - 1) * s
room_step n s =
    let e : suc (suc n) - 1 ≡ suc n = omega arith in
    let e' : suc n - 1 ≡ n = omega arith in
    let f : suc n * s ≡ s + n * s = grind arith in rw (e, e') f

-- A closure of fewer than 2 ^ 29 - 4 arguments that lacks as many as it is applied to, one `apply1` after the other, calls
-- its code once, with the arguments that it had and then the new ones. The heap has room for the
-- partial applications in between, and these change no word of the part that was in use.
pub apply_all-calls :
    (call : Call) (f code arity : ℕ) (args xs : List ℕ) (w : Runtime)
    → IsPartial f code arity args w
    → length args + length xs ≡ arity
    → w.alloc_ptr + (length xs - 1) * (32 + 8 * arity) ≤ w.from_end
    → (w' : Runtime) × (apply_all call f xs w ≡ call code (args ++ xs) w')
      × ((a : ℕ) → a < w.alloc_ptr → w'.mem a ≡ w.mem a)
unfolding apply_all
apply_all-calls call f code arity args [] w p total room = absurd (omega (arith, p.missing))
apply_all-calls call f code arity args (x ∷ []) w p total room =
    let e = apply1-last call f code arity args x w p total in (w, rw (e, bind_ok), λ a lt. refl)
apply_all-calls call f code arity args (x ∷ y ∷ ys) w p total room =
    let lt : length args + 1 < arity = omega arith in
    let step = room_step (length ys) (32 + 8 * arity) in
    let here : w.alloc_ptr + 8 * (4 + arity) ≤ w.from_end = omega arith in
    let e = apply1-more call f code arity args x w p lt here in
    let rest =
      apply_all-calls call w.alloc_ptr code arity (args ++ x ∷ []) (y ∷ ys)
        (after call f code arity args x w p) (after-IsPartial call f code arity args x w p lt)
        (rw (grown_length call f code arity args x w p) (omega arith)) (omega arith) in
    (
      rest.0,
      rw (e, rest.1, append_snoc args (y ∷ ys) x),
      λ a below. rest.2 a (omega arith) ∙ after_kept call f code arity args x w p a below,
    )
