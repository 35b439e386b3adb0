-- ===== src/Xml/Collect/Words.antt =====
-- `scan_words` of XML/bin/runtime.c over the fields of one copy, and the words that it leaves out.
use pudge_with_mo_ml.Base.{
  ℕ, zero, suc, ◌+◌, ◌*◌, ◌≤◌, ◌<◌, ◌≡◌, ◌∙◌, refl, inl, inr, true, false, List, some, arith,
  Bool-cases, Outcome, ok, ◌>>=◌, bind-ok, ap,
}
use pudge_with_mo_ml.Memory.{Memory, store}
use pudge_with_mo_ml.Forwarding.{Forwarding}
use pudge_with_mo_ml.Xml.{Runtime, in_from}
use pudge_with_mo_ml.Xml.Heap.{IsObject, IsHeap, from_object, points, is_field, is_live}
use pudge_with_mo_ml.Xml.Collect.{forward_obj, forward_val, scan_words}
use pudge_with_mo_ml.Xml.Collect.Invariant.{Inv, end_of}
use pudge_with_mo_ml.Xml.Collect.Advance.{word_here, inside, store-Inv, store_same, plain-Inv}
use pudge_with_mo_ml.Xml.Collect.Step.{during, Row, Stage, forward_obj-Forwards}

module _ (w : Runtime) (ts : List ℕ) (heap : IsHeap w ts) (ss : List ℕ) where
  -- The first part of a scan's state and the step that follows it.
  pub Stage-then :
      (f : Forwarding) (d d' tail : ℕ) (out out' : Outcome Runtime)
      (st : Stage w ts ss f d tail out)
      → Stage w ts ss st.forwarding d' tail out'
      → Stage w ts ss f d' tail out'
  Stage-then f d d' tail out out' st more = record {
    forwarding = more.forwarding;
    memory = more.memory;
    copies = more.copies;
    result = more.result;
    inv = more.inv;
    row = more.row;
    extends = λ p q h. more.extends p q (st.extends p q h);
  }

  -- The words that are no fields are passed over.
  pub skip-Inv :
      (n : ℕ) (f : Forwarding) (d : ℕ) (m : Memory)
      → Inv w ts f d m
      → (p s q k : ℕ) → IsObject p s w.from_start ts
      → f p ≡ some q
      → k + n ≤ s
      → q + 8 * k ≡ d
      → ((j : ℕ) → k ≤ j → j < k + n → is_field p j w ≡ false)
      → Inv w ts f (d + 8 * n) m
  skip-Inv zero f d m inv p s q k o e le here none_field =
      let e₀ : d ≡ d + 8 * 0 = omega arith in rw e₀ at inv
  skip-Inv (suc n) f d m inv p s q k o e le here none_field =
      let not_live : is_live p k w ≡ false =
        unfold is_live in rw (none_field k (omega arith) (omega arith)) in
      let one = plain-Inv w ts heap f d m inv p s q k o e (omega arith) here not_live in
      let more =
        skip-Inv n f (d + 8) m one p s q (k + 1) o e (omega arith) (omega arith)
          (λ j lo hi. none_field j (omega arith) (omega arith)) in
      let e₀ : d + 8 + 8 * n ≡ d + 8 * suc n = omega arith in rw e₀ at more

  same_from : (f : Forwarding) (m : Memory) (v : ℕ) → in_from v (during w ts ss f m) ≡ in_from v w
  unfolding in_from
  same_from f m v = refl

  pub forward_val-stays :
      (f : Forwarding) (m : Memory) (v : ℕ)
      → points v w ≡ false
      → forward_val v (during w ts ss f m) ≡ ok (v, during w ts ss f m)
  unfolding forward_val points
  forward_val-stays f m v h = ground (arith, same_from f m v)

  pub forward_val-follows :
      (f : Forwarding) (m : Memory) (v : ℕ)
      → points v w ≡ true
      → forward_val v (during w ts ss f m) ≡ forward_obj v (during w ts ss f m)
  unfolding forward_val points
  forward_val-follows f m v h = ground (arith, same_from f m v)

  -- One field.
  module _ (f : Forwarding) (d : ℕ) (m : Memory) (inv : Inv w ts f d m) (p s q k : ℕ)
      (o : IsObject p s w.from_start ts) (e : f p ≡ some q) (lt : k < s) (here : q + 8 * k ≡ d)
      (field : is_field p k w ≡ true) (tail : ℕ) (cs : List (ℕ × ℕ))
      (row : Row w ts f tail (end_of w ts f) cs) where
    abbrev v : ℕ
    v = w.mem (p + 8 * k)

    abbrev visit : Outcome Runtime
    visit = forward_val (m d) (during w ts ss f m) >>= λ r.
        ok (record r.1 { mem = store r.1.mem d r.0 })

    read : m d ≡ v
    read = word_here w ts heap f d m inv p s q k o e lt here

    live_eq : is_live p k w ≡ points v w
    unfolding is_live
    live_eq = rw field

    plain_field : points v w ≡ false → Stage w ts ss f (d + 8) tail visit
    plain_field h = record {
      forwarding = f;
      memory = m;
      copies = cs;
      result =
          rw (read, forward_val-stays f m v h, store_same w ts heap f d m inv p s q k o e lt here);
      inv = plain-Inv w ts heap f d m inv p s q k o e lt here (live_eq ∙ h);
      row = row;
      extends = λ p' q' h'. h';
    }

    live_field : points v w ≡ true → Stage w ts ss f (d + 8) tail visit
    live_field h =
        let live : is_live p k w ≡ true = live_eq ∙ h in
        let (t, ov) = heap.fields p s k o lt live in
        let c = inside w ts heap f d m inv p s q k o e lt here in
        let r = from_object p s k (inv.reached p q e) o lt live in
        let g = forward_obj-Forwards w ts heap ss f d m inv v t ov r (omega arith) tail cs row in
        record {
          forwarding = g.forwarding;
          memory = store g.memory d g.address;
          copies = g.copies;
          result = rw (read, forward_val-follows f m v h, g.result);
          inv =
              store-Inv w ts heap g.forwarding d g.memory g.inv p s q k o (g.extends p q e) lt here
                g.address ((λ h'. g.target), (λ h'. cc));
          row = g.row;
          extends = g.extends;
        }

    pub visit-Stage : Stage w ts ss f (d + 8) tail visit
    visit-Stage = elim (Bool-cases (points v w)) [ inl h ↦ live_field h | inr h ↦ plain_field h ]

  -- The fields from word `k` of the copy on.
  pub scan_words-Stage :
      (n : ℕ) (f : Forwarding) (d : ℕ) (m : Memory)
      → Inv w ts f d m
      → (p s q k : ℕ) → IsObject p s w.from_start ts
      → f p ≡ some q
      → k + n ≤ s
      → q + 8 * k ≡ d
      → ((j : ℕ) → k ≤ j → j < k + n → is_field p j w ≡ true)
      → (tail : ℕ) (cs : List (ℕ × ℕ)) → Row w ts f tail (end_of w ts f) cs
      → Stage w ts ss f (d + 8 * n) tail (scan_words n d (during w ts ss f m))
  unfolding scan_words
  scan_words-Stage zero f d m inv p s q k o e le here all tail cs row = record {
    forwarding = f;
    memory = m;
    copies = cs;
    result = refl;
    inv = let e₀ : d ≡ d + 8 * 0 = omega arith in rw e₀ at inv;
    row = row;
    extends = λ p' q' h. h;
  }
  scan_words-Stage (suc n) f d m inv p s q k o e le here all tail cs row =
      let one =
        visit-Stage f d m inv p s q k o e (omega arith) here (all k (omega arith) (omega arith))
          tail cs row in
      let more =
        scan_words-Stage n one.forwarding (d + 8) one.memory one.inv p s q (k + 1) o
          (one.extends p q e) (omega arith) (omega arith)
          (λ j lo hi. all j (omega arith) (omega arith)) tail one.copies one.row in
      let e₀ : d + 8 + 8 * n ≡ d + 8 * suc n = omega arith in
      record {
        forwarding = more.forwarding;
        memory = more.memory;
        copies = more.copies;
        result =
            bind-ok (forward_val (m d) (during w ts ss f m))
              (λ (r : ℕ × Runtime). record r.1 { mem = store r.1.mem d r.0 }) (scan_words n (d + 8))
            ∙ ap (λ x. x >>= scan_words n (d + 8)) one.result
            ∙ more.result;
        inv = rw e₀ at more.inv;
        row = more.row;
        extends = λ p' q' h. more.extends p' q' (one.extends p' q' h);
      }
