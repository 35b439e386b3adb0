-- ===== src/Xml/Collect/Objects.antt =====
-- The scan of `gc_collect` in XML/bin/runtime.c over the copies, one after the other.
use pudge_with_mo_ml.Base.{
  ℕ, zero, suc, ◌+◌, ◌-◌, ◌*◌, ◌≤◌, ◌<◌, ◌≡◌, ◌∙◌, refl, inl, inr, true, false, ◌&&◌, List, [], ◌∷◌,
  ◌++◌, some, arith, ltb, leb, ltb-true, ltb-false, leb-true, leb-false, ◌==◌, ok, Returns,
}
use pudge_with_mo_ml.Memory.{Memory}
use pudge_with_mo_ml.Forwarding.{Forwarding}
use pudge_with_mo_ml.Xml.{Runtime}
use pudge_with_mo_ml.Xml.Heap.{IsObject, IsHeap, is_field, is_live}
use pudge_with_mo_ml.Xml.Collect.{
  rounds, block_scan, clos_scan, scan, scan_to, size_bytes, round_up,
}
use pudge_with_mo_ml.Xml.Collect.Invariant.{Inv, end_of, end_of-le, object_place}
use pudge_with_mo_ml.Xml.Collect.Step.{
  during, Row, Row-snoc, Row-extends, Row-le, Stage, size_bytes-object,
}
use pudge_with_mo_ml.Xml.Collect.Words.{skip-Inv, scan_words-Stage}

module _ (w : Runtime) (ts : List ℕ) (heap : IsHeap w ts) where
  block_field : (p j : ℕ) → w.mem p ≡ w.vt_block → is_field p j w ≡ leb 2 j
  unfolding is_field
  block_field p j t = let y : (w.vt_block == w.vt_block) ≡ true = ground arith in rw (t, y)

  not_block : (w.vt_closure == w.vt_block) ≡ false
  not_block = ground (arith, heap.tables)

  closure_field :
      (p j : ℕ) → w.mem p ≡ w.vt_closure → is_field p j w ≡ (leb 4 j && ltb j (4 + w.mem (p + 16)))
  unfolding is_field
  closure_field p j t = rw (t, not_block)

  -- The first two words are no fields.
  pub header_plain : (p s j : ℕ) → IsObject p s w.from_start ts → j < 2 → is_live p j w ≡ false
  unfolding is_live
  header_plain p s j o lt = elim (heap.typed p s o) [
    | inl (t, z) ↦ rw (block_field p j t, leb-false 2 j lt)
    | inr (t, z, u) ↦ rw (closure_field p j t, leb-false 4 j (omega arith))
  ]

  module _ (ss : List ℕ) (f : Forwarding) (q : ℕ) (m : Memory) (inv : Inv w ts f q m) (p s : ℕ)
      (o : IsObject p s w.from_start ts) (e : f p ≡ some q) (tail : ℕ) (cs : List (ℕ × ℕ))
      (row : Row w ts f tail (end_of w ts f) cs) where
    abbrev now : Runtime
    now = during w ts ss f m

    header_word : (k : ℕ) → k < s → m (q + 8 * k) ≡ w.mem (p + 8 * k)
    header_word k lt = inv.rest p s q k o e lt (omega arith)

    type_word : m q ≡ w.mem p
    type_word =
        let e₀ : q + 8 * 0 ≡ q = omega arith in
        let e₁ : p + 8 * 0 ≡ p = omega arith in
        rw (e₀, e₁) at (header_word 0 (omega (arith, object_place w ts heap p s o)))

    rounds_small : (n : ℕ) → n ≤ s → rounds n ≡ n
    rounds_small n le = let b = object_place w ts heap p s o in ground (arith, heap.small)

    scan_block :
        w.mem p ≡ w.vt_block → s ≡ 2 + w.mem (p + 8) → Stage w ts ss f (q + 8 * s) tail (scan q now)
    unfolding scan block_scan
    scan_block t z =
        let len : ℕ = w.mem (p + 8) in
        let y : (w.vt_block == w.vt_block) ≡ true = ground arith in
        let first =
          skip-Inv w ts heap ss 2 f q m inv p s q 0 o e (omega arith) (omega arith)
            (λ j lo hi. block_field p j t ∙ leb-false 2 j (omega arith)) in
        let st =
          scan_words-Stage w ts heap ss len f (q + 8 * 2) m first p s q 2 o e (omega arith)
            (omega arith) (λ j lo hi. block_field p j t ∙ leb-true 2 j (omega arith)) tail cs row in
        let e₀ : q + 8 * 2 + 8 * len ≡ q + 8 * s = omega arith in
        let e₁ : q + 8 * 2 ≡ q + 16 = omega arith in
        rw (type_word, t, y, header_word 1 (omega arith), rounds_small len (omega arith))
          (rw (e₀, e₁) at st)

    scan_closure :
        w.mem p ≡ w.vt_closure
        → s ≡ 4 + w.mem (p + 8)
        → w.mem (p + 16) ≤ w.mem (p + 8)
        → Stage w ts ss f (q + 8 * s) tail (scan q now)
    unfolding scan clos_scan
    scan_closure t z u =
        let received : ℕ = w.mem (p + 16) in
        let y : (w.vt_closure == w.vt_closure) ≡ true = ground arith in
        let first =
          skip-Inv w ts heap ss 4 f q m inv p s q 0 o e (omega arith) (omega arith)
            (λ j lo hi. closure_field p j t ∙ (rw (leb-false 4 j (omega arith)))) in
        let st =
          scan_words-Stage w ts heap ss received f (q + 8 * 4) m first p s q 4 o e (omega arith)
            (omega arith)
            (λ j lo hi.
              closure_field p j t
              ∙ (rw (leb-true 4 j (omega arith), ltb-true j (4 + received) (omega arith))))
            tail cs row in
        let last =
          skip-Inv w ts heap ss (s - 4 - received) st.forwarding (q + 8 * 4 + 8 * received)
            st.memory st.inv p s q (4 + received) o (st.extends p q e) (omega arith) (omega arith)
            (λ j lo hi.
              closure_field p j t
              ∙ (rw (leb-true 4 j (omega arith), ltb-false j (4 + received) (omega arith)))) in
        let e₀ : q + 8 * 4 + 8 * received + 8 * (s - 4 - received) ≡ q + 8 * s = omega arith in
        let e₁ : q + 8 * 4 ≡ q + 32 = omega arith in
        record {
          forwarding = st.forwarding;
          memory = st.memory;
          copies = st.copies;
          result =
              rw
                (
                  type_word,
                  t,
                  not_block,
                  y,
                  header_word 2 (omega arith),
                  rounds_small received (omega arith),
                )
                (rw e₁ at st.result);
          inv = rw e₀ at last;
          row = st.row;
          extends = st.extends;
        }

    scan-Stage : Stage w ts ss f (q + 8 * s) tail (scan q now)
    scan-Stage = elim (heap.typed p s o) [
      | inl (t, z) ↦ scan_block t z
      | inr (t, z, u) ↦ scan_closure t z u
    ]

    -- The scan leaves the object's size as it was.
    size_after :
        (st : Stage w ts ss f (q + 8 * s) tail (scan q now))
        → size_bytes q (during w ts ss st.forwarding st.memory) ≡ ok (8 * s)
    size_after st =
        let b = object_place w ts heap p s o in
        let word : (k : ℕ) → k < 2 → st.memory (q + 8 * k) ≡ w.mem (p + 8 * k) = λ k lt.
          (st.inv.done p s q k o (st.extends p q e) (omega arith) (omega arith)).1
            (header_plain p s k o lt) in
        let e₀ : q + 8 * 0 ≡ q = omega arith in
        let e₁ : p + 8 * 0 ≡ p = omega arith in
        size_bytes-object w ts heap ss st.forwarding (q + 8 * s) st.memory st.inv p s q o
          (rw (e₀, e₁) at (word 0 (omega arith))) (word 1 (omega arith))

  -- What the scan leaves: all words of all copies are done.
  pub record Finished (ss : List ℕ) (f : Forwarding) (out : Runtime) : Type 0 where
    pub forwarding : Forwarding
    pub memory : Memory
    pub copies : List (ℕ × ℕ)
    pub result : out ≡ during w ts ss forwarding memory
    pub inv : Inv w ts forwarding (end_of w ts forwarding) memory
    pub row : Row w ts forwarding w.to_start (end_of w ts forwarding) copies
    pub extends : (p q : ℕ) → f p ≡ some q → forwarding p ≡ some q

  round_size : (p s : ℕ) → IsObject p s w.from_start ts → round_up (8 * s) ≡ 8 * s
  unfolding round_up
  round_size p s o = omega (arith, heap.rounds_up p s o)

  -- With a unit of fuel for every two words left, the scan ends with every copy done.
  pub scan_to-Finished :
      (fuel : ℕ) (ss : List ℕ) (f : Forwarding) (m : Memory) (cur : ℕ) (pre cs : List (ℕ × ℕ))
      → w.to_end < cur + 16 * fuel
      → Inv w ts f cur m
      → Row w ts f w.to_start cur pre
      → Row w ts f cur (end_of w ts f) cs
      → Returns (Finished ss f) (scan_to fuel cur (during w ts ss f m))
  unfolding scan_to
  scan_to-Finished zero ss f m cur pre cs enough inv before row =
      absurd (omega (arith, Row-le w ts f cur (end_of w ts f) cs row, end_of-le w ts heap f))
  scan_to-Finished (suc fuel) ss f m cur pre [] enough inv before row = (
    during w ts ss f m,
    rw (ltb-false cur (end_of w ts f) (omega arith), scan_to),
    record {
      forwarding = f;
      memory = m;
      copies = pre;
      result = refl;
      inv = rw row at inv;
      row = rw row at before;
      extends = λ p q h. h;
    },
  )
  scan_to-Finished (suc fuel) ss f m cur pre ((p, s) ∷ cs) enough inv before row =
      let b = object_place w ts heap p s row.0 in
      let le = Row-le w ts f (cur + 8 * s) (end_of w ts f) cs row.2 in
      let st = scan-Stage ss f cur m inv p s row.0 row.1 (cur + 8 * s) cs row.2 in
      let z = size_after ss f cur m inv p s row.0 row.1 (cur + 8 * s) cs row.2 st in
      let (out, ran, fin) =
        scan_to-Finished fuel ss st.forwarding st.memory (cur + 8 * s) (pre ++ (p, s) ∷ [])
          st.copies (omega arith) st.inv
          (Row-extends w ts f st.forwarding w.to_start (cur + 8 * s) (pre ++ (p, s) ∷ []) st.extends
            (Row-snoc w ts f p s w.to_start cur pre before row.0 row.1))
          st.row in
      (
        out,
        rw (ltb-true cur (end_of w ts f) (omega arith), st.result, z, round_size p s row.0, scan_to)
            ran,
        record {
          forwarding = fin.forwarding;
          memory = fin.memory;
          copies = fin.copies;
          result = fin.result;
          inv = fin.inv;
          row = fin.row;
          extends = λ p' q' h. fin.extends p' q' (st.extends p' q' h);
        },
      )
