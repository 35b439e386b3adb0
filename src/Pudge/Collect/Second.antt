-- ===== src/Pudge/Collect/Second.antt =====
-- The second pass: every word of every copy is forwarded.
use pudge_with_mo_ml.Forwarding.{Forwarding, forward, forward_self}
use pudge_with_mo_ml.Base.{
  ℕ, zero, suc, ◌+◌, ◌-◌, ◌*◌, ◌<◌, ◌≡◌, refl, inl, inr, true, false, List, [], ◌∷◌, ◌++◌, none,
  some, arith, Bool-cases, ltb-true, ltb-false, ◌==◌, Option-cases, Returns,
}
use mathlib.Core.Path.{fun_ext}
use pudge_with_mo_ml.Memory.{Memory, store}
use pudge_with_mo_ml.Pudge.{Runtime}
use pudge_with_mo_ml.Pudge.Collect.{
  moved, is_reference, copy_field, visit_reference, visit_field, scan_fields, scan_copied,
}
use pudge_with_mo_ml.Pudge.Heap.{IsObject, object_bounds, IsHeap, Reachable, from_object}
use pudge_with_mo_ml.Pudge.Collect.Copied.{copied, copied-store}
use pudge_with_mo_ml.Pudge.Collect.Invariant.{Inv, copied-Inv, room, sep}
use pudge_with_mo_ml.Pudge.Collect.Advance.{off-le, header-Inv, word_here, store-Inv}
use pudge_with_mo_ml.Pudge.Collect.Stage.{
  during, words_of, count_of, Row, Stage, forward-extends, Row-forward, Row-le, Row-extends,
  Row-snoc, words_of-forward, count_of-forward,
}

module _ (w : Runtime) (ts : List ℕ) (heap : IsHeap w ts) (ss gs : List ℕ) where
  -- One word, `k` of the copy of the object `p`.
  module _ (f : Forwarding) (m : Memory) (d : ℕ) (inv : Inv w ts f d (words_of w ts f) m)
      (p s q k : ℕ) (o : IsObject p s w.new_space ts) (e : f p ≡ some q) (lt : k < s)
      (here : q + 8 * k ≡ w.old_space + 8 * d) (tail : ℕ) (cs : List (ℕ × ℕ))
      (row : Row w ts f tail (words_of w ts f) cs) where
    abbrev off : ℕ
    off = words_of w ts f

    abbrev now : Runtime
    now = during w m (count_of w ts f) ss gs

    abbrev v : ℕ
    v = w.mem (p + 8 * k)

    read : m (w.old_space + 8 * d) ≡ v
    read = word_here w ts heap f d off m inv p s q k o e lt here

    d-lt : d < off
    d-lt = let c = inv.place p s q o e in omega (arith, c.1, c.2)

    store_same : store m (w.old_space + 8 * d) v ≡ m
    store_same = fun_ext λ b. ground (arith, read)

    plain_word : is_reference v w ≡ false → Stage w ts ss gs f (d + 1) tail (visit_field d off now)
    unfolding visit_field is_reference
    plain_word h = record {
      forwarding = f;
      memory = m;
      copies = cs;
      result = rw (read, h);
      inv =
          rw store_same at
            (store-Inv w ts heap f d off m inv p s q k o e lt here v ((λ h'. cc), (λ _. refl)));
      row = row;
      extends = λ p' q' h'. h';
    }

    -- the word points to an object that has a copy already
    moved_word :
        (t q' : ℕ)
        → IsObject v t w.new_space ts
        → f v ≡ some q'
        → is_reference v w ≡ true
        → Stage w ts ss gs f (d + 1) tail (visit_reference d v off now)
    unfolding visit_reference
    moved_word t q' ov fv h =
        let g = inv.gone v t q' ov fv in
        record {
          forwarding = f;
          memory = store m (w.old_space + 8 * d) q';
          copies = cs;
          result = rw (g.0, g.1);
          inv = store-Inv w ts heap f d off m inv p s q k o e lt here q' ((λ h'. fv), (λ h'. cc));
          row = row;
          extends = λ p' q'' h'. h';
        }

    reached_word : is_reference v w ≡ true → Reachable w ts v
    reached_word h = from_object p s k (inv.reached p q e) o lt h

    abbrev fresh : ℕ
    fresh = w.old_space + 8 * (off + 1)

    -- it points to one that has none
    module _ (t : ℕ) (ov : IsObject v t w.new_space ts) (fv : f v ≡ none)
        (h : is_reference v w ≡ true) where
      abbrev f' : Forwarding
      f' = forward f v fresh

      keeps : (p' q' : ℕ) → f p' ≡ some q' → f' p' ≡ some q'
      keeps = forward-extends w ts f v fresh fv

      fresh-Inv : Inv w ts f' d (off + 1 + t) (copied v t fresh m)
      fresh-Inv =
          copied-Inv w ts heap f d off v t m inv ov fv (reached_word h) (omega (arith, d-lt))

      stored-Inv :
          Inv w ts f' (d + 1) (off + 1 + t) (store (copied v t fresh m) (w.old_space + 8 * d) fresh)
      stored-Inv =
          store-Inv w ts heap f' d (off + 1 + t) (copied v t fresh m) fresh-Inv p s q k o
            (keeps p q e) lt here fresh ((λ h'. forward_self f v fresh), (λ h'. cc))

      not_moved : (t == moved) ≡ false
      not_moved =
          let b = object_bounds v t w.new_space ts ov in
          ground (arith, heap.filled, heap.within, heap.small)

      copy_mem :
          copy_field d v t off now
          ≡ during w
              (store (copied v t fresh m) (w.old_space + 8 * d) fresh)
              (count_of w ts f')
              ss
              gs
      unfolding copy_field
      copy_mem =
          let b = object_bounds v t w.new_space ts ov in
          let r = room w ts heap f d off v t m inv ov fv (reached_word h) (omega (arith, d-lt)) in
          let e₀ : w.old_space + 8 * off ≡ fresh - 8 = omega arith in
          rw (
            e₀,
            copied-store v t fresh m
                (sep w ts heap f d off v t m inv ov fv (reached_word h) (omega (arith, d-lt)))
                (w.old_space + 8 * d) fresh (omega (arith, d-lt))
                (omega (arith, d-lt, heap.filled, heap.within, heap.disjoint)),
            count_of-forward w ts heap f v t fresh ov fv,
          )

      copied_word : Stage w ts ss gs f (d + 1) tail (visit_reference d v off now)
      unfolding visit_reference
      copied_word = record {
        forwarding = f';
        memory = store (copied v t fresh m) (w.old_space + 8 * d) fresh;
        copies = cs ++ (v, t) ∷ [];
        result =
            rw
              (inv.waiting v t ov fv, not_moved, copy_mem, words_of-forward w ts f v t fresh ov fv);
        inv = rw (words_of-forward w ts f v t fresh ov fv) stored-Inv;
        row =
            rw (words_of-forward w ts f v t fresh ov fv)
              (Row-forward w ts f v t tail off cs ov fv row);
        extends = keeps;
      }

    visit-reference : is_reference v w ≡ true → visit_field d off now ≡ visit_reference d v off now
    unfolding visit_field is_reference
    visit-reference h = rw (read, h)

    reference_word :
        is_reference v w ≡ true → Stage w ts ss gs f (d + 1) tail (visit_field d off now)
    reference_word h =
        let (t, ov) = heap.references p s k o lt h in
        rw (visit-reference h) (elim (Option-cases (f v)) [
          | inl fv ↦ copied_word t ov fv h
          | inr (q', fv) ↦ moved_word t q' ov fv h
        ])

    visit-Stage : Stage w ts ss gs f (d + 1) tail (visit_field d off now)
    visit-Stage = elim (Bool-cases (is_reference v w)) [
      | inl h ↦ reference_word h
      | inr h ↦ plain_word h
    ]

  -- The words of one copy, from word `k` on.
  scan_fields-Stage :
      (n : ℕ) (f : Forwarding) (m : Memory) (d : ℕ)
      → Inv w ts f d (words_of w ts f) m
      → (p s q k : ℕ) → IsObject p s w.new_space ts
      → f p ≡ some q
      → k + n ≡ s
      → q + 8 * k ≡ w.old_space + 8 * d
      → (tail : ℕ) (cs : List (ℕ × ℕ)) → Row w ts f tail (words_of w ts f) cs
      → Stage w ts ss gs f
          (d + n)
          tail
          (scan_fields n d (words_of w ts f) (during w m (count_of w ts f) ss gs))
  unfolding scan_fields
  scan_fields-Stage zero f m d inv p s q k o e sum here tail cs row = record {
    forwarding = f;
    memory = m;
    copies = cs;
    result = refl;
    inv = let e₀ : d ≡ d + 0 = omega arith in rw e₀ at inv;
    row = row;
    extends = λ p' q' h. h;
  }
  scan_fields-Stage (suc n) f m d inv p s q k o e sum here tail cs row =
      let one = visit-Stage f m d inv p s q k o e (omega arith) here tail cs row in
      let more =
        scan_fields-Stage n one.forwarding one.memory (d + 1) one.inv p s q (k + 1) o
          (one.extends p q e) (omega arith) (omega arith) tail one.copies one.row in
      let e₀ : d + 1 + n ≡ d + suc n = omega arith in
      record {
        forwarding = more.forwarding;
        memory = more.memory;
        copies = more.copies;
        result = rw one.result more.result;
        inv = rw e₀ at more.inv;
        row = more.row;
        extends = λ p' q' h. more.extends p' q' (one.extends p' q' h);
      }

  -- What the second pass leaves: all words of all copies are done.
  pub record Finished (f : Forwarding) (out : ℕ × Runtime) : Type 0 where
    pub forwarding : Forwarding
    pub memory : Memory
    pub result : out ≡ (words_of w ts forwarding, during w memory (count_of w ts forwarding) ss gs)
    pub inv : Inv w ts forwarding (words_of w ts forwarding) (words_of w ts forwarding) memory
    pub extends : (p q : ℕ) → f p ≡ some q → forwarding p ≡ some q
    pub copies : List (ℕ × ℕ)
    pub row : Row w ts forwarding 0 (words_of w ts forwarding) copies

  -- With enough fuel the second pass ends, with every word of every copy forwarded.
  pub scan_copied-Finished :
      (fuel : ℕ) (f : Forwarding) (m : Memory) (cur : ℕ) (pre cs : List (ℕ × ℕ))
      → w.alloc_offset < fuel + cur
      → Inv w ts f cur (words_of w ts f) m
      → Row w ts f 0 cur pre
      → Row w ts f cur (words_of w ts f) cs
      → Returns
          (Finished f)
          (scan_copied fuel cur (words_of w ts f) (during w m (count_of w ts f) ss gs))
  unfolding scan_copied
  scan_copied-Finished zero f m cur pre cs enough inv before row =
      let b = Row-le w ts f cur (words_of w ts f) cs row in
      absurd (omega (arith, off-le w ts heap f cur (words_of w ts f) m inv))
  scan_copied-Finished (suc fuel) f m cur pre [] enough inv before row = (
    (words_of w ts f, during w m (count_of w ts f) ss gs),
    rw (ltb-false cur (words_of w ts f) (omega arith), scan_copied),
    record {
      forwarding = f;
      memory = m;
      result = refl;
      inv = rw row at inv;
      extends = λ p q h. h;
      copies = pre;
      row = rw row at before;
    },
  )
  scan_copied-Finished (suc fuel) f m cur pre ((p, s) ∷ cs) enough inv before row =
      let q : ℕ = w.old_space + 8 * (cur + 1) in
      let one =
        scan_fields-Stage s f m (cur + 1)
          (header-Inv w ts heap f cur (words_of w ts f) m inv p s row.0 row.1) p s q 0 row.0 row.1
          (omega arith) (omega arith) (cur + 1 + s) cs row.2 in
      let (out, ran, fin) =
        scan_copied-Finished fuel one.forwarding one.memory (cur + 1 + s) (pre ++ (p, s) ∷ [])
          one.copies (omega arith) one.inv
          (Row-extends w ts f one.forwarding 0 (cur + 1 + s) (pre ++ (p, s) ∷ []) one.extends
            (Row-snoc w ts f p s 0 cur pre before row.0 row.1))
          one.row in
      let e₀ : q - 8 ≡ w.old_space + 8 * cur = omega arith in
      let size : m (w.old_space + 8 * cur) ≡ s = rw e₀ at (inv.header p s q row.0 row.1) in
      let b = Row-le w ts f (cur + 1 + s) (words_of w ts f) cs row.2 in
      (
        out,
        rw (ltb-true cur (words_of w ts f) (omega arith), size, one.result, scan_copied) ran,
        record {
          forwarding = fin.forwarding;
          memory = fin.memory;
          result = fin.result;
          inv = fin.inv;
          extends = λ p' q' h. fin.extends p' q' (one.extends p' q' h);
          copies = fin.copies;
          row = fin.row;
        },
      )
