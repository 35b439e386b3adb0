-- ===== src/Omlet/Collect/Fields.antt =====
-- The loop over the words of a copy in OMLet/lib/gc.c where no object is pointed to twice.
use pudge_with_mo_ml.Base.{
  ok, ℕ, zero, suc, ◌+◌, ◌-◌, ◌*◌, ◌≤◌, ◌<◌, ◌≡◌, refl, ◌∙◌, sym, ap, ◌⊎◌, inl, inr, true, false,
  arith, ◌==◌, Outcome, Returns, Returns-bind,
}
use pudge_with_mo_ml.Memory.{Memory, store}
use pudge_with_mo_ml.Memory.Copy.{store_self, store_ne}
use pudge_with_mo_ml.Omlet.{Runtime}
use pudge_with_mo_ml.Omlet.Header.{get_tag, get_size, t_closure}
use pudge_with_mo_ml.Omlet.Collect.{copy_object, find_fresh, update_fields, update_pointers}
use pudge_with_mo_ml.Omlet.Collect.Forest.{
  Forest, nil, word, object, count, bytes, Node, Leads, Marked, Distinct,
}
use pudge_with_mo_ml.Omlet.Collect.Walk.{
  Copies-kept, Leads-Marked, Leads-moved, Raw-Copies, Raw-bytes, Raw-unmarked,
}
use pudge_with_mo_ml.Omlet.Collect.Copy.{
  base, room, lo, hi, at, word_stays, object_fresh, Moved, copy_object-Moved, Done, Kind, Updates,
  Stepped, step, at_same,
}

module _ (w : Runtime) (disjoint : (base w + room w ≤ lo w) ⊎ (hi w ≤ base w)) where
  module _ (fuel : ℕ) (update : ℕ → Runtime → Outcome Runtime)
      (u : Updates w disjoint fuel update) where
    abbrev Fields : Forest → Type 0
    Fields fs =
        (a n : ℕ) (m : Memory)
        → Leads (lo w) (hi w) m a fs
        → Distinct fs
        → base w ≤ a
        → a + 8 * count fs ≤ base w + n
        → n + bytes fs ≤ room w
        → bytes fs < 8 * fuel + 8
        → Returns (Done w disjoint n m a fs) (update_fields update (count fs) a (at w n m))

    word-Done :
        (x : ℕ) (ts : Forest) (a n : ℕ) (m : Memory)
        → m a ≡ x
        → (Marked ts a → ⊥)
        → a < base w + n
        → (w' : Runtime) → Done w disjoint n m (a + 8) ts w'
        → Done w disjoint n m a (word x ts) w'
    word-Done x ts a n m e free lt w' c = record {
      memory = c.memory;
      state = c.state;
      copies = (c.same a free (inl (omega arith)) (inl lt) ∙ e, c.copies);
      same = λ b nb out front. c.same b nb (omega arith) front;
    }

    module _ (p h : ℕ) (gs ts : Forest) (a n : ℕ) (m : Memory) (d : Node (lo w) (hi w) m p h gs)
        (ge : base w ≤ a) (slots : a + 8 * suc (count ts) ≤ base w + n)
        (fits : n + bytes (object p h gs ts) ≤ room w) (r : ℕ × Runtime)
        (c : Moved w disjoint p h n m r) where
      abbrev front : ℕ
      front = n + (8 + 8 * get_size h)

      abbrev stored : Memory
      stored = store c.memory a (base w + n + 8)

      module _ (w₁ : Runtime) (s : Stepped w disjoint p h gs n stored w₁) where
        after_old :
            (b : ℕ) → lo w ≤ b → b < hi w → ((b ≡ p - 8) ⊎ Marked gs b → ⊥) → s.memory b ≡ m b
        after_old b l u free =
            s.same b (λ x. free (inr x)) (omega arith)
            ∙ store_ne c.memory a (base w + n + 8) b (omega arith)
            ∙ c.same b (λ x. free (inl x)) (omega arith)

        object-Done :
            (s.memory a ≡ base w + n + 8)
            → (Marked ts a → ⊥)
            → ((b : ℕ) → base w ≤ b → b < base w + room w → Marked ts b → ⊥)
            → (w' : Runtime) → Done w disjoint (front + bytes gs) s.memory (a + 8) ts w'
            → Done w disjoint n m a (object p h gs ts) w'
        object-Done e free outside w' t = record {
          memory = t.memory;
          state = t.state ∙ ap (λ k. at w k t.memory) (omega arith);
          copies =
              let e₁ : t.memory a ≡ base w + n + 8 =
                t.same a free (inl (omega arith)) (inl (omega arith)) ∙ e in
              rw e₁ (
                (
                  omega arith,
                  omega (arith, d.full),
                  ap t.memory (let z : base w + n + 8 - 8 ≡ base w + n = omega arith in z)
                      ∙ kept (base w + n) (omega arith) (omega arith)
                      ∙ s.header,
                  d.full,
                ),
                Copies-kept (base w + front) (base w + (front + bytes gs)) s.memory t.memory
                    (λ b l g. kept b (omega arith) g) (base w + n)
                    (base w + (n + bytes (object p h gs ts))) (omega arith) (omega arith) gs
                    (base w + n + 8)
                    (λ k lt. kept (base w + n + 8 + 8 * k) (omega arith) (omega (arith, d.full)))
                    s.copies,
                Copies-kept (base w + (front + bytes gs)) (base w + (front + bytes gs + bytes ts))
                    t.memory t.memory (λ b l g. refl) (base w + n)
                    (base w + (n + bytes (object p h gs ts))) (omega arith) (omega arith) ts (a + 8)
                    (λ k lt. refl) t.copies,
              );
          same = λ b nb out beyond.
              t.same b (λ x. nb (inr (inr x))) (omega arith) (omega arith)
              ∙ s.same b (λ x. nb (inr (inl x))) (omega arith)
              ∙ store_ne c.memory a (base w + n + 8) b (omega arith)
              ∙ c.same b (λ x. nb (inl x)) (omega arith);
        }
          where
            kept :
                (b : ℕ) → base w + n ≤ b → b < base w + (front + bytes gs) → t.memory b ≡ s.memory b
            kept b l g =
                t.same b (outside b (omega arith) (omega arith)) (inr (omega arith)) (inl g)

    in_use-unmarked :
        (m : Memory) (p h : ℕ) (gs : Forest) (b : ℕ)
        → Kind w disjoint m p h gs
        → base w ≤ b
        → b < base w + room w
        → Marked gs b
        → ⊥
    in_use-unmarked m p h gs b (inl (t, l)) ge lt x =
        absurd (omega (arith, Leads-Marked (lo w) (hi w) m p gs b l x, disjoint))
    in_use-unmarked m p h gs b (inr (t, l)) ge lt x = absurd (Raw-unmarked m p gs b l x)

    module _ (p h : ℕ) (gs ts : Forest) (a n : ℕ) (m : Memory) (d : Node (lo w) (hi w) m p h gs)
        (kind : Kind w disjoint m p h gs) (rest : Leads (lo w) (hi w) m (a + 8) ts)
        (dis : Distinct (object p h gs ts)) (ge : base w ≤ a)
        (slots : a + 8 * suc (count ts) ≤ base w + n) (fits : n + bytes (object p h gs ts) ≤ room w)
        (enough : bytes (object p h gs ts) < 8 * fuel + 8) where
      tail-unmarked : (b : ℕ) → base w ≤ b → b < base w + room w → Marked ts b → ⊥
      tail-unmarked b l g x =
          absurd (omega (arith, Leads-Marked (lo w) (hi w) m (a + 8) ts b rest x, disjoint))

      module _ (r : ℕ × Runtime) (c : Moved w disjoint p h n m r) (w₁ : Runtime)
          (s : Stepped w disjoint p h gs n (store c.memory a (base w + n + 8)) w₁) where
        slot_kept :
            (b : ℕ) → base w ≤ b → b < base w + n → s.memory b ≡ store c.memory a (base w + n + 8) b
        slot_kept b l g =
            s.same b (in_use-unmarked m p h gs b kind l (omega arith)) (inl (omega arith))

        slot_stored : s.memory a ≡ base w + n + 8
        slot_stored =
            slot_kept a (omega arith) (omega arith) ∙ store_self c.memory a (base w + n + 8)

        tail-Leads : Leads (lo w) (hi w) s.memory (a + 8) ts
        tail-Leads =
            Leads-moved (lo w) (hi w) (λ b. (b ≡ p - 8) ⊎ Marked gs b) m s.memory
              (after_old p h gs ts a n m d ge slots fits r c w₁ s) ts (a + 8) (a + 8) dis.1
              (λ k lt.
                slot_kept (a + 8 + 8 * k) (omega arith) (omega arith)
                ∙ store_ne c.memory a (base w + n + 8) (a + 8 + 8 * k) (omega arith)
                ∙ c.same (a + 8 + 8 * k) (omega (arith, d.low, d.inside, d.high, disjoint))
                    (inl (omega arith)))
              rest

      object_case :
          m a ≡ p
          → Fields ts
          → Returns
              (Done w disjoint n m a (object p h gs ts))
              (update_fields update (count (object p h gs ts)) a (at w n m))
      unfolding update_fields
      object_case here tail =
          let e : find_fresh (m a) (at w n m) ≡ ok true = rw here (object_fresh w p h n m gs d) in
          rw (update_fields, e, here)
            (Returns-bind (Moved w disjoint p h n m) (Done w disjoint n m a (object p h gs ts))
              (copy_object p (at w n m)) _ (copy_object-Moved w disjoint p h n m gs d (omega arith))
              (λ r c.
                let m₂ : Memory = store c.memory a (base w + n + 8) in
                let go =
                  step w disjoint fuel update u p h n m gs d kind dis.0 dis.2 (omega arith)
                    (omega arith) r c m₂
                    (λ b l g. store_ne c.memory a (base w + n + 8) b (omega arith))
                    (λ b l g. store_ne c.memory a (base w + n + 8) b (omega arith)) in
                rw (c.address, c.state)
                  (Returns-bind (Stepped w disjoint p h gs n m₂)
                    (Done w disjoint n m a (object p h gs ts)) _ _ go
                    (λ w₁ s.
                      let (w', ran, t) =
                        tail (a + 8) (n + (8 + 8 * get_size h) + bytes gs) s.memory
                          (tail-Leads r c w₁ s) dis.3 (omega arith) (omega arith) (omega arith)
                          (omega arith) in
                      (
                        w',
                        rw s.state ran,
                        object-Done p h gs ts a n m d ge slots fits r c w₁ s (slot_stored r c w₁ s)
                            (tail-unmarked a ge (omega arith)) tail-unmarked w' t,
                      )))))

    fields : (fs : Forest) → Fields fs
    unfolding update_fields
    fields nil a n m l dis ge slots fits enough = (
      at w n m,
      refl,
      record {
        memory = m;
        state = at_same w disjoint n m;
        copies = tt;
        same = λ b nb out beyond. refl;
      },
    )
    fields (word x ts) a n m l dis ge slots fits enough =
        let e : find_fresh (m a) (at w n m) ≡ ok false = rw l.0 (word_stays w x n m l.1) in
        let (w', ran, c) =
          fields ts (a + 8) n m l.2 dis (omega arith) (omega arith) (omega arith) (omega arith) in
        (
          w',
          rw (update_fields, e) ran,
          word-Done x ts a n m l.0
              (λ b.
                absurd (omega (arith, Leads-Marked (lo w) (hi w) m (a + 8) ts a l.2 b, disjoint)))
              (omega arith) w' c,
        )
    fields (object p h gs ts) a n m (here, d, kind, rest) dis ge slots fits enough =
        object_case p h gs ts a n m d kind rest dis ge slots fits enough here (fields ts)

  pub update_pointers-Done : (fuel : ℕ) → Updates w disjoint fuel (update_pointers fuel)
  unfolding update_pointers
  update_pointers-Done zero q h fs n m e c kind dis ge slots fits enough = absurd (omega arith)
  update_pointers-Done (suc fuel) q h fs n m e c (inl (t, l)) dis ge slots fits enough =
      let y : (get_tag (m (q - 8)) == t_closure) ≡ true = rw (e, t) refl in
      rw (update_pointers, y, e, sym c)
        (fields fuel (update_pointers fuel) (update_pointers-Done fuel) fs q n m l dis (omega arith)
          slots fits (omega arith))
  update_pointers-Done (suc fuel) q h fs n m e c (inr (t, r)) dis ge slots fits enough =
      let y : (get_tag (m (q - 8)) == t_closure) ≡ false = rw e (ground arith) in
      (
        at w n m,
        rw (update_pointers, y) refl,
        record {
          memory = m;
          state = at_same w disjoint n m ∙ ap (λ k. at w (n + k) m) (sym (Raw-bytes m q fs r));
          copies = Raw-Copies (base w + n) (base w + (n + bytes fs)) m q fs r;
          same = λ b nb out beyond. refl;
        },
      )
