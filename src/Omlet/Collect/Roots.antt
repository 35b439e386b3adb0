-- ===== src/Omlet/Collect/Roots.antt =====
-- The loop over the words of the stack in OMLet/lib/gc.c where no object is pointed to twice.
use pudge_with_mo_ml.Base.{
  ok, ℕ, ◌+◌, ◌-◌, ◌*◌, ◌≤◌, ◌<◌, ◌≡◌, refl, ◌∙◌, ap, ◌⊎◌, inl, inr, true, false, List, [], ◌∷◌,
  arith, Returns, Returns-bind,
}
use pudge_with_mo_ml.Memory.{Memory}
use pudge_with_mo_ml.Omlet.{Runtime}
use pudge_with_mo_ml.Omlet.Header.{get_size}
use pudge_with_mo_ml.Omlet.Collect.{copy_object, find_fresh, update_pointers, mark_and_copy}
use pudge_with_mo_ml.Omlet.Collect.Forest.{
  Forest, nil, word, object, bytes, Node, RootsLead, Marked, Distinct, RootsCopied,
}
use pudge_with_mo_ml.Omlet.Collect.Walk.{
  Copies-kept, RootsCopied-kept, RootsLead-Marked, RootsLead-moved,
}
use pudge_with_mo_ml.Omlet.Collect.Copy.{
  base, room, lo, hi, at, word_stays, object_fresh, Moved, copy_object-Moved, Kind, Stepped, step,
  at_same,
}
use pudge_with_mo_ml.Omlet.Collect.Fields.{update_pointers-Done}

module _ (w : Runtime) (disjoint : (base w + room w ≤ lo w) ⊎ (hi w ≤ base w)) where
  -- The same for the words of the stack.
  pub record RootsDone (n : ℕ) (m : Memory) (ts : Forest) (r : List ℕ × Runtime) : Type 0 where
    pub memory : Memory
    pub state : r.1 ≡ at w (n + bytes ts) memory
    pub copies : RootsCopied (base w + n) (base w + (n + bytes ts)) memory r.0 ts
    pub same :
        (b : ℕ)
        → (Marked ts b → ⊥)
        → (b < base w + n) ⊎ (base w + (n + bytes ts) ≤ b)
        → memory b ≡ m b

  module _ (fuel p h : ℕ) (gs ts : Forest) (vs : List ℕ) (n : ℕ) (m : Memory)
      (d : Node (lo w) (hi w) m p h gs) (kind : Kind w disjoint m p h gs)
      (rest : RootsLead (lo w) (hi w) m vs ts) (dis : Distinct (object p h gs ts))
      (fits : n + bytes (object p h gs ts) ≤ room w)
      (enough : bytes (object p h gs ts) < 8 * fuel + 8) where
    module _ (r : ℕ × Runtime) (c : Moved w disjoint p h n m r) (w₁ : Runtime)
        (s : Stepped w disjoint p h gs n c.memory w₁) where
      next-RootsLead : RootsLead (lo w) (hi w) s.memory vs ts
      next-RootsLead =
          RootsLead-moved (lo w) (hi w) (λ b. (b ≡ p - 8) ⊎ Marked gs b) m s.memory
            (λ b l g nb.
              s.same b (λ x. nb (inr x)) (omega (arith, disjoint))
              ∙ c.same b (λ x. nb (inl x)) (omega (arith, disjoint)))
            vs ts dis.1 rest

      root-RootsDone :
          (z : List ℕ × Runtime)
          → RootsDone ((n + (8 + 8 * get_size h)) + bytes gs) s.memory ts z
          → RootsDone n m (object p h gs ts) ((base w + n + 8) ∷ z.0, z.1)
      root-RootsDone z t = record {
        memory = t.memory;
        state = t.state ∙ ap (λ k. at w k t.memory) (omega arith);
        copies = (
          (
            omega arith,
            omega (arith, d.full),
            ap t.memory (let e : base w + n + 8 - 8 ≡ base w + n = omega arith in e)
                ∙ kept (base w + n) (omega arith) (omega arith)
                ∙ s.header,
            d.full,
          ),
          Copies-kept (base w + (n + (8 + 8 * get_size h)))
              (base w + ((n + (8 + 8 * get_size h)) + bytes gs)) s.memory t.memory
              (λ b l g. kept b (omega arith) g) (base w + n)
              (base w + (n + bytes (object p h gs ts))) (omega arith) (omega arith) gs
              (base w + n + 8)
              (λ k lt. kept (base w + n + 8 + 8 * k) (omega arith) (omega (arith, d.full)))
              s.copies,
          RootsCopied-kept (base w + ((n + (8 + 8 * get_size h)) + bytes gs))
              (base w + ((n + (8 + 8 * get_size h)) + bytes gs + bytes ts)) t.memory t.memory
              (λ b l g. refl) (base w + n) (base w + (n + bytes (object p h gs ts))) (omega arith)
              (omega arith) z.0 ts t.copies,
        );
        same = λ b nb beyond.
            t.same b (λ x. nb (inr (inr x))) (omega arith)
            ∙ s.same b (λ x. nb (inr (inl x))) (omega arith)
            ∙ c.same b (λ x. nb (inl x)) (omega arith);
      }
        where
          kept :
              (b : ℕ)
              → base w + n ≤ b
              → b < base w + ((n + (8 + 8 * get_size h)) + bytes gs)
              → t.memory b ≡ s.memory b
          kept b l g =
              t.same b
                (λ x.
                  absurd (omega (arith, RootsLead-Marked (lo w) (hi w) m vs ts b rest x, disjoint)))
                (inl g)

  pub roots :
      (fuel : ℕ) (ts : Forest) (vs : List ℕ) (n : ℕ) (m : Memory)
      → RootsLead (lo w) (hi w) m vs ts
      → Distinct ts
      → n + bytes ts ≤ room w
      → bytes ts < 8 * fuel + 8
      → Returns (RootsDone n m ts) (mark_and_copy fuel vs (at w n m))
  unfolding mark_and_copy
  roots fuel nil [] n m l dis fits enough = (
    ([], at w n m),
    refl,
    record { memory = m; state = at_same w disjoint n m; copies = tt; same = λ b nb beyond. refl },
  )
  roots fuel nil (v ∷ vs) n m l dis fits enough = absurd l
  roots fuel (word x ts) [] n m l dis fits enough = absurd l
  roots fuel (object p h gs ts) [] n m l dis fits enough = absurd l
  roots fuel (word x ts) (v ∷ vs) n m l dis fits enough =
      let e : find_fresh v (at w n m) ≡ ok false = rw l.0 (word_stays w x n m l.1) in
      let (z, ran, t) = roots fuel ts vs n m l.2 dis fits enough in
      (
        (v ∷ z.0, z.1),
        rw (mark_and_copy, e, ran) refl,
        record { memory = t.memory; state = t.state; copies = (l.0, t.copies); same = t.same },
      )
  roots fuel (object p h gs ts) (v ∷ vs) n m (here, d, kind, rest) dis fits enough =
      let e : find_fresh v (at w n m) ≡ ok true = rw here (object_fresh w p h n m gs d) in
      rw (mark_and_copy, e, here)
        (Returns-bind (Moved w disjoint p h n m) (RootsDone n m (object p h gs ts))
          (copy_object p (at w n m)) _ (copy_object-Moved w disjoint p h n m gs d (omega arith))
          (λ r c.
            let go =
              step w disjoint fuel (update_pointers fuel) (update_pointers-Done w disjoint fuel) p h
                n m gs d kind dis.0 dis.2 (omega arith) (omega arith) r c c.memory (λ b l g. refl)
                (λ b l g. refl) in
            rw (c.address, c.state)
              (Returns-bind (Stepped w disjoint p h gs n c.memory)
                (RootsDone n m (object p h gs ts)) _ _ go
                (λ w₁ s.
                  let (z, ran, t) =
                    roots fuel ts vs (n + (8 + 8 * get_size h) + bytes gs) s.memory
                      (next-RootsLead fuel p h gs ts vs n m d kind rest dis fits enough r c w₁ s)
                      dis.3 (omega arith) (omega arith) in
                  (
                    ((base w + n + 8) ∷ z.0, z.1),
                    rw (s.state, ran) refl,
                    root-RootsDone fuel p h gs ts vs n m d kind rest dis fits enough r c w₁ s z t,
                  )))))
