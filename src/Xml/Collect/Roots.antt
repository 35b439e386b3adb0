-- ===== src/Xml/Collect/Roots.antt =====
-- The pass of `gc_collect` in XML/bin/runtime.c over the stack.
use pudge_with_mo_ml.Base.{
  ℕ, ◌%◌, ◌≡◌, sym, refl, ◌⊎◌, inl, inr, true, false, List, [], ◌∷◌, none, some, arith, ltb-true,
  leb-true, ◌==◌, if◌then◌else◌, Bool-cases, Option-cases, ok, Returns,
}
use pudge_with_mo_ml.Memory.{Memory, holds}
use pudge_with_mo_ml.Forwarding.{Forwarding, forwarded, forwarded_all}
use pudge_with_mo_ml.Xml.{Runtime, in_from}
use pudge_with_mo_ml.Xml.Value.{is_int, is_ptr}
use pudge_with_mo_ml.Xml.Heap.{IsObject, IsHeap, from_stack, points}
use pudge_with_mo_ml.Xml.Collect.{forward_obj, scan_stack}
use pudge_with_mo_ml.Xml.Collect.Invariant.{Inv, end_of, object_place}
use pudge_with_mo_ml.Xml.Collect.Step.{during, Row, Forwards, forward_obj-Forwards}

module _ (w : Runtime) (ts : List ℕ) (heap : IsHeap w ts) where
  pub object_points : (p s : ℕ) → IsObject p s w.from_start ts → points p w ≡ true
  unfolding points is_ptr is_int in_from
  object_points p s o =
      let b = object_place w ts heap p s o in
      let odd : (p % 2 == 1) ≡ false = ground (arith, b.3) in
      let null : (p == 0) ≡ false = ground (arith, heap.nonzero) in
      rw (odd, null, leb-true w.from_start p b.0, ltb-true p w.from_end (omega arith))

  -- A word that points nowhere is not forwarded.
  pub not_forwarded :
      (f : Forwarding) (d : ℕ) (m : Memory)
      → Inv w ts f d m
      → (v : ℕ) → points v w ≡ false
      → f v ≡ none
  not_forwarded f d m inv v h = elim (Option-cases (f v)) [
    | inl e ↦ e
    | inr (q, e) ↦ let (s, o) = inv.origin v q e in absurd (ground (arith, object_points v s o))
  ]

  -- A word that has followed its object keeps doing so.
  pub forwarded-extends :
      (f g : Forwarding) (d d' : ℕ) (m m' : Memory)
      → Inv w ts f d m
      → Inv w ts g d' m'
      → ((p q : ℕ) → f p ≡ some q → g p ≡ some q)
      → (v : ℕ) → (points v w ≡ true → (q : ℕ) × (f v ≡ some q))
      → forwarded f v ≡ forwarded g v
  forwarded-extends f g d d' m m' inv inv' ext v h = elim (Bool-cases (points v w)) [
    | inl a ↦ let (q, e) = h a in rw (e, ext v q e, forwarded)
    | inr a ↦ rw (not_forwarded f d m inv v a, not_forwarded g d' m' inv' v a, forwarded)
  ]

  -- What the pass over the words `vs` leaves that started with the forwarding `f`.
  pub record Rooted (f : Forwarding) (vs : List ℕ) (out : List ℕ × Runtime) : Type 0 where
    pub forwarding : Forwarding
    pub memory : Memory
    pub copies : List (ℕ × ℕ)
    pub result : out ≡ (forwarded_all forwarding vs, during w ts w.stack forwarding memory)
    pub inv : Inv w ts forwarding w.to_start memory
    pub row : Row w ts forwarding w.to_start (end_of w ts forwarding) copies
    pub extends : (p q : ℕ) → f p ≡ some q → forwarding p ≡ some q
    pub followed :
        (v : ℕ) → holds v vs ≡ true → points v w ≡ true → (q : ℕ) × (forwarding v ≡ some q)

  module _ (f : Forwarding) (m : Memory) (inv : Inv w ts f w.to_start m) (cs : List (ℕ × ℕ))
      (row : Row w ts f w.to_start (end_of w ts f) cs) (v : ℕ) (root : holds v w.stack ≡ true) where
    abbrev now : Runtime
    now = during w ts w.stack f m

    -- One root.
    root_step :
        points v w ≡ true → Forwards w ts w.stack f w.to_start w.to_start v (forward_obj v now)
    root_step h =
        let (t, o) = heap.roots v root h in
        forward_obj-Forwards w ts heap w.stack f w.to_start m inv v t o (from_stack v root h)
          (omega arith) w.to_start cs row

    -- The word itself, and then the others.
    scan-cons :
        (vs : List ℕ) (a : ℕ) (w₁ : Runtime) (out : List ℕ × Runtime)
        → (if points v w then forward_obj v now else ok (v, now)) ≡ ok (a, w₁)
        → scan_stack vs w₁ ≡ ok out
        → scan_stack (v ∷ vs) now ≡ ok (a ∷ out.0, out.1)
    unfolding scan_stack points in_from
    scan-cons vs a w₁ out h ran = rw (h, ran)

  cons-result :
      (a b : ℕ) (out : List ℕ × Runtime) (xs : List ℕ) (w₁ : Runtime)
      → out ≡ (xs, w₁)
      → a ≡ b
      → ◌≡◌ {A = List ℕ × Runtime} (a ∷ out.0, out.1) (b ∷ xs, w₁)
  cons-result a b out xs w₁ h e = rw (h, e)

  holds-cons : (x v : ℕ) (vs : List ℕ) → holds x (v ∷ vs) ≡ true → (v ≡ x) ⊎ (holds x vs ≡ true)
  unfolding holds
  holds-cons x v vs h = ground arith

  holds_first : (v : ℕ) (vs : List ℕ) → holds v (v ∷ vs) ≡ true
  unfolding holds
  holds_first v vs = ground arith

  holds_rest : (x v : ℕ) (vs : List ℕ) → holds x vs ≡ true → holds x (v ∷ vs) ≡ true
  unfolding holds
  holds_rest x v vs h = ground arith

  forwarded-some : (f : Forwarding) (v q : ℕ) → f v ≡ some q → q ≡ forwarded f v
  forwarded-some f v q e = rw (e, forwarded)

  forwarded-none : (f : Forwarding) (v : ℕ) → f v ≡ none → v ≡ forwarded f v
  forwarded-none f v e = rw (e, forwarded)

  -- A word is put before those that are done.
  cons-Rooted :
      (f g : Forwarding) (v : ℕ) (vs : List ℕ) (out : List ℕ × Runtime) (a : ℕ)
      → ((p q : ℕ) → f p ≡ some q → g p ≡ some q)
      → (r : Rooted g vs out) → a ≡ forwarded r.forwarding v
      → (points v w ≡ true → (q : ℕ) × (r.forwarding v ≡ some q))
      → Rooted f (v ∷ vs) (a ∷ out.0, out.1)
  cons-Rooted f g v vs out a ext r e here = record {
    forwarding = r.forwarding;
    memory = r.memory;
    copies = r.copies;
    result =
        cons-result a (forwarded r.forwarding v) out (forwarded_all r.forwarding vs)
          (during w ts w.stack r.forwarding r.memory) r.result e;
    inv = r.inv;
    row = r.row;
    extends = λ p q k. r.extends p q (ext p q k);
    followed = λ x h k. elim (holds-cons x v vs h) [
      | inl z ↦ rw z at (here (rw (sym z) at k))
      | inr z ↦ r.followed x z k
    ];
  }

  pub scan_stack-Rooted :
      (vs : List ℕ) (f : Forwarding) (m : Memory) (cs : List (ℕ × ℕ))
      → Inv w ts f w.to_start m
      → Row w ts f w.to_start (end_of w ts f) cs
      → ((v : ℕ) → holds v vs ≡ true → holds v w.stack ≡ true)
      → Returns (Rooted f vs) (scan_stack vs (during w ts w.stack f m))
  unfolding scan_stack
  scan_stack-Rooted [] f m cs inv row sub = (
    ([], during w ts w.stack f m),
    refl,
    record {
      forwarding = f;
      memory = m;
      copies = cs;
      result = refl;
      inv = inv;
      row = row;
      extends = λ p q h. h;
      followed = λ v h. absurd (unfold holds in cc);
    },
  )
  scan_stack-Rooted (v ∷ vs) f m cs inv row sub =
      let root = sub v (holds_first v vs) in
      let sub' : (x : ℕ) → holds x vs ≡ true → holds x w.stack ≡ true =
        λ x h. sub x (holds_rest x v vs h) in
      elim (Bool-cases (points v w)) [
        | inl h ↦
            let g = root_step f m inv cs row v root h in
            let (out, ran, r) =
              scan_stack-Rooted vs g.forwarding g.memory g.copies g.inv g.row sub' in
            let e = r.extends v g.address g.target in
            (
              (g.address ∷ out.0, out.1),
              scan-cons f m inv cs row v root vs g.address
                  (during w ts w.stack g.forwarding g.memory) out (rw (h, g.result)) ran,
              cons-Rooted f g.forwarding v vs out g.address g.extends r
                  (forwarded-some r.forwarding v g.address e) (λ h'. (g.address, e)),
            )
        | inr h ↦
            let (out, ran, r) = scan_stack-Rooted vs f m cs inv row sub' in
            let e = not_forwarded r.forwarding w.to_start r.memory r.inv v h in
            (
              (v ∷ out.0, out.1),
              scan-cons f m inv cs row v root vs v (during w ts w.stack f m) out (rw h) ran,
              cons-Rooted f f v vs out v (λ p q k. k) r (forwarded-none r.forwarding v e)
                  (λ h'. absurd (cc)),
            )
      ]
