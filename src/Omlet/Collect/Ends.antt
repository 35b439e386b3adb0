-- ===== src/Omlet/Collect/Ends.antt =====
-- How a collection of OMLet/lib/gc.c ends, whatever the words of the heaps and of the stack are.
use pudge_with_mo_ml.Base.{
  ℕ, zero, suc, ◌+◌, ◌-◌, ◌*◌, ◌^◌, ◌≤◌, ◌<◌, ◌≡◌, refl, ◌∙◌, ap, ◌⊎◌, inl, inr, true, false, List,
  [], ◌∷◌, arith, ltb, Outcome, ok, EndsOrFaults, EndsOrFaults-bind, EndsOrFaults-map, ◌&&◌, fault,
  Bool-cases, ◌==◌,
}
use pudge_with_mo_ml.Memory.{Memory, store, copy_words}
use pudge_with_mo_ml.Omlet.{
  Runtime, cur_heap, old_heap, on_heap, set_offset, old_heap-set_offset, cur_heap-set_offset,
}
use pudge_with_mo_ml.Omlet.Header.{mark, get_color, get_size, get_tag, color_marked, t_closure}
use pudge_with_mo_ml.Omlet.Collect.{
  header_at, move_object, copy_object, is_fresh, find_fresh, update_fields, update_pointers,
  mark_and_copy, switch_heap, collect,
}

-- From `w` to `w'` the heaps stay where they are, the current one with no less and no more in use
-- than its size.
pub record Filled (w w' : Runtime) : Type 0 where
  pub start : (cur_heap w').start ≡ (cur_heap w).start
  pub size : (cur_heap w').size ≡ (cur_heap w).size
  pub old : old_heap w' ≡ old_heap w
  pub grows : (cur_heap w).offset ≤ (cur_heap w').offset
  pub within : (cur_heap w').offset ≤ (cur_heap w').size

abbrev Fits : Runtime → Type 0
Fits w = (cur_heap w).offset ≤ (cur_heap w).size

Filled-self : (w : Runtime) → Fits w → Filled w w
Filled-self w h = record { start = refl; size = refl; old = refl; grows = omega arith; within = h }

Filled-trans : (w v u : Runtime) → Filled w v → Filled v u → Filled w u
Filled-trans w v u a b = record {
  start = b.start ∙ a.start;
  size = b.size ∙ a.size;
  old = b.old ∙ a.old;
  grows = omega (arith, a.grows, b.grows);
  within = b.within;
}

-- the room that is left, of which a copy takes at least a header
abbrev Shrunk : Runtime → ℕ × Runtime → Type 0
Shrunk w r = Filled w r.1 × ((cur_heap w).offset + 8 ≤ (cur_heap r.1).offset)

offset-Filled :
    (n : ℕ) (m : Memory) (w : Runtime)
    → (cur_heap w).offset ≤ n
    → n ≤ (cur_heap w).size
    → Filled w (record (set_offset n w) { mem = m })
      × ((cur_heap (record (set_offset n w) { mem = m })).offset ≡ n)
offset-Filled n m w lo hi =
    let c = cur_heap-set_offset n m w in
    let z = ap (λ h. h.size) c in
    let o = ap (λ h. h.offset) c in
    (
      record {
        start = ap (λ h. h.start) c;
        size = z;
        old = old_heap-set_offset n m w;
        grows = omega arith;
        within = omega arith;
      },
      o,
    )

move_object-Ends : (v : ℕ) (w : Runtime) → EndsOrFaults (Shrunk w) (move_object v w)
unfolding move_object
move_object-Ends v w =
    let h : ℕ = header_at v w in
    let bytes : ℕ = 8 + 8 * get_size h in
    let dest : ℕ = (cur_heap w).start + (cur_heap w).offset in
    let m : Memory =
      store (copy_words (store w.mem dest h) (dest + 8) v (get_size h)) (v - 8) (mark h) in
    elim (Bool-cases (ltb (cur_heap w).size ((cur_heap w).offset + bytes))) [
      | inl e ↦ inl (rw e refl)
      | inr e ↦
          let le : (cur_heap w).offset + bytes ≤ (cur_heap w).size = ground arith in
          let (f, o) = offset-Filled ((cur_heap w).offset + bytes) m w (omega arith) le in
          elim (Bool-cases (ltb ((old_heap w).start + (old_heap w).size) (v + 8 * get_size h))) [
            | inl e' ↦ inr (inl (rw (e, e') refl))
            | inr e' ↦ inr (
                inr (
                  (dest + 8, record (set_offset ((cur_heap w).offset + bytes) w) { mem = m }),
                  rw (e, e') refl,
                  (f, omega (arith, o)),
                ))
          ]
    ]

copy_object-Ends :
    (v : ℕ) (w : Runtime) → is_fresh v w ≡ true → EndsOrFaults (Shrunk w) (copy_object v w)
unfolding copy_object is_fresh
copy_object-Ends v w h =
    let e : (get_color (header_at v w) == color_marked) ≡ false = ground arith in
    rw e (move_object-Ends v w)

-- A word is fresh, or not, or its header is in front of the heap.
find_fresh-cases :
    (v : ℕ) (w : Runtime)
    → (find_fresh v w ≡ fault)
      ⊎ (((find_fresh v w ≡ ok true) × (is_fresh v w ≡ true)) ⊎ (find_fresh v w ≡ ok false))
unfolding find_fresh
find_fresh-cases v w =
    elim (Bool-cases (on_heap v (old_heap w) && ltb v ((old_heap w).start + 8))) [
      | inl e ↦ inl (rw e refl)
      | inr e ↦ elim (Bool-cases (is_fresh v w)) [
        | inl h ↦ inr (inl (rw (e, h) refl, h))
        | inr h ↦ inr (inr (rw (e, h) refl))
      ]
    ]

-- A store leaves the heaps where they are.
store-Filled : (w : Runtime) (m : Memory) → Fits w → Filled w (record w { mem = m })
unfolding cur_heap old_heap
store-Filled w m h = record {
  start = refl;
  size = refl;
  old = refl;
  grows = omega arith;
  within = h;
}

-- `update` ends for a state with less than `n` bytes of room
abbrev Updates : ℕ → (ℕ → Runtime → Outcome Runtime) → Type 0
Updates n update =
    (v : ℕ) (w : Runtime)
    → Fits w
    → (cur_heap w).size < (cur_heap w).offset + n
    → EndsOrFaults (Filled w) (update v w)

update_fields-Ends :
    (b : ℕ) (update : ℕ → Runtime → Outcome Runtime)
    → Updates b update
    → (n a : ℕ) (w : Runtime) → Fits w
    → (cur_heap w).size < (cur_heap w).offset + b + 8
    → EndsOrFaults (Filled w) (update_fields update n a w)
unfolding update_fields
update_fields-Ends b update u zero a w f lt = inr (inr (w, refl, Filled-self w f))
update_fields-Ends b update u (suc n) a w f lt = elim (find_fresh-cases (w.mem a) w) [
  | inl e ↦ inr (inl (rw (update_fields, e) refl))
  | inr (inr e) ↦ rw (update_fields, e) (update_fields-Ends b update u n (a + 8) w f lt)
  | inr (inl (e, h₀)) ↦
      rw (update_fields, e)
        (EndsOrFaults-bind (Shrunk w) (Filled w) (copy_object (w.mem a) w) _
          (copy_object-Ends (w.mem a) w h₀)
          (λ r s.
            let v : Runtime = record r.1 { mem = store r.1.mem a r.0 } in
            let g : Filled r.1 v = store-Filled r.1 (store r.1.mem a r.0) s.0.within in
            EndsOrFaults-bind (Filled v) (Filled w) (update r.0 v) _
              (u r.0 v g.within (omega (arith, g.size, g.grows, s.0.size, s.1)))
              (λ z h.
                let k = Filled-trans w r.1 z s.0 (Filled-trans r.1 v z g h) in
                EndsOrFaults-map (Filled z) (Filled w) (update_fields update n (a + 8) z)
                  (update_fields-Ends b update u n (a + 8) z h.within
                    (omega (arith, k.size, k.grows)))
                  (λ y j. Filled-trans w z y k j))))
]

update_pointers-Ends : (fuel : ℕ) → Updates (8 * fuel) (update_pointers fuel)
unfolding update_pointers
update_pointers-Ends zero v w f lt = absurd (omega arith)
update_pointers-Ends (suc fuel) v w f lt =
    elim (Bool-cases (get_tag (header_at v w) == t_closure)) [
      | inr e ↦ inr (inr (w, rw (update_pointers, e) refl, Filled-self w f))
      | inl e ↦
          rw (update_pointers, e)
            (update_fields-Ends (8 * fuel) (update_pointers fuel) (update_pointers-Ends fuel)
              (get_size (header_at v w)) v w f (omega arith))
    ]

mark_and_copy-Ends :
    (fuel : ℕ) (vs : List ℕ) (w : Runtime)
    → Fits w
    → (cur_heap w).size < (cur_heap w).offset + 8 * fuel + 8
    → EndsOrFaults (λ r. Filled w r.1) (mark_and_copy fuel vs w)
unfolding mark_and_copy
mark_and_copy-Ends fuel [] w f lt = inr (inr (([], w), refl, Filled-self w f))
mark_and_copy-Ends fuel (v ∷ vs) w f lt = elim (find_fresh-cases v w) [
  | inl e ↦ inr (inl (rw (mark_and_copy, e) refl))
  | inr (inr e) ↦
      rw (mark_and_copy, e)
        (EndsOrFaults-bind (λ r. Filled w r.1) (λ r. Filled w r.1) (mark_and_copy fuel vs w) _
          (mark_and_copy-Ends fuel vs w f lt) (λ r k. inr (inr ((v ∷ r.0, r.1), refl, k))))
  | inr (inl (e, h₀)) ↦
      rw (mark_and_copy, e)
        (EndsOrFaults-bind (Shrunk w) (λ r. Filled w r.1) (copy_object v w) _
          (copy_object-Ends v w h₀)
          (λ r s.
            EndsOrFaults-bind (Filled r.1) (λ z. Filled w z.1) (update_pointers fuel r.0 r.1) _
              (update_pointers-Ends fuel r.0 r.1 s.0.within (omega (arith, s.0.size, s.1)))
              (λ z h.
                let k = Filled-trans w r.1 z s.0 h in
                EndsOrFaults-bind (λ y. Filled z y.1) (λ y. Filled w y.1) (mark_and_copy fuel vs z)
                  _ (mark_and_copy-Ends fuel vs z h.within (omega (arith, k.size, k.grows)))
                  (λ y j. inr (inr ((r.0 ∷ y.0, y.1), refl, Filled-trans w z y.1 k j))))))
]

-- The heaps have changed places, and the objects that were copied fit.
pub record Swapped (w w' : Runtime) : Type 0 where
  pub start : (cur_heap w').start ≡ (old_heap w).start
  pub size : (cur_heap w').size ≡ (old_heap w).size
  pub old : old_heap w' ≡ cur_heap w
  pub within : (cur_heap w').offset ≤ (cur_heap w').size

pub switched :
    (w : Runtime)
    → (cur_heap (switch_heap w) ≡ record (old_heap w) { offset = 0 })
      × (old_heap (switch_heap w) ≡ cur_heap w)
unfolding switch_heap cur_heap old_heap set_offset
switched w = elim (Bool-cases w.is_from) [ inl e ↦ rw e (refl, refl) | inr e ↦ rw e (refl, refl) ]

pub stack_heaps :
    (w : Runtime) (vs : List ℕ)
    → (cur_heap (record w { stack = vs }) ≡ cur_heap w)
      × (old_heap (record w { stack = vs }) ≡ old_heap w)
unfolding cur_heap old_heap
stack_heaps w vs = (refl, refl)

-- Whatever the words of the heaps and of the stack are, a collection returns, exits with 1 or reads
-- outside the heap that it copies from, which C leaves undefined, if `fuel` + 1 is more than an eighth
-- of the size of the heap that it copies to, which is below 2 ^ 62. When it returns, the heaps have
-- changed places, and what is in use of the current one is within its size.
pub collect-Swapped :
    (fuel : ℕ) (w : Runtime)
    → (old_heap w).size < 2 ^ 62
    → (old_heap w).size < 8 * fuel + 8
    → EndsOrFaults (Swapped w) (collect fuel w)
unfolding collect
collect-Swapped fuel w small lt =
    let (c, o) = switched w in
    let z = ap (λ h. h.size) c in
    let n = ap (λ h. h.offset) c in
    EndsOrFaults-bind (λ r. Filled (switch_heap w) r.1) (Swapped w)
      (mark_and_copy fuel w.stack (switch_heap w)) _
      (mark_and_copy-Ends fuel w.stack (switch_heap w) (omega arith) (omega arith))
      (λ r f.
        let h = stack_heaps r.1 r.0 in
        inr (
          inr (
            record r.1 { stack = r.0 },
            refl,
            record {
              start = ap (λ k. k.start) h.0 ∙ f.start ∙ ap (λ k. k.start) c;
              size = ap (λ k. k.size) h.0 ∙ f.size ∙ z;
              old = h.1 ∙ f.old ∙ o;
              within = omega (arith, ap (λ k. k.size) h.0, ap (λ k. k.offset) h.0, f.within);
            },
          )))
