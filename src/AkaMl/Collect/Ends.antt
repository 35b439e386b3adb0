-- ===== src/AkaMl/Collect/Ends.antt =====
-- How a collection of akaML/lib/runtime/runtime.c ends, whatever the words of the banks and of the
-- stack are. In the model, a `fault` is the loop of `update_ptr_on_stack` from a word of the heap.
use pudge_with_mo_ml.Base.{
  EndsOrFaults, EndsOrFaults-bind, EndsOrFaults-map, ℕ, zero, suc, ◌+◌, ◌-◌, ◌*◌, ◌/◌, ◌%◌, ◌≤◌,
  ◌≡◌, refl, ◌∙◌, ◌⊎◌, inl, inr, not, List, arith, ltb, ok, exit, Bool-cases, Option-cases, ◌==◌,
  ◌||◌, length, get_or,
}
use pudge_with_mo_ml.Base.Words.{add_word}
use pudge_with_mo_ml.Memory.{store, copy_words}
use pudge_with_mo_ml.AkaMl.{Runtime, bank_start, bank_final, is_in_bank_old}
use pudge_with_mo_ml.AkaMl.Header.{set_header, get_size, get_tag}
use pudge_with_mo_ml.AkaMl.Collect.{
  update_from, set_cell, cell, word, read, write, find_header, get_header, get_step_to_header,
  copy_with_header, copy_object, update_ptr_on_stack, mark_words, update_args, mark_and_copy,
  mark_stack, switch_bank, collect,
}

-- From `w` to `w'` the current bank stays the same, with no less and no more in use than it has.
pub record Filled (w w' : Runtime) : Type 0 where
  pub start : bank_start w' ≡ bank_start w
  pub final : bank_final w' ≡ bank_final w
  pub grows : w.ptr_base ≤ w'.ptr_base
  pub within : w'.ptr_base ≤ bank_final w'

Filled-self : (w : Runtime) → w.ptr_base ≤ bank_final w → Filled w w
Filled-self w h = record { start = refl; final = refl; grows = omega arith; within = h }

Filled-trans : (w v u : Runtime) → Filled w v → Filled v u → Filled w u
Filled-trans w v u a b = record {
  start = b.start ∙ a.start;
  final = b.final ∙ a.final;
  grows = omega (arith, a.grows, b.grows);
  within = b.within;
}

copy_with_header-Ends :
    (obj header : ℕ) (w : Runtime)
    → EndsOrFaults (λ r. Filled w r.1) (copy_with_header obj header w)
unfolding copy_with_header bank_start bank_final
copy_with_header-Ends obj header w =
    let size : ℕ = get_size (w.mem header) in
    elim (Bool-cases (ltb (bank_final w) (w.ptr_base + 8 * (size + 1)))) [
      | inl e ↦ inl (rw e refl)
      | inr e ↦
          let le : w.ptr_base + 8 * (size + 1) ≤ bank_final w = ground arith in
          inr (
            inr (
              (
                w.ptr_base + 8,
                record w {
                  mem =
                      copy_words (store w.mem w.ptr_base (set_header size (get_tag (w.mem header))))
                        (w.ptr_base + 8) obj size;
                  ptr_base = w.ptr_base + 8 * (size + 1);
                },
              ),
              rw e refl,
              record { start = refl; final = refl; grows = omega arith; within = le },
            ))
    ]

header-Ends :
    (obj : ℕ) (w : Runtime) → (get_header obj w ≡ exit 1) ⊎ ((p : ℕ) × (get_header obj w ≡ ok p))
unfolding get_header
header-Ends obj w =
    elim (Option-cases (find_header (obj / 8 + 1) (λ p. is_in_bank_old p w) obj w.mem)) [
      | inl e ↦ inl (rw (get_header, e) refl)
      | inr (p, e) ↦ inr (p, rw (get_header, e) refl)
    ]

copy_object-Ends : (obj : ℕ) (w : Runtime) → EndsOrFaults (λ r. Filled w r.1) (copy_object obj w)
unfolding copy_object
copy_object-Ends obj w = elim (header-Ends obj w) [
  | inl e ↦ inl (rw e refl)
  | inr (p, e) ↦ rw e (copy_with_header-Ends obj p w)
]

-- Marking a word of the heap changes nothing, or does not return.
mark_word-Ends :
    (fuel a : ℕ) (w : Runtime) → EndsOrFaults (λ w'. w' ≡ w) (mark_and_copy (suc fuel) (word a) w)
unfolding mark_and_copy read update_ptr_on_stack
mark_word-Ends fuel a w = elim (Bool-cases (w.mem a == 0 || not (w.mem a % 8 == 0))) [
  | inl e ↦ inr (inr (w, rw (mark_and_copy, e) refl, refl))
  | inr e ↦ elim (Bool-cases (is_in_bank_old (w.mem a) w)) [
    | inr e' ↦ inr (inr (w, rw (mark_and_copy, e, e') refl, refl))
    | inl e' ↦
        rw (mark_and_copy, e, e')
          (EndsOrFaults-bind (λ r. Filled w r.1) (λ w'. w' ≡ w) (copy_object (w.mem a) w) _
            (copy_object-Ends (w.mem a) w) (λ r f. inr (inl refl)))
  ]
]

mark_words-Ends :
    (fuel n a : ℕ) (w : Runtime)
    → EndsOrFaults (λ w'. w' ≡ w) (mark_words (mark_and_copy (suc fuel)) n a w)
unfolding mark_words
mark_words-Ends fuel zero a w = inr (inr (w, refl, refl))
mark_words-Ends fuel (suc n) a w =
    EndsOrFaults-bind (λ w'. w' ≡ w) (λ w'. w' ≡ w) (mark_and_copy (suc fuel) (word a) w) _
      (mark_word-Ends fuel a w) (λ v e. rw e (mark_words-Ends fuel n (a + 8) w))

update_args-Ends :
    (fuel p : ℕ) (w : Runtime)
    → EndsOrFaults (λ w'. w' ≡ w) (update_args (mark_and_copy (suc fuel)) p w)
unfolding update_args
update_args-Ends fuel p w = elim (Option-cases (get_step_to_header p w)) [
  | inl e ↦ inr (inr (w, rw (update_args, e) refl, refl))
  | inr (step, e) ↦ elim (Bool-cases (step == 0)) [
    | inl h ↦ inr (inr (w, rw (update_args, e, h) refl, refl))
    | inr h ↦ elim (Bool-cases (ltb step 3)) [
      | inl h' ↦ rw (update_args, e, h, h') (mark_word-Ends fuel p w)
      | inr h' ↦
          rw (update_args, e, h, h')
            (mark_words-Ends fuel (get_size (w.mem (p - 8 * step)) - 2) (p - 8 * step + 16) w)
    ]
  ]
]

stack-Filled :
    (w : Runtime) (ss : List ℕ) → w.ptr_base ≤ bank_final w → Filled w (record w { stack = ss })
unfolding bank_start bank_final
stack-Filled w ss h = record { start = refl; final = refl; grows = omega arith; within = h }

mark_cell-Ends :
    (fuel i : ℕ) (w : Runtime)
    → w.ptr_base ≤ bank_final w
    → EndsOrFaults (Filled w) (mark_and_copy (suc (suc fuel)) (cell i) w)
unfolding mark_and_copy read update_ptr_on_stack write
mark_cell-Ends fuel i w h =
    let v : ℕ = get_or w.stack i 0 in
    elim (Bool-cases (v == 0 || not (v % 8 == 0))) [
      | inl e ↦ inr (inr (w, rw (mark_and_copy, e) refl, Filled-self w h))
      | inr e ↦ elim (Bool-cases (is_in_bank_old v w)) [
        | inr e' ↦ inr (inr (w, rw (mark_and_copy, e, e') refl, Filled-self w h))
        | inl e' ↦
            rw (mark_and_copy, e, e')
              (EndsOrFaults-bind (λ r. Filled w r.1) (Filled w) (copy_object v w) _
                (copy_object-Ends v w)
                (λ r f.
                  let ss : List ℕ = update_from (i + 1) (get_or r.1.stack i 0) r.0 r.1.stack in
                  let b : Runtime = record r.1 { stack = ss } in
                  EndsOrFaults-bind (λ z. z ≡ b) (Filled w)
                    (update_args (mark_and_copy (suc fuel)) r.0 b) _ (update_args-Ends fuel r.0 b)
                    (λ z q. rw q (
                      inr (
                        inr (
                          record r.1 { stack = set_cell ss i r.0 },
                          refl,
                          Filled-trans w r.1 (record r.1 { stack = set_cell ss i r.0 }) f
                              (stack-Filled r.1 (set_cell ss i r.0) f.within),
                        ))))))
      ]
    ]

mark_stack-Ends :
    (fuel n i : ℕ) (w : Runtime)
    → w.ptr_base ≤ bank_final w
    → EndsOrFaults (Filled w) (mark_stack (suc (suc fuel)) n i w)
unfolding mark_stack
mark_stack-Ends fuel zero i w h = inr (inr (w, refl, Filled-self w h))
mark_stack-Ends fuel (suc n) i w h =
    EndsOrFaults-bind (Filled w) (Filled w) (mark_and_copy (suc (suc fuel)) (cell i) w) _
      (mark_cell-Ends fuel i w h)
      (λ v f.
        EndsOrFaults-map (Filled v) (Filled w) (mark_stack (suc (suc fuel)) n (i + 1) v)
          (mark_stack-Ends fuel n (i + 1) v f.within) (λ u g. Filled-trans w v u f g))

-- the two banks, and what is in use of the current one
pub record IsBanks (w : Runtime) : Type 0 where
  pub main : w.start_bank_main ≤ w.final_bank_main
  pub sub : w.start_bank_sub ≤ w.final_bank_sub
  pub in_use : (bank_start w ≤ w.ptr_base) × (w.ptr_base ≤ bank_final w)

-- the current bank is the old one or the other one, and what is in use lies in it
pub record Bounded (w w' : Runtime) : Type 0 where
  pub bank :
      ((bank_start w' ≡ bank_start w) × (bank_final w' ≡ bank_final w))
      ⊎ ((bank_start w' ≡ bank_start (switch_bank w))
          × (bank_final w' ≡ bank_final (switch_bank w)))
  pub in_use : (bank_start w' ≤ w'.ptr_base) × (w'.ptr_base ≤ bank_final w')

switched :
    (w : Runtime)
    → IsBanks w
    → ((switch_bank w).ptr_base ≡ bank_start (switch_bank w))
      × ((switch_bank w).ptr_base ≤ bank_final (switch_bank w))
unfolding switch_bank bank_start bank_final
switched w b = elim (Bool-cases (1 - w.bank_current == 0)) [
  | inl e ↦ rw e (refl, b.main)
  | inr e ↦ rw e (refl, b.sub)
]

counted_bank :
    (w : Runtime) (n : ℕ)
    → (bank_start (record w { collections_count = n }) ≡ bank_start w)
      × (bank_final (record w { collections_count = n }) ≡ bank_final w)
unfolding bank_start bank_final
counted_bank w n = (refl, refl)

-- Two units of fuel are enough for a collection, whatever the words of the banks and of the stack are:
-- it returns, exits with 1, or does what C leaves undefined. If it returns, what is in use lies in the
-- current bank, which is the other one, or still the same if there is nothing on the stack.
pub collect-Bounded :
    (fuel : ℕ) (w : Runtime) → IsBanks w → EndsOrFaults (Bounded w) (collect (suc (suc fuel)) w)
unfolding collect
collect-Bounded fuel w b = elim (Bool-cases (length w.stack == 0)) [
  | inl e ↦
      inr (inr (w, rw (collect, e) refl, record { bank = inl (refl, refl); in_use = b.in_use }))
  | inr e ↦
      let (s, h) = switched w b in
      rw (collect, e)
        (EndsOrFaults-bind (Filled (switch_bank w)) (Bounded w)
          (mark_stack (suc (suc fuel)) (length w.stack) 0 (switch_bank w)) _
          (mark_stack-Ends fuel (length w.stack) 0 (switch_bank w) h)
          (λ v f.
            let (z, z') = counted_bank v (add_word v.collections_count 1) in
            inr (
              inr (
                record v { collections_count = add_word v.collections_count 1 },
                refl,
                record {
                  bank = inr (z ∙ f.start, z' ∙ f.final);
                  in_use = (omega (arith, f.start, f.grows), omega (arith, f.within));
                },
              ))))
]
