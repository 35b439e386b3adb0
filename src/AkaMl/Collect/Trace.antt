-- ===== src/AkaMl/Collect/Trace.antt =====
-- What `mark_and_copy` of akaML/lib/runtime/runtime.c does with one root.
use pudge_with_mo_ml.Base.{
  zero, ◌≢◌, ◌^◌, List, [], ◌∷◌, length, lt_or_le, if◌then◌else◌, ap, Bool-cases, ℕ, suc, ◌+◌, ◌-◌,
  ◌*◌, ◌/◌, ◌%◌, ◌≤◌, ◌<◌, ◌≡◌, refl, ◌⊎◌, inl, inr, ◌∙◌, Bool, true, false, not, ◌||◌, arith, some,
  ltb-false, ◌==◌, ok, Returns, get_or,
}
use pudge_with_mo_ml.AkaMl.Collect.{
  Place, find_header, get_header, get_step_to_header, copy_with_header, copy_object, cell, word,
  read, write, update_ptr_on_stack, update_args, mark_and_copy, set_cell, update_from, update_cells,
}
use pudge_with_mo_ml.Memory.{Memory, store, copy_words}
use pudge_with_mo_ml.Memory.Copy.{copy_words_self, copy_words-Outside, store_ne, store_self}
use pudge_with_mo_ml.AkaMl.{Runtime, bank_final, is_in_bank_old, is_in_bank_cur}
use pudge_with_mo_ml.AkaMl.Header.{set_header, get_size, get_tag, is_header, set_header_lem}

-- The nearest header is the word in front of an object whose first word does not pass for one.
pub find_header-next :
    (fuel : ℕ) (in_bank : ℕ → Bool) (obj : ℕ) (m : Memory)
    → 8 < obj
    → in_bank obj ≡ true
    → in_bank (obj - 8) ≡ true
    → is_header (m obj) ≡ false
    → is_header (m (obj - 8)) ≡ true
    → find_header (suc (suc fuel)) in_bank obj m ≡ some (obj - 8)
unfolding find_header
find_header-next fuel in_bank obj m pos here front h h' =
    let e : (obj == 0) ≡ false = ground arith in
    let e' : (obj - 8 == 0) ≡ false = ground arith in rw (e, here, h, e', front, h', find_header)

-- A word that does not point into the old bank is left alone.
pub mark_and_copy-plain :
    (fuel : ℕ) (p : Place) (w : Runtime)
    → is_in_bank_old (read p w) w ≡ false
    → mark_and_copy (suc fuel) p w ≡ ok w
unfolding mark_and_copy
mark_and_copy-plain fuel p w h = elim (Bool-cases (read p w == 0 || not (read p w % 8 == 0))) [
  | inl e ↦ rw (e, mark_and_copy)
  | inr e ↦ rw (e, h, mark_and_copy)
]

-- The cells after an update, one by one.
get_or-update_cells :
    (value_old ptr_sub : ℕ) (xs : List ℕ) (j : ℕ)
    → value_old ≢ 0
    → get_or (update_cells value_old ptr_sub xs) j 0
      ≡ (if get_or xs j 0 == value_old then ptr_sub else get_or xs j 0)
unfolding update_cells
get_or-update_cells o s [] j ne = ground arith
get_or-update_cells o s (x ∷ xs) zero ne = ground arith
get_or-update_cells o s (x ∷ xs) (suc j) ne = get_or-update_cells o s xs j ne

get_or-update_from :
    (i value_old ptr_sub : ℕ) (xs : List ℕ) (j : ℕ)
    → value_old ≢ 0
    → ((j < i) × (get_or (update_from i value_old ptr_sub xs) j 0 ≡ get_or xs j 0))
      ⊎ ((i ≤ j)
          × (get_or (update_from i value_old ptr_sub xs) j 0
              ≡ (if get_or xs j 0 == value_old then ptr_sub else get_or xs j 0)))
unfolding update_from
get_or-update_from zero o s [] j ne = inr (omega arith, ground arith)
get_or-update_from (suc i) o s [] j ne = elim (lt_or_le j (suc i)) [
  | inl lt ↦ inl (lt, refl)
  | inr le ↦ inr (le, ground arith)
]
get_or-update_from zero o s (x ∷ xs) j ne = inr (omega arith, get_or-update_cells o s (x ∷ xs) j ne)
get_or-update_from (suc i) o s (x ∷ xs) zero ne = inl (omega arith, refl)
get_or-update_from (suc i) o s (x ∷ xs) (suc j) ne = elim (get_or-update_from i o s xs j ne) [
  | inl (lt, e) ↦ inl (omega arith, e)
  | inr (le, e) ↦ inr (omega arith, e)
]

get_or-set_cell :
    (xs : List ℕ) (i v j : ℕ)
    → i < length xs
    → get_or (set_cell xs i v) j 0 ≡ (if j == i then v else get_or xs j 0)
unfolding set_cell
get_or-set_cell [] i v j lt = absurd (omega arith)
get_or-set_cell (x ∷ xs) zero v zero lt = ground arith
get_or-set_cell (x ∷ xs) zero v (suc j) lt = ground arith
get_or-set_cell (x ∷ xs) (suc i) v zero lt = ground arith
get_or-set_cell (x ∷ xs) (suc i) v (suc j) lt =
    let ih = get_or-set_cell xs i v j (omega arith) in ground (arith, ih)

-- A cell `x` behind, at or in front of cell `i`, from what it is after the two updates.
cell_cases :
    (i j x y a value_old ptr_sub : ℕ)
    → x ≡ (if j == i then ptr_sub else y)
    → (j ≡ i → a ≡ value_old)
    → ((j < i + 1) × (y ≡ a)) ⊎ ((i + 1 ≤ j) × (y ≡ (if a == value_old then ptr_sub else a)))
    → ((j < i) × (x ≡ a))
      ⊎ ((i ≤ j) × (((a ≡ value_old) × (x ≡ ptr_sub)) ⊎ ((a ≢ value_old) × (x ≡ a))))
cell_cases i j x y a o s e here u = elim (Bool-cases (j == i)) [
  | inl h ↦ let z : j ≡ i = ground arith in inr (omega arith, inl (here z, e ∙ rw h refl))
  | inr h ↦
      let ne : j ≢ i = ground arith in
      let e' : x ≡ y = e ∙ rw h refl in
      elim u [
        | inl (lt, f) ↦ inl (omega arith, e' ∙ f)
        | inr (le, f) ↦ elim (Bool-cases (a == o)) [
          | inl g ↦ inr (omega arith, inl (ground arith, e' ∙ f ∙ rw g refl))
          | inr g ↦ inr (omega arith, inr (ground arith, e' ∙ f ∙ rw g refl))
        ]
      ]
]

length-update_cells :
    (value_old ptr_sub : ℕ) (xs : List ℕ) → length (update_cells value_old ptr_sub xs) ≡ length xs
unfolding update_cells
length-update_cells o s [] = refl
length-update_cells o s (x ∷ xs) = ap suc (length-update_cells o s xs)

length-update_from :
    (i value_old ptr_sub : ℕ) (xs : List ℕ)
    → length (update_from i value_old ptr_sub xs) ≡ length xs
unfolding update_from
length-update_from zero o s [] = refl
length-update_from (suc i) o s [] = refl
length-update_from zero o s (x ∷ xs) = length-update_cells o s (x ∷ xs)
length-update_from (suc i) o s (x ∷ xs) = ap suc (length-update_from i o s xs)

length-set_cell : (xs : List ℕ) (i v : ℕ) → length (set_cell xs i v) ≡ length xs
unfolding set_cell
length-set_cell [] zero v = refl
length-set_cell [] (suc i) v = refl
length-set_cell (x ∷ xs) zero v = refl
length-set_cell (x ∷ xs) (suc i) v = ap suc (length-set_cell xs i v)

nonzero-length : (xs : List ℕ) (i : ℕ) → 0 < get_or xs i 0 → i < length xs
nonzero-length [] i h = absurd (omega arith)
nonzero-length (x ∷ xs) zero h = omega arith
nonzero-length (x ∷ xs) (suc i) h = omega (arith, nonzero-length xs i h)

-- A root in cell `i` that points to an object in the old bank: aligned, with a header in front, of
-- at least a word, and with a first word (a closure's arity) that neither passes for a header nor
-- points into the old bank. The current bank has room at `ptr_base`.
module _ (i : ℕ) (w : Runtime) where
  abbrev obj : ℕ
  obj = get_or w.stack i 0

  abbrev size : ℕ
  size = get_size (w.mem (obj - 8))

  pub record IsRoot : Type 0 where
    pub aligned : obj % 8 ≡ 0
    pub above : 8 < obj
    pub old : is_in_bank_old obj w ≡ true
    pub old_front : is_in_bank_old (obj - 8) w ≡ true
    pub front : is_header (w.mem (obj - 8)) ≡ true
    pub first_word : is_header (w.mem obj) ≡ false
    pub first_plain : is_in_bank_old (w.mem obj) w ≡ false
    pub has_words : 0 < size
    pub room : w.ptr_base + 8 * (size + 1) ≤ bank_final w
    pub base : 8 ≤ w.ptr_base
    pub current : is_in_bank_cur w.ptr_base w ≡ true
    pub current_next : is_in_bank_cur (w.ptr_base + 8) w ≡ true
    pub separate : (obj + 8 * size ≤ w.ptr_base) ⊎ (w.ptr_base + 8 * (size + 1) + 8 ≤ obj)

  abbrev sub : ℕ
  sub = w.ptr_base + 8

  abbrev copy : Memory
  copy =
      copy_words (store w.mem w.ptr_base (set_header size (get_tag (w.mem (obj - 8))))) sub obj size

  abbrev copied : Runtime
  copied = record w { mem = copy; ptr_base = w.ptr_base + 8 * (size + 1) }

  abbrev updated : Runtime
  updated = record copied { stack = update_from (i + 1) obj sub w.stack }

  module _ (r : IsRoot) where
    found : get_header obj w ≡ ok (obj - 8)
    unfolding get_header
    found =
        let e : obj / 8 + 1 ≡ suc (suc (obj / 8 - 1)) = omega (arith, r.above) in
        rw (
          e,
          find_header-next (obj / 8 - 1) (λ p. is_in_bank_old p w) obj w.mem r.above r.old
              r.old_front r.first_word r.front,
          get_header,
        )

    copy_eq : copy_object obj w ≡ ok (sub, copied)
    unfolding copy_object copy_with_header
    copy_eq = rw (found, ltb-false (bank_final w) (w.ptr_base + 8 * (size + 1)) r.room)

    copy_word : (k : ℕ) → k < size → copy (sub + 8 * k) ≡ w.mem (obj + 8 * k)
    copy_word k lt =
        copy_words_self (store w.mem w.ptr_base (set_header size (get_tag (w.mem (obj - 8))))) sub
          obj size k (omega (arith, r.separate)) lt
        ∙ store_ne w.mem w.ptr_base (set_header size (get_tag (w.mem (obj - 8)))) (obj + 8 * k)
            (omega (arith, r.separate))

    copy_first : copy sub ≡ w.mem obj
    copy_first =
        let e : sub + 8 * 0 ≡ sub = omega arith in
        let e' : obj + 8 * 0 ≡ obj = omega arith in rw (e, e') at (copy_word 0 r.has_words)

    copy_front : copy w.ptr_base ≡ set_header size (get_tag (w.mem (obj - 8)))
    copy_front =
        copy_words-Outside (store w.mem w.ptr_base (set_header size (get_tag (w.mem (obj - 8)))))
          sub obj size w.ptr_base (inl (omega arith))
        ∙ store_self w.mem w.ptr_base (set_header size (get_tag (w.mem (obj - 8))))

    tag_small : get_tag (w.mem (obj - 8)) < 256
    unfolding get_tag
    tag_small = omega arith

    step : get_step_to_header sub updated ≡ some 1
    unfolding get_step_to_header is_in_bank_cur find_header
    step =
        let e : sub / 8 + 1 ≡ suc (suc (sub / 8 - 1)) = omega (arith, r.base) in
        let e' : sub - 8 ≡ w.ptr_base = omega arith in
        let h = (set_header_lem size (get_tag (w.mem (obj - 8))) tag_small).2 in
        let next : find_header (suc (suc (sub / 8 - 1))) (λ p. is_in_bank_cur p w) sub copy
            ≡ some (sub - 8) =
          find_header-next (sub / 8 - 1) (λ p. is_in_bank_cur p w) sub copy (omega (arith, r.base))
            r.current_next (rw e' r.current) (rw copy_first r.first_word) (rw (e', copy_front) h) in
        let one : (sub - (sub - 8)) / 8 ≡ 1 = omega arith in rw (e, next, one, get_step_to_header)

    first_stays : (fuel : ℕ) → mark_and_copy (suc fuel) (word sub) updated ≡ ok updated
    unfolding read is_in_bank_old
    first_stays fuel = mark_and_copy-plain fuel (word sub) updated (rw copy_first r.first_plain)

    args_stay : (fuel : ℕ) → update_args (mark_and_copy (suc fuel)) sub updated ≡ ok updated
    unfolding update_args
    args_stay fuel = rw (step, first_stays fuel, update_args)

    size_small : size % 2 ^ 14 ≡ size
    unfolding get_size
    size_small = omega arith

    -- the stack afterwards
    abbrev marked : List ℕ
    marked = set_cell (update_from (i + 1) obj sub w.stack) i sub

    in_stack : i < length (update_from (i + 1) obj sub w.stack)
    in_stack = omega (
      arith,
      length-update_from (i + 1) obj sub w.stack,
      nonzero-length w.stack i (omega (arith, r.above)),
    )

    cells :
        (j : ℕ)
        → ((j < i) × (get_or marked j 0 ≡ get_or w.stack j 0))
          ⊎ ((i ≤ j)
              × (((get_or w.stack j 0 ≡ obj) × (get_or marked j 0 ≡ sub))
                  ⊎ ((get_or w.stack j 0 ≢ obj) × (get_or marked j 0 ≡ get_or w.stack j 0))))
    cells j =
        cell_cases i j (get_or marked j 0) (get_or (update_from (i + 1) obj sub w.stack) j 0)
          (get_or w.stack j 0) obj sub
          (get_or-set_cell (update_from (i + 1) obj sub w.stack) i sub j in_stack)
          (λ e. ap (λ k. get_or w.stack k 0) e)
          (get_or-update_from (i + 1) obj sub w.stack j (omega (arith, r.above)))

    -- Marking a root copies exactly its object, word by word, with its tag and size in the header, and
    -- lets the root and the equal cells behind it point to the copy; the other cells stay as they are.
    -- The words of the copy stay as they are, pointers included, and the bank is filled by this one
    -- object alone. The object has a header in front and at least a word, and its first word is no
    -- header and does not point into the old bank; the current bank has room.
    pub mark_and_copy-shallow :
        (fuel : ℕ)
        → Returns
            (λ w'.
              (w'.ptr_base ≡ w.ptr_base + 8 * (size + 1))
              × (length w'.stack ≡ length w.stack)
              × ((j : ℕ)
                  → ((j < i) × (get_or w'.stack j 0 ≡ get_or w.stack j 0))
                    ⊎ ((i ≤ j)
                        × (((get_or w.stack j 0 ≡ obj) × (get_or w'.stack j 0 ≡ sub))
                            ⊎ ((get_or w.stack j 0 ≢ obj)
                                × (get_or w'.stack j 0 ≡ get_or w.stack j 0)))))
              × (get_tag (w'.mem w.ptr_base) ≡ get_tag (w.mem (obj - 8)))
              × (get_size (w'.mem w.ptr_base) ≡ size)
              × ((k : ℕ) → k < size → w'.mem (sub + 8 * k) ≡ w.mem (obj + 8 * k)))
            (mark_and_copy (suc (suc fuel)) (cell i) w)
    unfolding mark_and_copy read update_ptr_on_stack write
    mark_and_copy-shallow fuel =
        let not_null : (obj == 0) ≡ false = ground (arith, r.above) in
        let h = set_header_lem size (get_tag (w.mem (obj - 8))) tag_small in
        (
          record updated { stack = marked },
          rw (not_null, r.aligned, r.old, copy_eq, args_stay fuel, mark_and_copy),
          (
            refl,
            length-set_cell (update_from (i + 1) obj sub w.stack) i sub
                ∙ length-update_from (i + 1) obj sub w.stack,
            cells,
            ap get_tag copy_front ∙ h.1,
            ap get_size copy_front ∙ h.0 ∙ size_small,
            copy_word,
          ),
        )
