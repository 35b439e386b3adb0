-- ===== src/Pudge/Malloc/Live.antt =====
-- When `my_malloc` has to succeed: the objects that the program can get at leave room.
use pudge_with_mo_ml.Base.{
  ℕ, ◌+◌, ◌*◌, ◌/◌, ◌^◌, ◌≤◌, ◌<◌, ◌≡◌, refl, sym, ◌∙◌, inl, inr, Bool, true, false, List, [], ◌∷◌,
  some, arith, Returns, Bool-cases, Option-cases, ok, ◌==◌, if◌then◌else◌, ok_injective,
}
use pudge_with_mo_ml.Forwarding.{Forwarding}
use pudge_with_mo_ml.Pudge.{Runtime}
use pudge_with_mo_ml.Pudge.Heap.{IsObject, IsHeap, IsClean, Reachable, moved_words}
use pudge_with_mo_ml.Pudge.Collect.{collect}
use pudge_with_mo_ml.Pudge.Collect.Graph.{collect-Collected}
use pudge_with_mo_ml.Pudge.Malloc.{my_malloc, round_up, is_full}
use pudge_with_mo_ml.Pudge.Malloc.Room.{Allocated, my_malloc-Allocated, round_up_lem}

-- the words that the objects with `keep` take, headers included
abbrev pub kept_words : (ℕ → Bool) → ℕ → List ℕ → ℕ
kept_words keep a [] = 0
kept_words keep a (t ∷ ts) =
    (if keep (a + 8) then t + 1 else 0) + kept_words keep (a + 8 + 8 * t) ts

moved_words-le-kept :
    (f : Forwarding) (keep : ℕ → Bool) (a : ℕ) (ts : List ℕ)
    → ((p s q : ℕ) → IsObject p s a ts → f p ≡ some q → keep p ≡ true)
    → moved_words f a ts ≤ kept_words keep a ts
moved_words-le-kept f keep a [] h = omega arith
moved_words-le-kept f keep a (t ∷ ts) h =
    let rest = moved_words-le-kept f keep (a + 8 + 8 * t) ts (λ p s q o e. h p s q (inr o) e) in
    elim (Option-cases (f (a + 8))) [
      | inl e ↦ rw e (omega (arith, rest))
      | inr (q, e) ↦ rw (e, h (a + 8) t q (inl (refl, refl)) e) (omega (arith, rest))
    ]

room_lem :
    (words : ℕ) (w : Runtime)
    → words < 2 ^ 32
    → w.alloc_offset < 2 ^ 32
    → w.alloc_offset + words + 1 < w.space_capacity
    → is_full words w ≡ false
unfolding is_full
room_lem words w lt lt' h = ground arith

module _ (w : Runtime) (ts : List ℕ) (heap : IsHeap w ts) (clean : IsClean w ts) (keep : ℕ → Bool)
    (live : (p s : ℕ) → IsObject p s w.new_space ts → Reachable w ts p → keep p ≡ true) where
  -- what a collection leaves is not more than what is kept
  collected_offset :
      (w' : Runtime)
      → collect w ≡ ok w'
      → (w'.alloc_offset ≤ kept_words keep w.new_space ts)
        × (w'.space_capacity ≡ w.space_capacity)
        × (w'.alloc_offset ≤ w.alloc_offset)
  unfolding collect
  collected_offset w' ran = elim (Bool-cases (w.alloc_offset == 0)) [
    | inl e ↦
        let z : w ≡ w' = ok_injective w w' (rw e at ran) in
        let n : w.alloc_offset ≡ 0 = ground arith in rw (← z) (omega (arith, n), refl, omega arith)
    | inr e ↦
        let (v, ran', c) = collect-Collected w ts heap (ground arith) in
        let z : v ≡ w' = ok_injective v w' (sym ran' ∙ ran) in
        let m =
          moved_words-le-kept c.forwarding keep w.new_space ts
            (λ p s q o e'. live p s o ((c.exact p s o).1 (q, e'))) in
        rw (← z) (omega (arith, m, c.moved), c.capacity, c.smaller)
  ]

  -- `my_malloc` returns an object whenever the objects that the program can reach and the new one,
  -- with their headers and a word to spare, fit into a space.
  pub my_malloc-Live :
      (size : ℕ)
      → 0 < size
      → size < 2 ^ 34
      → kept_words keep w.new_space ts + round_up size / 8 + 1 < w.space_capacity
      → Returns (Allocated w ts heap clean size) (my_malloc size w)
  my_malloc-Live size pos lt fits = elim (my_malloc-Allocated w ts heap clean size pos lt) [
    | inr r ↦ r
    | inl (e, (w', ran, full)) ↦
        let c = collected_offset w' ran in
        let r = round_up_lem size (omega arith) in
        let no =
          room_lem (round_up size / 8) w' (omega arith) (omega (arith, heap.within, heap.small))
            (omega arith) in
        absurd (cc)
  ]
