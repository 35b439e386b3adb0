-- ===== src/Omlet/Collect/Exact.antt =====
-- `collect` of OMLet/lib/gc.c where no object is pointed to twice.
use pudge_with_mo_ml.Base.{
  ℕ, ◌+◌, ◌*◌, ◌≤◌, ◌<◌, ◌≡◌, refl, ◌∙◌, ap, ◌⊎◌, inl, inr, arith, List, Returns, Returns-bind,
  Bool-cases,
}
use pudge_with_mo_ml.Omlet.{
  Runtime, cur_heap, old_heap, set_offset, cur_heap-set_offset, old_heap-set_offset,
}
use pudge_with_mo_ml.Omlet.Collect.{mark_and_copy, switch_heap, collect}
use pudge_with_mo_ml.Omlet.Collect.Ends.{switched, stack_heaps}
use pudge_with_mo_ml.Omlet.Collect.Forest.{Forest, bytes, RootsLead, Marked, Distinct, RootsCopied}
use pudge_with_mo_ml.Omlet.Collect.Copy.{at}
use pudge_with_mo_ml.Omlet.Collect.Roots.{RootsDone, roots}

-- The words of the stack lead to the forest `ts` in the current heap: to no object in two ways, and
-- to no marked one. The other heap is apart and has room for the objects.
pub record IsForest (w : Runtime) (ts : Forest) : Type 0 where
  pub roots : RootsLead (cur_heap w).start ((cur_heap w).start + (cur_heap w).size) w.mem w.stack ts
  pub distinct : Distinct ts
  pub apart :
      ((old_heap w).start + (old_heap w).size ≤ (cur_heap w).start)
      ⊎ ((cur_heap w).start + (cur_heap w).size ≤ (old_heap w).start)
  pub fits : bytes ts ≤ (old_heap w).size

-- After a collection the words of the stack lead to a copy of the forest that is all there is in the
-- current heap; no other words have changed but the headers of the old objects.
pub record Exact (w : Runtime) (ts : Forest) (w' : Runtime) : Type 0 where
  pub copies : RootsCopied (old_heap w).start ((old_heap w).start + bytes ts) w'.mem w'.stack ts
  pub start : (cur_heap w').start ≡ (old_heap w).start
  pub size : (cur_heap w').size ≡ (old_heap w).size
  pub used : (cur_heap w').offset ≡ bytes ts
  pub old : old_heap w' ≡ cur_heap w
  pub same :
      (b : ℕ)
      → (Marked ts b → ⊥)
      → (b < (old_heap w).start) ⊎ ((old_heap w).start + bytes ts ≤ b)
      → w'.mem b ≡ w.mem b

switched_at : (w : Runtime) → switch_heap w ≡ at (switch_heap w) 0 w.mem
unfolding switch_heap set_offset
switched_at w = elim (Bool-cases w.is_from) [ inl e ↦ rw e refl | inr e ↦ rw e refl ]

-- A state `s` for `switch_heap w`.
module _ (w : Runtime) (ts : Forest) (f : IsForest w ts) (s : Runtime)
    (c : cur_heap s ≡ record (old_heap w) { offset = 0 }) (o : old_heap s ≡ cur_heap w) where
  start_eq : (cur_heap s).start ≡ (old_heap w).start
  start_eq = ap (λ h. h.start) c

  size_eq : (cur_heap s).size ≡ (old_heap w).size
  size_eq = ap (λ h. h.size) c

  old_start : (old_heap s).start ≡ (cur_heap w).start
  old_start = ap (λ h. h.start) o

  old_size : (old_heap s).size ≡ (cur_heap w).size
  old_size = ap (λ h. h.size) o

  apart_there :
      ((cur_heap s).start + (cur_heap s).size ≤ (old_heap s).start)
      ⊎ ((old_heap s).start + (old_heap s).size ≤ (cur_heap s).start)
  apart_there = omega (arith, f.apart, start_eq, size_eq, old_start, old_size)

  roots_there :
      RootsLead (old_heap s).start ((old_heap s).start + (old_heap s).size) w.mem w.stack ts
  roots_there = rw (old_start, old_size) f.roots

  copied :
      (fuel : ℕ)
      → bytes ts < 8 * fuel + 8
      → Returns (RootsDone s apart_there 0 w.mem ts) (mark_and_copy fuel w.stack (at s 0 w.mem))
  copied fuel enough =
      roots s apart_there fuel ts w.stack 0 w.mem roots_there f.distinct
        (omega (arith, f.fits, size_eq)) enough

  exact :
      (r : List ℕ × Runtime)
      → RootsDone s apart_there 0 w.mem ts r
      → Exact w ts (record r.1 { stack = r.0 })
  exact r d =
      let h = stack_heaps r.1 r.0 in
      let e = h.0 ∙ ap cur_heap d.state ∙ cur_heap-set_offset (0 + bytes ts) d.memory s in
      let m : r.1.mem ≡ d.memory = ap (λ x. x.mem) d.state in
      let b : (cur_heap s).start + 0 ≡ (old_heap w).start = omega (arith, start_eq) in
      let b' : (cur_heap s).start + (0 + bytes ts) ≡ (old_heap w).start + bytes ts =
        omega (arith, start_eq) in
      record {
        copies = rw m (rw (b, b') at d.copies);
        start = ap (λ x. x.start) e ∙ start_eq;
        size = ap (λ x. x.size) e ∙ size_eq;
        used = ap (λ x. x.offset) e ∙ (let z : 0 + bytes ts ≡ bytes ts = omega arith in z);
        old = h.1 ∙ ap old_heap d.state ∙ old_heap-set_offset (0 + bytes ts) d.memory s ∙ o;
        same = λ a nb out. rw m (d.same a nb (omega (arith, start_eq)));
      }

-- Where the words of the stack lead to no object in two ways, and the other heap is apart and has
-- room for the objects that they lead to, a collection returns if `fuel` + 1 is more than an eighth of
-- what those objects take. The words of the stack then lead to a copy of the same forest, with the
-- same headers and plain words, that is all there is in the current heap, and no other words have
-- changed but the headers of the old objects.
pub collect-Exact :
    (w : Runtime) (ts : Forest)
    → IsForest w ts
    → (fuel : ℕ) → bytes ts < 8 * fuel + 8
    → Returns (Exact w ts) (collect fuel w)
unfolding collect
collect-Exact w ts f fuel enough =
    let (c, o) = switched w in
    rw (switched_at w) (
      Returns-bind (RootsDone (switch_heap w) (apart_there w ts f (switch_heap w) c o) 0 w.mem ts)
        (Exact w ts) (mark_and_copy fuel w.stack (at (switch_heap w) 0 w.mem)) _
        (copied w ts f (switch_heap w) c o fuel enough)
        (λ r d. (record r.1 { stack = r.0 }, refl, exact w ts f (switch_heap w) c o r d)))
