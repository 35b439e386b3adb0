-- ===== src/Omlet/Malloc/Live.antt =====
-- `omlet_malloc` of OMLet/lib/gc.c where no object is pointed to twice: garbage makes it collect, and
-- does not make it exit.
use pudge_with_mo_ml.Base.{
  ℕ, ◌+◌, ◌-◌, ◌*◌, ◌^◌, ◌≤◌, ◌<◌, ◌≡◌, ◌≢◌, refl, sym, ap, ◌∙◌, ◌⊎◌, inl, inr, arith, ltb,
  ltb-false, Returns, Returns-bind, Bool-cases,
}
use pudge_with_mo_ml.Memory.{store}
use pudge_with_mo_ml.Memory.Copy.{store_self, store_ne}
use pudge_with_mo_ml.Omlet.{
  Runtime, cur_heap, old_heap, set_offset, cur_heap-set_offset, old_heap-set_offset,
}
use pudge_with_mo_ml.Omlet.Header.{
  make_header, get_tag, get_color, get_size, make_header_lem, color_unmarked,
}
use pudge_with_mo_ml.Omlet.Collect.{collect}
use pudge_with_mo_ml.Omlet.Collect.Forest.{Forest, bytes, RootsCopied}
use pudge_with_mo_ml.Omlet.Collect.Walk.{RootsCopied-kept}
use pudge_with_mo_ml.Omlet.Collect.Exact.{IsForest, Exact, collect-Exact}
use pudge_with_mo_ml.Omlet.Malloc.{omlet_malloc, bump, bump_or_exit, words_of_bytes}

-- What an allocation of `size` bytes returns where there is room in `w`.
pub record Bumped (size tag : ℕ) (w : Runtime) (out : ℕ × Runtime) : Type 0 where
  pub pointer : out.0 ≡ (cur_heap w).start + (cur_heap w).offset + 8
  pub tag_at : get_tag (out.1.mem (out.0 - 8)) ≡ tag
  pub color_at : get_color (out.1.mem (out.0 - 8)) ≡ color_unmarked
  pub enough : size ≤ 8 * get_size (out.1.mem (out.0 - 8))
  pub tight : 8 * get_size (out.1.mem (out.0 - 8)) < size + 8
  pub used :
      (cur_heap out.1).offset ≡ (cur_heap w).offset + (8 + 8 * get_size (out.1.mem (out.0 - 8)))
  pub within : (cur_heap out.1).offset ≤ (cur_heap w).size
  pub old : old_heap out.1 ≡ old_heap w
  pub stack : out.1.stack ≡ w.stack
  pub same : (b : ℕ) → b ≢ out.0 - 8 → out.1.mem b ≡ w.mem b

-- the words that are asked for fit
abbrev pub Fits : ℕ → Runtime → Type 0
Fits size w = (cur_heap w).offset + (8 + 8 * words_of_bytes size) ≤ (cur_heap w).size

set_offset-stack : (n : ℕ) (w : Runtime) → (set_offset n w).stack ≡ w.stack
unfolding set_offset
set_offset-stack n w = elim (Bool-cases w.is_from) [ inl e ↦ rw e refl | inr e ↦ rw e refl ]

-- The object stands in the heap as it was, or as a collection leaves it, which the copies of the
-- objects in use survive.
pub record Rescued (size tag : ℕ) (w : Runtime) (ts : Forest) (out : ℕ × Runtime) : Type 0 where
  pub before : Runtime
  pub ready :
      (Fits size w × (before ≡ w))
      ⊎ (Exact w ts before
          × RootsCopied (old_heap w).start ((old_heap w).start + bytes ts) out.1.mem out.1.stack ts)
  pub bumped : Bumped size tag before out

module _ (size tag : ℕ) (small : size ≤ 8 * (2 ^ 16 - 1)) (byte : tag < 2 ^ 8) where
  bump-Bumped : (w : Runtime) → Fits size w → Bumped size tag w (bump (words_of_bytes size) tag w)
  unfolding bump
  bump-Bumped w fits =
      let n : ℕ = words_of_bytes size in
      let p : ℕ = (cur_heap w).start + (cur_heap w).offset in
      let m = store w.mem p (make_header tag n) in
      let h = make_header_lem tag n byte in
      let e : m (p + 8 - 8) ≡ make_header tag n =
        ap m (let z : p + 8 - 8 ≡ p = omega arith in z) ∙ store_self w.mem p (make_header tag n) in
      let z : get_size (m (p + 8 - 8)) ≡ n = ap get_size e ∙ h.2 ∙ omega arith in
      let c = cur_heap-set_offset ((cur_heap w).offset + (8 + 8 * n)) m w in
      let o = ap (λ g. g.offset) c in
      record {
        pointer = refl;
        tag_at = ap get_tag e ∙ h.0;
        color_at = ap get_color e ∙ h.1;
        enough = omega (arith, z);
        tight = omega (arith, z);
        used = o ∙ ap (λ k. (cur_heap w).offset + (8 + 8 * k)) (sym z);
        within = omega (arith, o, fits);
        old = old_heap-set_offset ((cur_heap w).offset + (8 + 8 * n)) m w;
        stack = set_offset-stack ((cur_heap w).offset + (8 + 8 * n)) w;
        same = λ b ne. store_ne w.mem p (make_header tag n) b (omega arith);
      }

  module _ (w : Runtime) (ts : Forest) (f : IsForest w ts)
      (room : bytes ts + size + 15 ≤ (old_heap w).size) where
    after_collection :
        (v : Runtime)
        → Exact w ts v
        → Returns (Rescued size tag w ts) (bump_or_exit (words_of_bytes size) tag v)
    unfolding bump_or_exit
    after_collection v x =
        let fits : Fits size v = omega (arith, x.used, x.size) in
        let b = bump-Bumped v fits in
        let out : ℕ × Runtime = bump (words_of_bytes size) tag v in
        let copies =
          RootsCopied-kept (old_heap w).start ((old_heap w).start + bytes ts) v.mem out.1.mem
            (λ a lo hi. b.same a (omega (arith, b.pointer, x.start, x.used))) (old_heap w).start
            ((old_heap w).start + bytes ts) (omega arith) (omega arith) v.stack ts x.copies in
        (
          out,
          rw
              (ltb-false (cur_heap v).size ((cur_heap v).offset + (8 + 8 * words_of_bytes size))
                fits)
              refl,
          record { before = v; ready = inr (x, rw b.stack copies); bumped = b },
        )

    -- Where the words of the stack lead to a forest of unmarked objects in the current heap and the
    -- other heap is apart and has 15 bytes more room than those objects and the new one take,
    -- `omlet_malloc` of at most 2 ^ 16 - 1 words returns if `fuel` + 1 is more than an eighth of the
    -- bytes of the forest: an object with that tag, unmarked and of enough words, behind the objects
    -- in use. The heap is otherwise as before, if the object fits there, or as a collection leaves it,
    -- and then the words of the stack lead to a copy of the forest.
    pub omlet_malloc-Rescued :
        (fuel : ℕ)
        → bytes ts < 8 * fuel + 8
        → Returns (Rescued size tag w ts) (omlet_malloc fuel size tag w)
    unfolding omlet_malloc
    omlet_malloc-Rescued fuel enough =
        let n : ℕ = words_of_bytes size in
        elim (Bool-cases (ltb (cur_heap w).size ((cur_heap w).offset + (8 + 8 * n)))) [
          | inl e ↦ rw e (
              Returns-bind (Exact w ts) (Rescued size tag w ts) (collect fuel w)
                (bump_or_exit n tag) (collect-Exact w ts f fuel enough) after_collection)
          | inr e ↦
              let fits : Fits size w = ground arith in
              (
                bump n tag w,
                rw e refl,
                record { before = w; ready = inl (fits, refl); bumped = bump-Bumped w fits },
              )
        ]
