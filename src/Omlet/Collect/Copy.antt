-- ===== src/Omlet/Collect/Copy.antt =====
-- One copy by the collector of OMLet/lib/gc.c where no object is pointed to twice, and what follows
-- it.
use pudge_with_mo_ml.Base.{
  ok, ℕ, ◌+◌, ◌-◌, ◌*◌, ◌≤◌, ◌<◌, ◌≡◌, ◌≢◌, refl, ◌∙◌, ap, ◌⊎◌, inl, inr, true, false, arith,
  ltb-false, Outcome, Returns, Bool-cases,
}
use pudge_with_mo_ml.Memory.{Memory, store, copy_words}
use pudge_with_mo_ml.Memory.Copy.{store_self, store_ne, copy_words_self, copy_words-Outside}
use pudge_with_mo_ml.Omlet.{
  Runtime, cur_heap, old_heap, set_offset, on_heap, old_heap-set_offset, cur_heap-set_offset,
}
use pudge_with_mo_ml.Omlet.Header.{get_tag, get_color, get_size, mark, t_closure}
use pudge_with_mo_ml.Omlet.Collect.{move_object, copy_object, is_fresh, find_fresh}
use pudge_with_mo_ml.Omlet.Collect.Forest.{
  Forest, count, bytes, Raw, Node, Leads, Marked, Free, Distinct, Copies,
}
use pudge_with_mo_ml.Omlet.Collect.Walk.{Leads-Marked, Leads-moved, Raw-moved, Raw-unmarked}

module _ (w : Runtime) where
  abbrev pub base : ℕ
  base = (cur_heap w).start

  abbrev pub room : ℕ
  room = (cur_heap w).size

  abbrev pub lo : ℕ
  lo = (old_heap w).start

  abbrev pub hi : ℕ
  hi = lo + (old_heap w).size

  -- `w` with `n` bytes in use and memory `m`
  abbrev pub at : ℕ → Memory → Runtime
  at n m = record (set_offset n w) { mem = m }

  at_cur : (n : ℕ) (m : Memory) → cur_heap (at n m) ≡ record (cur_heap w) { offset = n }
  at_cur n m = cur_heap-set_offset n m w

  at_old : (n : ℕ) (m : Memory) → old_heap (at n m) ≡ old_heap w
  at_old n m = old_heap-set_offset n m w

  at_again : (n n' : ℕ) (m m' : Memory) → record (set_offset n' (at n m)) { mem = m' } ≡ at n' m'
  unfolding set_offset
  at_again n n' m m' = elim (Bool-cases w.is_from) [ inl e ↦ rw e refl | inr e ↦ rw e refl ]

  pub word_stays : (x n : ℕ) (m : Memory) → (x < lo) ⊎ (hi ≤ x) → find_fresh x (at n m) ≡ ok false
  unfolding find_fresh is_fresh on_heap
  word_stays x n m h = rw (at_old n m) (ground arith)

  pub object_fresh :
      (p h n : ℕ) (m : Memory) (fs : Forest) → Node lo hi m p h fs → find_fresh p (at n m) ≡ ok true
  unfolding find_fresh is_fresh on_heap
  object_fresh p h n m fs d =
      let c : get_color (m (p - 8)) ≡ 0 = ap get_color d.header ∙ d.unmarked in
      let l = d.low in let i = d.inside in rw (at_old n m, c) (ground arith)

  module _ (disjoint : (base + room ≤ lo) ⊎ (hi ≤ base)) where
    -- What one copy changes.
    pub record Moved (p h n : ℕ) (m : Memory) (r : ℕ × Runtime) : Type 0 where
      pub memory : Memory
      pub address : r.0 ≡ base + n + 8
      pub state : r.1 ≡ at (n + (8 + 8 * get_size h)) memory
      pub header : memory (base + n) ≡ h
      pub words : (k : ℕ) → k < get_size h → memory (base + n + 8 + 8 * k) ≡ m (p + 8 * k)
      pub same :
          (b : ℕ)
          → b ≢ p - 8
          → (b < base + n) ⊎ (base + n + (8 + 8 * get_size h) ≤ b)
          → memory b ≡ m b

    pub copy_object-Moved :
        (p h n : ℕ) (m : Memory) (fs : Forest)
        → Node lo hi m p h fs
        → n + (8 + 8 * get_size h) ≤ room
        → Returns (Moved p h n m) (copy_object p (at n m))
    unfolding copy_object move_object
    copy_object-Moved p h n m fs d le =
        let q : ℕ = base + n in
        let m₀ : Memory = store m q h in
        let m₁ : Memory = copy_words m₀ (q + 8) p (get_size h) in
        let m' : Memory = store m₁ (p - 8) (mark h) in
        let l = d.low in
        let u = d.high in
        let i = d.inside in
        (
          (q + 8, at (n + (8 + 8 * get_size h)) m'),
          rw
              (
                d.header,
                d.unmarked,
                at_cur n m,
                ltb-false room (n + (8 + 8 * get_size h)) le,
                at_old n m,
                ltb-false hi (p + 8 * get_size h) u,
                at_again n (n + (8 + 8 * get_size h)) m m',
              )
              refl,
          record {
            memory = m';
            address = refl;
            state = refl;
            header =
                store_ne m₁ (p - 8) (mark h) q (omega arith)
                ∙ copy_words-Outside m₀ (q + 8) p (get_size h) q (inl (omega arith))
                ∙ store_self m q h;
            words = λ k lt.
                store_ne m₁ (p - 8) (mark h) (q + 8 + 8 * k) (omega arith)
                ∙ copy_words_self m₀ (q + 8) p (get_size h) k (omega arith) lt
                ∙ store_ne m q h (p + 8 * k) (omega arith);
            same = λ b ne out.
                store_ne m₁ (p - 8) (mark h) b ne
                ∙ copy_words-Outside m₀ (q + 8) p (get_size h) b (omega arith)
                ∙ store_ne m q h b (omega arith);
          },
        )

    -- What a run of words leads to has been copied behind the first `n` bytes, which leaves all else
    -- but the old headers.
    pub record Done (n : ℕ) (m : Memory) (a : ℕ) (fs : Forest) (w' : Runtime) : Type 0 where
      pub memory : Memory
      pub state : w' ≡ at (n + bytes fs) memory
      pub copies : Copies (base + n) (base + (n + bytes fs)) memory a fs
      pub same :
          (b : ℕ)
          → (Marked fs b → ⊥)
          → (b < a) ⊎ (a + 8 * count fs ≤ b)
          → (b < base + n) ⊎ (base + (n + bytes fs) ≤ b)
          → memory b ≡ m b

    abbrev pub Kind : Memory → ℕ → ℕ → Forest → Type 0
    Kind m p h fs =
        ((get_tag h ≡ t_closure) × Leads lo hi m p fs) ⊎ ((get_tag h ≢ t_closure) × Raw m p fs)

    -- what `update_pointers` does with a copy at `q`
    abbrev pub Updates : ℕ → (ℕ → Runtime → Outcome Runtime) → Type 0
    Updates fuel update =
        (q h : ℕ) (fs : Forest) (n : ℕ) (m : Memory)
        → m (q - 8) ≡ h
        → count fs ≡ get_size h
        → Kind m q h fs
        → Distinct fs
        → base + 8 ≤ q
        → q + 8 * count fs ≤ base + n
        → n + bytes fs ≤ room
        → bytes fs < 8 * fuel
        → Returns (Done n m q fs) (update q (at n m))

    -- The copy of an object and what `update` does with it, from a memory `m₂` in which only words
    -- of the part in use have changed since the copy.
    pub record Stepped (p h : ℕ) (gs : Forest) (n : ℕ) (m₂ : Memory) (w' : Runtime) : Type 0 where
      pub memory : Memory
      pub state : w' ≡ at (n + (8 + 8 * get_size h) + bytes gs) memory
      pub header : memory (base + n) ≡ h
      pub copies :
          Copies
            (base + (n + (8 + 8 * get_size h)))
            (base + (n + (8 + 8 * get_size h) + bytes gs))
            memory
            (base + n + 8)
            gs
      pub same :
          (b : ℕ)
          → (Marked gs b → ⊥)
          → (b < base + n) ⊎ (base + (n + (8 + 8 * get_size h) + bytes gs) ≤ b)
          → memory b ≡ m₂ b

    module _ (fuel : ℕ) (update : ℕ → Runtime → Outcome Runtime) (u : Updates fuel update)
        (p h n : ℕ) (m : Memory) (gs : Forest) (d : Node lo hi m p h gs) (kind : Kind m p h gs)
        (own : Free (λ b. b ≡ p - 8) gs) (distinct : Distinct gs)
        (fits : n + (8 + 8 * get_size h) + bytes gs ≤ room) (enough : bytes gs < 8 * fuel)
        (r : ℕ × Runtime) (c : Moved p h n m r) (m₂ : Memory)
        (new : (b : ℕ) → base + n ≤ b → b < base + room → m₂ b ≡ c.memory b)
        (old : (b : ℕ) → lo ≤ b → b < hi → m₂ b ≡ c.memory b) where
      abbrev q : ℕ
      q = base + n + 8

      words_there : (k : ℕ) → k < count gs → m₂ (q + 8 * k) ≡ m (p + 8 * k)
      words_there k lt =
          let f = d.full in new (q + 8 * k) (omega arith) (omega arith) ∙ c.words k (omega arith)

      Kind-there : Kind m₂ q h gs
      Kind-there = elim kind [
        | inl (t, l) ↦ inl (
          t,
          Leads-moved lo hi (λ b. b ≡ p - 8) m m₂
              (λ b ge lt ne. old b ge lt ∙ c.same b ne (omega arith)) gs p q own words_there l,
        )
        | inr (t, l) ↦ inr (t, Raw-moved m m₂ p q gs words_there l)
      ]

      pub step : Returns (Stepped p h gs n m₂) (update q (at (n + (8 + 8 * get_size h)) m₂))
      step =
          let f = d.full in
          let e : m₂ (q - 8) ≡ h =
            ap m₂ (let z : q - 8 ≡ base + n = omega arith in z)
            ∙ new (base + n) (omega arith) (omega arith)
            ∙ c.header in
          let (w', ran, x) =
            u q h gs (n + (8 + 8 * get_size h)) m₂ e d.full Kind-there distinct (omega arith)
              (omega arith) (omega arith) enough in
          (
            w',
            ran,
            record {
              memory = x.memory;
              state = x.state;
              header =
                  x.same (base + n) not_marked (inl (omega arith)) (inl (omega arith))
                  ∙ new (base + n) (omega arith) (omega arith)
                  ∙ c.header;
              copies = x.copies;
              same = λ b free out. x.same b free (omega arith) (omega arith);
            },
          )
        where
          not_marked : Marked gs (base + n) → ⊥
          not_marked x = elim Kind-there [
            | inl (t, l) ↦
                absurd (omega (arith, Leads-Marked lo hi m₂ q gs (base + n) l x, disjoint))
            | inr (t, l) ↦ absurd (Raw-unmarked m₂ q gs (base + n) l x)
          ]

    -- a state in which nothing more is in use
    pub at_same : (n : ℕ) (m : Memory) → at n m ≡ at (n + 0) m
    at_same n m = ap (λ k. at k m) (let e : n ≡ n + 0 = omega arith in e)
