-- ===== src/Pudge/Collect/Stage.antt =====
-- The collector between two of its steps, as a forwarding of the objects copied so far.
use pudge_with_mo_ml.Forwarding.{Forwarding, forward}
use pudge_with_mo_ml.Base.{ℕ, ◌+◌, ◌*◌, ◌≤◌, ◌≡◌, List, [], ◌∷◌, ◌++◌, none, some, arith}
use pudge_with_mo_ml.Base.Words.{add_word}
use pudge_with_mo_ml.Memory.{Memory}
use pudge_with_mo_ml.Pudge.{Runtime}
use pudge_with_mo_ml.Pudge.Heap.{
  IsObject, IsHeap, moved_words, moved_words-forward, moved_count, moved_count-forward,
  moved_count-le-total,
}
use pudge_with_mo_ml.Pudge.Collect.Invariant.{Inv}

-- The collector changes the heap's words, the count of live objects and the roots of `w`.
abbrev pub during : Runtime → Memory → (count : ℕ) → (stack globals : List ℕ) → Runtime
during w m count stack globals = record w {
  mem = m;
  obj_count = count;
  stack = stack;
  globals = globals;
}

module _ (w : Runtime) (ts : List ℕ) where
  abbrev pub words_of : Forwarding → ℕ
  words_of f = moved_words f w.new_space ts

  abbrev pub count_of : Forwarding → ℕ
  count_of f = moved_count f w.new_space ts

  -- The copies from header word `cur` of the old space to word `end`, in a row.
  abbrev pub Row : Forwarding → (cur end : ℕ) → List (ℕ × ℕ) → Type 0
  Row f cur end [] = cur ≡ end
  Row f cur end ((p, s) ∷ cs) =
      IsObject p s w.new_space ts
      × (f p ≡ some (w.old_space + 8 * (cur + 1)))
      × Row f (cur + 1 + s) end cs

  -- What a step leaves that started with the forwarding `f`: `d` words of the copies are done, and
  -- the copies from word `tail` on are in a row.
  pub record Stage (stack globals : List ℕ) (f : Forwarding) (d tail : ℕ) (out : ℕ × Runtime)
      : Type 0 where
    pub forwarding : Forwarding
    pub memory : Memory
    pub copies : List (ℕ × ℕ)
    pub result : out ≡ (words_of forwarding, during w memory (count_of forwarding) stack globals)
    pub inv : Inv w ts forwarding d (words_of forwarding) memory
    pub row : Row forwarding tail (words_of forwarding) copies
    pub extends : (p q : ℕ) → f p ≡ some q → forwarding p ≡ some q

  pub forward-extends :
      (f : Forwarding) (p q : ℕ)
      → f p ≡ none
      → (p' q' : ℕ) → f p' ≡ some q'
      → forward f p q p' ≡ some q'
  forward-extends f p q e p' q' h = ground arith

  -- One more copy at the end of the row.
  pub Row-forward :
      (f : Forwarding) (p s cur end : ℕ) (cs : List (ℕ × ℕ))
      → IsObject p s w.new_space ts
      → f p ≡ none
      → Row f cur end cs
      → Row (forward f p (w.old_space + 8 * (end + 1))) cur (end + 1 + s) (cs ++ (p, s) ∷ [])
  Row-forward f p s cur end [] o e h = (o, ground arith, omega arith)
  Row-forward f p s cur end ((p', s') ∷ cs) o e h = (
    h.0,
    forward-extends f p (w.old_space + 8 * (end + 1)) e p' _ h.1,
    Row-forward f p s (cur + 1 + s') end cs o e h.2,
  )

  pub words_of-forward :
      (f : Forwarding) (p s q : ℕ)
      → IsObject p s w.new_space ts
      → f p ≡ none
      → words_of (forward f p q) ≡ words_of f + 1 + s
  words_of-forward f p s q o e = omega (arith, moved_words-forward f p s q w.new_space ts o e)

  -- The count of live objects does not wrap.
  pub count_of-forward :
      IsHeap w ts
      → (f : Forwarding) (p s q : ℕ) → IsObject p s w.new_space ts
      → f p ≡ none
      → add_word (count_of f) 1 ≡ count_of (forward f p q)
  count_of-forward heap f p s q o e = omega (
    arith,
    moved_count-forward f p s q w.new_space ts o e,
    moved_count-le-total f w.new_space ts,
    heap.filled,
    heap.within,
    heap.small,
  )

  pub Row-le : (f : Forwarding) (cur end : ℕ) (cs : List (ℕ × ℕ)) → Row f cur end cs → cur ≤ end
  Row-le f cur end [] h = omega arith
  Row-le f cur end ((p, s) ∷ cs) h = omega (arith, Row-le f (cur + 1 + s) end cs h.2)

  -- A row stays a row when more objects move, and two rows that meet are one.
  pub Row-extends :
      (f g : Forwarding) (cur end : ℕ) (cs : List (ℕ × ℕ))
      → ((p q : ℕ) → f p ≡ some q → g p ≡ some q)
      → Row f cur end cs
      → Row g cur end cs
  Row-extends f g cur end [] h r = r
  Row-extends f g cur end ((p, s) ∷ cs) h r =
      (r.0, h p _ r.1, Row-extends f g (cur + 1 + s) end cs h r.2)

  pub Row-snoc :
      (f : Forwarding) (p s cur mid : ℕ) (cs : List (ℕ × ℕ))
      → Row f cur mid cs
      → IsObject p s w.new_space ts
      → f p ≡ some (w.old_space + 8 * (mid + 1))
      → Row f cur (mid + 1 + s) (cs ++ (p, s) ∷ [])
  Row-snoc f p s cur mid [] r o e = (o, let e₀ : mid ≡ cur = omega arith in rw e₀ at e, omega arith)
  Row-snoc f p s cur mid ((p', s') ∷ cs) r o e =
      (r.0, r.1, Row-snoc f p s (cur + 1 + s') mid cs r.2 o e)
