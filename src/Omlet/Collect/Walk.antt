-- ===== src/Omlet/Collect/Walk.antt =====
-- What a run of words leads to while the memory changes in OMLet/lib/gc.c.
use pudge_with_mo_ml.Base.{
  ℕ, suc, ◌+◌, ◌-◌, ◌*◌, ◌≤◌, ◌<◌, ◌≡◌, refl, ◌∙◌, ap, inl, inr, List, [], ◌∷◌, arith,
}
use pudge_with_mo_ml.Memory.{Memory}
use pudge_with_mo_ml.Omlet.Header.{get_size}
use pudge_with_mo_ml.Omlet.Collect.Forest.{
  Forest, nil, word, object, count, bytes, Raw, Node, Leads, RootsLead, Marked, Free, Copies,
  RootsCopied,
}

-- the words of a run, when it is seen from its second word on
tail_words :
    (m m' : Memory) (a a' n : ℕ)
    → ((k : ℕ) → k < suc n → m' (a' + 8 * k) ≡ m (a + 8 * k))
    → (k : ℕ) → k < n
    → m' (a' + 8 + 8 * k) ≡ m (a + 8 + 8 * k)
tail_words m m' a a' n h k lt =
    let e : a + 8 + 8 * k ≡ a + 8 * (k + 1) = omega arith in
    let e' : a' + 8 + 8 * k ≡ a' + 8 * (k + 1) = omega arith in rw (e, e') (h (k + 1) (omega arith))

head_word :
    (m m' : Memory) (a a' n : ℕ)
    → ((k : ℕ) → k < suc n → m' (a' + 8 * k) ≡ m (a + 8 * k))
    → m' a' ≡ m a
head_word m m' a a' n h =
    let e : a ≡ a + 8 * 0 = omega arith in
    let e' : a' ≡ a' + 8 * 0 = omega arith in
    ap m' e' ∙ h 0 (omega arith) ∙ ap m (let z : a + 8 * 0 ≡ a = omega arith in z)

pub Raw-moved :
    (m m' : Memory) (a a' : ℕ) (fs : Forest)
    → ((k : ℕ) → k < count fs → m' (a' + 8 * k) ≡ m (a + 8 * k))
    → Raw m a fs
    → Raw m' a' fs
Raw-moved m m' a a' nil h r = tt
Raw-moved m m' a a' (word x ts) h r = (
  head_word m m' a a' (count ts) h ∙ r.0,
  Raw-moved m m' (a + 8) (a' + 8) ts (tail_words m m' a a' (count ts) h) r.1,
)
Raw-moved m m' a a' (object p h fs ts) e r = absurd r

module _ (lo hi : ℕ) (P : ℕ → Type 0) (m m' : Memory)
    (same : (b : ℕ) → lo ≤ b → b < hi → (P b → ⊥) → m' b ≡ m b) where
  own_words :
      (p h : ℕ)
      → lo + 8 ≤ p
      → p + 8 * get_size h ≤ hi
      → ((b : ℕ) → p - 8 ≤ b → b < p + 8 * get_size h → P b → ⊥)
      → (k : ℕ) → k < get_size h
      → m' (p + 8 * k) ≡ m (p + 8 * k)
  own_words p h l u f k lt =
      same (p + 8 * k) (omega arith) (omega arith) (f (p + 8 * k) (omega arith) (omega arith))

  Node-moved :
      (p h : ℕ) (fs : Forest)
      → ((b : ℕ) → p - 8 ≤ b → b < p + 8 * get_size h → P b → ⊥)
      → Node lo hi m p h fs
      → Node lo hi m' p h fs
  Node-moved p h fs f d = record {
    header =
        same (p - 8) (omega (arith, d.low)) (omega (arith, d.low, d.inside))
          (f (p - 8) (omega arith) (omega (arith, d.low)))
        ∙ d.header;
    unmarked = d.unmarked;
    low = d.low;
    high = d.high;
    inside = d.inside;
    full = d.full;
  }

  -- The words that `P` names may change, and the run may be elsewhere.
  pub Leads-moved :
      (fs : Forest) (a a' : ℕ)
      → Free P fs
      → ((k : ℕ) → k < count fs → m' (a' + 8 * k) ≡ m (a + 8 * k))
      → Leads lo hi m a fs
      → Leads lo hi m' a' fs
  Leads-moved nil a a' f h l = tt
  Leads-moved (word x ts) a a' f h l = (
    head_word m m' a a' (count ts) h ∙ l.0,
    l.1,
    Leads-moved ts (a + 8) (a' + 8) f (tail_words m m' a a' (count ts) h) l.2,
  )
  Leads-moved (object p h fs ts) a a' f e (at, d, kind, rest) =
      let own : ((k : ℕ) → k < count fs → m' (p + 8 * k) ≡ m (p + 8 * k)) =
        λ k lt. own_words p h d.low d.high f.0 k (omega (arith, d.full)) in
      (
        head_word m m' a a' (count ts) e ∙ at,
        Node-moved p h fs f.0 d,
        elim kind [
          | inl (t, l) ↦ inl (t, Leads-moved fs p p f.1 own l)
          | inr (t, r) ↦ inr (t, Raw-moved m m' p p fs own r)
        ],
        Leads-moved ts (a + 8) (a' + 8) f.2 (tail_words m m' a a' (count ts) e) rest,
      )

  -- The same for a list of words.
  pub RootsLead-moved :
      (vs : List ℕ) (ts : Forest) → Free P ts → RootsLead lo hi m vs ts → RootsLead lo hi m' vs ts
  RootsLead-moved [] nil f l = tt
  RootsLead-moved [] (word x ts) f l = absurd l
  RootsLead-moved [] (object p h fs ts) f l = absurd l
  RootsLead-moved (v ∷ vs) nil f l = absurd l
  RootsLead-moved (v ∷ vs) (word x ts) f l = (l.0, l.1, RootsLead-moved vs ts f l.2)
  RootsLead-moved (v ∷ vs) (object p h fs ts) f (at, d, kind, rest) =
      let own : ((k : ℕ) → k < count fs → m' (p + 8 * k) ≡ m (p + 8 * k)) =
        λ k lt. own_words p h d.low d.high f.0 k (omega (arith, d.full)) in
      (
        at,
        Node-moved p h fs f.0 d,
        elim kind [
          | inl (t, l) ↦ inl (t, Leads-moved fs p p f.1 own l)
          | inr (t, r) ↦ inr (t, Raw-moved m m' p p fs own r)
        ],
        RootsLead-moved vs ts f.2 rest,
      )

pub Raw-bytes : (m : Memory) (a : ℕ) (fs : Forest) → Raw m a fs → bytes fs ≡ 0
Raw-bytes m a nil r = refl
Raw-bytes m a (word x ts) r = Raw-bytes m (a + 8) ts r.1
Raw-bytes m a (object p h fs ts) r = absurd r

pub Raw-Copies : (lo hi : ℕ) (m : Memory) (a : ℕ) (fs : Forest) → Raw m a fs → Copies lo hi m a fs
Raw-Copies lo hi m a nil r = tt
Raw-Copies lo hi m a (word x ts) r = (r.0, Raw-Copies lo hi m (a + 8) ts r.1)
Raw-Copies lo hi m a (object p h fs ts) r = absurd r

pub Raw-unmarked : (m : Memory) (a : ℕ) (fs : Forest) (b : ℕ) → Raw m a fs → Marked fs b → ⊥
Raw-unmarked m a nil b r h = absurd h
Raw-unmarked m a (word x ts) b r h = Raw-unmarked m (a + 8) ts b r.1 h
Raw-unmarked m a (object p h fs ts) b r x = absurd r

-- Headers are in the heap.
pub Leads-Marked :
    (lo hi : ℕ) (m : Memory) (a : ℕ) (fs : Forest) (b : ℕ)
    → Leads lo hi m a fs
    → Marked fs b
    → (lo ≤ b) × (b < hi)
Leads-Marked lo hi m a nil b l h = absurd h
Leads-Marked lo hi m a (word x ts) b l h = Leads-Marked lo hi m (a + 8) ts b l.2 h
Leads-Marked lo hi m a (object p h fs ts) b (at, d, kind, rest) (inl e) =
    (omega (arith, d.low), omega (arith, d.low, d.inside))
Leads-Marked lo hi m a (object p h fs ts) b (at, d, inl (t, l), rest) (inr (inl x)) =
    Leads-Marked lo hi m p fs b l x
Leads-Marked lo hi m a (object p h fs ts) b (at, d, inr (t, r), rest) (inr (inl x)) =
    absurd (Raw-unmarked m p fs b r x)
Leads-Marked lo hi m a (object p h fs ts) b (at, d, kind, rest) (inr (inr x)) =
    Leads-Marked lo hi m (a + 8) ts b rest x

pub RootsLead-Marked :
    (lo hi : ℕ) (m : Memory) (vs : List ℕ) (ts : Forest) (b : ℕ)
    → RootsLead lo hi m vs ts
    → Marked ts b
    → (lo ≤ b) × (b < hi)
RootsLead-Marked lo hi m vs nil b l h = absurd h
RootsLead-Marked lo hi m [] (word x ts) b l h = absurd l
RootsLead-Marked lo hi m [] (object p h fs ts) b l x = absurd l
RootsLead-Marked lo hi m (v ∷ vs) (word x ts) b l h = RootsLead-Marked lo hi m vs ts b l.2 h
RootsLead-Marked lo hi m (v ∷ vs) (object p h fs ts) b (at, d, kind, rest) (inl e) =
    (omega (arith, d.low), omega (arith, d.low, d.inside))
RootsLead-Marked lo hi m (v ∷ vs) (object p h fs ts) b (at, d, inl (t, l), rest) (inr (inl x)) =
    Leads-Marked lo hi m p fs b l x
RootsLead-Marked lo hi m (v ∷ vs) (object p h fs ts) b (at, d, inr (t, r), rest) (inr (inl x)) =
    absurd (Raw-unmarked m p fs b r x)
RootsLead-Marked lo hi m (v ∷ vs) (object p h fs ts) b (at, d, kind, rest) (inr (inr x)) =
    RootsLead-Marked lo hi m vs ts b rest x

-- Copies stay when their words and those of the run do, and they lie in every larger region.
module _ (lo hi : ℕ) (m m' : Memory) (same : (b : ℕ) → lo ≤ b → b < hi → m' b ≡ m b) (lo' hi' : ℕ)
    (le : lo' ≤ lo) (ge : hi ≤ hi') where
  pub Copies-kept :
      (fs : Forest) (a : ℕ)
      → ((k : ℕ) → k < count fs → m' (a + 8 * k) ≡ m (a + 8 * k))
      → Copies lo hi m a fs
      → Copies lo' hi' m' a fs
  Copies-kept nil a h c = tt
  Copies-kept (word x ts) a h c = (
    head_word m m' a a (count ts) h ∙ c.0,
    Copies-kept ts (a + 8) (tail_words m m' a a (count ts) h) c.1,
  )
  Copies-kept (object p h fs ts) a e ((low, high, head, full), own, rest) =
      let z : m' a ≡ m a = head_word m m' a a (count ts) e in
      rw z (
        (omega arith, omega arith, same (m a - 8) (omega arith) (omega arith) ∙ head, full),
        Copies-kept fs (m a) (λ k lt. same (m a + 8 * k) (omega arith) (omega arith)) own,
        Copies-kept ts (a + 8) (tail_words m m' a a (count ts) e) rest,
      )

  pub RootsCopied-kept :
      (vs : List ℕ) (ts : Forest) → RootsCopied lo hi m vs ts → RootsCopied lo' hi' m' vs ts
  RootsCopied-kept [] nil c = tt
  RootsCopied-kept [] (word x ts) c = absurd c
  RootsCopied-kept [] (object p h fs ts) c = absurd c
  RootsCopied-kept (v ∷ vs) nil c = absurd c
  RootsCopied-kept (v ∷ vs) (word x ts) c = (c.0, RootsCopied-kept vs ts c.1)
  RootsCopied-kept (v ∷ vs) (object p h fs ts) ((low, high, head, full), own, rest) = (
    (omega arith, omega arith, same (v - 8) (omega arith) (omega arith) ∙ head, full),
    Copies-kept fs v (λ k lt. same (v + 8 * k) (omega arith) (omega arith)) own,
    RootsCopied-kept vs ts rest,
  )
