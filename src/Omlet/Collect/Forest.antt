-- ===== src/Omlet/Collect/Forest.antt =====
-- Heaps of OMLet/lib/gc.c in which no object is pointed to twice: what a run of words leads to is
-- then a forest.
use pudge_with_mo_ml.Base.{ℕ, suc, ◌+◌, ◌-◌, ◌*◌, ◌≤◌, ◌<◌, ◌≡◌, ◌≢◌, ◌⊎◌, List, [], ◌∷◌}
use pudge_with_mo_ml.Memory.{Memory}
use pudge_with_mo_ml.Omlet.Header.{get_tag, get_color, get_size, t_closure, color_unmarked}

-- Some words in a row, each with what it leads to: a word that is no pointer, or the address `p` of
-- an object with header `h` and with its own words.
pub data Forest : Type 0 where
  nil : Forest
  word : (x : ℕ) → Forest → Forest
  object : (p h : ℕ) → Forest → Forest → Forest

abbrev pub count : Forest → ℕ
count nil = 0
count (word x ts) = suc (count ts)
count (object p h fs ts) = suc (count ts)

-- the bytes that the objects take, headers included
abbrev pub bytes : Forest → ℕ
bytes nil = 0
bytes (word x ts) = bytes ts
bytes (object p h fs ts) = 8 + 8 * get_size h + bytes fs + bytes ts

-- The words from `a` on are those of the forest, which has no objects.
abbrev pub Raw : Memory → ℕ → Forest → Type 0
Raw m a nil = Unit
Raw m a (word x ts) = (m a ≡ x) × Raw m (a + 8) ts
Raw m a (object p h fs ts) = ⊥

-- An object at `p` of the heap from `lo` to `hi` that is not marked.
pub record Node (lo hi : ℕ) (m : Memory) (p h : ℕ) (fs : Forest) : Type 0 where
  pub header : m (p - 8) ≡ h
  pub unmarked : get_color h ≡ color_unmarked
  pub low : lo + 8 ≤ p
  pub high : p + 8 * get_size h ≤ hi
  pub inside : p < hi
  pub full : count fs ≡ get_size h

-- The words from `a` on lead to the forest in the heap from `lo` to `hi`. The words of an object
-- that is no closure are not followed.
abbrev pub Leads : (lo hi : ℕ) → Memory → ℕ → Forest → Type 0
Leads lo hi m a nil = Unit
Leads lo hi m a (word x ts) = (m a ≡ x) × ((x < lo) ⊎ (hi ≤ x)) × Leads lo hi m (a + 8) ts
Leads lo hi m a (object p h fs ts) =
    (m a ≡ p)
    × Node lo hi m p h fs
    × (((get_tag h ≡ t_closure) × Leads lo hi m p fs) ⊎ ((get_tag h ≢ t_closure) × Raw m p fs))
    × Leads lo hi m (a + 8) ts

-- The same for words in a list, as the words of the stack are.
abbrev pub RootsLead : (lo hi : ℕ) → Memory → List ℕ → Forest → Type 0
RootsLead lo hi m [] nil = Unit
RootsLead lo hi m [] (word x ts) = ⊥
RootsLead lo hi m [] (object p h fs ts) = ⊥
RootsLead lo hi m (v ∷ vs) nil = ⊥
RootsLead lo hi m (v ∷ vs) (word x ts) = (v ≡ x) × ((x < lo) ⊎ (hi ≤ x)) × RootsLead lo hi m vs ts
RootsLead lo hi m (v ∷ vs) (object p h fs ts) =
    (v ≡ p)
    × Node lo hi m p h fs
    × (((get_tag h ≡ t_closure) × Leads lo hi m p fs) ⊎ ((get_tag h ≢ t_closure) × Raw m p fs))
    × RootsLead lo hi m vs ts

-- where the headers of the objects are
abbrev pub Marked : Forest → ℕ → Type 0
Marked nil b = ⊥
Marked (word x ts) b = Marked ts b
Marked (object p h fs ts) b = (b ≡ p - 8) ⊎ (Marked fs b ⊎ Marked ts b)

-- No address of an object satisfies `P`.
abbrev pub Free : (ℕ → Type 0) → Forest → Type 0
Free P nil = Unit
Free P (word x ts) = Free P ts
Free P (object p h fs ts) =
    ((b : ℕ) → p - 8 ≤ b → b < p + 8 * get_size h → P b → ⊥) × Free P fs × Free P ts

-- The header of an object stands apart from the objects that come after it.
abbrev pub Distinct : Forest → Type 0
Distinct nil = Unit
Distinct (word x ts) = Distinct ts
Distinct (object p h fs ts) =
    Free (λ b. b ≡ p - 8) fs × Free (λ b. (b ≡ p - 8) ⊎ Marked fs b) ts × Distinct fs × Distinct ts

-- The words from `a` on are those of the forest, with copies of its objects from `lo` to `hi`.
abbrev pub Copies : (lo hi : ℕ) → Memory → ℕ → Forest → Type 0
Copies lo hi m a nil = Unit
Copies lo hi m a (word x ts) = (m a ≡ x) × Copies lo hi m (a + 8) ts
Copies lo hi m a (object p h fs ts) =
    ((lo + 8 ≤ m a) × (m a + 8 * get_size h ≤ hi) × (m (m a - 8) ≡ h) × (count fs ≡ get_size h))
    × Copies lo hi m (m a) fs
    × Copies lo hi m (a + 8) ts

abbrev pub RootsCopied : (lo hi : ℕ) → Memory → List ℕ → Forest → Type 0
RootsCopied lo hi m [] nil = Unit
RootsCopied lo hi m [] (word x ts) = ⊥
RootsCopied lo hi m [] (object p h fs ts) = ⊥
RootsCopied lo hi m (v ∷ vs) nil = ⊥
RootsCopied lo hi m (v ∷ vs) (word x ts) = (v ≡ x) × RootsCopied lo hi m vs ts
RootsCopied lo hi m (v ∷ vs) (object p h fs ts) =
    ((lo + 8 ≤ v) × (v + 8 * get_size h ≤ hi) × (m (v - 8) ≡ h) × (count fs ≡ get_size h))
    × Copies lo hi m v fs
    × RootsCopied lo hi m vs ts
