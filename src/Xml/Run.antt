-- ===== src/Xml/Run.antt =====
-- Runs of a program over XML/bin/runtime.c that makes closures, reads their words and collects.
pub mod Safety
use pudge_with_mo_ml.Base.{
  ℕ, ◌+◌, ◌*◌, ◌%◌, ◌^◌, ◌≤◌, ◌<◌, ◌≡◌, ◌≢◌, refl, sym, ap, ◌∙◌, ◌⊎◌, inl, inr, Bool, true, false,
  List, [], ◌∷◌, arith, Outcome, ok, exit, abort, fault, out_of_fuel, Returns, ◌==◌, ◌&&◌,
  if◌then◌else◌, Bool-cases,
}
use pudge_with_mo_ml.Memory.{holds}
use pudge_with_mo_ml.Xml.{Runtime, in_from, in_to}
use pudge_with_mo_ml.Xml.Value.{is_ptr}
use pudge_with_mo_ml.Xml.Heap.{
  IsObject, object_bounds, object_aligned, points, is_field, is_live, IsHeap, IsClean,
}
use pudge_with_mo_ml.Xml.Collect.{gc_collect}
use pudge_with_mo_ml.Xml.Collect.Preserve.{gc_collect-Kept}
use pudge_with_mo_ml.Xml.Alloc.{alloc_closure}
use pudge_with_mo_ml.Xml.Alloc.Fresh.{NewClosure, alloc_closure-NewClosure}

-- a word of the object at `p`, as its type and its length or arity tell
abbrev pub Inside : (p k : ℕ) → Runtime → Type 0
Inside p k w =
    ((w.mem p ≡ w.vt_block) × (k < 2 + w.mem (p + 8)))
    ⊎ ((w.mem p ≡ w.vt_closure) × (k < 4 + w.mem (p + 8)))

-- What the program does: it drops, copies or moves words of its stack and puts integers there, reads
-- a word of an object that the stack points to, makes a closure, or asks for a collection.
pub data Step (w : Runtime) : Runtime → Type 0 where
  arranges :
      (ss : List ℕ)
      → ((v : ℕ) → holds v ss ≡ true → (holds v w.stack ≡ true) ⊎ (is_ptr v ≡ false))
      → Step w (record w { stack = ss })
  reads :
      (p k : ℕ)
      → holds p w.stack ≡ true
      → points p w ≡ true
      → Inside p k w
      → is_field p k w ≡ true
      → Step w (record w { stack = w.mem (p + 8 * k) ∷ w.stack })
  allocates :
      {w' : Runtime} (code arity p : ℕ)
      → arity + 4 < 2 ^ 29
      → alloc_closure code arity w ≡ ok (p, w')
      → Step w (record w' { stack = p ∷ w'.stack })
  collects : {w' : Runtime} → gc_collect w ≡ ok w' → Step w w'

pub data Run (w : Runtime) : Runtime → Type 0 where
  start : Run w w
  step : {v w' : Runtime} → Run w v → Step v w' → Run w w'

pub record Sound (w : Runtime) : Type 0 where
  pub sizes : List ℕ
  pub heap : IsHeap w sizes
  pub clean : IsClean w sizes

-- Another stack leaves a heap if its words are good roots.
pub stack-Sound :
    (w : Runtime) (ss : List ℕ) (s : Sound w)
    → ((v : ℕ)
        → holds v ss ≡ true
        → points v w ≡ true
        → (t : ℕ) × IsObject v t w.from_start s.sizes)
    → ((v : ℕ) → holds v ss ≡ true → is_ptr v ≡ true → in_to v w ≡ false)
    → Sound (record w { stack = ss })
unfolding points is_live is_field in_from in_to
stack-Sound w ss s r c = record {
  sizes = s.sizes;
  heap = record {
    filled = s.heap.filled;
    within = s.heap.within;
    halves = s.heap.halves;
    disjoint = s.heap.disjoint;
    nonzero = s.heap.nonzero;
    small = s.heap.small;
    aligned = s.heap.aligned;
    tables = s.heap.tables;
    tables_elsewhere = s.heap.tables_elsewhere;
    typed = s.heap.typed;
    rounds_up = s.heap.rounds_up;
    fields = s.heap.fields;
    roots = r;
  };
  clean = record { fields = s.clean.fields; roots = c };
}

not_pointer : (v : ℕ) (w : Runtime) → is_ptr v ≡ false → points v w ≡ true → ⊥
unfolding points
not_pointer v w e h = ground arith

pub arranged :
    (w : Runtime) (ss : List ℕ)
    → Sound w
    → ((v : ℕ) → holds v ss ≡ true → (holds v w.stack ≡ true) ⊎ (is_ptr v ≡ false))
    → Sound (record w { stack = ss })
arranged w ss s h =
    stack-Sound w ss s
      (λ v hd pt. elim (h v hd) [
        | inl e ↦ s.heap.roots v e pt
        | inr e ↦ absurd (not_pointer v w e pt)
      ])
      (λ v hd pt. elim (h v hd) [
        | inl e ↦ s.clean.roots v e pt
        | inr e ↦ absurd (let z = pt in cc)
      ])
