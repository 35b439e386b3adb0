-- ===== src/Pudge/Closure/Moved.antt =====
-- What an allocation in PudgeWithMoML/lib/runtime/runtime.c may have done to the heap before it took
-- its object: nothing, or one collection, seen as one forwarding.
use pudge_with_mo_ml.Base.{ℕ, ◌+◌, ◌*◌, ◌<◌, ◌≡◌, sym, refl, inl, inr, List, none}
use pudge_with_mo_ml.Forwarding.{Forwarding, forwarded, forwarded_all, forwarded_all-none}
use pudge_with_mo_ml.Pudge.{Runtime}
use pudge_with_mo_ml.Pudge.Collect.{is_reference}
use pudge_with_mo_ml.Pudge.Heap.{IsObject, IsHeap, IsClean, Reachable}
use pudge_with_mo_ml.Pudge.Collect.Graph.{Collected}
use pudge_with_mo_ml.Pudge.Malloc.Grow.{IsPlain}
use pudge_with_mo_ml.Pudge.Malloc.Room.{Ready}
use pudge_with_mo_ml.Pudge.Closure.Values.{
  IsValue, plain_forwarded, forwarded-IsValue, word_forwarded,
}

-- The heap does not depend on the stack.
pub stack-IsHeap :
    (w : Runtime) (ts ss : List ℕ) → IsHeap w ts → IsHeap (record w { stack = ss }) ts
unfolding is_reference
stack-IsHeap w ts ss h = record {
  filled = h.filled;
  within = h.within;
  small = h.small;
  aligned = h.aligned;
  aligned_old = h.aligned_old;
  disjoint = h.disjoint;
  header = h.header;
  positive = h.positive;
  references = h.references;
}

pub stack-IsClean :
    (w : Runtime) (ts ss : List ℕ) → IsClean w ts → IsClean (record w { stack = ss }) ts
stack-IsClean w ts ss c = record { not_old = c.not_old; not_free = c.not_free }

module _ (w : Runtime) (ts : List ℕ) where
  -- The state `b` with objects of sizes `us` is `w` with the reachable objects forwarded.
  pub record Moved (b : Runtime) (us : List ℕ) : Type 0 where
    pub forwarding : Forwarding
    pub stack : b.stack ≡ forwarded_all forwarding w.stack
    pub globals : b.globals ≡ forwarded_all forwarding w.globals
    pub objects :
        (p s : ℕ)
        → IsObject p s w.new_space ts
        → Reachable w ts p
        → IsObject (forwarded forwarding p) s b.new_space us
    pub words :
        (p s k : ℕ)
        → IsObject p s w.new_space ts
        → Reachable w ts p
        → k < s
        → b.mem (forwarded forwarding p + 8 * k) ≡ forwarded forwarding (w.mem (p + 8 * k))
    pub values :
        (v : ℕ)
        → IsValue v w ts
        → ((t : ℕ) → IsObject v t w.new_space ts → Reachable w ts v)
        → IsValue (forwarded forwarding v) b us
    pub plain : (v : ℕ) → IsPlain v w → forwarded forwarding v ≡ v

  abbrev nowhere : Forwarding
  nowhere v = none

  pub stays : Moved w ts
  stays = record {
    forwarding = nowhere;
    stack = sym (forwarded_all-none w.stack);
    globals = sym (forwarded_all-none w.globals);
    objects = λ p s o r. o;
    words = λ p s k o r lt. refl;
    values = λ v h r. h;
    plain = λ v h. refl;
  }

  pub collected :
      IsHeap w ts → IsClean w ts → (b : Runtime) (c : Collected w ts b) → Moved b c.sizes
  collected heap clean b c = record {
    forwarding = c.forwarding;
    stack = c.stack;
    globals = c.globals;
    objects = λ p s o r.
        let (q, e) = (c.exact p s o).0 r in
        let e' : forwarded c.forwarding p ≡ q = rw (e, forwarded) in rw e' (c.copies p s q o e);
    words = λ p s k o r lt.
        let (q, e) = (c.exact p s o).0 r in
        let e' : forwarded c.forwarding p ≡ q = rw (e, forwarded) in
        rw e' (word_forwarded w ts heap clean b c p s q k o e lt);
    values = λ v h r. forwarded-IsValue w ts heap clean b c v h r;
    plain = λ v h. plain_forwarded w ts heap clean b c v h;
  }

  pub Ready-Moved :
      IsHeap w ts → IsClean w ts → (b : Runtime) (us : List ℕ) → Ready w ts b us → Moved b us
  Ready-Moved heap clean b us (inl (e, z)) = rw (e, z) stays
  Ready-Moved heap clean b us (inr (c, z)) = rw z (collected heap clean b c)
