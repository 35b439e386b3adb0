-- ===== src/Xml/Collect/Forward.antt =====
-- What `forward_obj` of XML/bin/runtime.c promises about one object.
use pudge_with_mo_ml.Base.{
  ltb-true, leb-true, ℕ, ◌+◌, ◌*◌, ◌/◌, ◌%◌, ◌^◌, ◌≤◌, ◌<◌, ◌≡◌, ◌≢◌, refl, ◌⊎◌, ◌∙◌, true, false,
  arith, ltb-false, ok, Returns,
}
use pudge_with_mo_ml.Memory.{store, copy_words}
use pudge_with_mo_ml.Memory.Copy.{copy_words_self, copy_words-Outside, store_ne, store_self}
use pudge_with_mo_ml.Xml.{Runtime, in_from, in_to}
use pudge_with_mo_ml.Xml.Collect.{forward_obj, move_obj, size_bytes, round_up}

-- An object of the from-space that is not forwarded yet, for which the to-space has room.
module _ (old sz : ℕ) (w : Runtime) where
  pub record IsFresh : Type 0 where
    pub inside : in_from old w ≡ true
    pub not_moved : in_to (w.mem old) w ≡ false
    pub sized : size_bytes old w ≡ ok sz
    pub whole : sz % 8 ≡ 0
    pub bounded : sz < 2 ^ 32
    pub two_words : 16 ≤ sz
    pub from_below : w.to_start ≤ w.to_alloc
    pub room : w.to_alloc + sz ≤ w.to_end
    pub apart : (old + sz ≤ w.to_start) ⊎ (w.to_end ≤ old)

  abbrev moved : Runtime
  moved = record w {
    mem = store (copy_words w.mem w.to_alloc old (sz / 8)) old w.to_alloc;
    to_alloc = w.to_alloc + sz;
  }

  module _ (h : IsFresh) where
    rounded : round_up sz ≡ sz
    unfolding round_up
    rounded = omega (arith, h.whole, h.bounded)

    first : forward_obj old w ≡ ok (w.to_alloc, moved)
    unfolding forward_obj move_obj
    first =
        rw (h.inside, h.not_moved, h.sized, rounded, ltb-false w.to_end (w.to_alloc + sz) h.room)

    stored : moved.mem old ≡ w.to_alloc
    stored = store_self (copy_words w.mem w.to_alloc old (sz / 8)) old w.to_alloc

    inside_still : in_from old moved ≡ true
    unfolding in_from
    inside_still = h.inside

    address_in_to : in_to w.to_alloc moved ≡ true
    unfolding in_to
    address_in_to = rw (
      leb-true w.to_start w.to_alloc h.from_below,
      ltb-true w.to_alloc w.to_end (omega (arith, h.room, h.two_words)),
    )

    again : forward_obj old moved ≡ ok (w.to_alloc, moved)
    unfolding forward_obj
    again =
        let e : in_to (moved.mem old) moved ≡ true = rw stored address_in_to in
        rw (inside_still, e, stored)

    word : (k : ℕ) → k < sz / 8 → moved.mem (w.to_alloc + 8 * k) ≡ w.mem (old + 8 * k)
    word k lt =
        store_ne (copy_words w.mem w.to_alloc old (sz / 8)) old w.to_alloc (w.to_alloc + 8 * k)
          (omega (arith, h.apart, h.from_below, h.room, h.whole))
        ∙ copy_words_self w.mem w.to_alloc old (sz / 8) k
            (omega (arith, h.apart, h.from_below, h.room)) lt

    elsewhere : (b : ℕ) → b ≢ old → (b < w.to_alloc) ⊎ (w.to_alloc + sz ≤ b) → moved.mem b ≡ w.mem b
    elsewhere b ne out =
        store_ne (copy_words w.mem w.to_alloc old (sz / 8)) old w.to_alloc b ne
        ∙ copy_words-Outside w.mem w.to_alloc old (sz / 8) b (omega (arith, h.whole))

    -- An object of fewer than 2 ^ 32 bytes that is not forwarded yet is copied word by word to where the copies end, which moves
    -- on by its size; its first word is then the address of the copy, no other word outside the copy
    -- has changed, and to forward it a second time gives the same address and changes nothing.
    pub forward_obj-twice :
        Returns
          (λ r.
            (r.0 ≡ w.to_alloc)
            × (r.1.to_alloc ≡ w.to_alloc + sz)
            × (r.1.mem old ≡ r.0)
            × ((b : ℕ) → b ≢ old → (b < w.to_alloc) ⊎ (w.to_alloc + sz ≤ b) → r.1.mem b ≡ w.mem b)
            × ((k : ℕ) → k < sz / 8 → r.1.mem (r.0 + 8 * k) ≡ w.mem (old + 8 * k))
            × (forward_obj old r.1 ≡ ok r))
          (forward_obj old w)
    forward_obj-twice = ((w.to_alloc, moved), first, (refl, refl, stored, elsewhere, word, again))
