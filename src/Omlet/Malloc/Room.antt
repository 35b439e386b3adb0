-- ===== src/Omlet/Malloc/Room.antt =====
-- `omlet_malloc` of OMLet/lib/gc.c where the heap has room.
use pudge_with_mo_ml.Base.{
  ℕ, ◌+◌, ◌-◌, ◌*◌, ◌^◌, ◌≤◌, ◌<◌, ◌≡◌, ◌≢◌, refl, ap, ◌∙◌, arith, ltb-false, ok, Returns,
}
use pudge_with_mo_ml.Memory.{store}
use pudge_with_mo_ml.Memory.Copy.{store_self, store_ne}
use pudge_with_mo_ml.Omlet.{Runtime, cur_heap, set_offset, cur_heap-set_offset}
use pudge_with_mo_ml.Omlet.Header.{
  make_header, get_tag, get_color, get_size, make_header_lem, color_unmarked,
}
use pudge_with_mo_ml.Omlet.Malloc.{omlet_malloc, bump, words_of_bytes}

module _ (fuel size tag : ℕ) (w : Runtime) (small : size ≤ 8 * (2 ^ 16 - 1)) (byte : tag < 2 ^ 8)
    (room : (cur_heap w).offset + size + 15 ≤ (cur_heap w).size) where
  abbrev pub words : ℕ
  words = words_of_bytes size

  abbrev pub front : ℕ
  front = (cur_heap w).start + (cur_heap w).offset

  abbrev pub new_offset : ℕ
  new_offset = (cur_heap w).offset + (8 + 8 * words)

  abbrev pub after : Runtime
  after = record (set_offset new_offset w) { mem = store w.mem front (make_header tag words) }

  pub runs_eq : omlet_malloc fuel size tag w ≡ ok (front + 8, after)
  unfolding omlet_malloc bump
  runs_eq = rw (ltb-false (cur_heap w).size new_offset (omega arith))

  header_eq : after.mem (front + 8 - 8) ≡ make_header tag words
  header_eq = ap after.mem (omega arith) ∙ store_self w.mem front (make_header tag words)

  -- For at most 2 ^ 16 - 1 words, `omlet_malloc` returns an object behind those in use: its header
  -- holds the tag, no mark and a size that is enough and fewer than 8 bytes too many; the part in
  -- use grows by the object and stays within the heap; no other word changes.
  pub omlet_malloc-Allocated :
      Returns
        (λ r.
          (r.0 ≡ (cur_heap w).start + (cur_heap w).offset + 8)
          × (get_tag (r.1.mem (r.0 - 8)) ≡ tag)
          × (get_color (r.1.mem (r.0 - 8)) ≡ color_unmarked)
          × (size ≤ 8 * get_size (r.1.mem (r.0 - 8)))
          × (8 * get_size (r.1.mem (r.0 - 8)) < size + 8)
          × ((cur_heap r.1).offset ≡ (cur_heap w).offset + 8 + 8 * get_size (r.1.mem (r.0 - 8)))
          × ((cur_heap r.1).offset ≤ (cur_heap w).size)
          × ((a : ℕ) → a ≢ r.0 - 8 → r.1.mem a ≡ w.mem a))
        (omlet_malloc fuel size tag w)
  omlet_malloc-Allocated =
      let h = make_header_lem tag words byte in
      let n : get_size (after.mem (front + 8 - 8)) ≡ words = rw header_eq (h.2 ∙ omega arith) in
      let o : (cur_heap after).offset ≡ new_offset =
        ap (λ g. g.offset)
          (cur_heap-set_offset new_offset (store w.mem front (make_header tag words)) w) in
      (
        (front + 8, after),
        runs_eq,
        (
          refl,
          rw header_eq h.0,
          rw header_eq h.1,
          omega arith,
          omega arith,
          omega arith,
          omega arith,
          λ a ne. store_ne w.mem front (make_header tag words) a (omega arith),
        ),
      )

-- What a program may rely on after an allocation of `n` words where there is room.
pub record Fresh (n : ℕ) (w : Runtime) (out : ℕ × Runtime) : Type 0 where
  pub pointer : out.0 ≡ (cur_heap w).start + (cur_heap w).offset + 8
  pub heap : cur_heap out.1 ≡ record (cur_heap w) { offset = (cur_heap w).offset + 8 + 8 * n }
  pub same : (b : ℕ) → b ≢ (cur_heap w).start + (cur_heap w).offset → out.1.mem b ≡ w.mem b

pub omlet_malloc-Fresh :
    (fuel n tag : ℕ) (w : Runtime)
    → n < 2 ^ 16
    → tag < 2 ^ 8
    → (cur_heap w).offset + 8 * n + 15 ≤ (cur_heap w).size
    → Returns (Fresh n w) (omlet_malloc fuel (8 * n) tag w)
omlet_malloc-Fresh fuel n tag w lt byte room =
    let small : 8 * n ≤ 8 * (2 ^ 16 - 1) = omega arith in
    (
      (front fuel (8 * n) tag w small byte room + 8, after fuel (8 * n) tag w small byte room),
      runs_eq fuel (8 * n) tag w small byte room,
      record {
        pointer = refl;
        heap =
            cur_heap-set_offset (new_offset fuel (8 * n) tag w small byte room)
              (after fuel (8 * n) tag w small byte room).mem w
            ∙ ap (λ o. record (cur_heap w) { offset = o }) (omega arith);
        same = λ b ne.
            store_ne w.mem (front fuel (8 * n) tag w small byte room)
              (make_header tag (words fuel (8 * n) tag w small byte room)) b ne;
      },
    )
