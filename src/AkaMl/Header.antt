-- ===== src/AkaMl/Header.antt =====
-- Object headers of akaML/lib/runtime/runtime.c.
use pudge_with_mo_ml.Base.{
  ℕ, zero, suc, ◌||◌, if◌then◌else◌, ◌+◌, ◌*◌, ◌/◌, ◌%◌, ◌^◌, ◌<◌, ◌≡◌, Bool, true, arith, ◌==◌,
}

-- `TAG_CLOSURE`
abbrev pub tag_closure : ℕ
tag_closure = 247

-- the bits of `a | b` below bit `n`
abbrev pub or_bits : (n a b : ℕ) → ℕ
or_bits zero a b = 0
or_bits (suc n) a b = (if a % 2 == 1 || b % 2 == 1 then 1 else 0) + 2 * or_bits n (a / 2) (b / 2)

-- `SET_HEADER`: above its lowest 8 bits the tag runs into the 15 bits of the size.
unfoldable pub set_header : (size tag : ℕ) → ℕ
set_header size tag =
    let high = if tag / 256 == 0 then size % 2 ^ 15 else or_bits 15 size (tag / 256) in
    high * 2 ^ 49 + tag % 256 * 2 ^ 41

-- `GET_SIZE`, `GET_TAG` and `IS_HEADER`, of a header word
unfoldable pub get_size : ℕ → ℕ
get_size h = h / 2 ^ 49 % 2 ^ 14

unfoldable pub get_tag : ℕ → ℕ
get_tag h = h / 2 ^ 41 % 256

unfoldable pub is_header : ℕ → Bool
is_header v = v % 2 ^ 40 == 0

-- A header is recognised as one and gives its tag back. Of the size it gives back 14 bits.
pub set_header_lem :
    (size tag : ℕ)
    → tag < 256
    → (get_size (set_header size tag) ≡ size % 2 ^ 14)
      × (get_tag (set_header size tag) ≡ tag)
      × (is_header (set_header size tag) ≡ true)
unfolding set_header get_size get_tag is_header
set_header_lem size tag h =
    let e : (tag / 256 == 0) ≡ true = ground arith in rw e (omega arith, omega arith, ground arith)
