-- ===== src/Omlet/Header.antt =====
-- `box_header_t` of OMLet/lib/gc.c as the word that it takes: from the lowest byte on, the tag, the
-- colour, the size in two bytes and the padding in four.
use pudge_with_mo_ml.Base.{ℕ, ◌+◌, ◌*◌, ◌/◌, ◌%◌, ◌^◌, ◌<◌, ◌≡◌, arith}

-- `T_UNBOXED`, `T_CLOSURE`, `COLOR_UNMARKED` and `COLOR_MARKED`
abbrev pub t_unboxed : ℕ
t_unboxed = 0

abbrev pub t_closure : ℕ
t_closure = 1

abbrev pub color_unmarked : ℕ
color_unmarked = 0

abbrev pub color_marked : ℕ
color_marked = 1

unfoldable pub get_tag : ℕ → ℕ
get_tag h = h % 2 ^ 8

unfoldable pub get_color : ℕ → ℕ
get_color h = h / 2 ^ 8 % 2 ^ 8

unfoldable pub get_size : ℕ → ℕ
get_size h = h / 2 ^ 16 % 2 ^ 16

-- The four stores of `omlet_malloc` into a header.
unfoldable pub make_header : (tag size : ℕ) → ℕ
make_header tag size = tag % 2 ^ 8 + color_unmarked * 2 ^ 8 + size % 2 ^ 16 * 2 ^ 16

-- `old_hdr->color = COLOR_MARKED`
unfoldable pub mark : ℕ → ℕ
mark h = h % 2 ^ 8 + color_marked * 2 ^ 8 + h / 2 ^ 16 * 2 ^ 16

-- To mark a header changes the colour alone.
pub mark_lem :
    (h : ℕ)
    → (get_color (mark h) ≡ color_marked)
      × (get_tag (mark h) ≡ get_tag h)
      × (get_size (mark h) ≡ get_size h)
unfolding get_color get_tag get_size mark
mark_lem h = (omega arith, omega arith, omega arith)

-- A header has the tag and, of the size, 16 bits; it is not marked.
pub make_header_lem :
    (tag size : ℕ)
    → tag < 2 ^ 8
    → (get_tag (make_header tag size) ≡ tag)
      × (get_color (make_header tag size) ≡ color_unmarked)
      × (get_size (make_header tag size) ≡ size % 2 ^ 16)
unfolding get_color get_tag get_size make_header
make_header_lem tag size h = (omega arith, omega arith, omega arith)
