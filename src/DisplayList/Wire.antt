-- ===== src/DisplayList/Wire.antt =====
-- The wire form of packages/ui/src/display_list/display_list.h: a record is a `CommandHeader` of
-- eight bytes and 32-bit fields, all little-endian, as `std::memcpy` reads and writes them.
use haxeon.Prelude.{
  ℕ, zero, suc, ◌+◌, ◌*◌, ◌/◌, ◌%◌, ◌^◌, ◌<◌, ◌≡◌, refl, List, [], ◌∷◌, ◌++◌, Option, none, some,
  arith, length, get_or, get_elem?, drop,
}

-- `CommandOpcode`, in the order of the enum, which starts at 1.
pub data Opcode : Type 0 where
  set_transform set_paint set_global_alpha set_composite_mode push_state pop_state : Opcode
  clip_rect draw_path draw_image draw_text_layout begin_layer end_layer : Opcode
  draw_render_target stroke_path draw_box_shadow draw_rect_border : Opcode

abbrev pub opcode_code : Opcode → ℕ
opcode_code set_transform = 1
opcode_code set_paint = 2
opcode_code set_global_alpha = 3
opcode_code set_composite_mode = 4
opcode_code push_state = 5
opcode_code pop_state = 6
opcode_code clip_rect = 7
opcode_code draw_path = 8
opcode_code draw_image = 9
opcode_code draw_text_layout = 10
opcode_code begin_layer = 11
opcode_code end_layer = 12
opcode_code draw_render_target = 13
opcode_code stroke_path = 14
opcode_code draw_box_shadow = 15
opcode_code draw_rect_border = 16

abbrev pub opcodes : List Opcode
opcodes =
    set_transform ∷ set_paint ∷ set_global_alpha ∷ set_composite_mode ∷ push_state ∷ pop_state
    ∷ clip_rect ∷ draw_path ∷ draw_image ∷ draw_text_layout ∷ begin_layer ∷ end_layer
    ∷ draw_render_target ∷ stroke_path ∷ draw_box_shadow ∷ draw_rect_border ∷ []

-- The case of the `switch` that a number selects; `none` is its default.
unfoldable pub opcode_of : ℕ → Option Opcode
opcode_of zero = none
opcode_of (suc n) = get_elem? opcodes n

pub opcode_of-code : (o : Opcode) → opcode_of (opcode_code o) ≡ some o
unfolding opcode_of
opcode_of-code set_transform = refl
opcode_of-code o = refl

pub record Header : Type 0 where
  pub opcode : ℕ
  pub version : ℕ
  pub size : ℕ

abbrev pub header_size : ℕ
header_size = 8

abbrev pub le16 : ℕ → ℕ → ℕ
le16 a b = a + 256 * b

abbrev pub le32 : ℕ → ℕ → ℕ → ℕ → ℕ
le32 a b c d = a + 256 * b + 65536 * c + 16777216 * d

-- `std::memcpy(&header, data + offset, sizeof(header))`; the code copies only where eight bytes
-- are left, so the last clause is never used.
unfoldable pub read_header : List ℕ → Header
read_header (a ∷ b ∷ c ∷ d ∷ e ∷ f ∷ g ∷ h ∷ _) = record {
  opcode = le16 a b;
  version = le16 c d;
  size = le32 e f g h;
}
read_header _ = record { opcode = 0; version = 0; size = 0 }

-- The 32-bit fields of a struct.
unfoldable pub words : List ℕ → List ℕ
words (a ∷ b ∷ c ∷ d ∷ r) = le32 a b c d ∷ words r
words _ = []

-- The fields of a record behind its header.
unfoldable pub fields : List ℕ → List ℕ
unfolding words
fields record_bytes = words (drop header_size record_bytes)

-- Field `k`. Each struct is read at its exact size, so the default is never used.
abbrev pub field_at : List ℕ → ℕ → ℕ
field_at ws k = get_or ws k 0

unfoldable pub put32 : ℕ → List ℕ
put32 w = w % 256 ∷ w / 256 % 256 ∷ w / 65536 % 256 ∷ w / 16777216 % 256 ∷ []

unfoldable pub put16 : ℕ → List ℕ
put16 w = w % 256 ∷ w / 256 % 256 ∷ []

unfoldable pub put_words : List ℕ → List ℕ
unfolding put32
put_words [] = []
put_words (w ∷ ws) = put32 w ++ put_words ws

-- A struct of type `T` with 32-bit fields `ws` behind its header, `command<T>(opcode)` with the
-- given version.
unfoldable pub encode : Opcode → ℕ → List ℕ → List ℕ
unfolding put16 put32 put_words
encode opcode version ws =
    put16 (opcode_code opcode)
    ++ (put16 version ++ (put32 (header_size + 4 * length ws) ++ put_words ws))

-- Each field fits 32 bits.
abbrev pub Fits : List ℕ → Type 0
Fits [] = Unit {0}
Fits (w ∷ ws) = (w < 2 ^ 32) × Fits ws

pub words-put_words : (ws : List ℕ) → Fits ws → words (put_words ws) ≡ ws
unfolding words put_words
words-put_words [] f = refl
words-put_words (w ∷ ws) f = ground (arith, words-put_words ws f.1)

pub length-put_words : (ws : List ℕ) → length (put_words ws) ≡ 4 * length ws
unfolding put_words
length-put_words [] = refl
length-put_words (w ∷ ws) = omega (arith, length-put_words ws)

pub length-encode : (o : Opcode) (v : ℕ) (ws : List ℕ) → length (encode o v ws) ≡ 8 + 4 * length ws
unfolding encode
length-encode o v ws = omega (arith, length-put_words ws)

-- What was written is read back, header and fields.
pub read-encode :
    (o : Opcode) (v : ℕ) (ws : List ℕ)
    → v < 2 ^ 16
    → header_size + 4 * length ws < 2 ^ 32
    → Fits ws
    → (read_header (encode o v ws)
        ≡ record { opcode = opcode_code o; version = v; size = header_size + 4 * length ws })
      × (fields (encode o v ws) ≡ ws)
unfolding read_header encode fields
read-encode set_transform v ws hv hs f = (ground arith, words-put_words ws f)
read-encode o v ws hv hs f = (ground arith, words-put_words ws f)
