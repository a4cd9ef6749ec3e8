-- ===== src/Compositor/Hash.antt =====
-- `assign_effect_cache_keys` of packages/ui/src/compositor/compositor.cpp. What is hashed is a list of
-- 32-bit words, each as four bytes from the lowest.
pub mod Keys
use Prim.Native.Nat.{bit_xor}
use haxeon.Prelude.{
  ℕ, ◌+◌, ◌*◌, ◌/◌, ◌%◌, ◌^◌, Bool, true, false, List, [], ◌∷◌, ◌++◌, Option, none, some, ◌==◌,
  if◌then◌else◌,
}
use haxeon.DisplayList.Effects.{MaskDescriptor}
use haxeon.RenderPlan.Types.{
  RenderCommand, RenderCommandKind, RenderPass, RenderPassKind, RenderTargetDescriptor,
  path_command, image_command, glyph_batch, composite_target, stroke_path_command,
  box_shadow_command, rect_border_command, draw_pass, effect_pass, mask_pass, raster_pass,
}

abbrev pub hash_offset : ℕ
hash_offset = 1469598103934665603

abbrev hash_prime : ℕ
hash_prime = 1099511628211

-- One round of `hash_u32`.
unfoldable pub hash_byte : ℕ → ℕ → ℕ
hash_byte byte hash = bit_xor hash byte * hash_prime % 2 ^ 64

unfoldable pub hash_u32 : ℕ → ℕ → ℕ
unfolding hash_byte
hash_u32 value hash = hash_byte (value / 2 ^ 24 % 256) (
    hash_byte (value / 2 ^ 16 % 256)
      (hash_byte (value / 2 ^ 8 % 256) (hash_byte (value % 256) hash)))

unfoldable pub hash_words : List ℕ → ℕ → ℕ
unfolding hash_u32
hash_words [] hash = hash
hash_words (w ∷ ws) hash = hash_words ws (hash_u32 w hash)

-- `hash_u64`
abbrev pub u64_words : ℕ → List ℕ
u64_words value = value % 2 ^ 32 ∷ value / 2 ^ 32 % 2 ^ 32 ∷ []

abbrev pub bool_word : Bool → ℕ
bool_word true = 1
bool_word false = 0

abbrev pub command_code : RenderCommandKind → ℕ
command_code path_command = 1
command_code image_command = 2
command_code glyph_batch = 3
command_code composite_target = 4
command_code stroke_path_command = 5
command_code box_shadow_command = 6
command_code rect_border_command = 7

abbrev pub pass_code : RenderPassKind → ℕ
pass_code draw_pass = 1
pass_code effect_pass = 2
pass_code mask_pass = 3
pass_code raster_pass = 4

-- `hash_command`
unfoldable pub command_words : RenderCommand → List ℕ
command_words c =
    (command_code c.kind ∷ c.resource ∷ c.x ∷ c.y ∷ c.width ∷ c.height ∷ c.opacity ∷ c.transform)
    ++ (c.paint
        ∷ c.composite
        ∷ bool_word c.has_scissor
        ∷ c.scissor_x
        ∷ c.scissor_y
        ∷ c.scissor_width
        ∷ c.scissor_height
        ∷ c.stroke_width
        ∷ c.line_cap
        ∷ c.line_join
        ∷ c.miter_limit
        ∷ bool_word c.custom_payload
        ∷ [])
    ++ u64_words c.content_generation
    ++ (c.box_shadow.offset_x ∷ c.box_shadow.offset_y ∷ c.box_shadow.blur_sigma
        ∷ c.box_shadow.spread ∷ c.box_shadow.radii)
    ++ c.box_shadow.color
    ++ (c.rect_border.width ∷ c.rect_border.color)

-- `hash_descriptor`, which leaves the generation out.
unfoldable pub descriptor_words : RenderTargetDescriptor → List ℕ
descriptor_words d =
    d.width ∷ d.height ∷ d.logical_width ∷ d.logical_height ∷ d.origin_x ∷ d.origin_y ∷ d.format
    ∷ d.sample_count ∷ d.usage ∷ []

-- `hash_effect`
unfoldable pub effect_words : RenderPass → List ℕ
effect_words p =
    (p.effect.kind ∷ p.effect.color_matrix)
    ++ (p.custom_effect.registration_id ∷ p.custom_effect.parameter_count
        ∷ p.custom_effect.pass_count ∷ p.custom_effect.sampling_inputs ∷ p.custom_effect.parameters)
    ++ p.custom_effect.ink_overflow
    ++ (bool_word p.backdrop ∷ bool_word p.has_input_rect ∷ p.input_rect)

-- `hash_mask`
unfoldable pub mask_hash_words : MaskDescriptor → List ℕ
mask_hash_words m = m.kind ∷ m.image ∷ m.values

abbrev pub commands_words : List RenderCommand → List ℕ
commands_words [] = []
commands_words (c ∷ cs) = command_words c ++ commands_words cs

-- `target_hashes`: the newest entry of a target stands first.
abbrev pub Hashes : Type 0
Hashes = List (ℕ × ℕ)

abbrev pub known_hash : ℕ → Hashes → Option ℕ
known_hash target [] = none
known_hash target ((t, h) ∷ hs) =
    let rest = known_hash target hs in if t == target then some h else rest

abbrev pub content_hash : ℕ → Option ℕ → ℕ
content_hash target (some h) = h
content_hash target none = hash_words (target ∷ []) hash_offset

-- `target_content_hash`
unfoldable pub target_content_hash : Hashes → ℕ → ℕ
unfolding hash_words
target_content_hash hs target = content_hash target (known_hash target hs)

abbrev previous_words : Option ℕ → List ℕ
previous_words none = []
previous_words (some h) = u64_words h

-- What the key of a pass is made of.
unfoldable pub pass_words : Hashes → RenderPass → List ℕ
pass_words hs p = elim p.kind [
  | draw_pass ↦ drawn
  | raster_pass ↦ drawn
  | effect_pass ↦
      pass_code p.kind
      ∷ (u64_words (target_content_hash hs p.input_target)
          ++ effect_words p
          ++ descriptor_words p.target_descriptor
          ++ bool_word p.load_existing ∷ [])
  | mask_pass ↦
      pass_code p.kind
      ∷ (u64_words (target_content_hash hs p.input_target)
          ++ mask_hash_words p.mask
          ++ descriptor_words p.target_descriptor
          ++ bool_word p.load_existing ∷ [])
]
  where
    drawn : List ℕ
    drawn =
        pass_code p.kind
        ∷ bool_word p.load_existing
        ∷ (descriptor_words p.target_descriptor
            ++ commands_words p.commands
            ++ previous_words (known_hash p.target hs))

-- `hash ? hash : 1`
abbrev pub nonzero_hash : ℕ → ℕ
nonzero_hash h = if h == 0 then 1 else h

unfoldable pub pass_key : Hashes → RenderPass → ℕ
unfolding hash_words pass_words
pass_key hs p = nonzero_hash (hash_words (pass_words hs p) hash_offset)

unfoldable pub assign_effect_cache_keys : Hashes → List RenderPass → List RenderPass
assign_effect_cache_keys hs [] = []
assign_effect_cache_keys hs (p ∷ ps) =
    let key = pass_key hs p in
    record p { cache_key = key } ∷ assign_effect_cache_keys ((p.target, key) ∷ hs) ps
