-- ===== src/DisplayList/Commands.antt =====
-- The `switch` of `validate_display_list` in packages/ui/src/display_list/display_list.cpp: what
-- one record must hold, and what it does to the two scope depths.
mod Sizes
pub use Sizes.*
use haxeon.Prelude.{
  ℕ, zero, suc, ◌+◌, ◌-◌, ◌*◌, Bool, ◌&&◌, ◌||◌, not, List, [], ◌∷◌, Option, none, some, Outcome,
  ok, err, ltb, leb, ◌==◌, if◌then◌else◌, take, drop, all,
}
use haxeon.Float32.{is_finite, flt, float_zero, in_unit, fle, float_one, Arith}
use haxeon.ResourceId.{ResourceKind, is_resource_id}
use haxeon.DisplayList.Wire.{
  Opcode, set_transform, set_paint, set_global_alpha, set_composite_mode, push_state, pop_state,
  clip_rect, draw_path, draw_image, draw_text_layout, begin_layer, end_layer, draw_render_target,
  stroke_path, draw_box_shadow, draw_rect_border, Header, field_at,
}
use haxeon.DisplayList.Effects.{
  EffectOpCommand, effect_none, read_base, read_effect, read_custom, read_mask, read_operation,
  effect_program_max_ops, layer_isolated, valid_rect, valid_composite,
  valid_custom_effect_descriptor, valid_effect, valid_effect_op, valid_mask, valid_layer_base,
}

-- The messages of `ValidationError`, one for each `fail` of the code.
pub data Message : Type 0 where
  invalid_storage truncated_header unsupported_version invalid_size : Message
  invalid_transform non_finite_transform invalid_paint invalid_alpha : Message
  unsupported_composite invalid_push unbalanced_pop invalid_clip invalid_path : Message
  invalid_stroke invalid_box_shadow invalid_rect_border invalid_draw_resource : Message
  invalid_layer_begin unbalanced_layer_end unknown_opcode : Message
  unclosed_state unclosed_layer : Message

pub record Depths : Type 0 where
  pub states : ℕ
  pub layers : ℕ

abbrev non_negative : ℕ → Bool
non_negative f = is_finite f && not (flt f float_zero)

abbrev finite_unit : ℕ → Bool
finite_unit f = is_finite f && in_unit f

-- Fields x, y, width, height, offset_x, offset_y, blur_sigma, spread, radii[4], color[4].
unfoldable pub valid_box_shadow : List ℕ → Bool
valid_box_shadow w =
    valid_rect (field_at w 0) (field_at w 1) (field_at w 2) (field_at w 3)
    && not (fle (field_at w 2) float_zero)
    && not (fle (field_at w 3) float_zero)
    && is_finite (field_at w 4)
    && is_finite (field_at w 5)
    && non_negative (field_at w 6)
    && is_finite (field_at w 7)
    && all non_negative (take 4 (drop 8 w))
    && all finite_unit (take 4 (drop 12 w))

unfoldable pub valid_line_cap : ℕ → Bool
valid_line_cap cap = leb cap 2

unfoldable pub valid_line_join : ℕ → Bool
valid_line_join join = join == 1 || join == 3 || join == 4

-- The operations behind the fixed part of a version 2 layer record, 49 fields each.
unfoldable pub read_operations : ℕ → List ℕ → List EffectOpCommand
read_operations zero ws = []
read_operations (suc n) ws = read_operation ws ∷ read_operations n (drop 49 ws)

abbrev pub foreground_count : List ℕ → ℕ
foreground_count w = field_at w 17

abbrev pub backdrop_count : List ℕ → ℕ
backdrop_count w = field_at w 18

unfoldable pub valid_layer_v2 : ℕ → List ℕ → Bool
unfolding read_operations
valid_layer_v2 size w =
    let base = read_base w in
    let count = foreground_count w + backdrop_count w in
    not (ltb size begin_layer_size)
    && valid_layer_base base
    && valid_mask (read_mask (drop 7 w))
    && leb (foreground_count w) effect_program_max_ops
    && leb (backdrop_count w) effect_program_max_ops
    && begin_layer_size + count * effect_op_size == size
    && (count == 0 || layer_isolated base.flags)
    && all valid_effect_op (read_operations count (drop 19 w))

unfoldable pub valid_layer_unbounded_v1 : List ℕ → Bool
valid_layer_unbounded_v1 w =
    is_finite (field_at w 0)
    && fle float_zero (field_at w 0)
    && fle (field_at w 0) float_one
    && valid_composite (field_at w 1)

unfoldable pub valid_layer_v1 : List ℕ → Bool
valid_layer_v1 w = valid_layer_base (read_base w)

unfoldable pub valid_layer_effect_v1 : List ℕ → Bool
unfolding valid_layer_v1
valid_layer_effect_v1 w =
    let effect = read_effect (drop 7 w) in
    valid_layer_v1 w
    && valid_effect effect
    && (effect.kind == effect_none || layer_isolated (read_base w).flags)

unfoldable pub valid_layer_mask_v1 : List ℕ → Bool
unfolding valid_layer_v1
valid_layer_mask_v1 w =
    let effect = read_effect (drop 7 w) in
    let mask = read_mask (drop 28 w) in
    valid_layer_v1 w
    && valid_effect effect
    && valid_mask mask
    && ((effect.kind == effect_none && mask.kind == 0) || layer_isolated (read_base w).flags)

unfoldable pub valid_layer_backdrop_v1 : List ℕ → Bool
unfolding valid_layer_v1
valid_layer_backdrop_v1 w =
    let effect = read_effect (drop 7 w) in
    let mask = read_mask (drop 28 w) in
    let backdrop = read_effect (drop 38 w) in
    valid_layer_v1 w
    && valid_effect effect
    && valid_effect backdrop
    && valid_mask mask
    && ((effect.kind == effect_none && backdrop.kind == effect_none && mask.kind == 0)
        || layer_isolated (read_base w).flags)

unfoldable pub valid_layer_custom_v1 : List ℕ → Bool
unfolding valid_layer_v1
valid_layer_custom_v1 w =
    valid_layer_v1 w
    && valid_custom_effect_descriptor (read_custom (drop 7 w))
    && layer_isolated (read_base w).flags

-- `valid_layer` of the case `BeginLayer`; the version picks the form, then the size.
unfoldable pub valid_layer : Header → List ℕ → Bool
valid_layer h w =
    if h.version == layer_command_version
    then valid_layer_v2 h.size w
    else if h.size == layer_unbounded_v1_size
    then valid_layer_unbounded_v1 w
    else if h.size == layer_v1_size
    then valid_layer_v1 w
    else if h.size == layer_effect_v1_size
    then valid_layer_effect_v1 w
    else if h.size == layer_mask_v1_size
    then valid_layer_mask_v1 w
    else if h.size == layer_backdrop_v1_size
    then valid_layer_backdrop_v1 w
    else (h.size == layer_custom_v1_size && valid_layer_custom_v1 w)

-- The command goes on with the depths `d`, or the validation ends with the message.
abbrev pub require : Bool → Message → Depths → Outcome Message Depths
require b m d = if b then ok d else err m

unfoldable pub valid_draw_resource : ℕ → List ℕ → ResourceKind → Bool
valid_draw_resource size w kind =
    size == rect_resource_size
    && is_resource_id (field_at w 0) kind
    && valid_rect (field_at w 1) (field_at w 2) (field_at w 3) (field_at w 4)

unfoldable pub valid_stroke : ℕ → List ℕ → Bool
unfolding valid_line_cap valid_line_join
valid_stroke size w =
    size == stroke_size
    && is_resource_id (field_at w 0) ResourceKind.path
    && is_finite (field_at w 1)
    && not (fle (field_at w 1) float_zero)
    && valid_line_cap (field_at w 2)
    && valid_line_join (field_at w 3)
    && is_finite (field_at w 4)
    && not (fle (field_at w 4) float_zero)

module _ (fp : Arith) where
  -- Fields x, y, width, height, border_width, color[4]; the colour pointer of a record is not null.
  unfoldable pub valid_rect_border : List ℕ → Bool
  valid_rect_border w =
      valid_rect (field_at w 0) (field_at w 1) (field_at w 2) (field_at w 3)
      && is_finite (fp.add (field_at w 0) (field_at w 2))
      && is_finite (fp.add (field_at w 1) (field_at w 3))
      && not (fle (field_at w 2) float_zero)
      && not (fle (field_at w 3) float_zero)
      && non_negative (field_at w 4)
      && all finite_unit (take 4 (drop 5 w))

  -- The `switch` on the opcode, for a record with header `h` and fields `w`.
  unfoldable pub check_opcode : Opcode → Header → List ℕ → Depths → Outcome Message Depths
  check_opcode set_transform h w d =
      if not (h.size == transform_size)
      then err invalid_transform
      else require (all is_finite (take 6 w)) non_finite_transform d
  check_opcode set_paint h w d =
      require (h.size == one_field_size && is_resource_id (field_at w 0) ResourceKind.paint)
        invalid_paint d
  check_opcode set_global_alpha h w d =
      require (h.size == one_field_size && finite_unit (field_at w 0)) invalid_alpha d
  check_opcode set_composite_mode h w d =
      require (h.size == one_field_size && valid_composite (field_at w 0)) unsupported_composite d
  check_opcode push_state h w d =
      require (h.size == scope_size && not (d.states == max_scope_depth)) invalid_push
        (record d { states = d.states + 1 })
  check_opcode pop_state h w d =
      require (h.size == scope_size && not (d.states == 0)) unbalanced_pop
        (record d { states = d.states - 1 })
  check_opcode clip_rect h w d =
      require
        (h.size == clip_size
          && valid_rect (field_at w 0) (field_at w 1) (field_at w 2) (field_at w 3))
        invalid_clip d
  check_opcode draw_path h w d =
      require (h.size == one_field_size && is_resource_id (field_at w 0) ResourceKind.path)
        invalid_path d
  check_opcode stroke_path h w d = require (valid_stroke h.size w) invalid_stroke d
  check_opcode draw_box_shadow h w d =
      require (h.size == box_shadow_size && valid_box_shadow w) invalid_box_shadow d
  check_opcode draw_rect_border h w d =
      require (h.size == rect_border_size && valid_rect_border w) invalid_rect_border d
  check_opcode draw_image h w d =
      require (valid_draw_resource h.size w ResourceKind.image) invalid_draw_resource d
  check_opcode draw_text_layout h w d =
      require (valid_draw_resource h.size w ResourceKind.text_layout) invalid_draw_resource d
  check_opcode draw_render_target h w d =
      require (valid_draw_resource h.size w ResourceKind.render_target) invalid_draw_resource d
  check_opcode begin_layer h w d =
      require (valid_layer h w && not (d.layers == max_scope_depth)) invalid_layer_begin
        (record d { layers = d.layers + 1 })
  check_opcode end_layer h w d =
      require (h.size == scope_size && not (d.layers == 0)) unbalanced_layer_end
        (record d { layers = d.layers - 1 })

  unfoldable pub check_command : Option Opcode → Header → List ℕ → Depths → Outcome Message Depths
  unfolding check_opcode
  check_command none h w d = err unknown_opcode
  check_command (some o) h w d = check_opcode o h w d
