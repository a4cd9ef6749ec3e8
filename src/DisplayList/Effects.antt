-- ===== src/DisplayList/Effects.antt =====
-- Effects, masks and layer parameters of packages/ui/src/display_list/display_list.h, and the
-- predicates of display_list.cpp on them. Enum values come off the wire as numbers.
pub mod Decode
use haxeon.Prelude.{
  ℕ, ◌/◌, ◌%◌, ◌^◌, Bool, true, ◌&&◌, ◌||◌, not, List, Option, none, some, ltb, ◌==◌, if◌then◌else◌,
  take, drop, all, replicate,
}
use haxeon.Float32.{is_finite, flt, fle, float_zero, float_one, in_unit}
use haxeon.ResourceId.{ResourceKind, is_resource_id}
use haxeon.DisplayList.Wire.{field_at}

-- `EffectKind`
abbrev pub effect_none : ℕ
effect_none = 0

abbrev pub effect_color_matrix : ℕ
effect_color_matrix = 1

abbrev pub effect_blur : ℕ
effect_blur = 2

abbrev pub effect_drop_shadow : ℕ
effect_drop_shadow = 3

abbrev pub effect_custom : ℕ
effect_custom = 4

abbrev pub effect_program_max_ops : ℕ
effect_program_max_ops = 8

pub record EffectDescriptor : Type 0 where
  pub kind : ℕ
  pub color_matrix : List ℕ

pub record CustomEffectDescriptor : Type 0 where
  pub registration_id : ℕ
  pub parameter_count : ℕ
  pub pass_count : ℕ
  pub sampling_inputs : ℕ
  pub ink_overflow : List ℕ
  pub parameters : List ℕ

pub record EffectOpCommand : Type 0 where
  pub kind : ℕ
  pub color_matrix : List ℕ
  pub custom : CustomEffectDescriptor

pub record MaskDescriptor : Type 0 where
  pub kind : ℕ
  pub image : ℕ
  pub values : List ℕ

-- `BeginLayerV1Command` without its header; the other layer records extend it.
pub record LayerBase : Type 0 where
  pub opacity : ℕ
  pub mode : ℕ
  pub x : ℕ
  pub y : ℕ
  pub width : ℕ
  pub height : ℕ
  pub flags : ℕ

-- The structs read from their fields.
abbrev pub read_effect : List ℕ → EffectDescriptor
read_effect ws = record { kind = field_at ws 0; color_matrix = take 20 (drop 1 ws) }

abbrev pub read_custom : List ℕ → CustomEffectDescriptor
read_custom ws = record {
  registration_id = field_at ws 0;
  parameter_count = field_at ws 1;
  pass_count = field_at ws 2;
  sampling_inputs = field_at ws 3;
  ink_overflow = take 4 (drop 4 ws);
  parameters = take 20 (drop 8 ws);
}

abbrev pub read_operation : List ℕ → EffectOpCommand
read_operation ws = record {
  kind = field_at ws 0;
  color_matrix = take 20 (drop 1 ws);
  custom = read_custom (drop 21 ws);
}

abbrev pub read_mask : List ℕ → MaskDescriptor
read_mask ws = record { kind = field_at ws 0; image = field_at ws 1; values = take 8 (drop 2 ws) }

abbrev pub read_base : List ℕ → LayerBase
read_base ws = record {
  opacity = field_at ws 0;
  mode = field_at ws 1;
  x = field_at ws 2;
  y = field_at ws 3;
  width = field_at ws 4;
  height = field_at ws 5;
  flags = field_at ws 6;
}

unfoldable pub valid_rect : ℕ → ℕ → ℕ → ℕ → Bool
valid_rect x y width height =
    is_finite x
    && is_finite y
    && is_finite width
    && is_finite height
    && fle float_zero width
    && fle float_zero height

-- `CompositeMode::SourceOver` is the only mode.
unfoldable pub valid_composite : ℕ → Bool
valid_composite mode = mode == 1

unfoldable pub valid_effect_kind : ℕ → Bool
valid_effect_kind kind =
    kind == effect_none
    || kind == effect_color_matrix
    || kind == effect_blur
    || kind == effect_drop_shadow

abbrev non_negative : ℕ → Bool
non_negative f = is_finite f && not (flt f float_zero)

unfoldable pub valid_custom_effect_descriptor : CustomEffectDescriptor → Bool
valid_custom_effect_descriptor effect =
    not (
      effect.registration_id == 0
      || ltb 20 effect.parameter_count
      || not (effect.pass_count == 1)
      || not (effect.sampling_inputs == 1))
    && all non_negative effect.ink_overflow
    && all is_finite effect.parameters

-- `value != 0.0f`
abbrev float_is_zero : ℕ → Bool
float_is_zero f = f % 2 ^ 31 == 0

unfoldable pub valid_effect : EffectDescriptor → Bool
unfolding valid_effect_kind
valid_effect effect =
    let m = effect.color_matrix in
    valid_effect_kind effect.kind
    && (effect.kind == effect_none
        || (all is_finite m
            && (if effect.kind == effect_blur || effect.kind == effect_drop_shadow
                then (not (flt (field_at m 0) float_zero)
                    && float_is_zero (field_at m 1)
                    && (not (effect.kind == effect_drop_shadow) || all in_unit (take 4 (drop 4 m))))
                else true)))

unfoldable pub valid_effect_op : EffectOpCommand → Bool
unfolding valid_custom_effect_descriptor valid_effect
valid_effect_op op =
    if op.kind == effect_custom
    then valid_custom_effect_descriptor op.custom
    else ((op.kind == effect_color_matrix
          || op.kind == effect_blur
          || op.kind == effect_drop_shadow)
        && valid_effect (record { kind = op.kind; color_matrix = op.color_matrix }))

-- `MaskKind` runs from `None` = 0 to `Image` = 5.
unfoldable pub valid_mask_kind : ℕ → Bool
valid_mask_kind kind = kind == 0 || kind == 1 || kind == 2 || kind == 3 || kind == 4 || kind == 5

unfoldable pub valid_mask : MaskDescriptor → Bool
unfolding valid_mask_kind
valid_mask mask =
    let v = mask.values in
    valid_mask_kind mask.kind
    && (mask.kind == 0
        || (all is_finite v
            && (mask.kind == 5 || mask.image == 0)
            && (if mask.kind == 5
                then is_resource_id mask.image ResourceKind.image
                else (not ((mask.kind == 2 || mask.kind == 3) && flt (field_at v 0) float_zero)
                    && (not (mask.kind == 4)
                        || (in_unit (field_at v 4) && in_unit (field_at v 5)))))))

-- `LayerFlags`
abbrev pub layer_isolated : ℕ → Bool
layer_isolated flags = flags % 2 == 1

abbrev pub layer_has_bounds : ℕ → Bool
layer_has_bounds flags = flags / 2 % 2 == 1

unfoldable pub valid_layer_base : LayerBase → Bool
unfolding valid_rect valid_composite
valid_layer_base v =
    is_finite v.opacity
    && fle float_zero v.opacity
    && fle v.opacity float_one
    && valid_composite v.mode
    && v.flags / 4 == 0
    && (not (layer_has_bounds v.flags)
        || (layer_isolated v.flags
            && valid_rect v.x v.y v.width v.height
            && flt float_zero v.width
            && flt float_zero v.height))

-- The semantic form of an operation, `EffectOp`.
pub record EffectOp : Type 0 where
  pub kind : ℕ
  pub color_matrix : List ℕ
  pub blur_sigma : ℕ
  pub shadow_sigma : ℕ
  pub shadow_offset_x : ℕ
  pub shadow_offset_y : ℕ
  pub shadow_color : List ℕ
  pub custom : CustomEffectDescriptor

abbrev pub default_custom : CustomEffectDescriptor
default_custom = record {
  registration_id = 0;
  parameter_count = 0;
  pass_count = 1;
  sampling_inputs = 1;
  ink_overflow = replicate 4 0;
  parameters = replicate 20 0;
}

abbrev pub default_op : ℕ → EffectOp
default_op kind = record {
  kind = kind;
  color_matrix = replicate 20 0;
  blur_sigma = 0;
  shadow_sigma = 0;
  shadow_offset_x = 0;
  shadow_offset_y = 0;
  shadow_color = replicate 4 0;
  custom = default_custom;
}

-- `none` where the code returns false.
unfoldable pub decode_effect_op : EffectOpCommand → Option EffectOp
decode_effect_op c =
    let m = c.color_matrix in
    let blank = default_op c.kind in
    if not (valid_effect_op c)
    then none
    else if c.kind == effect_color_matrix
    then some (record blank { color_matrix = m })
    else if c.kind == effect_blur
    then some (record blank { blur_sigma = field_at m 0 })
    else if c.kind == effect_drop_shadow
    then some (record blank {
      shadow_sigma = field_at m 0;
      shadow_offset_x = field_at m 2;
      shadow_offset_y = field_at m 3;
      shadow_color = take 4 (drop 4 m);
    })
    else if c.kind == effect_custom
    then some (record blank { custom = c.custom })
    else none
