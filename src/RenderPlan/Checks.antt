-- ===== src/RenderPlan/Checks.antt =====
-- The checks that `schedule_render_plan` (packages/ui/src/compositor/render_plan.cpp) makes on a
-- pass and its commands. The kinds of passes that the code also tests for are all there are.
use haxeon.Prelude.{
  ℕ, ◌%◌, ◌^◌, Bool, true, false, ◌&&◌, ◌||◌, not, List, [], ◌∷◌, Option, none, some, leb, ◌==◌,
  if◌then◌else◌, all, take, drop,
}
use haxeon.Float32.{is_finite, flt, fle, in_unit, float_zero, float_one, Arith}
use haxeon.ResourceId.{ResourceKind, is_resource_id}
use haxeon.DisplayList.Wire.{field_at}
use haxeon.DisplayList.Effects.{
  EffectDescriptor, MaskDescriptor, effect_color_matrix, effect_blur, effect_drop_shadow,
  effect_custom, valid_custom_effect_descriptor,
}
use haxeon.DisplayList.Commands.{valid_rect_border}
use haxeon.RenderPlan.Types.{
  RenderCommand, RenderPass, RenderTargetDescriptor, RenderPassKind, RenderCommandKind, draw_pass,
  effect_pass, mask_pass, raster_pass, path_command, image_command, glyph_batch, composite_target,
  stroke_path_command, box_shadow_command, rect_border_command,
}

-- The messages of `RenderPlanScheduleError`.
pub data ScheduleMessage : Type 0 where
  invalid_target_descriptor invalid_sampling_extent invalid_border invalid_shadow : ScheduleMessage
  input_unavailable no_consuming_command dependency_cycle : ScheduleMessage

-- `x < 0` on an `int`
abbrev int_negative : ℕ → Bool
int_negative x = leb (2 ^ 31) x

abbrev float_is_zero : ℕ → Bool
float_is_zero f = f % 2 ^ 31 == 0

abbrev same : Bool → Bool → Bool
same a b = if a then b else not b

unfoldable pub valid_descriptor : RenderTargetDescriptor → Bool
valid_descriptor d =
    not (int_negative d.width || int_negative d.height)
    && same (d.width == 0) (d.height == 0)
    && is_finite d.logical_width
    && is_finite d.logical_height
    && is_finite d.origin_x
    && is_finite d.origin_y
    && not (flt d.logical_width float_zero)
    && not (flt d.logical_height float_zero)
    && same (float_is_zero d.logical_width) (float_is_zero d.logical_height)
    && d.sample_count == 1
    && d.format == 1
    && d.usage % 2 == 1

unfoldable pub valid_effect_descriptor : EffectDescriptor → Bool
valid_effect_descriptor e =
    let m = e.color_matrix in
    let separable = e.kind == effect_blur || e.kind == effect_drop_shadow in
    (e.kind == effect_color_matrix || separable)
    && all is_finite m
    && (not separable
        || (not (flt (field_at m 0) float_zero)
            && (float_is_zero (field_at m 1) || field_at m 1 == float_one)))
    && (not (e.kind == effect_drop_shadow) || all in_unit (take 4 (drop 4 m)))

unfoldable pub valid_mask_descriptor : MaskDescriptor → Bool
valid_mask_descriptor mask =
    let v = mask.values in
    not (mask.kind == 0)
    && leb mask.kind 5
    && all is_finite v
    && (mask.kind == 5 || mask.image == 0)
    && (if mask.kind == 5
        then is_resource_id mask.image ResourceKind.image
        else (not ((mask.kind == 2 || mask.kind == 3) && flt (field_at v 0) float_zero)
            && (not (mask.kind == 4) || (in_unit (field_at v 4) && in_unit (field_at v 5)))))

abbrev non_negative : ℕ → Bool
non_negative f = is_finite f && not (flt f float_zero)

abbrev finite_unit : ℕ → Bool
finite_unit f = is_finite f && in_unit f

unfoldable pub valid_box_shadow_descriptor : RenderCommand → Bool
valid_box_shadow_descriptor c =
    let s = c.box_shadow in
    not (fle c.width float_zero)
    && not (fle c.height float_zero)
    && is_finite c.x
    && is_finite c.y
    && is_finite c.width
    && is_finite c.height
    && finite_unit c.opacity
    && is_finite s.offset_x
    && is_finite s.offset_y
    && non_negative s.blur_sigma
    && is_finite s.spread
    && all non_negative s.radii
    && all finite_unit s.color

unfoldable pub valid_input_rect : RenderPass → Bool
valid_input_rect p =
    let r = p.input_rect in
    not p.has_input_rect
    || (all is_finite r
        && fle float_zero (field_at r 0)
        && fle float_zero (field_at r 1)
        && flt float_zero (field_at r 2)
        && flt float_zero (field_at r 3))

-- Whether the pass samples `input_target`.
abbrev pub samples_input : RenderPassKind → Bool
samples_input draw_pass = false
samples_input effect_pass = true
samples_input mask_pass = true
samples_input raster_pass = false

unfoldable pub valid_parameters : RenderPass → Bool
unfolding valid_effect_descriptor valid_mask_descriptor
valid_parameters p = elim p.kind [
  | effect_pass ↦
      if p.effect.kind == effect_custom
      then valid_custom_effect_descriptor p.custom_effect
      else valid_effect_descriptor p.effect
  | _ ↦ valid_mask_descriptor p.mask
]

abbrev is_empty : List RenderCommand → Bool
is_empty [] = true
is_empty (c ∷ cs) = false

unfoldable pub valid_pass : RenderPass → Bool
unfolding valid_descriptor valid_input_rect valid_parameters
valid_pass p =
    is_resource_id p.target ResourceKind.render_target
    && valid_descriptor p.target_descriptor
    && (not (samples_input p.kind)
        || (is_resource_id p.input_target ResourceKind.render_target
            && not (p.input_target == p.target)
            && is_empty p.commands
            && valid_input_rect p
            && valid_parameters p))

abbrev pub is_composite : RenderCommandKind → Bool
is_composite composite_target = true
is_composite _ = false

abbrev valid_extent : ℕ → Bool
valid_extent e = is_finite e && flt float_zero e && fle e float_one

module _ (fp : Arith) where
  -- `none` where the command passes.
  unfoldable pub command_problem : RenderCommand → Option ScheduleMessage
  unfolding valid_box_shadow_descriptor
  command_problem c = elim c.kind [
    | composite_target ↦
        if all valid_extent c.source_uv_extent then none else some invalid_sampling_extent
    | rect_border_command ↦
        let fields = c.x ∷ c.y ∷ c.width ∷ c.height ∷ c.rect_border.width ∷ c.rect_border.color in
        if valid_rect_border fp fields then none else some invalid_border
    | box_shadow_command ↦ if valid_box_shadow_descriptor c then none else some invalid_shadow
    | path_command ↦ none
    | image_command ↦ none
    | glyph_batch ↦ none
    | stroke_path_command ↦ none
  ]

  -- The first problem of the commands.
  unfoldable pub commands_problem : List RenderCommand → Option ScheduleMessage
  unfolding command_problem
  commands_problem [] = none
  commands_problem (c ∷ cs) = elim (command_problem c) [
    | some m ↦ some m
    | none ↦ commands_problem cs
  ]

  unfoldable pub pass_problem : RenderPass → Option ScheduleMessage
  unfolding valid_pass commands_problem
  pass_problem p =
      if valid_pass p then commands_problem p.commands else some invalid_target_descriptor
