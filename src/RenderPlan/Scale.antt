-- ===== src/RenderPlan/Scale.antt =====
-- `scale_render_plan_parameters` and `resolve_render_target_sampling` of packages/ui/src/compositor/
-- render_plan.cpp. A `double` is its binary64 pattern, on which the tests are exact; what rounds is the
-- parameter `Doubles`.
pub mod Sampling
use haxeon.Prelude.{
  ℕ, ◌+◌, ◌/◌, ◌%◌, ◌^◌, Bool, true, false, ◌&&◌, ◌||◌, not, List, [], ◌∷◌, Option, none, some, ltb,
  leb, ◌==◌, if◌then◌else◌, set,
}
use haxeon.Float32.{Arith, is_finite, flt, fle, fmin, float_zero, float_one}
use haxeon.DisplayList.Wire.{field_at}
use haxeon.DisplayList.Effects.{EffectDescriptor, MaskDescriptor, effect_blur, effect_drop_shadow}
use haxeon.RenderPlan.Types.{
  RenderCommand, RenderPass, RenderPassKind, RenderPlan, RenderTargetDescriptor, draw_pass,
  effect_pass, mask_pass, raster_pass,
}
use haxeon.RenderPlan.Checks.{is_composite}

-- `static_cast<double>(a) * b` of two floats, the narrowing of a double to a float, `std::ceil` of a
-- double as an `int`, and the division of a float by an `int`.
pub record Doubles : Type 0 where
  pub product : ℕ → ℕ → ℕ
  pub to_float : ℕ → ℕ
  pub ceil_int : ℕ → ℕ
  pub over_int : ℕ → ℕ → ℕ

unfoldable pub double_finite : ℕ → Bool
double_finite d = not (d / 2 ^ 52 % 2048 == 2047)

-- `d > limit`, for a limit that is a positive number.
unfoldable pub exceeds : ℕ → ℕ → Bool
exceeds d limit = double_finite_or_infinite && not (d / 2 ^ 63 == 1) && ltb limit d
  where
    double_finite_or_infinite : Bool
    double_finite_or_infinite = not (d / 2 ^ 52 % 2048 == 2047) || d % 2 ^ 52 == 0

-- `std::abs`
abbrev double_magnitude : ℕ → ℕ
double_magnitude d = d % 2 ^ 63

-- `std::numeric_limits<float>::max()` and `std::numeric_limits<int>::max()`, as doubles.
abbrev float_max : ℕ
float_max = 0x47efffffe0000000

abbrev pub int_max : ℕ
int_max = 0x41dfffffffc00000

abbrev scales_out : ℕ → Bool
scales_out d = not (double_finite d) || exceeds d float_max

unfoldable pub valid_scale : ℕ → Bool
valid_scale s = is_finite s && not (fle s float_zero)

module _ (wide : Doubles) where
  -- Each of these is the verdict and the value that is left; a refusal may leave it half scaled.
  unfoldable pub scale_effect_parameters : EffectDescriptor → ℕ → Bool × EffectDescriptor
  scale_effect_parameters effect s =
      let m = effect.color_matrix in
      let sigma = wide.product (field_at m 0) s in
      let offset_x = wide.product (field_at m 2) s in
      let offset_y = wide.product (field_at m 3) s in
      let blurred = set m 0 (wide.to_float sigma) in
      let moved = set (set blurred 2 (wide.to_float offset_x)) 3 (wide.to_float offset_y) in
      if not (effect.kind == effect_blur) && not (effect.kind == effect_drop_shadow)
      then (true, effect)
      else if scales_out sigma
      then (false, effect)
      else if not (effect.kind == effect_drop_shadow)
      then (true, record effect { color_matrix = blurred })
      else if scales_out (double_magnitude offset_x) || scales_out (double_magnitude offset_y)
      then (false, record effect { color_matrix = blurred })
      else (true, record effect { color_matrix = moved })

  unfoldable pub scale_mask_parameters : MaskDescriptor → ℕ → Bool × MaskDescriptor
  scale_mask_parameters mask s =
      let radius = wide.product (field_at mask.values 0) s in
      if not (mask.kind == 2) && not (mask.kind == 3)
      then (true, mask)
      else if scales_out radius
      then (false, mask)
      else (true, record mask { values = set mask.values 0 (wide.to_float radius) })

  -- The loop over the rectangle, up to the first value that does not fit.
  unfoldable pub scale_values : List ℕ → ℕ → Bool × List ℕ
  scale_values [] s = (true, [])
  scale_values (v ∷ vs) s =
      let scaled = wide.product v s in
      let (fits, rest) = scale_values vs s in
      if scales_out scaled then (false, v ∷ vs) else (fits, wide.to_float scaled ∷ rest)

  unfoldable pub scale_input_region : RenderPass → ℕ → Bool × RenderPass
  scale_input_region p s =
      let (fits, rect) = scale_values p.input_rect s in
      if p.has_input_rect then (fits, record p { input_rect = rect }) else (true, p)

  unfoldable pub scale_kind : RenderPassKind → RenderPass → ℕ → Bool × RenderPass
  scale_kind effect_pass p s =
      let (fits, effect) = scale_effect_parameters p.effect s in
      let p' = record p { effect = effect } in if fits then scale_input_region p' s else (false, p')
  scale_kind mask_pass p s =
      let (fits, mask) = scale_mask_parameters p.mask s in (fits, record p { mask = mask })
  scale_kind draw_pass p s = (true, p)
  scale_kind raster_pass p s = (true, p)

  unfoldable pub scale_render_plan_parameters : RenderPass → ℕ → Bool × RenderPass
  unfolding scale_kind
  scale_render_plan_parameters p s = if valid_scale s then scale_kind p.kind p s else (false, p)

-- `targets`: the descriptor of the last bounded pass that draws into the target.
unfoldable pub bounded_target : ℕ → List RenderPass → Option RenderTargetDescriptor
bounded_target target [] = none
bounded_target target (p ∷ ps) =
    let d = p.target_descriptor in
    let here =
      p.target == target && flt float_zero d.logical_width && flt float_zero d.logical_height in
    elim (bounded_target target ps) [
      | some later ↦ some later
      | none ↦ if here then some d else none
    ]

-- `x <= 0` on an `int`
abbrev pub int_not_positive : ℕ → Bool
int_not_positive x = x == 0 || leb (2 ^ 31) x

module _ (fp : Arith) (wide : Doubles) where
  abbrev pub full_extent : List ℕ
  full_extent = float_one ∷ float_one ∷ []

  unfoldable pub sampled_extent : Option RenderTargetDescriptor → ℕ → List ℕ
  sampled_extent none s = full_extent
  sampled_extent (some d) s =
      if int_not_positive d.width || int_not_positive d.height
      then full_extent
      else fmin float_one (wide.over_int (fp.mul d.logical_width s) d.width)
        ∷ fmin float_one (wide.over_int (fp.mul d.logical_height s) d.height)
        ∷ []

  unfoldable pub resolve_command : List RenderPass → ℕ → RenderCommand → RenderCommand
  resolve_command passes s c =
      let sized =
        is_composite c.kind && not (fle c.width float_zero) && not (fle c.height float_zero) in
      record c {
        source_uv_extent =
            if sized then sampled_extent (bounded_target c.resource passes) s else full_extent;
      }

  unfoldable pub resolve_commands : List RenderPass → ℕ → List RenderCommand → List RenderCommand
  resolve_commands passes s [] = []
  resolve_commands passes s (c ∷ cs) = resolve_command passes s c ∷ resolve_commands passes s cs

  unfoldable pub resolve_passes : List RenderPass → ℕ → List RenderPass → List RenderPass
  resolve_passes all s [] = []
  resolve_passes all s (p ∷ ps) =
      record p { commands = resolve_commands all s p.commands } ∷ resolve_passes all s ps

  unfoldable pub resolve_render_target_sampling : RenderPlan → ℕ → Bool × RenderPlan
  unfolding valid_scale
  resolve_render_target_sampling plan s =
      if valid_scale s
      then (true, record plan { passes = resolve_passes plan.passes s plan.passes })
      else (false, plan)
