-- ===== src/RenderPlan/Embed.antt =====
-- `append_embedded_render_plan` of packages/ui/src/compositor/render_plan.cpp. A plan goes into another
-- one: its main pass into a pass that is there, its other passes behind.
pub mod Options
pub mod Pushed
pub mod Grown
pub mod Place
pub mod Alike
pub mod Found
pub mod Round
pub mod Refused
pub mod Grows
pub mod Fed
use haxeon.Prelude.{
  ℕ, zero, suc, ◌+◌, ◌-◌, ◌%◌, ◌^◌, Bool, true, false, ◌&&◌, ◌||◌, not, List, [], ◌∷◌, ◌++◌, Option,
  none, some, Outcome, ok, err, ◌==◌, ltb, if◌then◌else◌, get_elem?, all,
}
use haxeon.Float32.{Arith, is_finite, flt, fle, float_zero}
use haxeon.ResourceId.{is_resource_id, render_target}
use haxeon.RenderPlan.Types.{
  RenderCommand, RenderPass, RenderDependency, RenderPlan, RenderTargetDescriptor,
}
use haxeon.RenderPlan.Scale.{
  Doubles, double_finite, exceeds, int_max, valid_scale, scale_render_plan_parameters,
}
use haxeon.RenderPlan.Embed.Place.{
  transform_bounds, adopted, place_main_command, place_local_command,
}
use haxeon.RenderPlan.Embed.Options.{
  RenderPlanEmbedOptions, EmbedBounds, finite_bounds, valid_embed_clip, remap_embedding_resource,
  revisioned_cache_key,
}
use haxeon.Compositor.Passes.{append_command}

pub data EmbedMessage : Type 0 where
  invalid_options destination_unavailable invalid_target : EmbedMessage
  invalid_bounds invalid_transform bounds_too_large parameters_too_large : EmbedMessage

-- `std::find_if` over the passes: the index of the first that draws into `target`.
unfoldable pub find_pass : ℕ → ℕ → List RenderPass → Option ℕ
find_pass target i [] = none
find_pass target i (p ∷ ps) =
    let later = find_pass target (i + 1) ps in if p.target == target then some i else later

abbrev draws_into : ℕ → Option RenderPass → Bool
draws_into target none = false
draws_into target (some p) = p.target == target

unfoldable pub destination_main : RenderPlanEmbedOptions → Option ℕ → List RenderPass → Option ℕ
unfolding find_pass
destination_main o none passes = find_pass o.destination_main_target 0 passes
destination_main o (some k) passes =
    if draws_into o.destination_main_target (get_elem? passes k) then some k else none

unfoldable pub valid_options : RenderPlanEmbedOptions → Bool
unfolding valid_scale
valid_options o =
    is_resource_id o.source_main_target render_target
    && is_resource_id o.destination_main_target render_target
    && valid_scale o.pixel_scale
    && all is_finite o.placement
    && valid_embed_clip o

module _ (fp : Arith) (wide : Doubles) (o : RenderPlanEmbedOptions) where
  -- `std::max(1, static_cast<int>(std::ceil(d)))`
  abbrev at_least_one : ℕ → ℕ
  at_least_one d = let n = wide.ceil_int (d) in if n == 0 || ltb (2 ^ 31 - 1) n then 1 else n

  -- The placed descriptor of a bounded target.
  unfoldable pub place_descriptor :
      RenderTargetDescriptor → Outcome EmbedMessage RenderTargetDescriptor
  place_descriptor d =
      let b =
        transform_bounds fp d.origin_x d.origin_y d.logical_width d.logical_height o.placement in
      let width = wide.product d.logical_width o.pixel_scale in
      let height = wide.product d.logical_height o.pixel_scale in
      if not (is_finite d.logical_width)
        || not (is_finite d.logical_height)
        || fle d.logical_width float_zero
        || fle d.logical_height float_zero
      then err invalid_bounds
      else if not (finite_bounds b)
      then err invalid_transform
      else if not (double_finite width)
          || not (double_finite height)
          || exceeds width int_max
          || exceeds height int_max
      then err bounds_too_large
      else ok (record d {
        origin_x = b.x;
        origin_y = b.y;
        width = at_least_one width;
        height = at_least_one height;
      })

  abbrev is_bounded : RenderTargetDescriptor → Bool
  is_bounded d = flt float_zero d.logical_width || flt float_zero d.logical_height

  abbrev placed_if : Bool → RenderTargetDescriptor → Outcome EmbedMessage RenderTargetDescriptor
  placed_if bounded d = if bounded then place_descriptor d else ok d

  abbrev map_commands : (RenderCommand → RenderCommand) → List RenderCommand → List RenderCommand
  map_commands f [] = []
  map_commands f (c ∷ cs) = f c ∷ map_commands f cs

  -- The copy of a pass, before its parameters are scaled.
  unfoldable pub copied : RenderPass → RenderTargetDescriptor → RenderPass
  copied p d = record p {
    cache_key = revisioned_cache_key p.cache_key o.cache_revision;
    target = remap_embedding_resource o p.target;
    input_target = remap_embedding_resource o p.input_target;
    target_descriptor = d;
  }

  abbrev local_place : RenderPass → RenderTargetDescriptor → RenderCommand → RenderCommand
  local_place p d =
      let s = p.target_descriptor in
      place_local_command fp o (is_bounded s && not o.preserve_bounded_target_local_commands)
        (fp.sub d.origin_x s.origin_x) (fp.sub d.origin_y s.origin_y)

  unfoldable pub local_commands :
      RenderPass → RenderTargetDescriptor → List RenderCommand → List RenderCommand
  local_commands p d cs = map_commands (local_place p d) cs

  -- A pass that is not of the main target, as it goes into the destination.
  unfoldable pub embed_pass : RenderPass → Outcome EmbedMessage RenderPass
  embed_pass p = elim (placed_if (is_bounded p.target_descriptor) p.target_descriptor) [
    | err m ↦ err m
    | ok d ↦
        let (fits, scaled) = scale_render_plan_parameters wide (copied p d) o.pixel_scale in
        if fits
        then ok (record scaled { commands = local_commands p d scaled.commands })
        else err parameters_too_large
  ]

  -- The commands of a main pass, into the pass `i`.
  unfoldable pub embed_commands : ℕ → List RenderCommand → List RenderPass → List RenderPass
  embed_commands i [] ps = ps
  embed_commands i (c ∷ cs) ps =
      embed_commands i cs (append_command i (place_main_command fp o (adopted o c)) ps)

  -- One round of the loop over the passes.
  unfoldable pub embed_round :
      ℕ → RenderPass → List RenderPass → Outcome EmbedMessage (List RenderPass)
  embed_round i p ps =
      if not (is_resource_id p.target render_target)
      then err invalid_target
      else if p.target == o.source_main_target
      then ok (embed_commands i p.commands ps)
      else elim (embed_pass p) [ err m ↦ err m | ok q ↦ ok (ps ++ q ∷ []) ]

  -- The loop; an error leaves what was added before.
  unfoldable pub embed_passes :
      ℕ → List RenderPass → List RenderPass → List RenderPass × Option EmbedMessage
  embed_passes i [] ps = (ps, none)
  embed_passes i (p ∷ rest) ps = elim (embed_round i p ps) [
    | err m ↦ (ps, some m)
    | ok ps' ↦ embed_passes i rest ps'
  ]

  unfoldable pub remap_dependencies : List RenderDependency → List RenderDependency
  remap_dependencies [] = []
  remap_dependencies (d ∷ ds) =
      record {
        producer = remap_embedding_resource o d.producer;
        consumer = remap_embedding_resource o d.consumer;
      }
      ∷ remap_dependencies ds

  abbrev with_dependencies :
      List RenderDependency
      → RenderPlan
      → List RenderPass × Option EmbedMessage
      → RenderPlan × Option EmbedMessage
  with_dependencies ds plan (ps, some m) = (record plan { passes = ps }, some m)
  with_dependencies ds plan (ps, none) =
      (record plan { passes = ps; dependencies = plan.dependencies ++ remap_dependencies ds }, none)

  abbrev counted : RenderPlan → RenderPlan → RenderPlan
  counted source plan = record plan {
    isolated_layers = (plan.isolated_layers + source.isolated_layers) % 2 ^ 32;
    bounded_layers = (plan.bounded_layers + source.bounded_layers) % 2 ^ 32;
  }

  abbrev embed_at : Option ℕ → RenderPlan → RenderPlan → RenderPlan × Option EmbedMessage
  embed_at none source plan = (plan, some destination_unavailable)
  embed_at (some i) source plan =
      with_dependencies source.dependencies (counted source plan)
        (embed_passes i source.passes plan.passes)

  -- The destination that is left, and the error.
  unfoldable pub append_embedded_render_plan :
      RenderPlan → RenderPlan → RenderPlan × Option EmbedMessage
  append_embedded_render_plan source plan =
      if valid_options o
      then embed_at (destination_main o o.destination_main_pass plan.passes) source plan
      else (plan, some invalid_options)
