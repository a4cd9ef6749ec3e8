-- ===== src/Examples/Embedding.antt =====
-- A concrete plan that goes into another one (packages/ui/src/compositor/render_plan.cpp).
use haxeon.Prelude.{ℕ, ◌≡◌, ◌⊎◌, refl, true, false, [], ◌∷◌, none}
use haxeon.Float32.{is_finite, flt, fle, float_one}
use haxeon.ResourceId.{is_resource_id}
use haxeon.RenderPlan.Types.{RenderPlan, new_pass, default_descriptor, identity_transform}
use haxeon.RenderPlan.Scale.{
  Doubles, valid_scale, resolve_render_target_sampling, scale_render_plan_parameters, scale_kind,
}
use haxeon.RenderPlan.Embed.{
  valid_options, destination_main, find_pass, embed_round, embed_passes, embed_pass, copied,
  append_embedded_render_plan,
}
use haxeon.RenderPlan.Embed.Options.{RenderPlanEmbedOptions, valid_embed_clip}
use haxeon.RenderPlan.Embed.Fed.{append_embedded_render_plan-IsFed}
use haxeon.RenderPlan.Embed.Grows.{Grows}
use haxeon.RenderPlan.Scale.Sampling.{all_extents_fit, resolve_render_target_sampling_lem}
use haxeon.Compositor.Plan.{IsFed}
use haxeon.Examples.Plans.{plain_arith, main_target, layer_target, two_passes}

abbrev pub plain_doubles : Doubles
plain_doubles = record {
  product = λ a b. a;
  to_float = λ d. d;
  ceil_int = λ d. d;
  over_int = λ a b. a;
}

abbrev window : ℕ
window = 0x40010003

abbrev options : RenderPlanEmbedOptions
options = record {
  source_main_target = main_target;
  destination_main_target = window;
  placement = identity_transform;
  pixel_scale = float_one;
  target_remap = (layer_target, 0x40010004) ∷ [];
  destination_main_pass = none;
  has_clip = false;
  clip = [];
  has_command_transform = false;
  command_transform = identity_transform;
  preserve_bounded_target_local_commands = false;
  cache_revision = 0;
  retained_node_id = 7;
}

abbrev one_pass : RenderPlan
one_pass = record {
  passes = new_pass window default_descriptor false ∷ [];
  dependencies = [];
  isolated_layers = 0;
  bounded_layers = 0;
}

abbrev embedded : RenderPlan
embedded = (append_embedded_render_plan plain_arith plain_doubles options two_passes one_pass).0

one_pass-embeds :
    append_embedded_render_plan plain_arith plain_doubles options two_passes one_pass
    ≡ (embedded, none)
unfolding append_embedded_render_plan valid_options valid_scale is_resource_id valid_embed_clip
    is_finite fle flt copied destination_main find_pass embed_round embed_passes embed_pass
    scale_render_plan_parameters scale_kind
one_pass-embeds = refl

one_pass-IsFed : IsFed one_pass
one_pass-IsFed = record { inputs = refl; consumers = refl; declared = refl }

two_passes-IsFed : IsFed two_passes
two_passes-IsFed = record { inputs = refl; consumers = refl; declared = refl }

append_embedded_render_plan-IsFed_example : IsFed embedded
append_embedded_render_plan-IsFed_example =
    append_embedded_render_plan-IsFed plain_arith plain_doubles options two_passes one_pass embedded
      one_pass-embeds two_passes-IsFed one_pass-IsFed

resolve_render_target_sampling_lem_example :
    ((valid_scale float_one ≡ false)
      × (resolve_render_target_sampling plain_arith plain_doubles two_passes float_one
          ≡ (false, two_passes)))
    ⊎ ((valid_scale float_one ≡ true)
        × (plan' : RenderPlan) × (resolve_render_target_sampling plain_arith plain_doubles
              two_passes float_one
            ≡ (true, plan'))
        × (all_extents_fit plan'.passes ≡ true)
        × (resolve_render_target_sampling plain_arith plain_doubles plan' float_one ≡ (true, plan'))
        × (IsFed two_passes → IsFed plan'))
resolve_render_target_sampling_lem_example =
    resolve_render_target_sampling_lem plain_arith plain_doubles two_passes float_one
