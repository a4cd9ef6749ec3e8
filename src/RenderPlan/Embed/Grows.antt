-- ===== src/RenderPlan/Embed/Grows.antt =====
-- What `append_embedded_render_plan` (packages/ui/src/compositor/render_plan.cpp) leaves of the plan that
-- it adds to, errors included.
use haxeon.RenderPlan.Embed.Grown.{append_commands, main_commands, other_passes, is_payload}
use haxeon.Prelude.{
  ℕ, ◌+◌, ◌%◌, ◌^◌, ◌≡◌, get_elem?, true, List, [], ◌∷◌, ◌++◌, Option, none, some, length, all,
}
use haxeon.Float32.{Arith}
use haxeon.RenderPlan.Types.{RenderCommand, RenderPass, RenderPlan}
use haxeon.RenderPlan.Scale.{Doubles}
use haxeon.RenderPlan.Embed.{EmbedMessage, remap_dependencies}
use haxeon.RenderPlan.Embed.Found.{IsDestination}
use haxeon.RenderPlan.Embed.Refused.{Refuses}
use haxeon.RenderPlan.Embed.Place.{adopted, place_main_command}
use haxeon.RenderPlan.Embed.Options.{RenderPlanEmbedOptions}

module _ (fp : Arith) (wide : Doubles) (o : RenderPlanEmbedOptions) where
  abbrev placed : List RenderCommand → List RenderCommand
  placed [] = []
  placed (c ∷ cs) = place_main_command fp o (adopted o c) ∷ placed cs

  -- The plan that is left, and the error.
  abbrev pub Grows : RenderPlan → RenderPlan → RenderPlan × Option EmbedMessage → Type 0
  Grows source plan (plan', r) =
      (i : ℕ) × (cs : List RenderCommand) × (new : List RenderPass) × IsDestination
        o.destination_main_target o.destination_main_pass plan.passes i
      × (plan'.passes ≡ append_commands i cs plan.passes ++ new)
      × (all is_payload cs ≡ true)
      × (plan'.isolated_layers ≡ (plan.isolated_layers + source.isolated_layers) % 2 ^ 32)
      × (plan'.bounded_layers ≡ (plan.bounded_layers + source.bounded_layers) % 2 ^ 32)
      × (r ≡ none
          → (length cs ≡ main_commands o.source_main_target source.passes)
            × (length new ≡ other_passes o.source_main_target source.passes)
            × (plan'.dependencies
                ≡ plan.dependencies ++ remap_dependencies fp wide o source.dependencies))
      × ((m : EmbedMessage)
          → r ≡ some m
          → (plan'.dependencies ≡ plan.dependencies)
            × (k : ℕ) × (p : RenderPass) × (get_elem? source.passes k ≡ some p)
            × Refuses fp wide o p m)
