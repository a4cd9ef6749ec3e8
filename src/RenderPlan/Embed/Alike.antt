-- ===== src/RenderPlan/Embed/Alike.antt =====
-- What `append_embedded_render_plan` (packages/ui/src/compositor/render_plan.cpp) keeps of the commands
-- and passes that it copies.
use haxeon.Prelude.{
  ℕ, ◌≡◌, ◌∙◌, refl, ap, inl, inr, Bool, true, false, ◌&&◌, not, List, ok, if◌then◌else◌,
  Bool-cases, Outcome-cases,
}
use haxeon.Float32.{Arith}
use haxeon.RenderPlan.Types.{
  RenderCommand, RenderPass, RenderTargetDescriptor, draw_pass, effect_pass, mask_pass, raster_pass,
  RenderPassKind,
}
use haxeon.RenderPlan.Checks.{is_composite}
use haxeon.RenderPlan.Scale.{
  Doubles, valid_scale, scale_effect_parameters, scale_input_region, scale_kind,
  scale_render_plan_parameters,
}
use haxeon.RenderPlan.Embed.{copied, local_commands, placed_if, embed_pass, is_bounded}
use haxeon.RenderPlan.Embed.Place.{
  adopted, move_command, clip_command, scale_scissor, rebase_command, place_main_command,
  place_local_command, implicit_extent,
}
use haxeon.RenderPlan.Embed.Options.{
  RenderPlanEmbedOptions, remap_embedding_resource, revisioned_cache_key,
}

-- Kind and resource, and what marks an embedded command.
abbrev pub Same : RenderCommand → RenderCommand → Type 0
Same a b =
    (a.kind ≡ b.kind)
    × (a.resource ≡ b.resource)
    × (a.custom_payload ≡ b.custom_payload)
    × (a.content_generation ≡ b.content_generation)
    × (a.retained_node_id ≡ b.retained_node_id)

abbrev itself : (c : RenderCommand) → Same c c
itself c = (refl, refl, refl, refl, refl)

module _ (fp : Arith) where
  move_command-Same : (t : List ℕ) (c : RenderCommand) → Same (move_command fp t c) c
  unfolding move_command
  move_command-Same t c = elim (Bool-cases c.has_scissor) [
    | inl clipped ↦ rw clipped (itself c)
    | inr free ↦ rw free (itself c)
  ]

  clip_command-Same :
      (o : RenderPlanEmbedOptions) (c : RenderCommand) → Same (clip_command fp o c) c
  unfolding clip_command
  clip_command-Same o c = elim (Bool-cases o.has_clip) [
    | inl clipped ↦ rw clipped (itself c)
    | inr free ↦ rw free (itself c)
  ]

  -- A transform that may be left out.
  move_if-Same :
      (b : Bool) (t : List ℕ) (a c : RenderCommand)
      → Same a c
      → Same (if b then move_command fp t a else a) c
  move_if-Same true t a c same =
      let (k, r, p, g, n) = move_command-Same t a in
      (k ∙ same.0, r ∙ same.1, p ∙ same.2, g ∙ same.3, n ∙ same.4)
  move_if-Same false t a c same = same

  pub place_main_command-Same :
      (o : RenderPlanEmbedOptions) (c : RenderCommand) → Same (place_main_command fp o c) c
  unfolding place_main_command scale_scissor
  place_main_command-Same o c =
      let implicit = implicit_extent c in
      let placed =
        if is_composite c.kind && not implicit then move_command fp o.placement c else c in
      let moved =
        if o.has_command_transform && not (is_composite c.kind)
        then move_command fp o.command_transform placed
        else placed in
      let (k, r, p, g, n) = clip_command-Same o moved in
      let two : Same moved c =
        move_if-Same (o.has_command_transform && not (is_composite c.kind)) o.command_transform
          placed c
          (move_if-Same (is_composite c.kind && not implicit) o.placement c c (itself c)) in
      let upto : Same (clip_command fp o moved) c =
        (k ∙ two.0, r ∙ two.1, p ∙ two.2, g ∙ two.3, n ∙ two.4) in
      elim (Bool-cases (implicit_extent c)) [
        | inl own ↦ rw own (rw own at upto)
        | inr given ↦ rw given (rw given at upto)
      ]

  pub place_local_command-Same :
      (o : RenderPlanEmbedOptions) (rebased : Bool) (dx dy : ℕ) (c : RenderCommand)
      → Same (place_local_command fp o rebased dx dy c) (adopted o c)
  unfolding place_local_command scale_scissor rebase_command
  place_local_command-Same o true dx dy c = elim (Bool-cases (implicit_extent c)) [
    | inl own ↦ rw own (itself (adopted o c))
    | inr given ↦ rw given (itself (adopted o c))
  ]
  place_local_command-Same o false dx dy c = elim (Bool-cases (implicit_extent c)) [
    | inl own ↦ rw own (itself (adopted o c))
    | inr given ↦ rw given (itself (adopted o c))
  ]

-- What the scaling of parameters leaves alone.
abbrev pub Rescaled : RenderPass → RenderPass → Type 0
Rescaled q p =
    (q.target ≡ p.target)
    × (q.input_target ≡ p.input_target)
    × (q.kind ≡ p.kind)
    × (q.commands ≡ p.commands)
    × (q.cache_key ≡ p.cache_key)

module _ (wide : Doubles) where
  scale_input_region-Rescaled :
      (p : RenderPass) (s : ℕ) → Rescaled (scale_input_region wide p s).1 p
  unfolding scale_input_region
  scale_input_region-Rescaled p s = elim (Bool-cases p.has_input_rect) [
    | inl given ↦ rw given (refl, refl, refl, refl, refl)
    | inr whole ↦ rw whole (refl, refl, refl, refl, refl)
  ]

  scale_kind-Rescaled :
      (p : RenderPass) (k : RenderPassKind) (s : ℕ) → Rescaled (scale_kind wide k p s).1 p
  unfolding scale_kind
  scale_kind-Rescaled p draw_pass s = (refl, refl, refl, refl, refl)
  scale_kind-Rescaled p raster_pass s = (refl, refl, refl, refl, refl)
  scale_kind-Rescaled p mask_pass s = (refl, refl, refl, refl, refl)
  scale_kind-Rescaled p effect_pass s =
      let done = scale_effect_parameters wide p.effect s in
      elim (Bool-cases done.0) [
        | inl fits ↦ rw fits (scale_input_region-Rescaled (record p { effect = done.1 }) s)
        | inr large ↦ rw large (refl, refl, refl, refl, refl)
      ]

  pub scale-Rescaled :
      (p : RenderPass) (s : ℕ) → Rescaled (scale_render_plan_parameters wide p s).1 p
  unfolding scale_render_plan_parameters
  scale-Rescaled p s = elim (Bool-cases (valid_scale s)) [
    | inl fine ↦ rw fine (scale_kind-Rescaled p p.kind s)
    | inr bad ↦ rw bad (refl, refl, refl, refl, refl)
  ]

-- The pass `q` that stands for `p` in the destination.
abbrev pub Stands : Arith → Doubles → RenderPlanEmbedOptions → RenderPass → RenderPass → Type 0
Stands fp wide o p q =
    (d : RenderTargetDescriptor) × (q.target ≡ remap_embedding_resource o p.target)
    × (q.input_target ≡ remap_embedding_resource o p.input_target)
    × (q.kind ≡ p.kind)
    × (q.cache_key ≡ revisioned_cache_key p.cache_key o.cache_revision)
    × (q.commands ≡ local_commands fp wide o p d p.commands)

pub embed_pass-Stands :
    (fp : Arith) (wide : Doubles) (o : RenderPlanEmbedOptions) (p q : RenderPass)
    → embed_pass fp wide o p ≡ ok q
    → Stands fp wide o p q
unfolding embed_pass copied
embed_pass-Stands fp wide o p q e =
    elim (Outcome-cases
      (placed_if fp wide o (is_bounded fp wide o p.target_descriptor) p.target_descriptor)) [
        | inr (m, bad) ↦ cc (rw (bad, embed_pass) at e)
        | inl (d, placed) ↦
            let c = copied fp wide o p d in
            let scaled = (scale_render_plan_parameters wide c o.pixel_scale).1 in
            let (target, input, kind, commands, key) = scale-Rescaled wide c o.pixel_scale in
            elim (Bool-cases (scale_render_plan_parameters wide c o.pixel_scale).0) [
              | inr large ↦ cc (rw (placed, embed_pass, large) at e)
              | inl fits ↦
                  let same : record scaled {
                    commands = local_commands fp wide o p d scaled.commands;
                  }
                      ≡ q =
                    cc (rw (placed, embed_pass, fits) at e) in
                  rw (← same)
                    (d, target, input, kind, key, ap (local_commands fp wide o p d) commands)
            ]
      ]
