-- ===== src/RenderPlan/Scale/Sampling.antt =====
-- `resolve_render_target_sampling` (packages/ui/src/compositor/render_plan.cpp) again and again, and what
-- the scheduler sees of it.
use haxeon.Prelude.{
  ℕ, ◌≡◌, ◌⊎◌, ◌∙◌, refl, ap, inl, inr, Bool, true, false, ◌&&◌, ◌||◌, not, List, [], ◌∷◌, Option,
  none, some, arith, ◌==◌, if◌then◌else◌, Bool-cases, all,
}
use haxeon.Float32.{Arith, flt, fle, fmin, is_nan, float_zero, float_one}
use haxeon.RenderPlan.Types.{
  RenderCommand, RenderPass, RenderDependency, RenderPlan, RenderTargetDescriptor,
}
use haxeon.RenderPlan.Checks.{is_composite}
use haxeon.RenderPlan.Schedule.{any_composites, consumed}
use haxeon.RenderPlan.Scale.{
  Doubles, valid_scale, bounded_target, full_extent, int_not_positive, sampled_extent,
  resolve_command, resolve_commands, resolve_passes, resolve_render_target_sampling,
}
use haxeon.Compositor.Passes.{depends}
use haxeon.Compositor.Plan.{inputs_ok, consumers_ok, commands_declared, declared_ok, IsFed}

abbrev pub at_most_one : ℕ → Bool
at_most_one e = fle e float_one

-- Every command samples at most the whole of what it samples.
abbrev pub extents_fit : List RenderCommand → Bool
extents_fit [] = true
extents_fit (c ∷ cs) = all at_most_one c.source_uv_extent && extents_fit cs

abbrev pub all_extents_fit : List RenderPass → Bool
all_extents_fit [] = true
all_extents_fit (p ∷ ps) = extents_fit p.commands && all_extents_fit ps

fmin_one : (x : ℕ) → fle (fmin float_one x) float_one ≡ true
unfolding fmin fle flt is_nan
fmin_one x = ground arith

module _ (fp : Arith) (wide : Doubles) where
  sampled_extent_fits :
      (d : Option RenderTargetDescriptor) (s : ℕ)
      → all at_most_one (sampled_extent fp wide d s) ≡ true
  unfolding sampled_extent fle
  sampled_extent_fits none s = refl
  sampled_extent_fits (some d) s =
      elim (Bool-cases (int_not_positive d.width || int_not_positive d.height)) [
        | inl implicit ↦ rw implicit refl
        | inr sized ↦
            let wide_fits = fmin_one (wide.over_int (fp.mul d.logical_width s) d.width) in
            let high_fits = fmin_one (wide.over_int (fp.mul d.logical_height s) d.height) in
            rw (sized, wide_fits, high_fits) refl
      ]

  extent_if_fits :
      (b : Bool) (d : Option RenderTargetDescriptor) (s : ℕ)
      → all at_most_one (if b then sampled_extent fp wide d s else full_extent fp wide) ≡ true
  unfolding fle
  extent_if_fits true d s = sampled_extent_fits d s
  extent_if_fits false d s = refl

  resolve_commands_fit :
      (all_of : List RenderPass) (s : ℕ) (cs : List RenderCommand)
      → extents_fit (resolve_commands fp wide all_of s cs) ≡ true
  unfolding resolve_commands resolve_command
  resolve_commands_fit all_of s [] = refl
  resolve_commands_fit all_of s (c ∷ cs) =
      let sized =
        is_composite c.kind && not (fle c.width float_zero) && not (fle c.height float_zero) in
      rw
        (
          extent_if_fits sized (bounded_target c.resource all_of) s,
          resolve_commands_fit all_of s cs,
        )
        refl

  resolve_passes_fit :
      (all_of : List RenderPass) (s : ℕ) (ps : List RenderPass)
      → all_extents_fit (resolve_passes fp wide all_of s ps) ≡ true
  unfolding resolve_passes
  resolve_passes_fit all_of s [] = refl
  resolve_passes_fit all_of s (p ∷ ps) =
      rw (resolve_commands_fit all_of s p.commands, resolve_passes_fit all_of s ps) refl

  any_composites-resolve :
      (all_of : List RenderPass) (s r : ℕ) (cs : List RenderCommand)
      → any_composites r (resolve_commands fp wide all_of s cs) ≡ any_composites r cs
  unfolding resolve_commands resolve_command
  any_composites-resolve all_of s r [] = refl
  any_composites-resolve all_of s r (c ∷ cs) =
      ap (λ b. (is_composite c.kind && c.resource == r) || b) (any_composites-resolve all_of s r cs)

  commands_declared-resolve :
      (all_of : List RenderPass) (s t : ℕ) (ds : List RenderDependency) (cs : List RenderCommand)
      → commands_declared ds t (resolve_commands fp wide all_of s cs) ≡ commands_declared ds t cs
  unfolding resolve_commands resolve_command
  commands_declared-resolve all_of s t ds [] = refl
  commands_declared-resolve all_of s t ds (c ∷ cs) =
      ap (λ b. (not (is_composite c.kind) || depends c.resource t ds) && b)
        (commands_declared-resolve all_of s t ds cs)

  inputs_ok-resolve :
      (all_of : List RenderPass) (s : ℕ) (seen : List ℕ) (ps : List RenderPass)
      → inputs_ok seen (resolve_passes fp wide all_of s ps) ≡ inputs_ok seen ps
  unfolding resolve_passes
  inputs_ok-resolve all_of s seen [] = refl
  inputs_ok-resolve all_of s seen (p ∷ ps) =
      rw (inputs_ok-resolve all_of s (p.target ∷ seen) ps) refl

  consumed-resolve :
      (all_of : List RenderPass) (s r t : ℕ) (ps : List RenderPass)
      → consumed r t (resolve_passes fp wide all_of s ps) ≡ consumed r t ps
  unfolding resolve_passes
  consumed-resolve all_of s r t [] = refl
  consumed-resolve all_of s r t (p ∷ ps) =
      rw (any_composites-resolve all_of s r p.commands, consumed-resolve all_of s r t ps) refl

  consumers_ok-resolve :
      (all_of : List RenderPass) (s : ℕ) (ds : List RenderDependency) (ps : List RenderPass)
      → consumers_ok ds (resolve_passes fp wide all_of s ps) ≡ consumers_ok ds ps
  consumers_ok-resolve all_of s [] ps = refl
  consumers_ok-resolve all_of s (d ∷ ds) ps =
      rw (consumed-resolve all_of s d.producer d.consumer ps, consumers_ok-resolve all_of s ds ps)
        refl

  declared_ok-resolve :
      (all_of : List RenderPass) (s : ℕ) (ds : List RenderDependency) (ps : List RenderPass)
      → declared_ok ds (resolve_passes fp wide all_of s ps) ≡ declared_ok ds ps
  unfolding resolve_passes
  declared_ok-resolve all_of s ds [] = refl
  declared_ok-resolve all_of s ds (p ∷ ps) =
      rw
        (
          commands_declared-resolve all_of s p.target ds p.commands,
          declared_ok-resolve all_of s ds ps,
        )
        refl

  -- A target has the same bounded descriptor after the resolution, and a command is resolved once.
  bounded_target-resolve :
      (all_of : List RenderPass) (s t : ℕ) (ps : List RenderPass)
      → bounded_target t (resolve_passes fp wide all_of s ps) ≡ bounded_target t ps
  unfolding resolve_passes bounded_target
  bounded_target-resolve all_of s t [] = refl
  bounded_target-resolve all_of s t (p ∷ ps) = rw (bounded_target-resolve all_of s t ps) refl

  resolve_command-again :
      (xs ys : List RenderPass) (s : ℕ) (c : RenderCommand)
      → ((t : ℕ) → bounded_target t xs ≡ bounded_target t ys)
      → resolve_command fp wide xs s (resolve_command fp wide ys s c)
        ≡ resolve_command fp wide ys s c
  unfolding resolve_command
  resolve_command-again xs ys s c same = rw (same c.resource) refl

  resolve_commands-again :
      (xs ys : List RenderPass) (s : ℕ) (cs : List RenderCommand)
      → ((t : ℕ) → bounded_target t xs ≡ bounded_target t ys)
      → resolve_commands fp wide xs s (resolve_commands fp wide ys s cs)
        ≡ resolve_commands fp wide ys s cs
  unfolding resolve_commands
  resolve_commands-again xs ys s [] same = refl
  resolve_commands-again xs ys s (c ∷ cs) same =
      rw (resolve_command-again xs ys s c same, resolve_commands-again xs ys s cs same) refl

  resolve_passes-again :
      (xs ys : List RenderPass) (s : ℕ) (ps : List RenderPass)
      → ((t : ℕ) → bounded_target t xs ≡ bounded_target t ys)
      → resolve_passes fp wide xs s (resolve_passes fp wide ys s ps)
        ≡ resolve_passes fp wide ys s ps
  unfolding resolve_passes
  resolve_passes-again xs ys s [] same = refl
  resolve_passes-again xs ys s (p ∷ ps) same =
      rw (resolve_commands-again xs ys s p.commands same, resolve_passes-again xs ys s ps same) refl

  -- A resolution with a scale that is finite and positive succeeds. Then no command samples more than the
  -- whole of a target, a second resolution changes nothing, and a plan with its inputs drawn, its
  -- dependencies consumed and its composites declared stays such a plan. With every other scale the
  -- resolution is refused and the plan is left alone.
  pub resolve_render_target_sampling_lem :
      (plan : RenderPlan) (s : ℕ)
      → ((valid_scale s ≡ false) × (resolve_render_target_sampling fp wide plan s ≡ (false, plan)))
        ⊎ ((valid_scale s ≡ true)
            × (plan' : RenderPlan) × (resolve_render_target_sampling fp wide plan s ≡ (true, plan'))
            × (all_extents_fit plan'.passes ≡ true)
            × (resolve_render_target_sampling fp wide plan' s ≡ (true, plan'))
            × (IsFed plan → IsFed plan'))
  unfolding resolve_render_target_sampling
  resolve_render_target_sampling_lem plan s = elim (Bool-cases (valid_scale s)) [
    | inr bad ↦ inl (bad, rw bad refl)
    | inl fine ↦
        let passes = resolve_passes fp wide plan.passes s plan.passes in
        let same = bounded_target-resolve plan.passes s in
        let again =
          resolve_passes-again passes plan.passes s plan.passes (λ t. same t plan.passes) in
        inr (
          fine,
          record plan { passes = passes },
          rw fine refl,
          resolve_passes_fit plan.passes s plan.passes,
          rw fine (ap (λ (ps : List RenderPass). (true, record plan { passes = ps })) again),
          λ f. record {
            inputs = inputs_ok-resolve plan.passes s [] plan.passes ∙ f.inputs;
            consumers =
                consumers_ok-resolve plan.passes s plan.dependencies plan.passes ∙ f.consumers;
            declared = declared_ok-resolve plan.passes s plan.dependencies plan.passes ∙ f.declared;
          },
        )
  ]
