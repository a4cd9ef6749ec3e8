-- ===== src/Compositor/Chain.antt =====
-- The passes of effects and masks in `Compositor::compile` (packages/ui/src/compositor/compositor.cpp).
pub mod Sound
use haxeon.Prelude.{
  ℕ, Bool, true, false, ◌||◌, List, [], ◌∷◌, Option, none, some, ◌==◌, if◌then◌else◌,
}
use haxeon.Float32.{float_zero, float_one}
use haxeon.DisplayList.Effects.{EffectOp, MaskDescriptor, effect_blur, effect_drop_shadow}
use haxeon.RenderPlan.Types.{
  RenderPass, RenderTargetDescriptor, new_pass, new_command, composite_target, effect_pass,
  mask_pass,
}
use haxeon.Compositor.Bounds.{effect_descriptor}
use haxeon.Compositor.Passes.{Work, allocate, push_pass, continue_pass, add_dependency, add_command}

-- What the two loops over operations differ in. The backdrop's first pass reads a `region` of its input.
pub record Context : Type 0 where
  pub descriptor : RenderTargetDescriptor
  pub backdrop : Bool
  pub region : Option (List ℕ)
  -- The extent of the composites of a shadow group.
  pub width : ℕ
  pub height : ℕ

abbrev in_region : Option (List ℕ) → RenderPass → RenderPass
in_region none p = p
in_region (some r) p = record p { has_input_rect = true; input_rect = r }

-- The pass of `append_backdrop_effect` and `append_effect_pass`.
unfoldable pub effect_pass_of : Context → ℕ → ℕ → EffectOp → ℕ → Option (List ℕ) → RenderPass
effect_pass_of c target input op axis region =
    in_region region (record (new_pass target c.descriptor false) {
      kind = effect_pass;
      input_target = input;
      effect = effect_descriptor op axis;
      custom_effect = op.custom;
      backdrop = c.backdrop;
    })

-- A shadow behind its source. The commands of the group go in one by one, then the dependencies.
unfoldable pub shadow_group : Context → ℕ → ℕ → Work → ℕ × Work
shadow_group c shadow source w =
    let (group, w1) = allocate w in
    let (pass, w2) = continue_pass group c.descriptor w1 in
    let composite = λ (target : ℕ). new_command composite_target target 0 0 c.width c.height in
    let w3 = add_command pass (composite source) (add_command pass (composite shadow) w2) in
    (group, add_dependency source group (add_dependency shadow group w3))

-- One operation on `source`: the target that holds the result.
unfoldable pub apply_operation : Context → Option (List ℕ) → EffectOp → ℕ → Work → ℕ × Work
apply_operation c region op source w =
    let (first, w1) = allocate w in
    let (second, w2) = allocate w1 in
    let blurred =
      push_pass (effect_pass_of c second first op float_one none)
        (push_pass (effect_pass_of c first source op float_zero region) w2) in
    if op.kind == effect_blur || op.kind == effect_drop_shadow
    then (if op.kind == effect_drop_shadow
        then shadow_group c second source blurred
        else (second, blurred))
    else (first, push_pass (effect_pass_of c first source op float_zero region) w1)

-- The loop over the operations.
unfoldable pub apply_operations : Context → Option (List ℕ) → List EffectOp → ℕ → Work → ℕ × Work
apply_operations c region [] source w = (source, w)
apply_operations c region (op ∷ ops) source w =
    let (next, w') = apply_operation c region op source w in apply_operations c none ops next w'

-- `append_mask_pass`
unfoldable pub append_mask_pass : RenderTargetDescriptor → MaskDescriptor → ℕ → Work → ℕ × Work
append_mask_pass descriptor mask input w =
    let (target, w') = allocate w in
    (
      target,
      push_pass
          (record (new_pass target descriptor false) {
            kind = mask_pass;
            input_target = input;
            mask = mask;
          })
          w',
    )
