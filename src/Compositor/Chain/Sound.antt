-- ===== src/Compositor/Chain/Sound.antt =====
-- The chains of effect and mask passes of packages/ui/src/compositor/compositor.cpp sample what is
-- drawn, and leave their result drawn.
use haxeon.Prelude.{
  ℕ, zero, suc, ◌+◌, ◌≡◌, ◌∙◌, subst, inl, inr, refl, ap, false, ◌||◌, List, [], ◌∷◌, ◌++◌, Option,
  none, some, arith, ◌==◌, length, length-append, Bool-cases,
}
use haxeon.Float32.{float_zero, float_one}
use haxeon.DisplayList.Effects.{EffectOp, MaskDescriptor, effect_blur, effect_drop_shadow}
use haxeon.RenderPlan.Types.{
  RenderCommand, RenderPass, RenderTargetDescriptor, new_pass, new_command, composite_target,
  mask_pass,
}
use haxeon.RenderPlan.Schedule.{draws}
use haxeon.Compositor.Passes.{
  Work, allocate, push_pass, continue_pass, add_dependency, append_command, add_command,
  composite_into,
}
use haxeon.Compositor.Plan.{Good, Drawn, Better, Better-trans, target_at}
use haxeon.Compositor.Better.{push_pass-Better, composite_into-Better, add_command-add_dependency}
use haxeon.Compositor.Chain.{
  Context, effect_pass_of, shadow_group, apply_operation, apply_operations, append_mask_pass,
}

-- A result `t` in the plan that follows.
abbrev pub Yields : Work → ℕ × Work → Type 0
Yields w (t, w') = Better w w' × Drawn t w'

pub allocate-Better : (w : Work) → Good w → Better w (allocate w).1
unfolding allocate
allocate-Better w g = record {
  good = record { inputs = g.inputs; consumers = g.consumers; declared = g.declared };
  keeps = λ t d. d;
}

target_at-last :
    (ps : List RenderPass) (p : RenderPass) → target_at (length ps) (ps ++ p ∷ []) ≡ some p.target
target_at-last [] p = refl
target_at-last (q ∷ ps) p = target_at-last ps p

pub target_at-append_command :
    (k i : ℕ) (c : RenderCommand) (ps : List RenderPass)
    → target_at k (append_command i c ps) ≡ target_at k ps
unfolding append_command
target_at-append_command k i c [] = refl
target_at-append_command zero zero c (p ∷ ps) = refl
target_at-append_command (suc k) zero c (p ∷ ps) = refl
target_at-append_command zero (suc i) c (p ∷ ps) = refl
target_at-append_command (suc k) (suc i) c (p ∷ ps) = target_at-append_command k i c ps

pub continue_pass-Better :
    (t : ℕ) (d : RenderTargetDescriptor) (w : Work)
    → Good w
    → let (i, w') = continue_pass t d w in
      Better w w'
      × Drawn t w'
      × (target_at i w'.plan.passes ≡ some t)
      × (i + 1 ≡ length w'.plan.passes)
unfolding continue_pass push_pass
continue_pass-Better t d w g =
    let p = new_pass t d (draws t w.plan.passes) in
    let (better, drawn) = push_pass-Better p w g refl (λ h. cc) in
    (
      better,
      drawn,
      target_at-last w.plan.passes p,
      omega (arith, length-append w.plan.passes (p ∷ [])),
    )

pub passes-add_dependency :
    (r t : ℕ) (w : Work) → (add_dependency r t w).plan.passes ≡ w.plan.passes
unfolding add_dependency
passes-add_dependency r t w = ground arith

pub length-append_command :
    (i : ℕ) (c : RenderCommand) (ps : List RenderPass) → length (append_command i c ps) ≡ length ps
unfolding append_command
length-append_command i c [] = refl
length-append_command zero c (p ∷ ps) = refl
length-append_command (suc i) c (p ∷ ps) = ap suc (length-append_command i c ps)

-- A composite changes neither the number of the passes nor their targets.
pub composite_into-passes :
    (i t : ℕ) (c : RenderCommand) (w : Work)
    → let w' = composite_into i t c w in
      (length w'.plan.passes ≡ length w.plan.passes)
      × ((k : ℕ) → target_at k w'.plan.passes ≡ target_at k w.plan.passes)
unfolding composite_into add_command
composite_into-passes i t c w =
    let same = passes-add_dependency c.resource t (add_command i c w) in
    (
      ap length same ∙ length-append_command i c w.plan.passes,
      λ k. ap (target_at k) same ∙ target_at-append_command k i c w.plan.passes,
    )

shadow_group-Yields :
    (c : Context) (shadow source : ℕ) (w : Work)
    → Good w
    → Yields w (shadow_group c shadow source w)
unfolding shadow_group composite_into
shadow_group-Yields c shadow source w g =
    let w1 = (allocate w).1 in
    let group = (allocate w).0 in
    let one = allocate-Better w g in
    let i = (continue_pass group c.descriptor w1).0 in
    let w2 = (continue_pass group c.descriptor w1).1 in
    let (two, drawn, here, _) = continue_pass-Better group c.descriptor w1 one.good in
    let a = new_command composite_target shadow 0 0 c.width c.height in
    let b = new_command composite_target source 0 0 c.width c.height in
    let w3 = composite_into i group a w2 in
    let three = composite_into-Better i group a w2 two.good here refl in
    let four =
      composite_into-Better i group b w3 three.good
        ((composite_into-passes i group a w2).1 i ∙ here) refl in
    let w4 = composite_into i group b w3 in
    let put : Yields w (group, w4) = (
      Better-trans w w1 w4 one (Better-trans w1 w2 w4 two (Better-trans w2 w3 w4 three four)),
      four.keeps group (three.keeps group drawn),
    ) in
    subst (λ (u : Work). Yields w (group, add_dependency source group u))
      (add_command-add_dependency i shadow group b (add_command i a w2)) put

-- The kind, the target and the input of a pass are those asked for.
effect_pass_of_lem :
    (c : Context) (t input : ℕ) (op : EffectOp) (axis : ℕ) (region : Option (List ℕ))
    → let p = effect_pass_of c t input op axis region in
      (p.target ≡ t) × (p.input_target ≡ input) × (p.commands ≡ [])
unfolding effect_pass_of
effect_pass_of_lem c t input op axis none = (refl, refl, refl)
effect_pass_of_lem c t input op axis (some r) = (refl, refl, refl)

push_effect :
    (c : Context) (t input : ℕ) (op : EffectOp) (axis : ℕ) (region : Option (List ℕ)) (w : Work)
    → Good w
    → Drawn input w
    → Yields w (t, push_pass (effect_pass_of c t input op axis region) w)
unfolding effect_pass_of
push_effect c t input op axis region w g drawn =
    let p = effect_pass_of c t input op axis region in
    let (target, source, plain) = effect_pass_of_lem c t input op axis region in
    let (better, there) = push_pass-Better p w g plain (λ h. rw source drawn) in
    (better, rw target at there)

apply_operation-Yields :
    (c : Context) (region : Option (List ℕ)) (op : EffectOp) (source : ℕ) (w : Work)
    → Good w
    → Drawn source w
    → Yields w (apply_operation c region op source w)
unfolding apply_operation
apply_operation-Yields c region op source w g drawn =
    let w1 = (allocate w).1 in
    let first = (allocate w).0 in
    let w2 = (allocate w1).1 in
    let second = (allocate w1).0 in
    let one = allocate-Better w g in
    let two = allocate-Better w1 one.good in
    let w3 = push_pass (effect_pass_of c first source op float_zero region) w2 in
    let (three, across) =
      push_effect c first source op float_zero region w2 two.good
        (two.keeps source (one.keeps source drawn)) in
    let w4 = push_pass (effect_pass_of c second first op float_one none) w3 in
    let (four, down) = push_effect c second first op float_one none w3 three.good across in
    let upto : Better w w4 =
      Better-trans w w1 w4 one (Better-trans w1 w2 w4 two (Better-trans w2 w3 w4 three four)) in
    elim (Bool-cases (op.kind == effect_blur || op.kind == effect_drop_shadow)) [
      | inr plain ↦
          let (single, there) =
            push_effect c first source op float_zero region w1 one.good (one.keeps source drawn) in
          rw plain (Better-trans w w1 _ one single, there)
      | inl separable ↦ elim (Bool-cases (op.kind == effect_drop_shadow)) [
        | inr blur ↦ rw (separable, blur) (upto, down)
        | inl shadow ↦
            let (five, group) = shadow_group-Yields c second source w4 four.good in
            rw (separable, shadow) (Better-trans w w4 _ upto five, group)
      ]
    ]

pub apply_operations-Yields :
    (c : Context) (region : Option (List ℕ)) (ops : List EffectOp) (source : ℕ) (w : Work)
    → Good w
    → Drawn source w
    → Yields w (apply_operations c region ops source w)
unfolding apply_operations
apply_operations-Yields c region [] source w g drawn =
    (record { good = g; keeps = λ t d. d }, drawn)
apply_operations-Yields c region (op ∷ ops) source w g drawn =
    let next = (apply_operation c region op source w).0 in
    let w1 = (apply_operation c region op source w).1 in
    let (one, there) = apply_operation-Yields c region op source w g drawn in
    let (rest, last) = apply_operations-Yields c none ops next w1 one.good there in
    (Better-trans w w1 _ one rest, last)

pub append_mask_pass-Yields :
    (d : RenderTargetDescriptor) (mask : MaskDescriptor) (input : ℕ) (w : Work)
    → Good w
    → Drawn input w
    → Yields w (append_mask_pass d mask input w)
unfolding append_mask_pass
append_mask_pass-Yields d mask input w g drawn =
    let w1 = (allocate w).1 in
    let one = allocate-Better w g in
    let p = record (new_pass (allocate w).0 d false) {
      kind = mask_pass;
      input_target = input;
      mask = mask;
    } in
    let (two, there) = push_pass-Better p w1 one.good refl (λ h. one.keeps input drawn) in
    (Better-trans w w1 (push_pass p w1) one two, there)
