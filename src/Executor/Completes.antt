-- ===== src/Executor/Completes.antt =====
-- When a sealed plan is executed with success (packages/ui/src/render/render_plan_executor.cpp).
use haxeon.Prelude.{
  ℕ, ◌≡◌, inl, inr, refl, subst, true, false, ◌&&◌, ◌||◌, not, List, [], ◌∷◌, some, Outcome, ok,
  err, Option-cases, zero, suc, get_elem?, length, &&-eq-true,
}
use haxeon.Float32.{Arith}
use haxeon.ResourceId.{is_resource_id, render_target}
use haxeon.RenderPlan.Types.{RenderPass, RenderPlan}
use haxeon.RenderPlan.Schedule.{schedule_render_plan}
use haxeon.Compositor.Hash.{Hashes}
use haxeon.FrameResources.Frames.{FrameResources, is_positive}
use haxeon.FrameResources.Owned.{OwnedFrameResources}
use haxeon.FrameResources.Sealed.{SealedRenderPlan, seal}
use haxeon.Executor.{
  try_call, guarded, executed, execute_passes, execute_frame, execute_render_plan, execute_sealed,
}
use haxeon.Executor.Calls.{
  Action, History, UiRenderer, RenderExecutionError, Call, begin_frame, end_frame, abort_frame,
  prepare_commands, encode_pass_commands, last_error, fail, ◌>>=◌,
}
use haxeon.Executor.Surfaces.{WindowTarget, Extents, prepare_surfaces}
use haxeon.Executor.Passes.{execute_pass}
use haxeon.Executor.Whole.{prepare_surfaces-seal}
use haxeon.Executor.Succeeds.{
  IsTotal, bind-IsTotal, checked, commands_bound, execute_pass-IsTotal, has_mask_image, ok_of,
  passes_bound, succeeded,
}

passes_bound-at :
    (resources : FrameResources) (ps : List RenderPass) (k : ℕ) (p : RenderPass)
    → passes_bound resources ps ≡ true
    → get_elem? ps k ≡ some p
    → (commands_bound resources p.commands ≡ true) × (has_mask_image resources p ≡ true)
unfolding passes_bound
passes_bound-at resources [] k p b found = cc
passes_bound-at resources (q ∷ ps) zero p b found =
    let same : q ≡ p = cc in
    let (front, _) =
      &&-eq-true (commands_bound resources q.commands && has_mask_image resources q)
        (passes_bound resources ps) b in
    let (here, image) =
      &&-eq-true (commands_bound resources q.commands) (has_mask_image resources q) front in
    subst
      (λ (x : RenderPass).
        (commands_bound resources x.commands ≡ true) × (has_mask_image resources x ≡ true))
      same (here, image)
passes_bound-at resources (q ∷ ps) (suc k) p b found =
    let (_, later) =
      &&-eq-true (commands_bound resources q.commands && has_mask_image resources q)
        (passes_bound resources ps) b in
    passes_bound-at resources ps k p later found

module _ (fp : Arith) (ext : Extents) (ui : UiRenderer)
    (willing : (h : History) (c : Call) → (ui.answer h c).done ≡ true) (window : WindowTarget)
    (serial : ℕ) where
  module _ (plan : RenderPlan) (resources : FrameResources)
      (bound : passes_bound resources plan.passes ≡ true) where
    execute_passes-IsTotal :
        (order : List ℕ) (hashes : Hashes)
        → IsTotal (execute_passes fp ext ui plan resources window serial hashes order)
    unfolding execute_passes
    execute_passes-IsTotal [] hashes h = refl
    execute_passes-IsTotal (index ∷ order) hashes h =
        elim (Option-cases (get_elem? plan.passes index)) [
          | inl beyond ↦ rw (execute_passes, beyond) (execute_passes-IsTotal order hashes h)
          | inr (p, found) ↦
              let (b, m) = passes_bound-at resources plan.passes index p bound found in
              rw (execute_passes, found)
                (bind-IsTotal (execute_pass ext window ui resources serial hashes index p)
                  (λ hs. execute_passes fp ext ui plan resources window serial hs order)
                  (execute_pass-IsTotal ui willing ext window resources serial hashes index p b m)
                  (λ hs. execute_passes-IsTotal order hs) h)
        ]

    execute_frame-succeeds :
        (order : List ℕ)
        → IsTotal (prepare_surfaces fp ext ui plan resources window [] plan.dependencies)
        → IsTotal (execute_frame fp ext ui plan resources window serial order)
    unfolding execute_frame
    execute_frame-succeeds order quiet =
        bind-IsTotal (prepare_surfaces fp ext ui plan resources window [] plan.dependencies)
          (λ _. try_call ui (prepare_commands window.width window.height) 0 >>= λ _.
            try_call ui encode_pass_commands 0 >>= λ _.
            execute_passes fp ext ui plan resources window serial [] order >>= λ _.
            try_call ui end_frame (length plan.passes))
          quiet
          (λ _.
            bind-IsTotal (try_call ui (prepare_commands window.width window.height) 0)
              (λ _. try_call ui encode_pass_commands 0 >>= λ _.
                execute_passes fp ext ui plan resources window serial [] order >>= λ _.
                try_call ui end_frame (length plan.passes))
              (checked ui willing (prepare_commands window.width window.height)
                (fail 0 0 last_error))
              (λ _.
                bind-IsTotal (try_call ui encode_pass_commands 0)
                  (λ _. execute_passes fp ext ui plan resources window serial [] order >>= λ _.
                    try_call ui end_frame (length plan.passes))
                  (checked ui willing encode_pass_commands (fail 0 0 last_error))
                  (λ _.
                    bind-IsTotal (execute_passes fp ext ui plan resources window serial [] order)
                      (λ _. try_call ui end_frame (length plan.passes))
                      (execute_passes-IsTotal order [])
                      (λ _.
                        checked ui willing end_frame (fail (length plan.passes) 0 last_error)))))

  guarded-IsTotal : (m : Action Unit) → IsTotal m → IsTotal (guarded ui m)
  guarded-IsTotal m total h = kept (m h) (total h)
    where
      kept :
          (x : Outcome RenderExecutionError (Unit {0}) × History)
          → succeeded {A = Unit} x ≡ true
          → succeeded {A = Unit} (elim x.0 [
            | ok done ↦ (ok done, x.1)
            | err e ↦ (err e, (abort_frame, ui.answer x.1 abort_frame) ∷ x.1)
          ])
            ≡ true
      kept (ok done, h') s = refl
      kept (err e, h') s = cc

  -- A sealed plan is executed with success if it can be scheduled, all its drawings and mask images are
  -- bound, the window is a render target with a size, and the renderer is valid and refuses no call.
  pub execute_sealed-succeeds :
      (plan : RenderPlan) (resources : OwnedFrameResources) (sealed : SealedRenderPlan)
      (order : List ℕ) (h : History)
      → seal plan resources ≡ some sealed
      → schedule_render_plan fp sealed.plan ≡ ok order
      → passes_bound sealed.resources.bindings sealed.plan.passes ≡ true
      → (not (ui.valid h)
          || not (is_resource_id window.id render_target)
          || not window.complete
          || not (is_positive window.width)
          || not (is_positive window.height))
        ≡ false
      → (execute_sealed fp ext ui sealed window serial h).0 ≡ ok tt
  unfolding execute_render_plan
  execute_sealed-succeeds plan resources sealed order h is_sealed scheduled bound fit =
      let plan' = sealed.plan in
      let resources' = sealed.resources.bindings in
      let frame = execute_frame-succeeds plan' resources' bound order (λ h'.
        let quiet = prepare_surfaces-seal fp ext ui plan resources window sealed h' is_sealed in
        rw quiet refl) in
      rw (execute_render_plan, fit, scheduled)
        (ok_of (executed fp ext ui plan' resources' window serial (ok order) h) (
          bind-IsTotal (try_call ui begin_frame 0)
            (λ _. guarded ui (execute_frame fp ext ui plan' resources' window serial order))
            (checked ui willing begin_frame (fail 0 0 last_error))
            (λ _.
              guarded-IsTotal (execute_frame fp ext ui plan' resources' window serial order) frame)
            h))
