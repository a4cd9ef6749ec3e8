-- ===== src/Executor.antt =====
-- packages/ui/src/render/render_plan_executor.cpp: `execute_render_plan`. The number of the execution,
-- from a counter that all executions share, is an argument. The probes of render_cost.h only measure.
pub mod Prepared
pub mod Completes
pub mod Calls
pub mod Hash
pub mod Surfaces
pub mod Passes
pub mod Protocol
pub mod Draws
pub mod Runs
pub mod Frames
pub mod Whole
pub mod Succeeds
use haxeon.Prelude.{
  ℕ, Bool, true, false, ◌||◌, not, List, [], ◌∷◌, Option, none, some, Outcome, ok, err,
  if◌then◌else◌, length, get_elem?,
}
use haxeon.Float32.{Arith}
use haxeon.ResourceId.{is_resource_id, render_target}
use haxeon.RenderPlan.Types.{RenderPass, RenderPlan}
use haxeon.RenderPlan.Schedule.{ScheduleError, schedule_render_plan}
use haxeon.Compositor.Hash.{Hashes}
use haxeon.FrameResources.Frames.{FrameResources, is_positive}
use haxeon.FrameResources.Sealed.{SealedRenderPlan}
use haxeon.Executor.Calls.{
  Action, History, UiRenderer, RenderExecutionError, Call, begin_frame, end_frame, abort_frame,
  prepare_commands, encode_pass_commands, invalid_execution_input, unscheduled, last_error, pure,
  fail, ◌>>=◌, ◌>>◌, call,
}
use haxeon.Executor.Surfaces.{WindowTarget, Extents, prepare_surfaces}
use haxeon.Executor.Passes.{execute_pass}

module _ (ui : UiRenderer) where
  -- A call whose failure ends the execution.
  abbrev pub try_call : Call → ℕ → Action Unit
  try_call c pass = do reply ← call ui c; if reply.done then pure tt else fail pass 0 last_error

  -- `FrameGuard`
  abbrev pub guarded : Action Unit → Action Unit
  guarded m h =
      let (r, h') = m h in
      elim r [
        | ok done ↦ (ok done, h')
        | err e ↦ (err e, (abort_frame, ui.answer h' abort_frame) ∷ h')
      ]

module _ (fp : Arith) (ext : Extents) (ui : UiRenderer) (plan : RenderPlan)
    (resources : FrameResources) (window : WindowTarget) (serial : ℕ) where
  -- The loop over the order. It names passes of the plan only.
  unfoldable pub execute_passes : Hashes → List ℕ → Action Unit
  execute_passes hashes [] = pure tt
  execute_passes hashes (index ∷ order) = elim (get_elem? plan.passes index) [
    | none ↦ execute_passes hashes order
    | some p ↦
        execute_pass ext window ui resources serial hashes index p >>= λ hs. execute_passes hs order
  ]

  -- What stands between the beginning of the frame and its end.
  unfoldable pub execute_frame : List ℕ → Action Unit
  execute_frame order = do
    prepare_surfaces fp ext ui plan resources window [] plan.dependencies
    try_call ui (prepare_commands window.width window.height) 0
    try_call ui encode_pass_commands 0
    execute_passes [] order
    try_call ui end_frame (length plan.passes)

  abbrev pub executed : Outcome ScheduleError (List ℕ) → Action Unit
  executed (err e) = fail e.pass_index 0 (unscheduled e.message)
  executed (ok order) = try_call ui begin_frame 0 >> guarded ui (execute_frame order)

  unfoldable pub execute_render_plan : Action Unit
  execute_render_plan h =
      if not (ui.valid h)
        || not (is_resource_id window.id render_target)
        || not window.complete
        || not (is_positive window.width)
        || not (is_positive window.height)
      then fail 0 0 invalid_execution_input h
      else executed (schedule_render_plan fp plan) h

-- The overload for a sealed plan.
abbrev pub execute_sealed :
    Arith → Extents → UiRenderer → SealedRenderPlan → WindowTarget → ℕ → Action Unit
execute_sealed fp ext ui sealed window serial =
    execute_render_plan fp ext ui sealed.plan sealed.resources.bindings window serial
