-- ===== src/Executor/Whole.antt =====
-- `execute_render_plan` of packages/ui/src/render/render_plan_executor.cpp as a whole.
use haxeon.Prelude.{
  ℕ, ◌≡◌, inl, inr, refl, sym, subst, Bool, true, ◌||◌, not, List, [], ◌∷◌, Option, none, some,
  Outcome, ok, err, if◌then◌else◌, arith, Bool-cases, Outcome-cases,
}
use haxeon.Float32.{Arith}
use haxeon.ResourceId.{is_resource_id, render_target}
use haxeon.RenderPlan.Types.{RenderPlan, RenderDependency}
use haxeon.RenderPlan.Schedule.{draws, schedule_render_plan}
use haxeon.RenderPlan.Schedule.Correct.{schedule_render_plan-IsRenderOrder}
use haxeon.FrameResources.Frames.{FrameResources, graphics_image_of, is_positive}
use haxeon.FrameResources.Owned.{OwnedFrameResources}
use haxeon.FrameResources.Sealed.{SealedRenderPlan, is_bound, is_owned, all_owned, seal}
use haxeon.Executor.{guarded, executed, execute_frame, execute_render_plan}
use haxeon.Executor.Calls.{
  History, UiRenderer, RenderExecutionError, begin_frame, abort_frame, last_error, pure, fail, ◌>>◌,
}
use haxeon.Executor.Surfaces.{WindowTarget, Extents, prepare_surfaces, is_listed, is_some}
use haxeon.Executor.Protocol.{outside, phase, marks, Behind}
use haxeon.Executor.Frames.{Renders, Ended, execute_frame-Ended}

module _ (fp : Arith) (ext : Extents) (ui : UiRenderer) (plan : RenderPlan)
    (resources : FrameResources) (window : WindowTarget) (serial : ℕ) where
  -- What an execution from the calls `h` on comes to: the frame is over, and if it is reported as done,
  -- the passes of the scheduled order have left their marks.
  abbrev pub IsExecuted : History → Outcome RenderExecutionError (Unit {0}) × History → Type 0
  IsExecuted h (ok done, h') =
      (phase h' ≡ outside)
      × ((order : List ℕ) × (schedule_render_plan fp plan ≡ ok order)
          × Renders resources window.id plan.passes order (marks h) (marks h'))
  IsExecuted h (err e, h') = phase h' ≡ outside

  guarded-IsExecuted :
      (order : List ℕ) (h : History) (x : Outcome RenderExecutionError (Unit {0}) × History)
      → schedule_render_plan fp plan ≡ ok order
      → Behind (λ _. Ended fp ext ui plan resources window serial order (marks h)) x
      → IsExecuted h (elim x.0 [
        | ok done ↦ (ok done, x.1)
        | err e ↦ (err e, (abort_frame, ui.answer x.1 abort_frame) ∷ x.1)
      ])
  guarded-IsExecuted order h (ok done, h') e (end, at, all) = (
    at.place,
    (order, e, subst (Renders resources window.id plan.passes order (marks h)) (sym at.trace) all),
  )
  guarded-IsExecuted order h (err problem, h') e (inl open_frame) = rw open_frame refl
  guarded-IsExecuted order h (err problem, h') e (inr open_pass) = rw open_pass refl

  begun-IsExecuted :
      (order : List ℕ) (h : History)
      → phase h ≡ outside
      → schedule_render_plan fp plan ≡ ok order
      → IsExecuted h (executed fp ext ui plan resources window serial (ok order) h)
  begun-IsExecuted order h start e =
      let r = ui.answer h begin_frame in
      let h' = (begin_frame, r) ∷ h in
      let go = λ (b : Bool). IsExecuted h (
        ((λ (_ : History). (if b then pure tt else fail 0 0 last_error) h')
            >> guarded ui (execute_frame fp ext ui plan resources window serial order))
          h) in
      elim (Bool-cases r.done) [
        | inl good ↦ subst go (sym good) (
            guarded-IsExecuted order h
              (execute_frame fp ext ui plan resources window serial order h') e
              (execute_frame-Ended fp ext ui plan resources window serial order (marks h) h'
                (λ v member.
                  ((schedule_render_plan-IsRenderOrder fp plan order e).passes v).1 member)
                (record { place = rw (start, good) refl; trace = refl })))
        | inr bad ↦ subst go (sym bad) (rw (start, bad) refl)
      ]

  -- Started outside a frame, an execution keeps to the renderer's protocol, whatever the renderer and the
  -- producers answer: a frame begins and ends or is aborted, each pass that was opened ends before the
  -- next call outside a pass, except behind a scissor that failed, after which the frame is aborted; draws
  -- and filters come inside a pass, and no cache is asked with the key 0. An execution that reports
  -- success has run each pass of the scheduled order once, in this order: it was opened, and unless a
  -- cache had it, every command was drawn in order, or its effect or mask was applied.
  pub execute_render_plan-IsExecuted :
      (h : History)
      → phase h ≡ outside
      → IsExecuted h (execute_render_plan fp ext ui plan resources window serial h)
  unfolding execute_render_plan
  execute_render_plan-IsExecuted h start =
      elim (Bool-cases (
        not (ui.valid h)
        || not (is_resource_id window.id render_target)
        || not window.complete
        || not (is_positive window.width)
        || not (is_positive window.height))) [
          | inl bad ↦ rw bad start
          | inr good ↦ elim (Outcome-cases (schedule_render_plan fp plan)) [
            | inl (order, e) ↦ rw (good, e) (begun-IsExecuted order h start e)
            | inr (x, e) ↦ rw (good, e) start
          ]
        ]

graphics_owned : (x : Option ℕ) → is_bound x ≡ true → is_some x ≡ true
graphics_owned none e = cc
graphics_owned (some picture) e = refl

all_owned-quiet :
    (fp : Arith) (ext : Extents) (ui : UiRenderer) (plan : RenderPlan)
    (resources : OwnedFrameResources) (window : WindowTarget) (done : List ℕ)
    (ds : List RenderDependency) (h : History)
    → all_owned plan resources ds ≡ true
    → prepare_surfaces fp ext ui plan resources.bindings window done ds h ≡ (ok tt, h)
unfolding prepare_surfaces all_owned is_owned
all_owned-quiet fp ext ui plan resources window done [] h all = refl
all_owned-quiet fp ext ui plan resources window done (d ∷ ds) h all =
    elim (Bool-cases (draws d.producer plan.passes || is_listed d.producer done)) [
      | inl skipped ↦
          rw skipped (all_owned-quiet fp ext ui plan resources window done ds h (ground arith))
      | inr wanted ↦
          let bound : is_some (graphics_image_of d.producer resources.bindings) ≡ true =
            graphics_owned (graphics_image_of d.producer resources.bindings) (ground arith) in
          rw (wanted, bound)
            (all_owned-quiet fp ext ui plan resources window (d.producer ∷ done) ds h
              (ground arith))
    ]

-- A plan that was sealed needs no surface from outside: the executor finds every producer in the plan or
-- among the images it holds, makes no call for it and does not fail.
pub prepare_surfaces-seal :
    (fp : Arith) (ext : Extents) (ui : UiRenderer) (plan : RenderPlan)
    (resources : OwnedFrameResources) (window : WindowTarget) (sealed : SealedRenderPlan)
    (h : History)
    → seal plan resources ≡ some sealed
    → prepare_surfaces fp ext ui sealed.plan sealed.resources.bindings window []
        sealed.plan.dependencies h
      ≡ (ok tt, h)
unfolding seal
prepare_surfaces-seal fp ext ui plan resources window sealed h e =
    elim (Bool-cases (all_owned plan resources plan.dependencies)) [
      | inr missing ↦ absurd (cc (rw missing at e))
      | inl all ↦
          let same : record { plan = plan; resources = resources } ≡ sealed = cc (rw all at e) in
          rw (← same) (all_owned-quiet fp ext ui plan resources window [] plan.dependencies h all)
    ]
