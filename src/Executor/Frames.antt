-- ===== src/Executor/Frames.antt =====
-- The frame of packages/ui/src/render/render_plan_executor.cpp: what `execute_render_plan` calls from
-- its beginning to its end, and what stands behind it.
use haxeon.Executor.Prepared.{prepare_surface-At, try_call-At}
use haxeon.Prelude.{
  ℕ, zero, suc, ◌<◌, ◌≡◌, inl, inr, refl, Bool, true, ◌||◌, List, [], ◌∷◌, some, arith, Bool-cases,
  get_elem?, length,
}
use haxeon.Float32.{Arith}
use haxeon.RenderPlan.Types.{RenderPass, RenderDependency, RenderPlan}
use haxeon.RenderPlan.Schedule.{draws}
use haxeon.RenderPlan.Kahn.{mem}
use haxeon.Compositor.Hash.{Hashes}
use haxeon.FrameResources.Frames.{FrameResources, surface_of, graphics_image_of}
use haxeon.Executor.Calls.{
  History, UiRenderer, end_frame, prepare_commands, encode_pass_commands, ◌>>=◌,
}
use haxeon.Executor.Surfaces.{
  WindowTarget, Extents, surface_request_size, prepare_dependency, prepare_surfaces, is_listed,
  is_some,
}
use haxeon.Executor.Passes.{execute_pass}
use haxeon.Executor.Protocol.{outside, in_frame, Mark, opened, At, Behind, bind-Behind, Behind-map}
use haxeon.Executor.Runs.{opened_target, run_marks, Ran, execute_pass-Ran}
use haxeon.Executor.{try_call, execute_passes, execute_frame}

pass_at :
    (passes : List RenderPass) (index : ℕ)
    → index < length passes
    → (p : RenderPass) × (get_elem? passes index ≡ some p)
pass_at [] index low = absurd (omega arith)
pass_at (p ∷ ps) zero low = (p, refl)
pass_at (p ∷ ps) (suc index) low = pass_at ps index (omega arith)

-- What the passes of an order leave, from the marks `ms` on: each pass of the order once, with what a
-- cache answered.
pub data Renders (resources : FrameResources) (window : ℕ) (passes : List RenderPass)
    : List ℕ → List Mark → List Mark → Type 0 where
  all_rendered : {ms : List Mark} → Renders resources window passes [] ms ms
  renders :
      {ms end : List Mark} {order : List ℕ} (index : ℕ) (p : RenderPass) (hit : Bool)
      → get_elem? passes index ≡ some p
      → Renders resources window passes order
          (run_marks resources p hit (opened (opened_target window p) hit ∷ ms))
          end
      → Renders resources window passes (index ∷ order) ms end

module _ (fp : Arith) (ext : Extents) (ui : UiRenderer) (plan : RenderPlan)
    (resources : FrameResources) (window : WindowTarget) (serial : ℕ) where
  prepare_dependency-At :
      (ms : List Mark) (d : RenderDependency) (h : History)
      → At in_frame ms h
      → Behind (λ _. At in_frame ms) (prepare_dependency fp ext ui plan resources window d h)
  prepare_dependency-At ms d h at =
      elim (Bool-cases (is_some (graphics_image_of d.producer resources))) [
        | inl image ↦ rw image at
        | inr none_bound ↦ rw none_bound (
            prepare_surface-At ui ms d.producer (surface_request_size fp ext plan d.producer window)
              (surface_of d.producer resources) h at)
      ]

  prepare_surfaces-At :
      (ms : List Mark) (done : List ℕ) (ds : List RenderDependency) (h : History)
      → At in_frame ms h
      → Behind (λ _. At in_frame ms) (prepare_surfaces fp ext ui plan resources window done ds h)
  unfolding prepare_surfaces
  prepare_surfaces-At ms done [] h at = at
  prepare_surfaces-At ms done (d ∷ ds) h at =
      elim (Bool-cases (draws d.producer plan.passes || is_listed d.producer done)) [
        | inl skipped ↦ rw skipped (prepare_surfaces-At ms done ds h at)
        | inr wanted ↦ rw wanted (
            bind-Behind (λ _. At in_frame ms) (λ _. At in_frame ms)
              (prepare_dependency fp ext ui plan resources window d)
              (λ _. prepare_surfaces fp ext ui plan resources window (d.producer ∷ done) ds) h
              (prepare_dependency-At ms d h at)
              (λ _ h' at'. prepare_surfaces-At ms (d.producer ∷ done) ds h' at'))
      ]

  -- The marks of the whole order, in the frame.
  abbrev pub AllRan : List ℕ → List Mark → History → Type 0
  AllRan order ms h =
      (end : List Mark) × At in_frame end h × Renders resources window.id plan.passes order ms end

  execute_passes-AllRan :
      (order : List ℕ) (hashes : Hashes) (ms : List Mark) (h : History)
      → ((v : ℕ) → mem v order ≡ true → v < length plan.passes)
      → At in_frame ms h
      → Behind
          (λ _. AllRan order ms)
          (execute_passes fp ext ui plan resources window serial hashes order h)
  unfolding execute_passes
  execute_passes-AllRan [] hashes ms h low at = (ms, at, all_rendered)
  execute_passes-AllRan (index ∷ order) hashes ms h low at =
      let (p, found) = pass_at plan.passes index (low index (ground arith)) in
      rw (execute_passes, found)
        (bind-Behind (λ _. Ran resources window.id p ms) (λ _. AllRan (index ∷ order) ms)
          (execute_pass ext window ui resources serial hashes index p)
          (λ hs. execute_passes fp ext ui plan resources window serial hs order) h
          (execute_pass-Ran ext window ui resources serial hashes index p ms h at)
          (λ hs h' ran.
            let (hit, at') = ran in
            let next = run_marks resources p hit (opened (opened_target window.id p) hit ∷ ms) in
            Behind-map (λ _. AllRan order next) (λ _. AllRan (index ∷ order) ms)
              (execute_passes fp ext ui plan resources window serial hs order h')
              (execute_passes-AllRan order hs next h' (λ v in_rest. low v (ground arith)) at')
              (λ _ h'' rest. (rest.0, rest.1, renders index p hit found rest.2))))

  -- The frame has ended, behind the passes of the order.
  abbrev pub Ended : List ℕ → List Mark → History → Type 0
  Ended order ms h =
      (end : List Mark) × At outside end h × Renders resources window.id plan.passes order ms end

  end_frame-Ended :
      (order : List ℕ) (ms : List Mark) (h : History)
      → AllRan order ms h
      → Behind (λ _. Ended order ms) (try_call ui end_frame (length plan.passes) h)
  end_frame-Ended order ms h (end, at, all) = elim (Bool-cases (ui.answer h end_frame).done) [
    | inl good ↦ rw good (end, record { place = rw at.place refl; trace = at.trace }, all)
    | inr bad ↦ rw bad (inl (rw at.place refl))
  ]

  pub execute_frame-Ended :
      (order : List ℕ) (ms : List Mark) (h : History)
      → ((v : ℕ) → mem v order ≡ true → v < length plan.passes)
      → At in_frame ms h
      → Behind (λ _. Ended order ms) (execute_frame fp ext ui plan resources window serial order h)
  unfolding execute_frame
  execute_frame-Ended order ms h low at =
      bind-Behind (λ _. At in_frame ms) (λ _. Ended order ms)
        (prepare_surfaces fp ext ui plan resources window [] plan.dependencies)
        (λ _. try_call ui (prepare_commands window.width window.height) 0 >>= λ _.
          try_call ui encode_pass_commands 0 >>= λ _.
          execute_passes fp ext ui plan resources window serial [] order >>= λ _.
          try_call ui end_frame (length plan.passes))
        h (prepare_surfaces-At ms [] plan.dependencies h at)
        (λ _ h1 at1.
          bind-Behind (λ _. At in_frame ms) (λ _. Ended order ms)
            (try_call ui (prepare_commands window.width window.height) 0)
            (λ _. try_call ui encode_pass_commands 0 >>= λ _.
              execute_passes fp ext ui plan resources window serial [] order >>= λ _.
              try_call ui end_frame (length plan.passes))
            h1
            (try_call-At ui ms (prepare_commands window.width window.height) 0 h1
              (λ r. record { place = rw at1.place refl; trace = at1.trace }))
            (λ _ h2 at2.
              bind-Behind (λ _. At in_frame ms) (λ _. Ended order ms)
                (try_call ui encode_pass_commands 0)
                (λ _. execute_passes fp ext ui plan resources window serial [] order >>= λ _.
                  try_call ui end_frame (length plan.passes))
                h2
                (try_call-At ui ms encode_pass_commands 0 h2
                  (λ r. record { place = rw at2.place refl; trace = at2.trace }))
                (λ _ h3 at3.
                  bind-Behind (λ _. AllRan order ms) (λ _. Ended order ms)
                    (execute_passes fp ext ui plan resources window serial [] order)
                    (λ _. try_call ui end_frame (length plan.passes)) h3
                    (execute_passes-AllRan order [] ms h3 low at3)
                    (λ _ h4 all. end_frame-Ended order ms h4 all))))
