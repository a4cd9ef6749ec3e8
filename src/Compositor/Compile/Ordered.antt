-- ===== src/Compositor/Compile/Ordered.antt =====
-- `schedule_render_plan` (packages/ui/src/compositor/render_plan.cpp) on the plans of
-- `Compositor::compile` (packages/ui/src/compositor/compositor.cpp).
use haxeon.Prelude.{
  ℕ, zero, suc, ◌+◌, ◌^◌, ◌≤◌, ◌<◌, ◌≡◌, ◌≢◌, ◌⊎◌, inl, inr, refl, true, ◌&&◌, List, [], ◌∷◌, some,
  arith, ok, err, Outcome-cases, Option-cases, ◌==◌, length, get_elem?, take, Bool-cases,
}
use haxeon.Float32.{Arith}
use haxeon.DisplayList.Buffer.{DisplayList}
use haxeon.RenderPlan.Types.{RenderPass, RenderDependency, RenderPlan}
use haxeon.RenderPlan.Checks.{dependency_cycle, samples_input, pass_problem}
use haxeon.RenderPlan.Kahn.Start.{before}
use haxeon.RenderPlan.Schedule.{
  ScheduleError, Graph, blank, draws, any_composites, connect_pass, connect, consumed, depend,
  depend_all, order_passes, schedule_render_plan,
}
use haxeon.RenderPlan.Schedule.Correct.{declared, schedule_render_plan-IsRenderOrder}
use haxeon.Compositor.Passes.{depends}
use haxeon.Compositor.Compile.{compile}
use haxeon.Compositor.Compile.Answers.{compile-Answers}
use haxeon.Compositor.Compile.Wired.{IsWired}

-- The errors that are left: a pass that fails its own checks, or passes that wait for each other.
abbrev pub Blames : Arith → RenderPlan → ScheduleError → Type 0
Blames fp plan e =
    (e.message ≡ dependency_cycle)
    ⊎ ((p : RenderPass) × (get_elem? plan.passes e.pass_index ≡ some p)
        × (pass_problem fp p ≡ some e.message))

connect_pass_fed :
    (passes : List RenderPass) (index : ℕ) (p : RenderPass) (g : Graph) (e : ScheduleError)
    → (samples_input p.kind ≡ true → draws p.input_target (take index passes) ≡ true)
    → connect_pass passes index p g ≡ err e
    → ⊥
unfolding connect_pass
connect_pass_fed passes index p g e fed run = ground (arith, fed)

connect-Blames :
    (fp : Arith) (plan : RenderPlan) (index : ℕ) (ps : List RenderPass) (g : Graph)
    (e : ScheduleError)
    → ((k j : ℕ) (p : RenderPass)
        → j ≡ index + k
        → get_elem? ps k ≡ some p
        → (get_elem? plan.passes j ≡ some p)
          × (samples_input p.kind ≡ true → draws p.input_target (take j plan.passes) ≡ true))
    → connect fp plan.passes index ps g ≡ err e
    → Blames fp plan e
unfolding connect
connect-Blames fp plan index [] g e fed run = cc
connect-Blames fp plan index (p ∷ ps) g e fed run =
    let (here, drawn) = fed zero index p (omega arith) refl in
    elim (Option-cases (pass_problem fp p)) [
      | inr (m, bad) ↦
          let same : record { pass_index = index; message = m } ≡ e =
            cc (rw (bad, connect) at run) in
          rw (← same) (inr (p, here, bad))
      | inl good ↦ elim (Outcome-cases (connect_pass plan.passes index p g)) [
        | inr (x, bad) ↦ absurd (connect_pass_fed plan.passes index p g x drawn bad)
        | inl (g1, next) ↦
            connect-Blames fp plan (index + 1) ps g1 e
              (λ k j q at_k found. fed (suc k) j q (omega arith) found)
              (rw (good, connect, next) at run)
      ]
    ]

depend_all_total :
    (passes : List RenderPass) (ds : List RenderDependency) (g : Graph)
    → ((k : ℕ) (d : RenderDependency)
        → get_elem? ds k ≡ some d
        → consumed d.producer d.consumer passes ≡ true)
    → (g' : Graph) × (depend_all passes ds g ≡ ok g')
unfolding depend_all
depend_all_total passes [] g fed = (g, refl)
depend_all_total passes (d ∷ ds) g fed =
    let here = fed zero d refl in
    let (g1, one) =
      depend_all_total passes ds (depend passes d.producer d.consumer 0 passes g)
        (λ k x found. fed (suc k) x found) in
    let (g2, two) = depend_all_total passes ds g (λ k x found. fed (suc k) x found) in
    elim (Bool-cases (draws d.producer passes)) [
      | inl drawn ↦ (g1, rw (drawn, here) one)
      | inr external ↦ (g2, rw external two)
    ]

order_passes_cycle :
    (n : ℕ) (g : Graph) (e : ScheduleError)
    → order_passes n g ≡ err e
    → e.message ≡ dependency_cycle
unfolding order_passes
order_passes_cycle n g e run = ground arith

wired_schedule :
    (fp : Arith) (main : ℕ) (plan : RenderPlan) (e : ScheduleError)
    → IsWired main plan
    → schedule_render_plan fp plan ≡ err e
    → Blames fp plan e
unfolding schedule_render_plan
wired_schedule fp main plan e wired run =
    let n = length plan.passes in
    elim (Outcome-cases (connect fp plan.passes 0 plan.passes (blank n))) [
      | inr (x, bad) ↦
          let same : x ≡ e = cc (rw (bad, schedule_render_plan) at run) in
          rw same at (
            connect-Blames fp plan 0 plan.passes (blank n) x
              (λ k j p at_k found.
                let here : k ≡ j = omega arith in
                (rw here at found, rw here at (wired.inputs k p found)))
              bad)
      | inl (g, one) ↦
          let (g', two) = depend_all_total plan.passes plan.dependencies g wired.consumers in
          inl (order_passes_cycle n g' e (rw (one, schedule_render_plan, two) at run))
    ]

depends-at :
    (r t : ℕ) (ds : List RenderDependency)
    → depends r t ds ≡ true
    → (k : ℕ) × (d : RenderDependency) × (get_elem? ds k ≡ some d)
      × (d.producer ≡ r)
      × (d.consumer ≡ t)
depends-at r t [] h = cc
depends-at r t (d ∷ ds) h = elim (Bool-cases (d.producer == r && d.consumer == t)) [
  | inl here ↦ (zero, d, refl, ground arith, ground arith)
  | inr other ↦
      let (k, x, found, a, b) = depends-at r t ds (ground arith) in (suc k, x, found, a, b)
]

module _ (fp : Arith) (dl : DisplayList) (main : ℕ) (readable : dl.size ≤ length dl.bytes)
    (small : dl.size < 2 ^ 32) (plan : RenderPlan)
    (compiled : compile fp dl main ≡ some (ok plan)) where
  compiled-IsWired : IsWired main plan
  compiled-IsWired = (rw compiled at (compile-Answers fp dl main readable small)).2

  -- The plan that at most 2 ^ 32 - 1 readable bytes compile to is refused only if passes wait for each
  -- other, or for the problem that the reported pass has by itself: never for an input that no earlier
  -- pass draws, nor for a dependency that no command consumes.
  pub compile-Blames : (e : ScheduleError) → schedule_render_plan fp plan ≡ err e → Blames fp plan e
  compile-Blames e run = wired_schedule fp main plan e compiled-IsWired run

  -- In the order of the plan that at most 2 ^ 32 - 1 readable bytes compile to, a pass that composites a
  -- target comes behind all other passes that draw into this target.
  pub compile_before :
      (order : List ℕ) (i j : ℕ) (p q : RenderPass)
      → schedule_render_plan fp plan ≡ ok order
      → get_elem? plan.passes i ≡ some p
      → get_elem? plan.passes j ≡ some q
      → i ≢ j
      → any_composites p.target q.commands ≡ true
      → before i j order ≡ true
  compile_before order i j p q run at_i at_j other samples =
      let known = compiled-IsWired.declared j p.target q at_j samples in
      let (k, d, found, producer, consumer) =
        depends-at p.target q.target plan.dependencies known in
      (schedule_render_plan-IsRenderOrder fp plan order run).sorted i j
        (declared p q k d other at_i at_j found (ground arith) (ground arith) (rw producer samples))
