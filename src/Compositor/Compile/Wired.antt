-- ===== src/Compositor/Compile/Wired.antt =====
-- What the plans of `Compositor::compile` (packages/ui/src/compositor/compositor.cpp) promise to
-- `schedule_render_plan` (packages/ui/src/compositor/render_plan.cpp).
use haxeon.Prelude.{
  ℕ, zero, suc, ◌-◌, ◌≡◌, ◌≢◌, ◌∙◌, ap, true, ◌||◌, not, List, [], ◌∷◌, some, arith, length,
  get_elem?, take,
}
use haxeon.Float32.{Arith}
use haxeon.DisplayList.Validate.{outset}
use haxeon.RenderPlan.Types.{RenderCommand, RenderPass, RenderDependency, RenderPlan}
use haxeon.RenderPlan.Checks.{samples_input}
use haxeon.RenderPlan.Kahn.{mem}
use haxeon.RenderPlan.Schedule.{draws, any_composites, consumed}
use haxeon.Compositor.Types.{Layer}
use haxeon.Compositor.Passes.{depends}
use haxeon.Compositor.Plan.{inputs_ok, consumers_ok, commands_declared, declared_ok, target_at}
use haxeon.Compositor.Hash.{assign_effect_cache_keys}
use haxeon.Compositor.Hash.Keys.{
  AllKeyed, assign-AllKeyed, inputs_ok-assign, consumers_ok-assign, declared_ok-assign,
  target_at-assign, length-assign,
}
use haxeon.Compositor.Step.{Machine}
use haxeon.Compositor.Step.Settled.{Nested, Settled}
use haxeon.Compositor.Compile.{keyed}

-- What an effect or mask pass reads is drawn by an earlier pass; the dependencies are those of the
-- composites, no more and no fewer; every pass has a cache key; the last pass draws into `main`.
pub record IsWired (main : ℕ) (plan : RenderPlan) : Type 0 where
  pub inputs :
      (k : ℕ) (p : RenderPass)
      → get_elem? plan.passes k ≡ some p
      → samples_input p.kind ≡ true
      → draws p.input_target (take k plan.passes) ≡ true
  pub consumers :
      (k : ℕ) (d : RenderDependency)
      → get_elem? plan.dependencies k ≡ some d
      → consumed d.producer d.consumer plan.passes ≡ true
  pub declared :
      (k source : ℕ) (p : RenderPass)
      → get_elem? plan.passes k ≡ some p
      → any_composites source p.commands ≡ true
      → depends source p.target plan.dependencies ≡ true
  pub keyed : (k : ℕ) (p : RenderPass) → get_elem? plan.passes k ≡ some p → p.cache_key ≢ 0
  pub final : target_at (length plan.passes - 1) plan.passes ≡ some main

inputs_ok-draws :
    (seen : List ℕ) (ps : List RenderPass) (k : ℕ) (p : RenderPass)
    → inputs_ok seen ps ≡ true
    → get_elem? ps k ≡ some p
    → samples_input p.kind ≡ true
    → (draws p.input_target (take k ps) || mem p.input_target seen) ≡ true
inputs_ok-draws seen [] k p h found s = cc
inputs_ok-draws seen (q ∷ ps) zero p h found s =
    let same : q ≡ p = cc in
    let here : (not (samples_input q.kind) || mem q.input_target seen) ≡ true = ground arith in
    ground (arith, rw same at here)
inputs_ok-draws seen (q ∷ ps) (suc k) p h found s =
    ground (arith, inputs_ok-draws (q.target ∷ seen) ps k p (ground arith) found s)

consumers_ok-consumed :
    (ds : List RenderDependency) (ps : List RenderPass) (k : ℕ) (d : RenderDependency)
    → consumers_ok ds ps ≡ true
    → get_elem? ds k ≡ some d
    → consumed d.producer d.consumer ps ≡ true
consumers_ok-consumed [] ps k d h found = cc
consumers_ok-consumed (x ∷ ds) ps zero d h found = let same : x ≡ d = cc in ground arith
consumers_ok-consumed (x ∷ ds) ps (suc k) d h found =
    consumers_ok-consumed ds ps k d (ground arith) found

commands_declared-depends :
    (ds : List RenderDependency) (t source : ℕ) (cs : List RenderCommand)
    → commands_declared ds t cs ≡ true
    → any_composites source cs ≡ true
    → depends source t ds ≡ true
commands_declared-depends ds t source [] h k = cc
commands_declared-depends ds t source (c ∷ cs) h k =
    ground (arith, commands_declared-depends ds t source cs)

declared_ok-depends :
    (ds : List RenderDependency) (ps : List RenderPass) (k source : ℕ) (p : RenderPass)
    → declared_ok ds ps ≡ true
    → get_elem? ps k ≡ some p
    → any_composites source p.commands ≡ true
    → depends source p.target ds ≡ true
declared_ok-depends ds [] k source p h found s = cc
declared_ok-depends ds (q ∷ ps) zero source p h found s =
    let same : q ≡ p = cc in
    let here : commands_declared ds q.target q.commands ≡ true = ground arith in
    commands_declared-depends ds p.target source p.commands (rw same at here) s
declared_ok-depends ds (q ∷ ps) (suc k) source p h found s =
    declared_ok-depends ds ps k source p (ground arith) found s

AllKeyed-nonzero :
    (ps : List RenderPass) (k : ℕ) (p : RenderPass)
    → AllKeyed ps
    → get_elem? ps k ≡ some p
    → p.cache_key ≢ 0
AllKeyed-nonzero [] k p h found = cc
AllKeyed-nonzero (q ∷ ps) zero p (first, rest) found = let same : q ≡ p = cc in rw same at first
AllKeyed-nonzero (q ∷ ps) (suc k) p (first, rest) found = AllKeyed-nonzero ps k p rest found

closed_target :
    (main target : ℕ) (ls : List Layer) → length ls ≡ 0 → Nested main target ls → target ≡ main
closed_target main target [] none_open n = n
closed_target main target (l ∷ ls) none_open n = cc

-- At the end of the loop.
pub keyed-IsWired :
    (fp : Arith) (main : ℕ) (m : Machine) → Settled main m outset → IsWired main (keyed fp m)
keyed-IsWired fp main m s =
    let ps = m.work.plan.passes in
    let ds = m.work.plan.dependencies in
    let qs = assign_effect_cache_keys [] ps in
    let at_main : m.target ≡ main = closed_target main m.target m.layers s.layers s.nested in
    let last : length qs - 1 ≡ m.pass = omega (arith, length-assign [] ps, s.last) in
    record {
      inputs = λ k p found sampling. ground (
        arith,
        inputs_ok-draws [] qs k p (inputs_ok-assign [] ps ∙ s.good.inputs) found sampling,
      );
      consumers = λ k d found.
          consumers_ok-consumed ds qs k d (consumers_ok-assign ds [] ps ∙ s.good.consumers) found;
      declared = λ k source p found c.
          declared_ok-depends ds qs k source p (declared_ok-assign ds [] ps ∙ s.good.declared) found
            c;
      keyed = λ k p found. AllKeyed-nonzero qs k p (assign-AllKeyed [] ps) found;
      final =
          ap (λ (i : ℕ). target_at i qs) last
          ∙ target_at-assign m.pass [] ps
          ∙ s.here
          ∙ ap some at_main;
    }
