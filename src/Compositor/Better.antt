-- ===== src/Compositor/Better.antt =====
-- The building blocks of packages/ui/src/compositor/compositor.cpp keep a plan as the scheduler wants it.
use haxeon.Prelude.{
  ℕ, ◌≡◌, ◌∙◌, inl, inr, refl, true, false, [], ◌∷◌, ◌++◌, some, arith, Bool-cases,
}
use haxeon.RenderPlan.Types.{RenderCommand, RenderPass, RenderDependency}
use haxeon.RenderPlan.Checks.{samples_input, is_composite}
use haxeon.Compositor.Passes.{
  Work, push_pass, depends, add_dependency, append_command, add_command, composite_into,
}
use haxeon.Compositor.Plan.{
  Better, Drawn, Good, consumed-new, consumers_ok-append_command, consumers_ok-last,
  consumers_ok-snoc, declared_ok-append_command, declared_ok-snoc, declared_ok-wider, depends-snoc,
  draws-append_command, draws-snoc, inputs_ok-append_command, inputs_ok-snoc, target_at,
}

pub push_pass-Better :
    (p : RenderPass) (w : Work)
    → Good w
    → p.commands ≡ []
    → (samples_input p.kind ≡ true → Drawn p.input_target w)
    → Better w (push_pass p w) × Drawn p.target (push_pass p w)
unfolding push_pass
push_pass-Better p w g none_yet input = (
  record {
    good = record {
      inputs = inputs_ok-snoc [] w.plan.passes p g.inputs (ground arith);
      consumers = consumers_ok-snoc w.plan.dependencies w.plan.passes p g.consumers;
      declared = declared_ok-snoc w.plan.dependencies w.plan.passes p none_yet g.declared;
    };
    keeps = λ t d. ground (arith, draws-snoc t w.plan.passes p);
  },
  ground (arith, draws-snoc p.target w.plan.passes p),
)

-- A command that composites nothing.
pub add_command-Better :
    (i : ℕ) (c : RenderCommand) (w : Work)
    → Good w
    → is_composite c.kind ≡ false
    → Better w (add_command i c w)
unfolding add_command
add_command-Better i c w g plain = record {
  good = record {
    inputs = inputs_ok-append_command [] i c w.plan.passes ∙ g.inputs;
    consumers = consumers_ok-append_command w.plan.dependencies i c w.plan.passes g.consumers;
    declared =
        declared_ok-append_command w.plan.dependencies i 0 c w.plan.passes (λ h. rw plain refl)
          (inr plain) g.declared;
  };
  keeps = λ t d. draws-append_command t i c w.plan.passes ∙ d;
}

pub composite_into-Better :
    (i t : ℕ) (c : RenderCommand) (w : Work)
    → Good w
    → target_at i w.plan.passes ≡ some t
    → is_composite c.kind ≡ true
    → Better w (composite_into i t c w)
unfolding composite_into add_command add_dependency
composite_into-Better i t c w g here k =
    let ps = append_command i c w.plan.passes in
    let ds = w.plan.dependencies in
    let d : RenderDependency = record { producer = c.resource; consumer = t } in
    let inputs = inputs_ok-append_command [] i c w.plan.passes ∙ g.inputs in
    let consumers = consumers_ok-append_command ds i c w.plan.passes g.consumers in
    let keeps = λ (u : ℕ) (drawn : Drawn u w). draws-append_command u i c w.plan.passes ∙ drawn in
    elim (Bool-cases (depends c.resource t ds)) [
      | inl known ↦ rw known (record {
        good = record {
          inputs = inputs;
          consumers = consumers;
          declared =
              declared_ok-append_command ds i t c w.plan.passes (λ h. ground arith) (inl here)
                g.declared;
        };
        keeps = keeps;
      })
      | inr new ↦
          let there : depends c.resource t (ds ++ d ∷ []) ≡ true =
            ground (arith, depends-snoc c.resource t ds d) in
          rw new (record {
            good = record {
              inputs = inputs;
              consumers =
                  consumers_ok-last ds d ps consumers (consumed-new t i c w.plan.passes here k);
              declared =
                  declared_ok-append_command (ds ++ d ∷ []) i t c w.plan.passes (λ h. ground arith)
                    (inl here) (declared_ok-wider ds d w.plan.passes g.declared);
            };
            keeps = keeps;
          })
    ]

-- A dependency does not look at the passes, nor a command at the dependencies.
pub add_command-add_dependency :
    (i r t : ℕ) (c : RenderCommand) (w : Work)
    → add_command i c (add_dependency r t w) ≡ add_dependency r t (add_command i c w)
unfolding add_command add_dependency
add_command-add_dependency i r t c w = elim (Bool-cases (depends r t w.plan.dependencies)) [
  | inl known ↦ rw known refl
  | inr new ↦ rw new refl
]
