-- ===== src/Compositor/Plan.antt =====
-- The plans that packages/ui/src/compositor/compositor.cpp builds, as `schedule_render_plan` asks for
-- them: what is sampled is drawn before, and what is declared is consumed.
use haxeon.Prelude.{
  ℕ, zero, suc, ◌≡◌, ◌⊎◌, refl, ap, Bool, true, false, ◌&&◌, ◌||◌, not, List, [], ◌∷◌, ◌++◌, Option,
  none, some, arith, ◌==◌,
}
use haxeon.RenderPlan.Types.{RenderCommand, RenderPass, RenderDependency, RenderPlan}
use haxeon.RenderPlan.Checks.{samples_input, is_composite}
use haxeon.RenderPlan.Kahn.{mem}
use haxeon.RenderPlan.Schedule.{draws, composites, any_composites, consumed}
use haxeon.Compositor.Passes.{Work, depends, append_command}

-- Every sampling pass reads a target of `seen` or of a pass before it.
abbrev pub inputs_ok : List ℕ → List RenderPass → Bool
inputs_ok seen [] = true
inputs_ok seen (p ∷ ps) =
    (not (samples_input p.kind) || mem p.input_target seen) && inputs_ok (p.target ∷ seen) ps

-- Every dependency has a composite of its producer in a pass of its consumer.
abbrev pub consumers_ok : List RenderDependency → List RenderPass → Bool
consumers_ok [] ps = true
consumers_ok (d ∷ ds) ps = consumed d.producer d.consumer ps && consumers_ok ds ps

-- Every composite of the commands is declared, for a pass that draws into `target`.
abbrev pub commands_declared : List RenderDependency → ℕ → List RenderCommand → Bool
commands_declared ds target [] = true
commands_declared ds target (c ∷ cs) =
    (not (is_composite c.kind) || depends c.resource target ds) && commands_declared ds target cs

abbrev pub declared_ok : List RenderDependency → List RenderPass → Bool
declared_ok ds [] = true
declared_ok ds (p ∷ ps) = commands_declared ds p.target p.commands && declared_ok ds ps

abbrev pub target_at : ℕ → List RenderPass → Option ℕ
target_at i [] = none
target_at zero (p ∷ ps) = some p.target
target_at (suc i) (p ∷ ps) = target_at i ps

-- What effect and mask passes read is drawn before, every dependency is consumed, and every composite
-- is declared.
pub record IsFed (plan : RenderPlan) : Type 0 where
  pub inputs : inputs_ok [] plan.passes ≡ true
  pub consumers : consumers_ok plan.dependencies plan.passes ≡ true
  pub declared : declared_ok plan.dependencies plan.passes ≡ true

abbrev pub Good : Work → Type 0
Good w = IsFed w.plan

abbrev pub Drawn : ℕ → Work → Type 0
Drawn t w = draws t w.plan.passes ≡ true

-- What is added keeps a plan good, and what was drawn stays drawn.
pub record Better (w w' : Work) : Type 0 where
  pub good : Good w'
  pub keeps : (t : ℕ) → Drawn t w → Drawn t w'

pub Better-trans : (u v w : Work) → Better u v → Better v w → Better u w
Better-trans u v w a b = record { good = b.good; keeps = λ t d. b.keeps t (a.keeps t d) }

pub draws-snoc :
    (t : ℕ) (ps : List RenderPass) (p : RenderPass)
    → draws t (ps ++ p ∷ []) ≡ (draws t ps || p.target == t)
draws-snoc t [] p = ground arith
draws-snoc t (q ∷ ps) p = ground (arith, draws-snoc t ps p)

pub inputs_ok-snoc :
    (seen : List ℕ) (ps : List RenderPass) (p : RenderPass)
    → inputs_ok seen ps ≡ true
    → (not (samples_input p.kind) || (draws p.input_target ps || mem p.input_target seen)) ≡ true
    → inputs_ok seen (ps ++ p ∷ []) ≡ true
inputs_ok-snoc seen [] p a b = ground arith
inputs_ok-snoc seen (q ∷ ps) p a b = ground (arith, inputs_ok-snoc (q.target ∷ seen) ps p)

pub consumed-snoc :
    (r t : ℕ) (ps : List RenderPass) (p : RenderPass)
    → consumed r t ps ≡ true
    → consumed r t (ps ++ p ∷ []) ≡ true
consumed-snoc r t [] p h = cc
consumed-snoc r t (q ∷ ps) p h = ground (arith, consumed-snoc r t ps p)

pub consumers_ok-snoc :
    (ds : List RenderDependency) (ps : List RenderPass) (p : RenderPass)
    → consumers_ok ds ps ≡ true
    → consumers_ok ds (ps ++ p ∷ []) ≡ true
consumers_ok-snoc [] ps p h = refl
consumers_ok-snoc (d ∷ ds) ps p h =
    ground (arith, consumed-snoc d.producer d.consumer ps p, consumers_ok-snoc ds ps p)

pub draws-append_command :
    (t i : ℕ) (c : RenderCommand) (ps : List RenderPass)
    → draws t (append_command i c ps) ≡ draws t ps
unfolding append_command
draws-append_command t i c [] = refl
draws-append_command t zero c (p ∷ ps) = refl
draws-append_command t (suc i) c (p ∷ ps) =
    ap (λ b. p.target == t || b) (draws-append_command t i c ps)

pub inputs_ok-append_command :
    (seen : List ℕ) (i : ℕ) (c : RenderCommand) (ps : List RenderPass)
    → inputs_ok seen (append_command i c ps) ≡ inputs_ok seen ps
unfolding append_command
inputs_ok-append_command seen i c [] = refl
inputs_ok-append_command seen zero c (p ∷ ps) = refl
inputs_ok-append_command seen (suc i) c (p ∷ ps) =
    rw (inputs_ok-append_command (p.target ∷ seen) i c ps) refl

pub any_composites-snoc :
    (r : ℕ) (cs : List RenderCommand) (c : RenderCommand)
    → any_composites r (cs ++ c ∷ []) ≡ (any_composites r cs || composites r c)
any_composites-snoc r [] c = ground arith
any_composites-snoc r (x ∷ cs) c = ground (arith, any_composites-snoc r cs c)

pub consumed-append_command :
    (r t i : ℕ) (c : RenderCommand) (ps : List RenderPass)
    → consumed r t ps ≡ true
    → consumed r t (append_command i c ps) ≡ true
unfolding append_command
consumed-append_command r t i c [] h = cc
consumed-append_command r t zero c (p ∷ ps) h = ground (arith, any_composites-snoc r p.commands c)
consumed-append_command r t (suc i) c (p ∷ ps) h =
    ground (arith, consumed-append_command r t i c ps)

pub consumers_ok-append_command :
    (ds : List RenderDependency) (i : ℕ) (c : RenderCommand) (ps : List RenderPass)
    → consumers_ok ds ps ≡ true
    → consumers_ok ds (append_command i c ps) ≡ true
consumers_ok-append_command [] i c ps h = refl
consumers_ok-append_command (d ∷ ds) i c ps h = ground (
  arith,
  consumed-append_command d.producer d.consumer i c ps,
  consumers_ok-append_command ds i c ps,
)

-- A new composite is consumed where it stands.
pub consumed-new :
    (t i : ℕ) (c : RenderCommand) (ps : List RenderPass)
    → target_at i ps ≡ some t
    → is_composite c.kind ≡ true
    → consumed c.resource t (append_command i c ps) ≡ true
unfolding append_command
consumed-new t i c [] found k = cc
consumed-new t zero c (p ∷ ps) found k =
    let same : p.target ≡ t = cc in ground (arith, any_composites-snoc c.resource p.commands c)
consumed-new t (suc i) c (p ∷ ps) found k = ground (arith, consumed-new t i c ps found k)

pub consumers_ok-last :
    (ds : List RenderDependency) (d : RenderDependency) (ps : List RenderPass)
    → consumers_ok ds ps ≡ true
    → consumed d.producer d.consumer ps ≡ true
    → consumers_ok (ds ++ d ∷ []) ps ≡ true
consumers_ok-last [] d ps h k = ground arith
consumers_ok-last (x ∷ ds) d ps h k = ground (arith, consumers_ok-last ds d ps)

pub declared_ok-snoc :
    (ds : List RenderDependency) (ps : List RenderPass) (p : RenderPass)
    → p.commands ≡ []
    → declared_ok ds ps ≡ true
    → declared_ok ds (ps ++ p ∷ []) ≡ true
declared_ok-snoc ds [] p none_yet h = rw none_yet refl
declared_ok-snoc ds (q ∷ ps) p none_yet h = ground (arith, declared_ok-snoc ds ps p none_yet)

commands_declared-snoc :
    (ds : List RenderDependency) (t : ℕ) (cs : List RenderCommand) (c : RenderCommand)
    → commands_declared ds t (cs ++ c ∷ [])
      ≡ (commands_declared ds t cs && (not (is_composite c.kind) || depends c.resource t ds))
commands_declared-snoc ds t [] c = ground arith
commands_declared-snoc ds t (x ∷ cs) c = ground (arith, commands_declared-snoc ds t cs c)

-- A command that is declared for the pass it is put into.
pub declared_ok-append_command :
    (ds : List RenderDependency) (i t : ℕ) (c : RenderCommand) (ps : List RenderPass)
    → (target_at i ps ≡ some t → (not (is_composite c.kind) || depends c.resource t ds) ≡ true)
    → (target_at i ps ≡ some t) ⊎ (is_composite c.kind ≡ false)
    → declared_ok ds ps ≡ true
    → declared_ok ds (append_command i c ps) ≡ true
unfolding append_command
declared_ok-append_command ds i t c [] fine place h = refl
declared_ok-append_command ds zero t c (p ∷ ps) fine place h =
    ground (arith, commands_declared-snoc ds p.target p.commands c)
declared_ok-append_command ds (suc i) t c (p ∷ ps) fine place h =
    ground (arith, declared_ok-append_command ds i t c ps fine place)

pub depends-snoc :
    (r t : ℕ) (ds : List RenderDependency) (d : RenderDependency)
    → depends r t (ds ++ d ∷ []) ≡ (depends r t ds || (d.producer == r && d.consumer == t))
depends-snoc r t [] d = ground arith
depends-snoc r t (x ∷ ds) d = ground (arith, depends-snoc r t ds d)

commands_declared-wider :
    (ds : List RenderDependency) (d : RenderDependency) (t : ℕ) (cs : List RenderCommand)
    → commands_declared ds t cs ≡ true
    → commands_declared (ds ++ d ∷ []) t cs ≡ true
commands_declared-wider ds d t [] h = refl
commands_declared-wider ds d t (c ∷ cs) h =
    ground (arith, depends-snoc c.resource t ds d, commands_declared-wider ds d t cs)

pub declared_ok-wider :
    (ds : List RenderDependency) (d : RenderDependency) (ps : List RenderPass)
    → declared_ok ds ps ≡ true
    → declared_ok (ds ++ d ∷ []) ps ≡ true
declared_ok-wider ds d [] h = refl
declared_ok-wider ds d (p ∷ ps) h =
    ground (arith, commands_declared-wider ds d p.target p.commands, declared_ok-wider ds d ps)
