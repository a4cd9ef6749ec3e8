-- ===== src/RenderPlan/Schedule/Exact.antt =====
-- Exactly when `schedule_render_plan` (packages/ui/src/compositor/render_plan.cpp) accepts a plan.
use haxeon.Prelude.{
  ℕ, zero, suc, ◌+◌, ◌≤◌, ◌<◌, ◌≡◌, ◌↔◌, refl, true, List, [], ◌∷◌, some, none, ok, arith, ◌==◌,
  if◌then◌else◌, length, get_elem?, take,
}
use haxeon.Float32.{Arith}
use haxeon.RenderPlan.Types.{RenderPass, RenderPlan}
use haxeon.RenderPlan.Checks.{samples_input, pass_problem}
use haxeon.RenderPlan.Kahn.{mem, count}
use haxeon.RenderPlan.Kahn.Sums.{mem-of-count}
use haxeon.RenderPlan.Kahn.Start.{before}
use haxeon.RenderPlan.Schedule.{Graph, blank, draws, connect_pass, connect, schedule_render_plan}
use haxeon.RenderPlan.Schedule.Loops.{connect-step, connect-Grows}
use haxeon.RenderPlan.Schedule.Dependencies.{depend_all-Grows}
use haxeon.RenderPlan.Schedule.Correct.{
  Precedes, schedule-cases, blank-IsExact, schedule_render_plan-IsRenderOrder,
}
use haxeon.RenderPlan.Schedule.Complete.{IsPlannable, schedule_render_plan_accepts}

abbrev pub position : List ℕ → ℕ → ℕ
position [] v = 0
position (x ∷ xs) v = if x == v then 0 else 1 + position xs v

before-mem : (i j : ℕ) (order : List ℕ) → before i j order ≡ true → mem j order ≡ true
before-mem i j [] h = cc
before-mem i j (x ∷ xs) h = ground (arith, before-mem i j xs)

before-position :
    (i j : ℕ) (order : List ℕ)
    → ((v : ℕ) → count v order ≤ 1)
    → before i j order ≡ true
    → position order i < position order j
before-position i j [] once h = cc
before-position i j (x ∷ xs) once h = ground (
  arith,
  once j,
  mem-of-count j xs,
  before-mem i j xs,
  before-position i j xs (λ v. omega (arith, once v)),
)

connect_pass_drawn :
    (passes : List RenderPass) (index : ℕ) (p : RenderPass) (g g' : Graph)
    → connect_pass passes index p g ≡ ok g'
    → samples_input p.kind ≡ true
    → draws p.input_target (take index passes) ≡ true
unfolding connect_pass
connect_pass_drawn passes index p g g' run sampling = ground arith

connect_checked :
    (fp : Arith) (passes : List RenderPass) (index : ℕ) (ps : List RenderPass) (g g' : Graph)
    → connect fp passes index ps g ≡ ok g'
    → (k j : ℕ) (p : RenderPass) → j ≡ index + k
    → get_elem? ps k ≡ some p
    → (pass_problem fp p ≡ none)
      × (samples_input p.kind ≡ true → draws p.input_target (take j passes) ≡ true)
connect_checked fp passes index [] g g' run k j p at_k found = cc
connect_checked fp passes index (q ∷ ps) g g' run zero j p at_k found =
    let (g1, good, one, later) = connect-step (length passes) passes refl fp index q ps g g' run in
    let same : q ≡ p = cc in
    let here : j ≡ index = omega arith in
    rw (← same, here) (good, connect_pass_drawn passes index q g g1 one)
connect_checked fp passes index (q ∷ ps) g g' run (suc k) j p at_k found =
    let (g1, good, one, later) = connect-step (length passes) passes refl fp index q ps g g' run in
    connect_checked fp passes (index + 1) ps g1 g' later k j p (omega arith) found

schedule-IsPlannable :
    (fp : Arith) (plan : RenderPlan) (order : List ℕ)
    → schedule_render_plan fp plan ≡ ok order
    → IsPlannable fp plan
schedule-IsPlannable fp plan order run =
    let n = length plan.passes in
    let (g, g', one, two, three) = schedule-cases fp plan order run in
    let (grows, _) =
      connect-Grows n plan.passes refl fp 0 plan.passes (blank n) g (omega arith) (blank-IsExact n)
        one in
    let (_, met) = depend_all-Grows n plan.passes refl plan.dependencies g g' grows.0 two in
    record {
      checked = λ k p found.
          (connect_checked fp plan.passes 0 plan.passes (blank n) g one k k p (omega arith)
            found).0;
      inputs = λ k p found.
          (connect_checked fp plan.passes 0 plan.passes (blank n) g one k k p (omega arith)
            found).1;
      consumers = λ k d found drawn. (met k d found drawn).0;
    }

-- `schedule_render_plan` accepts exactly the plans that are plannable and have a rank that grows from
-- each pass to those it precedes.
pub schedule_render_plan_accepts_iff :
    (fp : Arith) (plan : RenderPlan)
    → ((order : List ℕ) × (schedule_render_plan fp plan ≡ ok order))
      ↔ (IsPlannable fp plan × (rank : ℕ → ℕ) × ((i j : ℕ) → Precedes plan i j → rank i < rank j))
schedule_render_plan_accepts_iff fp plan = (to, from)
  where
    to :
        (order : List ℕ) × (schedule_render_plan fp plan ≡ ok order)
        → IsPlannable fp plan × (rank : ℕ → ℕ) × ((i j : ℕ) → Precedes plan i j → rank i < rank j)
    to (order, run) =
        let sound = schedule_render_plan-IsRenderOrder fp plan order run in
        (
          schedule-IsPlannable fp plan order run,
          position order,
          λ i j precedes. before-position i j order sound.once (sound.sorted i j precedes),
        )

    from :
        IsPlannable fp plan × (rank : ℕ → ℕ) × ((i j : ℕ) → Precedes plan i j → rank i < rank j)
        → (order : List ℕ) × (schedule_render_plan fp plan ≡ ok order)
    from (fine, rank, ranked) =
        let (order, run, _) = schedule_render_plan_accepts fp plan rank fine ranked in (order, run)
