-- ===== src/Examples/Plans.antt =====
-- Concrete render plans (packages/ui/src/compositor/render_plan.cpp).
use haxeon.Prelude.{
  ℕ, zero, suc, ◌+◌, ◌-◌, ◌<◌, ◌≡◌, ◌↔◌, refl, false, List, [], ◌∷◌, ok, err, arith,
}
use haxeon.Float32.{Arith, float_one, is_finite, flt, fle}
use haxeon.ResourceId.{is_resource_id}
use haxeon.RenderPlan.Types.{
  RenderCommand, RenderPlan, new_pass, new_command, default_descriptor, composite_target,
}
use haxeon.RenderPlan.Checks.{pass_problem, dependency_cycle}
use haxeon.RenderPlan.Kahn.{mem}
use haxeon.RenderPlan.Kahn.Topological.{Edge}
use haxeon.RenderPlan.Kahn.Ends.{IsSchedule, Ranked}
use haxeon.RenderPlan.Schedule.{
  ScheduleError, Graph, blank, add_edge, link, connect_pass, connect, consume, depend, depend_all,
  order_passes, schedule_render_plan,
}
use haxeon.RenderPlan.Schedule.Edges.{IsExact, add_edge_lem}
use haxeon.RenderPlan.Schedule.Ending.{ordered, order_passes_acyclic, order_passes-err}
use haxeon.RenderPlan.Schedule.Complete.{IsPlannable}
use haxeon.RenderPlan.Schedule.Exact.{schedule_render_plan_accepts_iff}
use haxeon.RenderPlan.Schedule.Correct.{
  Precedes, blank-IsExact, IsRenderOrder, schedule_render_plan-IsRenderOrder,
}

abbrev pub plain_arith : Arith
plain_arith = record { add = λ a b. a; sub = λ a b. a; mul = λ a b. a }

-- Two render targets; the main pass samples what the second pass draws.
abbrev pub main_target : ℕ
main_target = 0x40010001

abbrev pub layer_target : ℕ
layer_target = 0x40010002

abbrev sample : RenderCommand
sample = new_command composite_target layer_target 0 0 float_one float_one

abbrev pub two_passes : RenderPlan
two_passes = record {
  passes =
      record (new_pass main_target default_descriptor false) { commands = sample ∷ [] }
      ∷ new_pass layer_target default_descriptor false
      ∷ [];
  dependencies = record { producer = layer_target; consumer = main_target } ∷ [];
  isolated_layers = 0;
  bounded_layers = 0;
}

pub two_passes_order : schedule_render_plan plain_arith two_passes ≡ ok (1 ∷ 0 ∷ [])
unfolding schedule_render_plan connect pass_problem connect_pass link add_edge depend_all depend
    consume order_passes is_resource_id is_finite flt fle
two_passes_order = refl

schedule_render_plan-IsRenderOrder_example : IsRenderOrder two_passes (1 ∷ 0 ∷ [])
schedule_render_plan-IsRenderOrder_example =
    schedule_render_plan-IsRenderOrder plain_arith two_passes (1 ∷ 0 ∷ []) two_passes_order

schedule_render_plan_accepts_iff_example :
    ((order : List ℕ) × (schedule_render_plan plain_arith two_passes ≡ ok order)) ↔ (
      IsPlannable plain_arith two_passes
      × (rank : ℕ → ℕ) × ((i j : ℕ) → Precedes two_passes i j → rank i < rank j))
schedule_render_plan_accepts_iff_example = schedule_render_plan_accepts_iff plain_arith two_passes

-- Pass 1 before pass 0.
abbrev line : Graph
line = add_edge (blank 2) 1 0

line-IsExact : IsExact 2 line
line-IsExact = (add_edge_lem 2 (blank 2) 1 0 (blank-IsExact 2) (omega arith) (omega arith)).0

abbrev rank : ℕ → ℕ
rank i = 1 - i

line-Ranked : Ranked 2 line.edges rank
unfolding add_edge
line-Ranked zero j h e = absurd (omega (arith, e.1))
line-Ranked (suc zero) j h e = ground (arith, e.1)
line-Ranked (suc (suc i)) j h e = absurd (omega (arith, e.0))

order_passes_acyclic_example :
    ((ordered 3 line).ready ≡ [])
    × ((more : ℕ) → ordered (more + 3) line ≡ ordered 3 line)
    × (order_passes 2 line ≡ ok (ordered 3 line).order)
    × IsSchedule 2 line.edges (ordered 3 line).order
order_passes_acyclic_example = order_passes_acyclic 2 line line-IsExact rank line-Ranked

-- Passes 0 and 1 before each other.
abbrev cycle : Graph
cycle = add_edge line 0 1

cycle-IsExact : IsExact 2 cycle
cycle-IsExact = (add_edge_lem 2 line 0 1 line-IsExact (omega arith) (omega arith)).0

abbrev cycle_error : ScheduleError
cycle_error = record { pass_index = 0; message = dependency_cycle }

cycle_fails : order_passes 2 cycle ≡ err cycle_error
unfolding order_passes add_edge
cycle_fails = refl

order_passes-err_example :
    (dependency_cycle ≡ dependency_cycle)
    × (done : List ℕ) × ((v : ℕ) × (v < 2) × (mem v done ≡ false))
    × ((v : ℕ)
        → v < 2
        → mem v done ≡ false
        → (u : ℕ) × Edge 2 cycle.edges u v × (mem u done ≡ false))
order_passes-err_example = order_passes-err 2 cycle cycle-IsExact cycle_error cycle_fails
