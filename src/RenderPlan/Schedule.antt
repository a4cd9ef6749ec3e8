-- ===== src/RenderPlan/Schedule.antt =====
-- `schedule_render_plan` of packages/ui/src/compositor/render_plan.cpp.
pub mod Edges
pub mod Loops
pub mod Dependencies
pub mod Only
pub mod Declared
pub mod Ending
pub mod Correct
pub mod Complete
pub mod Exact
use haxeon.Prelude.{
  ℕ, zero, suc, ◌+◌, Bool, true, false, ◌&&◌, ◌||◌, List, [], ◌∷◌, ◌++◌, Option, none, some,
  Outcome, ok, err, ◌==◌, if◌then◌else◌, length, get_or, get_elem?, set, take, replicate,
}
use haxeon.Float32.{Arith}
use haxeon.RenderPlan.Types.{RenderCommand, RenderPass, RenderDependency, RenderPlan}
use haxeon.RenderPlan.Checks.{
  ScheduleMessage, input_unavailable, no_consuming_command, dependency_cycle, samples_input,
  is_composite, pass_problem,
}
use haxeon.RenderPlan.Kahn.{mem, successors, State, drain, roots}

pub record ScheduleError : Type 0 where
  pub pass_index : ℕ
  pub message : ScheduleMessage

pub record Graph : Type 0 where
  pub edges : List (List ℕ)
  pub indegree : List ℕ

-- A pass counts each pass before it once, so that `++indegree[to]` does not wrap.
unfoldable pub add_edge : Graph → ℕ → ℕ → Graph
add_edge g from to = if from == to || mem to (successors g.edges from) then g else record {
  edges = set g.edges from (successors g.edges from ++ to ∷ []);
  indegree = set g.indegree to (get_or g.indegree to 0 + 1);
}

-- The passes `p`, `p + 1`, … that draw into `target`, each before the pass `to`.
unfoldable pub link : ℕ → List RenderPass → ℕ → ℕ → Graph → Graph
unfolding add_edge
link p [] target to g = g
link p (q ∷ qs) target to g =
    link (p + 1) qs target to (if q.target == target then add_edge g p to else g)

abbrev pub draws : ℕ → List RenderPass → Bool
draws target [] = false
draws target (p ∷ ps) = p.target == target || draws target ps

-- The two inner loops for the pass at `index`, behind its checks.
unfoldable pub connect_pass : List RenderPass → ℕ → RenderPass → Graph → Outcome ScheduleError Graph
connect_pass passes index p g =
    let before = take index passes in
    let g' = link 0 before p.target index g in
    if samples_input p.kind
    then (if draws p.input_target before
        then ok (link 0 before p.input_target index g')
        else err (record { pass_index = index; message = input_unavailable }))
    else ok g'

module _ (fp : Arith) (passes : List RenderPass) where
  -- The first loop, over the passes from `index` on.
  unfoldable pub connect : ℕ → List RenderPass → Graph → Outcome ScheduleError Graph
  connect index [] g = ok g
  connect index (p ∷ ps) g = elim (pass_problem fp p) [
    | some m ↦ err (record { pass_index = index; message = m })
    | none ↦ elim (connect_pass passes index p g) [
      | err e ↦ err e
      | ok g' ↦ connect (index + 1) ps g'
    ]
  ]

-- A command that samples the target `producer`.
abbrev pub composites : ℕ → RenderCommand → Bool
composites producer c = is_composite c.kind && c.resource == producer

abbrev pub any_composites : ℕ → List RenderCommand → Bool
any_composites producer [] = false
any_composites producer (c ∷ cs) = composites producer c || any_composites producer cs

-- The loop over the commands of one consumer: each that samples the producer adds the edges again.
unfoldable pub consume : List RenderPass → ℕ → ℕ → List RenderCommand → Graph → Graph
consume passes producer consumer [] g = g
consume passes producer consumer (c ∷ cs) g =
    consume passes producer consumer cs
      (if composites producer c then link 0 passes producer consumer g else g)

-- The loop over the consumers, the passes `index`, `index + 1`, … that draw into `target`.
unfoldable pub depend : List RenderPass → ℕ → ℕ → ℕ → List RenderPass → Graph → Graph
depend passes producer target index [] g = g
depend passes producer target index (p ∷ ps) g =
    depend passes producer target (index + 1) ps
      (if p.target == target then consume passes producer index p.commands g else g)

-- `has_consumer_command`
abbrev pub consumed : ℕ → ℕ → List RenderPass → Bool
consumed producer target [] = false
consumed producer target (p ∷ ps) =
    (p.target == target && any_composites producer p.commands) || consumed producer target ps

-- The loop over the dependencies. One whose producer no pass draws is left to the executor.
unfoldable pub depend_all :
    List RenderPass → List RenderDependency → Graph → Outcome ScheduleError Graph
depend_all passes [] g = ok g
depend_all passes (d ∷ ds) g =
    let next = depend_all passes ds (depend passes d.producer d.consumer 0 passes g) in
    let external = depend_all passes ds g in
    if draws d.producer passes
    then (if consumed d.producer d.consumer passes
        then next
        else err (record { pass_index = 0; message = no_consuming_command }))
    else external

-- The first pass with an indegree that is not zero.
unfoldable pub first_waiting : ℕ → List ℕ → ℕ
first_waiting index [] = 0
first_waiting index (d ∷ ds) =
    let later = first_waiting (index + 1) ds in if d == 0 then later else index

-- The end: the order of the passes, or the cycle.
unfoldable pub order_passes : ℕ → Graph → Outcome ScheduleError (List ℕ)
unfolding drain roots first_waiting
order_passes n g =
    let queue = roots 0 g.indegree in
    let t =
      drain (suc n) g.edges queue (record { indegree = g.indegree; ready = queue; order = [] }) in
    if length t.order == n
    then ok t.order
    else err (record { pass_index = first_waiting 0 t.indegree; message = dependency_cycle })

-- The graph without an edge.
abbrev pub blank : ℕ → Graph
blank n = record { edges = replicate n []; indegree = replicate n 0 }

-- An error leaves the order empty.
unfoldable pub schedule_render_plan : Arith → RenderPlan → Outcome ScheduleError (List ℕ)
schedule_render_plan fp plan =
    let n = length plan.passes in
    elim (connect fp plan.passes 0 plan.passes (blank n)) [
      | err e ↦ err e
      | ok g ↦ elim (depend_all plan.passes plan.dependencies g) [
        | err e ↦ err e
        | ok g' ↦ order_passes n g'
      ]
    ]
