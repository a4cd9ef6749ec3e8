-- ===== src/RenderPlan/Schedule/Ending.antt =====
-- The end of `schedule_render_plan` (packages/ui/src/compositor/render_plan.cpp): the order, or the cycle.
use haxeon.Prelude.{
  ℕ, suc, ◌+◌, ◌<◌, ◌≡◌, ◌≢◌, ◌⊎◌, inl, inr, refl, false, List, [], ok, err, arith, ◌==◌, length,
  Bool-cases, ==→eq,
}
use haxeon.RenderPlan.Checks.{dependency_cycle}
use haxeon.RenderPlan.Kahn.{State, mem, drain, roots}
use haxeon.RenderPlan.Kahn.Topological.{Edge, Invariant}
use haxeon.RenderPlan.Kahn.Ends.{
  IsSchedule, Ranked, full-IsSchedule, acyclic_full, left_out, short_cycle,
}
use haxeon.RenderPlan.Kahn.Start.{final, final-Invariant, drain-more}
use haxeon.RenderPlan.Schedule.{ScheduleError, Graph, first_waiting, order_passes}
use haxeon.RenderPlan.Schedule.Edges.{IsExact}

-- The ordering loop from its start, with that much fuel.
abbrev pub ordered : ℕ → Graph → State
ordered fuel g =
    let queue = roots 0 g.indegree in
    drain fuel g.edges queue (record { indegree = g.indegree; ready = queue; order = [] })

module _ (n : ℕ) (g : Graph) (exact : IsExact n g) where
  ended :
      Invariant n g.edges (final n g.edges g.indegree exact.width exact.exact)
      × ((final n g.edges g.indegree exact.width exact.exact).ready ≡ [])
  ended = final-Invariant n g.edges g.indegree exact.width exact.exact exact.closed

  abbrev last : State
  last = final n g.edges g.indegree exact.width exact.exact

  order_passes-cases :
      ((length last.order ≡ n) × (order_passes n g ≡ ok last.order))
      ⊎ ((length last.order ≢ n)
          × ((e : ScheduleError) × (order_passes n g ≡ err e) × (e.message ≡ dependency_cycle)))
  unfolding order_passes
  order_passes-cases = elim (Bool-cases (length last.order == n)) [
    | inl full ↦ inl (==→eq (length last.order) n full, rw full refl)
    | inr short ↦ inr (
      ground arith,
      (
        record { pass_index = first_waiting 0 last.indegree; message = dependency_cycle },
        rw short refl,
        refl,
      ),
    )
  ]

  pub order_passes-IsSchedule :
      (order : List ℕ) → order_passes n g ≡ ok order → IsSchedule n g.edges order
  order_passes-IsSchedule order run = elim order_passes-cases [
    | inl (full, done) ↦
        let same : last.order ≡ order = cc in
        rw (← same) (full-IsSchedule n g.edges last ended.0 ended.1 full)
    | inr (short, (e, failed, _)) ↦ cc
  ]

  -- On a graph with exact counts in which some rank grows along every edge (so that it has no cycle), the
  -- ordering loop ends with an empty queue within its fuel, more fuel changes nothing, and what it ends
  -- with is returned: an order that lists every pass once, each behind its predecessors.
  pub order_passes_acyclic :
      (rank : ℕ → ℕ)
      → Ranked n g.edges rank
      → ((ordered (suc n) g).ready ≡ [])
        × ((more : ℕ) → ordered (more + suc n) g ≡ ordered (suc n) g)
        × (order_passes n g ≡ ok (ordered (suc n) g).order)
        × IsSchedule n g.edges (ordered (suc n) g).order
  order_passes_acyclic rank ranked = elim order_passes-cases [
    | inl (full, done) ↦ (
      ended.1,
      λ more. drain-more more (suc n) g.edges (roots 0 g.indegree) _ refl ended.1,
      done,
      full-IsSchedule n g.edges last ended.0 ended.1 full,
    )
    | inr (short, failed) ↦ absurd (short (acyclic_full n g.edges last ended.0 ended.1 rank ranked))
  ]

  -- On a graph with exact counts, if the ordering loop reports an error, it is the cycle error, and
  -- there is a set of passes (those outside a list `done`) that is not empty and in which every pass
  -- waits for a pass of the set.
  pub order_passes-err :
      (e : ScheduleError)
      → order_passes n g ≡ err e
      → (e.message ≡ dependency_cycle)
        × (done : List ℕ) × ((v : ℕ) × (v < n) × (mem v done ≡ false))
        × ((v : ℕ)
            → v < n
            → mem v done ≡ false
            → (u : ℕ) × Edge n g.edges u v × (mem u done ≡ false))
  order_passes-err e run = elim order_passes-cases [
    | inl (full, done) ↦ cc
    | inr (short, (e', failed, kind)) ↦
        let same : e' ≡ e = cc in
        (
          rw same at kind,
          last.order,
          left_out n g.edges last ended.0 ended.1 short,
          short_cycle n g.edges last ended.0 ended.1 short,
        )
  ]
