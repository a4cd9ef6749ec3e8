-- ===== src/RenderPlan/Schedule/Complete.antt =====
-- When `schedule_render_plan` (packages/ui/src/compositor/render_plan.cpp) accepts a plan.
use haxeon.Prelude.{
  ℕ, zero, suc, ◌+◌, ◌<◌, ◌≡◌, inl, inr, refl, Bool, true, false, ◌&&◌, ◌||◌, List, [], ◌∷◌, some,
  none, ok, arith, ◌==◌, length, get_elem?, take, Bool-cases, &&-eq-true,
}
use haxeon.Float32.{Arith}
use haxeon.RenderPlan.Types.{RenderPass, RenderPlan, RenderDependency}
use haxeon.RenderPlan.Checks.{samples_input, pass_problem}
use haxeon.RenderPlan.Kahn.{successors}
use haxeon.RenderPlan.Kahn.Sums.{count-eq-zero}
use haxeon.RenderPlan.Kahn.Topological.{Edge}
use haxeon.RenderPlan.Schedule.{
  Graph, blank, link, draws, any_composites, connect_pass, connect, consumed, depend_all,
  order_passes, schedule_render_plan,
}
use haxeon.RenderPlan.Schedule.Edges.{HasEdge}
use haxeon.RenderPlan.Schedule.Loops.{connect-Grows}
use haxeon.RenderPlan.Schedule.Only.{Only, Sources, connect-Only}
use haxeon.RenderPlan.Schedule.Declared.{Asked, depend_all-Only}
use haxeon.RenderPlan.Schedule.Ending.{ordered, order_passes_acyclic}
use haxeon.RenderPlan.Schedule.Correct.{
  Precedes, same_target, sampled, declared, IsRenderOrder, blank-IsExact, get_or-replicate,
  schedule_render_plan-IsRenderOrder,
}

-- Every pass passes its checks, what a pass samples is drawn by an earlier pass, and a producer that
-- some pass draws is sampled by a pass of its consumer.
pub record IsPlannable (fp : Arith) (plan : RenderPlan) : Type 0 where
  pub checked :
      (k : ℕ) (p : RenderPass) → get_elem? plan.passes k ≡ some p → pass_problem fp p ≡ none
  pub inputs :
      (k : ℕ) (p : RenderPass)
      → get_elem? plan.passes k ≡ some p
      → samples_input p.kind ≡ true
      → draws p.input_target (take k plan.passes) ≡ true
  pub consumers :
      (k : ℕ) (d : RenderDependency)
      → get_elem? plan.dependencies k ≡ some d
      → draws d.producer plan.passes ≡ true
      → consumed d.producer d.consumer plan.passes ≡ true

connect_pass_succeeds :
    (passes : List RenderPass) (index : ℕ) (p : RenderPass) (g : Graph)
    → (samples_input p.kind ≡ true → draws p.input_target (take index passes) ≡ true)
    → (g' : Graph) × (connect_pass passes index p g ≡ ok g')
unfolding connect_pass
connect_pass_succeeds passes index p g drawn =
    let before = take index passes in
    let g1 = link 0 before p.target index g in
    elim (Bool-cases (samples_input p.kind)) [
      | inr plain ↦ (g1, rw plain refl)
      | inl sampling ↦ (link 0 before p.input_target index g1, rw (sampling, drawn sampling) refl)
    ]

connect_succeeds :
    (fp : Arith) (passes : List RenderPass) (index : ℕ) (ps : List RenderPass) (g : Graph)
    → ((k j : ℕ) (p : RenderPass)
        → j ≡ index + k
        → get_elem? ps k ≡ some p
        → (pass_problem fp p ≡ none)
          × (samples_input p.kind ≡ true → draws p.input_target (take j passes) ≡ true))
    → (g' : Graph) × (connect fp passes index ps g ≡ ok g')
unfolding connect
connect_succeeds fp passes index [] g fine = (g, refl)
connect_succeeds fp passes index (p ∷ ps) g fine =
    let (good, drawn) = fine zero index p (omega arith) refl in
    let (g1, one) = connect_pass_succeeds passes index p g drawn in
    let (g', rest) =
      connect_succeeds fp passes (index + 1) ps g1
        (λ k j q at_k found. fine (suc k) j q (omega arith) found) in
    (g', rw (connect, good, one) rest)

module _ (plan : RenderPlan) where
  wanted_source :
      (i index : ℕ) (q p : RenderPass) (a b c : Bool)
      → i < index
      → get_elem? plan.passes i ≡ some q
      → get_elem? plan.passes index ≡ some p
      → (a ≡ true → (q.target == p.target) ≡ true)
      → (c ≡ true → samples_input p.kind ≡ true)
      → (b ≡ true → (q.target == p.input_target) ≡ true)
      → (a || (c && b)) ≡ true
      → Precedes plan i index
  wanted_source i index q p true b c low fi fp x s y h = same_target q p low fi fp (x refl)
  wanted_source i index q p false true true low fi fp x s y h =
      sampled q p low fi fp (s refl) (y refl)
  wanted_source i index q p false false true low fi fp x s y h = cc
  wanted_source i index q p false b false low fi fp x s y h = cc

  sources :
      (index : ℕ) (p : RenderPass)
      → get_elem? plan.passes index ≡ some p
      → Sources (length plan.passes) plan.passes refl (Precedes plan) index p
  sources index p found i q low seen hit =
      wanted_source i index q p (q.target == p.target) (q.target == p.input_target)
        (samples_input p.kind) low seen found (λ t. t) (λ t. t) (λ t. t) hit

  asked :
      (k : ℕ) (d : RenderDependency)
      → get_elem? plan.dependencies k ≡ some d
      → Asked (length plan.passes) plan.passes refl (Precedes plan) d
  asked k d fd j p found hit i q seen drawn ne =
      let (there, sampling) =
        &&-eq-true (p.target == d.consumer) (any_composites d.producer p.commands) hit in
      declared q p k d ne seen found fd drawn there sampling

  blank-Only :
      Only (length plan.passes) plan.passes refl (Precedes plan) (blank (length plan.passes))
  blank-Only i j e = cc (rw (get_or-replicate {A = List ℕ} (length plan.passes) i []) at e)

Edge-HasEdge : (n i j : ℕ) (g : Graph) → Edge n g.edges i j → HasEdge g i j
Edge-HasEdge n i j g e = ground (arith, e.1, count-eq-zero j (successors g.edges i))

scheduled :
    (fp : Arith) (plan : RenderPlan) (g g' : Graph) (order : List ℕ)
    → connect fp plan.passes 0 plan.passes (blank (length plan.passes)) ≡ ok g
    → depend_all plan.passes plan.dependencies g ≡ ok g'
    → order_passes (length plan.passes) g' ≡ ok order
    → schedule_render_plan fp plan ≡ ok order
unfolding schedule_render_plan
scheduled fp plan g g' order one two three = rw (schedule_render_plan, one, two) three

-- A plan that is plannable and whose passes have a rank that grows from each pass to those it
-- precedes (so that no passes wait for each other) is accepted, and its order is a render order.
pub schedule_render_plan_accepts :
    (fp : Arith) (plan : RenderPlan) (rank : ℕ → ℕ)
    → IsPlannable fp plan
    → ((i j : ℕ) → Precedes plan i j → rank i < rank j)
    → (order : List ℕ) × (schedule_render_plan fp plan ≡ ok order) × IsRenderOrder plan order
schedule_render_plan_accepts fp plan rank fine ranked =
    let n = length plan.passes in
    let passes = plan.passes in
    let (g, one) = connect_succeeds fp passes 0 passes (blank n) (λ k j p at_k found.
      let same : k ≡ j = omega arith in
      (fine.checked k p found, rw same at (fine.inputs k p found))) in
    let (grows, _) =
      connect-Grows n passes refl fp 0 passes (blank n) g (omega arith) (blank-IsExact n) one in
    let only =
      connect-Only n passes refl (Precedes plan) fp 0 passes (blank n) g (omega arith)
        (blank-IsExact n)
        (λ k j p at_k found. let same : k ≡ j = omega arith in sources plan j p (rw same at found))
        one (blank-Only plan) in
    let (g', two, exact, only') =
      depend_all-Only n passes refl (Precedes plan) plan.dependencies g grows.0
        (λ k d found. (asked plan k d found, fine.consumers k d found)) only in
    let (_, _, three, _) =
      order_passes_acyclic n g' exact rank
        (λ i j low e. ranked i j (only' i j (Edge-HasEdge n i j g' e))) in
    let run : schedule_render_plan fp plan ≡ ok (ordered (suc n) g').order =
      scheduled fp plan g g' (ordered (suc n) g').order one two three in
    (_, run, schedule_render_plan-IsRenderOrder fp plan _ run)
