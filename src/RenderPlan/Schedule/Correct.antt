-- ===== src/RenderPlan/Schedule/Correct.antt =====
-- What `schedule_render_plan` (packages/ui/src/compositor/render_plan.cpp) returns.
use haxeon.Prelude.{
  ℕ, zero, suc, ◌≤◌, ◌<◌, ◌≡◌, ◌≢◌, ◌∙◌, ◌↔◌, inl, inr, refl, sym, true, List, [], ◌∷◌, some, ok,
  arith, ◌==◌, length, get_or, get_elem?, Outcome-cases, replicate, length-replicate,
}
use haxeon.Float32.{Arith}
use haxeon.RenderPlan.Types.{RenderPass, RenderDependency, RenderPlan}
use haxeon.RenderPlan.Checks.{samples_input}
use haxeon.RenderPlan.Kahn.{mem, count, successors}
use haxeon.RenderPlan.Kahn.Sums.{sum_below-zero, mem-of-count}
use haxeon.RenderPlan.Kahn.Topological.{Edge}
use haxeon.RenderPlan.Kahn.Start.{before, Ordered-before}
use haxeon.RenderPlan.Schedule.{
  Graph, blank, draws, any_composites, connect, depend_all, order_passes, schedule_render_plan,
}
use haxeon.RenderPlan.Schedule.Edges.{HasEdge, IsExact}
use haxeon.RenderPlan.Schedule.Ending.{order_passes-IsSchedule}
use haxeon.RenderPlan.Schedule.Loops.{connect-Grows}
use haxeon.RenderPlan.Schedule.Dependencies.{depend_all-Grows}

-- What the source asks of the order: pass `i` is to run before pass `j`.
pub data Precedes (plan : RenderPlan) (i j : ℕ) : Type 0 where
  -- Both draw into one target, `i` first.
  same_target :
      (p q : RenderPass)
      → i < j
      → get_elem? plan.passes i ≡ some p
      → get_elem? plan.passes j ≡ some q
      → (p.target == q.target) ≡ true
      → Precedes plan i j
  -- An earlier pass draws what an effect or mask pass reads.
  sampled :
      (p q : RenderPass)
      → i < j
      → get_elem? plan.passes i ≡ some p
      → get_elem? plan.passes j ≡ some q
      → samples_input q.kind ≡ true
      → (p.target == q.input_target) ≡ true
      → Precedes plan i j
  -- A declared dependency: a pass of the consumer samples what `i` draws into.
  declared :
      (p q : RenderPass) (k : ℕ) (d : RenderDependency)
      → i ≢ j
      → get_elem? plan.passes i ≡ some p
      → get_elem? plan.passes j ≡ some q
      → get_elem? plan.dependencies k ≡ some d
      → (p.target == d.producer) ≡ true
      → (q.target == d.consumer) ≡ true
      → any_composites d.producer q.commands ≡ true
      → Precedes plan i j

-- The order of a plan: every pass once, and each behind those that precede it.
pub record IsRenderOrder (plan : RenderPlan) (order : List ℕ) : Type 0 where
  pub passes : (v : ℕ) → (v < length plan.passes) ↔ (mem v order ≡ true)
  pub once : (v : ℕ) → count v order ≤ 1
  pub sorted : (i j : ℕ) → Precedes plan i j → before i j order ≡ true

pub get_or-replicate : {A : Type 0} (n k : ℕ) (d : A) → get_or (replicate n d) k d ≡ d
get_or-replicate zero k d = refl
get_or-replicate (suc n) zero d = refl
get_or-replicate (suc n) (suc k) d = get_or-replicate n k d

pub blank-IsExact : (n : ℕ) → IsExact n (blank n)
blank-IsExact n =
    let nothing = get_or-replicate {A = List ℕ} n in
    record {
      rows = length-replicate n [];
      width = length-replicate n 0;
      closed = λ u. rw (nothing u []) tt;
      exact =
          λ v h. get_or-replicate n v 0 ∙ sym (sum_below-zero n _ (λ u h'. rw (nothing u []) refl));
    }

pub schedule-cases :
    (fp : Arith) (plan : RenderPlan) (order : List ℕ)
    → schedule_render_plan fp plan ≡ ok order
    → (g g' : Graph) × (connect fp plan.passes 0 plan.passes (blank (length plan.passes)) ≡ ok g)
      × (depend_all plan.passes plan.dependencies g ≡ ok g')
      × (order_passes (length plan.passes) g' ≡ ok order)
unfolding schedule_render_plan
schedule-cases fp plan order run =
    elim (Outcome-cases (connect fp plan.passes 0 plan.passes (blank (length plan.passes)))) [
      | inr (e, bad) ↦ cc (rw (schedule_render_plan, bad) at run)
      | inl (g, one) ↦ elim (Outcome-cases (depend_all plan.passes plan.dependencies g)) [
        | inr (e, bad) ↦ cc (rw (schedule_render_plan, one, bad) at run)
        | inl (g', two) ↦ (g, g', one, two, rw (schedule_render_plan, one, two) at run)
      ]
    ]

pub draws-found :
    (target k : ℕ) (q : RenderPass) (ps : List RenderPass)
    → get_elem? ps k ≡ some q
    → (q.target == target) ≡ true
    → draws target ps ≡ true
draws-found target k q [] found hit = cc
draws-found target zero q (p ∷ ps) found hit = let same : p ≡ q = cc in rw same (rw hit refl)
draws-found target (suc k) q (p ∷ ps) found hit =
    ground (arith, draws-found target k q ps found hit)

pub bound :
    (k : ℕ) (q : RenderPass) (ps : List RenderPass) → get_elem? ps k ≡ some q → k < length ps
bound k q [] found = cc
bound zero q (p ∷ ps) found = omega arith
bound (suc k) q (p ∷ ps) found = omega (arith, bound k q ps found)

-- The edges of the graph that the source builds.
Precedes-HasEdge :
    (fp : Arith) (plan : RenderPlan) (g g' : Graph) (i j : ℕ)
    → connect fp plan.passes 0 plan.passes (blank (length plan.passes)) ≡ ok g
    → depend_all plan.passes plan.dependencies g ≡ ok g'
    → Precedes plan i j
    → IsExact (length plan.passes) g' × HasEdge g' i j
Precedes-HasEdge fp plan g g' i j one two precedes =
    let n = length plan.passes in
    let (grows, connected) =
      connect-Grows n plan.passes refl fp 0 plan.passes (blank n) g (omega arith) (blank-IsExact n)
        one in
    let (grows', met) = depend_all-Grows n plan.passes refl plan.dependencies g g' grows.0 two in
    elim precedes [
      | same_target p q low fi fj e ↦
          (grows'.0, grows'.1 i j (connected j j q (omega arith) fj i p low fi (ground arith)))
      | sampled p q low fi fj s e ↦
          (grows'.0, grows'.1 i j (connected j j q (omega arith) fj i p low fi (ground arith)))
      | declared p q k d ne fi fj fd e e' c ↦
          let (used, fed) = met k d fd (draws-found d.producer i p plan.passes fi e) in
          (grows'.0, fed j j q (omega arith) fj (ground arith) i p fi e ne)
    ]

HasEdge-Edge : (n i j : ℕ) (g : Graph) → i < n → HasEdge g i j → Edge n g.edges i j
HasEdge-Edge n i j g low e = (low, ground (arith, mem-of-count j (successors g.edges i)))

Precedes-low :
    (plan : RenderPlan) (i j : ℕ)
    → Precedes plan i j
    → (i < length plan.passes) × (j < length plan.passes)
Precedes-low plan i j precedes = elim precedes [
  | same_target p q low fi fj e ↦ (bound i p plan.passes fi, bound j q plan.passes fj)
  | sampled p q low fi fj s e ↦ (bound i p plan.passes fi, bound j q plan.passes fj)
  | declared p q k d ne fi fj fd e e' c ↦ (bound i p plan.passes fi, bound j q plan.passes fj)
]

-- If `schedule_render_plan` accepts a plan, its order lists every pass exactly once, and every pass
-- behind the earlier passes into its target, behind the earlier passes into the target it samples, and,
-- if it draws into the consumer of a dependency and samples its producer, behind every other pass
-- into the producer.
pub schedule_render_plan-IsRenderOrder :
    (fp : Arith) (plan : RenderPlan) (order : List ℕ)
    → schedule_render_plan fp plan ≡ ok order
    → IsRenderOrder plan order
schedule_render_plan-IsRenderOrder fp plan order run =
    let n = length plan.passes in
    let (g, g', one, two, three) = schedule-cases fp plan order run in
    let (grows, _) =
      connect-Grows n plan.passes refl fp 0 plan.passes (blank n) g (omega arith) (blank-IsExact n)
        one in
    let (exact, _) = (depend_all-Grows n plan.passes refl plan.dependencies g g' grows.0 two).0 in
    let schedule = order_passes-IsSchedule n g' exact order three in
    record {
      passes = schedule.passes;
      once = schedule.once;
      sorted = λ i j precedes.
          let (low, low') = Precedes-low plan i j precedes in
          let edge = (Precedes-HasEdge fp plan g g' i j one two precedes).1 in
          Ordered-before n g'.edges i j [] order schedule.sorted (HasEdge-Edge n i j g' low edge)
            ((schedule.passes j).0 low');
    }
