-- ===== src/RenderPlan/Kahn/Topological.antt =====
-- The ordering loop of `schedule_render_plan` (packages/ui/src/compositor/render_plan.cpp) ends, and
-- yields a topological order of every pass unless the graph has a cycle.
use native.Mathlib.Decide.{ℕ_discrete}
use haxeon.Prelude.{
  ℕ, zero, suc, ◌+◌, ◌≤◌, ◌<◌, ◌≡◌, ◌≢◌, refl, sym, subst, true, false, ◌||◌, List, [], ◌∷◌, ◌++◌,
  arith, ◌==◌, if◌then◌else◌, length, length-append,
}
use haxeon.RenderPlan.Kahn.{State, mem, count, successors, relax, take_pass, drain}
use haxeon.RenderPlan.Kahn.Sums.{
  sum_below, sum_below-drop, term-le-sum_below, mem-append, count-eq-zero, mem-of-count,
}
use haxeon.RenderPlan.Kahn.Relax.{degree, Relaxing, AllBelow, relax-Relaxing}

module _ (n : ℕ) (edges : List (List ℕ)) where
  -- Pass `i` is to run before pass `j`.
  abbrev pub Edge : ℕ → ℕ → Type 0
  Edge i j = (i < n) × (0 < count j (successors edges i))

  -- Every entry stands behind all its predecessors; `seen` are the entries before the list.
  abbrev pub Ordered : List ℕ → List ℕ → Type 0
  Ordered seen [] = Unit {0}
  Ordered seen (j ∷ js) = ((i : ℕ) → Edge i j → mem i seen ≡ true) × Ordered (j ∷ seen) js

  abbrev pub waiting : List ℕ → ℕ → ℕ → ℕ
  waiting order v u = if mem u order then 0 else count v (successors edges u)

  -- How many edges to `v` come from passes that are not scheduled.
  abbrev pub pending : List ℕ → ℕ → ℕ
  pending order v = sum_below n (waiting order v)

  abbrev pub open_pass : List ℕ → ℕ → ℕ
  open_pass order u = if mem u order then 0 else 1

  abbrev pub unscheduled : List ℕ → ℕ
  unscheduled order = sum_below n (open_pass order)

  pub record Invariant (s : State) : Type 0 where
    pub core : Relaxing n (pending s.order) s.order [] s
    pub sorted : Ordered [] s.order
    pub distinct : (v : ℕ) → count v s.order ≤ 1
    pub total : length s.order + unscheduled s.order ≡ n

  Ordered-snoc :
      (seen xs : List ℕ) (u : ℕ)
      → Ordered seen xs
      → ((i : ℕ) → Edge i u → (mem i xs || mem i seen) ≡ true)
      → Ordered seen (xs ++ u ∷ [])
  Ordered-snoc seen [] u s h = (h, tt)
  Ordered-snoc seen (x ∷ xs) u s h =
      (s.0, Ordered-snoc (x ∷ seen) xs u s.1 (λ i e. ground (arith, h i e)))

  count-snoc :
      (v u : ℕ) (xs : List ℕ) → count v (xs ++ u ∷ []) ≡ count v xs + (if v == u then 1 else 0)
  count-snoc v u [] = omega arith
  count-snoc v u (x ∷ xs) = omega (arith, count-snoc v u xs)

  module _ (closed : (u : ℕ) → u < n → AllBelow n (successors edges u)) where
    module _ (u : ℕ) (queue : List ℕ) (s : State) (head : s.ready ≡ u ∷ queue)
        (inv : Invariant s) where
      order' : List ℕ
      order' = s.order ++ u ∷ []

      start : State
      start = record s { ready = queue; order = order' }

      u_queued : (u < n) × (mem u s.order ≡ false) × (degree s u ≡ 0)
      u_queued = inv.core.queued u (rw head (ground arith))

      others : (w : ℕ) → w ≢ u → mem w order' ≡ mem w s.order
      unfolding order'
      others w h = ground (arith, mem-append w s.order (u ∷ []))

      own : mem u order' ≡ true
      unfolding order'
      own = ground (arith, mem-append u s.order (u ∷ []))

      pending-take : (v : ℕ) → pending order' v + count v (successors edges u) ≡ pending s.order v
      pending-take v =
          sum_below-drop n u (count v (successors edges u)) (waiting s.order v) (waiting order' v)
            u_queued.0 (ground (arith, own, u_queued)) (λ w h. ground (arith, others w h))

      unscheduled-take : unscheduled order' + 1 ≡ unscheduled s.order
      unscheduled-take =
          sum_below-drop n u 1 (open_pass s.order) (open_pass order') u_queued.0
            (ground (arith, own, u_queued)) (λ w h. ground (arith, others w h))

      predecessors : (i : ℕ) → Edge i u → mem i s.order ≡ true
      predecessors i (low, e) = ground (
        arith,
        term-le-sum_below n i (waiting s.order u) low,
        inv.core.exact u u_queued.0,
        u_queued,
      )

      once_queued : (v : ℕ) → count v (u ∷ queue) ≤ 1
      once_queued v = rw head at (inv.core.once v)

      in_order' : (v : ℕ) → mem v order' ≡ (mem v s.order || v == u)
      unfolding order'
      in_order' v = ground (arith, mem-append v s.order (u ∷ []))

      in_ready : (v : ℕ) → mem v s.ready ≡ (v == u || mem v queue)
      in_ready v = rw head

      not_twice : (v : ℕ) → mem v queue ≡ true → (v == u) ≡ false
      not_twice v h = ground (arith, once_queued v, mem-of-count v queue)

      start-queued :
          (v : ℕ) → mem v queue ≡ true → (v < n) × (mem v order' ≡ false) × (degree s v ≡ 0)
      start-queued v h =
          let (low, fresh, zero_degree) = inv.core.queued v (rw (in_ready v) (ground arith)) in
          (low, rw (in_order' v) (ground (arith, not_twice v h)), zero_degree)

      start-found : (v : ℕ) → v < n → degree s v ≡ 0 → (mem v order' || mem v queue) ≡ true
      start-found v h e = ground (arith, in_order' v, in_ready v, inv.core.found v h e)

      start-settled : (v : ℕ) → mem v order' ≡ true → (v < n) × (degree s v ≡ 0)
      start-settled v h = elim (ℕ_discrete v u) [
        | yes same ↦ rw same (u_queued.0, u_queued.2)
        | no other ↦ inv.core.settled v (ground (arith, in_order' v))
      ]

      start-Relaxing : Relaxing n (pending order') order' (successors edges u) start
      unfolding start
      start-Relaxing = record {
        width = inv.core.width;
        same = refl;
        exact = λ v h. omega (arith, pending-take v, inv.core.exact v h);
        queued = start-queued;
        found = start-found;
        once = λ v. ground (arith, once_queued v);
        settled = start-settled;
      }

      order'-Ordered : Ordered [] order'
      unfolding order'
      order'-Ordered =
          Ordered-snoc [] s.order u inv.sorted (λ i e. ground (arith, predecessors i e))

      order'-distinct : (v : ℕ) → count v order' ≤ 1
      unfolding order'
      order'-distinct v =
          ground (arith, count-snoc v u s.order, inv.distinct v, count-eq-zero u s.order u_queued.1)

      order'-total : length order' + unscheduled order' ≡ n
      unfolding order'
      order'-total = omega (arith, length-append s.order (u ∷ []), unscheduled-take, inv.total)

      -- What holds of the new order makes the invariant of a state that has it.
      moved-Invariant :
          (t : State)
          → Relaxing n (pending order') order' [] t
          → Invariant t × (unscheduled t.order + 1 ≡ unscheduled s.order)
      moved-Invariant t r =
          let back = sym r.same in
          (
            record {
              core = subst (λ o. Relaxing n (pending o) o [] t) back r;
              sorted = subst (Ordered []) back order'-Ordered;
              distinct = λ v. subst (λ o. count v o ≤ 1) back (order'-distinct v);
              total = subst (λ o. length o + unscheduled o ≡ n) back order'-total;
            },
            subst (λ o. unscheduled o + 1 ≡ unscheduled s.order) back unscheduled-take,
          )

      -- A round keeps the invariant, and one pass fewer is left.
      take_pass-Invariant :
          let t = take_pass edges u queue s in
          Invariant t × (unscheduled t.order + 1 ≡ unscheduled s.order)
      unfolding take_pass start order'
      take_pass-Invariant = moved-Invariant (relax (successors edges u) start) (
          relax-Relaxing n (pending order') order' (successors edges u) start start-Relaxing
            (closed u u_queued.0))

    -- With more fuel than passes that are left the loop ends with an empty queue.
    pub drain-Invariant :
        (fuel : ℕ) (queue : List ℕ) (s : State)
        → s.ready ≡ queue
        → Invariant s
        → unscheduled s.order < fuel
        → let t = drain fuel edges queue s in Invariant t × (t.ready ≡ [])
    unfolding drain
    drain-Invariant zero queue s e inv h = absurd (omega arith)
    drain-Invariant (suc fuel) [] s e inv h = (inv, e)
    drain-Invariant (suc fuel) (u ∷ queue) s e inv h =
        let t = take_pass edges u queue s in
        let (next, fewer) = take_pass-Invariant u queue s e inv in
        drain-Invariant fuel t.ready t refl next (omega arith)
