-- ===== src/RenderPlan/Schedule/Only.antt =====
-- The graph that `schedule_render_plan` (packages/ui/src/compositor/render_plan.cpp) builds has no
-- edge but those that the plan asks for.
use haxeon.Prelude.{
  ℕ, zero, suc, ◌+◌, ◌≤◌, ◌<◌, ◌≡◌, ◌≢◌, ◌∙◌, inl, inr, refl, sym, Bool, true, false, ◌&&◌, ◌||◌,
  List, [], ◌∷◌, ◌++◌, some, ok, arith, ◌==◌, if◌then◌else◌, length, get_elem?, take, Bool-cases,
}
use haxeon.Float32.{Arith}
use haxeon.RenderPlan.Types.{RenderPass}
use haxeon.RenderPlan.Checks.{samples_input}
use haxeon.RenderPlan.Kahn.{mem, successors}
use haxeon.RenderPlan.Kahn.Sums.{mem-append}
use haxeon.RenderPlan.Schedule.{Graph, add_edge, link, connect_pass, connect}
use haxeon.RenderPlan.Schedule.Edges.{HasEdge, IsExact, with_edge, successors-with_edge}
use haxeon.RenderPlan.Schedule.Loops.{
  link_one, link_lem, prefix_length, get_elem?-take, connect_pass-cases, connect_pass-Grows,
  connect-step,
}

-- The pass `i` of the list is `q`, and draws into the target.
abbrev pub Draws : List RenderPass → ℕ → ℕ → Type 0
Draws ps target i = (q : RenderPass) × (get_elem? ps i ≡ some q) × ((q.target == target) ≡ true)

module _ (n : ℕ) (passes : List RenderPass) (all : length passes ≡ n) (P : ℕ → ℕ → Type 0) where
  abbrev pub Only : Graph → Type 0
  Only g = (i j : ℕ) → HasEdge g i j → P i j

  with_edge-Only :
      (g : Graph) (from to : ℕ)
      → from < length g.edges
      → P from to
      → Only g
      → Only (with_edge g from to)
  with_edge-Only g from to h p only i j e = elim (Bool-cases (from == i)) [
    | inr other ↦ only i j (rw (successors-with_edge g from to i h, other) at e)
    | inl hit ↦
        let same : from ≡ i = ground arith in
        let found : mem j (successors g.edges from ++ to ∷ []) ≡ true =
          rw (successors-with_edge g from to i h, hit) at e in
        elim (Bool-cases (mem j (successors g.edges from))) [
          | inl old ↦ rw (← same) (only from j old)
          | inr new ↦
              let last : j ≡ to =
                ground (arith, mem-append j (successors g.edges from) (to ∷ [])) in
              rw (last, ← same) p
        ]
  ]

  link_one-Only :
      (b : Bool) (p to : ℕ) (g : Graph)
      → IsExact n g
      → p < n
      → (b ≡ true → p ≢ to → P p to)
      → Only g
      → Only (if b then add_edge g p to else g)
  unfolding add_edge
  link_one-Only false p to g e h new only = only
  link_one-Only true p to g e h new only =
      elim (Bool-cases (p == to || mem to (successors g.edges p))) [
        | inl there ↦ rw there only
        | inr missing ↦
            rw missing
              (with_edge-Only g p to (omega (arith, e.rows)) (new refl (ground arith)) only)
      ]

  pub link-Only :
      (target to p : ℕ) (qs : List RenderPass) (g : Graph)
      → to < n
      → IsExact n g
      → p + length qs ≤ n
      → ((k i : ℕ) → i ≡ p + k → Draws qs target k → i ≢ to → P i to)
      → Only g
      → Only (link p qs target to g)
  unfolding link
  link-Only target to p [] g low e h new only = only
  link-Only target to p (q ∷ qs) g low e h new only =
      let b = q.target == target in
      let g1 = if b then add_edge g p to else g in
      let (one, _) = link_one n target to low b p g e (omega arith) in
      link-Only target to (p + 1) qs g1 low one.0 (omega arith)
        (λ k i at_k d. new (suc k) i (omega arith) d)
        (link_one-Only b p to g e (omega arith) (λ t. new zero p (omega arith) (q, refl, t)) only)

  -- The edges into a pass.
  abbrev pub Sources : ℕ → RenderPass → Type 0
  Sources index p =
      (i : ℕ) (q : RenderPass)
      → i < index
      → get_elem? passes i ≡ some q
      → (q.target == p.target || (samples_input p.kind && q.target == p.input_target)) ≡ true
      → P i index

  bound_take :
      (m k : ℕ) (xs : List RenderPass) (q : RenderPass) → get_elem? (take m xs) k ≡ some q → k < m
  bound_take zero k xs q f = cc
  bound_take (suc m) k [] q f = cc
  bound_take (suc m) zero (x ∷ xs) q f = omega arith
  bound_take (suc m) (suc k) (x ∷ xs) q f = omega (arith, bound_take m k xs q f)

  prefix_source :
      (index i k target : ℕ) (p : RenderPass)
      → Sources index p
      → i ≡ 0 + k
      → ((q : RenderPass)
          → (q.target == target) ≡ true
          → (q.target == p.target || (samples_input p.kind && q.target == p.input_target)) ≡ true)
      → Draws (take index passes) target k
      → P i index
  prefix_source index i k target p sources at_k asks (q, found, hit) =
      let low = bound_take index k passes q found in
      let same : k ≡ i = omega arith in
      let seen : get_elem? passes k ≡ some q = sym (get_elem?-take index k passes low) ∙ found in
      rw (← same) (sources k q low seen (asks q hit))

  connect_pass-Only :
      (index : ℕ) (p : RenderPass) (g g' : Graph)
      → index < n
      → IsExact n g
      → Sources index p
      → connect_pass passes index p g ≡ ok g'
      → Only g
      → Only g'
  connect_pass-Only index p g g' low e sources run only =
      let before = take index passes in
      let g1 = link 0 before p.target index g in
      let fits : 0 + length before ≤ n = omega (arith, prefix_length n passes all index low) in
      let (grows, _) = link_lem n p.target index low 0 before g e fits in
      let one =
        link-Only p.target index 0 before g low e fits
          (λ k i at_k d ne. prefix_source index i k p.target p sources at_k (λ q h. ground arith) d)
          only in
      elim (connect_pass-cases n passes all index p g g' run) [
        | inr (plain, same) ↦ rw same one
        | inl (sampling, same) ↦ rw same (
            link-Only p.input_target index 0 before g1 low grows.0 fits
              (λ k i at_k d ne.
                prefix_source index i k p.input_target p sources at_k
                  (λ q h. ground (arith, sampling)) d)
              one)
      ]

  pub connect-Only :
      (fp : Arith) (index : ℕ) (ps : List RenderPass) (g g' : Graph)
      → index + length ps ≤ n
      → IsExact n g
      → ((k j : ℕ) (p : RenderPass) → j ≡ index + k → get_elem? ps k ≡ some p → Sources j p)
      → connect fp passes index ps g ≡ ok g'
      → Only g
      → Only g'
  unfolding connect
  connect-Only fp index [] g g' h e sources run only = let same : g ≡ g' = cc in rw (← same) only
  connect-Only fp index (p ∷ ps) g g' h e sources run only =
      let (g1, good, one, later) = connect-step n passes all fp index p ps g g' run in
      let (grows, _) = connect_pass-Grows n passes all index p g g1 (omega arith) e one in
      connect-Only fp (index + 1) ps g1 g' (omega arith) grows.0
        (λ k j q at_k found. sources (suc k) j q (omega arith) found) later
        (connect_pass-Only index p g g1 (omega arith) e (sources zero index p (omega arith) refl)
          one only)
