-- ===== src/RenderPlan/Schedule/Dependencies.antt =====
-- The loops of `schedule_render_plan` (packages/ui/src/compositor/render_plan.cpp) over the
-- dependencies of a plan.
use haxeon.Prelude.{
  ℕ, zero, suc, ◌+◌, ◌≤◌, ◌<◌, ◌≡◌, ◌≢◌, inl, inr, refl, Bool, true, false, ◌&&◌, ◌||◌, List, [],
  ◌∷◌, some, ok, arith, ◌==◌, if◌then◌else◌, length, get_elem?, Bool-cases,
}
use haxeon.RenderPlan.Types.{RenderCommand, RenderPass, RenderDependency}
use haxeon.RenderPlan.Schedule.{
  Graph, link, draws, composites, any_composites, consume, depend, consumed, depend_all,
}
use haxeon.RenderPlan.Schedule.Edges.{HasEdge, Extends, IsExact}
use haxeon.RenderPlan.Schedule.Loops.{Grows, Grows-trans, link_lem}

module _ (n : ℕ) (passes : List RenderPass) (all : length passes ≡ n) where
  -- Every pass that draws into the target `producer` precedes `consumer`.
  abbrev pub Feeds : ℕ → ℕ → Graph → Type 0
  Feeds producer consumer g =
      (i : ℕ) (q : RenderPass)
      → get_elem? passes i ≡ some q
      → (q.target == producer) ≡ true
      → i ≢ consumer
      → HasEdge g i consumer

  Feeds-Extends :
      (producer consumer : ℕ) (g g' : Graph)
      → Extends g g'
      → Feeds producer consumer g
      → Feeds producer consumer g'
  Feeds-Extends producer consumer g g' more feeds i q found hit ne =
      more i consumer (feeds i q found hit ne)

  either_side :
      (a b : Bool) (producer consumer : ℕ) (g1 g' : Graph)
      → Extends g1 g'
      → (a ≡ true → Feeds producer consumer g1)
      → (b ≡ true → Feeds producer consumer g')
      → (a || b) ≡ true
      → Feeds producer consumer g'
  either_side true b producer consumer g1 g' more x y h =
      Feeds-Extends producer consumer g1 g' more (x refl)
  either_side false b producer consumer g1 g' more x y h = y h

  pub consume_one :
      (b : Bool) (producer consumer : ℕ) (g : Graph)
      → consumer < n
      → IsExact n g
      → let g1 = if b then link 0 passes producer consumer g else g in
        Grows n g g1 × (b ≡ true → Feeds producer consumer g1)
  consume_one true producer consumer g low e =
      let (grows, links) = link_lem n producer consumer low 0 passes g e (omega (arith, all)) in
      (grows, λ t i q found hit ne. links i i q (omega arith) found hit ne)
  consume_one false producer consumer g low e = ((e, λ i j x. x), λ f i q found hit ne. cc)

  pub consume-Grows :
      (producer consumer : ℕ) (cs : List RenderCommand) (g : Graph)
      → consumer < n
      → IsExact n g
      → let g' = consume passes producer consumer cs g in
        Grows n g g' × (any_composites producer cs ≡ true → Feeds producer consumer g')
  unfolding consume
  consume-Grows producer consumer [] g low e = ((e, λ i j x. x), λ f i q found hit ne. cc)
  consume-Grows producer consumer (c ∷ cs) g low e =
      let b = composites producer c in
      let g1 = if b then link 0 passes producer consumer g else g in
      let (grows, one) = consume_one b producer consumer g low e in
      let g' = consume passes producer consumer cs g1 in
      let (rest, more) = consume-Grows producer consumer cs g1 low grows.0 in
      (
        Grows-trans n g g1 g' grows rest,
        either_side b (any_composites producer cs) producer consumer g1 g' rest.1 one more,
      )

  pub depend_one :
      (b : Bool) (producer index : ℕ) (cs : List RenderCommand) (g : Graph)
      → index < n
      → IsExact n g
      → let g1 = if b then consume passes producer index cs g else g in
        Grows n g g1 × ((b && any_composites producer cs) ≡ true → Feeds producer index g1)
  depend_one true producer index cs g low e = consume-Grows producer index cs g low e
  depend_one false producer index cs g low e = ((e, λ i j x. x), λ f i q found hit ne. cc)

  -- The passes that draw into `target` and sample `producer`, each behind all that draw into it.
  abbrev pub Fed : ℕ → ℕ → ℕ → List RenderPass → Graph → Type 0
  Fed producer target index ps g =
      (k j : ℕ) (p : RenderPass)
      → j ≡ index + k
      → get_elem? ps k ≡ some p
      → (p.target == target && any_composites producer p.commands) ≡ true
      → Feeds producer j g

  Fed-cons :
      (producer target index : ℕ) (p : RenderPass) (ps : List RenderPass) (g1 g' : Graph)
      → ((p.target == target && any_composites producer p.commands) ≡ true
          → Feeds producer index g1)
      → Extends g1 g'
      → Fed producer target (index + 1) ps g'
      → Fed producer target index (p ∷ ps) g'
  Fed-cons producer target index p ps g1 g' here more later zero j r e found hit =
      let at_index : j ≡ index = omega arith in
      let same : p ≡ r = cc in
      rw at_index (Feeds-Extends producer index g1 g' more (here (rw same hit)))
  Fed-cons producer target index p ps g1 g' here more later (suc k) j r e found hit =
      later k j r (omega arith) found hit

  pub depend-Grows :
      (producer target index : ℕ) (ps : List RenderPass) (g : Graph)
      → index + length ps ≤ n
      → IsExact n g
      → let g' = depend passes producer target index ps g in
        Grows n g g' × Fed producer target index ps g'
  unfolding depend
  depend-Grows producer target index [] g h e = ((e, λ i j x. x), λ k j p q found. cc)
  depend-Grows producer target index (p ∷ ps) g h e =
      let b = p.target == target in
      let g1 = if b then consume passes producer index p.commands g else g in
      let (grows, here) = depend_one b producer index p.commands g (omega arith) e in
      let g' = depend passes producer target (index + 1) ps g1 in
      let (rest, later) = depend-Grows producer target (index + 1) ps g1 (omega arith) grows.0 in
      (
        Grows-trans n g g1 g' grows rest,
        Fed-cons producer target index p ps g1 g' here rest.1 later,
      )

  -- The dependency `d` is met, or no pass of the plan draws what it names.
  abbrev pub Met : RenderDependency → Graph → Type 0
  Met d g =
      draws d.producer passes ≡ true
      → (consumed d.producer d.consumer passes ≡ true) × Fed d.producer d.consumer 0 passes g

  abbrev pub AllMet : List RenderDependency → Graph → Type 0
  AllMet ds g = (k : ℕ) (d : RenderDependency) → get_elem? ds k ≡ some d → Met d g

  AllMet-cons :
      (d : RenderDependency) (ds : List RenderDependency) (g : Graph)
      → Met d g
      → AllMet ds g
      → AllMet (d ∷ ds) g
  AllMet-cons d ds g here later zero r found = let same : d ≡ r = cc in rw (← same) here
  AllMet-cons d ds g here later (suc k) r found = later k r found

  -- The loop over the dependencies.
  pub depend_all-Grows :
      (ds : List RenderDependency) (g g' : Graph)
      → IsExact n g
      → depend_all passes ds g ≡ ok g'
      → Grows n g g' × AllMet ds g'
  unfolding depend_all
  depend_all-Grows [] g g' e run =
      let same : g ≡ g' = cc in rw (← same) ((e, λ i j x. x), λ k d found. cc)
  depend_all-Grows (d ∷ ds) g g' e run = elim (Bool-cases (draws d.producer passes)) [
    | inr external ↦
        let (grows, met) = depend_all-Grows ds g g' e (rw external at run) in
        (grows, AllMet-cons d ds g' (λ t. cc) met)
    | inl drawn ↦ elim (Bool-cases (consumed d.producer d.consumer passes)) [
      | inr unused ↦ cc (rw (drawn, unused) at run)
      | inl used ↦
          let g1 = depend passes d.producer d.consumer 0 passes g in
          let (grows, fed) = depend-Grows d.producer d.consumer 0 passes g (omega (arith, all)) e in
          let (rest, met) = depend_all-Grows ds g1 g' grows.0 (rw (drawn, used) at run) in
          (
            Grows-trans n g g1 g' grows rest,
            AllMet-cons d ds g'
                (λ t. (
                  used,
                  λ k j p at_index found hit.
                      Feeds-Extends d.producer j g1 g' rest.1 (fed k j p at_index found hit),
                ))
                met,
          )
    ]
  ]
