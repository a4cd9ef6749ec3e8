-- ===== src/RenderPlan/Schedule/Declared.antt =====
-- The loops of `schedule_render_plan` (packages/ui/src/compositor/render_plan.cpp) over the
-- dependencies add no edge but those that the dependencies ask for.
use haxeon.Prelude.{
  ℕ, zero, suc, ◌+◌, ◌≤◌, ◌<◌, ◌≡◌, ◌≢◌, inl, inr, refl, Bool, true, false, ◌&&◌, List, [], ◌∷◌,
  some, ok, arith, ◌==◌, if◌then◌else◌, length, get_elem?, Bool-cases,
}
use haxeon.RenderPlan.Types.{RenderCommand, RenderPass, RenderDependency}
use haxeon.RenderPlan.Schedule.{
  Graph, link, draws, composites, any_composites, consume, depend, consumed, depend_all,
}
use haxeon.RenderPlan.Schedule.Edges.{IsExact}
use haxeon.RenderPlan.Schedule.Dependencies.{consume_one, depend_one, depend-Grows}
use haxeon.RenderPlan.Schedule.Only.{Only, link-Only}

module _ (n : ℕ) (passes : List RenderPass) (all : length passes ≡ n) (P : ℕ → ℕ → Type 0) where
  abbrev pub OnlyP : Graph → Type 0
  OnlyP = Only n passes all P

  -- The edges from the passes that draw into `producer` are wanted.
  abbrev pub Wanted : ℕ → ℕ → Type 0
  Wanted producer consumer =
      (i : ℕ) (q : RenderPass)
      → get_elem? passes i ≡ some q
      → (q.target == producer) ≡ true
      → i ≢ consumer
      → P i consumer

  consume_one-Only :
      (b : Bool) (producer consumer : ℕ) (g : Graph)
      → consumer < n
      → IsExact n g
      → (b ≡ true → Wanted producer consumer)
      → OnlyP g
      → OnlyP (if b then link 0 passes producer consumer g else g)
  consume_one-Only false producer consumer g low e wanted only = only
  consume_one-Only true producer consumer g low e wanted only =
      link-Only n passes all P producer consumer 0 passes g low e (omega (arith, all))
        (λ k i at_k (q, found, hit) ne.
          let same : k ≡ i = omega arith in wanted refl i q (rw same at found) hit ne)
        only

  consume-Only :
      (producer consumer : ℕ) (cs : List RenderCommand) (g : Graph)
      → consumer < n
      → IsExact n g
      → (any_composites producer cs ≡ true → Wanted producer consumer)
      → OnlyP g
      → OnlyP (consume passes producer consumer cs g)
  unfolding consume
  consume-Only producer consumer [] g low e wanted only = only
  consume-Only producer consumer (c ∷ cs) g low e wanted only =
      let b = composites producer c in
      let g1 = if b then link 0 passes producer consumer g else g in
      let (grows, _) = consume_one n passes all b producer consumer g low e in
      consume-Only producer consumer cs g1 low grows.0 (λ t. wanted (ground arith))
        (consume_one-Only b producer consumer g low e (λ t. wanted (ground arith)) only)

  depend_one-Only :
      (b : Bool) (producer index : ℕ) (cs : List RenderCommand) (g : Graph)
      → index < n
      → IsExact n g
      → ((b && any_composites producer cs) ≡ true → Wanted producer index)
      → OnlyP g
      → OnlyP (if b then consume passes producer index cs g else g)
  depend_one-Only false producer index cs g low e wanted only = only
  depend_one-Only true producer index cs g low e wanted only =
      consume-Only producer index cs g low e wanted only

  depend-Only :
      (producer target index : ℕ) (ps : List RenderPass) (g : Graph)
      → index + length ps ≤ n
      → IsExact n g
      → ((k j : ℕ) (p : RenderPass)
          → j ≡ index + k
          → get_elem? ps k ≡ some p
          → (p.target == target && any_composites producer p.commands) ≡ true
          → Wanted producer j)
      → OnlyP g
      → OnlyP (depend passes producer target index ps g)
  unfolding depend
  depend-Only producer target index [] g h e wanted only = only
  depend-Only producer target index (p ∷ ps) g h e wanted only =
      let b = p.target == target in
      let g1 = if b then consume passes producer index p.commands g else g in
      let (grows, _) = depend_one n passes all b producer index p.commands g (omega arith) e in
      depend-Only producer target (index + 1) ps g1 (omega arith) grows.0
        (λ k j q at_k found. wanted (suc k) j q (omega arith) found)
        (depend_one-Only b producer index p.commands g (omega arith) e
          (wanted zero index p (omega arith) refl) only)

  -- What the dependency asks for.
  abbrev pub Asked : RenderDependency → Type 0
  Asked d =
      (j : ℕ) (p : RenderPass)
      → get_elem? passes j ≡ some p
      → (p.target == d.consumer && any_composites d.producer p.commands) ≡ true
      → Wanted d.producer j

  -- Where every producer that a pass draws is consumed, the loop over the dependencies succeeds, and
  -- adds wanted edges alone.
  pub depend_all-Only :
      (ds : List RenderDependency) (g : Graph)
      → IsExact n g
      → ((k : ℕ) (d : RenderDependency)
          → get_elem? ds k ≡ some d
          → Asked d
            × (draws d.producer passes ≡ true → consumed d.producer d.consumer passes ≡ true))
      → OnlyP g
      → (g' : Graph) × (depend_all passes ds g ≡ ok g') × IsExact n g' × OnlyP g'
  unfolding depend_all
  depend_all-Only [] g e asked only = (g, refl, e, only)
  depend_all-Only (d ∷ ds) g e asked only =
      let (here, used) = asked zero d refl in
      elim (Bool-cases (draws d.producer passes)) [
        | inr external ↦
            rw external (depend_all-Only ds g e (λ k r found. asked (suc k) r found) only)
        | inl drawn ↦
            let g1 = depend passes d.producer d.consumer 0 passes g in
            let (grows, _) =
              depend-Grows n passes all d.producer d.consumer 0 passes g (omega (arith, all)) e in
            rw (drawn, used drawn)
              (depend_all-Only ds g1 grows.0 (λ k r found. asked (suc k) r found)
                (depend-Only d.producer d.consumer 0 passes g (omega (arith, all)) e
                  (λ k j p at_k found hit.
                    let same : k ≡ j = omega arith in here j p (rw same at found) hit)
                  only))
      ]
