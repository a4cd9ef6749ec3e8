-- ===== src/RenderPlan/Embed/Fed.antt =====
-- A plan that `append_embedded_render_plan` (packages/ui/src/compositor/render_plan.cpp) puts into another
-- one leaves that one as the scheduler wants it.
use haxeon.Prelude.{
  ℕ, ◌≡◌, refl, sym, ap, inl, inr, subst, true, ◌&&◌, List, [], ◌∷◌, ◌++◌, Option, none, some,
  arith, ◌==◌, Bool-cases, Outcome-cases,
}
use haxeon.Float32.{Arith}
use haxeon.RenderPlan.Types.{RenderPass, RenderDependency, RenderPlan}
use haxeon.RenderPlan.Kahn.{mem}
use haxeon.RenderPlan.Schedule.{draws, any_composites, consumed}
use haxeon.RenderPlan.Scale.{Doubles}
use haxeon.RenderPlan.Embed.{
  EmbedMessage, destination_main, valid_options, embed_round, embed_passes, remap_dependencies,
  with_dependencies, counted, embed_at, append_embedded_render_plan,
}
use haxeon.RenderPlan.Embed.Options.{RenderPlanEmbedOptions, remap_embedding_resource}
use haxeon.RenderPlan.Embed.Found.{
  destination_main-target_at, declared_ok-append, depends-append, consumers_ok-append,
  consumers_ok-fed,
}
use haxeon.RenderPlan.Embed.Round.{Carries, embed_round-Carries}
use haxeon.Compositor.Passes.{depends}
use haxeon.Compositor.Plan.{inputs_ok, consumers_ok, declared_ok, target_at, IsFed}

module _ (fp : Arith) (wide : Doubles) (o : RenderPlanEmbedOptions) where
  depends-remap :
      (r t : ℕ) (ds : List RenderDependency)
      → depends r t ds ≡ true
      → depends
          (remap_embedding_resource o r)
          (remap_embedding_resource o t)
          (remap_dependencies fp wide o ds)
        ≡ true
  unfolding remap_dependencies
  depends-remap r t [] h = h
  depends-remap r t (d ∷ ds) h = elim (Bool-cases (d.producer == r && d.consumer == t)) [
    | inl here ↦
        let p : d.producer ≡ r = ground arith in
        let c : d.consumer ≡ t = ground arith in
        let p' = ap (remap_embedding_resource o) p in
        let c' = ap (remap_embedding_resource o) c in ground arith
    | inr other ↦ ground (arith, depends-remap r t ds)
  ]

  consumers_ok-remap :
      (ds : List RenderDependency) (ps ps' : List RenderPass)
      → ((r t : ℕ)
          → consumed r t ps ≡ true
          → consumed (remap_embedding_resource o r) (remap_embedding_resource o t) ps' ≡ true)
      → consumers_ok ds ps ≡ true
      → consumers_ok (remap_dependencies fp wide o ds) ps' ≡ true
  unfolding remap_dependencies
  consumers_ok-remap [] ps ps' carry h = refl
  consumers_ok-remap (d ∷ ds) ps ps' carry h =
      ground (arith, carry d.producer d.consumer, consumers_ok-remap ds ps ps' carry)

  -- What the whole loop over `rest` brings, with the targets `seen` drawn before.
  record Brings (seen : List ℕ) (rest ps ps' : List RenderPass) : Type 0 where
    inputs :
        inputs_ok [] ps ≡ true
        → ((t : ℕ) → mem t seen ≡ true → draws (remap_embedding_resource o t) ps ≡ true)
        → inputs_ok seen rest ≡ true
        → inputs_ok [] ps' ≡ true
    fed : (r t : ℕ) → consumed r t ps ≡ true → consumed r t ps' ≡ true
    feeds :
        (r t : ℕ)
        → consumed r t rest ≡ true
        → consumed (remap_embedding_resource o r) (remap_embedding_resource o t) ps' ≡ true
    declares :
        (ss ds : List RenderDependency)
        → ((a t : ℕ)
            → depends a t ss ≡ true
            → depends (remap_embedding_resource o a) (remap_embedding_resource o t) ds ≡ true)
        → declared_ok ss rest ≡ true
        → declared_ok ds ps ≡ true
        → declared_ok ds ps' ≡ true

  Brings-next :
      (i : ℕ) (seen : List ℕ) (p : RenderPass) (rest ps ps1 ps' : List RenderPass)
      → Carries fp wide o i p ps ps1
      → Brings (p.target ∷ seen) rest ps1 ps'
      → Brings seen (p ∷ rest) ps ps'
  Brings-next i seen p rest ps ps1 ps' c b = record {
    inputs = λ h s k.
        b.inputs (c.inputs h (λ sampling. s p.input_target (ground arith))) (λ t m. seen_next t s m)
          (ground arith);
    fed = λ r t h. b.fed r t (c.fed r t h);
    feeds = λ r t h. feeds_next r t h;
    declares = λ ss ds carry h known.
        b.declares ss ds carry (ground arith)
          (c.declares ss ds (λ a d. carry a p.target d) (ground arith) known);
  }
    where
      seen_next :
          (t : ℕ)
          → ((u : ℕ) → mem u seen ≡ true → draws (remap_embedding_resource o u) ps ≡ true)
          → mem t (p.target ∷ seen) ≡ true
          → draws (remap_embedding_resource o t) ps1 ≡ true
      seen_next t s m = elim (Bool-cases (p.target == t)) [
        | inl own ↦
            let same : p.target ≡ t = ground arith in
            subst (λ (u : ℕ). draws (remap_embedding_resource o u) ps1 ≡ true) (same) (c.draws_own)
        | inr other ↦ c.drawn (remap_embedding_resource o t) (s t (ground arith))
      ]

      feeds_next :
          (r t : ℕ)
          → consumed r t (p ∷ rest) ≡ true
          → consumed (remap_embedding_resource o r) (remap_embedding_resource o t) ps' ≡ true
      feeds_next r t h = elim (Bool-cases (p.target == t && any_composites r p.commands)) [
        | inl here ↦
            let same : p.target ≡ t = ground arith in
            b.fed (remap_embedding_resource o r) (remap_embedding_resource o t) (
              subst
                (λ (u : ℕ).
                  consumed (remap_embedding_resource o r) (remap_embedding_resource o u) ps1 ≡ true)
                (same) (c.feeds r (ground arith)))
        | inr other ↦ b.feeds r t (ground arith)
      ]

  embed_passes-Brings :
      (i : ℕ) (seen : List ℕ) (rest ps ps' : List RenderPass)
      → embed_passes fp wide o i rest ps ≡ (ps', none)
      → target_at i ps ≡ some o.destination_main_target
      → Brings seen rest ps ps'
  unfolding embed_passes
  embed_passes-Brings i seen [] ps ps' e here =
      let same : ps ≡ ps' = ap (λ (x : List RenderPass × Option EmbedMessage). x.0) e in
      subst (Brings seen [] ps) (same) (record {
        inputs = λ h s k. h;
        fed = λ r t h. h;
        feeds = λ r t h. cc;
        declares = λ ss ds carry h known. known;
      })
  embed_passes-Brings i seen (p ∷ rest) ps ps' e here =
      elim (Outcome-cases (embed_round fp wide o i p ps)) [
        | inr (m, bad) ↦
            cc (
              ap (λ (x : List RenderPass × Option EmbedMessage). x.1) (rw (embed_passes, bad) at e))
        | inl (ps1, one) ↦
            let c = embed_round-Carries fp wide o i p ps ps1 one here in
            Brings-next i seen p rest ps ps1 ps' c (
              embed_passes-Brings i (p.target ∷ seen) rest ps1 ps' (rw (embed_passes, one) at e)
                c.place)
      ]

  with_dependencies-none :
      (ds : List RenderDependency) (plan plan' : RenderPlan)
      (x : List RenderPass × Option EmbedMessage)
      → with_dependencies fp wide o ds plan x ≡ (plan', none)
      → (x ≡ (x.0, none))
        × (plan'.passes ≡ x.0)
        × (plan'.dependencies ≡ plan.dependencies ++ remap_dependencies fp wide o ds)
  with_dependencies-none ds plan plan' (ps, none) e =
      let same = ap (λ (y : RenderPlan × Option EmbedMessage). y.0) e in
      (
        refl,
        sym (ap (λ (q : RenderPlan). q.passes) same),
        sym (ap (λ (q : RenderPlan). q.dependencies) same),
      )
  with_dependencies-none ds plan plan' (ps, some m) e =
      cc (ap (λ (y : RenderPlan × Option EmbedMessage). y.1) e)

  embed_at-IsFed :
      (i : Option ℕ) (source plan plan' : RenderPlan)
      → ((k : ℕ) → i ≡ some k → target_at k plan.passes ≡ some o.destination_main_target)
      → embed_at fp wide o i source plan ≡ (plan', none)
      → IsFed source
      → IsFed plan
      → IsFed plan'
  embed_at-IsFed none source plan plan' there e s f =
      cc (ap (λ (y : RenderPlan × Option EmbedMessage). y.1) e)
  embed_at-IsFed (some i) source plan plan' there e s f =
      let x = embed_passes fp wide o i source.passes plan.passes in
      let (done, passes, dependencies) =
        with_dependencies-none source.dependencies (counted fp wide o source plan) plan' x e in
      let b = embed_passes-Brings i [] source.passes plan.passes x.0 done (there i refl) in
      let ds = plan.dependencies in
      let es = remap_dependencies fp wide o source.dependencies in
      let carry = λ (a t : ℕ) (h : depends a t source.dependencies ≡ true).
        depends-append (remap_embedding_resource o a) (remap_embedding_resource o t) ds es
          (depends-remap a t source.dependencies h) in
      record {
        inputs = rw passes (b.inputs f.inputs (λ t h. cc) s.inputs);
        consumers =
            rw (passes, dependencies)
              (consumers_ok-append ds es x.0 (consumers_ok-fed ds plan.passes x.0 b.fed f.consumers)
                (consumers_ok-remap source.dependencies source.passes x.0 b.feeds s.consumers));
        declared =
            rw (passes, dependencies)
              (b.declares source.dependencies (ds ++ es) carry s.declared
                (declared_ok-append ds es plan.passes f.declared));
      }

  -- Embedding succeeds into a plan in which every pass reads what an earlier pass draws, every dependency
  -- is consumed and every composite is declared, from another such plan, only with a result that is such
  -- a plan again, however the options remap the targets.
  pub append_embedded_render_plan-IsFed :
      (source plan plan' : RenderPlan)
      → append_embedded_render_plan fp wide o source plan ≡ (plan', none)
      → IsFed source
      → IsFed plan
      → IsFed plan'
  unfolding append_embedded_render_plan
  append_embedded_render_plan-IsFed source plan plan' e s f = elim (Bool-cases (valid_options o)) [
    | inl fine ↦
        let asked = destination_main o o.destination_main_pass plan.passes in
        embed_at-IsFed asked source plan plan'
          (λ k found. destination_main-target_at o o.destination_main_pass plan.passes k found)
          (rw (append_embedded_render_plan, fine) at e) s f
    | inr bad ↦ cc (
        ap (λ (y : RenderPlan × Option EmbedMessage). y.1)
          (rw (append_embedded_render_plan, bad) at e))
  ]
