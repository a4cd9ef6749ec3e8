-- ===== src/RenderPlan/Embed/Round.antt =====
-- One round of the loop of `append_embedded_render_plan` (packages/ui/src/compositor/render_plan.cpp).
use haxeon.RenderPlan.Embed.Pushed.{target_at-append, declared_ok-push, consumed-push}
use haxeon.Prelude.{
  ℕ, ◌≡◌, ◌∙◌, refl, sym, ap, inl, inr, subst, Bool, true, false, List, [], ◌∷◌, ◌++◌, some, ok,
  arith, ◌==◌, Bool-cases, Outcome-cases,
}
use haxeon.Float32.{Arith}
use haxeon.ResourceId.{is_resource_id, render_target}
use haxeon.RenderPlan.Types.{RenderCommand, RenderPass, RenderDependency}
use haxeon.RenderPlan.Checks.{samples_input, is_composite}
use haxeon.RenderPlan.Schedule.{draws, composites, any_composites, consumed}
use haxeon.RenderPlan.Scale.{Doubles}
use haxeon.RenderPlan.Embed.{
  map_commands, local_place, local_commands, embed_pass, embed_commands, embed_round,
}
use haxeon.RenderPlan.Embed.Place.{adopted, place_main_command, place_local_command}
use haxeon.RenderPlan.Embed.Options.{RenderPlanEmbedOptions, remap_embedding_resource}
use haxeon.RenderPlan.Embed.Alike.{
  place_main_command-Same, place_local_command-Same, embed_pass-Stands,
}
use haxeon.Compositor.Passes.{append_command, depends}
use haxeon.Compositor.Plan.{
  inputs_ok, commands_declared, declared_ok, target_at, draws-snoc, draws-append_command,
  inputs_ok-snoc, consumed-snoc, inputs_ok-append_command, consumed-append_command, consumed-new,
  declared_ok-append_command,
}
use haxeon.Compositor.Chain.Sound.{target_at-append_command}
use haxeon.Compositor.Step.Layers.{target_at-Drawn}

module _ (fp : Arith) (wide : Doubles) (o : RenderPlanEmbedOptions) where
  main_command-kind :
      (c : RenderCommand)
      → ((place_main_command fp o (adopted o c)).kind ≡ c.kind)
        × ((place_main_command fp o (adopted o c)).resource ≡ remap_embedding_resource o c.resource)
  unfolding adopted
  main_command-kind c = let same = place_main_command-Same fp o (adopted o c) in (same.0, same.1)

  local_command-kind :
      (b : Bool) (dx dy : ℕ) (c : RenderCommand)
      → ((place_local_command fp o b dx dy c).kind ≡ c.kind)
        × ((place_local_command fp o b dx dy c).resource ≡ remap_embedding_resource o c.resource)
  unfolding adopted
  local_command-kind b dx dy c =
      let same = place_local_command-Same fp o b dx dy c in (same.0, same.1)

  -- A copy of commands under a function that keeps kinds and remaps resources.
  module _ (f : RenderCommand → RenderCommand)
      (kept : (c : RenderCommand)
        → ((f c).kind ≡ c.kind) × ((f c).resource ≡ remap_embedding_resource o c.resource)) where
    any_composites-map :
        (r : ℕ) (cs : List RenderCommand)
        → any_composites r cs ≡ true
        → any_composites (remap_embedding_resource o r) (map_commands fp wide o f cs) ≡ true
    any_composites-map r [] h = h
    any_composites-map r (c ∷ cs) h =
        let (kind, resource) = kept c in
        elim (Bool-cases (composites r c)) [
          | inl here ↦
              let same : c.resource ≡ r = ground arith in
              let remapped : (f c).resource ≡ remap_embedding_resource o r =
                resource ∙ ap (remap_embedding_resource o) same in
              let k : is_composite (f c).kind ≡ true = rw kind (ground arith) in ground arith
          | inr other ↦ ground (arith, any_composites-map r cs)
        ]

    commands_declared-map :
        (ss ds : List RenderDependency) (t : ℕ) (cs : List RenderCommand)
        → ((a : ℕ)
            → depends a t ss ≡ true
            → depends (remap_embedding_resource o a) (remap_embedding_resource o t) ds ≡ true)
        → commands_declared ss t cs ≡ true
        → commands_declared ds (remap_embedding_resource o t) (map_commands fp wide o f cs) ≡ true
    commands_declared-map ss ds t [] carry h = refl
    commands_declared-map ss ds t (c ∷ cs) carry h =
        let (kind, resource) = kept c in
        let later = commands_declared-map ss ds t cs carry (ground arith) in
        elim (Bool-cases (is_composite c.kind)) [
          | inr plain ↦ let k : is_composite (f c).kind ≡ false = rw kind plain in ground arith
          | inl composite ↦
              let there = carry c.resource (ground arith) in
              let here : depends (f c).resource (remap_embedding_resource o t) ds ≡ true =
                rw resource there in
              ground arith
        ]

  -- The commands of a main pass leave the passes in number, target and input.
  module _ (i : ℕ) where
    embed_commands-keeps :
        (cs : List RenderCommand) (ps : List RenderPass)
        → let ps' = embed_commands fp wide o i cs ps in
          (inputs_ok [] ps' ≡ inputs_ok [] ps)
          × ((t : ℕ) → draws t ps' ≡ draws t ps)
          × ((k : ℕ) → target_at k ps' ≡ target_at k ps)
          × ((r t : ℕ) → consumed r t ps ≡ true → consumed r t ps' ≡ true)
    unfolding embed_commands
    embed_commands-keeps [] ps = (refl, λ t. refl, λ k. refl, λ r t h. h)
    embed_commands-keeps (c ∷ cs) ps =
        let c' = place_main_command fp o (adopted o c) in
        let (inputs, drawn, places, fed) = embed_commands-keeps cs (append_command i c' ps) in
        (
          inputs ∙ inputs_ok-append_command [] i c' ps,
          λ t. drawn t ∙ draws-append_command t i c' ps,
          λ k. places k ∙ target_at-append_command k i c' ps,
          λ r t h. fed r t (consumed-append_command r t i c' ps h),
        )

    embed_commands-consumed :
        (r t : ℕ) (cs : List RenderCommand) (ps : List RenderPass)
        → target_at i ps ≡ some t
        → any_composites r cs ≡ true
        → consumed (remap_embedding_resource o r) t (embed_commands fp wide o i cs ps) ≡ true
    unfolding embed_commands
    embed_commands-consumed r t [] ps here h = cc
    embed_commands-consumed r t (c ∷ cs) ps here h =
        let c' = place_main_command fp o (adopted o c) in
        let (kind, resource) = main_command-kind c in
        elim (Bool-cases (composites r c)) [
          | inr other ↦
              embed_commands-consumed r t cs (append_command i c' ps)
                (target_at-append_command i i c' ps ∙ here) (ground arith)
          | inl found ↦
              let same : c.resource ≡ r = ground arith in
              let k : is_composite c.kind ≡ true = ground arith in
              let remapped : c'.resource ≡ remap_embedding_resource o r =
                resource ∙ ap (remap_embedding_resource o) same in
              (embed_commands-keeps cs (append_command i c' ps)).3 (remap_embedding_resource o r) t
                (subst (λ (u : ℕ). consumed u t (append_command i c' ps) ≡ true) (remapped)
                  (consumed-new t i c' ps here (rw kind k)))
        ]

    embed_commands-declared :
        (ss ds : List RenderDependency) (t : ℕ) (cs : List RenderCommand) (ps : List RenderPass)
        → target_at i ps ≡ some (remap_embedding_resource o t)
        → ((a : ℕ)
            → depends a t ss ≡ true
            → depends (remap_embedding_resource o a) (remap_embedding_resource o t) ds ≡ true)
        → commands_declared ss t cs ≡ true
        → declared_ok ds ps ≡ true
        → declared_ok ds (embed_commands fp wide o i cs ps) ≡ true
    unfolding embed_commands
    embed_commands-declared ss ds t [] ps here carry h known = known
    embed_commands-declared ss ds t (c ∷ cs) ps here carry h known =
        let c' = place_main_command fp o (adopted o c) in
        let (kind, resource) = main_command-kind c in
        embed_commands-declared ss ds t cs (append_command i c' ps)
          (target_at-append_command i i c' ps ∙ here) carry (ground arith)
          (declared_ok-append_command ds i (remap_embedding_resource o t) c' ps
            (λ at_t. rw (kind, resource) (ground (arith, carry c.resource))) (inl here) known)

  -- What one pass `p` of the source brings to the passes `ps`.
  pub record Carries (i : ℕ) (p : RenderPass) (ps ps' : List RenderPass) : Type 0 where
    pub drawn : (t : ℕ) → draws t ps ≡ true → draws t ps' ≡ true
    pub draws_own : draws (remap_embedding_resource o p.target) ps' ≡ true
    pub inputs :
        inputs_ok [] ps ≡ true
        → (samples_input p.kind ≡ true
            → draws (remap_embedding_resource o p.input_target) ps ≡ true)
        → inputs_ok [] ps' ≡ true
    pub place : target_at i ps' ≡ some o.destination_main_target
    pub fed : (r t : ℕ) → consumed r t ps ≡ true → consumed r t ps' ≡ true
    pub feeds :
        (r : ℕ)
        → any_composites r p.commands ≡ true
        → consumed (remap_embedding_resource o r) (remap_embedding_resource o p.target) ps' ≡ true
    pub declares :
        (ss ds : List RenderDependency)
        → ((a : ℕ)
            → depends a p.target ss ≡ true
            → depends (remap_embedding_resource o a) (remap_embedding_resource o p.target) ds
              ≡ true)
        → commands_declared ss p.target p.commands ≡ true
        → declared_ok ds ps ≡ true
        → declared_ok ds ps' ≡ true

  main-Carries :
      (i : ℕ) (p : RenderPass) (ps : List RenderPass)
      → (p.target == o.source_main_target) ≡ true
      → target_at i ps ≡ some o.destination_main_target
      → Carries i p ps (embed_commands fp wide o i p.commands ps)
  unfolding remap_embedding_resource
  main-Carries i p ps own here =
      let (inputs, drawn, places, fed) = embed_commands-keeps i p.commands ps in
      let mapped : remap_embedding_resource o p.target ≡ o.destination_main_target = rw own refl in
      let at_own : target_at i ps ≡ some (remap_embedding_resource o p.target) =
        here ∙ ap some (sym mapped) in
      record {
        drawn = λ t h. drawn t ∙ h;
        draws_own =
            drawn (remap_embedding_resource o p.target)
            ∙ target_at-Drawn i (remap_embedding_resource o p.target) ps at_own;
        inputs = λ h s. inputs ∙ h;
        place = places i ∙ here;
        fed = fed;
        feeds = λ r h.
            embed_commands-consumed i r (remap_embedding_resource o p.target) p.commands ps at_own
              h;
        declares = λ ss ds carry h known.
            embed_commands-declared i ss ds p.target p.commands ps at_own carry h known;
      }

  pushed-Carries :
      (i : ℕ) (p q : RenderPass) (ps : List RenderPass)
      → embed_pass fp wide o p ≡ ok q
      → target_at i ps ≡ some o.destination_main_target
      → Carries i p ps (ps ++ q ∷ [])
  unfolding local_commands
  pushed-Carries i p q ps e here =
      let (d, target, input, kind, _, commands) = embed_pass-Stands fp wide o p q e in
      let f = local_place fp wide o p d in
      record {
        drawn = λ t h. ground (arith, draws-snoc t ps q);
        draws_own = ground (arith, draws-snoc (remap_embedding_resource o p.target) ps q);
        inputs = λ h s. inputs_ok-snoc [] ps q h (rw (kind, input) (ground arith));
        place = target_at-append i o.destination_main_target ps (q ∷ []) here;
        fed = λ r t h. consumed-snoc r t ps q h;
        feeds = λ r h.
            consumed-push (remap_embedding_resource o r) (remap_embedding_resource o p.target) ps q
              target
              (rw commands (any_composites-map f (λ c. local_command-kind _ _ _ c) r p.commands h));
        declares = λ ss ds carry h known. declared_ok-push ds ps q known (
            rw (commands, target)
              (commands_declared-map f (λ c. local_command-kind _ _ _ c) ss ds p.target p.commands
                carry h));
      }

  pub embed_round-Carries :
      (i : ℕ) (p : RenderPass) (ps ps' : List RenderPass)
      → embed_round fp wide o i p ps ≡ ok ps'
      → target_at i ps ≡ some o.destination_main_target
      → Carries i p ps ps'
  unfolding embed_round
  embed_round-Carries i p ps ps' e here =
      elim (Bool-cases (is_resource_id p.target render_target)) [
        | inr other ↦ cc (rw (embed_round, other) at e)
        | inl kind ↦ elim (Bool-cases (p.target == o.source_main_target)) [
          | inl own ↦
              let same : embed_commands fp wide o i p.commands ps ≡ ps' =
                cc (rw (embed_round, kind, own) at e) in
              subst (Carries i p ps) (same) (main-Carries i p ps own here)
          | inr outer ↦ elim (Outcome-cases (embed_pass fp wide o p)) [
            | inr (m, bad) ↦ cc (rw (embed_round, kind, outer, bad) at e)
            | inl (q, done) ↦
                let same : ps ++ q ∷ [] ≡ ps' = cc (rw (embed_round, kind, outer, done) at e) in
                subst (Carries i p ps) (same) (pushed-Carries i p q ps done here)
          ]
        ]
      ]
