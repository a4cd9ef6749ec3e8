-- ===== src/RenderPlan/Embed/Refused.antt =====
-- The pass for which `append_embedded_render_plan` (packages/ui/src/compositor/render_plan.cpp) ends with
-- an error.
use haxeon.Prelude.{
  ℕ, zero, suc, ◌≡◌, ◌≢◌, false, err, get_elem?, ◌⊎◌, ◌∙◌, refl, ap, inl, inr, true, List, [], ◌∷◌,
  some, arith, ◌==◌, Bool-cases, Outcome-cases,
}
use haxeon.Float32.{Arith}
use haxeon.ResourceId.{is_resource_id, render_target}
use haxeon.RenderPlan.Types.{RenderPass}
use haxeon.RenderPlan.Scale.{Doubles}
use haxeon.RenderPlan.Embed.{EmbedMessage, invalid_target, embed_pass, embed_round, embed_passes}
use haxeon.RenderPlan.Embed.Options.{RenderPlanEmbedOptions}

module _ (fp : Arith) (wide : Doubles) (o : RenderPlanEmbedOptions) where
  -- The pass `p` ends the embedding with the error `m`.
  abbrev pub Refuses : RenderPass → EmbedMessage → Type 0
  Refuses p m =
      ((is_resource_id p.target render_target ≡ false) × (m ≡ invalid_target))
      ⊎ ((is_resource_id p.target render_target ≡ true)
          × (p.target ≢ o.source_main_target)
          × (embed_pass fp wide o p ≡ err m))

  embed_round-Refuses :
      (i : ℕ) (p : RenderPass) (ps : List RenderPass) (m : EmbedMessage)
      → embed_round fp wide o i p ps ≡ err m
      → Refuses p m
  unfolding embed_round
  embed_round-Refuses i p ps m e = elim (Bool-cases (is_resource_id p.target render_target)) [
    | inr other ↦ inl (other, cc (rw (embed_round, other) at e))
    | inl kind ↦ elim (Bool-cases (p.target == o.source_main_target)) [
      | inl own ↦ cc (rw (embed_round, kind, own) at e)
      | inr outer ↦ elim (Outcome-cases (embed_pass fp wide o p)) [
        | inl (q, done) ↦ cc (rw (embed_round, kind, outer, done) at e)
        | inr (m', bad) ↦
            let same : m' ≡ m = cc (rw (embed_round, kind, outer, bad) at e) in
            inr (kind, ground arith, bad ∙ ap err same)
      ]
    ]
  ]

  -- An error of the loop is the error of a pass.
  pub embed_passes-Refuses :
      (i : ℕ) (rest ps : List RenderPass) (m : EmbedMessage)
      → (embed_passes fp wide o i rest ps).1 ≡ some m
      → (k : ℕ) × (p : RenderPass) × (get_elem? rest k ≡ some p) × Refuses p m
  unfolding embed_passes
  embed_passes-Refuses i [] ps m e = cc
  embed_passes-Refuses i (p ∷ rest) ps m e = elim (Outcome-cases (embed_round fp wide o i p ps)) [
    | inr (m', bad) ↦
        let same : m' ≡ m = cc (rw (embed_passes, bad) at e) in
        (zero, p, refl, embed_round-Refuses i p ps m (bad ∙ ap err same))
    | inl (ps', one) ↦
        let (k, q, found, refuses) =
          embed_passes-Refuses i rest ps' m (rw (embed_passes, one) at e) in
        (suc k, q, found, refuses)
  ]
