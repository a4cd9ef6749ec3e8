-- ===== src/Compositor/Step/Settled.antt =====
-- The locals of `Compositor::compile` (packages/ui/src/compositor/compositor.cpp) between two records.
use haxeon.Prelude.{
  ℕ, suc, ◌+◌, ◌≡◌, ◌≢◌, ◌∙◌, subst, inl, inr, refl, sym, ap, true, false, List, [], ◌∷◌, some, ok,
  arith, length, Bool-cases,
}
use haxeon.Float32.{Arith}
use haxeon.DisplayList.Wire.{begin_layer, end_layer, field_at}
use haxeon.DisplayList.Commands.{Depths}
use haxeon.DisplayList.Methods.{Bounds}
use haxeon.DisplayList.Validate.Spec.{behind}
use haxeon.RenderPlan.Types.{RenderCommand, default_descriptor, composite_target}
use haxeon.RenderPlan.Checks.{is_composite}
use haxeon.Compositor.Types.{Layer, LayerCommandValues}
use haxeon.Compositor.Bounds.{apply_state}
use haxeon.Compositor.Passes.{Work, allocate, continue_pass, add_command, composite_into}
use haxeon.Compositor.Plan.{Good, Drawn, target_at}
use haxeon.Compositor.Better.{add_command-Better, composite_into-Better}
use haxeon.Compositor.Chain.Sound.{
  allocate-Better, target_at-append_command, continue_pass-Better, length-append_command,
  composite_into-passes,
}
use haxeon.Compositor.Step.{
  Machine, draw, draw_target, make_backdrop, enter_layer, open_layer, finish_layer, close_layer,
}
use haxeon.Compositor.Commands.{rect_at, command_in, described, is_empty, is_isolated, count_layer}
use haxeon.Compositor.Step.Layers.{
  target_at-Drawn, count_layer-Better, finish_layer-Yields, make_backdrop-Better,
}

-- The open layers lead from the target that is drawn into back to the main target.
abbrev pub Nested : ℕ → ℕ → List Layer → Type 0
Nested main target [] = target ≡ main
Nested main target (l ∷ ls) =
    (l.layer_target ≡ target)
    × (l.isolated ≡ false → l.parent_target ≡ target)
    × Nested main l.parent_target ls

-- The pass that is drawn into is the last one, so that its pointer is not stale.
pub record Settled (main : ℕ) (m : Machine) (d : Depths) : Type 0 where
  pub good : Good m.work
  pub last : m.pass + 1 ≡ length m.work.plan.passes
  pub here : target_at m.pass m.work.plan.passes ≡ some m.target
  pub nested : Nested main m.target m.layers
  pub states : length m.states ≡ d.states
  pub layers : length m.layers ≡ d.layers

here-Drawn : (main : ℕ) (m : Machine) (d : Depths) → Settled main m d → Drawn m.target m.work
here-Drawn main m d s = target_at-Drawn m.pass m.target m.work.plan.passes s.here

-- A change of the plan that keeps the passes in number and target.
same_place :
    (main : ℕ) (m : Machine) (d : Depths) (w : Work)
    → Settled main m d
    → Good w
    → length w.plan.passes ≡ length m.work.plan.passes
    → ((k : ℕ) → target_at k w.plan.passes ≡ target_at k m.work.plan.passes)
    → Settled main (record m { work = w }) d
same_place main m d w s g count targets = record {
  good = g;
  last = s.last ∙ sym count;
  here = targets m.pass ∙ s.here;
  nested = s.nested;
  states = s.states;
  layers = s.layers;
}

module _ (fp : Arith) (main : ℕ) where
  pub draw-Settled :
      (c : RenderCommand) (m : Machine) (d : Depths)
      → is_composite c.kind ≡ false
      → Settled main m d
      → Settled main (draw fp c m) d
  unfolding draw add_command apply_state
  draw-Settled c m d plain s =
      let c' = apply_state fp m.state m.origin_x m.origin_y c in
      same_place main m d (add_command m.pass c' m.work) s
        (add_command-Better m.pass c' m.work s.good plain).good
        (length-append_command m.pass c' m.work.plan.passes)
        (λ k. target_at-append_command k m.pass c' m.work.plan.passes)

  pub draw_target-Settled :
      (w : List ℕ) (m m' : Machine) (d : Depths)
      → Settled main m d
      → draw_target fp w m ≡ ok m'
      → Settled main m' d
  unfolding draw_target apply_state
  draw_target-Settled w m m' d s e =
      let c =
        apply_state fp m.state m.origin_x m.origin_y
          (command_in composite_target (field_at w 0) (rect_at 1 w)) in
      let (count, targets) = composite_into-passes m.pass m.target c m.work in
      let w' = composite_into m.pass m.target c m.work in
      let put : Settled main (record m { work = w' }) d =
        same_place main m d w' s
          (composite_into-Better m.pass m.target c m.work s.good s.here refl).good count targets in
      let same : record m { work = w' } ≡ m' = ground arith in
      subst (λ (t : Machine). Settled main t d) (same) put

  -- Where the layer is not isolated, the work `w` is that of `m` but for the counts.
  enter_layer-Settled :
      (v : LayerCommandValues) (b : Bounds) (backdrop : ℕ) (m : Machine) (w : Work) (d : Depths)
      → Settled main m d
      → Good w
      → (is_isolated v ≡ false → w.plan.passes ≡ m.work.plan.passes)
      → Settled main (enter_layer fp v (is_isolated v) b backdrop m w) (behind begin_layer d)
  unfolding enter_layer
  enter_layer-Settled v b backdrop m w d s g same =
      let w1 = (allocate w).1 in
      let t = (allocate w).0 in
      let one = allocate-Better w g in
      let descriptor = described v.has_bounds v.bounds in
      let (two, drawn, here, last) = continue_pass-Better t descriptor w1 one.good in
      elim (Bool-cases (is_isolated v)) [
        | inl isolated ↦ rw isolated (record {
          good = two.good;
          last = last;
          here = here;
          nested = (refl, λ h. cc, s.nested);
          states = s.states;
          layers = omega (arith, s.layers);
        })
        | inr plain ↦ rw plain (record {
          good = g;
          last = s.last ∙ ap length (sym (same plain));
          here = ap (target_at m.pass) (same plain) ∙ s.here;
          nested = (refl, λ h. refl, s.nested);
          states = s.states;
          layers = omega (arith, s.layers);
        })
      ]

  plain_backdrop :
      (v : LayerCommandValues) (b : Bounds) (m : Machine) (w : Work)
      → is_isolated v ≡ false
      → (make_backdrop fp v b m w).1 ≡ w
  unfolding is_isolated make_backdrop
  plain_backdrop v b m w plain =
      let nothing : is_empty v.backdrop_effects ≡ true = ground arith in rw nothing refl

  pub open_layer-Settled :
      (v : LayerCommandValues) (b : Bounds) (m : Machine) (d : Depths)
      → Settled main m d
      → Settled main (open_layer fp v b m) (behind begin_layer d)
  unfolding open_layer count_layer
  open_layer-Settled v b m d s =
      let w0 = count_layer (is_isolated v) v.has_bounds m.work in
      let counted = count_layer-Better (is_isolated v) v.has_bounds m.work s.good in
      let w = (make_backdrop fp v b m w0).1 in
      let made =
        make_backdrop-Better fp v b m w0 counted.good
          (counted.keeps m.target (here-Drawn main m d s)) in
      enter_layer-Settled v b (make_backdrop fp v b m w0).0 m w d s made.good
        (λ plain. ap (λ (t : Work). t.plan.passes) (plain_backdrop v b m w0 plain))

  -- A layer that ends draws its result into its parent.
  pub close_layer-Settled :
      (l : Layer) (ls : List Layer) (m : Machine) (d : Depths)
      → Settled main m d
      → m.layers ≡ l ∷ ls
      → d.layers ≢ 0
      → Settled main (close_layer fp l ls m) (behind end_layer d)
  unfolding close_layer
  close_layer-Settled l ls m d s top some_open =
      let (inside, _, outer) = subst (Nested main m.target) (top) s.nested in
      let w1 = (finish_layer fp l m.work).1 in
      let drawn : Drawn l.layer_target m.work = rw inside (here-Drawn main m d s) in
      let (one, _) = finish_layer-Yields fp l m.work s.good drawn in
      let w2 = (continue_pass l.parent_target default_descriptor w1).1 in
      let i = (continue_pass l.parent_target default_descriptor w1).0 in
      let (two, _, here, last) =
        continue_pass-Better l.parent_target default_descriptor w1 one.good in
      let depth : suc (length ls) ≡ d.layers = sym (ap length top) ∙ s.layers in
      let (count, targets) = composite_into-passes i l.parent_target _ w2 in
      record {
        good = (composite_into-Better i l.parent_target _ w2 two.good here refl).good;
        last = last ∙ sym count;
        here = targets i ∙ here;
        nested = outer;
        states = s.states;
        layers = omega (arith, depth);
      }

  -- A layer that is not isolated leaves the target as it was.
  pub skip_layer-Settled :
      (l : Layer) (ls : List Layer) (m : Machine) (d : Depths)
      → Settled main m d
      → m.layers ≡ l ∷ ls
      → l.isolated ≡ false
      → Settled main (record m { layers = ls }) (behind end_layer d)
  skip_layer-Settled l ls m d s top plain =
      let (_, parent, outer) = subst (Nested main m.target) (top) s.nested in
      let depth : suc (length ls) ≡ d.layers = sym (ap length top) ∙ s.layers in
      record {
        good = s.good;
        last = s.last;
        here = s.here;
        nested = rw (parent plain) at outer;
        states = s.states;
        layers = omega (arith, depth);
      }
