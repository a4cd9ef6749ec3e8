-- ===== src/Compositor/Step/Sound.antt =====
-- One round of `Compositor::compile` (packages/ui/src/compositor/compositor.cpp).
use haxeon.Prelude.{
  ℕ, suc, ◌≡◌, ◌≢◌, inl, inr, refl, sym, ◌∙◌, ap, List, [], ◌∷◌, Option, none, some, Outcome, ok,
  err, arith, ◌==◌, length, Bool-cases,
}
use haxeon.Float32.{Arith}
use haxeon.DisplayList.Wire.{
  Opcode, set_transform, set_paint, set_global_alpha, set_composite_mode, push_state, pop_state,
  clip_rect, draw_path, draw_image, draw_text_layout, begin_layer, end_layer, draw_render_target,
  stroke_path, draw_box_shadow, draw_rect_border, Header, field_at,
}
use haxeon.DisplayList.Commands.{Depths}
use haxeon.DisplayList.Validate.Spec.{Allowed, behind}
use haxeon.Compositor.Types.{
  Layer, LayerCommandValues, CanvasState, CompositorMessage, clip_overflow, self_sampling,
  backdrop_overflow, effect_overflow,
}
use haxeon.Compositor.Reading.{read_layer}
use haxeon.Compositor.Step.{
  Machine, draw_target, open_layer, expand_if, begin_layer_step, end_layer_step, pop_canvas,
  clip_canvas, step,
}
use haxeon.Compositor.Commands.{stroke_command, shadow_command, border_command}
use haxeon.Compositor.Step.Settled.{
  Settled, draw-Settled, draw_target-Settled, open_layer-Settled, close_layer-Settled,
  skip_layer-Settled,
}

-- The errors that a command may end the compilation with.
abbrev pub May : Opcode → CompositorMessage → Type 0
May clip_rect clip_overflow = Unit {0}
May draw_render_target self_sampling = Unit {0}
May begin_layer backdrop_overflow = Unit {0}
May begin_layer effect_overflow = Unit {0}
May o e = ⊥

-- The command ends settled at the depths `e`, or with an error that it may end with.
abbrev pub Proceeds : ℕ → Opcode → Depths → Outcome CompositorMessage Machine → Type 0
Proceeds main o e (ok m) = Settled main m e
Proceeds main o e (err message) = May o message

-- The canvas state is no part of the invariant.
recanvassed :
    (main : ℕ) (m : Machine) (d : Depths) (c : CanvasState)
    → Settled main m d
    → Settled main (record m { state = c }) d
recanvassed main m d c s = record {
  good = s.good;
  last = s.last;
  here = s.here;
  nested = s.nested;
  states = s.states;
  layers = s.layers;
}

module _ (fp : Arith) (main : ℕ) where
  begin_layer-Proceeds :
      (h : Header) (w : List ℕ) (m : Machine) (d : Depths) (v : LayerCommandValues)
      → read_layer h w ≡ some v
      → Settled main m d
      → Proceeds main begin_layer (behind begin_layer d) (begin_layer_step fp h w m)
  unfolding begin_layer_step
  begin_layer-Proceeds h w m d v e s =
      rw (begin_layer_step, e)
        (elim (expand_if fp v.has_bounds v.bounds v.backdrop_effects)
          as (λ x. Proceeds main begin_layer (behind begin_layer d) (elim x [
            | none ↦ err backdrop_overflow
            | some b ↦ elim (expand_if fp v.has_bounds v.bounds v.effects) [
              | none ↦ err effect_overflow
              | some widened ↦ ok (open_layer fp (record v { bounds = widened }) b m)
            ]
          ])) [
            | none ↦ tt
            | some b ↦
                elim (expand_if fp v.has_bounds v.bounds v.effects)
                  as (λ x. Proceeds main begin_layer (behind begin_layer d) (elim x [
                    | none ↦ err effect_overflow
                    | some widened ↦ ok (open_layer fp (record v { bounds = widened }) b m)
                  ])) [
                    | none ↦ tt
                    | some widened ↦
                        open_layer-Settled fp main (record v { bounds = widened }) b m d s
                  ]
          ])

  end_layer-Proceeds :
      (ls : List Layer) (m : Machine) (d : Depths)
      → m.layers ≡ ls
      → Settled main m d
      → d.layers ≢ 0
      → Proceeds main end_layer (behind end_layer d) (end_layer_step fp ls m)
  unfolding end_layer_step
  end_layer-Proceeds [] m d top s some_open =
      absurd (some_open (omega (arith, ap length top, s.layers)))
  end_layer-Proceeds (l ∷ ls) m d top s some_open = elim (Bool-cases l.isolated) [
    | inl isolated ↦ rw isolated (close_layer-Settled fp main l ls m d s top some_open)
    | inr plain ↦ rw plain (skip_layer-Settled fp main l ls m d s top plain)
  ]

  pop_canvas-Proceeds :
      (ss : List CanvasState) (m : Machine) (d : Depths)
      → m.states ≡ ss
      → Settled main m d
      → d.states ≢ 0
      → Proceeds main pop_state (behind pop_state d) (pop_canvas fp ss m)
  pop_canvas-Proceeds [] m d top s some_open =
      absurd (some_open (omega (arith, ap length top, s.states)))
  pop_canvas-Proceeds (s0 ∷ ss) m d top s some_open =
      let depth : suc (length ss) ≡ d.states = sym (ap length top) ∙ s.states in
      record {
        good = s.good;
        last = s.last;
        here = s.here;
        nested = s.nested;
        states = omega (arith, depth);
        layers = s.layers;
      }

  clip_canvas-Proceeds :
      (c : Option CanvasState) (m : Machine) (d : Depths)
      → Settled main m d
      → Proceeds main clip_rect d (clip_canvas fp c m)
  clip_canvas-Proceeds none m d s = tt
  clip_canvas-Proceeds (some c) m d s = recanvassed main m d c s

  draw_target-Proceeds :
      (w : List ℕ) (m : Machine) (d : Depths)
      → Settled main m d
      → Proceeds main draw_render_target d (draw_target fp w m)
  unfolding draw_target
  draw_target-Proceeds w m d s = elim (Bool-cases (field_at w 0 == m.target)) [
    | inl same ↦ rw same tt
    | inr other ↦ rw other (draw_target-Settled fp main w m _ d s (rw (draw_target, other) refl))
  ]

  -- From a machine that is settled at the depths before, a command that these depths allow, and whose
  -- record `read_layer` can read where it is a begin_layer, leaves the machine settled at the depths
  -- behind the command, or ends with an error that this command may end with.
  pub step-Proceeds :
      (o : Opcode) (h : Header) (w : List ℕ) (m : Machine) (d : Depths)
      → (o ≡ begin_layer → (v : LayerCommandValues) × (read_layer h w ≡ some v))
      → Allowed o d
      → Settled main m d
      → Proceeds main o (behind o d) (step fp o h w m)
  unfolding step stroke_command shadow_command border_command
  step-Proceeds set_transform h w m d r a s = recanvassed main m d _ s
  step-Proceeds set_paint h w m d r a s = recanvassed main m d _ s
  step-Proceeds set_global_alpha h w m d r a s = recanvassed main m d _ s
  step-Proceeds set_composite_mode h w m d r a s = recanvassed main m d _ s
  step-Proceeds push_state h w m d r a s = record {
    good = s.good;
    last = s.last;
    here = s.here;
    nested = s.nested;
    states = omega (arith, s.states);
    layers = s.layers;
  }
  step-Proceeds pop_state h w m d r a s = pop_canvas-Proceeds m.states m d refl s a
  step-Proceeds clip_rect h w m d r a s = clip_canvas-Proceeds _ m d s
  step-Proceeds draw_path h w m d r a s = draw-Settled fp main _ m d refl s
  step-Proceeds stroke_path h w m d r a s = draw-Settled fp main _ m d refl s
  step-Proceeds draw_image h w m d r a s = draw-Settled fp main _ m d refl s
  step-Proceeds draw_box_shadow h w m d r a s = draw-Settled fp main _ m d refl s
  step-Proceeds draw_rect_border h w m d r a s = draw-Settled fp main _ m d refl s
  step-Proceeds draw_text_layout h w m d r a s = draw-Settled fp main _ m d refl s
  step-Proceeds draw_render_target h w m d r a s = draw_target-Proceeds w m d s
  step-Proceeds begin_layer h w m d r a s =
      let (v, e) = r refl in begin_layer-Proceeds h w m d v e s
  step-Proceeds end_layer h w m d r a s = end_layer-Proceeds m.layers m d refl s a
