-- ===== src/Compositor/Step/Layers.antt =====
-- The passes of one layer in packages/ui/src/compositor/compositor.cpp: its backdrop, the group that
-- joins both, its effects and its mask.
use haxeon.Prelude.{
  ℕ, zero, suc, ◌≡◌, ◌∙◌, inl, inr, refl, Bool, true, false, List, [], ◌∷◌, none, some, arith,
  if◌then◌else◌, Bool-cases,
}
use haxeon.Float32.{Arith}
use haxeon.DisplayList.Methods.{Bounds}
use haxeon.RenderPlan.Types.{RenderPass, new_command, composite_target}
use haxeon.RenderPlan.Schedule.{draws}
use haxeon.Compositor.Types.{Layer, LayerCommandValues}
use haxeon.Compositor.Passes.{Work, allocate, continue_pass, composite_into}
use haxeon.Compositor.Plan.{Good, Drawn, Better, Better-trans, target_at}
use haxeon.Compositor.Better.{composite_into-Better}
use haxeon.Compositor.Chain.{Context, apply_operations, append_mask_pass}
use haxeon.Compositor.Chain.Sound.{
  Yields, allocate-Better, continue_pass-Better, composite_into-passes, apply_operations-Yields,
  append_mask_pass-Yields,
}
use haxeon.Compositor.Step.{Machine, make_backdrop, group_layer, finish_layer}
use haxeon.Compositor.Commands.{is_empty, count_layer, bounds_if, command_in}

pub target_at-Drawn : (i t : ℕ) (ps : List RenderPass) → target_at i ps ≡ some t → draws t ps ≡ true
target_at-Drawn i t [] h = cc
target_at-Drawn zero t (p ∷ ps) h = ground arith
target_at-Drawn (suc i) t (p ∷ ps) h = ground (arith, target_at-Drawn i t ps h)

pub count_layer-Better :
    (isolated bounded : Bool) (w : Work) → Good w → Better w (count_layer isolated bounded w)
unfolding count_layer
count_layer-Better isolated bounded w g = record {
  good = record { inputs = g.inputs; consumers = g.consumers; declared = g.declared };
  keeps = λ t d. d;
}

group_layer-Yields :
    (fp : Arith) (l : Layer) (content : ℕ) (w : Work)
    → Good w
    → Yields w (group_layer fp l content w)
unfolding group_layer
group_layer-Yields fp l content w g =
    let w1 = (allocate w).1 in
    let group = (allocate w).0 in
    let one = allocate-Better w g in
    let i = (continue_pass group l.target_descriptor w1).0 in
    let w2 = (continue_pass group l.target_descriptor w1).1 in
    let (two, drawn, here, _) = continue_pass-Better group l.target_descriptor w1 one.good in
    let b = l.backdrop_bounds in
    let placed =
      bounds_if l.has_bounds (record b { x = fp.sub b.x l.bounds.x; y = fp.sub b.y l.bounds.y }) in
    let extent = bounds_if l.has_bounds l.bounds in
    let c = command_in composite_target l.backdrop_target placed in
    let d = new_command composite_target content 0 0 extent.width extent.height in
    let w3 = composite_into i group c w2 in
    let three = composite_into-Better i group c w2 two.good here refl in
    let four =
      composite_into-Better i group d w3 three.good
        ((composite_into-passes i group c w2).1 i ∙ here) refl in
    (
      Better-trans w w1 _ one (Better-trans w1 w2 _ two (Better-trans w2 w3 _ three four)),
      four.keeps group (three.keeps group drawn),
    )

pub finish_layer-Yields :
    (fp : Arith) (l : Layer) (w : Work)
    → Good w
    → Drawn l.layer_target w
    → Yields w (finish_layer fp l w)
unfolding finish_layer
finish_layer-Yields fp l w g drawn =
    let extent = bounds_if l.has_bounds l.bounds in
    let context : Context = record {
      descriptor = l.target_descriptor;
      backdrop = false;
      region = none;
      width = extent.width;
      height = extent.height;
    } in
    let content = (apply_operations context none l.effects l.layer_target w).0 in
    let w1 = (apply_operations context none l.effects l.layer_target w).1 in
    let (one, there) = apply_operations-Yields context none l.effects l.layer_target w g drawn in
    let second : Yields w1
        (if l.has_backdrop_target then group_layer fp l content w1 else (content, w1)) =
      elim l.has_backdrop_target
        as (λ b. Yields w1 (if b then group_layer fp l content w1 else (content, w1))) [
          | true ↦ group_layer-Yields fp l content w1 one.good
          | false ↦ (record { good = one.good; keeps = λ t d. d }, there)
        ] in
    let joined : ℕ × Work =
      if l.has_backdrop_target then group_layer fp l content w1 else (content, w1) in
    let whole = joined.0 in
    let w2 = joined.1 in
    let (two, joined_there) = second in
    let upto : Better w w2 = Better-trans w w1 w2 one two in
    elim l.has_mask
      as (λ b.
        Yields w
          (if b then append_mask_pass l.target_descriptor l.mask whole w2 else (whole, w2))) [
            | true ↦
                let (three, last) =
                  append_mask_pass-Yields l.target_descriptor l.mask whole w2 upto.good
                    joined_there in
                (Better-trans w w2 _ upto three, last)
            | false ↦ (upto, joined_there)
          ]

-- A backdrop samples the target that is drawn into.
pub make_backdrop-Better :
    (fp : Arith) (v : LayerCommandValues) (b : Bounds) (m : Machine) (w : Work)
    → Good w
    → Drawn m.target w
    → Better w (make_backdrop fp v b m w).1
unfolding make_backdrop
make_backdrop-Better fp v b m w g drawn = elim (Bool-cases (is_empty v.backdrop_effects)) [
  | inl none_asked ↦ rw none_asked (record { good = g; keeps = λ t d. d })
  | inr asked ↦ rw asked (apply_operations-Yields _ _ v.backdrop_effects m.target w g drawn).0
]
