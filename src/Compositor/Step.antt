-- ===== src/Compositor/Step.antt =====
-- The `switch` of `Compositor::compile` (packages/ui/src/compositor/compositor.cpp).
pub mod Layers
pub mod Settled
pub mod Sound
use haxeon.Compositor.Commands.{
  rect_at, command_in, stroke_command, shadow_command, border_command, bounds_if, described,
  is_empty, is_isolated, count_layer,
}
use haxeon.Prelude.{
  ℕ, ◌+◌, ◌%◌, ◌^◌, Bool, true, false, ◌&&◌, ◌||◌, not, List, [], ◌∷◌, Option, none, some, Outcome,
  ok, err, ◌==◌, if◌then◌else◌, take, drop,
}
use haxeon.Float32.{Arith, flt, float_one}
use haxeon.DisplayList.Wire.{
  Opcode, set_transform, set_paint, set_global_alpha, set_composite_mode, push_state, pop_state,
  clip_rect, draw_path, draw_image, draw_text_layout, begin_layer, end_layer, draw_render_target,
  stroke_path, draw_box_shadow, draw_rect_border, Header, field_at,
}
use haxeon.DisplayList.Effects.{EffectOp, layer_isolated}
use haxeon.DisplayList.Methods.{Bounds}
use haxeon.RenderPlan.Types.{
  RenderCommand, RenderCommandKind, RenderTargetDescriptor, default_descriptor, new_command,
  path_command, image_command, glyph_batch, composite_target, stroke_path_command,
  box_shadow_command, rect_border_command,
}
use haxeon.Compositor.Types.{
  Layer, LayerCommandValues, CanvasState, CompositorMessage, clip_overflow, self_sampling,
  invalid_layer, backdrop_overflow, effect_overflow, empty_stack,
}
use haxeon.Compositor.Reading.{read_layer}
use haxeon.Compositor.Bounds.{expand_effect_bounds, intersect_clip, apply_state}
use haxeon.Compositor.Passes.{Work, allocate, continue_pass, add_command, composite_into}
use haxeon.Compositor.Chain.{Context, apply_operations, append_mask_pass}

-- The locals of `compile`. The stacks have their top in front; `pass` is an index into the plan.
pub record Machine : Type 0 where
  pub work : Work
  pub layers : List Layer
  pub state : CanvasState
  pub states : List CanvasState
  pub target : ℕ
  pub origin_x : ℕ
  pub origin_y : ℕ
  pub pass : ℕ

module _ (fp : Arith) where
  -- A drawing command under the canvas state, put into the current pass.
  unfoldable pub draw : RenderCommand → Machine → Machine
  unfolding add_command
  draw c m = record m {
    work = add_command m.pass (apply_state fp m.state m.origin_x m.origin_y c) m.work;
  }

  unfoldable pub draw_target : List ℕ → Machine → Outcome CompositorMessage Machine
  draw_target w m =
      let source = field_at w 0 in
      let c =
        apply_state fp m.state m.origin_x m.origin_y
          (command_in composite_target source (rect_at 1 w)) in
      if source == m.target
      then err self_sampling
      else ok (record m { work = composite_into m.pass m.target c m.work })

  -- The backdrop of a layer: its result, or the empty target where there is none.
  unfoldable pub make_backdrop : LayerCommandValues → Bounds → Machine → Work → ℕ × Work
  make_backdrop v b m w =
      let context : Context = record {
        descriptor = described v.has_bounds b;
        backdrop = true;
        region = none;
        width = (bounds_if v.has_bounds b).width;
        height = (bounds_if v.has_bounds b).height;
      } in
      let region =
        if v.has_bounds
        then some (fp.sub b.x m.origin_x ∷ fp.sub b.y m.origin_y ∷ b.width ∷ b.height ∷ [])
        else none in
      if is_empty v.backdrop_effects
      then (0, w)
      else apply_operations context region v.backdrop_effects m.target w

  -- The target of a layer and its first pass, where the layer is isolated.
  unfoldable pub enter_layer : LayerCommandValues → Bool → Bounds → ℕ → Machine → Work → Machine
  enter_layer v isolated b backdrop m w =
      let (target, w1) = allocate w in
      let descriptor = described v.has_bounds v.bounds in
      let (pass, w2) = continue_pass target descriptor w1 in
      let layer : Layer = record {
        parent_target = m.target;
        layer_target = if isolated then target else m.target;
        opacity = v.opacity;
        mode = v.mode;
        bounds = v.bounds;
        has_bounds = v.has_bounds;
        parent_origin_x = m.origin_x;
        parent_origin_y = m.origin_y;
        target_descriptor = if isolated then descriptor else default_descriptor;
        effects = v.effects;
        mask = v.mask;
        has_mask = v.has_mask;
        backdrop_bounds = b;
        backdrop_target = backdrop;
        has_backdrop_target = not (is_empty v.backdrop_effects);
        isolated = isolated;
      } in
      if isolated
      then record m {
        work = w2;
        layers = layer ∷ m.layers;
        target = target;
        origin_x = (bounds_if v.has_bounds v.bounds).x;
        origin_y = (bounds_if v.has_bounds v.bounds).y;
        pass = pass;
      }
      else record m { work = w; layers = layer ∷ m.layers }

  -- Behind the three tests; `v` has its bounds widened by the effects, `b` by the backdrop's.
  unfoldable pub open_layer : LayerCommandValues → Bounds → Machine → Machine
  open_layer v b m =
      let isolated = is_isolated v in
      let (backdrop, w) = make_backdrop v b m (count_layer isolated v.has_bounds m.work) in
      enter_layer v isolated b backdrop m w

  abbrev pub expand_if : Bool → Bounds → List EffectOp → Option Bounds
  expand_if has b ops = if has then expand_effect_bounds fp b ops else some b

  unfoldable pub begin_layer_step : Header → List ℕ → Machine → Outcome CompositorMessage Machine
  begin_layer_step h w m = elim (read_layer h w) [
    | none ↦ err invalid_layer
    | some v ↦ elim (expand_if v.has_bounds v.bounds v.backdrop_effects) [
      | none ↦ err backdrop_overflow
      | some b ↦ elim (expand_if v.has_bounds v.bounds v.effects) [
        | none ↦ err effect_overflow
        | some widened ↦ ok (open_layer (record v { bounds = widened }) b m)
      ]
    ]
  ]

  -- The group that joins a layer with its backdrop.
  unfoldable pub group_layer : Layer → ℕ → Work → ℕ × Work
  group_layer l content w =
      let (group, w1) = allocate w in
      let (pass, w2) = continue_pass group l.target_descriptor w1 in
      let b = l.backdrop_bounds in
      let placed =
        bounds_if l.has_bounds
          (record b { x = fp.sub b.x l.bounds.x; y = fp.sub b.y l.bounds.y }) in
      let extent = bounds_if l.has_bounds l.bounds in
      let w3 =
        composite_into pass group (command_in composite_target l.backdrop_target placed) w2 in
      (
        group,
        composite_into pass group
            (new_command composite_target content 0 0 extent.width extent.height) w3,
      )

  -- The result of an isolated layer: its effects, its group and its mask.
  unfoldable pub finish_layer : Layer → Work → ℕ × Work
  unfolding group_layer
  finish_layer l w =
      let extent = bounds_if l.has_bounds l.bounds in
      let context : Context = record {
        descriptor = l.target_descriptor;
        backdrop = false;
        region = none;
        width = extent.width;
        height = extent.height;
      } in
      let (content, w1) = apply_operations context none l.effects l.layer_target w in
      let (whole, w2) = if l.has_backdrop_target then group_layer l content w1 else (content, w1) in
      if l.has_mask then append_mask_pass l.target_descriptor l.mask whole w2 else (whole, w2)

  -- The composite of a layer into its parent, the pass of which goes on.
  unfoldable pub close_layer : Layer → List Layer → Machine → Machine
  unfolding finish_layer
  close_layer l layers m =
      let (result, w1) = finish_layer l m.work in
      let (pass, w2) = continue_pass l.parent_target default_descriptor w1 in
      let placed = bounds_if l.has_bounds (record l.bounds {
        x = fp.sub l.bounds.x l.parent_origin_x;
        y = fp.sub l.bounds.y l.parent_origin_y;
      }) in
      let c = record (command_in composite_target result placed) {
        opacity = l.opacity;
        composite = l.mode;
        has_scissor = m.state.has_scissor;
        scissor_x = fp.sub m.state.x l.parent_origin_x;
        scissor_y = fp.sub m.state.y l.parent_origin_y;
        scissor_width = m.state.width;
        scissor_height = m.state.height;
      } in
      record m {
        work = composite_into pass l.parent_target c w2;
        layers = layers;
        target = l.parent_target;
        origin_x = l.parent_origin_x;
        origin_y = l.parent_origin_y;
        pass = pass;
      }

  unfoldable pub end_layer_step : List Layer → Machine → Outcome CompositorMessage Machine
  unfolding close_layer
  end_layer_step [] m = err empty_stack
  end_layer_step (l ∷ ls) m =
      if l.isolated then ok (close_layer l ls m) else ok (record m { layers = ls })

  abbrev pub pop_canvas : List CanvasState → Machine → Outcome CompositorMessage Machine
  pop_canvas [] m = err empty_stack
  pop_canvas (s ∷ ss) m = ok (record m { state = s; states = ss })

  abbrev pub clip_canvas : Option CanvasState → Machine → Outcome CompositorMessage Machine
  clip_canvas none m = err clip_overflow
  clip_canvas (some s) m = ok (record m { state = s })

  unfoldable pub step : Opcode → Header → List ℕ → Machine → Outcome CompositorMessage Machine
  step set_transform h w m = ok (record m { state = record m.state { transform = take 6 w } })
  step set_paint h w m = ok (record m { state = record m.state { paint = field_at w 0 } })
  step set_global_alpha h w m = ok (record m { state = record m.state { alpha = field_at w 0 } })
  step set_composite_mode h w m =
      ok (record m { state = record m.state { composite = field_at w 0 } })
  step push_state h w m = ok (record m { states = m.state ∷ m.states })
  step pop_state h w m = pop_canvas m.states m
  step clip_rect h w m = clip_canvas (intersect_clip fp m.state (rect_at 0 w)) m
  step draw_path h w m = ok (draw (new_command path_command (field_at w 0) 0 0 0 0) m)
  step stroke_path h w m = ok (draw (stroke_command w) m)
  step draw_image h w m = ok (draw (command_in image_command (field_at w 0) (rect_at 1 w)) m)
  step draw_box_shadow h w m = ok (draw (shadow_command w) m)
  step draw_rect_border h w m = ok (draw (border_command w) m)
  step draw_text_layout h w m = ok (draw (command_in glyph_batch (field_at w 0) (rect_at 1 w)) m)
  step draw_render_target h w m = draw_target w m
  step begin_layer h w m = begin_layer_step h w m
  step end_layer h w m = end_layer_step m.layers m
