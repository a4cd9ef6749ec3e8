-- ===== src/DisplayList/Validate/Spec.antt =====
-- What a well-formed display list is, without a loop: a concatenation of records, each valid by
-- itself, whose scope commands are balanced. For `validate_display_list` of
-- packages/ui/src/display_list/display_list.cpp.
use haxeon.Prelude.{
  ℕ, ◌+◌, ◌-◌, ◌%◌, ◌≤◌, ◌≡◌, ◌≢◌, ◌⊎◌, Bool, true, ◌&&◌, List, [], ◌∷◌, some, ok, arith, ◌==◌, all,
  take, length,
}
use haxeon.Float32.{Arith, is_finite, in_unit}
use haxeon.ResourceId.{ResourceKind, is_resource_id}
use haxeon.DisplayList.Wire.{
  Opcode, set_transform, set_paint, set_global_alpha, set_composite_mode, push_state, pop_state,
  clip_rect, draw_path, draw_image, draw_text_layout, begin_layer, end_layer, draw_render_target,
  stroke_path, draw_box_shadow, draw_rect_border, Header, field_at, header_size, read_header,
  fields, opcode_of, opcode_code,
}
use haxeon.DisplayList.Effects.{valid_rect, valid_composite}
use haxeon.DisplayList.Commands.{
  Depths, max_scope_depth, layer_command_version, transform_size, one_field_size, scope_size,
  clip_size, box_shadow_size, rect_border_size, valid_box_shadow, valid_layer, valid_draw_resource,
  valid_stroke, valid_rect_border, check_opcode,
}

-- The depths at which a command may stand, and those behind it.
abbrev pub Allowed : Opcode → Depths → Type 0
Allowed push_state d = d.states ≢ max_scope_depth
Allowed pop_state d = d.states ≢ 0
Allowed begin_layer d = d.layers ≢ max_scope_depth
Allowed end_layer d = d.layers ≢ 0
Allowed _ d = Unit {0}

abbrev pub behind : Opcode → Depths → Depths
behind push_state d = record d { states = d.states + 1 }
behind pop_state d = record d { states = d.states - 1 }
behind begin_layer d = record d { layers = d.layers + 1 }
behind end_layer d = record d { layers = d.layers - 1 }
behind _ d = d

module _ (fp : Arith) where
  -- The parameters of a command, whatever the depths.
  unfoldable pub well_formed : Opcode → Header → List ℕ → Bool
  well_formed set_transform h w = h.size == transform_size && all is_finite (take 6 w)
  well_formed set_paint h w =
      h.size == one_field_size && is_resource_id (field_at w 0) ResourceKind.paint
  well_formed set_global_alpha h w =
      h.size == one_field_size && is_finite (field_at w 0) && in_unit (field_at w 0)
  well_formed set_composite_mode h w = h.size == one_field_size && valid_composite (field_at w 0)
  well_formed push_state h w = h.size == scope_size
  well_formed pop_state h w = h.size == scope_size
  well_formed clip_rect h w =
      h.size == clip_size && valid_rect (field_at w 0) (field_at w 1) (field_at w 2) (field_at w 3)
  well_formed draw_path h w =
      h.size == one_field_size && is_resource_id (field_at w 0) ResourceKind.path
  well_formed stroke_path h w = valid_stroke h.size w
  well_formed draw_box_shadow h w = h.size == box_shadow_size && valid_box_shadow w
  well_formed draw_rect_border h w = h.size == rect_border_size && valid_rect_border fp w
  well_formed draw_image h w = valid_draw_resource h.size w ResourceKind.image
  well_formed draw_text_layout h w = valid_draw_resource h.size w ResourceKind.text_layout
  well_formed draw_render_target h w = valid_draw_resource h.size w ResourceKind.render_target
  well_formed begin_layer h w = valid_layer h w
  well_formed end_layer h w = h.size == scope_size

  -- `r` is one whole record of the command `o`.
  pub record IsRecord (o : Opcode) (r : List ℕ) : Type 0 where
    pub known : opcode_of (read_header r).opcode ≡ some o
    pub version :
        ((read_header r).version ≡ 1)
        ⊎ (((read_header r).opcode ≡ opcode_code begin_layer)
            × ((read_header r).version ≡ layer_command_version))
    pub size : (read_header r).size ≡ length r
    pub long : header_size ≤ length r
    pub aligned : length r % 4 ≡ 0
    pub formed : well_formed o (read_header r) (fields r) ≡ true

  -- The records `rs` lead from the depths `d` to the depths `e`.
  abbrev pub Stream : List (List ℕ) → Depths → Depths → Type 0
  Stream [] d e = d ≡ e
  Stream (r ∷ rs) d e = (o : Opcode) × IsRecord o r × Allowed o d × Stream rs (behind o d) e

  -- The `switch` accepts exactly what is well formed and allowed.
  pub check_opcode_sound :
      (o : Opcode) (h : Header) (w : List ℕ) (d e : Depths)
      → check_opcode fp o h w d ≡ ok e
      → (well_formed o h w ≡ true) × Allowed o d × (e ≡ behind o d)
  unfolding check_opcode well_formed
  check_opcode_sound set_transform h w d e p = (ground arith, ground arith, ground arith)
  check_opcode_sound o h w d e p = (ground arith, ground arith, ground arith)

  pub check_opcode_complete :
      (o : Opcode) (h : Header) (w : List ℕ) (d : Depths)
      → well_formed o h w ≡ true
      → Allowed o d
      → check_opcode fp o h w d ≡ ok (behind o d)
  unfolding check_opcode well_formed
  check_opcode_complete set_transform h w d f a = ground arith
  check_opcode_complete o h w d f a = ground arith
