-- ===== src/DisplayList/Methods.antt =====
-- The methods of the class `DisplayList` in packages/ui/src/display_list/display_list.cpp. Each
-- one writes a single record; a `Call` is a method with its arguments.
pub mod Proper
pub mod Accepted
pub mod Build
use haxeon.Prelude.{
  ℕ, Bool, true, ◌&&◌, List, [], ◌∷◌, ◌++◌, Option, none, length, replicate, leb, ◌==◌,
  if◌then◌else◌,
}
use haxeon.Float32.{Arith}
use haxeon.DisplayList.Wire.{Opcode, encode}
use haxeon.DisplayList.Effects.{
  EffectDescriptor, CustomEffectDescriptor, EffectOpCommand, MaskDescriptor, LayerBase, effect_none,
  effect_custom, effect_program_max_ops, default_custom,
}
use haxeon.DisplayList.Commands.{layer_command_version, valid_box_shadow, valid_rect_border}
use haxeon.DisplayList.Layers.{layer_words}
use haxeon.DisplayList.Buffer.{DisplayList, append}

-- `LayerBounds`
pub record Bounds : Type 0 where
  pub x : ℕ
  pub y : ℕ
  pub width : ℕ
  pub height : ℕ

-- The overloads of `begin_layer`. The opacity stands first and the composite mode last.
pub data LayerCall : Type 0 where
  plain : ℕ → ℕ → LayerCall
  bounded : ℕ → Bounds → ℕ → LayerCall
  with_effect : ℕ → EffectDescriptor → ℕ → LayerCall
  bounded_effect : ℕ → Bounds → EffectDescriptor → ℕ → LayerCall
  with_mask : ℕ → MaskDescriptor → ℕ → LayerCall
  bounded_mask : ℕ → Bounds → MaskDescriptor → ℕ → LayerCall
  bounded_effect_mask : ℕ → Bounds → EffectDescriptor → MaskDescriptor → ℕ → LayerCall
  bounded_backdrop :
      ℕ → Bounds → EffectDescriptor → MaskDescriptor → EffectDescriptor → ℕ → LayerCall
  program :
      ℕ → Bounds → List EffectOpCommand → MaskDescriptor → List EffectOpCommand → ℕ → LayerCall
  with_backdrop : ℕ → EffectDescriptor → MaskDescriptor → EffectDescriptor → ℕ → LayerCall
  with_custom : ℕ → CustomEffectDescriptor → ℕ → LayerCall
  bounded_custom : ℕ → Bounds → CustomEffectDescriptor → ℕ → LayerCall

-- What an overload hands to `append_layer`.
pub record LayerParts : Type 0 where
  pub base : LayerBase
  pub mask : MaskDescriptor
  pub foreground : List EffectOpCommand
  pub backdrop : List EffectOpCommand

unfoldable pub effect_operation : EffectDescriptor → EffectOpCommand
effect_operation e = record {
  kind = e.kind;
  color_matrix = e.color_matrix;
  custom = default_custom;
}

unfoldable pub custom_operation : CustomEffectDescriptor → EffectOpCommand
custom_operation c = record { kind = effect_custom; color_matrix = replicate 20 0; custom = c }

-- One operation, or none for the effect `None`.
unfoldable pub operations_of : EffectDescriptor → List EffectOpCommand
unfolding effect_operation
operations_of e = if e.kind == effect_none then [] else effect_operation e ∷ []

-- The mask of `MaskDescriptor{}`.
abbrev pub no_mask : MaskDescriptor
no_mask = record { kind = 0; image = 0; values = replicate 8 0 }

-- A value-initialised record, `LayerIsolated` alone, and `LayerIsolated | LayerHasBounds`.
abbrev pub plain_base : ℕ → ℕ → LayerBase
plain_base opacity mode = record {
  opacity = opacity;
  mode = mode;
  x = 0;
  y = 0;
  width = 0;
  height = 0;
  flags = 0;
}

abbrev pub isolated_base : ℕ → ℕ → LayerBase
isolated_base opacity mode = record (plain_base opacity mode) { flags = 1 }

abbrev pub bounded_base : ℕ → Bounds → ℕ → LayerBase
bounded_base opacity b mode = record {
  opacity = opacity;
  mode = mode;
  x = b.x;
  y = b.y;
  width = b.width;
  height = b.height;
  flags = 3;
}

abbrev parts_of :
    LayerBase → MaskDescriptor → List EffectOpCommand → List EffectOpCommand → LayerParts
parts_of base mask fg bg = record { base = base; mask = mask; foreground = fg; backdrop = bg }

unfoldable pub parts : LayerCall → LayerParts
parts (plain o m) = parts_of (plain_base o m) no_mask [] []
parts (bounded o b m) = parts_of (bounded_base o b m) no_mask [] []
parts (with_effect o e m) = parts_of (isolated_base o m) no_mask (operations_of e) []
parts (bounded_effect o b e m) = parts_of (bounded_base o b m) no_mask (operations_of e) []
parts (with_mask o k m) = parts_of (isolated_base o m) k [] []
parts (bounded_mask o b k m) = parts_of (bounded_base o b m) k [] []
parts (bounded_effect_mask o b e k m) = parts_of (bounded_base o b m) k (operations_of e) []
parts (bounded_backdrop o b e k f m) =
    parts_of (bounded_base o b m) k (operations_of e) (operations_of f)
parts (program o b fg k bg m) = parts_of (bounded_base o b m) k fg bg
parts (with_backdrop o e k f m) = parts_of (isolated_base o m) k (operations_of e) (operations_of f)
parts (with_custom o c m) = parts_of (isolated_base o m) no_mask (custom_operation c ∷ []) []
parts (bounded_custom o b c m) = parts_of (bounded_base o b m) no_mask (custom_operation c ∷ []) []

pub data Call : Type 0 where
  set_transform : List ℕ → Call
  set_paint set_global_alpha set_composite_mode draw_path : ℕ → Call
  push_state pop_state end_layer : Call
  clip_rect : Bounds → Call
  stroke_path : ℕ → ℕ → ℕ → ℕ → ℕ → Call
  draw_image draw_render_target : ℕ → Bounds → Call
  draw_text_layout : ℕ → ℕ → ℕ → Call
  begin_layer : LayerCall → Call
  -- bounds, border width and colour
  draw_rect_border : Bounds → ℕ → List ℕ → Call
  -- bounds, offsets, blur, spread, radii and colour
  draw_box_shadow : Bounds → ℕ → ℕ → ℕ → ℕ → List ℕ → List ℕ → Call

abbrev pub call_opcode : Call → Opcode
call_opcode (set_transform _) = Opcode.set_transform
call_opcode (set_paint _) = Opcode.set_paint
call_opcode (set_global_alpha _) = Opcode.set_global_alpha
call_opcode (set_composite_mode _) = Opcode.set_composite_mode
call_opcode (draw_path _) = Opcode.draw_path
call_opcode push_state = Opcode.push_state
call_opcode pop_state = Opcode.pop_state
call_opcode end_layer = Opcode.end_layer
call_opcode (clip_rect _) = Opcode.clip_rect
call_opcode (stroke_path _ _ _ _ _) = Opcode.stroke_path
call_opcode (draw_image _ _) = Opcode.draw_image
call_opcode (draw_render_target _ _) = Opcode.draw_render_target
call_opcode (draw_text_layout _ _ _) = Opcode.draw_text_layout
call_opcode (begin_layer _) = Opcode.begin_layer
call_opcode (draw_rect_border _ _ _) = Opcode.draw_rect_border
call_opcode (draw_box_shadow _ _ _ _ _ _ _) = Opcode.draw_box_shadow

abbrev pub call_version : Call → ℕ
call_version (begin_layer _) = layer_command_version
call_version _ = 1

abbrev rect_words : Bounds → List ℕ
rect_words b = b.x ∷ b.y ∷ b.width ∷ b.height ∷ []

-- The fields that the method sets; what it leaves out is zero.
unfoldable pub call_words : Call → List ℕ
unfolding parts
call_words (set_transform matrix) = matrix
call_words (set_paint paint) = paint ∷ []
call_words (set_global_alpha alpha) = alpha ∷ []
call_words (set_composite_mode mode) = mode ∷ []
call_words (draw_path path) = path ∷ []
call_words push_state = []
call_words pop_state = []
call_words end_layer = []
call_words (clip_rect b) = rect_words b
call_words (stroke_path path width cap join miter) = path ∷ width ∷ cap ∷ join ∷ miter ∷ []
call_words (draw_image image b) = image ∷ rect_words b
call_words (draw_render_target target b) = target ∷ rect_words b
call_words (draw_text_layout layout x y) = layout ∷ x ∷ y ∷ 0 ∷ 0 ∷ []
call_words (begin_layer l) = let p = parts l in layer_words p.base p.mask p.foreground p.backdrop
call_words (draw_rect_border b border color) = rect_words b ++ (border ∷ color)
call_words (draw_box_shadow b dx dy blur spread radii color) =
    rect_words b ++ (dx ∷ dy ∷ blur ∷ spread ∷ (radii ++ color))

unfoldable pub call_record : Call → List ℕ
unfolding call_words
call_record c = encode (call_opcode c) (call_version c) (call_words c)

module _ (fp : Arith) where
  -- The tests that a method makes before it appends. The colour and radius pointers are not null.
  unfoldable pub admits : Call → Bool
  unfolding call_words
  admits (begin_layer l) =
      leb (length (parts l).foreground) effect_program_max_ops
      && leb (length (parts l).backdrop) effect_program_max_ops
  admits (draw_rect_border b border color) =
      valid_rect_border fp (call_words (draw_rect_border b border color))
  admits (draw_box_shadow b dx dy blur spread radii color) =
      valid_box_shadow (call_words (draw_box_shadow b dx dy blur spread radii color))
  admits _ = true

  -- The method on a list; `none` where it returns false, and leaves the list alone.
  unfoldable pub invoke : Call → DisplayList → Option DisplayList
  unfolding admits call_record append
  invoke c dl = if admits c then append dl (call_record c) else none
