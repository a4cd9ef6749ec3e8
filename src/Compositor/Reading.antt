-- ===== src/Compositor/Reading.antt =====
-- `read_layer` of packages/ui/src/compositor/compositor.cpp: what a `BeginLayer` record asks for.
pub mod Valid
use haxeon.Prelude.{
  ℕ, ◌+◌, ◌*◌, Bool, false, ◌&&◌, not, List, [], ◌∷◌, Option, none, some, leb, ◌==◌, if◌then◌else◌,
  drop,
}
use haxeon.DisplayList.Wire.{Header}
use haxeon.DisplayList.Effects.{
  EffectDescriptor, EffectOpCommand, EffectOp, MaskDescriptor, LayerBase, read_base, read_mask,
  read_effect, read_custom, effect_none, layer_has_bounds, decode_effect_op,
}
use haxeon.DisplayList.Commands.{
  layer_command_version, begin_layer_size, effect_op_size, layer_unbounded_v1_size, layer_v1_size,
  layer_effect_v1_size, layer_mask_v1_size, layer_backdrop_v1_size, layer_custom_v1_size,
  read_operations, foreground_count, backdrop_count,
}
use haxeon.DisplayList.Methods.{effect_operation, custom_operation}
use haxeon.Compositor.Types.{LayerCommandValues}

-- The loops of `add_operation`, which stop at the first operation that does not decode.
unfoldable pub decode_all : List EffectOpCommand → Option (List EffectOp)
decode_all [] = some []
decode_all (c ∷ cs) = elim (decode_effect_op c) [
  | none ↦ none
  | some op ↦ elim (decode_all cs) [ none ↦ none | some ops ↦ some (op ∷ ops) ]
]

-- `set_base` with the effects and the mask.
abbrev pub layer_values :
    LayerBase → List EffectOp → List EffectOp → MaskDescriptor → LayerCommandValues
layer_values v effects backdrop mask = record {
  opacity = v.opacity;
  mode = v.mode;
  bounds = record { x = v.x; y = v.y; width = v.width; height = v.height };
  flags = v.flags;
  has_bounds = layer_has_bounds v.flags;
  effects = effects;
  backdrop_effects = backdrop;
  mask = mask;
  has_mask = not (mask.kind == 0);
}

-- A base with the effects and the backdrop effects still to decode.
unfoldable pub decode_layer :
    LayerBase
    → List EffectOpCommand
    → List EffectOpCommand
    → MaskDescriptor
    → Option LayerCommandValues
decode_layer v effects backdrop mask = elim (decode_all effects) [
  | none ↦ none
  | some fg ↦ elim (decode_all backdrop) [
    | none ↦ none
    | some bg ↦ some (layer_values v fg bg mask)
  ]
]

-- `wire_operation`, unless the effect is `None`.
unfoldable pub wire_operations : EffectDescriptor → List EffectOpCommand
wire_operations e = if e.kind == effect_none then [] else effect_operation e ∷ []

abbrev pub empty_mask : MaskDescriptor
empty_mask = record { kind = 0; image = 0; values = 0 ∷ 0 ∷ 0 ∷ 0 ∷ 0 ∷ 0 ∷ 0 ∷ 0 ∷ [] }

abbrev pub unbounded_base : List ℕ → LayerBase
unbounded_base w =
    let v = read_base w in
    record { opacity = v.opacity; mode = v.mode; x = 0; y = 0; width = 0; height = 0; flags = 0 }

-- `w` are the fields of the record, which lie behind its header.
unfoldable pub read_layer_v2 : ℕ → List ℕ → Option LayerCommandValues
unfolding decode_layer
read_layer_v2 size w =
    let fg = foreground_count w in
    let bg = backdrop_count w in
    if size == begin_layer_size + (fg + bg) * effect_op_size
    then decode_layer (read_base w) (read_operations fg (drop 19 w))
        (read_operations bg (drop (19 + 49 * fg) w)) (read_mask (drop 7 w))
    else none

unfoldable pub read_layer_v1 : ℕ → List ℕ → Option LayerCommandValues
unfolding decode_layer wire_operations
read_layer_v1 size w =
    if size == layer_unbounded_v1_size
    then some (layer_values (unbounded_base w) [] [] empty_mask)
    else if size == layer_v1_size
    then some (layer_values (read_base w) [] [] empty_mask)
    else if size == layer_effect_v1_size
    then decode_layer (read_base w) (wire_operations (read_effect (drop 7 w))) [] empty_mask
    else if size == layer_mask_v1_size
    then decode_layer (read_base w) (wire_operations (read_effect (drop 7 w))) []
        (read_mask (drop 28 w))
    else if size == layer_backdrop_v1_size
    then decode_layer (read_base w) (wire_operations (read_effect (drop 7 w)))
        (wire_operations (read_effect (drop 38 w))) (read_mask (drop 28 w))
    else if size == layer_custom_v1_size
    then decode_layer (read_base w) (custom_operation (read_custom (drop 7 w)) ∷ []) [] empty_mask
    else none

unfoldable pub read_layer : Header → List ℕ → Option LayerCommandValues
unfolding read_layer_v2 read_layer_v1
read_layer h w =
    if leb begin_layer_size h.size && h.version == layer_command_version
    then read_layer_v2 h.size w
    else if h.version == 1
    then read_layer_v1 h.size w
    else none
