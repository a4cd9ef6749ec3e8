-- ===== src/Examples/Layers.antt =====
-- Layers with a backdrop in display lists (packages/ui/src/display_list/display_list.cpp).
use mathlib.Core.List.{flatten}
use haxeon.Prelude.{
  ℕ, ◌+◌, ◌*◌, ◌≡◌, inl, inr, refl, true, false, not, List, [], ◌∷◌, arith, length, drop, replicate,
  all, sym, take-all,
}
use haxeon.Float32.{float_one, is_finite, flt, fle}
use haxeon.DisplayList.Wire.{Opcode, encode, read_header, fields, opcode_of}
use haxeon.DisplayList.Effects.{
  EffectDescriptor, LayerBase, EffectOpCommand, read_base, read_mask, default_custom, effect_none,
  effect_blur, valid_composite, valid_effect, valid_effect_kind, valid_effect_op, valid_mask,
  valid_mask_kind, valid_layer_base,
}
use haxeon.DisplayList.Commands.{
  read_operations, valid_layer, valid_layer_v2, valid_layer_backdrop_v1,
}
use haxeon.DisplayList.Buffer.{DisplayList, contents}
use haxeon.DisplayList.Layers.{
  IsSized, layer_words, operation_words, operations_words, read-layer_words,
}
use haxeon.DisplayList.Validate.{outset}
use haxeon.DisplayList.Validate.Spec.{IsRecord, Stream, well_formed}
use haxeon.DisplayList.Methods.{
  LayerCall, begin_layer, end_layer, with_backdrop, call_record, no_mask, parts, operations_of,
}
use haxeon.DisplayList.Methods.Proper.{ProperParts, parts-Proper}
use haxeon.DisplayList.Queries.{has_backdrop_effects}
use haxeon.DisplayList.Queries.Backdrop.{
  any, is_backdrop_layer, is_empty_backdrop_v1, has_backdrop_effects-any,
  has_backdrop_effects_misses,
}
use haxeon.Examples.Plans.{plain_arith}

abbrev blur : EffectDescriptor
blur = record { kind = effect_blur; color_matrix = float_one ∷ replicate 19 0 }

abbrev no_effect : EffectDescriptor
no_effect = record { kind = effect_none; color_matrix = replicate 20 0 }

abbrev base : LayerBase
base = record { opacity = float_one; mode = 1; x = 0; y = 0; width = 0; height = 0; flags = 1 }

abbrev operation : EffectOpCommand
operation = record { kind = effect_blur; color_matrix = blur.color_matrix; custom = default_custom }

operation-IsSized : IsSized operation
operation-IsSized = record { matrix = refl; overflow = refl; parameters = refl }

read-layer_words_example :
    let w = layer_words base no_mask (operation ∷ []) [] in
    (read_base w ≡ base)
    × (read_mask (drop 7 w) ≡ no_mask)
    × (drop 17 w ≡ 1 ∷ 0 ∷ operations_words (operation ∷ []))
    × (read_operations (1 + 0) (drop 19 w) ≡ operation ∷ [])
    × (length w ≡ 19 + 49 * (1 + 0))
read-layer_words_example =
    read-layer_words base no_mask (operation ∷ []) [] refl (operation-IsSized, tt) tt

abbrev blurred : LayerCall
blurred = with_backdrop float_one no_effect no_mask blur 1

parts-Proper_example : ProperParts (parts blurred)
unfolding valid_effect valid_effect_kind valid_mask valid_mask_kind is_finite flt fle
    valid_composite
parts-Proper_example =
    parts-Proper blurred ((refl, refl, refl, refl), (refl, refl), (refl, refl), (refl, refl))

-- A version 1 layer whose backdrop effect is `None`.
abbrev empty_v1 : List ℕ
empty_v1 = encode Opcode.begin_layer 1 (float_one ∷ 1 ∷ replicate 57 0)

abbrev blurred_record : List ℕ
blurred_record = call_record (begin_layer blurred)

abbrev end_record : List ℕ
end_record = call_record end_layer

end_record-IsRecord : IsRecord plain_arith Opcode.end_layer end_record
unfolding call_record encode read_header opcode_of well_formed
end_record-IsRecord = record {
  known = refl;
  version = inl refl;
  size = refl;
  long = omega arith;
  aligned = refl;
  formed = refl;
}

blurred_record-IsRecord : IsRecord plain_arith Opcode.begin_layer blurred_record
unfolding call_record encode read_header fields opcode_of well_formed valid_layer layer_words
    operations_words operations_of operation_words valid_layer_v2 valid_layer_base is_finite fle
    valid_mask valid_effect_op flt
blurred_record-IsRecord = record {
  known = refl;
  version = inr (refl, refl);
  size = refl;
  long = omega arith;
  aligned = refl;
  formed = refl;
}

empty_v1-IsRecord : IsRecord plain_arith Opcode.begin_layer empty_v1
unfolding encode read_header fields opcode_of well_formed valid_layer valid_layer_backdrop_v1
    valid_layer_base is_finite fle valid_effect valid_mask
empty_v1-IsRecord = record {
  known = refl;
  version = inl refl;
  size = refl;
  long = omega arith;
  aligned = refl;
  formed = refl;
}

abbrev later : List (List ℕ)
later = blurred_record ∷ end_record ∷ []

later-Stream : Stream plain_arith later outset outset
later-Stream = (
  Opcode.begin_layer,
  blurred_record-IsRecord,
  ground arith,
  (Opcode.end_layer, end_record-IsRecord, ground arith, refl),
)

abbrev missed : List (List ℕ)
missed = empty_v1 ∷ end_record ∷ later

missed-Stream : Stream plain_arith missed outset outset
missed-Stream = (
  Opcode.begin_layer,
  empty_v1-IsRecord,
  ground arith,
  (Opcode.end_layer, end_record-IsRecord, ground arith, later-Stream),
)

abbrev list_of : List (List ℕ) → DisplayList
list_of rs = record {
  bytes = flatten rs;
  size = length (flatten rs);
  growth_count = 0;
  command_count = length rs;
}

whole : (rs : List (List ℕ)) → flatten rs ≡ contents (list_of rs)
unfolding contents
whole rs = sym (take-all (length (flatten rs)) (flatten rs) (omega arith))

later_plain : all (λ r. not (is_empty_backdrop_v1 r)) later ≡ true
unfolding is_empty_backdrop_v1 call_record encode read_header fields layer_words operations_words
later_plain = refl

missed_empty : is_empty_backdrop_v1 empty_v1 ≡ true
unfolding is_empty_backdrop_v1 encode read_header fields
missed_empty = refl

has_backdrop_effects-any_example :
    has_backdrop_effects (list_of later) ≡ any is_backdrop_layer later
has_backdrop_effects-any_example =
    has_backdrop_effects-any plain_arith (list_of later) later outset outset (omega arith)
      (whole later) later-Stream later_plain

has_backdrop_effects_misses_example : has_backdrop_effects (list_of missed) ≡ false
has_backdrop_effects_misses_example =
    has_backdrop_effects_misses plain_arith (list_of missed) [] empty_v1 (end_record ∷ later) outset
      outset (omega arith) (whole missed) missed-Stream refl missed_empty
