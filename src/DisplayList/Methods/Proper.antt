-- ===== src/DisplayList/Methods/Proper.antt =====
-- Arguments that a method of `DisplayList` (packages/ui/src/display_list/display_list.cpp) is meant
-- for: finite numbers, handles of the right kind, parameters in range.
use haxeon.Prelude.{
  ℕ, ◌≤◌, ◌≡◌, ◌⊎◌, refl, inl, inr, true, ◌&&◌, List, [], ◌∷◌, arith, length, all, not,
}
use haxeon.Float32.{is_finite, flt, fle, in_unit, float_zero, float_one}
use haxeon.ResourceId.{ResourceKind, is_resource_id}
use haxeon.DisplayList.Effects.{
  EffectDescriptor, CustomEffectDescriptor, EffectOpCommand, MaskDescriptor, effect_program_max_ops,
  valid_rect, valid_composite, valid_custom_effect_descriptor, valid_effect, valid_effect_op,
  valid_mask, valid_layer_base, layer_isolated,
}
use haxeon.DisplayList.Commands.{valid_line_cap, valid_line_join}
use haxeon.DisplayList.Layers.{AllSized}
use haxeon.DisplayList.Methods.{
  Bounds, LayerCall, LayerParts, parts, operations_of, custom_operation, Call, plain, bounded,
  with_effect, bounded_effect, with_mask, bounded_mask, bounded_effect_mask, bounded_backdrop,
  program, with_backdrop, with_custom, bounded_custom, no_mask, plain_base, isolated_base,
  bounded_base,
}

abbrev pub ProperStart : ℕ → ℕ → Type 0
ProperStart opacity mode =
    (is_finite opacity ≡ true)
    × (fle float_zero opacity ≡ true)
    × (fle opacity float_one ≡ true)
    × (valid_composite mode ≡ true)

abbrev pub ProperBounds : Bounds → Type 0
ProperBounds b =
    (valid_rect b.x b.y b.width b.height ≡ true)
    × (flt float_zero b.width ≡ true)
    × (flt float_zero b.height ≡ true)

abbrev pub ProperEffect : EffectDescriptor → Type 0
ProperEffect e = (valid_effect e ≡ true) × (length e.color_matrix ≡ 20)

abbrev pub ProperCustom : CustomEffectDescriptor → Type 0
ProperCustom c =
    (valid_custom_effect_descriptor c ≡ true)
    × (length c.ink_overflow ≡ 4)
    × (length c.parameters ≡ 20)

abbrev pub ProperMask : MaskDescriptor → Type 0
ProperMask k = (valid_mask k ≡ true) × (length k.values ≡ 8)

abbrev pub ProperOps : List EffectOpCommand → Type 0
ProperOps ops =
    (all valid_effect_op ops ≡ true) × AllSized ops × (length ops ≤ effect_program_max_ops)

abbrev pub ProperLayer : LayerCall → Type 0
ProperLayer (plain o m) = ProperStart o m
ProperLayer (bounded o b m) = ProperStart o m × ProperBounds b
ProperLayer (with_effect o e m) = ProperStart o m × ProperEffect e
ProperLayer (bounded_effect o b e m) = ProperStart o m × ProperBounds b × ProperEffect e
ProperLayer (with_mask o k m) = ProperStart o m × ProperMask k
ProperLayer (bounded_mask o b k m) = ProperStart o m × ProperBounds b × ProperMask k
ProperLayer (bounded_effect_mask o b e k m) =
    ProperStart o m × ProperBounds b × ProperEffect e × ProperMask k
ProperLayer (bounded_backdrop o b e k f m) =
    ProperStart o m × ProperBounds b × ProperEffect e × ProperMask k × ProperEffect f
ProperLayer (program o b fg k bg m) =
    ProperStart o m × ProperBounds b × ProperOps fg × ProperMask k × ProperOps bg
ProperLayer (with_backdrop o e k f m) =
    ProperStart o m × ProperEffect e × ProperMask k × ProperEffect f
ProperLayer (with_custom o c m) = ProperStart o m × ProperCustom c
ProperLayer (bounded_custom o b c m) = ProperStart o m × ProperBounds b × ProperCustom c

-- What the validation of a layer record asks of its parts.
pub record ProperParts (p : LayerParts) : Type 0 where
  pub base : valid_layer_base p.base ≡ true
  pub mask : ProperMask p.mask
  pub foreground : ProperOps p.foreground
  pub backdrop : ProperOps p.backdrop
  pub isolated :
      ((length p.foreground ≡ 0) × (length p.backdrop ≡ 0)) ⊎ (layer_isolated p.base.flags ≡ true)

operations_of-Proper : (e : EffectDescriptor) → ProperEffect e → ProperOps (operations_of e)
unfolding operations_of valid_effect_op valid_effect
operations_of-Proper e (v, n) = ground arith

custom_operation-Proper :
    (c : CustomEffectDescriptor) → ProperCustom c → ProperOps (custom_operation c ∷ [])
unfolding custom_operation valid_effect_op
custom_operation-Proper c v = ground arith

plain_base-valid : (o m : ℕ) → ProperStart o m → valid_layer_base (plain_base o m) ≡ true
unfolding valid_layer_base
plain_base-valid o m h = ground arith

isolated_base-valid : (o m : ℕ) → ProperStart o m → valid_layer_base (isolated_base o m) ≡ true
unfolding valid_layer_base
isolated_base-valid o m h = ground arith

bounded_base-valid :
    (o : ℕ) (b : Bounds) (m : ℕ)
    → ProperStart o m
    → ProperBounds b
    → valid_layer_base (bounded_base o b m) ≡ true
unfolding valid_layer_base
bounded_base-valid o b m h k = ground arith

no_mask-Proper : ProperMask no_mask
unfolding valid_mask
no_mask-Proper = (refl, refl)

no_ops-Proper : ProperOps []
no_ops-Proper = (refl, tt, omega arith)

-- Every overload hands valid parts on, if its arguments are proper.
pub parts-Proper : (l : LayerCall) → ProperLayer l → ProperParts (parts l)
unfolding parts
parts-Proper (plain o m) h = record {
  base = plain_base-valid o m h;
  mask = no_mask-Proper;
  foreground = no_ops-Proper;
  backdrop = no_ops-Proper;
  isolated = inl (refl, refl);
}
parts-Proper (bounded o b m) (h, hb) = record {
  base = bounded_base-valid o b m h hb;
  mask = no_mask-Proper;
  foreground = no_ops-Proper;
  backdrop = no_ops-Proper;
  isolated = inr refl;
}
parts-Proper (with_effect o e m) (h, he) = record {
  base = isolated_base-valid o m h;
  mask = no_mask-Proper;
  foreground = operations_of-Proper e he;
  backdrop = no_ops-Proper;
  isolated = inr refl;
}
parts-Proper (bounded_effect o b e m) (h, hb, he) = record {
  base = bounded_base-valid o b m h hb;
  mask = no_mask-Proper;
  foreground = operations_of-Proper e he;
  backdrop = no_ops-Proper;
  isolated = inr refl;
}
parts-Proper (with_mask o k m) (h, hk) = record {
  base = isolated_base-valid o m h;
  mask = hk;
  foreground = no_ops-Proper;
  backdrop = no_ops-Proper;
  isolated = inr refl;
}
parts-Proper (bounded_mask o b k m) (h, hb, hk) = record {
  base = bounded_base-valid o b m h hb;
  mask = hk;
  foreground = no_ops-Proper;
  backdrop = no_ops-Proper;
  isolated = inr refl;
}
parts-Proper (bounded_effect_mask o b e k m) (h, hb, he, hk) = record {
  base = bounded_base-valid o b m h hb;
  mask = hk;
  foreground = operations_of-Proper e he;
  backdrop = no_ops-Proper;
  isolated = inr refl;
}
parts-Proper (bounded_backdrop o b e k f m) (h, hb, he, hk, hf) = record {
  base = bounded_base-valid o b m h hb;
  mask = hk;
  foreground = operations_of-Proper e he;
  backdrop = operations_of-Proper f hf;
  isolated = inr refl;
}
parts-Proper (program o b fg k bg m) (h, hb, hf, hk, hg) = record {
  base = bounded_base-valid o b m h hb;
  mask = hk;
  foreground = hf;
  backdrop = hg;
  isolated = inr refl;
}
parts-Proper (with_backdrop o e k f m) (h, he, hk, hf) = record {
  base = isolated_base-valid o m h;
  mask = hk;
  foreground = operations_of-Proper e he;
  backdrop = operations_of-Proper f hf;
  isolated = inr refl;
}
parts-Proper (with_custom o c m) (h, hc) = record {
  base = isolated_base-valid o m h;
  mask = no_mask-Proper;
  foreground = custom_operation-Proper c hc;
  backdrop = no_ops-Proper;
  isolated = inr refl;
}
parts-Proper (bounded_custom o b c m) (h, hb, hc) = record {
  base = bounded_base-valid o b m h hb;
  mask = no_mask-Proper;
  foreground = custom_operation-Proper c hc;
  backdrop = no_ops-Proper;
  isolated = inr refl;
}

-- The arguments of a method.
abbrev pub Proper : Call → Type 0
Proper (Call.set_transform matrix) = (length matrix ≡ 6) × (all is_finite matrix ≡ true)
Proper (Call.set_paint p) = is_resource_id p ResourceKind.paint ≡ true
Proper (Call.set_global_alpha a) = (is_finite a ≡ true) × (in_unit a ≡ true)
Proper (Call.set_composite_mode m) = valid_composite m ≡ true
Proper (Call.draw_path p) = is_resource_id p ResourceKind.path ≡ true
Proper (Call.clip_rect b) = valid_rect b.x b.y b.width b.height ≡ true
Proper (Call.stroke_path p width cap join miter) =
    (is_resource_id p ResourceKind.path ≡ true)
    × (is_finite width && not (fle width float_zero) ≡ true)
    × (valid_line_cap cap ≡ true)
    × (valid_line_join join ≡ true)
    × (is_finite miter && not (fle miter float_zero) ≡ true)
Proper (Call.draw_image i b) =
    (is_resource_id i ResourceKind.image ≡ true) × (valid_rect b.x b.y b.width b.height ≡ true)
Proper (Call.draw_render_target t b) =
    (is_resource_id t ResourceKind.render_target ≡ true)
    × (valid_rect b.x b.y b.width b.height ≡ true)
Proper (Call.draw_text_layout l x y) =
    (is_resource_id l ResourceKind.text_layout ≡ true) × (is_finite x ≡ true) × (is_finite y ≡ true)
Proper (Call.begin_layer l) = ProperLayer l
Proper (Call.draw_rect_border b border color) = length color ≡ 4
Proper (Call.draw_box_shadow b dx dy blur spread radii color) =
    (length radii ≡ 4) × (length color ≡ 4)
Proper _ = Unit {0}
