-- ===== src/DisplayList/Effects/Decode.antt =====
-- `decode_effect_op` of packages/ui/src/display_list/display_list.cpp against the validation.
use haxeon.Prelude.{
  ◌≡◌, ◌⊎◌, inl, inr, refl, true, false, some, none, arith, ◌==◌, if◌then◌else◌, take, drop,
  Bool-cases,
}
use haxeon.Float32.{flt, float_zero}
use haxeon.DisplayList.Effects.{
  EffectOpCommand, EffectOp, default_op, effect_color_matrix, effect_blur, effect_drop_shadow,
  valid_effect, valid_effect_op, decode_effect_op,
}
use haxeon.DisplayList.Wire.{field_at}

-- What a valid operation decodes to.
abbrev meant : EffectOpCommand → EffectOp
meant c =
    let m = c.color_matrix in
    let blank = default_op c.kind in
    if c.kind == effect_color_matrix
    then record blank { color_matrix = m }
    else if c.kind == effect_blur
    then record blank { blur_sigma = field_at m 0 }
    else if c.kind == effect_drop_shadow
    then record blank {
      shadow_sigma = field_at m 0;
      shadow_offset_x = field_at m 2;
      shadow_offset_y = field_at m 3;
      shadow_color = take 4 (drop 4 m);
    }
    else record blank { custom = c.custom }

decode-meant :
    (c : EffectOpCommand) → valid_effect_op c ≡ true → decode_effect_op c ≡ some (meant c)
unfolding decode_effect_op valid_effect_op
decode-meant c v = ground arith

decode_refuses : (c : EffectOpCommand) → valid_effect_op c ≡ false → decode_effect_op c ≡ none
unfolding decode_effect_op
decode_refuses c bad = rw (decode_effect_op, bad) refl

meant_sigmas :
    (c : EffectOpCommand)
    → valid_effect_op c ≡ true
    → ((meant c).kind ≡ c.kind)
      × (flt (meant c).blur_sigma float_zero ≡ false)
      × (flt (meant c).shadow_sigma float_zero ≡ false)
unfolding valid_effect_op valid_effect flt
meant_sigmas c v = (ground arith, ground arith, ground arith)

pub decode_effect_op_lem :
    (c : EffectOpCommand)
    → ((valid_effect_op c ≡ true)
        × (op : EffectOp) × (decode_effect_op c ≡ some op)
        × (op.kind ≡ c.kind)
        × (flt op.blur_sigma float_zero ≡ false)
        × (flt op.shadow_sigma float_zero ≡ false))
      ⊎ ((valid_effect_op c ≡ false) × (decode_effect_op c ≡ none))
decode_effect_op_lem c = elim (Bool-cases (valid_effect_op c)) [
  | inl v ↦
      let (kind, blur, shadow) = meant_sigmas c v in
      inl (v, meant c, decode-meant c v, kind, blur, shadow)
  | inr bad ↦ inr (bad, decode_refuses c bad)
]
