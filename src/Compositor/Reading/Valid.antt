-- ===== src/Compositor/Reading/Valid.antt =====
-- `read_layer` (packages/ui/src/compositor/compositor.cpp) reads what `validate_display_list` accepts.
use haxeon.Prelude.{
  ℕ, zero, suc, ◌+◌, ◌*◌, ◌≡◌, ◌⊎◌, ◌∙◌, inl, inr, refl, sym, ap, Bool, true, false, List, [], ◌∷◌,
  ◌++◌, Option, none, some, arith, ◌==◌, drop, all,
}
use haxeon.DisplayList.Wire.{Header}
use haxeon.DisplayList.Effects.{
  EffectOpCommand, EffectOp, EffectDescriptor, CustomEffectDescriptor, MaskDescriptor, LayerBase,
  read_operation, read_base, read_mask, read_effect, read_custom, valid_effect_op, valid_effect,
  valid_effect_kind, valid_custom_effect_descriptor,
}
use haxeon.DisplayList.Effects.Decode.{decode_effect_op_lem}
use haxeon.DisplayList.Commands.{
  read_operations, foreground_count, backdrop_count, valid_layer, valid_layer_v2,
  valid_layer_effect_v1, valid_layer_mask_v1, valid_layer_backdrop_v1, valid_layer_custom_v1,
}
use haxeon.DisplayList.Methods.{effect_operation, custom_operation}
use haxeon.Compositor.Types.{LayerCommandValues}
use haxeon.Compositor.Reading.{
  decode_all, decode_layer, empty_mask, layer_values, wire_operations, read_layer_v2, read_layer_v1,
  read_layer,
}

Decodes : List EffectOpCommand → Type 0
Decodes cs = (ops : List EffectOp) × (decode_all cs ≡ some ops)

decode_all-valid : (cs : List EffectOpCommand) → all valid_effect_op cs ≡ true → Decodes cs
unfolding Decodes decode_all
decode_all-valid [] v = ([], refl)
decode_all-valid (c ∷ cs) v =
    let (ops, e) = decode_all-valid cs (ground arith) in
    elim (decode_effect_op_lem c) [
      | inl (_, op, d, _, _, _) ↦ (op ∷ ops, rw (decode_all, d, e) refl)
      | inr (bad, _) ↦ absurd (ground arith)
    ]

decode_layer-valid :
    (b : LayerBase) (fg bg : List EffectOpCommand) (mask : MaskDescriptor)
    → all valid_effect_op fg ≡ true
    → all valid_effect_op bg ≡ true
    → (v : LayerCommandValues) × (decode_layer b fg bg mask ≡ some v)
unfolding Decodes decode_layer
decode_layer-valid b fg bg mask vf vb =
    let (f, ef) = decode_all-valid fg vf in
    let (k, ek) = decode_all-valid bg vb in
    (layer_values b f k mask, rw (decode_layer, ef, ek) refl)

drop-nil : {A : Type 0} → (n : ℕ) → drop {0} {A = A} n [] ≡ []
drop-nil zero = refl
drop-nil (suc n) = refl

drop-drop : {A : Type 0} → (m n : ℕ) (xs : List A) → drop m (drop n xs) ≡ drop (n + m) xs
drop-drop {A} m n [] = ap (drop m) (drop-nil n) ∙ drop-nil m ∙ sym (drop-nil (n + m))
drop-drop {A} m zero (x ∷ xs) = ap (λ (k : ℕ). drop k (x ∷ xs)) (omega arith)
drop-drop {A} m (suc n) (x ∷ xs) =
    let count : suc (n + m) ≡ suc n + m = omega arith in
    drop-drop m n xs ∙ ap (λ (k : ℕ). drop k (x ∷ xs)) count

-- The operations behind one another are those of both loops.
read_operations_add :
    (m n : ℕ) (ws : List ℕ)
    → read_operations (m + n) ws ≡ read_operations m ws ++ read_operations n (drop (49 * m) ws)
unfolding read_operations
read_operations_add zero n ws =
    let count : 0 + n ≡ n = omega arith in
    let start : 0 ≡ 49 * 0 = omega arith in
    ap (λ (k : ℕ). read_operations k ws) count ∙ ap (λ (k : ℕ). read_operations n (drop k ws)) start
read_operations_add (suc m) n ws =
    let count : suc m + n ≡ suc (m + n) = omega arith in
    let e : 49 + 49 * m ≡ 49 * suc m = omega arith in
    ap (λ (k : ℕ). read_operations k ws) count
    ∙ ap (λ t. read_operation ws ∷ t)
        (read_operations_add m n (drop 49 ws)
          ∙ ap (λ t. read_operations m (drop 49 ws) ++ read_operations n t)
              (drop-drop (49 * m) 49 ws ∙ ap (λ (k : ℕ). drop k ws) e))

all-both :
    (xs ys : List EffectOpCommand)
    → all valid_effect_op (xs ++ ys) ≡ true
    → (all valid_effect_op xs ≡ true) × (all valid_effect_op ys ≡ true)
all-both [] ys v = (refl, v)
all-both (x ∷ xs) ys v = let (a, b) = all-both xs ys (ground arith) in (ground arith, b)

wire_operations-valid :
    (e : EffectDescriptor) → valid_effect e ≡ true → all valid_effect_op (wire_operations e) ≡ true
unfolding wire_operations effect_operation valid_effect_op valid_effect valid_effect_kind
wire_operations-valid e v = ground arith

custom_operation-valid :
    (c : CustomEffectDescriptor)
    → valid_custom_effect_descriptor c ≡ true
    → all valid_effect_op (custom_operation c ∷ []) ≡ true
unfolding custom_operation valid_effect_op
custom_operation-valid c v = ground arith

is_some : Option LayerCommandValues → Bool
is_some none = false
is_some (some v) = true

of_is_some :
    (o : Option LayerCommandValues) → is_some o ≡ true → (v : LayerCommandValues) × (o ≡ some v)
unfolding is_some
of_is_some none h = cc
of_is_some (some v) h = (v, refl)

decode_layer-is_some :
    (b : LayerBase) (fg bg : List EffectOpCommand) (mask : MaskDescriptor)
    → all valid_effect_op fg ≡ true
    → all valid_effect_op bg ≡ true
    → is_some (decode_layer b fg bg mask) ≡ true
unfolding is_some
decode_layer-is_some b fg bg mask vf vb =
    let (v, e) = decode_layer-valid b fg bg mask vf vb in rw e refl

read_layer_v2-valid :
    (size : ℕ) (w : List ℕ) → valid_layer_v2 size w ≡ true → is_some (read_layer_v2 size w) ≡ true
unfolding valid_layer_v2 read_layer_v2
read_layer_v2-valid size w v =
    let fg = foreground_count w in
    let bg = backdrop_count w in
    let every : all valid_effect_op (read_operations (fg + bg) (drop 19 w)) ≡ true = ground arith in
    let (vf, vb) =
      all-both (read_operations fg (drop 19 w)) (read_operations bg (drop (49 * fg) (drop 19 w)))
        (ap (all valid_effect_op) (sym (read_operations_add fg bg (drop 19 w))) ∙ every) in
    let whole : (size == 84 + (fg + bg) * 196) ≡ true = ground arith in
    rw whole (
      decode_layer-is_some (read_base w) (read_operations fg (drop 19 w))
        (read_operations bg (drop (19 + 49 * fg) w)) (read_mask (drop 7 w)) vf
        (rw (drop-drop (49 * fg) 19 w) at vb))

read_layer_v1-valid :
    (h : Header) (w : List ℕ)
    → h.version ≡ 1
    → valid_layer h w ≡ true
    → is_some (read_layer_v1 h.size w) ≡ true
unfolding valid_layer read_layer_v1 valid_layer_effect_v1 valid_layer_mask_v1
    valid_layer_backdrop_v1 valid_layer_custom_v1 is_some
read_layer_v1-valid h w old v =
    let b = read_base w in
    let front = read_effect (drop 7 w) in
    let back = read_effect (drop 38 w) in
    let fg = wire_operations front in
    let bg = wire_operations back in
    let mask = read_mask (drop 28 w) in
    ground (
      arith,
      wire_operations-valid front,
      wire_operations-valid back,
      custom_operation-valid (read_custom (drop 7 w)),
      decode_layer-is_some b fg [] empty_mask,
      decode_layer-is_some b fg [] mask,
      decode_layer-is_some b fg bg mask,
      decode_layer-is_some b (custom_operation (read_custom (drop 7 w)) ∷ []) [] empty_mask,
    )

-- A record that `validate_display_list` accepts is read.
pub read_layer-valid :
    (h : Header) (w : List ℕ)
    → (h.version ≡ 1) ⊎ (h.version ≡ 2)
    → valid_layer h w ≡ true
    → (v : LayerCommandValues) × (read_layer h w ≡ some v)
unfolding read_layer valid_layer valid_layer_v2
read_layer-valid h w (inl old) v =
    of_is_some (read_layer h w) (ground (arith, read_layer_v1-valid h w old))
read_layer-valid h w (inr new) v =
    of_is_some (read_layer h w) (ground (arith, read_layer_v2-valid h.size w))
