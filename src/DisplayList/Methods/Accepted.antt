-- ===== src/DisplayList/Methods/Accepted.antt =====
-- What the methods of `DisplayList` (packages/ui/src/display_list/display_list.cpp) write is what
-- `validate_display_list` accepts.
use haxeon.Prelude.{
  ℕ, zero, suc, ◌+◌, ◌*◌, ◌≤◌, ◌≡◌, ◌⊎◌, refl, ap, ◌∙◌, inl, inr, Bool, true, List, [], ◌∷◌, ◌++◌,
  arith, length, drop, all, get_or, take-all, length-append,
}
use haxeon.Float32.{Arith, is_finite, fle}
use haxeon.DisplayList.Wire.{
  Opcode, encode, read-encode, length-encode, opcode_code, opcode_of-code, Fits, field_at,
}
use haxeon.DisplayList.Effects.{LayerBase, read_base, valid_rect, valid_effect_op, EffectOpCommand}
use haxeon.DisplayList.Commands.{valid_layer_v2, valid_layer, valid_draw_resource, valid_stroke}
use haxeon.DisplayList.Layers.{layer_words, read-layer_words}
use haxeon.DisplayList.Validate.Spec.{well_formed, IsRecord}
use haxeon.DisplayList.Methods.{
  Bounds, LayerCall, LayerParts, parts, Call, call_opcode, call_version, call_words, call_record,
  admits,
}
use haxeon.DisplayList.Methods.Proper.{ProperParts, parts-Proper, Proper}

get_or-drop : (n : ℕ) (xs : List ℕ) → get_or xs n 0 ≡ get_or (drop n xs) 0 0
get_or-drop zero xs = refl
get_or-drop (suc n) [] = refl
get_or-drop (suc n) (x ∷ xs) = get_or-drop n xs

drop-suc : (n : ℕ) (xs : List ℕ) → drop (suc n) xs ≡ drop 1 (drop n xs)
drop-suc zero xs = refl
drop-suc (suc n) [] = refl
drop-suc (suc n) (x ∷ xs) = drop-suc n xs

all-append :
    (p : EffectOpCommand → Bool) (xs ys : List EffectOpCommand)
    → all p xs ≡ true
    → all p ys ≡ true
    → all p (xs ++ ys) ≡ true
all-append p [] ys hx hy = hy
all-append p (x ∷ xs) ys hx hy = ground (arith, all-append p xs ys)

module _ (fp : Arith) where
  encode-IsRecord :
      (o : Opcode) (v : ℕ) (ws : List ℕ)
      → (v ≡ 1) ⊎ ((opcode_code o ≡ 11) × (v ≡ 2))
      → length ws ≤ 1000
      → Fits ws
      → well_formed fp o
          (record { opcode = opcode_code o; version = v; size = 8 + 4 * length ws })
          ws
        ≡ true
      → IsRecord fp o (encode o v ws)
  encode-IsRecord o v ws hv small fits formed =
      let (header, body) = read-encode o v ws (omega arith) (omega arith) fits in
      let n = length-encode o v ws in
      record {
        known = rw header (opcode_of-code o);
        version = rw header hv;
        size = rw (header, n);
        long = rw n (omega arith);
        aligned = rw n (omega arith);
        formed = rw (header, body) formed;
      }

  -- The record of proper parts passes the layer checks.
  layer-valid :
      (p : LayerParts)
      → ProperParts p
      → let w = layer_words p.base p.mask p.foreground p.backdrop in
        (valid_layer_v2 (8 + 4 * length w) w ≡ true) × (length w ≤ 1000)
  unfolding valid_layer_v2
  layer-valid p h =
      let w = layer_words p.base p.mask p.foreground p.backdrop in
      let (base, mask, counts, ops, n) =
        read-layer_words p.base p.mask p.foreground p.backdrop h.mask.1 h.foreground.1
          h.backdrop.1 in
      let fg : field_at w 17 ≡ length p.foreground =
        get_or-drop 17 w ∙ ap (λ t. get_or t 0 0) counts in
      let bg : field_at w 18 ≡ length p.backdrop =
        get_or-drop 18 w ∙ ap (λ t. get_or t 0 0) (drop-suc 17 w ∙ ap (drop 1) counts) in
      let good : all valid_effect_op (p.foreground ++ p.backdrop) ≡ true =
        all-append valid_effect_op p.foreground p.backdrop h.foreground.0 h.backdrop.0 in
      let flags : (read_base w).flags ≡ p.base.flags = ap (λ (b : LayerBase). b.flags) base in
      (rw (base, mask, fg, bg, ops, good) (ground (arith, n, flags)), omega (arith, n))

  version-cases :
      (c : Call)
      → (call_version c ≡ 1) ⊎ ((opcode_code (call_opcode c) ≡ 11) × (call_version c ≡ 2))
  version-cases (Call.begin_layer l) = inr (refl, refl)
  version-cases _ = inl refl

  abbrev Formed : Call → Type 0
  Formed c =
      (length (call_words c) ≤ 1000)
      × (well_formed fp (call_opcode c)
            (record {
              opcode = opcode_code (call_opcode c);
              version = call_version c;
              size = 8 + 4 * length (call_words c);
            })
            (call_words c)
          ≡ true)

  transform-Formed : (m : List ℕ) → Proper (Call.set_transform m) → Formed (Call.set_transform m)
  unfolding call_words well_formed
  transform-Formed m (n, f) = (omega arith, rw (take-all 6 m (omega arith), n) f)

  layer-Formed : (l : LayerCall) → Proper (Call.begin_layer l) → Formed (Call.begin_layer l)
  unfolding call_words well_formed valid_layer
  layer-Formed l h = let (v, n) = layer-valid (parts l) (parts-Proper l h) in (n, v)

  border-Formed :
      (b : Bounds) (w : ℕ) (color : List ℕ)
      → Proper (Call.draw_rect_border b w color)
      → admits fp (Call.draw_rect_border b w color) ≡ true
      → Formed (Call.draw_rect_border b w color)
  unfolding call_words well_formed admits
  border-Formed b w color n a = (omega arith, ground arith)

  shadow-Formed :
      (b : Bounds) (dx dy blur spread : ℕ) (radii color : List ℕ)
      → Proper (Call.draw_box_shadow b dx dy blur spread radii color)
      → admits fp (Call.draw_box_shadow b dx dy blur spread radii color) ≡ true
      → Formed (Call.draw_box_shadow b dx dy blur spread radii color)
  unfolding call_words well_formed admits
  shadow-Formed b dx dy blur spread radii color (r, n) a =
      (omega (arith, length-append radii color), ground (arith, length-append radii color))

  call-Formed : (c : Call) → Proper c → admits fp c ≡ true → Formed c
  unfolding call_words well_formed valid_stroke valid_draw_resource valid_rect fle is_finite
  call-Formed (Call.set_transform m) h a = transform-Formed m h
  call-Formed (Call.begin_layer l) h a = layer-Formed l h
  call-Formed (Call.draw_rect_border b w color) h a = border-Formed b w color h a
  call-Formed (Call.draw_box_shadow b dx dy blur spread radii color) h a =
      shadow-Formed b dx dy blur spread radii color h a
  call-Formed c h a = (omega arith, ground arith)

  -- A method whose arguments are proper, and which does not refuse them, writes a valid record.
  pub call_record-IsRecord :
      (c : Call)
      → Proper c
      → admits fp c ≡ true
      → Fits (call_words c)
      → IsRecord fp (call_opcode c) (call_record c)
  unfolding call_record
  call_record-IsRecord c h a f =
      let (n, formed) = call-Formed c h a in
      encode-IsRecord (call_opcode c) (call_version c) (call_words c) (version-cases c) n f formed
