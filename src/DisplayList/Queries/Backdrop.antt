-- ===== src/DisplayList/Queries/Backdrop.antt =====
-- What `has_backdrop_effects` of packages/ui/src/display_list/display_list.cpp answers on a list of
-- valid records.
use mathlib.Core.List.{flatten}
use haxeon.Prelude.{
  ℕ, zero, suc, ◌+◌, ◌-◌, ◌*◌, ◌%◌, ◌≤◌, ◌<◌, ◌≡◌, refl, ap, ◌∙◌, Bool, true, false, ◌&&◌, ◌||◌,
  not, List, [], ◌∷◌, ◌++◌, some, arith, ◌==◌, if◌then◌else◌, get_or, drop, length, all,
  length-append, length-drop, length-take, drop-append,
}
use haxeon.Float32.{Arith}
use haxeon.DisplayList.Wire.{
  Header, header_size, read_header, fields, field_at, words, opcode_code, begin_layer, Opcode,
  opcode_of, le32,
}
use haxeon.DisplayList.Effects.{effect_none}
use haxeon.DisplayList.Commands.{
  Depths, valid_layer, valid_layer_v2, layer_command_version, begin_layer_size,
  layer_backdrop_v1_size,
}
use haxeon.DisplayList.Buffer.{DisplayList, contents}
use haxeon.DisplayList.Validate.Spec.{IsRecord, Stream, well_formed, behind}
use haxeon.DisplayList.Validate.Sound.{read_header-append}
use haxeon.DisplayList.Queries.{Look, answer, go_on, look, backdrop_from, has_backdrop_effects}

words-append : (r s : List ℕ) → length r % 4 ≡ 0 → words (r ++ s) ≡ words r ++ words s
unfolding words
words-append [] s h = refl
words-append (a ∷ []) s h = absurd (omega arith)
words-append (a ∷ b ∷ []) s h = absurd (omega arith)
words-append (a ∷ b ∷ c ∷ []) s h = absurd (omega arith)
words-append (a ∷ b ∷ c ∷ d ∷ r) s h = ap (λ t. le32 a b c d ∷ t) (words-append r s (omega arith))

length-words : (r : List ℕ) → length r % 4 ≡ 0 → 4 * length (words r) ≡ length r
unfolding words
length-words [] h = refl
length-words (a ∷ []) h = absurd (omega arith)
length-words (a ∷ b ∷ []) h = absurd (omega arith)
length-words (a ∷ b ∷ c ∷ []) h = absurd (omega arith)
length-words (a ∷ b ∷ c ∷ d ∷ r) h = omega (arith, length-words r (omega arith))

get_or-append_left :
    (n : ℕ) (xs ys : List ℕ) → n < length xs → get_or (xs ++ ys) n 0 ≡ get_or xs n 0
get_or-append_left n [] ys h = absurd (omega arith)
get_or-append_left zero (x ∷ xs) ys h = refl
get_or-append_left (suc n) (x ∷ xs) ys h = get_or-append_left n xs ys (omega arith)

drop-header : (r s : List ℕ) → header_size ≤ length r → drop 8 (r ++ s) ≡ drop 8 r ++ s
drop-header (a ∷ b ∷ c ∷ d ∷ e ∷ f ∷ g ∷ h ∷ r) s p = refl
drop-header r s p = absurd (omega arith)

-- A field inside a record is read from the record alone.
field_at-append :
    (k : ℕ) (r s : List ℕ)
    → length r % 4 ≡ 0
    → 12 + 4 * k ≤ length r
    → field_at (fields (r ++ s)) k ≡ field_at (fields r) k
unfolding fields
field_at-append k r s aligned inside =
    let n : length (drop 8 r) ≡ length r - 8 = length-drop 8 r in
    rw (drop-header r s (omega arith), words-append (drop 8 r) s (omega (arith, n)))
      (get_or-append_left k (words (drop 8 r)) (words s)
        (omega (arith, n, length-words (drop 8 r) (omega (arith, n)))))

-- The record is a layer with a backdrop, in either of the two forms that can have one.
unfoldable pub is_backdrop_layer : List ℕ → Bool
is_backdrop_layer r =
    let h = read_header r in
    h.opcode == opcode_code begin_layer
    && ((h.version == layer_command_version && not (field_at (fields r) 18 == 0))
        || (h.version == 1
            && h.size == layer_backdrop_v1_size
            && not (field_at (fields r) 38 == effect_none)))

-- A version 1 record that has room for a backdrop effect, whose kind is `None`.
unfoldable pub is_empty_backdrop_v1 : List ℕ → Bool
is_empty_backdrop_v1 r =
    let h = read_header r in
    h.opcode == opcode_code begin_layer
    && h.version == 1
    && h.size == layer_backdrop_v1_size
    && field_at (fields r) 38 == effect_none

abbrev pub any : (List ℕ → Bool) → List (List ℕ) → Bool
any p [] = false
any p (r ∷ rs) = p r || any p rs

-- Whether a layer with a backdrop stands before the first empty version 1 form.
abbrev pub before_empty : List (List ℕ) → Bool
before_empty [] = false
before_empty (r ∷ rs) = is_backdrop_layer r || (not (is_empty_backdrop_v1 r) && before_empty rs)

layer_v2_long :
    (h : Header) (w : List ℕ) → h.version ≡ 2 → valid_layer h w ≡ true → begin_layer_size ≤ h.size
unfolding valid_layer valid_layer_v2
layer_v2_long h w e v = ground arith

opcode_of-eleven : (n : ℕ) (o : Opcode) → n ≡ 11 → opcode_of n ≡ some o → o ≡ begin_layer
unfolding opcode_of
opcode_of-eleven n o e k = let h = rw e at k in cc

before_empty-any :
    (rs : List (List ℕ))
    → all (λ r. not (is_empty_backdrop_v1 r)) rs ≡ true
    → before_empty rs ≡ any is_backdrop_layer rs
before_empty-any [] h = refl
before_empty-any (r ∷ rs) h = ground (arith, before_empty-any rs)

empty-not_backdrop : (r : List ℕ) → is_empty_backdrop_v1 r ≡ true → is_backdrop_layer r ≡ false
unfolding is_empty_backdrop_v1 is_backdrop_layer
empty-not_backdrop r h = ground arith

before_empty_stops :
    (before : List (List ℕ)) (r : List ℕ) (later : List (List ℕ))
    → any is_backdrop_layer before ≡ false
    → is_empty_backdrop_v1 r ≡ true
    → before_empty (before ++ r ∷ later) ≡ false
before_empty_stops [] r later h e = ground (arith, empty-not_backdrop r e)
before_empty_stops (b ∷ before) r later h e = ground (arith, before_empty_stops before r later)

abbrev settle : Look → Bool → Bool
settle (answer r) later = r
settle go_on later = later

-- One round of the loop over a record of `n` bytes.
round :
    (fuel : ℕ) (rest : List ℕ) (l : Look) (n : ℕ)
    → (read_header rest).size ≡ n
    → 0 < length rest
    → header_size ≤ n
    → n ≤ length rest
    → look (read_header rest) (fields rest) ≡ l
    → backdrop_from (suc fuel) rest ≡ settle l (backdrop_from fuel (drop n rest))
unfolding backdrop_from
round fuel [] l n size full low high e = absurd (omega arith)
round fuel (b ∷ bs) (answer r) n size full low high e = rw (e, backdrop_from)
round fuel (b ∷ bs) go_on n size full low high e = rw (e, backdrop_from, size) (ground arith)

module _ (fp : Arith) where
  formed-layer :
      (o : Opcode) (h : Header) (w : List ℕ)
      → o ≡ begin_layer
      → well_formed fp o h w ≡ true
      → valid_layer h w ≡ true
  unfolding well_formed
  formed-layer o h w e f = rw e at f

  record_v2_long :
      (o : Opcode) (r : List ℕ)
      → IsRecord fp o r
      → (read_header r).opcode ≡ 11
      → (read_header r).version ≡ 2
      → begin_layer_size ≤ length r
  record_v2_long o r v op e =
      let h = read_header r in
      let layer = opcode_of-eleven h.opcode o op v.known in
      rw v.size at (layer_v2_long h (fields r) e (formed-layer o h (fields r) layer v.formed))

  look-record :
      (o : Opcode) (r rest : List ℕ)
      → IsRecord fp o r
      → look (read_header (r ++ rest)) (fields (r ++ rest)) ≡ (
          if is_backdrop_layer r
          then answer true
          else if is_empty_backdrop_v1 r
          then answer false
          else go_on)
  unfolding look is_backdrop_layer is_empty_backdrop_v1
  look-record o r rest v = rw (read_header-append r rest v.long) (
      ground (
        arith,
        v.size,
        record_v2_long o r v,
        field_at-append 18 r rest v.aligned,
        field_at-append 38 r rest v.aligned,
      ))

  backdrop_from-records :
      (rs : List (List ℕ)) (fuel : ℕ) (d e : Depths)
      → Stream fp rs d e
      → length (flatten rs) < fuel
      → backdrop_from fuel (flatten rs) ≡ before_empty rs
  unfolding flatten backdrop_from
  backdrop_from-records rs zero d e s h = absurd (omega arith)
  backdrop_from-records [] (suc fuel) d e s h = refl
  backdrop_from-records (r ∷ rs) (suc fuel) d e (o, v, a, s) h =
      let rest = flatten rs in
      let n = length-append r rest in
      let size : (read_header (r ++ rest)).size ≡ length r =
        ap (λ (t : Header). t.size) (read_header-append r rest v.long) ∙ v.size in
      let ih = backdrop_from-records rs fuel (behind o d) e s (omega (arith, n, v.long)) in
      round fuel (r ++ rest) _ (length r) size (omega (arith, n, v.long)) v.long (omega (arith, n))
        (look-record o r rest v)
      ∙ rw (drop-append r rest, ih) (ground arith)

  answers :
      (dl : DisplayList) (rs : List (List ℕ)) (d e : Depths)
      → dl.size ≤ length dl.bytes
      → flatten rs ≡ contents dl
      → Stream fp rs d e
      → has_backdrop_effects dl ≡ before_empty rs
  unfolding has_backdrop_effects contents
  answers dl rs d e stored whole stream = rw (← whole) (
      backdrop_from-records rs (suc dl.size) d e stream
        (omega (arith, ap length whole, length-take dl.size dl.bytes stored)))

  -- On a list of valid records none of which is a version 1 layer with an empty backdrop effect,
  -- the answer is true exactly if some record is a layer with a backdrop.
  pub has_backdrop_effects-any :
      (dl : DisplayList) (rs : List (List ℕ)) (d e : Depths)
      → dl.size ≤ length dl.bytes
      → flatten rs ≡ contents dl
      → Stream fp rs d e
      → all (λ r. not (is_empty_backdrop_v1 r)) rs ≡ true
      → has_backdrop_effects dl ≡ any is_backdrop_layer rs
  has_backdrop_effects-any dl rs d e stored whole stream plain =
      answers dl rs d e stored whole stream ∙ before_empty-any rs plain

  -- Where no layer with a backdrop stands before a version 1 layer with an empty backdrop effect,
  -- the answer is false, whatever layers with a backdrop follow.
  pub has_backdrop_effects_misses :
      (dl : DisplayList) (before : List (List ℕ)) (r : List ℕ) (later : List (List ℕ))
      (d e : Depths)
      → dl.size ≤ length dl.bytes
      → flatten (before ++ r ∷ later) ≡ contents dl
      → Stream fp (before ++ r ∷ later) d e
      → any is_backdrop_layer before ≡ false
      → is_empty_backdrop_v1 r ≡ true
      → has_backdrop_effects dl ≡ false
  has_backdrop_effects_misses dl before r later d e stored whole stream none_before empty =
      answers dl (before ++ r ∷ later) d e stored whole stream
      ∙ before_empty_stops before r later none_before empty
