-- ===== src/DisplayList/Queries.antt =====
-- `assign_validated` and `has_backdrop_effects` of the class `DisplayList` in
-- packages/ui/src/display_list/display_list.cpp.
pub mod Backdrop
pub mod Assign
use haxeon.Prelude.{
  ℕ, zero, suc, ◌+◌, ◌-◌, ◌%◌, ◌^◌, Bool, true, false, ◌&&◌, ◌||◌, not, List, [], ◌∷◌, Option, none,
  some, ltb, leb, ◌==◌, if◌then◌else◌, take, drop, length,
}
use haxeon.Float32.{Arith}
use haxeon.DisplayList.Wire.{
  Header, header_size, read_header, fields, field_at, opcode_code, begin_layer,
}
use haxeon.DisplayList.Effects.{effect_none}
use haxeon.DisplayList.Commands.{
  layer_command_version, begin_layer_size, layer_backdrop_v1_size, backdrop_count,
}
use haxeon.DisplayList.Buffer.{DisplayList}
use haxeon.DisplayList.Validate.{Verdict, accepted, rejected, unfinished, validate_display_list}

-- The loop that counts the commands of a validated list; the fuel is its bytes.
unfoldable pub count_commands : ℕ → List ℕ → ℕ → ℕ
count_commands zero rest count = count
count_commands (suc fuel) [] count = count
count_commands (suc fuel) (b ∷ bs) count =
    count_commands fuel (drop (read_header (b ∷ bs)).size (b ∷ bs)) ((count + 1) % 2 ^ 32)

-- Field 38 of a `BeginLayerBackdropV1Command` is `backdrop_effect.kind`.
-- What the test of one record decides: return this, or go on.
pub data Look : Type 0 where
  answer : Bool → Look
  go_on : Look

unfoldable pub look_layer : Header → List ℕ → Look
look_layer h w =
    if h.version == layer_command_version && leb begin_layer_size h.size
    then (if not (backdrop_count w == 0) then answer true else go_on)
    else if h.version == 1 && h.size == layer_backdrop_v1_size
    then answer (not (field_at w 38 == effect_none))
    else go_on

unfoldable pub look : Header → List ℕ → Look
unfolding look_layer
look h w = if h.opcode == opcode_code begin_layer then look_layer h w else go_on

-- The loop of `has_backdrop_effects`; the fuel is the number of bytes.
unfoldable pub backdrop_from : ℕ → List ℕ → Bool
unfolding look
backdrop_from zero rest = false
backdrop_from (suc fuel) [] = false
backdrop_from (suc fuel) (b ∷ bs) =
    let h = read_header (b ∷ bs) in
    elim (look h (fields (b ∷ bs))) [
      | answer r ↦ r
      | go_on ↦
          let rest = backdrop_from fuel (drop h.size (b ∷ bs)) in
          if ltb h.size header_size || ltb (length (b ∷ bs)) h.size then false else rest
    ]

unfoldable pub has_backdrop_effects : DisplayList → Bool
unfolding backdrop_from
has_backdrop_effects dl = backdrop_from (suc dl.size) (take dl.size dl.bytes)

-- `bytes_.assign`, and the count of the commands.
unfoldable pub take_over : List ℕ → ℕ → DisplayList → DisplayList
take_over bytes size dl = record dl {
  bytes = take size bytes;
  size = size;
  command_count = count_commands size (take size bytes) 0;
}

-- `none` where the code returns false, and leaves the list alone.
abbrev pub on_accepted : {A : Type 0} → Verdict → A → Option A
on_accepted accepted x = some x
on_accepted (rejected e) x = none
on_accepted unfinished x = none

-- A null pointer comes with the size 0 only.
abbrev pub readable_bytes : Option (List ℕ) → List ℕ
readable_bytes none = []
readable_bytes (some bytes) = bytes

unfoldable pub assign_validated : Arith → Option (List ℕ) → ℕ → DisplayList → Option DisplayList
unfolding take_over
assign_validated fp bytes size dl =
    on_accepted (validate_display_list fp bytes size) (take_over (readable_bytes bytes) size dl)
