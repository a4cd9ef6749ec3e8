-- ===== src/DisplayList/Validate.antt =====
-- `validate_display_list` of packages/ui/src/display_list/display_list.cpp. The loop keeps the
-- bytes from `data + offset` on; each round takes one record off, of at least eight bytes, so that
-- fuel of one more than the bytes is enough (`Sound`).
pub mod Spec
pub mod Sound
pub mod Exact
use haxeon.Prelude.{
  ℕ, zero, suc, ◌+◌, ◌-◌, ◌%◌, ◌^◌, Bool, ◌&&◌, ◌||◌, not, List, [], ◌∷◌, Option, none, some,
  Outcome, ok, err, ◌>>=◌, ltb, ◌==◌, if◌then◌else◌, take, drop, length,
}
use haxeon.Float32.{Arith}
use haxeon.DisplayList.Wire.{
  Header, Opcode, header_size, read_header, fields, opcode_of, opcode_code, begin_layer,
}
use haxeon.DisplayList.Commands.{
  Message, invalid_storage, truncated_header, unsupported_version, invalid_size, unclosed_state,
  unclosed_layer, Depths, layer_command_version, check_command,
}

pub record ValidationError : Type 0 where
  pub offset : ℕ
  pub command_index : ℕ
  pub message : Message

pub data Verdict : Type 0 where
  accepted : Verdict
  rejected : ValidationError → Verdict
  -- the fuel ran out
  unfinished : Verdict

-- The header at the front of the bytes that are left, or why it is refused.
unfoldable pub check_header : List ℕ → Outcome Message Header
check_header rest =
    let h = read_header rest in
    let is_layer_v2 = h.opcode == opcode_code begin_layer && h.version == layer_command_version in
    if ltb (length rest) header_size
    then err truncated_header
    else if not (h.version == 1) && not is_layer_v2
    then err unsupported_version
    else if ltb h.size header_size || ltb (length rest) h.size || not (h.size % 4 == 0)
    then err invalid_size
    else ok h

-- The end of the stream, with both scopes closed or not.
unfoldable pub finish : ℕ → ℕ → Depths → Verdict
finish offset index d =
    if not (d.states == 0)
    then rejected (record { offset = offset; command_index = index; message = unclosed_state })
    else if not (d.layers == 0)
    then rejected (record { offset = offset; command_index = index; message = unclosed_layer })
    else accepted

abbrev pub outset : Depths
outset = record { states = 0; layers = 0 }

module _ (fp : Arith) where
  -- One round: the size of the record in front, and the depths after it.
  unfoldable pub check_record : List ℕ → Depths → Outcome Message (ℕ × Depths)
  unfolding check_header
  check_record rest d = check_header rest >>= λ h.
      check_command fp (opcode_of h.opcode) h (fields (take h.size rest)) d >>= λ d'.
      ok (h.size, d')

  -- The `while` loop.
  unfoldable pub validate_from : ℕ → List ℕ → ℕ → ℕ → Depths → Verdict
  unfolding finish
  validate_from zero rest offset index d = unfinished
  validate_from (suc fuel) [] offset index d = finish offset index d
  validate_from (suc fuel) (b ∷ bs) offset index d = elim (check_record (b ∷ bs) d) [
    | err m ↦ rejected (record { offset = offset; command_index = index; message = m })
    | ok (size, d') ↦ validate_from fuel (drop size (b ∷ bs)) (offset + size) (index + 1) d'
  ]

  -- `none` is a null pointer; `size` bytes are readable behind any other.
  unfoldable pub validate_display_list : Option (List ℕ) → ℕ → Verdict
  unfolding validate_from
  validate_display_list none size =
      if size == 0
      then finish 0 0 outset
      else rejected (record { offset = 0; command_index = 0; message = invalid_storage })
  validate_display_list (some bytes) size =
      if ltb (2 ^ 32 - 1) size
      then rejected (record { offset = 0; command_index = 0; message = invalid_storage })
      else validate_from (suc size) (take size bytes) 0 0 outset
