-- ===== src/Examples/DisplayLists.antt =====
-- Concrete display lists (packages/ui/src/display_list/display_list.cpp).
use mathlib.Core.List.{flatten}
use haxeon.Prelude.{
  ℕ, ◌+◌, ◌%◌, ◌^◌, ◌<◌, ◌≡◌, ◌↔◌, refl, true, List, [], ◌∷◌, ◌++◌, Option, none, some, arith,
  length, take, all, ltb,
}
use haxeon.Float32.{float_one, is_finite, fle, in_unit}
use haxeon.DisplayList.Wire.{Opcode, Fits, encode, read_header, fields, opcode_of, read-encode}
use haxeon.DisplayList.Effects.{valid_composite}
use haxeon.DisplayList.Commands.{check_opcode, check_command}
use haxeon.DisplayList.Buffer.{DisplayList, grow, new, append, contents}
use haxeon.DisplayList.Buffer.Laws.{IsValid, append_lem}
use haxeon.DisplayList.Layers.{layer_words, mask_words, base_words, operations_words}
use haxeon.DisplayList.Validate.{
  accepted, check_header, check_record, outset, validate_display_list,
}
use haxeon.DisplayList.Validate.Spec.{Stream}
use haxeon.DisplayList.Validate.Sound.{Explains}
use haxeon.DisplayList.Validate.Exact.{
  validate_display_list-Explains, validate_display_list-accepts,
}
use haxeon.DisplayList.Methods.{
  Call, push_state, pop_state, end_layer, set_global_alpha, begin_layer, plain, parts, call_words,
  invoke,
}
use haxeon.DisplayList.Methods.Build.{build, AllProper, Scopes, build-accepted}
use haxeon.DisplayList.Queries.{assign_validated}
use haxeon.DisplayList.Queries.Assign.{assign_validated_lem}
use haxeon.Examples.Plans.{plain_arith}

-- The record of `push_state`, a byte list of 8, and that of `pop_state`.
abbrev push_bytes : List ℕ
push_bytes = 5 ∷ 0 ∷ 1 ∷ 0 ∷ 8 ∷ 0 ∷ 0 ∷ 0 ∷ []

abbrev scopes : List ℕ
scopes = push_bytes ++ (6 ∷ 0 ∷ 1 ∷ 0 ∷ 8 ∷ 0 ∷ 0 ∷ 0 ∷ [])

validate_display_list-Explains_example :
    Explains plain_arith
      (take 16 scopes)
      0
      0
      outset
      (validate_display_list plain_arith (some scopes) 16)
validate_display_list-Explains_example =
    validate_display_list-Explains plain_arith scopes 16 (omega arith) (omega arith)

validate_display_list-accepts_example :
    (validate_display_list plain_arith (some push_bytes) 8 ≡ accepted) ↔ (
      (rs : List (List ℕ)) × (flatten rs ≡ take 8 push_bytes) × Stream plain_arith rs outset outset)
validate_display_list-accepts_example =
    validate_display_list-accepts plain_arith push_bytes 8 (omega arith) (omega arith)

-- An opaque layer with the alpha set inside a saved state.
abbrev calls : List Call
calls =
    begin_layer (plain float_one 1)
    ∷ push_state
    ∷ set_global_alpha float_one
    ∷ pop_state
    ∷ end_layer
    ∷ []

Fits-all : (ws : List ℕ) → all (λ w. ltb w (2 ^ 32)) ws ≡ true → Fits ws
Fits-all [] h = tt
Fits-all (w ∷ ws) h = ground (arith, Fits-all ws)

or_first : {A : Type 0} → Option A → A → A
or_first none d = d
or_first (some x) d = x

abbrev pub storage : DisplayList
storage = new 8

storage-IsValid : IsValid storage
unfolding new
storage-IsValid = record { stored = omega arith; sized = omega arith }

abbrev built : DisplayList
built = or_first (build plain_arith calls storage) storage

calls-AllProper : AllProper calls
unfolding call_words layer_words mask_words base_words operations_words parts is_finite in_unit fle
    valid_composite
calls-AllProper = (
  ((refl, refl, refl, refl), Fits-all (call_words (begin_layer (plain float_one 1))) refl),
  (
    (tt, tt),
    (
      ((refl, refl), Fits-all (call_words (set_global_alpha float_one)) refl),
      ((tt, tt), ((tt, tt), tt)),
    ),
  ),
)

calls-Scopes : Scopes calls outset outset
calls-Scopes = (ground arith, (ground arith, (tt, (ground arith, (ground arith, refl)))))

calls-built : build plain_arith calls storage ≡ some built
unfolding build or_first invoke new encode layer_words operations_words grow
calls-built = refl

storage_empty : contents storage ≡ []
unfolding contents new
storage_empty = refl

built_small : built.size < 2 ^ 32
unfolding build or_first invoke new encode layer_words operations_words grow
built_small = omega arith

build-accepted_example : validate_display_list plain_arith (some built.bytes) built.size ≡ accepted
build-accepted_example =
    build-accepted plain_arith calls storage built storage-IsValid storage_empty calls-AllProper
      calls-Scopes calls-built built_small

abbrev pushed : DisplayList
pushed = or_first (append storage push_bytes) storage

push-appended : append storage push_bytes ≡ some pushed
unfolding append or_first new
push-appended = refl

append_lem_example :
    (contents pushed ≡ contents storage ++ push_bytes)
    × (pushed.command_count ≡ (storage.command_count + 1) % 2 ^ 32)
    × IsValid pushed
append_lem_example = append_lem storage pushed push_bytes storage-IsValid push-appended

abbrev assigned : DisplayList
assigned = or_first (assign_validated plain_arith (some scopes) 16 storage) storage

scopes-assigned : assign_validated plain_arith (some scopes) 16 storage ≡ some assigned
unfolding assign_validated or_first new validate_display_list check_header check_command
    check_opcode opcode_of read_header fields check_record
scopes-assigned = refl

assign_validated_lem_example :
    (contents assigned ≡ take 16 scopes)
    × (rs : List (List ℕ)) × (flatten rs ≡ contents assigned)
    × Stream plain_arith rs outset outset
    × (assigned.command_count ≡ length rs)
assign_validated_lem_example =
    assign_validated_lem plain_arith scopes 16 storage assigned (omega arith) (omega arith)
      scopes-assigned

read-encode_example :
    (read_header (encode Opcode.clip_rect 1 (1 ∷ 2 ∷ 3 ∷ 4 ∷ []))
      ≡ record { opcode = 7; version = 1; size = 24 })
    × (fields (encode Opcode.clip_rect 1 (1 ∷ 2 ∷ 3 ∷ 4 ∷ [])) ≡ 1 ∷ 2 ∷ 3 ∷ 4 ∷ [])
read-encode_example =
    read-encode Opcode.clip_rect 1 (1 ∷ 2 ∷ 3 ∷ 4 ∷ []) (omega arith) (omega arith)
      (Fits-all (1 ∷ 2 ∷ 3 ∷ 4 ∷ []) refl)
