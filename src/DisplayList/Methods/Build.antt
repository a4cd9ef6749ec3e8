-- ===== src/DisplayList/Methods/Build.antt =====
-- Runs of methods of `DisplayList` (packages/ui/src/display_list/display_list.cpp): what is in the
-- list behind them, and that the validation accepts it.
use mathlib.Core.List.{flatten}
use haxeon.Prelude.{
  ℕ, ◌^◌, ◌<◌, ◌≡◌, ◌≢◌, inl, inr, sym, ap, ◌∙◌, true, List, [], ◌∷◌, ◌++◌, map, Option, none, some,
  arith, append_assoc, append-nil, Option-cases,
}
use haxeon.Float32.{Arith}
use haxeon.DisplayList.Wire.{Fits}
use haxeon.DisplayList.Commands.{Depths}
use haxeon.DisplayList.Buffer.{DisplayList, contents, append}
use haxeon.DisplayList.Buffer.Laws.{IsValid, append_lem}
use haxeon.DisplayList.Validate.{accepted, outset, validate_display_list}
use haxeon.DisplayList.Validate.Spec.{Allowed, behind, Stream}
use haxeon.DisplayList.Validate.Exact.{validate_display_list-accepts}
use haxeon.DisplayList.Methods.{Call, call_opcode, call_words, call_record, admits, invoke}
use haxeon.DisplayList.Methods.Proper.{Proper}
use haxeon.DisplayList.Methods.Accepted.{call_record-IsRecord}

abbrev pub records : List Call → List (List ℕ)
records = map call_record

-- Every argument is proper and fits its 32 bits.
abbrev pub AllProper : List Call → Type 0
AllProper [] = Unit {0}
AllProper (c ∷ cs) = (Proper c × Fits (call_words c)) × AllProper cs

-- The calls lead the two scope depths from `d` to `e`.
abbrev pub Scopes : List Call → Depths → Depths → Type 0
Scopes [] d e = d ≡ e
Scopes (c ∷ cs) d e = Allowed (call_opcode c) d × Scopes cs (behind (call_opcode c) d) e

none_ne : (dl : DisplayList) → none ≢ some dl
none_ne dl e = cc

module _ (fp : Arith) where
  -- The methods in turn, as long as they return true.
  unfoldable pub build : List Call → DisplayList → Option DisplayList
  build [] dl = some dl
  build (c ∷ cs) dl = elim (invoke fp c dl) [ none ↦ none | some dl' ↦ build cs dl' ]

  invoke-some :
      (c : Call) (dl dl' : DisplayList)
      → invoke fp c dl ≡ some dl'
      → (admits fp c ≡ true) × (append dl (call_record c) ≡ some dl')
  unfolding invoke
  invoke-some c dl dl' e = (ground arith, ground arith)

  pub build_lem :
      (cs : List Call) (dl dl' : DisplayList) (d e : Depths)
      → IsValid dl
      → AllProper cs
      → Scopes cs d e
      → build cs dl ≡ some dl'
      → (contents dl' ≡ contents dl ++ flatten (records cs))
        × IsValid dl'
        × Stream fp (records cs) d e
  unfolding build flatten
  build_lem [] dl dl' d e v p s run =
      let same : dl ≡ dl' = cc in (rw (same, append-nil), rw same at v, s)
  build_lem (c ∷ cs) dl dl' d e v p s run = elim (Option-cases (invoke fp c dl)) [
    | inl fails ↦ absurd (none_ne dl' (rw (fails, build) at run))
    | inr (mid, made) ↦
        let (adm, app) = invoke-some c dl mid made in
        let (whole, counted, valid) = append_lem dl mid (call_record c) v app in
        let (all, last, stream) =
          build_lem cs mid dl' (behind (call_opcode c) d) e valid p.1 s.1
            (rw (made, build) at run) in
        (
          all
              ∙ ap (λ t. t ++ flatten (records cs)) whole
              ∙ append_assoc (contents dl) (call_record c) (flatten (records cs)),
          last,
          (call_opcode c, call_record-IsRecord fp c p.0.0 adm p.0.1, s.0, stream),
        )
  ]

  -- Calls with proper arguments and balanced scopes, made on an empty list, leave a list that
  -- `validate_display_list` accepts, if they all return true and the list stays below 2 ^ 32 bytes.
  pub build-accepted :
      (cs : List Call) (dl dl' : DisplayList)
      → IsValid dl
      → contents dl ≡ []
      → AllProper cs
      → Scopes cs outset outset
      → build cs dl ≡ some dl'
      → dl'.size < 2 ^ 32
      → validate_display_list fp (some dl'.bytes) dl'.size ≡ accepted
  unfolding contents
  build-accepted cs dl dl' v empty p s run small =
      let (whole, valid, stream) = build_lem cs dl dl' outset outset v p s run in
      (validate_display_list-accepts fp dl'.bytes dl'.size valid.stored small).1
        (records cs, sym (whole ∙ ap (λ t. t ++ flatten (records cs)) empty), stream)
