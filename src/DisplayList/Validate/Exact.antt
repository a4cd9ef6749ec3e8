-- ===== src/DisplayList/Validate/Exact.antt =====
-- The verdict of `validate_display_list` in packages/ui/src/display_list/display_list.cpp, in full.
use mathlib.Core.List.{flatten}
use haxeon.Prelude.{
  ℕ, zero, suc, ◌+◌, ◌^◌, ◌≤◌, ◌<◌, ◌≡◌, ◌↔◌, ◌∙◌, ap, List, [], ◌∷◌, ◌++◌, some, ok, arith, take,
  drop, length, length-append, length-take, drop-append,
}
use haxeon.Float32.{Arith}
use haxeon.DisplayList.Commands.{Depths}
use haxeon.DisplayList.Validate.{
  accepted, outset, check_record, validate_from, validate_display_list,
}
use haxeon.DisplayList.Validate.Spec.{behind, Stream}
use haxeon.DisplayList.Validate.Sound.{
  check_record_complete, Explains, validate_from-Explains, finish_closed,
}

module _ (fp : Arith) where
  -- One round of the loop over a record that is taken.
  validate_from-ok :
      (fuel : ℕ) (rest : List ℕ) (offset index : ℕ) (d : Depths) (n : ℕ) (e : Depths)
      → 0 < length rest
      → check_record fp rest d ≡ ok (n, e)
      → validate_from fp (suc fuel) rest offset index d
        ≡ validate_from fp fuel (drop n rest) (offset + n) (index + 1) e
  unfolding validate_from
  validate_from-ok fuel [] offset index d n e h p = absurd (omega arith)
  validate_from-ok fuel (b ∷ bs) offset index d n e h p = rw (p, validate_from)

  Stream-accepted :
      (rs : List (List ℕ)) (fuel offset index : ℕ) (d : Depths)
      → length (flatten rs) < fuel
      → Stream fp rs d outset
      → validate_from fp fuel (flatten rs) offset index d ≡ accepted
  unfolding flatten validate_from
  Stream-accepted rs zero offset index d h s = absurd (omega arith)
  Stream-accepted [] (suc fuel) offset index d h s = finish_closed offset index d s
  Stream-accepted (r ∷ rs) (suc fuel) offset index d h (o, v, a, s) =
      validate_from-ok fuel (r ++ flatten rs) offset index d (length r) (behind o d)
        (omega (arith, length-append r (flatten rs), v.long))
        (check_record_complete fp o r (flatten rs) d v a)
      ∙ rw (drop-append r (flatten rs)) (
          Stream-accepted rs fuel (offset + length r) (index + 1) (behind o d)
            (omega (arith, length-append r (flatten rs), v.long)) s)

  module _ (bytes : List ℕ) (size : ℕ) (readable : size ≤ length bytes)
      (small : size < 2 ^ 32) where
    runs :
        validate_display_list fp (some bytes) size
        ≡ validate_from fp (suc size) (take size bytes) 0 0 outset
    unfolding validate_display_list
    runs = ground arith

    -- The validation of at most 2 ^ 32 - 1 readable bytes ends. If it accepts, the bytes are a
    -- concatenation of valid records with balanced scopes. If it rejects, the bytes before the
    -- reported offset are such records, as many as the reported index, and either a scope is still
    -- open at the end, as the message says, or no valid record that the depths allow starts at the
    -- offset.
    pub validate_display_list-Explains :
        Explains fp (take size bytes) 0 0 outset (validate_display_list fp (some bytes) size)
    validate_display_list-Explains = rw runs (
        validate_from-Explains fp (suc size) (take size bytes) 0 0 outset
          (omega (arith, length-take size bytes readable)))

    -- At most 2 ^ 32 - 1 readable bytes are accepted exactly if they are a concatenation of valid
    -- records with balanced scopes.
    pub validate_display_list-accepts :
        (validate_display_list fp (some bytes) size ≡ accepted)
        ↔ ((rs : List (List ℕ)) × (flatten rs ≡ take size bytes) × Stream fp rs outset outset)
    validate_display_list-accepts = (
      λ e. rw e at validate_display_list-Explains,
      λ (rs, whole, s).
          runs
          ∙ rw (← whole) (
              Stream-accepted rs (suc size) 0 0 outset
                (omega (arith, ap length whole, length-take size bytes readable)) s),
    )
