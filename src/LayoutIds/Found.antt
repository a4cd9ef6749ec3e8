-- ===== src/LayoutIds/Found.antt =====
-- What `find` of packages/ui/src/layout/layout_id_index.h answers under the invariant.
use haxeon.Prelude.{
  ℕ, ◌<◌, ◌≡◌, ◌≢◌, ◌∙◌, refl, sym, ap, inl, inr, false, ◌||◌, List, Option, none, some, arith,
  ◌==◌, if◌then◌else◌, length, Bool-cases, Option-cases,
}
use haxeon.LayoutIds.{LayoutIdIndex, missing, bucket, entry_at, find}
use haxeon.LayoutIds.Walk.{walk-stops, find_from-walk}
use haxeon.LayoutIds.Holds.{first, found, Holds, found_ends}

abbrev pub index_or : Option ℕ → ℕ
index_or none = missing
index_or (some v) = v

found_value :
    (done : List (ℕ × ℕ)) (t : LayoutIdIndex) (id s : ℕ)
    → Holds done t
    → id ≢ 0
    → found t id ≡ some s
    → s < t.active
    → (if (entry_at t.entries s).id == 0 then missing else (entry_at t.entries s).index)
      ≡ index_or (first id done)
found_value done t id s h own e low = elim (Option-cases (first id done)) [
  | inr (v, old) ↦
      let (k, at_k, own_k, value) = h.known id v own old in
      let same : k ≡ s = cc (sym at_k ∙ e) in
      let own_s : (entry_at t.entries s).id ≡ id = rw same at own_k in
      let value_s : (entry_at t.entries s).index ≡ v = rw same at value in
      let full : ((entry_at t.entries s).id == 0) ≡ false = ground arith in rw (old, full) value_s
  | inl new ↦ elim (Bool-cases ((entry_at t.entries s).id == 0)) [
    | inl empty ↦ rw (new, empty) refl
    | inr full ↦
        let stop = walk-stops t.active t.active t.entries id (bucket t.active id) s e in
        let own_s : (entry_at t.entries s).id ≡ id = ground arith in
        let (w, old) = h.stored s low (ground arith) in
        cc (sym new ∙ ap (λ (i : ℕ). first i done) (sym own_s) ∙ old)
  ]
]

-- `find` ends, with the first index.
pub find-Holds :
    (done : List (ℕ × ℕ)) (t : LayoutIdIndex) (id : ℕ)
    → Holds done t
    → length done < t.active
    → id ≢ 0
    → find id t ≡ some (index_or (first id done))
unfolding find
find-Holds done t id h spare own =
    let (s, e, low) = found_ends t id (omega (arith, h.load)) in
    let in_use : (id == 0 || t.active == 0) ≡ false = ground arith in
    rw in_use (
      find_from-walk t.active t.active t.entries id (bucket t.active id) s e
      ∙ ap some (found_value done t id s h own e low))
