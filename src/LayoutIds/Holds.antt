-- ===== src/LayoutIds/Holds.antt =====
-- The invariant of `LayoutIdIndex` (packages/ui/src/layout/layout_id_index.h) behind some insertions.
use native.Mathlib.Nat.{mod-eq_of_lt, add-mod_right}
use haxeon.Prelude.{
  ℕ, zero, suc, ◌+◌, ◌-◌, ◌%◌, ◌<◌, ◌≤◌, ◌≡◌, ◌≢◌, ◌∙◌, refl, ap, inl, inr, List, [], ◌∷◌, Option,
  none, some, arith, ◌==◌, ltb, if◌then◌else◌, set, length, Bool-cases,
}
use haxeon.LayoutIds.{Entry, LayoutIdIndex, bucket, entry_at, walk}
use haxeon.LayoutIds.Walk.{walk_low, walk_ends}

-- The index of the first pair with the id.
abbrev pub first : ℕ → List (ℕ × ℕ) → Option ℕ
first id [] = none
first id ((k, v) ∷ rest) = let later = first id rest in if k == id then some v else later

-- The slots below `n` that are not empty.
abbrev pub used : ℕ → List Entry → ℕ
used zero es = 0
used (suc n) [] = 0
used (suc n) (e ∷ es) = (if e.id == 0 then 0 else 1) + used n es

abbrev pub start_of : LayoutIdIndex → ℕ → ℕ
start_of t id = bucket t.active id

abbrev pub found : LayoutIdIndex → ℕ → Option ℕ
found t id = walk t.active t.active t.entries id (bucket t.active id)

pub record Holds (done : List (ℕ × ℕ)) (t : LayoutIdIndex) : Type 0 where
  pub sized : t.active ≤ length t.entries
  pub known :
      (id v : ℕ)
      → id ≢ 0
      → first id done ≡ some v
      → (s : ℕ) × (found t id ≡ some s)
        × ((entry_at t.entries s).id ≡ id)
        × ((entry_at t.entries s).index ≡ v)
  pub stored :
      (s : ℕ)
      → s < t.active
      → (entry_at t.entries s).id ≢ 0
      → (v : ℕ) × (first (entry_at t.entries s).id done ≡ some v)
  pub load : used t.active t.entries ≤ length done

empty_slot :
    (n : ℕ) (es : List Entry) → used n es < n → (z : ℕ) × (z < n) × ((entry_at es z).id ≡ 0)
empty_slot zero es h = absurd (omega arith)
empty_slot (suc n) [] h = (zero, omega arith, refl)
empty_slot (suc n) (e ∷ es) h = elim (Bool-cases (e.id == 0)) [
  | inl here ↦ (zero, omega arith, ground arith)
  | inr other ↦ let (z, low, empty) = empty_slot n es (ground arith) in (suc z, omega arith, empty)
]

pub used-set : (n : ℕ) (es : List Entry) (s : ℕ) (v : Entry) → used n (set es s v) ≤ used n es + 1
used-set zero es s v = omega arith
used-set (suc n) [] s v = omega arith
used-set (suc n) (e ∷ es) zero v = ground arith
used-set (suc n) (e ∷ es) (suc s) v = ground (arith, used-set n es s v)

-- From every slot an empty slot is fewer than `active` steps ahead.
steps_to :
    (active b z : ℕ) → b < active → z < active → (k : ℕ) × (k < active) × ((b + k) % active ≡ z)
steps_to active b z low low' = elim (Bool-cases (ltb z b)) [
  | inr ahead ↦
      let before : b ≤ z = ground arith in
      let sum : b + (z - b) ≡ z = omega arith in
      (z - b, omega arith, ap (λ (t : ℕ). t % active) sum ∙ mod-eq_of_lt low')
  | inl back ↦
      let behind : z < b = ground arith in
      let sum : b + (z + active - b) ≡ z + active = omega arith in
      (
        z + active - b,
        omega arith,
        ap (λ (t : ℕ). t % active) sum ∙ add-mod_right z active ∙ mod-eq_of_lt low',
      )
]

bucket_low : (active id : ℕ) → 0 < active → bucket active id < active
unfolding bucket
bucket_low active id h = grind arith

-- With a slot to spare the probing for an id ends.
pub found_ends :
    (t : LayoutIdIndex) (id : ℕ)
    → used t.active t.entries < t.active
    → (s : ℕ) × (found t id ≡ some s) × (s < t.active)
found_ends t id spare =
    let (z, low, empty) = empty_slot t.active t.entries spare in
    let b = bucket t.active id in
    let at_b = bucket_low t.active id (omega arith) in
    let (k, few, there) = steps_to t.active b z at_b low in
    let (s, e) = walk_ends t.active t.active t.entries id b k few at_b (rw there empty) in
    (s, e, walk_low t.active t.active t.entries id b s at_b e)
