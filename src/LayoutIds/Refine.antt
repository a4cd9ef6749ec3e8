-- ===== src/LayoutIds/Refine.antt =====
-- `LayoutIdIndex` (packages/ui/src/layout/layout_id_index.h) is a map in which the first insertion of an
-- id wins.
use haxeon.Prelude.{
  ℕ, zero, suc, ◌+◌, ◌*◌, ◌/◌, ◌%◌, ◌^◌, ◌<◌, ◌≤◌, ◌≡◌, ◌≢◌, ◌∙◌, refl, ap, inl, inr, true, false,
  List, [], ◌∷◌, ◌++◌, some, arith, ◌==◌, ltb, if◌then◌else◌, length, length-append, append_assoc,
  append-nil, replicate, length-replicate, drop, Bool-cases,
}
use haxeon.LayoutIds.{
  Entry, LayoutIdIndex, blank_entry, missing, capacity_for, reset, entry_at, find, insert_all,
}
use haxeon.LayoutIds.Holds.{first, used, Holds}
use haxeon.LayoutIds.Found.{index_or, find-Holds}
use haxeon.LayoutIds.Insert.{insert-Holds}

-- What the fuel of `capacity_for` can reach.
abbrev doubled : ℕ → ℕ → ℕ
doubled zero c = c
doubled (suc fuel) c = doubled fuel (c * 2)

capacity_fits :
    (fuel c count : ℕ)
    → count ≤ 2 ^ 60
    → c < 2 ^ 62
    → 0 < c
    → 2 ^ 61 ≤ doubled fuel c
    → (count ≤ capacity_for fuel c count / 2) × (0 < capacity_for fuel c count)
unfolding capacity_for
capacity_fits zero c count small low pos far = (omega arith, pos)
capacity_fits (suc fuel) c count small low pos far = elim (Bool-cases (ltb (c / 2) count)) [
  | inr enough ↦ rw (enough, capacity_for) (ground arith, pos)
  | inl short ↦
      let less : c / 2 < count = ground arith in
      let whole : c * 2 % 2 ^ 64 ≡ c * 2 = omega arith in
      rw (short, capacity_for, whole)
        (capacity_fits fuel (c * 2) count small (omega arith) (omega arith) far)
]

blank_at :
    (n : ℕ) (rest : List Entry) (s : ℕ)
    → s < n
    → (entry_at (replicate n blank_entry ++ rest) s).id ≡ 0
blank_at zero rest s low = absurd (omega arith)
blank_at (suc n) rest zero low = refl
blank_at (suc n) rest (suc s) low = blank_at n rest s (omega arith)

used-replicate : (n : ℕ) (rest : List Entry) → used n (replicate n blank_entry ++ rest) ≡ 0
used-replicate zero rest = refl
used-replicate (suc n) rest = omega (arith, used-replicate n rest)

reset-Holds :
    (count : ℕ) (t : LayoutIdIndex)
    → count ≢ 0
    → count ≤ 2 ^ 60
    → Holds [] (reset count t) × (count < (reset count t).active)
unfolding reset
reset-Holds count t some_ids small =
    let n = capacity_for 64 8 count in
    let (half, pos) = capacity_fits 64 8 count small (omega arith) (omega arith) (omega arith) in
    let asked : (count == 0) ≡ false = ground arith in
    rw asked (
      record {
        sized = omega (
          arith,
          length-append (replicate n blank_entry) (drop n t.entries),
          length-replicate n blank_entry,
        );
        known = λ id v own e. cc;
        stored = λ s low full. absurd (full (blank_at n (drop n t.entries) s low));
        load = omega (arith, used-replicate n (drop n t.entries));
      },
      omega (arith, half, pos),
    )

insert_all-Holds :
    (pairs done : List (ℕ × ℕ)) (t : LayoutIdIndex)
    → Holds done t
    → length done + length pairs < t.active
    → (t' : LayoutIdIndex) × (insert_all pairs t ≡ some t')
      × (t'.active ≡ t.active)
      × Holds (done ++ pairs) t'
unfolding insert_all
insert_all-Holds [] done t h spare = (t, refl, refl, rw (append-nil done) h)
insert_all-Holds ((id, index) ∷ pairs) done t h spare =
    let (t1, e, size, h1) = insert-Holds done t id index h (omega arith) in
    let (t2, e2, size2, h2) =
      insert_all-Holds pairs (done ++ (id, index) ∷ []) t1 h1
        (omega (arith, size, length-append done ((id, index) ∷ []))) in
    (t2, rw (insert_all, e) e2, size2 ∙ size, rw (append_assoc done ((id, index) ∷ []) pairs) at h2)

find_any :
    (pairs : List (ℕ × ℕ)) (t : LayoutIdIndex) (id : ℕ)
    → Holds pairs t
    → length pairs < t.active
    → find id t ≡ some (if id == 0 then missing else index_or (first id pairs))
unfolding find
find_any pairs t id h spare = elim (Bool-cases (id == 0)) [
  | inl zero_id ↦ rw (zero_id, find) refl
  | inr own ↦
      let given : id ≢ 0 = ground arith in
      let e = find-Holds pairs t id h spare given in ground arith
]

find_none :
    (id count : ℕ) (t : LayoutIdIndex)
    → (count == 0) ≡ true
    → find id (reset count t) ≡ some missing
unfolding find reset
find_none id count t nothing = ground arith

find-first_none :
    (pairs : List (ℕ × ℕ)) (count : ℕ) (t : LayoutIdIndex)
    → length pairs ≤ count
    → (count == 0) ≡ true
    → (t' : LayoutIdIndex) × (insert_all pairs (reset count t) ≡ some t')
      × ((id : ℕ) → find id t' ≡ some (if id == 0 then missing else index_or (first id pairs)))
unfolding insert_all
find-first_none [] count t few nothing =
    (reset count t, refl, λ id. find_none id count t nothing ∙ ap some (ground arith))
find-first_none (p ∷ pairs) count t few nothing = absurd (ground arith)

-- After a reset for `count` ids, at most 2 ^ 60, whatever the table held before, insertions of at most
-- that many pairs end. Then a search ends for every id: with the index of the first pair that has the
-- id, and with `missing` where there is none, and for the id zero.
pub find-first :
    (pairs : List (ℕ × ℕ)) (count : ℕ) (t : LayoutIdIndex)
    → length pairs ≤ count
    → count ≤ 2 ^ 60
    → (t' : LayoutIdIndex) × (insert_all pairs (reset count t) ≡ some t')
      × ((id : ℕ) → find id t' ≡ some (if id == 0 then missing else index_or (first id pairs)))
find-first pairs count t few small = elim (Bool-cases (count == 0)) [
  | inl nothing ↦ find-first_none pairs count t few nothing
  | inr given ↦
      let some_ids : count ≢ 0 = ground arith in
      let (h, spare) = reset-Holds count t some_ids small in
      let (t', e, size, h') = insert_all-Holds pairs [] (reset count t) h (omega arith) in
      (t', e, λ id. find_any pairs t' id h' (omega (arith, size)))
]
