-- ===== src/LayoutIds/Insert.antt =====
-- `insert` of packages/ui/src/layout/layout_id_index.h keeps the invariant.
use haxeon.Prelude.{
  ℕ, ◌<◌, ◌≡◌, ◌≢◌, ◌∙◌, refl, sym, ap, inl, inr, subst, false, List, [], ◌∷◌, ◌++◌, none, some,
  arith, ◌==◌, if◌then◌else◌, set, length, length-append, length-set, Bool-cases, Option-cases,
}
use haxeon.LayoutIds.{Entry, LayoutIdIndex, blank_entry, bucket, entry_at, walk, place, insert}
use haxeon.LayoutIds.Walk.{walk-stops, get_or-set_same, get_or-set_other, walk-set, walk-new}
use haxeon.LayoutIds.Holds.{first, found, Holds, used-set, found_ends}

first-snoc :
    (j : ℕ) (done : List (ℕ × ℕ)) (id index : ℕ)
    → first j (done ++ (id, index) ∷ [])
      ≡ elim (first j done) [ some v ↦ some v | none ↦ if id == j then some index else none ]
first-snoc j [] id index = ground arith
first-snoc j ((k, v) ∷ done) id index = ground (arith, first-snoc j done id index)

first_kept :
    (j v : ℕ) (done : List (ℕ × ℕ)) (id index : ℕ)
    → first j done ≡ some v
    → first j (done ++ (id, index) ∷ []) ≡ some v
first_kept j v done id index e = first-snoc j done id index ∙ rw e refl

first_own :
    (done : List (ℕ × ℕ)) (id index : ℕ) → (w : ℕ) × (first id (done ++ (id, index) ∷ []) ≡ some w)
first_own done id index = elim (Option-cases (first id done)) [
  | inr (u, old) ↦ (u, first_kept id u done id index old)
  | inl new ↦ (index, first-snoc id done id index ∙ rw new (ground arith))
]

-- The first empty slot on the way takes the pair.
filled-Holds :
    (done : List (ℕ × ℕ)) (t : LayoutIdIndex) (id index s : ℕ)
    → Holds done t
    → id ≢ 0
    → found t id ≡ some s
    → s < t.active
    → (entry_at t.entries s).id ≡ 0
    → Holds
        (done ++ (id, index) ∷ [])
        (record t { entries = set t.entries s (record { id = id; index = index }) })
filled-Holds done t id index s h own e low empty =
    let v : Entry = record { id = id; index = index } in
    let es = t.entries in
    let inside : s < length es = omega (arith, h.sized) in
    let written = get_or-set_same es s v blank_entry inside in
    record {
      sized = rw (length-set es s v) (h.sized);
      known = λ j w some_id asked. elim (Option-cases (first j done)) [
        | inr (u, old) ↦
            let same : u ≡ w = cc (sym (first_kept j u done id index old) ∙ asked) in
            let (k, at_k, own_k, value) = h.known j u some_id old in
            let full : (entry_at es k).id ≢ 0 = λ z. some_id (sym own_k ∙ z) in
            let apart : k ≢ s = λ z. full (ap (λ (i : ℕ). (entry_at es i).id) z ∙ empty) in
            let there = get_or-set_other es s k v blank_entry apart in
            (
              k,
              walk-set t.active t.active es j (bucket t.active j) k s v at_k full empty,
              ap (λ (x : Entry). x.id) there ∙ own_k,
              ap (λ (x : Entry). x.index) there ∙ value ∙ same,
            )
        | inl new ↦ elim (Bool-cases (id == j)) [
          | inr other ↦ cc (rw (new, other) at (sym (first-snoc j done id index) ∙ asked))
          | inl mine ↦
              let this : id ≡ j = ground arith in
              let same : index ≡ w =
                cc (rw (new, mine) at (sym (first-snoc j done id index) ∙ asked)) in
              subst
                (λ (i : ℕ).
                  (k : ℕ) × (walk t.active t.active (set es s v) i (bucket t.active i) ≡ some k)
                  × ((entry_at (set es s v) k).id ≡ i)
                  × ((entry_at (set es s v) k).index ≡ w))
                (this)
                (
                  s,
                  walk-new t.active t.active es id (bucket t.active id) s index e inside,
                  ap (λ (x : Entry). x.id) written,
                  ap (λ (x : Entry). x.index) written ∙ same,
                )
        ]
      ];
      stored = λ k low_k full. elim (Bool-cases (k == s)) [
        | inl here ↦
            let same : s ≡ k = ground arith in
            subst
              (λ (i : ℕ).
                (w : ℕ) × (first (entry_at (set es s v) i).id (done ++ (id, index) ∷ []) ≡ some w))
              (same) (rw (ap (λ (x : Entry). x.id) written) (first_own done id index))
        | inr other ↦
            let apart : k ≢ s = ground arith in
            let there = ap (λ (x : Entry). x.id) (get_or-set_other es s k v blank_entry apart) in
            let (w, old) = h.stored k low_k (λ z. full (there ∙ z)) in
            (w, rw there (first_kept (entry_at es k).id w done id index old))
      ];
      load = omega (arith, h.load, used-set t.active es s v, length-append done ((id, index) ∷ []));
    }

-- An id that is there keeps its first index.
again-Holds :
    (done : List (ℕ × ℕ)) (t : LayoutIdIndex) (id index s : ℕ)
    → Holds done t
    → found t id ≡ some s
    → s < t.active
    → (entry_at t.entries s).id ≢ 0
    → Holds (done ++ (id, index) ∷ []) t
again-Holds done t id index s h e low full =
    let stop = walk-stops t.active t.active t.entries id (bucket t.active id) s e in
    let own : (entry_at t.entries s).id ≡ id = ground arith in
    let (u, old) = h.stored s low full in
    let old_id : first id done ≡ some u = rw own at old in
    record {
      sized = h.sized;
      known = λ j w some_id asked. elim (Option-cases (first j done)) [
        | inr (x, there) ↦
            let same : x ≡ w = cc (sym (first_kept j x done id index there) ∙ asked) in
            h.known j w some_id (there ∙ ap some same)
        | inl new ↦ elim (Bool-cases (id == j)) [
          | inl mine ↦
              let this : id ≡ j = ground arith in
              cc (sym new ∙ ap (λ (i : ℕ). first i done) (sym this) ∙ old_id)
          | inr other ↦ cc (rw (new, other) at (sym (first-snoc j done id index) ∙ asked))
        ]
      ];
      stored = λ k low_k full_k.
          let (w, there) = h.stored k low_k full_k in
          (w, first_kept (entry_at t.entries k).id w done id index there);
      load = omega (arith, h.load, length-append done ((id, index) ∷ []));
    }

skipped-Holds :
    (done : List (ℕ × ℕ)) (t : LayoutIdIndex) (id index : ℕ)
    → Holds done t
    → id ≡ 0
    → Holds (done ++ (id, index) ∷ []) t
skipped-Holds done t id index h none_given = record {
  sized = h.sized;
  known = λ j w some_id asked. elim (Option-cases (first j done)) [
    | inr (x, there) ↦
        let same : x ≡ w = cc (sym (first_kept j x done id index there) ∙ asked) in
        h.known j w some_id (there ∙ ap some same)
    | inl new ↦
        let other : (id == j) ≡ false = ground arith in
        cc (rw (new, other) at (sym (first-snoc j done id index) ∙ asked))
  ];
  stored = λ k low_k full_k.
      let (w, there) = h.stored k low_k full_k in
      (w, first_kept (entry_at t.entries k).id w done id index there);
  load = omega (arith, h.load, length-append done ((id, index) ∷ []));
}

-- With a slot to spare an insertion ends, and adds its pair.
pub insert-Holds :
    (done : List (ℕ × ℕ)) (t : LayoutIdIndex) (id index : ℕ)
    → Holds done t
    → length done < t.active
    → (t' : LayoutIdIndex) × (insert id index t ≡ some t')
      × (t'.active ≡ t.active)
      × Holds (done ++ (id, index) ∷ []) t'
unfolding insert place
insert-Holds done t id index h spare = elim (Bool-cases (id == 0)) [
  | inl nothing ↦
      (t, rw (insert, nothing) refl, refl, skipped-Holds done t id index h (ground arith))
  | inr given ↦
      let in_use : (t.active == 0) ≡ false = ground arith in
      let (s, e, low) = found_ends t id (omega (arith, h.load)) in
      elim (Bool-cases ((entry_at t.entries s).id == 0)) [
        | inl empty ↦ (
          record t { entries = set t.entries s (record { id = id; index = index }) },
          rw (insert, given, in_use, e, empty) refl,
          refl,
          filled-Holds done t id index s h (ground arith) e low (ground arith),
        )
        | inr full ↦ (
          t,
          rw (insert, given, in_use, e, full) refl,
          refl,
          again-Holds done t id index s h e low (ground arith),
        )
      ]
]
