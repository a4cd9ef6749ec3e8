-- ===== src/RetainedGeometry/Placing.antt =====
-- What `allocate` of packages/ui/src/render/retained_geometry.h gives out in its pages was free.
use haxeon.Prelude.{
  ℕ, zero, suc, ◌+◌, ◌<◌, ◌≤◌, ◌≡◌, refl, ap, subst, inl, inr, Bool, true, false, ◌||◌, List, [],
  ◌∷◌, Option, none, some, ◌==◌, if◌then◌else◌, length, arith, Bool-cases,
}
use haxeon.RetainedGeometry.{Range, page_bytes, aligned}
use haxeon.RetainedGeometry.Free.{apart, inside, free_at}
use haxeon.RetainedGeometry.Take.{IsTaken, take_range-IsTaken}
use haxeon.RetainedGeometry.Cache.{Slice, Page, passed_over, place_in}
use haxeon.RetainedGeometry.Owners.{owns, free_in, all_packed}

apart-clear :
    (offset size b : ℕ) (free : List Range)
    → apart offset size free ≡ true
    → inside offset size b ≡ true
    → free_at b free ≡ false
unfolding apart free_at
apart-clear offset size b [] a i = refl
apart-clear offset size b (f ∷ free) a i = ground (arith, apart-clear offset size b free)

-- The range `s` of `size` bytes came out of `pages`, whose first page has the number `k`, and `left` is
-- left.
pub record IsPlaced (k size : ℕ) (pages : List Page) (s : Slice) (left : List Page) : Type 0 where
  pub same_pages : length left ≡ length pages
  pub ordered : all_packed left ≡ true
  pub from : k ≤ s.page
  pub below : s.page < k + length pages
  pub sized : s.range.size ≡ size
  pub in_page : s.range.offset + aligned size ≤ page_bytes
  pub bytes : (i b : ℕ) → owns (i + k) b s + free_in i b left ≤ free_in i b pages

moved_byte :
    (own old now : Bool)
    → old ≡ (own || now)
    → (own ≡ true → now ≡ false)
    → (if own then 1 else 0) + (if now then 1 else 0) ≤ (if old then 1 else 0)
moved_byte true old true e clear = absurd (cc (clear refl))
moved_byte true old false e clear = ground arith
moved_byte false old now e clear = ground arith

first-IsPlaced :
    (k size : ℕ) (p : Page) (pages : List Page) (r : Range) (free : List Range) (bytes : List ℕ)
    → all_packed (p ∷ pages) ≡ true
    → IsTaken 0 size p.free r free
    → IsPlaced k size
        (p ∷ pages)
        (record { page = k; range = r })
        (record p { bytes = bytes; free = free } ∷ pages)
first-IsPlaced k size p pages r free bytes a t = record {
  same_pages = refl;
  ordered = ground (arith, t.order);
  from = omega arith;
  below = omega arith;
  sized = t.sized;
  in_page = t.in_page;
  bytes = at;
}
  where
    at :
        (i b : ℕ)
        → owns (i + k) b (record { page = k; range = r })
            + free_in i b (record p { bytes = bytes; free = free } ∷ pages)
          ≤ free_in i b (p ∷ pages)
    at zero b =
        let here : (k == 0 + k) ≡ true = ground arith in
        let size_of : aligned r.size ≡ aligned size = ap aligned t.sized in
        rw (here, size_of)
          (moved_byte (inside r.offset (aligned size) b) (free_at b p.free) (free_at b free)
            (t.bytes b) (apart-clear r.offset (aligned size) b free t.clear))
    at (suc i) b = let other : (k == suc i + k) ≡ false = ground arith in rw other (omega arith)

later-IsPlaced :
    (k size : ℕ) (p : Page) (pages left : List Page) (s : Slice)
    → all_packed (p ∷ pages) ≡ true
    → IsPlaced (k + 1) size pages s left
    → IsPlaced k size (p ∷ pages) s (p ∷ left)
later-IsPlaced k size p pages left s a t = record {
  same_pages = omega (arith, t.same_pages);
  ordered = ground (arith, t.ordered);
  from = omega (arith, t.from);
  below = omega (arith, t.below);
  sized = t.sized;
  in_page = t.in_page;
  bytes = at;
}
  where
    at : (i b : ℕ) → owns (i + k) b s + free_in i b (p ∷ left) ≤ free_in i b (p ∷ pages)
    at zero b =
        let other : (s.page == 0 + k) ≡ false = ground (arith, t.from) in rw other (omega arith)
    at (suc i) b =
        let moved : i + (k + 1) ≡ suc i + k = omega arith in
        subst (λ (n : ℕ). owns n b s + free_in i b left ≤ free_in i b pages) moved (t.bytes i b)

same_placing :
    (k size : ℕ) (pages left left' : List Page) (s s' : Slice)
    → ◌≡◌ {A = Option (Slice × List Page)} (some (s', left')) (some (s, left))
    → IsPlaced k size pages s' left'
    → IsPlaced k size pages s left
same_placing k size pages left left' s s' e t =
    let same_s : s' ≡ s = cc e in
    let same_left : left' ≡ left = cc e in
    subst (λ (x : Slice). IsPlaced k size pages x left) same_s
      (subst (λ (x : List Page). IsPlaced k size pages s' x) same_left t)

-- The page `p` gave nothing.
skipped_page :
    (k size : ℕ) (p : Page) (pages left : List Page) (s : Slice)
    (later : Option (Slice × List Page))
    → all_packed (p ∷ pages) ≡ true
    → ((s' : Slice) (rest : List Page)
        → later ≡ some (s', rest)
        → IsPlaced (k + 1) size pages s' rest)
    → passed_over p later ≡ some (s, left)
    → IsPlaced k size (p ∷ pages) s left
skipped_page k size p pages left s none a ih e = cc
skipped_page k size p pages left s (some (s', rest)) a ih e =
    same_placing k size (p ∷ pages) left (p ∷ rest) s s' e
      (later-IsPlaced k size p pages rest s' a (ih s' rest refl))

-- A range of at most a page, which is not empty, is given out of a page with room.
pub place_in-IsPlaced :
    (k usage : ℕ) (payload : List ℕ) (pages left : List Page) (s : Slice)
    → 0 < length payload
    → length payload ≤ page_bytes
    → all_packed pages ≡ true
    → place_in k usage payload pages ≡ some (s, left)
    → IsPlaced k (length payload) pages s left
unfolding place_in
place_in-IsPlaced k usage payload [] left s some_bytes few a e = cc
place_in-IsPlaced k usage payload (p ∷ pages) left s some_bytes few a e =
    let go_on =
      skipped_page k (length payload) p pages left s (place_in (k + 1) usage payload pages) a
        (λ s' rest there.
          place_in-IsPlaced (k + 1) usage payload pages rest s' some_bytes few (ground arith)
            there) in
    elim (Bool-cases (p.usage == usage)) [
      | inr other ↦ go_on (rw (place_in, other) at e)
      | inl same ↦
          elim (take_range-IsTaken 0 (length payload) p.free some_bytes few (ground arith)) [
            | inr (nothing, small) ↦ go_on (rw (place_in, same, nothing) at e)
            | inl (r, free, found, t) ↦
                same_placing k (length payload) (p ∷ pages) left _ s _
                  (rw (place_in, same, found) at e)
                  (first-IsPlaced k (length payload) p pages r free _ a t)
          ]
    ]
