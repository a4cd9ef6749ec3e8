-- ===== src/RetainedGeometry/Owners.antt =====
-- Who has a byte of a page of packages/ui/src/render/retained_geometry.h: the ranges that were given out
-- and the free ranges.
use haxeon.Prelude.{
  ℕ, zero, suc, ◌+◌, ◌<◌, ◌≤◌, ◌≡◌, ◌≢◌, refl, ap, subst, inl, inr, Bool, true, false, ◌&&◌, ◌||◌,
  List, [], ◌∷◌, ◌++◌, Option, none, some, ◌==◌, ltb, leb, if◌then◌else◌, length, get_elem?, set,
  arith, Bool-cases, length-set,
}
use haxeon.RetainedGeometry.{Range, page_bytes, aligned, release_range}
use haxeon.RetainedGeometry.Free.{packed, apart, inside, free_at, release_range-packed}
use haxeon.RetainedGeometry.Cache.{Slice, Page, release_slice, release_slices}

abbrev pub total : (Slice → ℕ) → List Slice → ℕ
total f [] = 0
total f (s ∷ slices) = f s + total f slices

-- 1 for a range that has the byte `b` of the page `i`, rounded up to words.
abbrev pub owns : ℕ → ℕ → Slice → ℕ
owns i b s = if s.page == i && inside s.range.offset (aligned s.range.size) b then 1 else 0

-- 1 for a range that is not in one of `n` pages, or empty.
abbrev pub stray : ℕ → Slice → ℕ
stray n s =
    if ltb s.page n
      && ltb 0 s.range.size
      && leb s.range.size page_bytes
      && leb (s.range.offset + aligned s.range.size) page_bytes
    then 0
    else 1

abbrev pub free_byte : ℕ → Option Page → ℕ
free_byte b none = 0
free_byte b (some p) = if free_at b p.free then 1 else 0

abbrev pub free_in : ℕ → ℕ → List Page → ℕ
free_in i b pages = free_byte b (get_elem? pages i)

abbrev pub all_packed : List Page → Bool
all_packed [] = true
all_packed (p ∷ pages) = packed 0 p.free && all_packed pages

-- Every range is in a page, and no byte has two owners, the free ranges included.
pub record IsSound (pages : List Page) (slices : List Slice) : Type 0 where
  pub ordered : all_packed pages ≡ true
  pub placed : total (stray (length pages)) slices ≡ 0
  pub exclusive : (i b : ℕ) → total (owns i b) slices + free_in i b pages ≤ 1

pub total-append :
    (f : Slice → ℕ) (xs ys : List Slice) → total f (xs ++ ys) ≡ total f xs + total f ys
total-append f [] ys = omega arith
total-append f (x ∷ xs) ys = omega (arith, total-append f xs ys)

pub total-le :
    (f g : Slice → ℕ) (xs : List Slice) → ((s : Slice) → f s ≤ g s) → total f xs ≤ total g xs
total-le f g [] h = omega arith
total-le f g (x ∷ xs) h = omega (arith, h x, total-le f g xs h)

-- Fewer ranges are sound as well.
pub IsSound-fewer :
    (pages : List Page) (slices fewer : List Slice)
    → ((f : Slice → ℕ) → total f fewer ≤ total f slices)
    → IsSound pages slices
    → IsSound pages fewer
IsSound-fewer pages slices fewer h sound = record {
  ordered = sound.ordered;
  placed = omega (arith, sound.placed, h (stray (length pages)));
  exclusive = λ i b. omega (arith, sound.exclusive i b, h (owns i b));
}

all_packed-at :
    (pages : List Page) (i : ℕ) (p : Page)
    → all_packed pages ≡ true
    → get_elem? pages i ≡ some p
    → packed 0 p.free ≡ true
all_packed-at [] i p a found = cc
all_packed-at (q ∷ pages) zero p a found =
    let same : q ≡ p = cc in subst (λ (x : Page). packed 0 x.free ≡ true) same (ground arith)
all_packed-at (q ∷ pages) (suc i) p a found = all_packed-at pages i p (ground arith) found

all_packed-set :
    (pages : List Page) (i : ℕ) (p : Page)
    → all_packed pages ≡ true
    → packed 0 p.free ≡ true
    → all_packed (set pages i p) ≡ true
all_packed-set [] i p a h = refl
all_packed-set (q ∷ pages) zero p a h = ground arith
all_packed-set (q ∷ pages) (suc i) p a h = ground (arith, all_packed-set pages i p)

page_at : (pages : List Page) (i : ℕ) → i < length pages → (p : Page) × (get_elem? pages i ≡ some p)
page_at [] i low = absurd (omega arith)
page_at (p ∷ pages) zero low = (p, refl)
page_at (p ∷ pages) (suc i) low = page_at pages i (omega arith)

get-set_same :
    (pages : List Page) (i : ℕ) (p : Page) → i < length pages → get_elem? (set pages i p) i ≡ some p
get-set_same [] i p low = absurd (omega arith)
get-set_same (q ∷ pages) zero p low = refl
get-set_same (q ∷ pages) (suc i) p low = get-set_same pages i p (omega arith)

get-set_other :
    (pages : List Page) (i k : ℕ) (p : Page)
    → i ≢ k
    → get_elem? (set pages i p) k ≡ get_elem? pages k
get-set_other [] i k p other = refl
get-set_other (q ∷ pages) zero zero p other = absurd (other refl)
get-set_other (q ∷ pages) zero (suc k) p other = refl
get-set_other (q ∷ pages) (suc i) zero p other = refl
get-set_other (q ∷ pages) (suc i) (suc k) p other =
    get-set_other pages i k p (λ e. other (ap suc e))

-- Ranges without a common byte lie beside each other.
apart-bytes :
    (low offset size : ℕ) (free : List Range)
    → 0 < size
    → packed low free ≡ true
    → ((b : ℕ) → inside offset size b ≡ true → free_at b free ≡ false)
    → apart offset size free ≡ true
unfolding packed apart free_at
apart-bytes low offset size [] some_bytes p h = refl
apart-bytes low offset size (f ∷ free) some_bytes p h =
    let later : apart offset size free ≡ true =
      apart-bytes (f.offset + f.size + 1) offset size free some_bytes (ground arith)
        (λ b i. let none_free = h b i in ground arith) in
    let full : 0 < f.size = ground arith in
    elim (Bool-cases (leb (f.offset + f.size) offset)) [
      | inl before ↦ rw (before, later) refl
      | inr reaches ↦ elim (Bool-cases (leb (offset + size) f.offset)) [
        | inl behind ↦ rw (behind, later) (ground arith)
        | inr meets ↦ elim (Bool-cases (ltb offset f.offset)) [
          | inl starts ↦ let at_f = h f.offset (ground arith) in absurd (ground arith)
          | inr inner ↦ let at_r = h offset (ground arith) in absurd (ground arith)
        ]
      ]
    ]

either_byte :
    (own old now : Bool)
    → now ≡ (own || old)
    → (if now then 1 else 0) ≤ (if own then 1 else 0) + (if old then 1 else 0)
either_byte own old now e = ground arith

module _ (pages : List Page) (s : Slice) (slices : List Slice)
    (sound : IsSound pages (s ∷ slices)) where
  -- What is known of a range that was given out.
  given :
      (s.page < length pages)
      × (0 < s.range.size)
      × (s.range.size ≤ page_bytes)
      × (s.range.offset + aligned s.range.size ≤ page_bytes)
  given =
      let here : stray (length pages) s ≡ 0 = omega (arith, sound.placed) in
      (ground arith, ground arith, ground arith, ground arith)

  module _ (p : Page) (at_page : get_elem? pages s.page ≡ some p) where
    own_bytes :
        (b : ℕ) → inside s.range.offset (aligned s.range.size) b ≡ true → free_at b p.free ≡ false
    own_bytes b i =
        let own : owns s.page b s ≡ 1 = rw i (ground arith) in
        let free : free_in s.page b pages ≡ (if free_at b p.free then 1 else 0) = rw at_page refl in
        elim (Bool-cases (free_at b p.free)) [
          | inr taken ↦ taken
          | inl there ↦ absurd (omega (arith, sound.exclusive s.page b, own, rw there at free))
        ]

    clear : apart s.range.offset (aligned s.range.size) p.free ≡ true
    unfolding aligned
    clear =
        let some_bytes = given.1 in
        apart-bytes 0 s.range.offset (aligned s.range.size) p.free (omega (arith, given.2))
          (all_packed-at pages s.page p sound.ordered at_page) own_bytes

    abbrev freed : Page
    freed = record p { free = release_range s.range p.free }

    freed-bytes : (i b : ℕ) → free_in i b (set pages s.page freed) ≤ owns i b s + free_in i b pages
    freed-bytes i b =
        let order = all_packed-at pages s.page p sound.ordered at_page in
        let (_, bytes) = release_range-packed s.range p.free given.1 given.3 given.2 order clear in
        elim (Bool-cases (s.page == i)) [
          | inl same ↦
              let here : s.page ≡ i = ground arith in
              let now : get_elem? (set pages s.page freed) i ≡ some freed =
                subst (λ (k : ℕ). get_elem? (set pages s.page freed) k ≡ some freed) here
                  (get-set_same pages s.page freed given.0) in
              let old : get_elem? pages i ≡ some p =
                subst (λ (k : ℕ). get_elem? pages k ≡ some p) here at_page in
              rw (now, old, same)
                (either_byte (inside s.range.offset (aligned s.range.size) b) (free_at b p.free)
                  (free_at b freed.free) (bytes b))
          | inr other ↦
              let kept = get-set_other pages s.page i freed (λ e. ground arith) in
              rw (kept, other) (omega arith)
        ]

    freed-IsSound : IsSound (set pages s.page freed) slices
    freed-IsSound =
        let order = all_packed-at pages s.page p sound.ordered at_page in
        let (order', _) = release_range-packed s.range p.free given.1 given.3 given.2 order clear in
        record {
          ordered = all_packed-set pages s.page freed sound.ordered order';
          placed = rw (length-set pages s.page freed) (omega (arith, sound.placed));
          exclusive = λ i b. omega (arith, sound.exclusive i b, freed-bytes i b);
        }

  -- A range that is released leaves the others sound.
  pub release_slice-IsSound : IsSound (release_slice s pages) slices
  unfolding release_slice
  release_slice-IsSound =
      let (p, at_page) = page_at pages s.page given.0 in
      rw (release_slice, at_page) (freed-IsSound p at_page)

pub release_slices-IsSound :
    (released : List Slice) (pages : List Page) (slices : List Slice)
    → IsSound pages (released ++ slices)
    → IsSound (release_slices released pages) slices
unfolding release_slices
release_slices-IsSound [] pages slices sound = sound
release_slices-IsSound (s ∷ released) pages slices sound =
    release_slices-IsSound released (release_slice s pages) slices
      (release_slice-IsSound pages s (released ++ slices) sound)
