-- ===== src/RetainedGeometry/Kept.antt =====
-- `evict` and a new page of packages/ui/src/render/retained_geometry.h keep the ranges apart and the
-- pages within the budget.
use haxeon.RetainedGeometry.Oldest.{entries_slices, oldest-IsParts}
use haxeon.Prelude.{
  ℕ, zero, suc, ◌+◌, ◌*◌, ◌≤◌, ◌≡◌, ◌∙◌, refl, subst, inl, inr, true, List, [], ◌∷◌, ◌++◌, some,
  ◌==◌, if◌then◌else◌, length, get_elem?, arith, Bool-cases, Option-cases, length-append,
  length-set,
}
use haxeon.RetainedGeometry.{page_bytes}
use haxeon.RetainedGeometry.Free.{packed}
use haxeon.RetainedGeometry.Cache.{
  Slice, Page, Cache, new_page, mesh_slices, oldest, evict, release_slice, release_slices,
}
use haxeon.RetainedGeometry.Owners.{
  total-append, total-le, owns, stray, free_in, all_packed, IsSound, IsSound-fewer,
  release_slices-IsSound,
}

-- The ranges of the entries and the pending ones are apart, and pages and budget are at most `cap`.
pub record Keeps (cap : ℕ) (pending : List Slice) (g : Cache) : Type 0 where
  pub sound : IsSound g.pages (pending ++ entries_slices g.entries)
  pub budget : g.budget ≤ cap
  pub within : length g.pages * page_bytes ≤ cap

pub length-release :
    (slices : List Slice) (pages : List Page) → length (release_slices slices pages) ≡ length pages
unfolding release_slices release_slice
length-release [] pages = refl
length-release (s ∷ slices) pages = elim (Option-cases (get_elem? pages s.page)) [
  | inl missing ↦ rw (release_slice, missing) (length-release slices pages)
  | inr (p, found) ↦ rw (release_slice, found) (length-release slices _ ∙ length-set pages s.page _)
]

free_in-append :
    (i b : ℕ) (pages : List Page) (q : Page)
    → free_in i b (pages ++ q ∷ []) ≤ (if i == length pages then 1 else free_in i b pages)
free_in-append zero b [] q = ground arith
free_in-append (suc i) b [] q = ground arith
free_in-append zero b (p ∷ pages) q = ground arith
free_in-append (suc i) b (p ∷ pages) q = ground (arith, free_in-append i b pages q)

all_packed-append :
    (pages : List Page) (usage : ℕ)
    → all_packed pages ≡ true
    → all_packed (pages ++ new_page usage ∷ []) ≡ true
unfolding packed
all_packed-append [] usage a = ground arith
all_packed-append (p ∷ pages) usage a = ground (arith, all_packed-append pages usage)

-- A new page leaves the ranges as they are.
pub new_page-IsSound :
    (pages : List Page) (slices : List Slice) (usage : ℕ)
    → IsSound pages slices
    → IsSound (pages ++ new_page usage ∷ []) slices
new_page-IsSound pages slices usage sound =
    let n = length pages in
    let longer : length (pages ++ new_page usage ∷ []) ≡ n + 1 =
      length-append pages (new_page usage ∷ []) in
    record {
      ordered = all_packed-append pages usage sound.ordered;
      placed = rw longer (
          omega
            (arith, sound.placed, total-le (stray (n + 1)) (stray n) slices (λ s. ground arith)));
      exclusive = λ i b. elim (Bool-cases (i == n)) [
        | inl last ↦
            let none_there = total-le (owns i b) (stray n) slices (λ s. ground arith) in
            let one = free_in-append i b pages (new_page usage) in
            omega (arith, sound.placed, none_there, rw last at one)
        | inr other ↦
            let kept = free_in-append i b pages (new_page usage) in
            omega (arith, sound.exclusive i b, rw other at kept)
      ];
    }

-- What an eviction leaves.
pub record Evicts (cap : ℕ) (pending : List Slice) (g g' : Cache) : Type 0 where
  pub keeps : Keeps cap pending g'
  pub shorter : length g'.entries + 1 ≡ length g.entries
  pub same_frame : g'.frame ≡ g.frame

pub evict-Evicts :
    (cap : ℕ) (pending : List Slice) (g g' : Cache)
    → Keeps cap pending g
    → evict g ≡ some g'
    → Evicts cap pending g g'
unfolding evict
evict-Evicts cap pending g g' k h = elim (Option-cases (oldest g.frame g.entries)) [
  | inl nothing ↦ absurd (cc (rw (evict, nothing) at h))
  | inr (((key, e), others), found) ↦
      let parts = oldest-IsParts g.frame g.entries others (key, e) found in
      let left : Cache = record g {
        pages = release_slices (mesh_slices e.meshes) g.pages;
        entries = others;
      } in
      let same : left ≡ g' = cc (rw (evict, found) at h) in
      let sound =
        release_slices-IsSound (mesh_slices e.meshes) g.pages (pending ++ entries_slices others) (
          IsSound-fewer g.pages (pending ++ entries_slices g.entries)
            (mesh_slices e.meshes ++ (pending ++ entries_slices others))
            (λ f. omega (
              arith,
              parts.ranges f,
              total-append f (mesh_slices e.meshes) (pending ++ entries_slices others),
              total-append f pending (entries_slices others),
              total-append f pending (entries_slices g.entries),
            ))
            k.sound) in
      subst (Evicts cap pending g) same (record {
        keeps = record {
          sound = sound;
          budget = k.budget;
          within = rw (length-release (mesh_slices e.meshes) g.pages) k.within;
        };
        shorter = parts.shorter;
        same_frame = refl;
      })
]
