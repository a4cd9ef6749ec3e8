-- ===== src/RetainedGeometry/Oldest.antt =====
-- The entry that `evict` of packages/ui/src/render/retained_geometry.h chooses.
use haxeon.Prelude.{
  ℕ, ◌+◌, ◌≡◌, refl, sym, subst, inl, inr, List, [], ◌∷◌, ◌++◌, Option, none, some, ◌==◌, leb,
  length, arith, Bool-cases,
}
use haxeon.RetainedGeometry.Cache.{Slice, Entry, GeometryKey, mesh_slices, older, kept_back, oldest}
use haxeon.RetainedGeometry.Owners.{total, total-append}

-- The ranges of all entries.
abbrev pub entries_slices : List (GeometryKey × Entry) → List Slice
entries_slices [] = []
entries_slices ((k, e) ∷ entries) = mesh_slices e.meshes ++ entries_slices entries

-- The entry `e` came out of the list, and the others are left.
pub record IsParts (entries : List (GeometryKey × Entry)) (e : GeometryKey × Entry)
    (others : List (GeometryKey × Entry)) : Type 0 where
  pub shorter : length others + 1 ≡ length entries
  pub ranges :
      (f : Slice → ℕ)
      → total f (mesh_slices (e.1).meshes) + total f (entries_slices others)
        ≡ total f (entries_slices entries)

here-IsParts :
    (x : GeometryKey × Entry) (entries : List (GeometryKey × Entry))
    → IsParts (x ∷ entries) x entries
here-IsParts (k, x) entries = record {
  shorter = omega arith;
  ranges = λ f. sym (total-append f (mesh_slices x.meshes) (entries_slices entries));
}

there-IsParts :
    (x e : GeometryKey × Entry) (entries others : List (GeometryKey × Entry))
    → IsParts entries e others
    → IsParts (x ∷ entries) e (x ∷ others)
there-IsParts (k, x) e entries others p = record {
  shorter = omega (arith, p.shorter);
  ranges = λ f. omega (
    arith,
    p.ranges f,
    total-append f (mesh_slices x.meshes) (entries_slices others),
    total-append f (mesh_slices x.meshes) (entries_slices entries),
  );
}

same-IsParts :
    (entries others others' : List (GeometryKey × Entry)) (e e' : GeometryKey × Entry)
    → ◌≡◌ {A = Option ((GeometryKey × Entry) × List (GeometryKey × Entry))}
        (some (e', others'))
        (some (e, others))
    → IsParts entries e' others'
    → IsParts entries e others
same-IsParts entries others others' e e' h p =
    let same_e : e' ≡ e = cc h in
    let same_others : others' ≡ others = cc h in
    subst (λ (x : GeometryKey × Entry). IsParts entries x others) same_e
      (subst (λ (x : List (GeometryKey × Entry)). IsParts entries e' x) same_others p)

older-IsParts :
    (x : GeometryKey × Entry) (entries : List (GeometryKey × Entry))
    (later : Option ((GeometryKey × Entry) × List (GeometryKey × Entry)))
    → ((e : GeometryKey × Entry) (others : List (GeometryKey × Entry))
        → later ≡ some (e, others)
        → IsParts entries e others)
    → IsParts (x ∷ entries) (older x later entries).0 (older x later entries).1
older-IsParts x entries none ih = here-IsParts x entries
older-IsParts x entries (some (e, others)) ih = elim (Bool-cases (leb (x.1).used (e.1).used)) [
  | inl first ↦ rw first (here-IsParts x entries)
  | inr second ↦ rw second (there-IsParts x e entries others (ih e others refl))
]

kept_back-IsParts :
    (x e : GeometryKey × Entry) (entries others : List (GeometryKey × Entry))
    (later : Option ((GeometryKey × Entry) × List (GeometryKey × Entry)))
    → ((e' : GeometryKey × Entry) (others' : List (GeometryKey × Entry))
        → later ≡ some (e', others')
        → IsParts entries e' others')
    → kept_back x later ≡ some (e, others)
    → IsParts (x ∷ entries) e others
kept_back-IsParts x e entries others none ih h = cc
kept_back-IsParts x e entries others (some (e', others')) ih h =
    same-IsParts (x ∷ entries) others (x ∷ others') e e' h
      (there-IsParts x e' entries others' (ih e' others' refl))

pub oldest-IsParts :
    (frame : ℕ) (entries others : List (GeometryKey × Entry)) (e : GeometryKey × Entry)
    → oldest frame entries ≡ some (e, others)
    → IsParts entries e others
unfolding oldest
oldest-IsParts frame [] others e h = cc
oldest-IsParts frame (x ∷ entries) others e h =
    let later = λ (e' : GeometryKey × Entry) (others' : List (GeometryKey × Entry)).
      oldest-IsParts frame entries others' e' in
    elim (Bool-cases ((x.1).used == frame)) [
      | inl recent ↦
          kept_back-IsParts x e entries others (oldest frame entries) later
            (rw (oldest, recent) at h)
      | inr old ↦
          same-IsParts (x ∷ entries) others (older x (oldest frame entries) entries).1 e
            (older x (oldest frame entries) entries).0 (rw (oldest, old) at h)
            (older-IsParts x entries (oldest frame entries) later)
    ]
