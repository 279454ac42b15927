-- ===== src/Processing/Next/Cleanup.antt =====
-- The deletions at the end of ProcessNext.
use blueprint_audio_backend.Common.{
  Bool, true, false, List, [], ◌∷◌, ◌≡◌, ◌⊎◌, refl, inl, inr, In, All, subst, sym, if◌then◌else◌,
  Text, Bool-cases,
}
use blueprint_audio_backend.Catalog.Domain.{UploadAssetKind, SpecUploadAsset, kind_eq}
use blueprint_audio_backend.Processing.Next.{Notice, Site, cleanup, delete_sources, notify}

cleanup-In :
    (keys : List Text) (s : Site) (k : Text) → In k s.deleted → In k (cleanup keys s).deleted
cleanup-In [] s k m = m
cleanup-In (x ∷ keys) s k m = cleanup-In keys (record s { deleted = x ∷ s.deleted }) k (inr m)

cleanup-All : (keys : List Text) (s : Site) → All (λ k. In k (cleanup keys s).deleted) keys
cleanup-All [] s = tt
cleanup-All (x ∷ keys) s =
    let s' = record s { deleted = x ∷ s.deleted } in
    (cleanup-In keys s' x (inl refl), cleanup-All keys s')

pub cleanup-tables : (keys : List Text) (s : Site) → (cleanup keys s).tables ≡ s.tables
cleanup-tables [] s = refl
cleanup-tables (x ∷ keys) s = cleanup-tables keys (record s { deleted = x ∷ s.deleted })

-- every key of a list that is All-In another is there
pub All-In :
    (P : Text → Type 0) (keys written : List Text)
    → All (λ k. In k keys) written
    → All P keys
    → All P written
All-In P keys [] h all = tt
All-In P keys (k ∷ written) (m, h) all = (pick keys k m all, All-In P keys written h all)
  where
    pick : (keys : List Text) (k : Text) → In k keys → All P keys → P k
    pick [] k m all = absurd m
    pick (x ∷ keys) k (inl e) (p, all) = subst P (sym e) p
    pick (x ∷ keys) k (inr m) (p, all) = pick keys k m all

-- the objects that ProcessNext deletes once a job is completed
abbrev pub source_keys : List SpecUploadAsset → List Text
source_keys [] = []
source_keys (a ∷ assets) =
    let rest = source_keys assets in
    if kind_eq a.kind UploadAssetKind.image
    then a.object_key ∷ (a.final_object_key ∷ rest)
    else a.object_key ∷ rest

pub delete_sources-cleanup :
    (assets : List SpecUploadAsset) (s : Site)
    → delete_sources assets s ≡ cleanup (source_keys assets) s
delete_sources-cleanup [] s = refl
delete_sources-cleanup (a ∷ assets) s = elim (Bool-cases (kind_eq a.kind UploadAssetKind.image)) [
  | inl image ↦
      rw image (delete_sources-cleanup assets (cleanup (a.object_key ∷ a.final_object_key ∷ []) s))
  | inr other ↦ rw other (delete_sources-cleanup assets (cleanup (a.object_key ∷ []) s))
]

cleanup_only :
    (keys : List Text) (s : Site) (k : Text)
    → In k (cleanup keys s).deleted
    → In k keys ⊎ In k s.deleted
cleanup_only [] s k m = inr m
cleanup_only (x ∷ keys) s k m =
    elim (cleanup_only keys (record s { deleted = x ∷ s.deleted }) k m) [
      | inl here ↦ inl (inr here)
      | inr (inl e) ↦ inl (inl e)
      | inr (inr old) ↦ inr old
    ]

pub notify-kept :
    (has_notifier : Bool) (n : Notice) (s : Site)
    → ((notify has_notifier n s).deleted ≡ s.deleted)
      × ((notify has_notifier n s).tables ≡ s.tables)
notify-kept true n s = (refl, refl)
notify-kept false n s = (refl, refl)

-- exactly the keys in addition
abbrev pub Deletes : List Text → List Text → List Text → Type 0
Deletes keys before after =
    All (λ k. In k after) keys × ((k : Text) → In k after → In k keys ⊎ In k before)

pub cleanup-Deletes :
    (keys : List Text) (s : Site) → Deletes keys s.deleted (cleanup keys s).deleted
cleanup-Deletes keys s = (cleanup-All keys s, cleanup_only keys s)
