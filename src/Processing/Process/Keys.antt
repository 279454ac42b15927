-- ===== src/Processing/Process/Keys.antt =====
-- What process leaves for the cleanup: cleanupKeys, and the keys that it may have written to.
use mathlib.Core.List.{append_assoc, append-nil}
use blueprint_audio_backend.Common.{
  ℕ, List, [], ◌∷◌, ◌++◌, ◌≡◌, refl, sym, ap, ◌∙◌, subst, inl, inr, In, All, Text, arith,
}
use blueprint_audio_backend.Db.{Env, World, ok, err, ◌>>=◌}
use blueprint_audio_backend.Db.Results.{Result-cases}
use blueprint_audio_backend.Catalog.Domain.{SpecUploadAsset, ProcessingBundle, ProcessedSpecFiles}
use blueprint_audio_backend.Processing.Media.{Ports, Bench}
use blueprint_audio_backend.Processing.Process.{
  visit_asset, add_keys, processed_image_key, copy_assets, process_assets, process,
}
use blueprint_audio_backend.Processing.Process.Reads.{
  IsWriting, Extends, reading, reads-IsWriting, process_assets-IsWriting, copy_asset-IsWriting,
}

-- the keys of the assets in the order of cleanupKeys
abbrev pub asset_keys : List SpecUploadAsset → List Text
asset_keys [] = []
asset_keys (a ∷ assets) = a.object_key ∷ (a.final_object_key ∷ asset_keys assets)

In-append_left : (xs ys : List Text) (k : Text) → In k xs → In k (xs ++ ys)
In-append_left [] ys k m = absurd m
In-append_left (x ∷ xs) ys k (inl e) = inl e
In-append_left (x ∷ xs) ys k (inr m) = inr (In-append_left xs ys k m)

In-append_right : (xs ys : List Text) (k : Text) → In k ys → In k (xs ++ ys)
In-append_right [] ys k m = m
In-append_right (x ∷ xs) ys k m = inr (In-append_right xs ys k m)

-- every key that may have been written to is one to clean up
abbrev pub IsCovered : Bench → Type 0
IsCovered b = All (λ k. In k b.keys) b.written

All-In_more :
    (ks written more : List Text)
    → All (λ k. In k ks) written
    → All (λ k. In k (ks ++ more)) written
All-In_more ks [] more h = tt
All-In_more ks (k ∷ written) more (m, h) =
    (In-append_left ks more k m, All-In_more ks written more h)

-- the assets that the loop has come to
abbrev Visits : List SpecUploadAsset → Bench → Bench → Type 0
Visits visited b b' = (b'.keys ≡ b.keys ++ asset_keys visited) × IsCovered b'

IsCovered-Extends :
    (key : Text) (b b' : Bench) → In key b.keys → IsCovered b → Extends key b b' → IsCovered b'
IsCovered-Extends key b b' m covered (same, inl kept) =
    subst (λ ks. All (λ k. In k b'.keys) ks) (sym kept)
      (subst (λ ks. All (λ k. In k ks) b.written) (sym same) covered)
IsCovered-Extends key b b' m covered (same, inr more) =
    subst (λ ks. All (λ k. In k b'.keys) ks) (sym more)
      (subst (λ ks. All (λ k. In k ks) (key ∷ b.written)) (sym same) (m, covered))

module _ (p : Ports) where
  visit_asset-IsWriting :
      (seen : List SpecUploadAsset) (a : SpecUploadAsset)
      → IsWriting a.final_object_key (visit_asset p seen a)
  unfolding visit_asset
  visit_asset-IsWriting seen a = search (reading, reads-IsWriting, copy_asset-IsWriting) depth 14

  copy_assets-Visits :
      (seen assets : List SpecUploadAsset) (env : Env) (w : World Bench)
      → IsCovered w.store
      → (visited : List SpecUploadAsset) × (rest : List SpecUploadAsset) × (assets
          ≡ visited ++ rest)
        × Visits visited w.store (copy_assets p seen assets env w).1.store
        × ((all : List SpecUploadAsset) → (copy_assets p seen assets env w).0 ≡ ok all → rest ≡ [])
  unfolding copy_assets
  copy_assets-Visits seen [] env w covered =
      ([], [], refl, (sym (append-nil w.store.keys), covered), λ all h. refl)
  copy_assets-Visits seen (a ∷ assets) env w covered =
      let own = a.object_key ∷ a.final_object_key ∷ [] in
      let added = (add_keys own env w).1 in
      let visited = (visit_asset p seen a env added).1 in
      let (same, written) = (visit_asset-IsWriting seen a).at env added in
      let mine : In a.final_object_key (w.store.keys ++ own) =
        In-append_right w.store.keys own a.final_object_key (inr (inl refl)) in
      let before = All-In_more w.store.keys w.store.written own covered in
      let after : IsCovered visited.store =
        IsCovered-Extends a.final_object_key added.store visited.store mine before
          (same, written) in
      elim (Result-cases (visit_asset p seen a env added).0) [
        | inl (e, fails) ↦
            let ends : copy_assets p seen (a ∷ assets) env w ≡ (err e, visited) =
              rw (fails, ◌>>=◌) refl in
            (a ∷ [], assets, refl, rw ends (same, after), rw ends λ all h. absurd (ground arith))
        | inr (_, visits) ↦
            let goes_on : copy_assets p seen (a ∷ assets) env w
                ≡ copy_assets p (a ∷ seen) assets env visited =
              rw (visits, ◌>>=◌) refl in
            let (more, rest, split, (keys, covered'), whole) =
              copy_assets-Visits (a ∷ seen) assets env visited after in
            (
              a ∷ more,
              rest,
              ap (λ l. a ∷ l) split,
              rw goes_on (
                keys
                    ∙ ap (λ ks. ks ++ asset_keys more) same
                    ∙ append_assoc w.store.keys own (asset_keys more),
                covered',
              ),
              rw goes_on whole,
            )
      ]

  -- However process ends, cleanupKeys holds the key of the processed cover and then the keys of the
  -- assets that its loop has come to, which are the first of the bundle's and, where process
  -- succeeds, all of them; and every key that it may have written to is among these.
  pub process-keys :
      (bundle : ProcessingBundle) (env : Env) (tick : ℕ)
      → let (result, w) =
          process p bundle env
            (record { tick = tick; store = record { written = []; keys = [] } }) in
        (visited : List SpecUploadAsset) × (rest : List SpecUploadAsset) × (bundle.assets
          ≡ visited ++ rest)
        × (w.store.keys ≡ processed_image_key p bundle.spec.id ∷ asset_keys visited)
        × ((files : ProcessedSpecFiles) → result ≡ ok files → rest ≡ [])
        × All (λ k. In k w.store.keys) w.store.written
  unfolding process
  process-keys bundle env tick =
      let image_key = processed_image_key p bundle.spec.id in
      let start : World Bench = record {
        tick = tick;
        store = record { written = []; keys = [] };
      } in
      let began : World Bench = record {
        tick = tick;
        store = record { written = []; keys = image_key ∷ [] };
      } in
      let copied = (copy_assets p [] bundle.assets env began).1 in
      let (visited, rest, split, (keys, covered), whole) =
        copy_assets-Visits [] bundle.assets env began tt in
      elim (Result-cases (copy_assets p [] bundle.assets env began).0) [
        | inl (e, fails) ↦
            let ends : process p bundle env start ≡ (err e, copied) = rw (fails, ◌>>=◌) refl in
            rw ends (visited, rest, split, keys, (λ files h. absurd (ground arith)), covered)
        | inr (assets, copies) ↦
            let goes_on : process p bundle env start
                ≡ process_assets p bundle.spec.id bundle.spec.category assets env copied =
              rw (copies, ◌>>=◌) refl in
            let (same, written) =
              (process_assets-IsWriting p bundle.spec.id bundle.spec.category assets).at env
                copied in
            let mine : In image_key copied.store.keys = rw keys (inl refl) in
            rw goes_on (
              visited,
              rest,
              split,
              same ∙ keys,
              (λ files h. whole assets copies),
              IsCovered-Extends image_key copied.store _ mine covered (same, written),
            )
      ]
