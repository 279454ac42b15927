-- ===== src/Common/Table/Laws.antt =====
-- Laws of the statements over one table.
use Prim.Native.Nat.{ℕ}
use mathlib.Core.Path.{◌≡◌, refl, sym, subst}
use mathlib.Core.Logic.{◌⊎◌, inl, inr}
use mathlib.Core.Bool.{Bool, true, false}
use mathlib.Core.Option
use mathlib.Core.Option.{Option, none, some}
use mathlib.Core.List.{List, [], ◌∷◌, ◌++◌, map}
use native.Mathlib.Omega.{arith}
use blueprint_audio_backend.Common.Tests.{◌==◌, Bool-cases, ==_iff}
use blueprint_audio_backend.Common.Table.{
  All, In, member, touch, select_where, update_where, find_where, count_where, exists_where,
}

module _ {A : Type 0} where
  -- a row of an updated table comes from a row of the table
  pub In-update_where :
      (p : A → Bool) (f : A → A) (xs : List A) (y : A)
      → In y (update_where p f xs)
      → (x : A) × In x xs × (y ≡ touch p f x)
  In-update_where p f [] y m = absurd m
  In-update_where p f (x ∷ xs) y (inl e) = (x, inl refl, e)
  In-update_where p f (x ∷ xs) y (inr m) =
      let (x', m', e) = In-update_where p f xs y m in (x', inr m', e)

  pub In-append : (xs : List A) (a y : A) → In y (xs ++ a ∷ []) → In y xs ⊎ (y ≡ a)
  In-append [] a y (inl e) = inr e
  In-append [] a y (inr m) = absurd m
  In-append (x ∷ xs) a y (inl e) = inl (inl e)
  In-append (x ∷ xs) a y (inr m) = elim (In-append xs a y m) [
    | inl m' ↦ inl (inr m')
    | inr e ↦ inr e
  ]

  -- no row satisfies a test that EXISTS refutes
  pub exists_false :
      (q : A → Bool) (xs : List A) (x : A) → exists_where q xs ≡ false → In x xs → q x ≡ false
  exists_false q [] x h m = absurd m
  exists_false q (y ∷ xs) x h (inl e) = rw e (ground arith)
  exists_false q (y ∷ xs) x h (inr m) = exists_false q xs x (ground arith) m

  pub select-In :
      (p : A → Bool) (xs : List A) (x : A) → In x (select_where p xs) → In x xs × (p x ≡ true)
  select-In p [] x m = absurd m
  select-In p (y ∷ xs) x m = elim (Bool-cases (p y)) [
    | inl e ↦ elim (there e) [
      | inl same ↦ (inl same, rw same e)
      | inr m' ↦ let (m'', h) = select-In p xs x m' in (inr m'', h)
    ]
    | inr e ↦ let (m', h) = select-In p xs x (skipped e) in (inr m', h)
  ]
    where
      there : p y ≡ true → (x ≡ y) ⊎ In x (select_where p xs)
      there e = rw e at m

      skipped : p y ≡ false → In x (select_where p xs)
      skipped e = rw e at m

  pub In-select :
      (p : A → Bool) (xs : List A) (x : A) → In x xs → p x ≡ true → In x (select_where p xs)
  In-select p [] x m h = absurd m
  In-select p (y ∷ xs) x (inl e) h = let h' : p y ≡ true = (rw e at h) in rw h' (inl e)
  In-select p (y ∷ xs) x (inr m) h = elim (Bool-cases (p y)) [
    | inl e ↦ rw e (inr (In-select p xs x m h))
    | inr e ↦ rw e (In-select p xs x m h)
  ]

  pub member-map : (k : A → ℕ) (xs : List A) (x : A) → In x xs → member (k x) (map k xs) ≡ true
  member-map k [] x m = absurd m
  member-map k (y ∷ xs) x (inl e) = rw e (ground arith)
  member-map k (y ∷ xs) x (inr m) = ground (arith, member-map k xs x m)

  pub map-member :
      (k : A → ℕ) (xs : List A) (i : ℕ) → member i (map k xs) ≡ true → (x : A) × In x xs × (i ≡ k x)
  map-member k [] i h = cc
  map-member k (y ∷ xs) i h = elim (Bool-cases (i == k y)) [
    | inl e ↦ (y, inl refl, (==_iff i (k y)).0 e)
    | inr e ↦ let (x, m, e') = map-member k xs i (ground arith) in (x, inr m, e')
  ]

  pub All-In : (P : A → Type 0) (xs : List A) → ((x : A) → In x xs → P x) → All P xs
  All-In P [] h = tt
  All-In P (x ∷ xs) h = (h x (inl refl), All-In P xs (λ y m. h y (inr m)))

  pub All-lookup : (P : A → Type 0) {x : A} (xs : List A) → All P xs → In x xs → P x
  All-lookup P [] h m = absurd m
  All-lookup P (y ∷ xs) h (inl e) = subst P (sym e) h.0
  All-lookup P (y ∷ xs) h (inr m) = All-lookup P xs h.1 m

  pub All-append : (P : A → Type 0) (xs : List A) (a : A) → All P xs → P a → All P (xs ++ a ∷ [])
  All-append P [] a h p = (p, tt)
  All-append P (x ∷ xs) a h p = (h.0, All-append P xs a h.1 p)

  -- what holds of every updated row holds of the updated table
  pub All-update_where :
      (P Q : A → Type 0) (p : A → Bool) (f : A → A) (xs : List A)
      → ((x : A) → In x xs → P x → Q (touch p f x))
      → All P xs
      → All Q (update_where p f xs)
  All-update_where P Q p f [] h a = tt
  All-update_where P Q p f (x ∷ xs) h a =
      (h x (inl refl) a.0, All-update_where P Q p f xs (λ y m. h y (inr m)) a.1)

  -- a lookup by a key that the update keeps finds the updated row
  pub find-update_where :
      (q p : A → Bool) (f : A → A) (xs : List A)
      → ((x : A) → q (touch p f x) ≡ q x)
      → find_where q (update_where p f xs) ≡ Option.map (touch p f) (find_where q xs)
  find-update_where q p f [] h = refl
  find-update_where q p f (x ∷ xs) h =
      rw (h x) (elim (Bool-cases (q x)) [
        | inl e ↦ rw e refl
        | inr e ↦ rw e (find-update_where q p f xs h)
      ])

  -- a row that is appended is found only if none was there
  pub find-append :
      (q : A → Bool) (xs : List A) (a : A) {x : A}
      → find_where q xs ≡ some x
      → find_where q (xs ++ a ∷ []) ≡ some x
  find-append q [] a h = cc
  find-append q (y ∷ xs) a {x} h = ground (arith, find-append q xs a {x = x})

  pub find-append_new :
      (q : A → Bool) (xs : List A) (a : A)
      → find_where q xs ≡ none
      → q a ≡ true
      → find_where q (xs ++ a ∷ []) ≡ some a
  find-append_new q [] a h e = rw e
  find-append_new q (y ∷ xs) a h e = ground (arith, find-append_new q xs a)

  pub find-In : (q : A → Bool) (xs : List A) {x : A} → find_where q xs ≡ some x → In x xs
  find-In q [] h = cc
  find-In q (y ∷ xs) {x} h = elim (Bool-cases (q y)) [
    | inl e ↦ inl (sym (first e))
    | inr e ↦ inr (find-In q xs (rest e))
  ]
    where
      first : q y ≡ true → y ≡ x
      first e = ground arith

      rest : q y ≡ false → find_where q xs ≡ some x
      rest e = ground arith

  pub find_holds : (q : A → Bool) (xs : List A) {x : A} → find_where q xs ≡ some x → q x ≡ true
  find_holds q [] h = cc
  find_holds q (y ∷ xs) {x} h = ground (arith, find_holds q xs {x = x})

  pub exists_none :
      (q : A → Bool) (xs : List A) → exists_where q xs ≡ false → find_where q xs ≡ none
  exists_none q [] h = refl
  exists_none q (y ∷ xs) h = ground (arith, exists_none q xs)

  -- an update that touches no row, by its count, changes nothing
  pub update_where_none :
      (p : A → Bool) (f : A → A) (xs : List A) → count_where p xs ≡ 0 → update_where p f xs ≡ xs
  update_where_none p f [] h = refl
  update_where_none p f (x ∷ xs) h = ground (arith, update_where_none p f xs)

  pub map-update_where :
      {K : Type 0} (k : A → K) (p : A → Bool) (f : A → A) (xs : List A)
      → ((x : A) → k (f x) ≡ k x)
      → map k (update_where p f xs) ≡ map k xs
  map-update_where k p f [] h = refl
  map-update_where k p f (x ∷ xs) h = ground (arith, h x, map-update_where k p f xs h)

  pub In-map : {K : Type 0} (k : A → K) (xs : List A) (x : A) → In x xs → In (k x) (map k xs)
  In-map k [] x m = absurd m
  In-map k (y ∷ xs) x (inl e) = inl (λ i. k (e i))
  In-map k (y ∷ xs) x (inr m) = inr (In-map k xs x m)
