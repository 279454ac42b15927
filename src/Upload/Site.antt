-- ===== src/Upload/Site.antt =====
-- The tables together with the object store, which the source reaches through SpecObjectStore.
-- An environment says what the object store answers at each call; of what it holds, only the
-- keys that the source has deleted are kept.
use blueprint_audio_backend.Common.{ℕ, suc, Option, none, some, List, ◌∷◌, Text}
use blueprint_audio_backend.Db.{Result, ok, err, M}
use blueprint_audio_backend.Catalog.Domain.{Error}
use blueprint_audio_backend.Catalog.Tables.{Store}

pub record ObjectInfo : Type 0 where
  pub size : ℕ
  pub content_type : Text
  pub etag : Text

-- `none` is a call that fails. A presigned upload is the URL that the browser is given.
pub record Objects : Type 0 where
  pub presign : ℕ → Text → Text → ℕ → Option Text
  pub stat : ℕ → Text → Option ObjectInfo

pub record Site : Type 0 where
  pub tables : Store
  pub deleted : List Text

abbrev pub Action : Type 0 → Type 0
Action A = M Site Error A

module _ {A : Type 0} where
  -- a call of a repository
  abbrev pub lift : M Store Error A → Action A
  lift m env w =
      let (r, w') = m env (record { tick = w.tick; store = w.store.tables }) in
      (r, record { tick = w'.tick; store = record w.store { tables = w'.store } })

  abbrev pub from : Result Error A → Action A
  from r env w = (r, w)

  -- the result of a call whose error the caller looks at
  abbrev pub attempt : Action A → Action (Result Error A)
  attempt m env w = let (r, w') = m env w in (ok r, w')

  -- a call of the object store
  abbrev pub object_call : (ℕ → Option A) → Error → Action A
  object_call answer failure env w =
      (elim (answer w.tick) [ none ↦ err failure | some a ↦ ok a ], record w { tick = suc w.tick })

-- `_ = s.objects.Delete(ctx, key)`
abbrev pub delete_object : Text → Action (Unit {0})
delete_object key env w = (
  ok tt,
  record { tick = suc w.tick; store = record w.store { deleted = key ∷ w.store.deleted } },
)
