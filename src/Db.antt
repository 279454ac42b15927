-- ===== src/Db.antt =====
-- How the repositories reach PostgreSQL: database/sql and sqlx calls as actions on a store.
--
-- Every call of the database, of the clock and of uuid.NewV7 is numbered by `tick`. The
-- environment says of each number what the clock shows, whether the database call fails
-- there, which identifier the generator returns, and on which rows another transaction
-- holds a lock. A call that fails may do so for any reason, a violated constraint included.
pub mod Results
pub mod Laws
pub mod Outcomes
use blueprint_audio_backend.Common.{ℕ, suc, Bool, Option, none, some, List, if◌then◌else◌}

pub record Env : Type 0 where
  pub clock : ℕ → ℕ
  pub fault : ℕ → Bool
  pub uuid : ℕ → Option ℕ
  pub locked : ℕ → ℕ → Bool

pub record World (S : Type 0) : Type 0 where
  pub tick : ℕ
  pub store : S

pub data Result (E A : Type 0) : Type 0 where
  ok : A → Result E A
  err : E → Result E A

abbrev pub M : Type 0 → Type 0 → Type 0 → Type 0
M S E A = Env → World S → Result E A × World S

module _ {S E : Type 0} where
  abbrev pub pure : {A : Type 0} → A → M S E A
  pure a env w = (ok a, w)

  -- `return …, err`
  abbrev pub fail : {A : Type 0} → E → M S E A
  fail e env w = (err e, w)

  -- `if c { return …, err }`
  abbrev pub fail_if : Bool → E → M S E (Unit {0})
  fail_if c e env w = (if c then err e else ok tt, w)

  abbrev pub fail_none : {A : Type 0} → Option A → E → M S E A
  fail_none none e env w = (err e, w)
  fail_none (some a) e env w = (ok a, w)

infixl 5 ◌>>=◌ ◌>>◌
abbrev pub ◌>>=◌ : {S E A B : Type 0} → M S E A → (A → M S E B) → M S E B
◌>>=◌ m f env w = let (r, w') = m env w in elim r [ ok a ↦ f a env w' | err e ↦ (err e, w') ]

abbrev pub ◌>>◌ : {S E A B : Type 0} → M S E A → M S E B → M S E B
m >> k = m >>= λ _. k

module _ {S E : Type 0} where
  -- one statement: it fails and changes nothing, or it runs at the time `now`
  abbrev pub statement : {A : Type 0} → E → (ℕ → S → Result E A × S) → M S E A
  statement failure run env w =
      if env.fault w.tick
      then (err failure, record w { tick = suc w.tick })
      else let (r, s) = run (env.clock w.tick) w.store in
        (r, record { tick = suc w.tick; store = s })

  -- SELECT
  abbrev pub query : {A : Type 0} → E → (S → A) → M S E A
  query failure read = statement failure (λ now s. (ok (read s), s))

  -- UPDATE or DELETE; it returns RowsAffected
  abbrev pub execute : {A : Type 0} → E → (ℕ → S → A × S) → M S E A
  execute failure run = statement failure (λ now s. let (a, s') = run now s in (ok a, s'))

  -- INSERT under a constraint: where it is violated the database refuses the row
  abbrev pub insert : E → E → (S → Bool) → (ℕ → S → S) → M S E (Unit {0})
  insert failure violation violated run =
      statement failure (λ now s. if violated s then (err violation, s) else (ok tt, run now s))

  -- time.Now()
  abbrev pub time_now : M S E ℕ
  time_now env w = (ok (env.clock w.tick), record w { tick = suc w.tick })

  -- uuid.NewV7()
  abbrev pub new_uuid : E → M S E ℕ
  new_uuid failure env w = (
    elim (env.uuid w.tick) [ none ↦ err failure | some id ↦ ok id ],
    record w { tick = suc w.tick },
  )

  -- BeginTxx, then `body` given the transaction's NOW(), then Commit; the deferred Rollback
  -- restores the store on every other way out.
  unfoldable pub transaction : {A : Type 0} → E → (ℕ → M S E A) → M S E A
  transaction failure body env w =
      let began = record w { tick = suc w.tick } in
      let (r, w') = body (env.clock w.tick) env began in
      let rolled_back = record w' { tick = suc w'.tick; store = w.store } in
      if env.fault w.tick then (err failure, began) else elim r [
        | err e ↦ (err e, rolled_back)
        | ok a ↦
            if env.fault w'.tick
            then (err failure, rolled_back)
            else (ok a, record w' { tick = suc w'.tick })
      ]
