-- ===== src/Gateway/Access.antt =====
-- internal/gateway/middleware/auth.go and rbac.go: which requests reach a handler, and with
-- which identity.
use blueprint_audio_backend.Common.{
  ℕ, Bool, true, false, Option, none, some, List, [], ◌∷◌, ◌≡◌, ◌↔◌, arith, ◌==◌, if◌then◌else◌,
  Text, text, text_eq, is_empty, exists_where, In, Bool-cases, Option-cases, inl, inr,
}
use blueprint_audio_backend.Common.Strings.{text_eq_iff, text_eq_refl}

-- the claims of a token that utils.ValidateToken accepts
pub record Claims : Type 0 where
  pub user_id : ℕ
  pub role : Text
  pub system_role : Text

-- The Authorization header, "" where it is missing, and the query's "token" parameter.
pub record Request : Type 0 where
  pub authorization : Text
  pub token : Text

-- how a request ends: in the handler, with the identity in its context, or with a status
pub data Outcome : Type 0 where
  serve : Option Claims → Outcome
  refuse : ℕ → Outcome

-- strings.SplitN(header, " ", 2): what stands before and after the first space
abbrev pub split_space : Text → Option (Text × Text)
split_space [] = none
split_space (c ∷ s) =
    let rest = split_space s in
    if c == b' ' then some ([], s) else elim rest [ none ↦ none | some (a, b) ↦ some (c ∷ a, b) ]

-- the token of a header "Bearer <token>", "" for any other
abbrev pub bearer_token : Text → Text
bearer_token header = elim (split_space header) [
  | none ↦ []
  | some (scheme, token) ↦ if text_eq scheme (text "Bearer") then token else []
]

named-In : (a : Text) (roles : List Text) → exists_where (text_eq a) roles ≡ true → In a roles
named-In a [] h = cc
named-In a (x ∷ roles) h = elim (Bool-cases (text_eq a x)) [
  | inl same ↦ inl ((text_eq_iff a x).0 same)
  | inr other ↦ inr (named-In a roles (ground arith))
]

In-named : (a : Text) (roles : List Text) → In a roles → exists_where (text_eq a) roles ≡ true
In-named a [] m = absurd m
In-named a (x ∷ roles) (inl e) = ground (arith, text_eq_iff a x)
In-named a (x ∷ roles) (inr m) = ground (arith, In-named a roles m)

-- The JWT library's check of a token, under the middleware's secret.
module _ (validate_token : Text → Option Claims) where
  abbrev pub request_token : Request → Text
  request_token r =
      let token = bearer_token r.authorization in if is_empty token then r.token else token

  abbrev pub admit : Text → (Claims → Outcome) → Outcome
  admit token next =
      if is_empty token
      then refuse 401
      else elim (validate_token token) [ none ↦ refuse 401 | some claims ↦ next claims ]

  unfoldable pub require_auth : (Claims → Outcome) → Request → Outcome
  require_auth next r = admit (request_token r) next

  -- An empty header has no space, so both of its branches to the handler are one.
  unfoldable pub flexible_auth : Request → Outcome
  flexible_auth r = elim (split_space r.authorization) [
    | none ↦ serve none
    | some (scheme, token) ↦
        if text_eq scheme (text "Bearer") then serve (validate_token token) else serve none
  ]

  -- rolePermissions has one role, with one permission
  abbrev pub has_permission : Text → Text → Bool
  has_permission system_role permission =
      if text_eq system_role (text "super_admin")
      then text_eq permission (text "super_admin")
      else false

  unfoldable pub require_permission : Text → Request → Outcome
  require_permission permission = require_auth (λ claims.
      if has_permission claims.system_role permission then serve (some claims) else refuse 403)

  unfoldable pub require_system_role : List Text → Request → Outcome
  require_system_role roles = require_auth (λ claims.
      if exists_where (text_eq claims.system_role) roles then serve (some claims) else refuse 403)

  unfoldable pub require_user_role : List Text → Request → Outcome
  require_user_role roles = require_auth (λ claims.
      if exists_where (text_eq claims.role) roles then serve (some claims) else refuse 403)

  -- what a request needs in order to reach a handler: a token that is accepted
  abbrev pub Accepted : Request → Claims → Type 0
  Accepted r claims =
      (is_empty (request_token r) ≡ false) × (validate_token (request_token r) ≡ some claims)

  admit_lem :
      (token : Text) (test : Claims → Bool) (claims : Claims)
      → (admit token (λ c. if test c then serve (some c) else refuse 403) ≡ serve (some claims))
        ↔ (((is_empty token ≡ false) × (validate_token token ≡ some claims)) × (test claims ≡ true))
  admit_lem token test claims = elim (Option-cases (validate_token token)) [
    | inl none_valid ↦ (λ h. absurd (ground arith), λ h. absurd (ground arith))
    | inr (c, valid) ↦ elim (Bool-cases (test c)) [
      | inl pass ↦ (λ h. ground arith, λ h. ground arith)
      | inr fail ↦ (λ h. absurd (ground arith), λ h. absurd (ground arith))
    ]
  ]

  admit_served :
      (r : Request) (test : Claims → Bool) (claims : Claims)
      → (require_auth (λ c. if test c then serve (some c) else refuse 403) r ≡ serve (some claims))
        ↔ (Accepted r claims × (test claims ≡ true))
  unfolding require_auth
  admit_served r test claims = admit_lem (request_token r) test claims

  -- A request reaches a handler that is kept for user roles exactly when its token is accepted
  -- and names one of the roles, and it reaches it with that token's identity.
  pub require_user_role_served :
      (roles : List Text) (r : Request) (claims : Claims)
      → (require_user_role roles r ≡ serve (some claims))
        ↔ (Accepted r claims × In claims.role roles)
  unfolding require_user_role
  require_user_role_served roles r claims =
      let (out, back) = admit_served r (λ c. exists_where (text_eq c.role) roles) claims in
      (
        λ h. let (a, t) = out h in (a, named-In claims.role roles t),
        λ h. back (h.0, In-named claims.role roles h.1),
      )

  -- A request reaches a handler that is kept for the administrators' permission exactly when its token is
  -- accepted and its system role is "super_admin", and it reaches it with that token's identity.
  pub require_permission_served :
      (r : Request) (claims : Claims)
      → (require_permission (text "super_admin") r ≡ serve (some claims))
        ↔ (Accepted r claims × (claims.system_role ≡ text "super_admin"))
  unfolding require_permission
  require_permission_served r claims =
      let (out, back) =
        admit_served r (λ c. has_permission c.system_role (text "super_admin")) claims in
      (
        λ h.
            let (a, t) = out h in
            (a, ground (arith, text_eq_iff claims.system_role (text "super_admin"))),
        λ h. back (
          h.0,
          ground (
            arith,
            text_eq_iff claims.system_role (text "super_admin"),
            text_eq_refl (text "super_admin"),
          ),
        ),
      )
