-- ===== src/Backend/Auth.antt =====
-- Tokens and roles of the backend, backend/backend/auth.py, with the table of tokens of
-- backend/backend/repository.py and the logout of backend/backend/api.py. Texts and bytes are both
-- `String`, a byte as the character with its code. `now` and `later` are the two times that a
-- verification reads from the clock.
pub mod Granting
pub mod Tokens
pub mod Leaving
use warehouse_digital_twin.Base.{
  ℕ, zero, suc, ◌-◌, ◌%◌, Char, String, Bool, true, false, not, ◌&&◌, ite, Option, none, some, List,
  [], ◌∷◌, if◌then◌else◌, is_some, leb, str_dec, split_on, strip, lower, strip_prefix, append,
  text_length, text_drop, repeat, rstrip_of,
}
use warehouse_digital_twin.Base.Dict.{Dict, get, set}
use warehouse_digital_twin.Base.Float.{Float}

-- The claims of a token: the JSON object, `none` where it lacks a key.
pub record Claims (F : Type 0) : Type 0 where
  pub sub : Option String
  pub role : Option String
  pub iat : Option F
  pub exp : Option F
  pub readonly : Option Bool

-- The standard library's `hmac`, `base64` and `json`, as the module calls them. `none` is a
-- `TypeError` of `compare_digest`, and any exception of the decoders.
pub record Crypto (F : Type 0) : Type 0 where
  pub hmac_sha256 : (key msg : String) → String
  pub urlsafe_b64encode : String → String
  pub urlsafe_b64decode : String → Option String
  pub dumps_header : String
  pub dumps : Claims F → String
  pub loads : String → Option (Claims F)
  pub compare_digest : String → String → Option Bool

-- The configured secret and `auth.token_ttl_seconds`.
pub record Settings (F : Type 0) : Type 0 where
  pub secret : Option String
  pub token_ttl : F

-- A row of `api_tokens`; the token is its key.
pub record Row (F : Type 0) : Type 0 where
  pub username : String
  pub role : String
  pub created_at : F
  pub expires_at : F
  pub revoked : Bool

abbrev pub Tokens : Type 0 → Type 0
Tokens F = Dict String (Row F)

-- The exceptions: an `HTTPException` of status 401 or 403, the `RuntimeError` without a secret, the
-- `TypeError` of a signature that is not ASCII and the database's `IntegrityError`.
pub data Failure : Type 0 where
  missing_token invalid_token role_required read_only not_configured not_ascii duplicate : Failure

pub data Answer (A : Type 0) : Type 0 where
  ok : A → Answer A
  failed : Failure → Answer A

infixl 5 ◌>>=◌
abbrev pub ◌>>=◌ : {A B : Type 0} → Answer A → (A → Answer B) → Answer B
ok a >>= f = f a
failed e >>= f = failed e

-- What `get_current_user` reads of a request.
pub record Request : Type 0 where
  pub authorization : Option String
  pub access_token : Option String

-- `ROLE_LEVEL.get(role, 0)`.
unfoldable pub role_level : String → ℕ
role_level role =
    ite (str_dec role "operator") 1
      (ite (str_dec role "supervisor") 2 (ite (str_dec role "administrator") 3 0))

unfoldable pub role_allows : (role min_role : String) → Bool
unfolding role_level
role_allows role min_role = leb (role_level min_role) (role_level role)

unfoldable pub text_or_empty : Option String → String
text_or_empty o = elim o [ none ↦ "" | some s ↦ s ]

abbrev pub equals : Char
equals = "="

module _ {F : Type 0} (cr : Crypto F) where
  -- `_b64url`.
  unfoldable pub b64url : String → String
  b64url bytes = rstrip_of b'=' (cr.urlsafe_b64encode bytes)

  -- `-n % 4`.
  unfoldable pub padding : ℕ → ℕ
  padding n = (4 - n % 4) % 4

  -- `_b64url_decode`.
  unfoldable pub b64url_decode : String → Option String
  unfolding padding
  b64url_decode s = cr.urlsafe_b64decode (append s (repeat equals (padding (text_length s))))

  -- `_sign`.
  unfoldable pub sign : (header payload secret : String) → String
  unfolding b64url
  sign header payload secret = b64url (cr.hmac_sha256 secret (append header (append "." payload)))

  -- `_secret`.
  unfoldable pub secret_of : Settings F → Answer String
  secret_of cfg = elim cfg.secret [
    | none ↦ failed not_configured
    | some s ↦ ite (str_dec s "") (failed not_configured) (ok s)
  ]

-- `store_token`: the token is the primary key of the table.
unfoldable pub store_token :
    {F : Type 0}
    → (created : F) → (token username role : String) → (expires_at : F) → Tokens F
    → Answer (Tokens F)
store_token created token username role expires_at t =
    if is_some (get str_dec token t)
    then failed duplicate
    else ok (
        set str_dec token
          (record {
            username = username;
            role = role;
            created_at = created;
            expires_at = expires_at;
            revoked = false;
          })
          t)

-- `revoke_token`, the table after it.
unfoldable pub revoke_token : {F : Type 0} → String → Tokens F → Tokens F
revoke_token token t = elim (get str_dec token t) [
  | none ↦ t
  | some row ↦ set str_dec token (record row { revoked = true }) t
]

module _ (fl : Float) where
  open fl use {F, lit, ltb_f, eqb_f, add}

  -- `token_valid`, as a Boolean.
  unfoldable pub token_valid : (now : F) → String → Tokens F → Bool
  token_valid now token t = elim (get str_dec token t) [
    | none ↦ false
    | some row ↦
        if row.revoked
        then false
        else not (not (eqb_f row.expires_at (lit 0 0)) && ltb_f row.expires_at now)
  ]

module _ (fl : Float) (cr : Crypto fl.F) where
  open fl use {F, lit, ltb_f, eqb_f, add}

  -- `issue_token`, with the table after it: the token and its expiry.
  -- `now + (ttl or default)`.
  unfoldable pub expiry_of : Settings F → F → Option F → F
  expiry_of cfg now ttl =
      add now (elim ttl [
        | none ↦ cfg.token_ttl
        | some x ↦ if eqb_f x (lit 0 0) then cfg.token_ttl else x
      ])

  unfoldable pub issue_token :
      Settings F
      → (now created : F) → (username role : String) → (ttl : Option F) → (readonly : Bool)
      → Tokens F
      → Answer (String × F × Tokens F)
  unfolding b64url sign secret_of store_token expiry_of
  issue_token cfg now created username role ttl readonly t =
      let expiry = expiry_of cfg now ttl in
      secret_of cr cfg >>= λ secret.
      let header = b64url cr cr.dumps_header in
      let payload = b64url cr (
        cr.dumps (record {
          sub = some username;
          role = some role;
          iat = some now;
          exp = some expiry;
          readonly = some readonly;
        })) in
      let token =
        append header (append "." (append payload (append "." (sign cr header payload secret)))) in
      store_token created token username role expiry t >>= λ t'. ok (token, expiry, t')

  -- The end of `verify_token`, for the decoded claims.
  unfoldable pub check_claims :
      (now later : F) → Tokens F → (token : String) → Option (Claims F) → Option (Claims F)
  unfolding token_valid
  check_claims now later t token none = none
  check_claims now later t token (some claims) =
      if ltb_f (elim claims.exp [ none ↦ lit 0 0 | some e ↦ e ]) now
      then none
      else (if token_valid fl later token t then some claims else none)

  unfoldable pub check_parts :
      Settings F
      → (now later : F) → Tokens F
      → (token : String) → List String
      → Answer (Option (Claims F))
  unfolding check_claims sign secret_of b64url_decode
  check_parts cfg now later t token (header ∷ payload ∷ sig ∷ []) = secret_of cr cfg >>= λ secret.
      elim (cr.compare_digest (sign cr header payload secret) sig) [
        | none ↦ failed not_ascii
        | some same ↦ ok (
            if same
            then check_claims now later t token
                (elim (b64url_decode cr payload) [ none ↦ none | some json ↦ cr.loads json ])
            else none)
      ]
  check_parts cfg now later t token _ = ok none

  unfoldable pub verify_token :
      Settings F → (now later : F) → Tokens F → String → Answer (Option (Claims F))
  unfolding check_parts
  verify_token cfg now later t token = check_parts cfg now later t token (split_on b'.' token)

  -- The token of a request.
  unfoldable pub token_of : Request → String
  unfolding text_or_empty
  token_of r =
      let auth = text_or_empty r.authorization in
      elim (strip_prefix "bearer " (lower auth)) [
        | some _ ↦ strip (text_drop 7 auth)
        | none ↦ text_or_empty r.access_token
      ]

  unfoldable pub get_current_user :
      Settings F → (now later : F) → Tokens F → Request → Answer (Claims F)
  unfolding token_of verify_token
  get_current_user cfg now later t r = ite (str_dec (token_of r) "") (failed missing_token) (
      verify_token cfg now later t (token_of r) >>= λ o. elim o [
        | none ↦ failed invalid_token
        | some claims ↦ ok claims
      ])

  -- `require_role(min_role)`, with the user that it depends on.
  unfoldable pub require_role :
      (min_role : String) → Settings F → (now later : F) → Tokens F → Request → Answer (Claims F)
  unfolding get_current_user role_allows text_or_empty
  require_role min_role cfg now later t r = get_current_user cfg now later t r >>= λ claims.
      if not (role_allows (text_or_empty claims.role) min_role)
      then failed role_required
      else (if elim claims.readonly [ none ↦ false | some b ↦ b ]
          then failed read_only
          else ok claims)

  -- The token that `logout` revokes, of the header's text.
  unfoldable pub logout_token : String → String
  logout_token auth = elim (strip_prefix "bearer " (lower auth)) [
    | some _ ↦ text_drop 7 auth
    | none ↦ ""
  ]

  -- `logout`: the table after it.
  unfoldable pub logout : Settings F → (now later : F) → Tokens F → Request → Answer (Tokens F)
  unfolding get_current_user revoke_token text_or_empty logout_token
  logout cfg now later t r = get_current_user cfg now later t r >>= λ _.
      let token = logout_token (text_or_empty r.authorization) in
      ok (ite (str_dec token "") t (revoke_token token t))
