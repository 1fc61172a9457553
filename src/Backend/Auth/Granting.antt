-- ===== src/Backend/Auth/Granting.antt =====
-- What a request needs to be let through, and what a logout leaves.
use warehouse_digital_twin.Base.{
  ◌≡◌, ◌≢◌, refl, ap, ◌∙◌, subst, inl, inr, String, true, false, not, Option, none, some, List, [],
  ◌∷◌, if◌then◌else◌, if_pos, if_neg, str_dec, Bool-cases, Option-cases, split_on,
}
use warehouse_digital_twin.Base.Float.{Float}
use warehouse_digital_twin.Backend.Auth.{
  Claims, Crypto, Settings, Tokens, invalid_token, role_required, read_only, ok, failed, ◌>>=◌,
  Request, role_allows, text_or_empty, sign, b64url_decode, secret_of, token_valid, check_claims,
  check_parts, verify_token, token_of, get_current_user, require_role,
}
use warehouse_digital_twin.Backend.Auth.Tokens.{ok-injective, Answer-cases}

-- A token with these claims is accepted at the times `now` and `later`: its three parts, the
-- secret that they are signed with, and its row in the table.
pub record Accepted (fl : Float) (cr : Crypto fl.F) (cfg : Settings fl.F) (now later : fl.F)
    (t : Tokens fl.F) (token : String) (c : Claims fl.F) : Type 0 where
  pub header : String
  pub payload : String
  pub sig : String
  pub secret : String
  pub parts : split_on b'.' token ≡ header ∷ payload ∷ sig ∷ []
  pub secret_set : secret_of cr cfg ≡ ok secret
  pub signed : cr.compare_digest (sign cr header payload secret) sig ≡ some true
  pub json : String
  pub decoded : b64url_decode cr payload ≡ some json
  pub loaded : cr.loads json ≡ some c
  pub not_expired : fl.ltb_f (elim c.exp [ none ↦ fl.lit 0 0 | some e ↦ e ]) now ≡ false
  pub valid : token_valid fl later token t ≡ true

module _ (fl : Float) (cr : Crypto fl.F) where
  open fl use {F, ltb_f, lit}

  abbrev Live : F → F → Tokens F → String → Claims F → Type 0
  Live now later t token c =
      (ltb_f (elim c.exp [ none ↦ lit 0 0 | some e ↦ e ]) now ≡ false)
      × (token_valid fl later token t ≡ true)

  check_claims-Live :
      (now later : F) (t : Tokens F) (token : String) (o : Option (Claims F)) (c : Claims F)
      → check_claims fl cr now later t token o ≡ some c
      → (o ≡ some c) × Live now later t token c
  unfolding check_claims
  check_claims-Live now later t token none c h = absurd (cc h)
  check_claims-Live now later t token (some d) c h =
      elim (Bool-cases (ltb_f (elim d.exp [ none ↦ lit 0 0 | some e ↦ e ]) now)) [
        | inl k ↦ absurd (cc (rw k at h))
        | inr k ↦ elim (Bool-cases (token_valid fl later token t)) [
          | inr m ↦ absurd (cc (rw (k, m) at h))
          | inl m ↦
              let e : some d ≡ some c = rw (k, m) at h in
              let e' : d ≡ c = ap (λ o. elim o [ none ↦ d | some x ↦ x ]) e in
              (e, subst (λ x. Live now later t token x) e' (k, m))
        ]
      ]

  decoding :
      (payload : String) (c : Claims F)
      → elim (b64url_decode cr payload) [ none ↦ none | some json ↦ cr.loads json ] ≡ some c
      → (json : String) × (b64url_decode cr payload ≡ some json) × (cr.loads json ≡ some c)
  decoding payload c h = elim (Option-cases (b64url_decode cr payload)) [
    | inl k ↦ absurd (cc (rw k at h))
    | inr (json, k) ↦ (json, k, rw k at h)
  ]

  check_parts-Accepted :
      (cfg : Settings F) (now later : F) (t : Tokens F) (token : String) (ws : List String)
      (c : Claims F)
      → split_on b'.' token ≡ ws
      → check_parts fl cr cfg now later t token ws ≡ ok (some c)
      → Accepted fl cr cfg now later t token c
  unfolding check_parts
  check_parts-Accepted cfg now later t token (header ∷ payload ∷ sig ∷ []) c e h =
      elim (Answer-cases (secret_of cr cfg)) [
        | inr (f, k) ↦ absurd (cc (rw k at h))
        | inl (secret, k) ↦
            elim (Option-cases (cr.compare_digest (sign cr header payload secret) sig)) [
              | inl m ↦ absurd (cc (rw (k, m) at h))
              | inr (false, m) ↦ absurd (cc (ok-injective _ _ (rw (k, m) at h)))
              | inr (true, m) ↦
                  let (o, (live, valid)) =
                    check_claims-Live now later t token _ c (ok-injective _ _ (rw (k, m) at h)) in
                  let (json, d, l) = decoding payload c o in
                  record {
                    header = header;
                    payload = payload;
                    sig = sig;
                    secret = secret;
                    parts = e;
                    secret_set = k;
                    signed = m;
                    json = json;
                    decoded = d;
                    loaded = l;
                    not_expired = live;
                    valid = valid;
                  }
            ]
      ]
  check_parts-Accepted cfg now later t token [] c e h = absurd (cc (ok-injective _ _ h))
  check_parts-Accepted cfg now later t token (a ∷ []) c e h = absurd (cc (ok-injective _ _ h))
  check_parts-Accepted cfg now later t token (a ∷ b ∷ []) c e h = absurd (cc (ok-injective _ _ h))
  check_parts-Accepted cfg now later t token (a ∷ b ∷ d ∷ f ∷ ws) c e h =
      absurd (cc (ok-injective _ _ h))

  pub get_current_user-Accepted :
      (cfg : Settings F) (now later : F) (t : Tokens F) (r : Request) (c : Claims F)
      → get_current_user fl cr cfg now later t r ≡ ok c
      → (token_of fl cr r ≢ "") × Accepted fl cr cfg now later t (token_of fl cr r) c
  unfolding get_current_user verify_token
  get_current_user-Accepted cfg now later t r c h = elim (str_dec (token_of fl cr r) "") [
    | yes e ↦ absurd (cc (rw (if_pos _ e) at h))
    | no n ↦ (n, verified (rw (if_neg _ n) at h))
  ]
    where
      verified :
          (verify_token fl cr cfg now later t (token_of fl cr r) >>= λ o. elim o [
            | none ↦ failed invalid_token
            | some claims ↦ ok claims
          ])
            ≡ ok c
          → Accepted fl cr cfg now later t (token_of fl cr r) c
      verified k = elim (Answer-cases (verify_token fl cr cfg now later t (token_of fl cr r))) [
        | inr (f, m) ↦ absurd (cc (rw m at k))
        | inl (none, m) ↦ absurd (cc (rw m at k))
        | inl (some d, m) ↦
            check_parts-Accepted cfg now later t (token_of fl cr r)
              (split_on b'.' (token_of fl cr r)) c refl
              (m ∙ ap (λ x. ok (some x)) (ok-injective d c (rw m at k)))
      ]

  -- A request that `require_role` lets through has a token of three parts, signed with the configured
  -- secret, whose payload decodes to the claims returned; the claims have not expired, the table
  -- holds the token unrevoked and unexpired, the role is at least the one required, and the claims
  -- are not read-only.
  pub require_role-Accepted :
      (min_role : String) (cfg : Settings F) (now later : F) (t : Tokens F) (r : Request)
      (c : Claims F)
      → require_role fl cr min_role cfg now later t r ≡ ok c
      → Accepted fl cr cfg now later t (token_of fl cr r) c
        × (role_allows (text_or_empty c.role) min_role ≡ true)
        × ((elim c.readonly [ none ↦ false | some b ↦ b ]) ≡ false)
  unfolding require_role
  require_role-Accepted min_role cfg now later t r c h =
      elim (Answer-cases (get_current_user fl cr cfg now later t r)) [
        | inr (f, m) ↦ absurd (cc (rw m at h))
        | inl (d, m) ↦ granted d m (rw m at h)
      ]
    where
      granted :
          (d : Claims F)
          → get_current_user fl cr cfg now later t r ≡ ok d
          → (if not (role_allows (text_or_empty d.role) min_role)
              then failed role_required
              else (if elim d.readonly [ none ↦ false | some b ↦ b ]
                  then failed read_only
                  else ok d))
            ≡ ok c
          → Accepted fl cr cfg now later t (token_of fl cr r) c
            × (role_allows (text_or_empty c.role) min_role ≡ true)
            × ((elim c.readonly [ none ↦ false | some b ↦ b ]) ≡ false)
      granted d m k = elim (Bool-cases (role_allows (text_or_empty d.role) min_role)) [
        | inr x ↦ absurd (cc (rw x at k))
        | inl x ↦ elim (Bool-cases (elim d.readonly [ none ↦ false | some b ↦ b ])) [
          | inl y ↦ absurd (cc (rw (x, y) at k))
          | inr y ↦
              let (_, a) = get_current_user-Accepted cfg now later t r d m in
              subst
                (λ z.
                  Accepted fl cr cfg now later t (token_of fl cr r) z
                  × (role_allows (text_or_empty z.role) min_role ≡ true)
                  × ((elim z.readonly [ none ↦ false | some b ↦ b ]) ≡ false))
                (ok-injective d c (rw (x, y) at k)) (a, x, y)
        ]
      ]
