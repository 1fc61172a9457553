-- ===== src/Backend/Auth/Leaving.antt =====
-- What a logout does to the token of the request.
use warehouse_digital_twin.Base.{
  ◌≡◌, ◌≢◌, ◌⊎◌, refl, sym, ap, ◌∙◌, inl, inr, String, true, false, Option, none, some, ite, if_pos,
  if_neg, str_dec, Bool-cases, Option-cases, lower, strip, strip_prefix, text_drop,
}
use warehouse_digital_twin.Base.Dict.{get, get-set_self, get-set_other}
use warehouse_digital_twin.Base.Float.{Float}
use warehouse_digital_twin.Backend.Auth.{
  Claims, Crypto, Settings, Tokens, invalid_token, ok, failed, Request, text_or_empty, revoke_token,
  token_valid, check_claims, check_parts, verify_token, token_of, get_current_user, logout,
  logout_token,
}
use warehouse_digital_twin.Backend.Auth.Tokens.{ok-injective, Answer-cases}
use warehouse_digital_twin.Backend.Auth.Granting.{Accepted, get_current_user-Accepted}

module _ (fl : Float) (cr : Crypto fl.F) where
  open fl use {F, ltb_f, lit}

  token_valid-revoke_token :
      (now : F) (token : String) (t : Tokens F)
      → token_valid fl now token (revoke_token token t) ≡ false
  unfolding token_valid revoke_token
  token_valid-revoke_token now token t = elim (Option-cases (get str_dec token t)) [
    | inl k ↦ rw (revoke_token, k, token_valid, k) refl
    | inr (row, k) ↦
        rw
          (
            revoke_token,
            k,
            token_valid,
            get-set_self str_dec token (record row { revoked = true }) t,
          )
          refl
  ]

  check_claims-refused :
      (now later : F) (t : Tokens F) (token : String) (c : Claims F)
      → token_valid fl later token t ≡ false
      → check_claims fl cr now later t token (some c) ≡ none
  unfolding check_claims
  check_claims-refused now later t token c k =
      elim (Bool-cases (ltb_f (elim c.exp [ none ↦ lit 0 0 | some e ↦ e ]) now)) [
        | inl m ↦ rw m refl
        | inr m ↦ rw (m, k) refl
      ]

  verify_token-refused :
      (cfg : Settings F) (now later now' later' : F) (t t' : Tokens F) (token : String)
      (c : Claims F)
      → Accepted fl cr cfg now later t token c
      → token_valid fl later' token t' ≡ false
      → verify_token fl cr cfg now' later' t' token ≡ ok none
  unfolding verify_token check_parts
  verify_token-refused cfg now later now' later' t t' token c a k =
      ap (check_parts fl cr cfg now' later' t' token) a.parts
      ∙ rw (a.secret_set, a.signed, a.decoded, a.loaded)
          (ap ok (check_claims-refused now' later' t' token c k))

  -- The table after a logout, for the token that it revokes.
  logout-table :
      (cfg : Settings F) (now later : F) (t t' : Tokens F) (r : Request)
      → logout fl cr cfg now later t r ≡ ok t'
      → (c : Claims F) × (get_current_user fl cr cfg now later t r ≡ ok c)
        × (t'
            ≡ ite
                (str_dec (logout_token fl cr (text_or_empty r.authorization)) "")
                t
                (revoke_token (logout_token fl cr (text_or_empty r.authorization)) t))
  unfolding logout
  logout-table cfg now later t t' r h =
      elim (Answer-cases (get_current_user fl cr cfg now later t r)) [
        | inr (f, m) ↦ absurd (cc (rw m at h))
        | inl (c, m) ↦ (c, m, sym (ok-injective _ t' (rw m at h)))
      ]

  -- The choice by whether the header starts with `bearer `.
  abbrev bearer : Option String → String → String → String
  bearer o used other = elim o [ some _ ↦ used | none ↦ other ]

  tokens_agree :
      (r : Request) (auth rest : String)
      → r.authorization ≡ some auth
      → strip_prefix "bearer " (lower auth) ≡ some rest
      → strip (text_drop 7 auth) ≡ text_drop 7 auth
      → logout_token fl cr (text_or_empty r.authorization) ≡ token_of fl cr r
  unfolding logout_token token_of text_or_empty
  tokens_agree r auth rest e p tidy =
      ap (λ o. logout_token fl cr (text_or_empty o)) e
      ∙ ap (λ o. bearer o (text_drop 7 auth) "") p
      ∙ sym tidy
      ∙ sym (ap (λ o. bearer o (strip (text_drop 7 auth)) (text_or_empty r.access_token)) p)
      ∙ sym (
          ap
            (λ o.
              bearer (strip_prefix "bearer " (lower (text_or_empty o)))
                (strip (text_drop 7 (text_or_empty o))) (text_or_empty r.access_token))
            e)

  -- After a logout whose token stands in the header `Authorization: Bearer` without blanks around
  -- it, the same request is refused, at any later time, as one with an invalid or expired token.
  pub logout-refuses :
      (cfg : Settings F) (now later now' later' : F) (t t' : Tokens F) (r : Request)
      (auth rest : String)
      → logout fl cr cfg now later t r ≡ ok t'
      → r.authorization ≡ some auth
      → strip_prefix "bearer " (lower auth) ≡ some rest
      → strip (text_drop 7 auth) ≡ text_drop 7 auth
      → get_current_user fl cr cfg now' later' t' r ≡ failed invalid_token
  unfolding get_current_user
  logout-refuses cfg now later now' later' t t' r auth rest h e p tidy =
      let (c, m, table) = logout-table cfg now later t t' r h in
      let (used, a) = get_current_user-Accepted fl cr cfg now later t r c m in
      let token = token_of fl cr r in
      let table' : t' ≡ revoke_token token t =
        table
        ∙ ap (λ k. ite (str_dec k "") t (revoke_token k t)) (tokens_agree r auth rest e p tidy)
        ∙ if_neg (str_dec token "") used _ _ in
      let gone : token_valid fl later' token t' ≡ false =
        ap (token_valid fl later' token) table' ∙ token_valid-revoke_token later' token t in
      if_neg (str_dec token "") used _ _
      ∙ rw (verify_token-refused cfg now later now' later' t t' token c a gone) refl

  -- The token of the request is not in the text of the header as `logout` cuts it out: the header
  -- does not start with `bearer `, or blanks stand around the token.
  abbrev pub IsMissed : String → Type 0
  IsMissed auth =
      (strip_prefix "bearer " (lower auth) ≡ none) ⊎ (strip (text_drop 7 auth) ≢ text_drop 7 auth)

  token_valid-revoke_token_other :
      (now : F) (token other : String) (t : Tokens F)
      → other ≢ token
      → token_valid fl now token (revoke_token other t) ≡ token_valid fl now token t
  unfolding token_valid revoke_token
  token_valid-revoke_token_other now token other t n = elim (Option-cases (get str_dec other t)) [
    | inl k ↦ rw (revoke_token, k) refl
    | inr (row, k) ↦
        rw
          (
            revoke_token,
            k,
            token_valid,
            get-set_other str_dec other token (record row { revoked = true }) t n,
          )
          refl
  ]

  revoke_if_any :
      (now : F) (token other : String) (t : Tokens F)
      → (other ≡ "") ⊎ (other ≢ token)
      → token_valid fl now token (ite (str_dec other "") t (revoke_token other t))
        ≡ token_valid fl now token t
  revoke_if_any now token other t h =
      let different : (other ≢ "") → (other ≢ token) =
        λ n. elim h [ inl e ↦ absurd (n e) | inr m ↦ m ] in
      elim (str_dec other "") [
        | yes e ↦
            ap (token_valid fl now token) (if_pos (str_dec other "") e t (revoke_token other t))
        | no n ↦
            ap (token_valid fl now token) (if_neg (str_dec other "") n t (revoke_token other t))
            ∙ token_valid-revoke_token_other now token other t (different n)
      ]

  -- What `logout` cuts out of such a header is empty, or is another text than the token.
  logout_token-other :
      (r : Request)
      → IsMissed (text_or_empty r.authorization)
      → (logout_token fl cr (text_or_empty r.authorization) ≡ "")
        ⊎ (logout_token fl cr (text_or_empty r.authorization) ≢ token_of fl cr r)
  unfolding logout_token token_of
  logout_token-other r h =
      let auth = text_or_empty r.authorization in
      let cut = text_drop 7 auth in
      elim (Option-cases (strip_prefix "bearer " (lower auth))) [
        | inl k ↦ inl (ap (λ o. bearer o cut "") k)
        | inr (rest, k) ↦ elim h [
          | inl none_there ↦ absurd (cc (none_there, k))
          | inr n ↦ inr λ e. n (
              sym (ap (λ o. bearer o (strip cut) (text_or_empty r.access_token)) k)
              ∙ sym e
              ∙ ap (λ o. bearer o cut "") k)
        ]
      ]

  check_claims-accepted :
      (now later : F) (t : Tokens F) (token : String) (c : Claims F)
      → ltb_f (elim c.exp [ none ↦ lit 0 0 | some e ↦ e ]) now ≡ false
      → token_valid fl later token t ≡ true
      → check_claims fl cr now later t token (some c) ≡ some c
  unfolding check_claims
  check_claims-accepted now later t token c live valid = rw (live, valid) refl

  verify_token-accepts :
      (cfg : Settings F) (now later now' later' : F) (t t' : Tokens F) (token : String)
      (c : Claims F)
      → Accepted fl cr cfg now later t token c
      → ltb_f (elim c.exp [ none ↦ lit 0 0 | some e ↦ e ]) now' ≡ false
      → token_valid fl later' token t' ≡ true
      → verify_token fl cr cfg now' later' t' token ≡ ok (some c)
  unfolding verify_token check_parts
  verify_token-accepts cfg now later now' later' t t' token c a live valid =
      ap (check_parts fl cr cfg now' later' t' token) a.parts
      ∙ rw (a.secret_set, a.signed, a.decoded, a.loaded)
          (ap ok (check_claims-accepted now' later' t' token c live valid))

  -- A logout misses the token of a request whose header `Authorization` does not start with `bearer `,
  -- so that the token is that of the query, or has blanks around the token: after it the same
  -- request is accepted with the same claims at all later times at which they have not expired and
  -- the table before the logout still held the token as valid.
  pub logout-misses :
      (cfg : Settings F) (now later now' later' : F) (t t' : Tokens F) (r : Request) (c : Claims F)
      → get_current_user fl cr cfg now later t r ≡ ok c
      → logout fl cr cfg now later t r ≡ ok t'
      → IsMissed (text_or_empty r.authorization)
      → ltb_f (elim c.exp [ none ↦ lit 0 0 | some e ↦ e ]) now' ≡ false
      → token_valid fl later' (token_of fl cr r) t ≡ true
      → get_current_user fl cr cfg now' later' t' r ≡ ok c
  unfolding get_current_user
  logout-misses cfg now later now' later' t t' r c accepted h missed live valid =
      let (_, _, table) = logout-table cfg now later t t' r h in
      let (used, a) = get_current_user-Accepted fl cr cfg now later t r c accepted in
      let token = token_of fl cr r in
      let kept : token_valid fl later' token t' ≡ true =
        ap (token_valid fl later' token) table
        ∙ revoke_if_any later' token (logout_token fl cr (text_or_empty r.authorization)) t
            (logout_token-other r missed)
        ∙ valid in
      if_neg (str_dec token "") used _ _
      ∙ rw (verify_token-accepts cfg now later now' later' t t' token c a live kept) refl
