-- ===== src/Backend/Auth/Tokens.antt =====
-- The tokens that the backend issues are the ones that it accepts.
use warehouse_digital_twin.Base.{
  ◌≡◌, refl, sym, ap, ◌∙◌, subst, ◌⊎◌, inl, inr, String, Bool, true, false, not, ◌&&◌, Option, some,
  [], ◌∷◌, is_some, str_dec, Bool-cases, append, text_length, repeat, Lacks, split_on,
  split_on-append, split_on-whole, rstrip_of, rstrip_of-append,
}
use warehouse_digital_twin.Base.Dict.{get, get-set_self}
use warehouse_digital_twin.Base.Float.{Float}
use warehouse_digital_twin.Backend.Auth.{
  Claims, Crypto, Settings, Row, Tokens, Answer, ok, failed, ◌>>=◌, equals, padding, b64url,
  b64url_decode, sign, secret_of, store_token, token_valid, issue_token, expiry_of, Failure,
  check_claims, check_parts, verify_token,
}

-- What RFC 4648 and the standard library document of the functions of `Crypto`: base64 is a body,
-- without `=` and `.`, and its padding to a multiple of four; a digest equals itself.
pub record Documented {F : Type 0} (cr : Crypto F) : Type 0 where
  pub body : String → String
  pub encoded :
      (d : String)
      → cr.urlsafe_b64encode d ≡ append (body d) (repeat equals (padding cr (text_length (body d))))
  pub body_Lacks_equals : (d : String) → Lacks b'=' (body d)
  pub body_Lacks_dot : (d : String) → Lacks b'.' (body d)
  pub same : (d : String) → cr.compare_digest (body d) (body d) ≡ some true

pub >>=-ok :
    {A B : Type 0} (m : Answer A) (f : A → Answer B) (b : B)
    → (m >>= f) ≡ ok b
    → (a : A) × (m ≡ ok a) × (f a ≡ ok b)
>>=-ok (ok a) f b h = (a, refl, h)
>>=-ok (failed e) f b h = absurd (cc h)

pub Answer-cases :
    {A : Type 0} (m : Answer A) → ((a : A) × (m ≡ ok a)) ⊎ ((e : Failure) × (m ≡ failed e))
Answer-cases (ok a) = inl (a, refl)
Answer-cases (failed e) = inr (e, refl)

pub ok-injective : {A : Type 0} (a b : A) → ok a ≡ ok b → a ≡ b
ok-injective a b h = ap (λ m. elim m [ ok x ↦ x | failed _ ↦ a ]) h

-- The row of a token that was just stored.
abbrev pub fresh_row :
    {F : Type 0} → (created : F) → (username role : String) → (expiry : F) → Row F
fresh_row created username role expiry = record {
  username = username;
  role = role;
  created_at = created;
  expires_at = expiry;
  revoked = false;
}

pub store_token-ok :
    {F : Type 0} (created : F) (token username role : String) (expiry : F) (t t' : Tokens F)
    → store_token created token username role expiry t ≡ ok t'
    → get str_dec token t' ≡ some (fresh_row created username role expiry)
unfolding store_token
store_token-ok created token username role expiry t t' h =
    elim (Bool-cases (is_some (get str_dec token t))) [
      | inl k ↦ absurd (cc (rw k at h))
      | inr k ↦
          ap (get str_dec token) (sym (ok-injective _ t' (rw k at h)))
          ∙ get-set_self str_dec token _ t
    ]

module _ (fl : Float) (cr : Crypto fl.F) (doc : Documented cr) where
  open fl use {F, ltb_f}

  b64url-body : (d : String) → b64url cr d ≡ doc.body d
  unfolding b64url
  b64url-body d =
      ap (λ s. rstrip_of b'=' s) (doc.encoded d)
      ∙ rstrip_of-append b'=' (doc.body d) equals (padding cr (text_length (doc.body d))) refl
          (doc.body_Lacks_equals d)

  b64url_decode-b64url :
      (d : String)
      → cr.urlsafe_b64decode (cr.urlsafe_b64encode d) ≡ some d
      → b64url_decode cr (b64url cr d) ≡ some d
  unfolding b64url_decode
  b64url_decode-b64url d decoded =
      ap (b64url_decode cr) (b64url-body d)
      ∙ ap cr.urlsafe_b64decode (sym (doc.encoded d))
      ∙ decoded

  Lacks-b64url : (d : String) → Lacks b'.' (b64url cr d)
  Lacks-b64url d = subst (Lacks b'.') (sym (b64url-body d)) (doc.body_Lacks_dot d)

  split_on-token :
      (h p s : String)
      → split_on b'.'
          (append (b64url cr h) (append "." (append (b64url cr p) (append "." (b64url cr s)))))
        ≡ b64url cr h ∷ b64url cr p ∷ b64url cr s ∷ []
  unfolding append
  split_on-token h p s =
      split_on-append b'.' (b64url cr h) (append (b64url cr p) (append "." (b64url cr s))) "." refl
        (Lacks-b64url h)
      ∙ ap (λ ws. b64url cr h ∷ ws)
          (split_on-append b'.' (b64url cr p) (b64url cr s) "." refl (Lacks-b64url p)
            ∙ ap (λ ws. b64url cr p ∷ ws) (split_on-whole b'.' (b64url cr s) (Lacks-b64url s)))

  -- The claims that `issue_token` signs.
  abbrev pub issued : (now expiry : F) → (username role : String) → Bool → Claims F
  issued now expiry username role readonly = record {
    sub = some username;
    role = some role;
    iat = some now;
    exp = some expiry;
    readonly = some readonly;
  }

  -- The token, for a secret.
  abbrev pub token_with : String → Claims F → String
  token_with secret c = append (b64url cr cr.dumps_header) (
      append "." (
        append (b64url cr (cr.dumps c))
          (append "." (sign cr (b64url cr cr.dumps_header) (b64url cr (cr.dumps c)) secret))))

  stays_valid : (b : Bool) → not (not b && false) ≡ true
  stays_valid true = refl
  stays_valid false = refl

  token_valid-stored :
      (later : F) (token : String) (t : Tokens F) (row : Row F)
      → get str_dec token t ≡ some row
      → row.revoked ≡ false
      → ltb_f row.expires_at later ≡ false
      → token_valid fl later token t ≡ true
  unfolding token_valid
  token_valid-stored later token t row found kept valid =
      rw (found, kept, valid, token_valid) (stays_valid (fl.eqb_f row.expires_at (fl.lit 0 0)))

  check_claims-live :
      (now later : F) (t : Tokens F) (token : String) (c : Claims F) (expiry : F)
      → c.exp ≡ some expiry
      → ltb_f expiry now ≡ false
      → token_valid fl later token t ≡ true
      → check_claims fl cr now later t token (some c) ≡ some c
  unfolding check_claims
  check_claims-live now later t token c expiry e live valid = rw (e, live, valid) refl

  compare_digest-b64url : (d : String) → cr.compare_digest (b64url cr d) (b64url cr d) ≡ some true
  compare_digest-b64url d = ap (λ x. cr.compare_digest x x) (b64url-body d) ∙ doc.same d

  token_with-accepted :
      (cfg : Settings F) (now later : F) (t : Tokens F) (secret : String) (c : Claims F)
      (expiry : F) (row : Row F)
      → cr.urlsafe_b64decode (cr.urlsafe_b64encode (cr.dumps c)) ≡ some (cr.dumps c)
      → cr.loads (cr.dumps c) ≡ some c
      → secret_of cr cfg ≡ ok secret
      → c.exp ≡ some expiry
      → ltb_f expiry now ≡ false
      → get str_dec (token_with secret c) t ≡ some row
      → row.revoked ≡ false
      → ltb_f row.expires_at later ≡ false
      → verify_token fl cr cfg now later t (token_with secret c) ≡ ok (some c)
  unfolding verify_token check_parts sign
  token_with-accepted cfg now later t secret c expiry row decoded loaded is_set e live found kept
        valid =
      let header = b64url cr cr.dumps_header in
      let payload = b64url cr (cr.dumps c) in
      let digest = cr.hmac_sha256 secret (append header (append "." payload)) in
      ap (check_parts fl cr cfg now later t (token_with secret c))
        (split_on-token cr.dumps_header (cr.dumps c) digest)
      ∙ rw (is_set, compare_digest-b64url digest, b64url_decode-b64url (cr.dumps c) decoded, loaded)
          (ap ok (
            check_claims-live now later t (token_with secret c) c expiry e live
              (token_valid-stored later (token_with secret c) t row found kept valid)))

  -- What `issue_token` returns: a token for the configured secret, and a table that has it.
  issue_token-ok :
      (cfg : Settings F)
      → (now created : F) → (username role : String) → (ttl : Option F) → (readonly : Bool)
      → (t : Tokens F) → (r : String × F × Tokens F)
      → issue_token fl cr cfg now created username role ttl readonly t ≡ ok r
      → (secret : String) × (secret_of cr cfg ≡ ok secret)
        × (r.0 ≡ token_with secret (issued now r.1 username role readonly))
        × (get str_dec r.0 r.2 ≡ some (fresh_row created username role r.1))
  unfolding issue_token
  issue_token-ok cfg now created username role ttl readonly t r h =
      let expiry = expiry_of fl cr cfg now ttl in
      elim (Answer-cases (secret_of cr cfg)) [
        | inr (e, k) ↦ absurd (cc (rw k at h))
        | inl (secret, k) ↦
            let token = token_with secret (issued now expiry username role readonly) in
            elim (Answer-cases (store_token created token username role expiry t)) [
              | inr (e, m) ↦ absurd (cc (rw (k, m) at h))
              | inl (t', m) ↦
                  let e = ok-injective (token, expiry, t') r (rw (k, m) at h) in
                  let (at_token, at_row) =
                    subst
                      (λ r.
                        (r.0 ≡ token_with secret (issued now r.1 username role readonly))
                        × (get str_dec r.0 r.2 ≡ some (fresh_row created username role r.1)))
                      e (refl, store_token-ok created token username role expiry t t' m) in
                  (secret, k, at_token, at_row)
            ]
      ]

  -- A token that `issue_token` returns is accepted by `verify_token`, with the claims that it was
  -- issued for, as long as the clock has not passed the expiry returned with it, where
  -- base64 and digests have their documented form, decoding undoes the encoding of the claims and
  -- parsing their printing, and the table is the one after the issue.
  pub issue_token-verify_token :
      (cfg : Settings F)
      → (now created : F) → (username role : String) → (ttl : Option F) → (readonly : Bool)
      → (t t' : Tokens F) → (token : String) → (expiry now' later : F)
      → issue_token fl cr cfg now created username role ttl readonly t ≡ ok (token, expiry, t')
      → cr.urlsafe_b64decode
          (cr.urlsafe_b64encode (cr.dumps (issued now expiry username role readonly)))
        ≡ some (cr.dumps (issued now expiry username role readonly))
      → cr.loads (cr.dumps (issued now expiry username role readonly))
        ≡ some (issued now expiry username role readonly)
      → ltb_f expiry now' ≡ false
      → ltb_f expiry later ≡ false
      → verify_token fl cr cfg now' later t' token
        ≡ ok (some (issued now expiry username role readonly))
  issue_token-verify_token cfg now created username role ttl readonly t t' token expiry now' later h
        decoded loaded live valid =
      let (secret, is_set, e, found) =
        issue_token-ok cfg now created username role ttl readonly t (token, expiry, t') h in
      let c = issued now expiry username role readonly in
      ap (verify_token fl cr cfg now' later t') e
      ∙ token_with-accepted cfg now' later t' secret c expiry
          (fresh_row created username role expiry) decoded loaded is_set refl live
          (subst (λ k. get str_dec k t' ≡ some (fresh_row created username role expiry)) e found)
          refl valid
