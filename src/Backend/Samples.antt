-- ===== src/Backend/Samples.antt =====
-- A token that is issued, used and revoked: instances of the theorems.
use warehouse_digital_twin.Base.{
  inl, ◌≡◌, refl, String, Bool, true, false, ite, none, some, List, [], ◌∷◌, str_dec, append,
  repeat, text_length, text_drop, rstrip_of, split_on, strip, strip_prefix, lower, ◌-◌,
}
use warehouse_digital_twin.Base.Int.{ℤ, pos, ◌+ℤ◌}
use warehouse_digital_twin.Base.Dict.{get, set}
use warehouse_digital_twin.Base.Fixed.{fixed}
use warehouse_digital_twin.Backend.Auth.{
  Claims, Crypto, Settings, Tokens, ok, failed, invalid_token, Request, issue_token, expiry_of,
  verify_token, get_current_user, require_role, logout, token_of, role_allows, role_level,
  text_or_empty, secret_of, store_token, b64url, sign, padding, check_parts, check_claims,
  token_valid, b64url_decode, logout_token, revoke_token,
}
use warehouse_digital_twin.Backend.Auth.Tokens.{Documented, issue_token-verify_token}
use warehouse_digital_twin.Backend.Auth.Granting.{Accepted, require_role-Accepted}
use warehouse_digital_twin.Backend.Auth.Leaving.{logout-refuses, logout-misses}
use warehouse_digital_twin.Backend.RateLimit.{answers}
use warehouse_digital_twin.Backend.RateLimit.Counting.{
  counted, requests, passed, smaller, IsFilled, answers-passed,
}
use warehouse_digital_twin.Backend.Passwords.{Hashing, iterations, hash_password, verify_password}
use warehouse_digital_twin.Backend.Passwords.Checking.{Plain, verify_password-hash_password}

-- The claims of a supervisor, issued at time 1 for an hour.
abbrev claims : Claims ℤ
claims = record {
  sub = some "ann";
  role = some "supervisor";
  iat = some (pos 1000);
  exp = some (pos 3601000);
  readonly = some false;
}

-- Every text encodes to one body; the payload is that of `claims`.
abbrev toy : Crypto ℤ
toy = record {
  hmac_sha256 = λ key msg. "digest";
  urlsafe_b64encode = λ d. "b===";
  urlsafe_b64decode = λ s. some "claims";
  dumps_header = "header";
  dumps = λ c. "claims";
  loads = λ s. some claims;
  compare_digest = λ a b. some (ite (str_dec a b) true false);
}

toy-Documented : Documented toy
unfolding append repeat padding text_length str_dec
toy-Documented = record {
  body = λ d. "b";
  encoded = λ d. refl;
  body_Lacks_equals = λ d. (refl, tt);
  body_Lacks_dot = λ d. (refl, tt);
  same = λ d. refl;
}

abbrev settings : Settings ℤ
settings = record { secret = some "key"; token_ttl = pos 3600000 }

abbrev tokens : Tokens ℤ
tokens =
    (
      "b.b.b",
      record {
        username = "ann";
        role = "supervisor";
        created_at = pos 1000;
        expires_at = pos 3601000;
        revoked = false;
      },
    )
    ∷ []

abbrev by_header : Request
by_header = record { authorization = some "Bearer b.b.b"; access_token = none }

abbrev by_query : Request
by_query = record { authorization = some "Basic eDp5"; access_token = some "b.b.b" }

issue_token-verify_token_example :
    verify_token fixed toy settings (pos 2000) (pos 2000) tokens "b.b.b" ≡ ok (some claims)
unfolding issue_token expiry_of secret_of store_token b64url sign append rstrip_of padding str_dec
    get set ◌+ℤ◌
issue_token-verify_token_example =
    issue_token-verify_token fixed toy toy-Documented settings (pos 1000) (pos 1000) "ann"
      "supervisor" none false [] tokens "b.b.b" (pos 3601000) (pos 2000) (pos 2000) refl refl refl
      refl refl

require_role-Accepted_example :
    Accepted fixed toy settings (pos 2000) (pos 2000) tokens (token_of fixed toy by_header) claims
    × (role_allows "supervisor" "operator" ≡ true)
    × (false ≡ false)
unfolding require_role get_current_user token_of verify_token check_parts check_claims token_valid
    b64url_decode secret_of sign b64url rstrip_of append split_on strip lower strip_prefix text_drop
    text_or_empty role_allows role_level str_dec get
require_role-Accepted_example =
    require_role-Accepted fixed toy "operator" settings (pos 2000) (pos 2000) tokens by_header
      claims refl

abbrev revoked : Tokens ℤ
revoked = revoke_token "b.b.b" tokens

logout-refuses_example :
    get_current_user fixed toy settings (pos 3000) (pos 3000) revoked by_header
    ≡ failed invalid_token
unfolding logout logout_token revoke_token get_current_user token_of verify_token check_parts
    check_claims token_valid b64url_decode secret_of sign b64url rstrip_of append split_on strip
    lower strip_prefix text_drop text_or_empty str_dec get set
logout-refuses_example =
    logout-refuses fixed toy settings (pos 2000) (pos 2000) (pos 3000) (pos 3000) tokens revoked
      by_header "Bearer b.b.b" "b.b.b" refl refl refl refl

logout-misses_example :
    get_current_user fixed toy settings (pos 3000) (pos 3000) tokens by_query ≡ ok claims
unfolding logout logout_token get_current_user token_of verify_token check_parts check_claims
    token_valid b64url_decode secret_of sign b64url rstrip_of append split_on strip lower
    strip_prefix text_drop text_or_empty str_dec get set
logout-misses_example =
    logout-misses fixed toy settings (pos 2000) (pos 2000) (pos 3000) (pos 3000) tokens tokens
      by_query claims refl refl (inl refl) refl refl

abbrev clients : List String
clients = "10.0.0.1" ∷ "10.0.0.2" ∷ "10.0.0.1" ∷ "10.0.0.1" ∷ []

no_hits-IsFilled : IsFilled []
unfolding get
no_hits-IsFilled key h = absurd (cc h)

answers-passed_example :
    (bs : List (String × Bool)) × (answers (pos 2) (pos 5) clients [] ≡ some bs)
    × (passed "10.0.0.1" bs
        ≡ smaller (requests "10.0.0.1" clients) (2 - counted (pos 5) "10.0.0.1" []))
answers-passed_example = answers-passed 2 (pos 5) "10.0.0.1" clients [] no_hits-IsFilled

-- The digest of a password is the password, and every text encodes to one.
abbrev hashing : Hashing
hashing = record {
  pbkdf2_hmac = λ password salt n. some password;
  b64encode = λ d. "b";
  b64decode = λ s. some "salt";
  compare_digest = λ a b. some (ite (str_dec a b) true false);
  int_of_str = λ s. some iterations;
  int_str = λ n. "120000";
}

hashing-Plain : Plain hashing
unfolding str_dec
hashing-Plain = record {
  b64_Lacks = λ d. (refl, tt);
  int_Lacks = (refl, (refl, (refl, (refl, (refl, (refl, tt))))));
  read_int = refl;
  same = λ d. refl;
}

verify_password-hash_password_example : verify_password hashing "secret" "pbkdf2$120000$b$b" ≡ true
unfolding hash_password append
verify_password-hash_password_example =
    verify_password-hash_password hashing hashing-Plain "salt" "secret" "pbkdf2$120000$b$b" refl
      refl
