-- ===== src/Backend/Passwords.antt =====
-- The hashing of passwords, backend/backend/auth.py. Bytes are a `String`, a byte as the character
-- with its code; the random salt is an argument.
pub mod Checking
use warehouse_digital_twin.Base.{
  String, Bool, true, false, Option, none, some, List, [], ◌∷◌, append, split_on,
}
use warehouse_digital_twin.Base.Int.{ℤ, pos}

-- The standard library's `hashlib`, `base64` and `hmac`, and Python's `int` and `%d`. `none` is an
-- exception.
pub record Hashing : Type 0 where
  pub pbkdf2_hmac : (password salt : String) → (iterations : ℤ) → Option String
  pub b64encode : String → String
  pub b64decode : String → Option String
  pub compare_digest : String → String → Option Bool
  pub int_of_str : String → Option ℤ
  pub int_str : ℤ → String

-- `_PBKDF2_ITERATIONS`.
abbrev pub iterations : ℤ
iterations = pos 120000

module _ (h : Hashing) where
  unfoldable pub hash_password : (salt password : String) → Option String
  hash_password salt password = elim (h.pbkdf2_hmac password salt iterations) [
    | none ↦ none
    | some digest ↦ some (
        append "pbkdf2" (
          append "$" (
            append (h.int_str iterations)
              (append "$" (append (h.b64encode salt) (append "$" (h.b64encode digest)))))))
  ]

  -- The body of `verify_password`, for the parts of the stored text; `none` is an exception.
  unfoldable pub check_hash : (password : String) → List String → Option Bool
  check_hash password (_ ∷ iters ∷ salt_b64 ∷ hash_b64 ∷ []) = elim (h.b64decode salt_b64) [
    | none ↦ none
    | some salt ↦ elim (h.int_of_str iters) [
      | none ↦ none
      | some n ↦ elim (h.pbkdf2_hmac password salt n) [
        | none ↦ none
        | some digest ↦ h.compare_digest (h.b64encode digest) hash_b64
      ]
    ]
  ]
  check_hash password _ = none

  -- `verify_password`: every exception is caught.
  unfoldable pub verify_password : (password stored : String) → Bool
  unfolding check_hash
  verify_password password stored = elim (check_hash password (split_on b'$' stored)) [
    | none ↦ false
    | some b ↦ b
  ]
