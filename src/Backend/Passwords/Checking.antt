-- ===== src/Backend/Passwords/Checking.antt =====
-- A password is accepted against its own hash.
use warehouse_digital_twin.Base.{
  ◌≡◌, refl, sym, inl, inr, ap, ◌∙◌, String, true, false, none, some, [], ◌∷◌, append, split_on,
  Lacks, split_on-append, split_on-whole, Option-cases,
}
use warehouse_digital_twin.Backend.Passwords.{
  Hashing, iterations, hash_password, check_hash, verify_password,
}

-- What the standard library documents: base64 and the printed number of iterations have no `$`,
-- reading that number undoes its printing, and equal base64 texts compare equal.
pub record Plain (h : Hashing) : Type 0 where
  pub b64_Lacks : (d : String) → Lacks b'$' (h.b64encode d)
  pub int_Lacks : Lacks b'$' (h.int_str iterations)
  pub read_int : h.int_of_str (h.int_str iterations) ≡ some iterations
  pub same : (d : String) → h.compare_digest (h.b64encode d) (h.b64encode d) ≡ some true

module _ (h : Hashing) (plain : Plain h) where
  split_on-stored :
      (iters salt digest : String)
      → Lacks b'$' iters
      → split_on b'$' (
          append "pbkdf2" (
            append "$" (
              append iters
                (append "$" (append (h.b64encode salt) (append "$" (h.b64encode digest)))))))
        ≡ "pbkdf2" ∷ iters ∷ h.b64encode salt ∷ h.b64encode digest ∷ []
  unfolding append
  split_on-stored iters salt digest free =
      split_on-append b'$' "pbkdf2" _ "$" refl (refl, (refl, (refl, (refl, (refl, (refl, tt))))))
      ∙ ap (λ ws. "pbkdf2" ∷ ws)
          (split_on-append b'$' iters _ "$" refl free
            ∙ ap (λ ws. iters ∷ ws)
                (split_on-append b'$' (h.b64encode salt) _ "$" refl (plain.b64_Lacks salt)
                  ∙ ap (λ ws. h.b64encode salt ∷ ws)
                      (split_on-whole b'$' (h.b64encode digest) (plain.b64_Lacks digest))))

  -- `verify_password` accepts a password against the text that `hash_password` made of it, for every
  -- salt that decodes from its base64, where the library behaves as documented in `Plain`.
  pub verify_password-hash_password :
      (salt password stored : String)
      → h.b64decode (h.b64encode salt) ≡ some salt
      → hash_password h salt password ≡ some stored
      → verify_password h password stored ≡ true
  unfolding hash_password verify_password check_hash
  verify_password-hash_password salt password stored decoded e =
      elim (Option-cases (h.pbkdf2_hmac password salt iterations)) [
        | inl k ↦ absurd (cc (rw (hash_password, k) at e))
        | inr (digest, k) ↦
            let made =
              ap (λ o. elim o [ none ↦ stored | some s ↦ s ]) (rw (hash_password, k) at e) in
            ap (verify_password h password) (sym made)
            ∙ ap (λ ws. elim (check_hash h password ws) [ none ↦ false | some b ↦ b ])
                (split_on-stored (h.int_str iterations) salt digest plain.int_Lacks)
            ∙ rw (check_hash, decoded, plain.read_int, k, plain.same digest) refl
      ]
