-- ===== src/Auth/Hasher.antt =====
-- app/modules/auth/infrastructure/providers/auth/hashers.py: passwords hashed by PBKDF2. The
-- function of hashlib and the random salt are parameters; bytes are numbers below 256.
use self_learning_trading_ag.Base.{
  ℕ, ◌≡◌, refl, ap, ◌∙◌, Bool, false, Option, none, some, List, [], ◌∷◌, ◌++◌, Text, text, text_eq,
  text_eq_refl, Except, ok, raise, arith,
}
use self_learning_trading_ag.Int.{ℤ, pos}
use self_learning_trading_ag.Parse.Splits.{split_on, split_on-Lacks, split_on-append}
use self_learning_trading_ag.Parse.Numbers.{parse_int, numerals}
use self_learning_trading_ag.Parse.Hex.{hex, fromhex, AreBytes, fromhex-hex, Lacks-hex}
use self_learning_trading_ag.Auth.Service.{PasswordHasher}

-- `hashlib.pbkdf2_hmac("sha256", password, salt, iterations)`, which gives bytes.
pub record Pbkdf2 : Type 0 where
  pub derive : Text → List ℕ → ℤ → List ℕ
  pub derive-AreBytes :
      (password : Text) (salt : List ℕ) (n : ℤ) → AreBytes (derive password salt n)

module _ (p : Pbkdf2) where
  -- `hash`, with the salt that `secrets` gives.
  unfoldable pub hash_password : List ℕ → Text → Text
  hash_password salt password =
      text "pbkdf2_sha256"
      ++ (b'$'
          ∷ (text "390000"
              ++ (b'$' ∷ (hex salt ++ (b'$' ∷ hex (p.derive password salt (pos 390000)))))))

  -- The comparison, once the text is decoded; a count of iterations that is no number raises.
  unfoldable pub compare_digest : Text → Option ℤ → List ℕ → List ℕ → Except (Unit {0}) Bool
  compare_digest password none salt expected = raise tt
  compare_digest password (some n) salt expected = ok (text_eq (p.derive password salt n) expected)

  -- The four pieces of a hash, decoded.
  unfoldable pub check_parts : Text → List Text → Except (Unit {0}) Bool
  check_parts password (_ ∷ (iterations ∷ (salt_hex ∷ (digest_hex ∷ [])))) =
      elim (fromhex salt_hex) [
        | none ↦ ok false
        | some salt ↦ elim (fromhex digest_hex) [
          | none ↦ ok false
          | some expected ↦ compare_digest password (parse_int iterations) salt expected
        ]
      ]
  check_parts password _ = ok false

  -- `verify`
  unfoldable pub verify_password : Text → Text → Except (Unit {0}) Bool
  verify_password password hashed = check_parts password (split_on b'$' hashed)

  -- The pieces of a hash that `hash` made.
  split_on-hash_password :
      (salt : List ℕ) (password : Text)
      → AreBytes salt
      → split_on b'$' (hash_password salt password)
        ≡ text "pbkdf2_sha256"
          ∷ (text "390000" ∷ (hex salt ∷ (hex (p.derive password salt (pos 390000)) ∷ [])))
  unfolding hash_password
  split_on-hash_password salt password h =
      split_on-append b'$' (text "pbkdf2_sha256") _ (ground arith)
      ∙ ap (λ l. text "pbkdf2_sha256" ∷ l)
          (split_on-append b'$' (text "390000") _ (ground arith)
            ∙ ap (λ l. text "390000" ∷ l)
                (split_on-append b'$' (hex salt) _ (Lacks-hex salt h)
                  ∙ ap (λ l. hex salt ∷ l)
                      (split_on-Lacks b'$' (hex (p.derive password salt (pos 390000)))
                        (Lacks-hex _ (p.derive-AreBytes password salt (pos 390000))))))

  iterations_read : parse_int (text "390000") ≡ some (pos 390000)
  unfolding numerals
  iterations_read = refl

  -- What `hash` makes of a password under any salt verifies exactly the passwords that PBKDF2 maps
  -- to the same bytes under that salt, and so the password itself; `verify` raises on none of it.
  pub verify_password-hash_password :
      (salt : List ℕ) (password tried : Text)
      → AreBytes salt
      → verify_password tried (hash_password salt password)
        ≡ ok (text_eq (p.derive tried salt (pos 390000)) (p.derive password salt (pos 390000)))
  unfolding verify_password check_parts compare_digest
  verify_password-hash_password salt password tried h =
      rw
        (
          split_on-hash_password salt password h,
          check_parts,
          fromhex-hex salt h,
          fromhex-hex _ (p.derive-AreBytes password salt (pos 390000)),
          iterations_read,
          compare_digest,
        )
        refl

  -- `Pbkdf2PasswordHasher`, whose exceptions no password that it hashed raises, as the port.
  pub pbkdf2_hasher : (salt : List ℕ) → AreBytes salt → PasswordHasher
  pbkdf2_hasher salt h = record {
    hash = hash_password salt;
    verify =
        λ password hashed. elim (verify_password password hashed) [ ok b ↦ b | raise _ ↦ false ];
    verify-hash = λ password.
        rw (verify_password-hash_password salt password password h)
          (text_eq_refl (p.derive password salt (pos 390000)));
  }
