-- ===== src/Passwords.antt =====
-- core/auth.py: hashing and checking a password, by bcrypt or by argon2 as the settings say.
use smart_http_requester.Common.{◌+◌, String, Bool, true, false, Option, none, some, if◌then◌else◌}
use smart_http_requester.Schemas.{Bytes}
use smart_http_requester.Session.{
  decode_error, hash_error, ok, err, verified, mismatch, verification_error, invalid_hash,
  undecodable, Verification, Outcome, Action,
}

-- Each hash draws a salt. The argon2 branch logs its HashingError and raises it again.
unfoldable pub hash_password : String → Action Bytes
hash_password password env w =
    elim (if env.use_argon
      then env.argon_hash w.drawn password
      else env.bcrypt_hash w.drawn password) [
        | none ↦ (err hash_error, record w { drawn = w.drawn + 1 })
        | some h ↦ (ok h, record w { drawn = w.drawn + 1 })
      ]

-- bcrypt's ValueError counts as a wrong password.
abbrev pub bcrypt_result : Option Bool → Outcome Bool
bcrypt_result none = ok false
bcrypt_result (some b) = ok b

-- A hash that needs a rehash is accepted; `decode` stands in no except clause.
abbrev pub argon_result : Verification → Outcome Bool
argon_result (verified needs_rehash) = ok true
argon_result mismatch = ok false
argon_result verification_error = ok false
argon_result invalid_hash = ok false
argon_result undecodable = err decode_error

unfoldable pub check_password : String → Bytes → Action Bool
check_password password hashed_password env w = (
  if env.use_argon
      then argon_result (env.argon_verify password hashed_password)
      else bcrypt_result (env.bcrypt_check password hashed_password),
  w,
)
