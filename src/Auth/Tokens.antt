-- ===== src/Auth/Tokens.antt =====
-- services/auth.py. bcrypt and the JWT library are third parties: `Crypto` holds what they compute.
use mdmfleetmanagement.Prelude.{ℕ, ◌+◌, ◌*◌, String, Bool, Option}

-- The claims of a token: sub, role, exp.
pub record Claims : Type 0 where
  pub sub : String
  pub role : String
  pub exp : ℕ

-- bcrypt.hashpw (with a fresh salt), bcrypt.checkpw, jwt.encode, and jwt.decode at a time: none
-- for a token that is malformed, forged or expired.
pub record Crypto : Type 0 where
  pub hashpw : ℕ → String → String
  pub checkpw : String → String → Bool
  pub encode : Claims → String
  pub decode : ℕ → String → Option Claims

abbrev pub access_token_expire_minutes : ℕ
access_token_expire_minutes = 480

unfoldable pub create_access_token : Crypto → ℕ → String → String → String
create_access_token crypto now user_id role = crypto.encode (record {
  sub = user_id;
  role = role;
  exp = now + access_token_expire_minutes * 60 * 1_000_000;
})
