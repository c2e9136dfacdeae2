-- ===== src/Auth.antt =====
-- app/services/auth_service.py, app/services/user_service.py, and `get_current_user` of
-- app/dependencies.py. bcrypt and PyJWT are a parameter, `Security`; the tokens that
-- `secrets.token_urlsafe` draws are part of a call's draws.
pub mod Rotation
pub mod Sessions
use miniwallet.Base.{
  ℕ, ◌+◌, ◌*◌, String, Bool, true, false, Option, none, some, List, ◌∷◌, filter, find?, not, ltb,
  ◌==◌, str_eq, if◌then◌else◌,
}
use miniwallet.Errors.{
  Result, ok, raise, ◌>>=◌, email_already_exists, invalid_credentials, invalid_refresh_token,
  unauthorized, value_error, statement_error,
}
use miniwallet.Events.{Leaf, uuid, decimal, text}
use miniwallet.Models.{User}
use miniwallet.Db.{Db, Env, insert_user}

-- app/config.py
abbrev pub access_token_expire_minutes : ℕ
access_token_expire_minutes = 15

abbrev pub refresh_token_expire_days : ℕ
refresh_token_expire_days = 7

-- The payload of an access token.
pub record Claims : Type 0 where
  pub sub : Option Leaf
  pub exp : Option ℕ

-- `bcrypt.hashpw` with a salt and `bcrypt.checkpw`, none where they raise ValueError; `jwt.encode`
-- with the secret of the settings, and `jwt.decode` at a time, none where it raises
-- InvalidTokenError.
pub record Security : Type 0 where
  pub hashpw : ℕ → String → Option String
  pub checkpw : String → String → Option Bool
  pub encode : Claims → String
  pub decode : ℕ → String → Option Claims

-- A refresh token in Redis, whose key is the token with a prefix.
pub record Grant : Type 0 where
  pub token : String
  pub user_id : ℕ
  pub expires_at : ℕ

abbrev pub Tokens : Type 0
Tokens = List Grant

abbrev has_expired : ℕ → Option Grant → Option ℕ
has_expired now none = none
has_expired now (some g) = if ltb now g.expires_at then some g.user_id else none

-- `redis.get(f"refresh:{token}")`
unfoldable pub lookup : ℕ → String → Tokens → Option ℕ
lookup now token tokens = has_expired now (find? (λ (g : Grant). str_eq g.token token) tokens)

-- `redis.delete(f"refresh:{token}")`
unfoldable pub revoke : String → Tokens → Tokens
revoke token tokens = filter (λ (g : Grant). not (str_eq g.token token)) tokens

pub record TokenResponse : Type 0 where
  pub access_token : String
  pub refresh_token : String
  pub token_type : String
  pub expires_in : ℕ

-- What a call that issues tokens draws: the time, and the new refresh token.
pub record Draw : Type 0 where
  pub now : ℕ
  pub token : String

abbrev pub user_row : Env → String → String → User
user_row env email hashed = record {
  id = env.uuid4 0;
  email = email;
  hashed_password = hashed;
  created_at = env.now 0;
  updated_at = env.now 0;
}

abbrev pub registered : User → Db → Result Db → Result User × Db
registered u db (ok db') = (ok u, db')
registered u db (raise e) = (raise email_already_exists, db)

abbrev pub with_hash : Env → String → Db → Option String → Result User × Db
with_hash env email db none = (raise value_error, db)
with_hash env email db (some hashed) =
    registered (user_row env email hashed) db (insert_user (user_row env email hashed) db)

-- `get_by_email`
unfoldable pub get_by_email : String → Db → Option User
get_by_email email db = find? (λ (u : User). str_eq u.email email) db.users

-- `get_by_id`, and `db.get(User, …)`
unfoldable pub get_by_id : ℕ → Db → Option User
get_by_id i db = find? (λ (u : User). u.id == i) db.users

abbrev found_user : Option User → Result User
found_user none = raise unauthorized
found_user (some u) = ok u

-- `await db.get(User, user_id)`
abbrev load_user : Db → Option Leaf → Result User
load_user db none = raise unauthorized
load_user db (some (uuid i)) = found_user (get_by_id i db)
load_user db (some (decimal x)) = raise statement_error
load_user db (some (text s)) = raise statement_error

abbrev from_claims : Db → Option Claims → Result User
from_claims db none = raise unauthorized
from_claims db (some c) = load_user db c.sub

module _ (lib : Security) where
  -- `register`
  unfoldable pub register : Env → String → String → Db → Result User × Db
  register env email password db = with_hash env email db (lib.hashpw (env.uuid4 1) password)

  -- `_create_access_token`
  abbrev pub create_access_token : ℕ → ℕ → String
  create_access_token now user_id =
      lib.encode
        (record { sub = some (uuid user_id); exp = some (now + access_token_expire_minutes * 60) })

  -- A new pair of tokens, with the refresh token stored for its time to live.
  unfoldable pub issue : Draw → ℕ → Tokens → TokenResponse × Tokens
  issue d user_id tokens = (
    record {
      access_token = create_access_token d.now user_id;
      refresh_token = d.token;
      token_type = "bearer";
      expires_in = access_token_expire_minutes * 60;
    },
    record {
      token = d.token;
      user_id = user_id;
      expires_at = d.now + refresh_token_expire_days * 86400;
    }
        ∷ tokens,
  )

  abbrev issued : TokenResponse × Tokens → Result TokenResponse × Tokens
  issued p = (ok p.0, p.1)

  -- `not bcrypt.checkpw(…)`
  abbrev by_password : Draw → User → Tokens → Option Bool → Result TokenResponse × Tokens
  by_password d u tokens none = (raise value_error, tokens)
  by_password d u tokens (some false) = (raise invalid_credentials, tokens)
  by_password d u tokens (some true) = issued (issue d u.id tokens)

  abbrev by_user : Draw → String → Tokens → Option User → Result TokenResponse × Tokens
  by_user d password tokens none = (raise invalid_credentials, tokens)
  by_user d password tokens (some u) =
      by_password d u tokens (lib.checkpw password u.hashed_password)

  -- `login`
  unfoldable pub login : Draw → String → String → Db → Tokens → Result TokenResponse × Tokens
  unfolding issue
  login d email password db tokens = by_user d password tokens (get_by_email email db)

  -- `refresh_token` after it has read the old token.
  unfoldable pub rotate : Draw → String → Option ℕ → Tokens → Result TokenResponse × Tokens
  unfolding issue
  rotate d old none tokens = (raise invalid_refresh_token, tokens)
  rotate d old (some user_id) tokens = issued (issue d user_id (revoke old tokens))

  -- `refresh_token`
  unfoldable pub refresh_token : Draw → String → Tokens → Result TokenResponse × Tokens
  unfolding rotate
  refresh_token d old tokens = rotate d old (lookup d.now old tokens) tokens

  -- `get_current_user`: the credentials are the bearer's token, if there is one.
  unfoldable pub get_current_user : ℕ → Option String → Db → Result User
  get_current_user now none db = raise unauthorized
  get_current_user now (some credentials) db = from_claims db (lib.decode now credentials)
