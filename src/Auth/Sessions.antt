-- ===== src/Auth/Sessions.antt =====
-- What a session of a user is: from the registration over the login to the expiry of a token.
use miniwallet.Base.{
  ℕ, ◌+◌, ◌*◌, ◌<◌, ◌≡◌, refl, sym, String, true, false, Option, none, some, List, ◌∷◌, ltb,
  str_eq_refl, arith,
}
use miniwallet.Errors.{Result, ok, raise, ◌>>=◌, unauthorized}
use miniwallet.Events.{uuid}
use miniwallet.Models.{User}
use miniwallet.Db.{Db, Env, insert_user}
use miniwallet.Auth.{
  access_token_expire_minutes, Security, Tokens, Draw, user_row, registered, with_hash,
  get_by_email, get_by_id, register, create_access_token, issue, login, get_current_user,
}

-- What the documentation of bcrypt and of PyJWT says of them.
pub record IsSecure (lib : Security) : Type 0 where
  pub checks : (salt : ℕ) (p h : String) → lib.hashpw salt p ≡ some h → lib.checkpw p h ≡ some true
  pub decodes :
      (now t i : ℕ)
      → now < t
      → lib.decode now (lib.encode (record { sub = some (uuid i); exp = some t }))
        ≡ some (record { sub = some (uuid i); exp = some t })
  pub expires :
      (now t i : ℕ)
      → ltb now t ≡ false
      → lib.decode now (lib.encode (record { sub = some (uuid i); exp = some t })) ≡ none

-- A registration that succeeded.
record Registered (lib : Security) (env : Env) (email password : String) (db : Db) (u : User)
    (db' : Db) : Type 0 where
  hashed : lib.hashpw (env.uuid4 1) password ≡ some u.hashed_password
  row : u ≡ user_row env email u.hashed_password
  users : db'.users ≡ u ∷ db.users

insert_user-users :
    (u : User) (db : Db) {db' : Db} → insert_user u db ≡ ok db' → db'.users ≡ u ∷ db.users
unfolding insert_user
insert_user-users u db h = ground arith

registered-Registered :
    (lib : Security) (env : Env) (email password : String) (db : Db) (h : String) (x : Result Db)
    {u : User} {db' : Db}
    → lib.hashpw (env.uuid4 1) password ≡ some h
    → insert_user (user_row env email h) db ≡ x
    → registered (user_row env email h) db x ≡ (ok u, db')
    → Registered lib env email password db u db'
registered-Registered lib env email password db h (ok db₁) {u} {db'} hh hx e =
    let row : u ≡ user_row env email h = ground arith in
    let same : db' ≡ db₁ = ground arith in
    record {
      hashed = rw row hh;
      row = rw row refl;
      users = rw (row, same) (insert_user-users (user_row env email h) db hx);
    }
registered-Registered lib env email password db h (raise err) hh hx e = ground arith

with_hash-Registered :
    (lib : Security) (env : Env) (email password : String) (db : Db) (o : Option String) {u : User}
    {db' : Db}
    → lib.hashpw (env.uuid4 1) password ≡ o
    → with_hash env email db o ≡ (ok u, db')
    → Registered lib env email password db u db'
with_hash-Registered lib env email password db none hh e = ground arith
with_hash-Registered lib env email password db (some h) hh e =
    registered-Registered lib env email password db h _ hh refl e

register-Registered :
    (lib : Security) (env : Env) (email password : String) (db : Db) {u : User} {db' : Db}
    → register lib env email password db ≡ (ok u, db')
    → Registered lib env email password db u db'
unfolding register
register-Registered lib env email password db e =
    with_hash-Registered lib env email password db _ refl e

-- The access token of a user, before it expires, gets the row that the database has for the user.
token_authenticates :
    (lib : Security) (t now i : ℕ) (db : Db) {u : User}
    → IsSecure lib
    → now < t + access_token_expire_minutes * 60
    → get_by_id i db ≡ some u
    → get_current_user lib now (some (create_access_token lib t i)) db ≡ ok u
unfolding get_current_user
token_authenticates lib t now i db laws h found =
    rw (laws.decodes now (t + 15 * 60) i h, found) refl

first_by_id : (u : User) (db : Db) {l : List User} → db.users ≡ u ∷ l → get_by_id u.id db ≡ some u
unfolding get_by_id
first_by_id u db h = rw h (ground arith)

first_by_email :
    (u : User) (db : Db) {l : List User} → db.users ≡ u ∷ l → get_by_email u.email db ≡ some u
unfolding get_by_email
first_by_email u db h = rw (h, str_eq_refl u.email) refl

-- With a bcrypt that accepts the password which it hashed and a PyJWT that gives back a payload
-- before its `exp`: after a registration that succeeded, a login with the same email and password
-- succeeds, and for fifteen minutes the access token that it gives makes the caller the registered
-- user.
pub registered_user_authenticates :
    (lib : Security) (env : Env) (d : Draw) (email password : String) (db : Db) (tokens : Tokens)
    (now : ℕ) {u : User} {db' : Db}
    → IsSecure lib
    → register lib env email password db ≡ (ok u, db')
    → now < d.now + access_token_expire_minutes * 60
    → ((login lib d email password db' tokens).0 >>= λ t.
        get_current_user lib now (some t.access_token) db')
      ≡ ok u
unfolding login issue
registered_user_authenticates lib env d email password db tokens now {u} {db'} laws e h =
    let r = register-Registered lib env email password db e in
    let same : u.email ≡ email = rw r.row refl in
    let found : get_by_email email db' ≡ some u = rw (sym same) (first_by_email u db' r.users) in
    let right = laws.checks (env.uuid4 1) password u.hashed_password r.hashed in
    rw (found, right)
      (token_authenticates lib d.now now u.id db' laws h (first_by_id u db' r.users))

-- An access token gets nobody in from its expiry on.
pub access_token_expires :
    (lib : Security) (t now i : ℕ) (db : Db)
    → IsSecure lib
    → ltb now (t + access_token_expire_minutes * 60) ≡ false
    → get_current_user lib now (some (create_access_token lib t i)) db ≡ raise unauthorized
unfolding get_current_user
access_token_expires lib t now i db laws h = rw (laws.expires now (t + 15 * 60) i h) refl
