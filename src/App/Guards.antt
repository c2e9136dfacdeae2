-- ===== src/App/Guards.antt =====
-- Who gets an answer: every endpoint but four wants a caller.
use miniwallet.Base.{
  ℕ, ◌<◌, ◌≤◌, ◌≡◌, ◌≢◌, refl, inl, inr, false, String, Option, none, some, List, [], ◌∷◌, find?,
  ◌==◌, ltb, IsOneOf, Bool-cases, arith,
}
use miniwallet.Events.{uuid}
use miniwallet.Models.{User}
use miniwallet.Db.{Db}
use miniwallet.Auth.Sessions.{IsSecure}
use miniwallet.Errors.{Error, raise, unauthorized}
use miniwallet.Errors.Http.{status_code, error_code}
use miniwallet.Auth.{Security, get_current_user, get_by_id}
use miniwallet.Api.{fails, authenticated}
use miniwallet.App.{
  Setting, Draws, Server, Call, post_register, post_login, post_refresh, get_me, post_account,
  get_my_account, get_my_balance, get_my_transactions, post_transfer, post_withdrawal, post_seed,
  post_simulate_deposit, get_transfer_by_id, get_withdrawal_by_id, get_deposit_by_id,
  post_scheduled_payment, list_scheduled_payments, delete_scheduled_payment, run, handle,
}

-- The endpoints that depend on `get_current_user`.
abbrev pub IsProtected : Call → Type 0
IsProtected (post_register body) = ⊥
IsProtected (post_login body) = ⊥
IsProtected (post_refresh token) = ⊥
IsProtected (post_simulate_deposit body) = ⊥
IsProtected _ = Unit

refused :
    (c : Setting) (d : Draws) (bearer : Option String) (call : Call) (s : Server) {e : Error}
    → get_current_user c.security d.now bearer s.world.db ≡ raise e
    → authenticated (get_current_user c.security d.now bearer s.world.db) s (run c d s call)
      ≡ (fails (status_code e) (error_code e), s)
refused c d bearer call s h = rw h refl

refused_call :
    (c : Setting) (d : Draws) (bearer : Option String) (call : Call) (s : Server) {e : Error}
    → IsProtected call
    → get_current_user c.security d.now bearer s.world.db ≡ raise e
    → handle c d bearer call s ≡ (fails (status_code e) (error_code e), s)
unfolding handle
refused_call c d bearer (post_register body) s p h = absurd p
refused_call c d bearer (post_login body) s p h = absurd p
refused_call c d bearer (post_refresh token) s p h = absurd p
refused_call c d bearer (post_simulate_deposit body) s p h = absurd p
refused_call c d bearer get_me s p h = refused c d bearer get_me s h
refused_call c d bearer post_account s p h = refused c d bearer post_account s h
refused_call c d bearer get_my_account s p h = refused c d bearer get_my_account s h
refused_call c d bearer get_my_balance s p h = refused c d bearer get_my_balance s h
refused_call c d bearer list_scheduled_payments s p h =
    refused c d bearer list_scheduled_payments s h
refused_call c d bearer (get_my_transactions q) s p h =
    refused c d bearer (get_my_transactions q) s h
refused_call c d bearer (post_transfer body key) s p h =
    refused c d bearer (post_transfer body key) s h
refused_call c d bearer (post_withdrawal body key) s p h =
    refused c d bearer (post_withdrawal body key) s h
refused_call c d bearer (post_seed body key) s p h = refused c d bearer (post_seed body key) s h
refused_call c d bearer (get_transfer_by_id i) s p h = refused c d bearer (get_transfer_by_id i) s h
refused_call c d bearer (get_withdrawal_by_id i) s p h =
    refused c d bearer (get_withdrawal_by_id i) s h
refused_call c d bearer (get_deposit_by_id i) s p h = refused c d bearer (get_deposit_by_id i) s h
refused_call c d bearer (post_scheduled_payment body) s p h =
    refused c d bearer (post_scheduled_payment body) s h
refused_call c d bearer (delete_scheduled_payment i) s p h =
    refused c d bearer (delete_scheduled_payment i) s h

-- Why a request has no caller: it has no token, one that PyJWT accepts at no time, one that has
-- expired, or one of a user whom the database does not have.
pub data HasNoCaller (lib : Security) (now : ℕ) (db : Db) : Option String → Type 0 where
  missing : HasNoCaller lib now db none
  forged :
      (token : String)
      → ((at : ℕ) → lib.decode at token ≡ none)
      → HasNoCaller lib now db (some token)
  expired :
      (t i : ℕ)
      → t ≤ now
      → HasNoCaller lib now db (some (lib.encode (record { sub = some (uuid i); exp = some t })))
  unknown :
      (t i : ℕ)
      → now < t
      → ((u : User) → IsOneOf u db.users → u.id ≢ i)
      → HasNoCaller lib now db (some (lib.encode (record { sub = some (uuid i); exp = some t })))

find_nobody :
    (i : ℕ) (l : List User)
    → ((u : User) → IsOneOf u l → u.id ≢ i)
    → find? (λ (u : User). u.id == i) l ≡ none
find_nobody i [] h = refl
find_nobody i (u ∷ l) h = elim (Bool-cases (u.id == i)) [
  | inl same ↦ absurd (h u (inl refl) (ground (arith, same)))
  | inr other ↦ rw other (find_nobody i l (λ v mem. h v (inr mem)))
]

no_caller :
    (lib : Security) (now : ℕ) (db : Db) (bearer : Option String)
    → IsSecure lib
    → HasNoCaller lib now db bearer
    → get_current_user lib now bearer db ≡ raise unauthorized
unfolding get_current_user get_by_id
no_caller lib now db bearer sec missing = refl
no_caller lib now db bearer sec (forged token never) = rw (never now) refl
no_caller lib now db bearer sec (expired t i late) =
    let over : ltb now t ≡ false = ground (arith, late) in rw (sec.expires now t i over) refl
no_caller lib now db bearer sec (unknown t i early nobody) =
    rw (sec.decodes now t i early, find_nobody i db.users nobody) refl

-- Where PyJWT does what it documents: a call of a protected endpoint with no token, with one that
-- PyJWT accepts at no time, with one that has expired, or with one of a user who is not there, is
-- answered with 401 UNAUTHORIZED, and changes nothing: the database, the tokens, the cache, the
-- circuit breaker and the rail stay as they are.
pub protected_call_refused :
    (c : Setting) (d : Draws) (bearer : Option String) (call : Call) (s : Server)
    → IsSecure c.security
    → IsProtected call
    → HasNoCaller c.security d.now s.world.db bearer
    → handle c d bearer call s ≡ (fails 401 "UNAUTHORIZED", s)
protected_call_refused c d bearer call s sec p h =
    refused_call c d bearer call s {e = unauthorized} p
      (no_caller c.security d.now s.world.db bearer sec h)
