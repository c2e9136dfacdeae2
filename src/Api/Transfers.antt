-- ===== src/Api/Transfers.antt =====
-- app/routers/transfers.py
use miniwallet.Base.{String, Option, none, some, ◌==◌, str_eq, if◌then◌else◌}
use miniwallet.Errors.{
  Result, ok, raise, ◌>>=◌, ◌>>◌, user_not_found, same_account, recipient_required,
}
use miniwallet.Models.{User, Account}
use miniwallet.Db.{Db, Env}
use miniwallet.Schemas.{HashInput, Session, TransferResponse}
use miniwallet.Accounts.{find_account, find_account_by_user}
use miniwallet.Auth.{get_by_email}
use miniwallet.Transfers.{Request, transfer}
use miniwallet.Api.{Texts, uuid_of, decimal_of, or_account_not_found, caller_account}
use miniwallet.Api.Bodies.{TransferRequest}

-- A text that is there and not empty.
abbrev truthy : Option String → Option String
truthy none = none
truthy (some v) = if str_eq v "" then none else some v

abbrev account_of : Db → Option User → Result Account
account_of db none = raise user_not_found
account_of db (some u) = or_account_not_found (find_account_by_user u.id db)

abbrev by_id : Texts → Db → Option String → Result Account
by_id texts db none = raise recipient_required
by_id texts db (some v) = uuid_of texts v >>= λ i. or_account_not_found (find_account i db)

abbrev by_email : Texts → TransferRequest → Db → Option String → Result Account
by_email texts body db (some email) = account_of db (get_by_email email db)
by_email texts body db none = by_id texts db (truthy body.to_account_id)

-- The recipient: by email, else by account.
unfoldable pub recipient : Texts → TransferRequest → Db → Result Account
recipient texts body db = by_email texts body db (truthy body.to_email)

-- The arguments of the call of `transfer`.
unfoldable pub transfer_request : Texts → TransferRequest → String → User → Db → Result Request
transfer_request texts body key user db = do
  sender ← caller_account user db
  target ← recipient texts body db
  if sender.id == target.id then raise same_account else ok sender.id
  amount ← decimal_of texts body.amount
  ok (record {
    from_account_id = sender.id;
    to_account_id = target.id;
    amount = amount;
    idempotency_key = key;
    actor_user_id = some user.id;
  })

module _ (sha256 : HashInput → String) where
  abbrev pub transferred : Env → Session → Result Request → Result TransferResponse × Session
  transferred env s (raise e) = (raise e, s)
  transferred env s (ok r) = transfer sha256 env r s

  -- `create_transfer`
  unfoldable pub create_transfer :
      Texts → Env → TransferRequest → String → User → Session → Result TransferResponse × Session
  create_transfer texts env body key user s =
      transferred env s (transfer_request texts body key user s.db)

-- `get_transfer`
unfoldable pub get_transfer : Texts → String → User → Db → Result TransferResponse
get_transfer texts transfer_id user db = do
  account ← caller_account user db
  i ← uuid_of texts transfer_id
  miniwallet.Transfers.get_transfer db i account.id
