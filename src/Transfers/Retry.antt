-- ===== src/Transfers/Retry.antt =====
-- Idempotency of `transfer`: what a second call with the same key does, whether Redis still has the
-- response or only the database remembers the key.
use miniwallet.Base.{
  ℕ, ◌≡◌, ◌≢◌, Option, none, some, List, true, false, String, if◌then◌else◌, ◌==◌, str_eq_refl,
  str_eq_iff, arith, Option-cases, inl, inr,
}
use miniwallet.Base.Int.{ℤ, pos, ◌+ℤ◌, ◌-ℤ◌, ◌≤ℤ◌}
use miniwallet.Errors.{
  Result, ok, raise, insufficient_balance, idempotency_conflict, idempotency_key_consumed,
  integrity_error, transfers_idempotency_key,
}
use miniwallet.Models.{TransferStatus, LedgerEntry, Transfer}
use miniwallet.Db.{
  Db, Env, has_account, insert_transfer, insert_ledger_entry, find_transfer_by_key, publish_event,
  is_none,
}
use miniwallet.Ledger.{get_balance}
use miniwallet.Schemas.{HashInput, TransferResponse, Session, Cache, Cached, cache_get, cache_set}
use miniwallet.Transfers.{
  Request, lock_order, lock_accounts, write_failed, write_completed, attempt, transfer, cache_key,
  transfer_row, transfer_to_response, existing_transfer, request_hash,
}

-- What must hold for a transfer to go through.
pub record CanTransfer (r : Request) (db : Db) : Type 0 where
  pub positive : pos 1 ≤ℤ r.amount
  pub different : r.from_account_id ≢ r.to_account_id
  pub sender : has_account r.from_account_id db ≡ true
  pub receiver : has_account r.to_account_id db ≡ true

lock_accounts-true :
    (r : Request) (db : Db)
    → CanTransfer r db
    → lock_accounts (lock_order r.from_account_id r.to_account_id) db ≡ true
unfolding lock_order lock_accounts
lock_accounts-true r db c = ground (arith, c.sender, c.receiver)

-- The sender loses the amount, the receiver gains it, and every other balance stays.
abbrev pub shifted : Request → Db → ℕ → ℤ
shifted r db a =
    if a == r.from_account_id
    then get_balance db a -ℤ r.amount
    else if a == r.to_account_id
    then get_balance db a +ℤ r.amount
    else get_balance db a

-- With a new key, both accounts known and different, and a positive amount that the sender has, a
-- transfer succeeds; the sender then has the amount less, the receiver has it more, and every other
-- balance is unchanged.
pub transfer_moves_funds :
    (sha256 : HashInput → String) (env : Env) (r : Request) (s : Session)
    → cache_get (cache_key sha256 r) s.cache ≡ none
    → find_transfer_by_key r.idempotency_key s.db ≡ none
    → CanTransfer r s.db
    → r.amount ≤ℤ get_balance s.db r.from_account_id
    → let (res, s') = transfer sha256 env r s in
      (res ≡ ok (transfer_to_response (transfer_row env r TransferStatus.completed none)))
      × ((a : ℕ) → get_balance s'.db a ≡ shifted r s.db a)
unfolding transfer attempt write_completed insert_transfer insert_ledger_entry publish_event
    has_account get_balance
transfer_moves_funds sha256 env r s miss new c funds =
    (ground (arith, lock_accounts-true r s.db c), λ a. ground (arith, lock_accounts-true r s.db c))

-- The same request again, with Redis still holding the response: the same answer, nothing changed.
pub transfer_cached :
    (sha256 : HashInput → String) (env env' : Env) (r : Request) (s : Session)
    {t : TransferResponse}
    → (transfer sha256 env r s).0 ≡ ok t
    → let s' = (transfer sha256 env r s).1 in transfer sha256 env' r s' ≡ (ok t, s')
unfolding transfer cache_get cache_set
transfer_cached sha256 env env' r s h =
    ground (arith, str_eq_refl (cache_key sha256 r), str_eq_refl (request_hash sha256 r))

abbrev respond_with : Result Transfer → Result TransferResponse
respond_with (ok t) = ok (transfer_to_response t)
respond_with (raise e) = raise e

-- What the database answers to a request whose key it has.
abbrev answer : (HashInput → String) → Request → Db → Result TransferResponse
answer sha256 r db = respond_with (
    existing_transfer sha256 r (integrity_error transfers_idempotency_key)
      (find_transfer_by_key r.idempotency_key db))

-- Once a request has gone as far as the table of transfers, the database answers it.
record IsSettled (sha256 : HashInput → String) (r : Request) (db : Db) (t : Result TransferResponse)
    : Type 0 where
  pub possible : CanTransfer r db
  pub taken : is_none (find_transfer_by_key r.idempotency_key db) ≡ false
  pub answered : answer sha256 r db ≡ t

-- A request that the database has answered before is answered so again, and nothing changes.
transfer-IsSettled :
    (sha256 : HashInput → String) (env : Env) (r : Request) (s : Session)
    {t : Result TransferResponse}
    → cache_get (cache_key sha256 r) s.cache ≡ none
    → IsSettled sha256 r s.db t
    → let (res, s') = transfer sha256 env r s in (res ≡ t) × (s'.db ≡ s.db)
unfolding transfer attempt write_completed write_failed insert_transfer
transfer-IsSettled sha256 env r s miss i = ground (arith, lock_accounts-true r s.db i.possible)

lock_accounts-has :
    (a b : ℕ) (db : Db)
    → lock_accounts (lock_order a b) db ≡ true
    → (has_account a db ≡ true) × (has_account b db ≡ true)
unfolding lock_order lock_accounts
lock_accounts-has a b db h = ground arith

ok-IsSettled :
    (sha256 : HashInput → String) (env : Env) (r : Request) (s : Session) {t : TransferResponse}
    → cache_get (cache_key sha256 r) s.cache ≡ none
    → (transfer sha256 env r s).0 ≡ ok t
    → IsSettled sha256 r (transfer sha256 env r s).1.db (ok t)
unfolding transfer attempt write_completed write_failed insert_transfer insert_ledger_entry
    publish_event has_account find_transfer_by_key existing_transfer
ok-IsSettled sha256 env r s miss h = ground (
  arith,
  lock_accounts-has r.from_account_id r.to_account_id s.db,
  str_eq_refl (request_hash sha256 r),
  str_eq_refl r.idempotency_key,
)

refused-IsSettled :
    (sha256 : HashInput → String) (env : Env) (r : Request) (s : Session)
    → cache_get (cache_key sha256 r) s.cache ≡ none
    → (transfer sha256 env r s).0 ≡ raise insufficient_balance
    → IsSettled sha256 r (transfer sha256 env r s).1.db (raise idempotency_key_consumed)
unfolding transfer attempt write_completed write_failed insert_transfer insert_ledger_entry
    publish_event has_account find_transfer_by_key existing_transfer
refused-IsSettled sha256 env r s miss h = ground (
  arith,
  lock_accounts-has r.from_account_id r.to_account_id s.db,
  str_eq_refl (request_hash sha256 r),
  str_eq_refl r.idempotency_key,
)

-- No answer rests on the ledger.
IsSettled-ledger :
    (sha256 : HashInput → String) (r : Request) (db : Db) (l : List LedgerEntry)
    {t : Result TransferResponse}
    → IsSettled sha256 r db t
    → IsSettled sha256 r (record db { ledger_entries = l }) t
unfolding has_account find_transfer_by_key
IsSettled-ledger sha256 r db l i = record {
  possible = record {
    positive = i.possible.positive;
    different = i.possible.different;
    sender = i.possible.sender;
    receiver = i.possible.receiver;
  };
  taken = i.taken;
  answered = i.answered;
}

module _ (sha256 : HashInput → String) (env env' : Env) (r : Request) (s : Session) (c : Cache)
    (l : List LedgerEntry) (miss : cache_get (cache_key sha256 r) s.cache ≡ none)
    (lost : cache_get (cache_key sha256 r) c ≡ none) where
  -- The session at the second call: Redis is `c`, and the ledger has gone on to `l`.
  abbrev later : Session
  later = record { db = record (transfer sha256 env r s).1.db { ledger_entries = l }; cache = c }

  -- A transfer that succeeded, and whose key Redis has lost since: the database refuses a second row,
  -- and the same request again has the same response and changes nothing in the database, whatever
  -- the ledger holds by then.
  pub transfer_exactly_once :
      {t : TransferResponse}
      → (transfer sha256 env r s).0 ≡ ok t
      → ((transfer sha256 env' r later).0 ≡ ok t) × ((transfer sha256 env' r later).1.db ≡ later.db)
  transfer_exactly_once h = transfer-IsSettled sha256 env' r later lost (
      IsSettled-ledger sha256 r (transfer sha256 env r s).1.db l
        (ok-IsSettled sha256 env r s miss h))

  -- A transfer that was refused for its balance consumes its key: while Redis does not have the key,
  -- the same request is refused with IdempotencyKeyConsumedError and changes nothing in the database, whatever balance the ledger gives the sender by then.
  pub transfer_key_consumed :
      (transfer sha256 env r s).0 ≡ raise insufficient_balance
      → ((transfer sha256 env' r later).0 ≡ raise idempotency_key_consumed)
        × ((transfer sha256 env' r later).1.db ≡ later.db)
  transfer_key_consumed h = transfer-IsSettled sha256 env' r later lost (
      IsSettled-ledger sha256 r (transfer sha256 env r s).1.db l
        (refused-IsSettled sha256 env r s miss h))

abbrev hash_of : Option Cached → Option String
hash_of none = none
hash_of (some c) = some c.request_hash

-- A response that was returned is in Redis, under the hash of its request.
cached_after :
    (sha256 : HashInput → String) (env : Env) (r : Request) (s : Session) {t : TransferResponse}
    → (transfer sha256 env r s).0 ≡ ok t
    → hash_of (cache_get (cache_key sha256 r) (transfer sha256 env r s).1.cache)
      ≡ some (request_hash sha256 r)
unfolding transfer cache_get cache_set
cached_after sha256 env r s h = elim (Option-cases (cache_get (cache_key sha256 r) s.cache)) [
  | inl miss ↦ ground (arith, str_eq_refl (cache_key sha256 r))
  | inr (c, hit) ↦ ground (arith, str_eq_iff c.request_hash (request_hash sha256 r))
]

cached_conflict :
    (sha256 : HashInput → String) (env : Env) (r : Request) (s : Session) {h : String}
    → hash_of (cache_get (cache_key sha256 r) s.cache) ≡ some h
    → h ≢ request_hash sha256 r
    → transfer sha256 env r s ≡ (raise idempotency_conflict, s)
unfolding transfer
cached_conflict sha256 env r s {h} hit ne = ground (arith, str_eq_iff h (request_hash sha256 r))

-- After a response under a key, a request of another hash under the same key is refused with
-- IdempotencyConflictError, and changes nothing.
transfer_conflict :
    (sha256 : HashInput → String) (env env' : Env) (r r' : Request) (s : Session)
    {t : TransferResponse}
    → r'.idempotency_key ≡ r.idempotency_key
    → request_hash sha256 r ≢ request_hash sha256 r'
    → (transfer sha256 env r s).0 ≡ ok t
    → let s' = (transfer sha256 env r s).1 in
      transfer sha256 env' r' s' ≡ (raise idempotency_conflict, s')
transfer_conflict sha256 env env' r r' s same other h =
    cached_conflict sha256 env' r' (transfer sha256 env r s).1
      (rw same (cached_after sha256 env r s h)) other
