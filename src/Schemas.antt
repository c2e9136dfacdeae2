-- ===== src/Schemas.antt =====
-- The responses of app/schemas, and what the services keep in Redis under an idempotency key.
-- Redis is a map from keys to values; an entry that expires or is evicted is one that is not there.
use miniwallet.Base.{ℕ, String, Option, none, some, List, [], ◌∷◌, str_eq, if◌then◌else◌}
use miniwallet.Base.Int.{ℤ}
use miniwallet.Models.{TransferStatus, DepositStatus, WithdrawalStatus}
use miniwallet.Db.{Db}

pub record TransferResponse : Type 0 where
  pub transfer_id : ℕ
  pub from_account_id : ℕ
  pub to_account_id : ℕ
  pub amount : ℤ
  pub status : TransferStatus
  pub failure_code : Option String
  pub created_at : ℕ

pub record DepositResponse : Type 0 where
  pub deposit_id : ℕ
  pub account_id : ℕ
  pub amount : ℤ
  pub currency : String
  pub status : DepositStatus
  pub source_type : String
  pub external_reference : String
  pub rejection_reason : Option String
  pub created_at : ℕ
  pub completed_at : Option ℕ

pub record WithdrawalResponse : Type 0 where
  pub withdrawal_id : ℕ
  pub account_id : ℕ
  pub amount : ℤ
  pub currency : String
  pub status : WithdrawalStatus
  pub destination_type : String
  pub failure_code : Option String
  pub external_reference : Option String
  pub created_at : ℕ
  pub submitted_at : Option ℕ
  pub completed_at : Option ℕ

-- The JSON text under "response": a transfer's or a withdrawal's.
pub data CachedResponse : Type 0 where
  transfer_response : TransferResponse → CachedResponse
  withdrawal_response : WithdrawalResponse → CachedResponse

pub record Cached : Type 0 where
  pub request_hash : String
  pub response : CachedResponse

abbrev pub Cache : Type 0
Cache = List (String × Cached)

-- `redis.get(key)`
unfoldable pub cache_get : String → Cache → Option Cached
cache_get k [] = none
cache_get k ((j, v) ∷ c) = let rest = cache_get k c in if str_eq j k then some v else rest

-- `redis.setex(key, ttl, value)`, and `redis.set(key, value, ex=ttl)`
unfoldable pub cache_set : String → Cached → Cache → Cache
cache_set k v c = (k, v) ∷ c

-- The text that a service hashes, kept as its parts: the transfer service writes the amount with
-- four decimals, the withdrawal service writes `str(amount)`, which depends on how it was given.
pub data HashInput : Type 0 where
  transfer_input : (from_account_id to_account_id : ℕ) (amount : ℤ) → HashInput
  withdrawal_input :
      (account_id : ℕ) (amount_text currency destination_type details : String) → HashInput

pub record Session : Type 0 where
  pub db : Db
  pub cache : Cache
