-- ===== src/Models.antt =====
-- The rows of app/models. A UUID is the number that it stands for, a timestamp a number of seconds,
-- and an amount an integer of ten-thousandths: the columns are NUMERIC(19, 4).
use miniwallet.Base.{ℕ, String, Option}
use miniwallet.Base.Int.{ℤ}

pub data Direction : Type 0 where
  debit credit : Direction

pub data TransferStatus : Type 0 where
  completed failed : TransferStatus

pub data DepositStatus : Type 0 where
  pending completed rejected : DepositStatus

pub data WithdrawalStatus : Type 0 where
  pending submitted completed failed : WithdrawalStatus

pub data OutboxStatus : Type 0 where
  pending publishing published failed : OutboxStatus

pub record User : Type 0 where
  pub id : ℕ
  pub email : String
  pub hashed_password : String
  pub created_at : ℕ
  pub updated_at : ℕ

pub record Account : Type 0 where
  pub id : ℕ
  pub user_id : Option ℕ
  pub status : String
  pub created_at : ℕ
  pub updated_at : ℕ

pub record LedgerEntry : Type 0 where
  pub id : ℕ
  pub transaction_id : ℕ
  pub account_id : ℕ
  pub direction : Direction
  pub amount : ℤ
  pub currency : String
  pub entry_type : String
  pub reference_id : Option ℕ
  pub idempotency_key : Option String
  pub created_at : ℕ

pub record Transfer : Type 0 where
  pub id : ℕ
  pub from_account_id : ℕ
  pub to_account_id : ℕ
  pub amount : ℤ
  pub currency : String
  pub status : TransferStatus
  pub failure_code : Option String
  pub idempotency_key : String
  pub created_at : ℕ
  pub updated_at : Option ℕ

pub record Deposit : Type 0 where
  pub id : ℕ
  pub account_id : ℕ
  pub amount : ℤ
  pub currency : String
  pub status : DepositStatus
  pub source_type : String
  pub external_reference : String
  pub rejection_reason : Option String
  pub created_at : ℕ
  pub completed_at : Option ℕ
  pub updated_at : ℕ

pub record Withdrawal : Type 0 where
  pub id : ℕ
  pub account_id : ℕ
  pub amount : ℤ
  pub currency : String
  pub status : WithdrawalStatus
  pub failure_code : Option String
  pub destination_type : String
  pub destination_details : String
  pub external_reference : Option String
  pub idempotency_key : String
  pub created_at : ℕ
  pub submitted_at : Option ℕ
  pub completed_at : Option ℕ
  pub updated_at : ℕ
