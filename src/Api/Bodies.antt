-- ===== src/Api/Bodies.antt =====
-- The requests of app/schemas with their field validators.
use miniwallet.Base.{
  ℕ, String, Option, none, some, List, [], ◌∷◌, any, ltb, char_count, str_eq, if◌then◌else◌,
}
use miniwallet.Base.Int.{ℤ, pos, ltb_ℤ}
use miniwallet.Api.{Validation, accepts, rejects, crashes, ◌and◌, Texts}

abbrev positive : Option ℤ → Validation
positive none = crashes
positive (some x) = if ltb_ℤ (pos 0) x then accepts else rejects

-- `validate_amount` of the transfer, seed, withdrawal and deposit requests: `Decimal(v)` raises
-- InvalidOperation, which is no ValueError. How many decimals there are is not checked; `texts` knows
-- those with at most four.
abbrev pub validate_amount : Texts → String → Validation
validate_amount texts v = positive (texts.parse_decimal v)

abbrev positive_or_rejected : Option ℤ → Validation
positive_or_rejected none = rejects
positive_or_rejected (some x) = if ltb_ℤ (pos 0) x then accepts else rejects

-- `amount_must_be_positive` of the scheduled payment, which catches InvalidOperation.
abbrev pub amount_must_be_positive : Texts → String → Validation
amount_must_be_positive texts v = positive_or_rejected (texts.parse_decimal v)

abbrev one_of : List String → String → Validation
one_of l v = if any (λ t. str_eq t v) l then accepts else rejects

abbrev pub validate_destination_type : String → Validation
validate_destination_type v = one_of ("bank_transfer" ∷ "card_withdrawal" ∷ []) v

abbrev pub validate_source_type : String → Validation
validate_source_type v = one_of ("bank_transfer" ∷ "card_topup" ∷ "direct_debit" ∷ []) v

abbrev pub frequency_must_be_valid : String → Validation
frequency_must_be_valid v = one_of ("daily" ∷ "weekly" ∷ "monthly" ∷ []) v

abbrev pub validate_password : String → Validation
validate_password v = if ltb (char_count v) 8 then rejects else accepts

-- A required header that is there.
abbrev pub required : Option String → Validation
required none = rejects
required (some v) = accepts

pub record TransferRequest : Type 0 where
  pub to_email : Option String
  pub to_account_id : Option String
  pub amount : String

pub record SeedRequest : Type 0 where
  pub account_id : String
  pub amount : String

pub record WithdrawalRequest : Type 0 where
  pub amount : String
  pub currency : String
  pub destination_type : String
  pub destination_details : String

pub record SimulateDepositRequest : Type 0 where
  pub account_id : String
  pub amount : String
  pub currency : String
  pub source_type : String
  pub external_reference : String

pub record ScheduledPaymentRequest : Type 0 where
  pub to_account_id : String
  pub amount : String
  pub frequency : String
  pub start_at : ℕ

pub record RegisterRequest : Type 0 where
  pub email : String
  pub password : String

unfoldable pub validate_withdrawal : Texts → WithdrawalRequest → Validation
validate_withdrawal texts body =
    validate_amount texts body.amount and validate_destination_type body.destination_type

unfoldable pub validate_deposit : Texts → SimulateDepositRequest → Validation
validate_deposit texts body =
    validate_amount texts body.amount and validate_source_type body.source_type

unfoldable pub validate_payment : Texts → ScheduledPaymentRequest → Validation
validate_payment texts body =
    amount_must_be_positive texts body.amount and frequency_must_be_valid body.frequency
