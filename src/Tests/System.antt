-- ===== src/Tests/System.antt =====
-- A run of the service, and one of the application, on the migrated database.
use miniwallet.Base.{
  inl, String, ℕ, ◌≡◌, ◌≢◌, refl, Bool, true, false, Option, none, some, str_eq, List, [], ◌∷◌,
  arith,
}
use miniwallet.Base.Int.{pos, ◌≤ℤ◌}
use miniwallet.Models.{User}
use miniwallet.Db.{
  has_account, insert_account, insert_ledger_entry, publish_event, Db, insert_user,
  system_account_id,
}
use miniwallet.Ledger.{get_balance}
use miniwallet.Ledger.Sums.{IsSound}
use miniwallet.Schemas.{Session}
use miniwallet.Owners.Lookups.{Reach-lookups}
use miniwallet.Accounts.{
  account_row, write_seed, find_account, open_account, seed, find_account_by_user,
}
use miniwallet.Activity.Replay.{shown}
use miniwallet.System.{
  initial, Reach, starts, steps, registers, opens, seeds, Reach-IsSound, Reach-Mirrors,
}
use miniwallet.Circuit.{default_config}
use miniwallet.Rail.{Draw}
use miniwallet.Api.{fails, Texts}
use miniwallet.Api.Bodies.{TransferRequest}
use miniwallet.Api.Transfers.{create_transfer}
use miniwallet.Api.Ownership.{transfer_spends_own}
use miniwallet.App.{
  Setting, Draws, Server, post_register, post_account, post_simulate_deposit, post_withdrawal,
  post_transfer, handle,
}
use miniwallet.App.Guards.{expired, protected_call_refused}
use miniwallet.Events.{uuid}
use miniwallet.Auth.{get_by_email}
use miniwallet.App.Laws.{Happening, calls, sweeps, serve, serve-IsSound}
use miniwallet.Recovery.{Draws as RecoveryDraws}
use miniwallet.Tests.Sessions.{security, security-IsSecure}
use miniwallet.Tests.Data.{env_at, digest, funded_db, account}

abbrev pub new_user : User
new_user = record { id = 7; email = "u"; hashed_password = ""; created_at = 0; updated_at = 0 }

abbrev pub seeded_db : Db
seeded_db =
    (seed (env_at 2) 100 (pos 500) "k" 7
      (open_account (env_at 1) 7 (record initial { users = new_user ∷ [] })).1).1

pub seeded_db-reached : Reach digest seeded_db
unfolding insert_user
seeded_db-reached =
    steps (steps (steps starts (registers new_user refl)) (opens (env_at 1) 7))
      (seeds (env_at 2) 100 (pos 500) "k" 7)

Reach-IsSound_example : IsSound seeded_db.ledger_entries
Reach-IsSound_example = Reach-IsSound digest seeded_db-reached

Reach-Mirrors_example : shown seeded_db 100 ≡ get_balance seeded_db 100
Reach-Mirrors_example = Reach-Mirrors digest seeded_db-reached 100 not_the_system
  where
    not_the_system : 100 ≢ system_account_id
    not_the_system h = ground (arith, h)

abbrev parsed_uuid : Bool → Option ℕ
parsed_uuid true = some 2
parsed_uuid false = none

-- Every amount is five, and one text is a UUID.
abbrev texts : Texts
texts = record {
  parse_uuid = λ v. parsed_uuid (str_eq v "2");
  parse_decimal = λ v. some (pos 50000);
  normal = λ v. v;
}

abbrev setting : Setting
setting = record { sha256 = digest; security = security; texts = texts; app_env = "development" }

abbrev rail_draw : Draw
rail_draw = record { fails = true; choice = 2; reference = "" }

abbrev call_draws : Draws
call_draws = record {
  now = 1000;
  env = env_at 1;
  saga = record {
    tx1 = env_at 1;
    submitted_at = 1001;
    call_at = 1002;
    returned_at = 1003;
    rail = rail_draw;
    tx3 = env_at 2;
  };
  tokens = record { now = 1000; token = "t" };
}

abbrev sweep_draws : RecoveryDraws
sweep_draws = record {
  checked_at = 2000;
  submitted_at = 2001;
  call_at = 2002;
  returned_at = 2003;
  rail = rail_draw;
  tx = env_at 3;
}

abbrev server : Server
server = record {
  world = record {
    db = initial;
    cache = [];
    circuit = record {
      state = none;
      failure_count = 0;
      last_failure_at = none;
      probe_active = none;
    };
    rail = record { forced_next = [] };
  };
  tokens = [];
  activity = [];
}

abbrev draws_at : ℕ → Draws
draws_at n = record call_draws { env = env_at n }

-- The user whom the first call below registers.
abbrev new_token : Option String
new_token = some (security.encode (record { sub = some (uuid 100); exp = some 5000 }))

-- The account that the second call opens.
abbrev own_texts : Texts
own_texts = record {
  parse_uuid = λ v. some 200;
  parse_decimal = λ v. some (pos 50000);
  normal = λ v. v;
}

abbrev own_setting : Setting
own_setting = record setting { texts = own_texts }

-- A registration, an account, a deposit of five dollars, a withdrawal of them that the rail refuses,
-- and a sweep.
abbrev happenings : List Happening
happenings =
    calls (draws_at 1) none
      (post_register (record { email = "a@b.c"; password = "a good password" }))
    ∷ calls (draws_at 2) new_token post_account
    ∷ calls (draws_at 3) none (
        post_simulate_deposit (record {
          account_id = "200";
          amount = "5.00";
          currency = "USD";
          source_type = "bank_transfer";
          external_reference = "r";
        }))
    ∷ calls (draws_at 4) new_token (
        post_withdrawal
          (record {
            amount = "5.00";
            currency = "USD";
            destination_type = "bank_transfer";
            destination_details = "{}";
          })
          (some "k"))
    ∷ sweeps default_config (λ i. false) 2000 (λ i. sweep_draws)
    ∷ []

abbrev served : Server
served = serve own_setting happenings server

serve-IsSound_example :
    IsSound served.world.db.ledger_entries
    × ((a : ℕ) → a ≢ system_account_id → shown served.world.db a ≡ get_balance served.world.db a)
serve-IsSound_example = serve-IsSound own_setting happenings server refl

abbrev user_one : User
user_one = record { id = 1; email = "v"; hashed_password = ""; created_at = 0; updated_at = 0 }

abbrev session : Session
session = record { db = funded_db; cache = [] }

-- Five from the first account to the second.
abbrev body : TransferRequest
body = record { to_email = none; to_account_id = some "2"; amount = "5.00" }

transfer_spends_own_example :
    get_balance funded_db 2
    ≤ℤ get_balance (create_transfer digest texts (env_at 1) body "k" user_one session).1.db 2
unfolding find_account_by_user
transfer_spends_own_example =
    transfer_spends_own digest texts (env_at 1) body "k" user_one session 2 {b = account 1} refl
      not_the_sender
  where
    not_the_sender : ◌≢◌ {A = ℕ} 1 2
    not_the_sender h = ground (arith, h)

-- A token of the first user that has expired before the call.
abbrev old_token : Option String
old_token = some (security.encode (record { sub = some (uuid 1); exp = some 500 }))

protected_call_refused_example :
    handle setting call_draws old_token (post_transfer body (some "k")) server
    ≡ (fails 401 "UNAUTHORIZED", server)
protected_call_refused_example =
    protected_call_refused setting call_draws old_token (post_transfer body (some "k")) server
      security-IsSecure tt (expired 500 1 (ground arith))

Reach-lookups_example :
    (get_by_email "u" seeded_db ≡ some new_user)
    × (find_account_by_user 7 seeded_db ≡ some (account_row (env_at 1) 7))
unfolding has_account open_account insert_account seed write_seed find_account insert_ledger_entry
    publish_event
Reach-lookups_example =
    Reach-lookups digest new_user (account_row (env_at 1) 7) 7 seeded_db-reached (inl refl)
      (inl refl) refl
