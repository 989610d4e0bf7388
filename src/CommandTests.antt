-- ===== src/CommandTests.antt =====
-- Tests and instances of the theorems about the commands.
use rif_relay_server.Base.{
  ℕ, ◌≡◌, ◌⊎◌, refl, true, false, Option, none, some, [], ◌∷◌, codes, ◌*◌, ◌^◌, ◌==◌, if◌then◌else◌,
}
use rif_relay_server.Base.Int.{pos}
use rif_relay_server.Outcome.{ok, ◌>>=◌}
use rif_relay_server.TxStore as Store
use rif_relay_server.Numbers.Fractions.{Fraction, fractions}
use rif_relay_server.Values.{Value, number}
use rif_relay_server.Configuration.{ServerConfigParams, get_server_config}
use rif_relay_server.Commands as Commands
use rif_relay_server.Commands.{
  ChainInfo, RegisterNode, RegisterOptions, Setup, Payment, staked, funded, Accounts, register,
}
use rif_relay_server.Commands.Paying.{IsPaid, register-IsPaid}
use rif_relay_server.Commands.Execute.{RegisterLibrary, account, retrieve_signer, execute_register}
use rif_relay_server.Commands.Executing.{IsExecuted, execute_register-IsExecuted}
use rif_relay_server.Commands.Signing.{IsWallet, IsBlank, IsAccount, retrieve_signer-IsAccount}
use rif_relay_server.ConfigTests.{sample_joi, sample_checks, sample_config}

-- Ready at the seventh call of the client.
abbrev chain_info : ℕ → ChainInfo
chain_info n = record {
  ready = if n == 0 then false else true;
  chain_id = some 33;
  relay_manager_address = codes "0xaa";
}

abbrev registering : RegisterNode
registering = record {
  get_chain_info = λ n. some (chain_info n);
  delay = λ n. 100;
  overrun = λ n. 5;
  network = λ n. some 33;
  stake_info = λ n a. some (record { stake = 4; unstake_delay = 1000; owner = codes "0x0" });
  signer_address = λ n. some (codes "0xbb");
  stake_for_address = λ n a d v. some (codes "0x51");
  balance = λ n a. some 1;
  send_funds = λ n a v. some (some (codes "0x52"));
  get_address = λ a. some a;
  address_zero = codes "0x0";
}

abbrev options : RegisterOptions
options = record { stake = 10; funds = 20; unstake_delay = 1000 }

abbrev start_setup : Setup
start_setup = record { now = 0; calls = 0; paid = [] }

register-IsPaid_example :
    ((register registering options start_setup).1.paid ≡ start_setup.paid)
    ⊎ IsPaid registering options start_setup (register registering options start_setup).1
register-IsPaid_example = register-IsPaid registering options start_setup

-- What is missing of the stake, and the funds.
pays_both :
    (register registering options start_setup).1.paid
    ≡ staked (codes "0xaa") 1000 (pos 6) ∷ funded (codes "0xaa") 20 ∷ []
unfolding register ◌>>=◌ Commands.check_owner Commands.stake_if_needed Store.is_same_address
    Commands.fund_if_needed Commands.wait_for_relay Commands.wait_until
pays_both = refl

abbrev regtest : Accounts
regtest = record {
  chain = λ n. some 33;
  list_accounts = λ n. some (codes "0xc1" ∷ codes "0xc2" ∷ []);
  balance_at = λ n i. some (i * (3 * 10 ^ 18));
  address_at = λ n i. some (codes "0xc2");
}

abbrev amount_of : Option (Value Fraction) → Option ℕ
amount_of (some (number x)) = some x.num
amount_of v = none

abbrev sample_library : RegisterLibrary Fraction
sample_library = record {
  parse_ether = amount_of;
  big_number = amount_of;
  wallet_of_key = λ t. some t;
  wallet_of_mnemonic = λ t. none;
  node_for = λ hub url signer. registering;
  accounts = regtest;
}

abbrev after_signing : Setup
after_signing = (retrieve_signer sample_library none (some []) start_setup).1

-- The first account has nothing, the second enough.
signs : retrieve_signer sample_library none (some []) start_setup ≡ (ok (account 1), after_signing)
unfolding retrieve_signer ◌>>=◌ Commands.find_wealthy_account Commands.first_funded
signs = refl

retrieve_signer-IsAccount_example :
    IsWallet sample_library sample_library.wallet_of_key none (account 1)
    ⊎ ((IsBlank none
          × IsWallet sample_library sample_library.wallet_of_mnemonic (some []) (account 1))
        ⊎ (IsBlank none × IsBlank (some []) × IsAccount sample_library 0 (account 1)))
retrieve_signer-IsAccount_example =
    retrieve_signer-IsAccount sample_library none (some []) start_setup after_signing (account 1)
      signs

abbrev executed : Setup
executed =
    (execute_register sample_library fractions sample_joi sample_checks sample_config start_setup).1

execute_register-IsExecuted_example :
    (executed.paid ≡ start_setup.paid)
    ⊎ ((p : ServerConfigParams Fraction) × ((get_server_config fractions sample_joi sample_checks
            sample_config).0
          ≡ ok p)
        × IsExecuted sample_library p start_setup executed)
execute_register-IsExecuted_example =
    execute_register-IsExecuted sample_library fractions sample_joi sample_checks sample_config
      start_setup
