-- ===== src/Commands/Execute.antt =====
-- `retrieveSigner` and `executeRegister` of src/commands/Register.ts. What ethers makes of the
-- configured values, its wallets, and the node and the client at their addresses are parameters; the
-- price of gas is only read.
use rif_relay_server.Base.{ℕ, Option, none, some, [], ◌∷◌, Text, codes, ◌*◌, ◌^◌}
use rif_relay_server.Outcome.{Outcome, ok, err, Action, ◌>>=◌, ◌>>◌, pure, or_throw, invalid_number}
use rif_relay_server.Numbers.{Numbers}
use rif_relay_server.Values.{Value, text, at}
use rif_relay_server.Configuration.Schema.{Checks}
use rif_relay_server.Configuration.{Joi, Config, ServerConfigParams, get_server_config}
use rif_relay_server.Commands.{
  RegisterNode, Setup, Accounts, wallet_of, find_wealthy_account, register,
}

pub data Signer : Type 0 where
  wallet : Text → Signer
  account : ℕ → Signer

-- `parse_ether` and `big_number` are `utils.parseEther(x.toString())` and `BigNumber.from(x)`, and
-- `none` where they throw. `node_for` is the node at the hub, the relay's URL and the signer.
pub record RegisterLibrary (D : Type 0) : Type 0 where
  pub parse_ether : Option (Value D) → Option ℕ
  pub big_number : Option (Value D) → Option ℕ
  pub wallet_of_key : Text → Option Text
  pub wallet_of_mnemonic : Text → Option Text
  pub node_for : Text → Text → Signer → RegisterNode
  pub accounts : Accounts

-- `utils.parseUnits('2', 'ether')`.
abbrev pub two_ether : ℕ
two_ether = 2 * 10 ^ 18

abbrev pub text_of : {D : Type 0} → Option (Value D) → Option Text
text_of none = none
text_of (some (text t)) = some t
text_of (some v) = none

-- `a || b` on texts.
abbrev pub text_or : Option Text → Option Text → Text
text_or (some (x ∷ xs)) b = x ∷ xs
text_or (some []) (some t) = t
text_or (some []) none = []
text_or none (some t) = t
text_or none none = []

abbrev pub raise : {A : Type 0} → Outcome A → Action Setup A
raise r s = (r, s)

module _ {D : Type 0} (lib : RegisterLibrary D) where
  -- `walletFromPK || walletFromMnemonic || await findWealthyAccount(rpcProvider)`.
  abbrev pub first_signer : Option Text → Option Text → Action Setup Signer
  first_signer (some w) from_mnemonic = pure (wallet w)
  first_signer none (some w) = pure (wallet w)
  first_signer none none =
      find_wealthy_account lib.accounts two_ether >>= λ index. pure (account index)

  unfoldable pub retrieve_signer : Option Text → Option Text → Action Setup Signer
  retrieve_signer private_key mnemonic = do
    from_key ← raise (wallet_of lib.accounts lib.wallet_of_key private_key)
    from_mnemonic ← raise (wallet_of lib.accounts lib.wallet_of_mnemonic mnemonic)
    first_signer from_key from_mnemonic

  abbrev pub signer_of : ServerConfigParams D → Action Setup Signer
  signer_of p =
      retrieve_signer (text_of (at (codes "privateKey") p.register))
        (text_of (at (codes "mnemonic") p.register))

  abbrev pub hub_of : ServerConfigParams D → Text
  hub_of p =
      text_or (text_of (at (codes "relayHub") p.register))
        (text_of (at (codes "relayHubAddress") p.contracts))

  abbrev pub url_of : ServerConfigParams D → Text
  url_of p = text_or (text_of (at (codes "url") p.app)) none

  abbrev pub read_number : Option ℕ → Action Setup ℕ
  read_number n = or_throw n invalid_number

  unfoldable pub register_with : ServerConfigParams D → Action Setup (Option (Unit {0}))
  register_with p = do
    signer ← signer_of p
    stake ← read_number (lib.parse_ether (at (codes "stake") p.register))
    funds ← read_number (lib.parse_ether (at (codes "funds") p.register))
    unstake_delay ← read_number (lib.big_number (at (codes "unstakeDelay") p.register))
    read_number (lib.big_number (at (codes "gasPrice") p.register))
    register (lib.node_for (hub_of p) (url_of p) signer)
        (record { stake = stake; funds = funds; unstake_delay = unstake_delay })

  abbrev pub if_configured : Outcome (ServerConfigParams D) → Action Setup (Option (Unit {0}))
  if_configured (ok p) s = register_with p s
  if_configured (err e) s = (err e, s)

  unfoldable pub execute_register :
      (num : Numbers D) → Joi num → Checks D → Config D → Action Setup (Option (Unit {0}))
  execute_register num joi checks config = if_configured (get_server_config num joi checks config).0
