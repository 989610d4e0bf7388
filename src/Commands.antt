-- ===== src/Commands.antt =====
-- src/commands/Register.ts and src/commands/findWealthyAccount.ts. The client of the relay server,
-- the node, the hub and the wallets of ethers answer by the number of the call, `none` for a
-- rejection; the clock is in milliseconds. Units of ether are applied before, and log messages are
-- left out.
pub mod Waiting
pub mod Blocks
pub mod Paying
pub mod Execute
pub mod Executing
pub mod Signing
pub mod Start
pub mod Restart
use rif_relay_server.Base.{
  ℕ, zero, suc, ◌+◌, ◌-◌, ◌*◌, Bool, true, false, not, ◌&&◌, Option, none, some, List, [], ◌∷◌,
  ◌++◌, Text, eq_text, ltb, leb, ◌==◌, if◌then◌else◌,
}
use rif_relay_server.Base.Int.{ℤ, sub_ℕ}
use rif_relay_server.Outcome.{
  Outcome, ok, err, Action, ◌>>=◌, ◌>>◌, pure, throw, or_throw, provider_failed, already_registered,
  wrong_chain, already_owned, funding_failed, relay_not_ready, no_wealthy_account, not_regtest,
  invalid_wallet,
}
use rif_relay_server.TxStore.{is_same_address}

pub record ChainInfo : Type 0 where
  pub ready : Bool
  pub chain_id : Option ℕ
  pub relay_manager_address : Text

pub record StakeInfo : Type 0 where
  pub stake : ℕ
  pub unstake_delay : ℕ
  pub owner : Text

-- `delay` is how long the n-th request of the client takes, and `overrun` how much longer than the
-- time given the n-th sleep takes.
pub record RegisterNode : Type 0 where
  pub get_chain_info : ℕ → Option ChainInfo
  pub delay : ℕ → ℕ
  pub overrun : ℕ → ℕ
  pub network : ℕ → Option ℕ
  pub stake_info : ℕ → Text → Option StakeInfo
  pub signer_address : ℕ → Option Text
  pub stake_for_address : ℕ → Text → ℕ → ℤ → Option Text
  pub balance : ℕ → Text → Option ℕ
  pub send_funds : ℕ → Text → ℕ → Option (Option Text)
  pub get_address : Text → Option Text
  pub address_zero : Text

pub record RegisterOptions : Type 0 where
  pub stake : ℕ
  pub funds : ℕ
  pub unstake_delay : ℕ

-- What was sent: a stake for the relay manager, or funds.
pub data Payment : Type 0 where
  staked : Text → ℕ → ℤ → Payment
  funded : Text → ℕ → Payment

pub record Setup : Type 0 where
  pub now : ℕ
  pub calls : ℕ
  pub paid : List Payment

abbrev pub ask : {A : Type 0} → (ℕ → Option A) → Action Setup A
ask f s = or_throw (f s.calls) provider_failed (record s { calls = s.calls + 1 })

abbrev pub pay : Payment → Action Setup (Unit {0})
pay p s = (ok tt, record s { paid = s.paid ++ p ∷ [] })

abbrev pub is_ready_info : Option ChainInfo → Bool
is_ready_info none = false
is_ready_info (some info) = info.ready

module _ (node : RegisterNode) where
  -- The state after a request of the client, and after a sleep of 3 seconds.
  abbrev pub requested : Setup → Setup
  requested s = record s { now = s.now + node.delay s.calls; calls = s.calls + 1 }

  abbrev pub slept : Setup → Setup
  slept s = record s { now = s.now + 3000 + node.overrun s.calls }

  -- The loop of `waitForRelay`, on fuel: `ok none` if that runs out.
  unfoldable pub wait_until : ℕ → ℕ → Setup → Outcome (Option (Unit {0})) × Setup
  wait_until zero end_time s = (ok none, s)
  wait_until (suc fuel) end_time s =
      let later = wait_until fuel end_time (slept (requested s)) in
      if ltb s.now end_time
      then (if is_ready_info (node.get_chain_info s.calls)
          then (ok (some tt), requested s)
          else later)
      else (err relay_not_ready, s)

  -- Each round takes 3 seconds at least, and so one for each second of the timeout is enough.
  unfoldable pub wait_for_relay : ℕ → Action Setup (Option (Unit {0}))
  wait_for_relay timeout s = wait_until (suc timeout) (s.now + timeout * 1000) s

  abbrev pub same_address : Text → Text → Action Setup Bool
  same_address a b s = (is_same_address node.get_address a b, s)

  -- `owner !== constants.AddressZero && !isSameAddress(owner, from)`.
  unfoldable pub check_owner : Text → Text → Action Setup (Unit {0})
  check_owner owner from =
      if eq_text owner node.address_zero
      then pure tt
      else (do same ← same_address owner from; if same then pure tt else throw already_owned)

  unfoldable pub stake_if_needed : RegisterOptions → Text → StakeInfo → Action Setup (Unit {0})
  stake_if_needed options relay_address info =
      if leb options.unstake_delay info.unstake_delay && leb options.stake info.stake
      then pure tt
      else (do
        ask (λ n.
            node.stake_for_address n relay_address options.unstake_delay
              (sub_ℕ options.stake info.stake))
        pay (staked relay_address options.unstake_delay (sub_ℕ options.stake info.stake)))

  abbrev pub has_hash : Option Text → Action Setup (Unit {0})
  has_hash none = throw funding_failed
  has_hash (some hash) = pure tt

  unfoldable pub fund_if_needed : RegisterOptions → Text → ℕ → Action Setup (Unit {0})
  fund_if_needed options relay_address balance = if ltb options.funds balance then pure tt else (do
    hash ← ask (λ n. node.send_funds n relay_address options.funds)
    pay (funded relay_address options.funds)
    has_hash hash)

  abbrev pub request_info : Action Setup ChainInfo
  request_info s = or_throw (node.get_chain_info s.calls) provider_failed (requested s)

  abbrev pub eq_chain : Option ℕ → ℕ → Bool
  eq_chain none chain_id = false
  eq_chain (some id) chain_id = id == chain_id

  unfoldable pub register : RegisterOptions → Action Setup (Option (Unit {0}))
  register options = do
    response ← request_info
    if response.ready then throw already_registered else pure tt
    chain_id ← ask node.network
    if eq_chain response.chain_id chain_id then pure tt else throw wrong_chain
    info ← ask (λ n. node.stake_info n response.relay_manager_address)
    from ← ask node.signer_address
    check_owner info.owner from
    stake_if_needed options response.relay_manager_address info
    same_address info.owner from
    balance ← ask (λ n. node.balance n response.relay_manager_address)
    fund_if_needed options response.relay_manager_address balance
    wait_for_relay 60

-- What `findWealthyAccount` asks of the node: its accounts by their index.
pub record Accounts : Type 0 where
  pub chain : ℕ → Option ℕ
  pub list_accounts : ℕ → Option (List Text)
  pub balance_at : ℕ → ℕ → Option ℕ
  pub address_at : ℕ → ℕ → Option Text

module _ (accounts : Accounts) where
  unfoldable pub first_funded : ℕ → ℕ → List Text → Action Setup (Option ℕ)
  first_funded required index [] = pure none
  first_funded required index (a ∷ rest) = do
    let later = first_funded required (index + 1) rest
    balance ← ask (λ n. accounts.balance_at n index)
    if leb required balance
        then (ask (λ n. accounts.address_at n index) >> pure (some index))
        else later

  abbrev pub or_no_account : Outcome (Option ℕ) × Setup → Outcome ℕ × Setup
  or_no_account (ok (some index), s) = (ok index, s)
  or_no_account (ok none, s) = (err no_wealthy_account, s)
  or_no_account (err e, s) = (err no_wealthy_account, s)

  -- The result is the index of the account.
  unfoldable pub find_wealthy_account : ℕ → Action Setup ℕ
  find_wealthy_account required = do
    chain_id ← ask accounts.chain
    if chain_id == 33 then pure tt else throw not_regtest
    λ s. or_no_account ((ask accounts.list_accounts >>= first_funded required 0) s)

  -- `value && new Wallet(value)`: an empty text makes no wallet, and an invalid one throws.
  abbrev pub wallet_of : (Text → Option Text) → Option Text → Outcome (Option Text)
  wallet_of make none = ok none
  wallet_of make (some []) = ok none
  wallet_of make (some (x ∷ xs)) = elim (make (x ∷ xs)) [
    | none ↦ err invalid_wallet
    | some wallet ↦ ok (some wallet)
  ]
