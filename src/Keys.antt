-- ===== src/Keys.antt =====
-- src/KeyManager.ts without its constructor: the keys of a manager, and signing. The wallets of ethers
-- are parameters: `derive_path` of the seed's node, `sign` of a wallet, and `keccak256`.
pub mod Addresses
pub mod Keystore
pub mod Restart
pub mod Signed
use rif_relay_server.Base.{ℕ, zero, suc, ◌+◌, Bool, Option, none, some, List, [], ◌∷◌, map, is_some}
use rif_relay_server.Base.{Text, eq_text, if◌then◌else◌}
use rif_relay_server.Outcome.{not_managed, signing_failed, Outcome, ok, err}
use rif_relay_server.Stored.{PopulatedTransaction}

pub record SignedTransactionDetails : Type 0 where
  pub tx_hash : Text
  pub signed_tx : Text

-- A `Record<string, string>` from addresses to private keys, in order of insertion.
abbrev pub Keys : Type 0
Keys = List (Text × Text)

abbrev pub key_for : Text → Keys → Option Text
key_for a [] = none
key_for a ((b, key) ∷ ks) = let rest = key_for a ks in if eq_text b a then some key else rest

abbrev pub assign_key : Text → Text → Keys → Keys
assign_key a key [] = (a, key) ∷ []
assign_key a key ((b, old) ∷ ks) =
    let rest = assign_key a key ks in if eq_text b a then (a, key) ∷ ks else (b, old) ∷ rest

-- The loop of `generateKeys`, with the number of rounds left.
unfoldable pub generate_from : (ℕ → Text × Text) → ℕ → ℕ → Keys → Keys
generate_from derive_path index zero ks = ks
generate_from derive_path index (suc left) ks =
    let (address, private_key) = derive_path index in
    generate_from derive_path (index + 1) left (assign_key address private_key ks)

unfoldable pub generate_keys : (ℕ → Text × Text) → ℕ → Keys
unfolding generate_from
generate_keys derive_path count = generate_from derive_path 0 count []

abbrev pub address_of : Text × Text → Text
address_of (a, key) = a

unfoldable pub get_addresses : Keys → List Text
get_addresses ks = map address_of ks

abbrev pub get_elem? {ℓ} : {A : Type ℓ} → List A → ℕ → Option A
get_elem? [] i = none
get_elem? (x ∷ xs) zero = some x
get_elem? (x ∷ xs) (suc i) = get_elem? xs i

unfoldable pub get_address : Keys → ℕ → Option Text
unfolding get_addresses
get_address ks index = get_elem? (get_addresses ks) index

unfoldable pub is_signer : Keys → Text → Bool
is_signer ks signer = is_some (key_for signer ks)

-- `getWallet`: the private key that the wallet is made of.
unfoldable pub get_wallet : Keys → Text → Outcome Text
get_wallet ks address = elim (key_for address ks) [ none ↦ err not_managed | some key ↦ ok key ]

pub record Wallets : Type 0 where
  pub sign : Text → PopulatedTransaction → Option Text
  pub keccak256 : Text → Text

unfoldable pub sign_transaction :
    Wallets → Keys → Text → PopulatedTransaction → Outcome SignedTransactionDetails
unfolding get_wallet
sign_transaction wallets ks address utx = elim (get_wallet ks address) [
  | err e ↦ err e
  | ok key ↦ elim (wallets.sign key utx) [
    | none ↦ err signing_failed
    | some signed_tx ↦ ok (record { tx_hash = wallets.keccak256 signed_tx; signed_tx = signed_tx })
  ]
]
