-- ===== src/Commands/Executing.antt =====
-- What `executeRegister` of src/commands/Register.ts signs with, and what it pays.
use rif_relay_server.Base.{
  ℕ, ◌+◌, ◌≡◌, ◌⊎◌, inl, inr, refl, sym, ap, ◌∙◌, Option, none, some, List, [], ◌∷◌, Text, codes,
  leb, ◌==◌, Bool-cases,
}
use rif_relay_server.Outcome.{
  Outcome, ok, err, Error, Action, ◌>>=◌, pure, or_throw, invalid_number, throw, bind-inv,
  bind_of_ok, bind_of_err, not_regtest,
}
use rif_relay_server.Numbers.{Numbers}
use rif_relay_server.Values.{at}
use rif_relay_server.Configuration.Schema.{Checks}
use rif_relay_server.Configuration.{Joi, Config, ServerConfigParams, get_server_config}
use rif_relay_server.Commands.{Setup, Accounts, find_wealthy_account, first_funded, or_no_account}
use rif_relay_server.Commands.Blocks.{
  asked, outcome_known, ask-bind, test-bind, throw-bind, pure-bind,
}
use rif_relay_server.Commands.Paying.{IsPaid, register-IsPaid}
use rif_relay_server.Commands.Execute.{
  Signer, RegisterLibrary, two_ether, first_signer, retrieve_signer, signer_of, hub_of, url_of,
  register_with, execute_register, raise,
}

module _ (accounts : Accounts) (s0 : Setup) where
  abbrev Unpaid : Setup → Type 0
  Unpaid t = t.paid ≡ s0.paid

  first_funded-paid :
      (required index : ℕ) (l : List Text) (s : Setup)
      → Unpaid s
      → Unpaid (first_funded accounts required index l s).1
  unfolding first_funded
  first_funded-paid required index [] s h = h
  first_funded-paid required index (a ∷ rest) s h = ask-bind Unpaid _ _ s h (λ balance told.
      elim (Bool-cases (leb required balance)) [
        | inl enough ↦ rw enough (ask-bind Unpaid _ _ (asked s) h (λ address known. h))
        | inr few ↦ rw few (first_funded-paid required (index + 1) rest (asked s) h)
      ])

  or_no_account-state : (r : Outcome (Option ℕ) × Setup) → (or_no_account accounts r).1 ≡ r.1
  or_no_account-state (ok (some index), s) = refl
  or_no_account-state (ok none, s) = refl
  or_no_account-state (err e, s) = refl

  find_wealthy_account-paid :
      (required : ℕ) (s : Setup) → Unpaid s → Unpaid (find_wealthy_account accounts required s).1
  unfolding find_wealthy_account
  find_wealthy_account-paid required s h = ask-bind Unpaid _ _ s h (λ chain told.
      test-bind Unpaid (chain == 33) (pure tt) (throw not_regtest) _ (asked s)
        (λ regtest. pure-bind Unpaid tt _ (asked s) (
          ap (λ t. t.paid) (or_no_account-state _)
          ∙ ask-bind Unpaid accounts.list_accounts _ (asked s) h
              (λ l listed. first_funded-paid required 0 l (asked (asked s)) h)))
        (λ other. throw-bind Unpaid _ _ (asked s) h))

module _ {B : Type 0} (P : Setup → Type 0) where
  raise-bind :
      {A : Type 0} (r : Outcome A) (g : A → Action Setup B) (s : Setup)
      → P s
      → ((a : A) → r ≡ ok a → P (g a s).1)
      → P ((raise r >>= g) s).1
  raise-bind (ok a) g s failed later = rw (bind_of_ok (raise (ok a)) g s refl) (later a refl)
  raise-bind (err e) g s failed later = rw (bind_of_err (raise (err e)) g s refl) failed

  or_throw-bind :
      {A : Type 0} (o : Option A) (e : Error) (g : A → Action Setup B) (s : Setup)
      → P s
      → ((a : A) → o ≡ some a → P (g a s).1)
      → P ((or_throw o e >>= g) s).1
  or_throw-bind (some a) e g s failed later =
      rw (bind_of_ok (or_throw (some a) e) g s refl) (later a refl)
  or_throw-bind none e g s failed later = rw (bind_of_err (or_throw none e) g s refl) failed

module _ {D : Type 0} (lib : RegisterLibrary D) where
  first_signer-paid :
      (from_key from_mnemonic : Option Text) (s : Setup)
      → (first_signer lib from_key from_mnemonic s).1.paid ≡ s.paid
  first_signer-paid (some w) from_mnemonic s = refl
  first_signer-paid none (some w) s = refl
  first_signer-paid none none s =
      bind-inv (Unpaid lib.accounts s) (find_wealthy_account lib.accounts two_ether) _ s
        (find_wealthy_account-paid lib.accounts s two_ether s refl) (λ index t found kept. kept)

  retrieve_signer-paid :
      (private_key mnemonic : Option Text) (s : Setup)
      → (retrieve_signer lib private_key mnemonic s).1.paid ≡ s.paid
  unfolding retrieve_signer
  retrieve_signer-paid private_key mnemonic s =
      raise-bind (Unpaid lib.accounts s) _ _ s refl (λ from_key made.
        raise-bind (Unpaid lib.accounts s) _ _ s refl
          (λ from_mnemonic made_too. first_signer-paid from_key from_mnemonic s))

  -- What `executeRegister` has paid with the configuration, from the state `s` to `t`.
  pub record IsExecuted (p : ServerConfigParams D) (s t : Setup) : Type 0 where
    pub signer : Signer
    pub signed_in : Setup
    pub signed : signer_of lib p s ≡ (ok signer, signed_in)
    pub unpaid : signed_in.paid ≡ s.paid
    pub stake : ℕ
    pub stake_read : lib.parse_ether (at (codes "stake") p.register) ≡ some stake
    pub funds : ℕ
    pub funds_read : lib.parse_ether (at (codes "funds") p.register) ≡ some funds
    pub unstake_delay : ℕ
    pub unstake_delay_read :
        lib.big_number (at (codes "unstakeDelay") p.register) ≡ some unstake_delay
    pub paid :
        IsPaid
          (lib.node_for (hub_of lib p) (url_of lib p) signer)
          (record { stake = stake; funds = funds; unstake_delay = unstake_delay })
          signed_in
          t

  abbrev pub Executes : ServerConfigParams D → Setup → Setup → Type 0
  Executes p s t = (t.paid ≡ s.paid) ⊎ IsExecuted p s t

  register_with-Executes :
      (p : ServerConfigParams D) (s : Setup) → Executes p s (register_with lib p s).1
  unfolding register_with
  register_with-Executes p s =
      bind-inv (Executes p s) (signer_of lib p) _ s (inl (retrieve_signer-paid _ _ s))
        (λ signer u signed kept.
          let unpaid : u.paid ≡ s.paid =
            sym (ap (λ q. q.1.paid) signed) ∙ retrieve_signer-paid _ _ s in
          or_throw-bind (Executes p s) _ invalid_number _ u (inl unpaid) (λ stake stake_read.
            or_throw-bind (Executes p s) _ invalid_number _ u (inl unpaid) (λ funds funds_read.
              or_throw-bind (Executes p s) _ invalid_number _ u (inl unpaid) (λ delay delay_read.
                or_throw-bind (Executes p s) _ invalid_number _ u (inl unpaid) (λ price price_read.
                  elim (register-IsPaid (lib.node_for (hub_of lib p) (url_of lib p) signer)
                    (record { stake = stake; funds = funds; unstake_delay = delay }) u) [
                      | inl same ↦ inl (same ∙ unpaid)
                      | inr paid ↦ inr (record {
                        signer = signer;
                        signed_in = u;
                        signed = signed;
                        unpaid = unpaid;
                        stake = stake;
                        stake_read = stake_read;
                        funds = funds;
                        funds_read = funds_read;
                        unstake_delay = delay;
                        unstake_delay_read = delay_read;
                        paid = paid;
                      })
                    ])))))

  -- However `executeRegister` ends, it has paid nothing, or the configuration is one that
  -- `getServerConfig` returns, it has a signer, and it has paid as `register` does with the stake,
  -- the funds and the delay of the configuration: nothing but the stake that is due and then at most
  -- the funds, after the checks of the relay, the chain and the owner.
  pub execute_register-IsExecuted :
      (num : Numbers D) (joi : Joi num) (checks : Checks D) (config : Config D) (s : Setup)
      → ((execute_register lib num joi checks config s).1.paid ≡ s.paid)
        ⊎ ((p : ServerConfigParams D) × ((get_server_config num joi checks config).0 ≡ ok p)
            × IsExecuted p s (execute_register lib num joi checks config s).1)
  unfolding execute_register
  execute_register-IsExecuted num joi checks config s =
      elim (outcome_known (get_server_config num joi checks config).0) [
        | inl (e, h) ↦ inl (rw h refl)
        | inr (p, h) ↦ elim (register_with-Executes p s) [
          | inl same ↦ inl (rw h same)
          | inr paid ↦ inr (p, h, rw h paid)
        ]
      ]
