-- ===== src/Registration/Quiet.antt =====
-- Which blocks of src/RegistrationManager.ts leave the delayed events, and the number of times that
-- `unstaked` was emitted, as they are.
use rif_relay_server.Base.{
  ◌||◌, ◌++◌, ℕ, ◌≡◌, refl, ◌∙◌, Bool, true, false, Option, none, some, [], ◌∷◌, if◌then◌else◌,
  Text, Bool-cases, inl, inr, ◌==◌,
}
use rif_relay_server.Stored.{add_worker}
use rif_relay_server.Outcome.{Outcome, Action, ◌>>=◌, pure, bind-inv}
use rif_relay_server.TxManager.{World}
use rif_relay_server.Registration.{
  Context, Registration, RelayManagerData, on_world, settle_stake, set_relay_data, is_worker_valid,
}
use rif_relay_server.Registration.Methods.{
  refresh_stake, get_relay_data, transfer_balance, send_to_owner, send_manager_eth_balance_to_owner,
  send_workers_eth_balances_to_owner, add_relay_worker, register, action_pending,
  add_worker_if_needed, attempt_registration, all_prerequisites_ok, register_if_needed,
}

module _ {Store : Type 0} where
  -- The two fields are the same in both states.
  abbrev pub Same : Registration Store → Registration Store → Type 0
  Same r t = (t.unstaked ≡ r.unstaked) × (t.delayed_events ≡ r.delayed_events)

  pub record IsQuiet {A : Type 0} (m : Action (Registration Store) A) : Type 0 where
    pub quiet : (r : Registration Store) → Same r (m r).1

  pub pure-IsQuiet : {A : Type 0} (a : A) → IsQuiet (pure a)
  pure-IsQuiet a = record { quiet = λ r. (refl, refl) }

  pub on_world-IsQuiet : {A : Type 0} (m : Action (World Store) A) → IsQuiet (on_world m)
  on_world-IsQuiet m = record { quiet = λ r. (refl, refl) }

  pub read-IsQuiet : {A : Type 0} (f : Registration Store → Outcome A) → IsQuiet (λ r. (f r, r))
  read-IsQuiet f = record { quiet = λ r. (refl, refl) }

  pub bind-IsQuiet :
      {A B : Type 0} (m : Action (Registration Store) A) (f : A → Action (Registration Store) B)
      → IsQuiet m
      → ((a : A) → IsQuiet (f a))
      → IsQuiet (m >>= f)
  bind-IsQuiet m f first later = record {
    quiet = λ r.
        bind-inv (Same r) m f r (first.quiet r)
          (λ a t _ same. let (u, d) = (later a).quiet t in (u ∙ same.0, d ∙ same.1));
  }

  pub if-IsQuiet :
      {A : Type 0} (b : Bool) (m k : Action (Registration Store) A)
      → IsQuiet m
      → IsQuiet k
      → IsQuiet (if b then m else k)
  if-IsQuiet true m k p q = p
  if-IsQuiet false m k p q = q

  -- A test of the state.
  choice-IsQuiet :
      {A : Type 0} (p : Registration Store → Bool) (m k : Action (Registration Store) A)
      → IsQuiet m
      → IsQuiet k
      → IsQuiet (λ r. if p r then m r else k r)
  choice-IsQuiet p m k first other = record {
    quiet = λ r. elim (Bool-cases (p r)) [
      | inl e ↦ rw e (first.quiet r)
      | inr e ↦ rw e (other.quiet r)
    ];
  }

  pub ruleset quiet_rules = (pure-IsQuiet, on_world-IsQuiet, read-IsQuiet, bind-IsQuiet, if-IsQuiet)

  module _ (c : Context Store) where
    pub refresh_stake-IsQuiet : IsQuiet (refresh_stake c)
    unfolding refresh_stake settle_stake
    refresh_stake-IsQuiet = bind-IsQuiet _ _ (on_world-IsQuiet _) (λ info. record {
      quiet = λ r. elim (Bool-cases (info.stake == 0)) [
        | inl e ↦ rw e (refl, refl)
        | inr e ↦ rw e (refl, refl)
      ];
    })

    pub get_relay_data-IsQuiet : IsQuiet (get_relay_data c)
    unfolding get_relay_data
    get_relay_data-IsQuiet = search quiet_rules

    pub set_relay_data-IsQuiet : (d : RelayManagerData) → IsQuiet (set_relay_data d)
    set_relay_data-IsQuiet d = record { quiet = λ r. (refl, refl) }

    transfer_balance-IsQuiet :
        (signer owner : Text) (gas_price balance block : ℕ)
        → IsQuiet (transfer_balance c signer owner gas_price balance block)
    unfolding transfer_balance
    transfer_balance-IsQuiet signer owner gas_price balance block = search quiet_rules

    send_to_owner-IsQuiet :
        (signer : Text) (block : ℕ) (owner : Option Text)
        → IsQuiet (send_to_owner c signer block owner)
    unfolding send_to_owner
    send_to_owner-IsQuiet signer block none = search quiet_rules
    send_to_owner-IsQuiet signer block (some []) = search quiet_rules
    send_to_owner-IsQuiet signer block (some (x ∷ xs)) =
        search (quiet_rules, transfer_balance-IsQuiet)

    pub send_manager-IsQuiet : (block : ℕ) → IsQuiet (send_manager_eth_balance_to_owner c block)
    unfolding send_manager_eth_balance_to_owner
    send_manager-IsQuiet block = record {
      quiet = λ r. (send_to_owner-IsQuiet c.manager_address block r.owner_address).quiet r;
    }

    pub send_workers-IsQuiet : (block : ℕ) → IsQuiet (send_workers_eth_balances_to_owner c block)
    unfolding send_workers_eth_balances_to_owner
    send_workers-IsQuiet block = record {
      quiet = λ r. (send_to_owner-IsQuiet c.worker_address block r.owner_address).quiet r;
    }

    add_relay_worker-IsQuiet : (block : ℕ) → IsQuiet (add_relay_worker c block)
    unfolding add_relay_worker
    add_relay_worker-IsQuiet block = search quiet_rules

    register-IsQuiet : (block : ℕ) → IsQuiet (register c block)
    unfolding register
    register-IsQuiet block = search quiet_rules

    add_worker_if_needed-IsQuiet :
        (block : ℕ) (pending : Bool) → IsQuiet (add_worker_if_needed c block pending)
    unfolding add_worker_if_needed
    add_worker_if_needed-IsQuiet block pending =
        choice-IsQuiet (λ r. is_worker_valid r.last_worker_added || pending) (pure [])
          (add_relay_worker c block >>= λ tx_hash. pure (tx_hash ∷ [])) (pure-IsQuiet [])
          (search (quiet_rules, add_relay_worker-IsQuiet))

    attempt_registration-IsQuiet : (block : ℕ) → IsQuiet (attempt_registration c block)
    unfolding attempt_registration
    attempt_registration-IsQuiet block =
        choice-IsQuiet (all_prerequisites_ok c)
          (action_pending c add_worker >>= λ pending.
            add_worker_if_needed c block pending >>= λ added.
            register c block >>= λ registered. pure (added ++ registered ∷ []))
          (pure []) (search (quiet_rules, add_worker_if_needed-IsQuiet, register-IsQuiet))
          (pure-IsQuiet [])

    pub register_if_needed-IsQuiet :
        (force : Bool) (block : ℕ) → IsQuiet (register_if_needed c force block)
    unfolding register_if_needed
    register_if_needed-IsQuiet force block = search (quiet_rules, attempt_registration-IsQuiet)
