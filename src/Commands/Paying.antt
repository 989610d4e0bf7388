-- ===== src/Commands/Paying.antt =====
-- The payments of `register` of src/commands/Register.ts.
use rif_relay_server.Base.{
  ℕ, ◌+◌, ◌≡◌, ◌≤◌, ◌<◌, ◌⊎◌, inl, inr, refl, subst, sym, ap, ◌∙◌, Bool, true, false, ◌&&◌, Option,
  none, some, List, [], ◌∷◌, ◌++◌, Text, ltb, leb, arith, Bool-cases, Option-cases,
}
use mathlib.Core.List.{append_assoc, append-nil}
use rif_relay_server.Base.Int.{sub_ℕ}
use rif_relay_server.Outcome.{
  Outcome, ok, err, Action, ◌>>=◌, ◌>>◌, bind-inv, bind_of_ok, bind_of_err, provider_failed,
}
use rif_relay_server.TxStore.{is_same_address}
use rif_relay_server.Commands.{
  ChainInfo, StakeInfo, RegisterNode, RegisterOptions, Payment, staked, funded, Setup, ask, pay,
  requested, wait_for_relay, same_address, stake_if_needed, has_hash, fund_if_needed, eq_chain,
  register,
}
use rif_relay_server.Commands.Blocks.{
  asked, ask-bind, test-bind, throw-bind, pure-bind, same_address-bind, two_later, three_later,
  request_info-bind, check_owner-bind, eq_chain-some, wait_for_relay-paid,
}

module _ (node : RegisterNode) (options : RegisterOptions) where
  -- What the checks have found, at the calls of the client and the node from the n-th on.
  pub record IsAdmitted (n : ℕ) (response : ChainInfo) (info : StakeInfo) : Type 0 where
    pub asked_first : node.get_chain_info n ≡ some response
    pub unready : response.ready ≡ false
    pub chain : ℕ
    pub chain_asked : node.network (n + 1) ≡ some chain
    pub chain_same : response.chain_id ≡ some chain
    pub stake_asked : node.stake_info (n + 2) response.relay_manager_address ≡ some info
    pub from : Text
    pub from_asked : node.signer_address (n + 3) ≡ some from
    pub owned :
        (info.owner ≡ node.address_zero)
        ⊎ (is_same_address node.get_address info.owner from ≡ ok true)

  -- The stake that is due.
  abbrev pub IsStaking : ChainInfo → StakeInfo → List Payment → Type 0
  IsStaking response info staking =
      ((options.unstake_delay ≤ info.unstake_delay) × (options.stake ≤ info.stake) × (staking ≡ []))
      ⊎ (((info.unstake_delay < options.unstake_delay) ⊎ (info.stake < options.stake))
          × (staking
              ≡ staked response.relay_manager_address options.unstake_delay
                  (sub_ℕ options.stake info.stake)
                ∷ []))

  -- No funds, or those asked for to a relay manager that has no more.
  abbrev pub IsFunding : ChainInfo → List Payment → Type 0
  IsFunding response funding =
      (funding ≡ [])
      ⊎ ((n : ℕ) × (balance : ℕ) × (node.balance n response.relay_manager_address ≡ some balance)
          × (balance ≤ options.funds)
          × (funding ≡ funded response.relay_manager_address options.funds ∷ []))

  pub record IsPaid (s t : Setup) : Type 0 where
    pub response : ChainInfo
    pub info : StakeInfo
    pub admitted : IsAdmitted s.calls response info
    pub staking : List Payment
    pub staking_due : IsStaking response info staking
    pub funding : List Payment
    pub funding_due : IsFunding response funding
    pub outcome : t.paid ≡ s.paid ++ (staking ++ funding)

  -- A payment of the block, or none.
  abbrev Pays : Setup → Setup → Type 0
  Pays s t = (t.paid ≡ s.paid) ⊎ IsPaid s t

  IsPaid-keep : (s t u : Setup) → u.paid ≡ t.paid → IsPaid s t → IsPaid s u
  IsPaid-keep s t u same p = record {
    response = p.response;
    info = p.info;
    admitted = p.admitted;
    staking = p.staking;
    staking_due = p.staking_due;
    funding = p.funding;
    funding_due = p.funding_due;
    outcome = same ∙ p.outcome;
  }

  module _ (s : Setup) (response : ChainInfo) (info : StakeInfo)
      (admitted : IsAdmitted s.calls response info) where
    staked_only :
        (u : Setup) (staking : List Payment)
        → IsStaking response info staking
        → u.paid ≡ s.paid ++ staking
        → IsPaid s u
    staked_only u staking due e = record {
      response = response;
      info = info;
      admitted = admitted;
      staking = staking;
      staking_due = due;
      funding = [];
      funding_due = inl refl;
      outcome = rw append-nil e;
    }

    has_hash-state : (hash : Option Text) (u : Setup) → (has_hash node hash u).1 ≡ u
    has_hash-state none u = refl
    has_hash-state (some h) u = refl

    staked_and_funded :
        (u v : Setup) (n balance : ℕ) (staking : List Payment)
        → IsStaking response info staking
        → u.paid ≡ s.paid ++ staking
        → node.balance n response.relay_manager_address ≡ some balance
        → balance ≤ options.funds
        → v.paid ≡ u.paid ++ funded response.relay_manager_address options.funds ∷ []
        → IsPaid s v
    staked_and_funded u v n balance staking due e told few sent = record {
      response = response;
      info = info;
      admitted = admitted;
      staking = staking;
      staking_due = due;
      funding = funded response.relay_manager_address options.funds ∷ [];
      funding_due = inr (n, balance, told, few, refl);
      outcome =
          sent
          ∙ ap (λ l. l ++ funded response.relay_manager_address options.funds ∷ []) e
          ∙ append_assoc s.paid staking _;
    }

    fund_if_needed-IsPaid :
        (u : Setup) (n balance : ℕ) (staking : List Payment)
        → IsStaking response info staking
        → u.paid ≡ s.paid ++ staking
        → node.balance n response.relay_manager_address ≡ some balance
        → IsPaid s (fund_if_needed node options response.relay_manager_address balance u).1
    unfolding fund_if_needed
    fund_if_needed-IsPaid u n balance staking due e told =
        elim (Bool-cases (ltb options.funds balance)) [
          | inl enough ↦ rw enough (staked_only u staking due e)
          | inr few ↦ rw few (
              ask-bind (IsPaid s) _ _ u (staked_only (asked u) staking due e) (λ hash sent.
                let transfer = funded response.relay_manager_address options.funds in
                rw (bind_of_ok (pay transfer) (λ _. has_hash node hash) (asked u) refl) (
                  staked_and_funded u _ n balance staking due e told (ground arith)
                    (ap (λ v. v.paid) (has_hash-state hash _)))))
        ]

    -- What follows the stake.
    abbrev fund_and_wait : Text → Action Setup (Option (Unit {0}))
    fund_and_wait from = do
      same_address node info.owner from
      balance ← ask (λ n. node.balance n response.relay_manager_address)
      fund_if_needed node options response.relay_manager_address balance
      wait_for_relay node 60

    fund_and_wait-IsPaid :
        (from : Text) (u : Setup) (staking : List Payment)
        → IsStaking response info staking
        → u.paid ≡ s.paid ++ staking
        → IsPaid s (fund_and_wait from u).1
    fund_and_wait-IsPaid from u staking due e =
        same_address-bind node (IsPaid s) info.owner from _ u (staked_only u staking due e)
          (λ same known.
            ask-bind (IsPaid s) _ _ u (staked_only (asked u) staking due e) (λ balance told.
              bind-inv (IsPaid s)
                (fund_if_needed node options response.relay_manager_address balance)
                (λ _. wait_for_relay node 60) (asked u)
                (fund_if_needed-IsPaid (asked u) u.calls balance staking due e told)
                (λ x v ran paid. IsPaid-keep s v _ (wait_for_relay-paid node 60 v) paid)))

    -- The stake that is missing, as a payment, and the call for it.
    abbrev missing : Payment
    missing =
        staked response.relay_manager_address options.unstake_delay (sub_ℕ options.stake info.stake)

    abbrev staking_call : ℕ → Option Text
    staking_call n =
        node.stake_for_address n response.relay_manager_address options.unstake_delay
          (sub_ℕ options.stake info.stake)

    abbrev stakes : Setup → Outcome (Unit {0}) × Setup
    stakes u = stake_if_needed node options response.relay_manager_address info u

    abbrev is_staked : Bool
    is_staked = leb options.unstake_delay info.unstake_delay && leb options.stake info.stake

    stakes-none :
        (u : Setup)
        → is_staked ≡ false
        → staking_call u.calls ≡ none
        → stakes u ≡ (err provider_failed, asked u)
    unfolding stake_if_needed
    stakes-none u short h = rw short (bind_of_err (ask staking_call) _ u (rw h refl))

    stakes-some :
        (u : Setup) {hash : Text}
        → is_staked ≡ false
        → staking_call u.calls ≡ some hash
        → stakes u ≡ (ok tt, record (asked u) { paid = u.paid ++ missing ∷ [] })
    unfolding stake_if_needed
    stakes-some u {hash} short h =
        rw short (bind_of_ok (ask staking_call) _ u {a = hash} (rw h refl))

    is_short :
        is_staked ≡ false
        → (info.unstake_delay < options.unstake_delay) ⊎ (info.stake < options.stake)
    is_short h = ground arith

    stakes-enough : (u : Setup) → is_staked ≡ true → stakes u ≡ (ok tt, u)
    unfolding stake_if_needed
    stakes-enough u enough = rw enough refl

    stake_then-Pays :
        (from : Text) (u : Setup)
        → u.paid ≡ s.paid
        → Pays s
            ((stake_if_needed node options response.relay_manager_address info >>= λ _.
                fund_and_wait from)
              u).1
    stake_then-Pays from u e =
        let stakes_here = stake_if_needed node options response.relay_manager_address info in
        elim (Bool-cases is_staked) [
          | inl enough ↦
              rw (bind_of_ok stakes_here (λ _. fund_and_wait from) u (stakes-enough u enough)) (
                inr (
                  fund_and_wait-IsPaid from u [] (inl (ground arith, ground arith, refl))
                    (e ∙ sym (append-nil s.paid))))
          | inr short ↦ elim (Option-cases (staking_call u.calls)) [
            | inl h ↦
                rw (bind_of_err stakes_here (λ _. fund_and_wait from) u (stakes-none u short h))
                  (inl e)
            | inr (hash, h) ↦
                rw (bind_of_ok stakes_here (λ _. fund_and_wait from) u (stakes-some u short h)) (
                  inr (
                    fund_and_wait-IsPaid from _ (missing ∷ []) (inr (is_short short, refl))
                      (ap (λ l. l ++ missing ∷ []) e)))
          ]
        ]

  -- However `register` ends, it has paid nothing, or it has paid what was due: a stake for the relay
  -- manager that is the difference of the one asked for and the one that it has, exactly if it has
  -- less or its delay is shorter, and then at most the funds asked for, to a relay manager that has
  -- no more. It has paid only if the relay told of itself that it is not ready and that it is on the
  -- chain of the node, and the relay manager has no owner or is owned by the signer.
  pub register-IsPaid :
      (s : Setup)
      → ((register node options s).1.paid ≡ s.paid) ⊎ IsPaid s (register node options s).1
  unfolding register
  register-IsPaid s = request_info-bind node (Pays s) _ s (inl refl) (λ response asked_first.
      test-bind (Pays s) response.ready _ _ _ (requested node s)
        (λ ready. throw-bind (Pays s) _ _ _ (inl refl))
        (λ unready. pure-bind (Pays s) tt _ _ (
          ask-bind (Pays s) node.network _ _ (inl refl) (λ chain chain_asked.
            test-bind (Pays s) (eq_chain node response.chain_id chain) _ _ _ _
              (λ same_chain. pure-bind (Pays s) tt _ _ (
                ask-bind (Pays s) _ _ _ (inl refl) (λ info stake_asked.
                  ask-bind (Pays s) _ _ _ (inl refl) (λ from from_asked.
                    check_owner-bind node (Pays s) info from _ _ (inl refl) (λ owned.
                      stake_then-Pays s response info
                        (record {
                          asked_first = asked_first;
                          unready = unready;
                          chain = chain;
                          chain_asked = chain_asked;
                          chain_same = eq_chain-some node response.chain_id chain same_chain;
                          stake_asked =
                              subst
                                (λ k. node.stake_info k response.relay_manager_address ≡ some info)
                                (two_later s.calls) stake_asked;
                          from = from;
                          from_asked =
                              subst (λ k. node.signer_address k ≡ some from) (three_later s.calls)
                                from_asked;
                          owned = owned;
                        })
                        from _ refl)))))
              (λ other. throw-bind (Pays s) _ _ _ (inl refl))))))
