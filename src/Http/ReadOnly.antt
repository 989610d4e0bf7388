-- ===== src/Http/ReadOnly.antt =====
-- What the remote calls of src/HttpServer.ts may broadcast.
use rif_relay_server.Base.{ℕ, ◌+◌, ◌≡◌, refl, ap, ◌∙◌, Option, none, some, List, [], ◌∷◌, Text}
use rif_relay_server.Outcome.{Error, Outcome, ok, err, Action, bind-inv, pure}
use rif_relay_server.TxManager.{poll_nonce}
use rif_relay_server.TxManager.Silence.{IsSilent, silent_rules, call-IsSilent}
use rif_relay_server.Events.{
  LogNode, Filter, BlockTag, latest, number, PastEventOptions, EventName, default_manager_events,
  to_block_number, get_log_filters, request_logs, get_past_events_for_hub,
}
use rif_relay_server.Server.{Server, on_chain, get_all_hub_events_since_last_scan}
use rif_relay_server.Server.Replenish.{get_manager_balance, get_worker_balance}
use rif_relay_server.Server.Requests.{validate_max_nonce}
use rif_relay_server.Server.Relay.{RelayContext}
use rif_relay_server.Server.Relay.Steps.{
  heard, on_chain-heard, poll_nonce-heard, validate_max_nonce-heard,
}
use rif_relay_server.Http.{
  Param, text, other, RootHandlerRequestBody, WhitelistedRelayMethod, get_min_gas_price_method,
  is_custom_replenish_method, get_manager_balance_method, get_worker_balance_method,
  get_all_hub_events_method, is_trusted_verifier_method, is_ready_method, validate_max_nonce_method,
  RpcValue, Reply, rpc_success, available_methods, find_method, call_of_body, reply_or, as_value,
  trusted_value, max_nonce_value, first_number, run_method, run_with, process_root_handler,
  root_reply, root_handler,
}

module _ {Store : Type 0} (node : LogNode) where
  to_block_number-IsSilent :
      (tag : Option BlockTag) → IsSilent {Store = Store} (to_block_number node tag)
  to_block_number-IsSilent none = search silent_rules
  to_block_number-IsSilent (some latest) = search silent_rules
  to_block_number-IsSilent (some (number n)) = search silent_rules

  request_logs-IsSilent :
      (filters : List Filter) → IsSilent {Store = Store} (request_logs node filters)
  request_logs-IsSilent filters = record { silent = λ w. refl }

  get_past_events-IsSilent :
      (manager_address : Text) (options : PastEventOptions) (names : List EventName)
      → IsSilent {Store = Store} (get_past_events_for_hub node manager_address options names)
  unfolding get_past_events_for_hub get_log_filters
  get_past_events-IsSilent manager_address options names =
      search (silent_rules, to_block_number-IsSilent, request_logs-IsSilent)

module _ {Store D : Type 0} (c : RelayContext Store D) where
  as_value-heard :
      {A : Type 0} (wrap : A → RpcValue) (m : Action (Server Store) A) (s : Server Store)
      → heard (m s).1 ≡ heard s
      → heard (as_value c wrap m s).1 ≡ heard s
  as_value-heard wrap m s first =
      bind-inv (λ t. heard t ≡ heard s) m (λ a. pure (wrap a)) s first (λ a t _ same. same)

  trusted_value-heard :
      (ps : List Param) (s : Server Store) → heard (trusted_value c ps s).1 ≡ heard s
  trusted_value-heard [] s = refl
  trusted_value-heard (other value ∷ ps) s = refl
  trusted_value-heard (text t value ∷ ps) s = refl

  max_nonce-heard : (n : Option ℕ) (s : Server Store) → heard (max_nonce_value c n s).1 ≡ heard s
  max_nonce-heard none s =
      as_value-heard _ (on_chain (poll_nonce c.server.base.env c.server.base.worker_address)) s
        (poll_nonce-heard c.server s)
  max_nonce-heard (some n) s =
      as_value-heard _ (validate_max_nonce c.server n) s (validate_max_nonce-heard c.server n s)

  run_method-heard :
      (m : WhitelistedRelayMethod) (ps : List Param) (s : Server Store)
      → heard (run_method c m ps s).1 ≡ heard s
  unfolding run_method get_manager_balance get_worker_balance get_all_hub_events_since_last_scan
  run_method-heard get_min_gas_price_method ps s = refl
  run_method-heard is_custom_replenish_method ps s = refl
  run_method-heard get_manager_balance_method ps s =
      as_value-heard _ (get_manager_balance c.server) s (
        on_chain-heard _ s
          (call-IsSilent (λ n. c.server.balance_pending n c.server.base.manager_address)))
  run_method-heard get_worker_balance_method ps s =
      as_value-heard _ (get_worker_balance c.server) s (
        on_chain-heard _ s
          (call-IsSilent (λ n. c.server.balance_pending n c.server.base.worker_address)))
  run_method-heard get_all_hub_events_method ps s =
      as_value-heard _ (get_all_hub_events_since_last_scan c.server) s (
        (get_past_events-IsSilent c.server.base.log_node c.server.base.manager_address
            (record { from_block = some (s.last_scanned_block + 1); to_block = some latest })
            default_manager_events).silent
          s.registration.world)
  run_method-heard is_trusted_verifier_method ps s = trusted_value-heard ps s
  run_method-heard is_ready_method ps s = refl
  run_method-heard validate_max_nonce_method ps s = max_nonce-heard (first_number ps) s

  run_with-heard :
      (o : Option WhitelistedRelayMethod) (p : Option (List Param)) (s : Server Store)
      → heard (run_with c o p s).1 ≡ heard s
  run_with-heard none p s = refl
  run_with-heard (some m) none s = refl
  run_with-heard (some m) (some ps) s = run_method-heard m ps s

  reply_or-state :
      {S A : Type 0} (good : A → Reply D) (bad : Error → Reply D) (r : Outcome A × S)
      → (reply_or good bad r).1 ≡ r.1
  reply_or-state good bad (ok a, s) = refl
  reply_or-state good bad (err e, s) = refl

  root_reply-heard :
      (o : Option (ℕ × Text)) (p : Option (List Param)) (s : Server Store)
      → heard (root_reply c o p s).1 ≡ heard s
  unfolding process_root_handler
  root_reply-heard none p s = refl
  root_reply-heard (some (id, name)) p s =
      ap heard (
        reply_or-state (rpc_success id) (Reply.rpc_error (some id))
          (process_root_handler c name p s))
      ∙ run_with-heard (find_method name available_methods) p s

  -- No remote call to the root of the HTTP server, whatever its body, makes the server broadcast a
  -- transaction.
  pub root_handler-heard :
      (body : RootHandlerRequestBody) (s : Server Store) → heard (root_handler c body s).1 ≡ heard s
  unfolding root_handler
  root_handler-heard body s = root_reply-heard (call_of_body body.id body.method) body.params s
