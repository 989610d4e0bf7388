-- ===== src/Server/Readiness.antt =====
-- What holds of a server that a round leaves ready.
use rif_relay_server.Base.{
  ℕ, ◌≡◌, ◌≤◌, refl, sym, ap, ◌∙◌, Bool, true, false, some, List, Text, arith, Bool-cases, inl, inr,
  ltb,
}
use rif_relay_server.Outcome.{Outcome, ok, err, ◌>>=◌, >>=-eq-ok}
use rif_relay_server.TxManager.{call}
use rif_relay_server.TxManager.Steps.{call-answer}
use rif_relay_server.Events.{TypedEvent}
use rif_relay_server.Registration.Methods as Methods
use rif_relay_server.Server.{Server, ServerContext, get_all_hub_events_since_last_scan}
use rif_relay_server.Server.Replenish.{get_worker_balance}
use rif_relay_server.Server.Worker.{
  settle_ready, handle_registered, handle_unregistered, on_registered, scan_changes, handle_changes,
}

module _ {Store : Type 0} (c : ServerContext Store) where
  -- The node has told a balance of the worker that is no less than its minimum.
  abbrev pub IsWorkerFunded : Type 0
  IsWorkerFunded =
      (n : ℕ) × (b : ℕ) × (c.balance_pending n c.base.worker_address ≡ some b)
      × (c.settings.worker_min_balance ≤ b)

  -- The round found the server registered: `u` is the state that its scan left.
  pub record FoundRegistered (block : ℕ) (s : Server Store) : Type 0 where
    pub events : List TypedEvent
    pub hashes : List Text
    pub listed : Server Store
    pub scanned : Server Store
    pub lists : get_all_hub_events_since_last_scan c s ≡ (ok events, listed)
    pub scans : scan_changes c block events listed ≡ (ok hashes, scanned)
    pub registered : Methods.is_registered c.base scanned.registration ≡ ok true

  unready :
      (hashes result : List Text) (s t : Server Store)
      → handle_unregistered c hashes s ≡ (ok result, t)
      → t.ready ≡ false
  unfolding handle_unregistered ◌>>=◌
  unready hashes result s t e = sym (ap (λ r. r.1.ready) e)

  settle_ready-ready :
      (block balance : ℕ) (hashes result : List Text) (s t : Server Store)
      → settle_ready c block balance hashes s ≡ (ok result, t)
      → t.ready ≡ true
      → c.settings.worker_min_balance ≤ balance
  unfolding settle_ready ◌>>=◌
  settle_ready-ready block balance hashes result s t e h =
      elim (Bool-cases (ltb balance c.settings.worker_min_balance)) [
        | inl low ↦ let f = ap (λ r. r.1.ready) (rw low at e) in let g = f ∙ h in cc
        | inr enough ↦ ground arith
      ]

  get_worker_balance-answer :
      (s t : Server Store) (b : ℕ)
      → get_worker_balance c s ≡ (ok b, t)
      → (n : ℕ) × (c.balance_pending n c.base.worker_address ≡ some b)
  unfolding get_worker_balance
  get_worker_balance-answer s t b e =
      let w = s.registration.world in
      let ask = λ (n : ℕ). c.balance_pending n c.base.worker_address in
      let ran : call ask w ≡ (ok b, (call ask w).1) =
        ap (λ x. (x, (call ask w).1)) (ap (λ r. r.0) e) in
      (w.calls, call-answer ask w (call ask w).1 ran)

  registered-ready :
      (block : ℕ) (events : List TypedEvent) (hashes result : List Text) (s t : Server Store)
      → handle_registered c block events hashes s ≡ (ok result, t)
      → t.ready ≡ true
      → IsWorkerFunded
  unfolding handle_registered
  registered-ready block events hashes result s t e h =
      let (_, u, _, e1) = >>=-eq-ok _ _ s e in
      let (replenished, v, _, e2) = >>=-eq-ok _ _ u e1 in
      let (balance, w, told, e3) = >>=-eq-ok _ _ v e2 in
      let (n, q) = get_worker_balance-answer v w balance told in
      (n, balance, q, settle_ready-ready block balance _ result w t e3 h)

  by_answer :
      (answer : Outcome Bool) (block : ℕ) (events : List TypedEvent) (hashes result : List Text)
      (s t : Server Store)
      → on_registered c answer block events hashes s ≡ (ok result, t)
      → t.ready ≡ true
      → (answer ≡ ok true) × IsWorkerFunded
  unfolding on_registered
  by_answer (err x) block events hashes result s t e h = cc
  by_answer (ok false) block events hashes result s t e h =
      let f = unready hashes result s t e in let g = sym f ∙ h in cc
  by_answer (ok true) block events hashes result s t e h =
      (refl, registered-ready block events hashes result s t e h)

  -- A successful `_handleChanges` that leaves the server ready found it registered, in the state
  -- that its scan left, and the node told a balance of the worker that is no less than the
  -- configured minimum.
  pub handle_changes-ready :
      (block : ℕ) (s t : Server Store) (hashes : List Text)
      → handle_changes c block s ≡ (ok hashes, t)
      → t.ready ≡ true
      → FoundRegistered block s × IsWorkerFunded
  unfolding handle_changes
  handle_changes-ready block s t hashes e h =
      let (events, u, lists, e1) = >>=-eq-ok _ _ s e in
      let (found, v, scans, e2) = >>=-eq-ok _ _ u e1 in
      let (registered, funded) = by_answer _ block events found hashes v t e2 h in
      (
        record {
          events = events;
          hashes = found;
          listed = u;
          scanned = v;
          lists = lists;
          scans = scans;
          registered = registered;
        },
        funded,
      )
