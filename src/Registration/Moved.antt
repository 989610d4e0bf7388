-- ===== src/Registration/Moved.antt =====
-- What the events of the stake in src/RegistrationManager.ts delay, and how often `unstaked` is
-- emitted for them.
use rif_relay_server.Base.{
  ℕ, ◌+◌, ◌≡◌, sym, ap, ◌∙◌, Bool, true, false, List, [], ◌∷◌, ◌++◌, Text, arith,
}
use mathlib.Core.List.{append_assoc, append-nil}
use rif_relay_server.Outcome.{ok, Action, >>=-eq-ok, pure}
use rif_relay_server.Events.{
  EventName, relay_server_registered, relay_workers_added, transaction_relayed,
  transaction_relayed_but_reverted_by_recipient, stake_added, stake_unlocked, stake_withdrawn,
  TypedEvent,
}
use rif_relay_server.Registration.{Context, Registration, DelayedEvent}
use rif_relay_server.Registration.Methods.{
  withdraw_all_funds, handle_stake_event, handle_stake_events, handle_due_event, handle_due_events,
}
use rif_relay_server.Registration.Counted.{withdrawn, unlocked, count}
use rif_relay_server.Registration.Quiet.{
  IsQuiet, Same, refresh_stake-IsQuiet, send_manager-IsQuiet, send_workers-IsQuiet, pure-IsQuiet,
  if-IsQuiet,
}

-- What an event delays.
abbrev pub delayed : EventName → TypedEvent → List DelayedEvent
delayed stake_unlocked e = record { block = e.withdraw_block; event_data = e } ∷ []
delayed stake_added e = []
delayed stake_withdrawn e = []
delayed relay_server_registered e = []
delayed relay_workers_added e = []
delayed transaction_relayed e = []
delayed transaction_relayed_but_reverted_by_recipient e = []

abbrev pub all_delayed : List TypedEvent → List DelayedEvent
all_delayed [] = []
all_delayed (e ∷ es) = delayed e.event e ++ all_delayed es

module _ {Store : Type 0} (c : Context Store) where
  -- So many withdrawals, and such delayed events more.
  abbrev pub Moved : ℕ → List DelayedEvent → Registration Store → Registration Store → Type 0
  Moved n ds r t = (t.unstaked ≡ r.unstaked + n) × (t.delayed_events ≡ r.delayed_events ++ ds)

  quiet-Moved : (r t : Registration Store) → Same r t → Moved 0 [] r t
  quiet-Moved r t (u, d) = (omega arith, d ∙ sym (append-nil r.delayed_events))

  then-Moved :
      (n m : ℕ) (ds es : List DelayedEvent) (r s t : Registration Store)
      → Moved n ds r s
      → Moved m es s t
      → Moved (n + m) (ds ++ es) r t
  then-Moved n m ds es r s t (u, d) (v, e) =
      (omega arith, e ∙ ap (λ l. l ++ es) d ∙ append_assoc r.delayed_events ds es)

  -- A successful quiet block, and what follows it.
  pub quiet-eq-ok :
      {A : Type 0} (m : Action (Registration Store) A) (r t : Registration Store) (a : A)
      → IsQuiet m
      → m r ≡ (ok a, t)
      → Same r t
  quiet-eq-ok m r t a q e =
      let (u, d) = q.quiet r in
      let left : (m r).1 ≡ t = ap (λ p. p.1) e in
      (ap (λ x. x.unstaked) (sym left) ∙ u, ap (λ x. x.delayed_events) (sym left) ∙ d)

  withdraw_all_funds-Moved :
      (manager : Bool) (block : ℕ) (r t : Registration Store) (hs : List Text)
      → withdraw_all_funds c manager block r ≡ (ok hs, t)
      → Moved 1 [] r t
  unfolding withdraw_all_funds
  withdraw_all_funds-Moved manager block r t hs e =
      let (a, r1, sent, e1) = >>=-eq-ok _ _ r e in
      let (b, r2, sent_too, e2) = >>=-eq-ok _ _ r1 e1 in
      let (u, r3, emitted, e3) = >>=-eq-ok _ _ r2 e2 in
      let (u1, d1) = quiet-eq-ok _ r r1 a (send_workers-IsQuiet c block) sent in
      let (u2, d2) =
        quiet-eq-ok _ r1 r2 b
          (if-IsQuiet manager _ _ (send_manager-IsQuiet c block) (pure-IsQuiet [])) sent_too in
      let u3 : r3.unstaked ≡ r2.unstaked + 1 = sym (ap (λ p. p.1.unstaked) emitted) in
      let d3 : r3.delayed_events ≡ r2.delayed_events = sym (ap (λ p. p.1.delayed_events) emitted) in
      let u4 : t.unstaked ≡ r3.unstaked = sym (ap (λ p. p.1.unstaked) e3) in
      let d4 : t.delayed_events ≡ r3.delayed_events = sym (ap (λ p. p.1.delayed_events) e3) in
      (omega arith, d4 ∙ d3 ∙ d2 ∙ d1 ∙ sym (append-nil r.delayed_events))

  pure-Moved :
      {A : Type 0} (a b : A) (r t : Registration Store) → pure a r ≡ (ok b, t) → Moved 0 [] r t
  pure-Moved a b r t e =
      quiet-Moved r t (sym (ap (λ p. p.1.unstaked) e), sym (ap (λ p. p.1.delayed_events) e))

  handle_stake_event-Moved :
      (name : EventName) (e : TypedEvent) (block : ℕ) (r t : Registration Store) (hs : List Text)
      → handle_stake_event c name e block r ≡ (ok hs, t)
      → Moved (withdrawn name) (delayed name e) r t
  unfolding handle_stake_event
  handle_stake_event-Moved stake_added e block r t hs h =
      let (u, s, refreshed, rest) = >>=-eq-ok _ _ r h in
      then-Moved 0 0 [] [] r s t
        (quiet-Moved r s (quiet-eq-ok _ r s u (refresh_stake-IsQuiet c) refreshed))
        (pure-Moved [] hs s t rest)
  handle_stake_event-Moved stake_unlocked e block r t hs h =
      let (u, s, pushed, rest) = >>=-eq-ok _ _ r h in
      let (v, q, refreshed, push) = >>=-eq-ok _ _ r pushed in
      let (u1, d1) = quiet-eq-ok _ r q v (refresh_stake-IsQuiet c) refreshed in
      let u2 : s.unstaked ≡ q.unstaked = sym (ap (λ p. p.1.unstaked) push) in
      let d2 : s.delayed_events ≡ q.delayed_events ++ delayed stake_unlocked e =
        sym (ap (λ p. p.1.delayed_events) push) in
      let u3 : t.unstaked ≡ s.unstaked = sym (ap (λ p. p.1.unstaked) rest) in
      let d3 : t.delayed_events ≡ s.delayed_events = sym (ap (λ p. p.1.delayed_events) rest) in
      (omega arith, d3 ∙ d2 ∙ ap (λ l. l ++ delayed stake_unlocked e) d1)
  handle_stake_event-Moved stake_withdrawn e block r t hs h =
      let (u, s, refreshed, rest) = >>=-eq-ok _ _ r h in
      then-Moved 0 1 [] [] r s t
        (quiet-Moved r s (quiet-eq-ok _ r s u (refresh_stake-IsQuiet c) refreshed))
        (withdraw_all_funds-Moved true block s t hs rest)
  handle_stake_event-Moved relay_server_registered e block r t hs h = pure-Moved [] hs r t h
  handle_stake_event-Moved relay_workers_added e block r t hs h = pure-Moved [] hs r t h
  handle_stake_event-Moved transaction_relayed e block r t hs h = pure-Moved [] hs r t h
  handle_stake_event-Moved transaction_relayed_but_reverted_by_recipient e block r t hs h =
      pure-Moved [] hs r t h

  pub handle_stake_events-Moved :
      (es : List TypedEvent) (block : ℕ) (r t : Registration Store) (hs : List Text)
      → handle_stake_events c es block r ≡ (ok hs, t)
      → Moved (count withdrawn es) (all_delayed es) r t
  unfolding handle_stake_events
  handle_stake_events-Moved [] block r t hs h = pure-Moved [] hs r t h
  handle_stake_events-Moved (e ∷ es) block r t hs h =
      let (a, s, handled, h1) = >>=-eq-ok _ _ r h in
      let (b, q, later, h2) = >>=-eq-ok _ _ s h1 in
      let (u, d) =
        then-Moved (withdrawn e.event) (count withdrawn es) (delayed e.event e) (all_delayed es) r s
          q (handle_stake_event-Moved e.event e block r s a handled)
          (handle_stake_events-Moved es block s q b later) in
      let u1 : t.unstaked ≡ q.unstaked = sym (ap (λ p. p.1.unstaked) h2) in
      let d1 : t.delayed_events ≡ q.delayed_events = sym (ap (λ p. p.1.delayed_events) h2) in
      (u1 ∙ u, d1 ∙ d)

  handle_due_event-Moved :
      (name : EventName) (block : ℕ) (r t : Registration Store) (hs : List Text)
      → handle_due_event c name block r ≡ (ok hs, t)
      → Moved (unlocked name) [] r t
  unfolding handle_due_event
  handle_due_event-Moved stake_unlocked block r t hs h =
      withdraw_all_funds-Moved false block r t hs h
  handle_due_event-Moved stake_added block r t hs h = pure-Moved [] hs r t h
  handle_due_event-Moved stake_withdrawn block r t hs h = pure-Moved [] hs r t h
  handle_due_event-Moved relay_server_registered block r t hs h = pure-Moved [] hs r t h
  handle_due_event-Moved relay_workers_added block r t hs h = pure-Moved [] hs r t h
  handle_due_event-Moved transaction_relayed block r t hs h = pure-Moved [] hs r t h
  handle_due_event-Moved transaction_relayed_but_reverted_by_recipient block r t hs h =
      pure-Moved [] hs r t h

  pub handle_due_events-Moved :
      (es : List TypedEvent) (block : ℕ) (r t : Registration Store) (hs : List Text)
      → handle_due_events c es block r ≡ (ok hs, t)
      → Moved (count unlocked es) [] r t
  unfolding handle_due_events
  handle_due_events-Moved [] block r t hs h = pure-Moved [] hs r t h
  handle_due_events-Moved (e ∷ es) block r t hs h =
      let (a, s, handled, h1) = >>=-eq-ok _ _ r h in
      let (b, q, later, h2) = >>=-eq-ok _ _ s h1 in
      let (u, d) =
        then-Moved (unlocked e.event) (count unlocked es) [] [] r s q
          (handle_due_event-Moved e.event block r s a handled)
          (handle_due_events-Moved es block s q b later) in
      let u1 : t.unstaked ≡ q.unstaked = sym (ap (λ p. p.1.unstaked) h2) in
      let d1 : t.delayed_events ≡ q.delayed_events = sym (ap (λ p. p.1.delayed_events) h2) in
      (u1 ∙ u, d1 ∙ d)
