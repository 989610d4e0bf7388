-- ===== src/Registration/Counted.antt =====
-- The withdrawals that a list of events of src/RegistrationManager.ts leads to, in their order.
use rif_relay_server.Base.{
  ℕ, suc, ◌+◌, ◌≡◌, sym, Bool, true, false, List, [], ◌∷◌, ◌++◌, Text, subst, arith,
}
use mathlib.Core.List.{append_assoc, append-nil}
use rif_relay_server.Outcome.{ok, ok_injective, pure, >>=-eq-ok}
use rif_relay_server.Events.{
  EventName, relay_server_registered, relay_workers_added, transaction_relayed,
  transaction_relayed_but_reverted_by_recipient, stake_added, stake_unlocked, stake_withdrawn,
  TypedEvent,
}
use rif_relay_server.Registration.{Context, Registration}
use rif_relay_server.Registration.Drained.{IsWithdrawn, withdraw_all_funds-IsWithdrawn}
use rif_relay_server.Registration.Methods.{
  withdraw_all_funds, handle_stake_event, handle_stake_events, handle_due_event, handle_due_events,
}

-- How many withdrawals an event leads to: at once, and once it is due.
abbrev pub withdrawn : EventName → ℕ
withdrawn stake_withdrawn = 1
withdrawn stake_added = 0
withdrawn stake_unlocked = 0
withdrawn relay_server_registered = 0
withdrawn relay_workers_added = 0
withdrawn transaction_relayed = 0
withdrawn transaction_relayed_but_reverted_by_recipient = 0

abbrev pub unlocked : EventName → ℕ
unlocked stake_unlocked = 1
unlocked stake_added = 0
unlocked stake_withdrawn = 0
unlocked relay_server_registered = 0
unlocked relay_workers_added = 0
unlocked transaction_relayed = 0
unlocked transaction_relayed_but_reverted_by_recipient = 0

abbrev pub count : (EventName → ℕ) → List TypedEvent → ℕ
count f [] = 0
count f (e ∷ es) = f e.event + count f es

module _ {Store : Type 0} (c : Context Store) where
  -- So many withdrawals of the kind, and the hashes of what they sent, in their order.
  pub data Withdrew (manager : Bool) : ℕ → List Text → Type 0 where
    no_more : Withdrew manager 0 []
    withdrew :
        (n : ℕ) (r t : Registration Store) (hashes later : List Text)
        → IsWithdrawn c manager r t hashes
        → Withdrew manager n later
        → Withdrew manager (suc n) (hashes ++ later)

  pub Withdrew-append :
      (manager : Bool) (n m : ℕ) (hs ks : List Text)
      → Withdrew manager n hs
      → Withdrew manager m ks
      → Withdrew manager (n + m) (hs ++ ks)
  Withdrew-append manager _ m _ ks no_more k =
      let same : m ≡ 0 + m = omega arith in subst (λ i. Withdrew manager i ks) same k
  Withdrew-append manager _ m _ ks (withdrew n r t hashes later w h) k =
      let same : suc (n + m) ≡ suc n + m = omega arith in
      subst (λ i. Withdrew manager i ((hashes ++ later) ++ ks)) same
        (subst (Withdrew manager (suc (n + m))) (sym (append_assoc hashes later ks))
          (withdrew (n + m) r t hashes (later ++ ks) w (Withdrew-append manager n m later ks h k)))

  -- One withdrawal, or none.
  Withdrew-one :
      (manager : Bool) (block : ℕ) (r t : Registration Store) (hashes : List Text)
      → withdraw_all_funds c manager block r ≡ (ok hashes, t)
      → Withdrew manager 1 hashes
  Withdrew-one manager block r t hashes e = subst (Withdrew manager 1) (append-nil hashes) (
      withdrew 0 r t hashes [] (withdraw_all_funds-IsWithdrawn c manager block r t hashes e)
        no_more)

  Withdrew-none :
      (manager : Bool) (r t : Registration Store) (hashes : List Text)
      → pure [] r ≡ (ok hashes, t)
      → Withdrew manager 0 hashes
  Withdrew-none manager r t hashes e = subst (Withdrew manager 0) (ok_injective e) no_more

  handle_stake_event-Withdrew :
      (name : EventName) (e : TypedEvent) (block : ℕ) (r t : Registration Store)
      (hashes : List Text)
      → handle_stake_event c name e block r ≡ (ok hashes, t)
      → Withdrew true (withdrawn name) hashes
  unfolding handle_stake_event
  handle_stake_event-Withdrew stake_withdrawn e block r t hashes h =
      let (u, s, refreshed, rest) = >>=-eq-ok _ _ r h in Withdrew-one true block s t hashes rest
  handle_stake_event-Withdrew stake_added e block r t hashes h =
      let (u, s, refreshed, rest) = >>=-eq-ok _ _ r h in Withdrew-none true s t hashes rest
  handle_stake_event-Withdrew stake_unlocked e block r t hashes h =
      let (u, s, pushed, rest) = >>=-eq-ok _ _ r h in Withdrew-none true s t hashes rest
  handle_stake_event-Withdrew relay_server_registered e block r t hashes h =
      Withdrew-none true r t hashes h
  handle_stake_event-Withdrew relay_workers_added e block r t hashes h =
      Withdrew-none true r t hashes h
  handle_stake_event-Withdrew transaction_relayed e block r t hashes h =
      Withdrew-none true r t hashes h
  handle_stake_event-Withdrew transaction_relayed_but_reverted_by_recipient e block r t hashes h =
      Withdrew-none true r t hashes h

  pub handle_stake_events-Withdrew :
      (es : List TypedEvent) (block : ℕ) (r t : Registration Store) (hashes : List Text)
      → handle_stake_events c es block r ≡ (ok hashes, t)
      → Withdrew true (count withdrawn es) hashes
  unfolding handle_stake_events
  handle_stake_events-Withdrew [] block r t hashes h = Withdrew-none true r t hashes h
  handle_stake_events-Withdrew (e ∷ es) block r t hashes h =
      let (a, s, first, h1) = >>=-eq-ok _ _ r h in
      let (b, q, later, h2) = >>=-eq-ok _ _ s h1 in
      subst (Withdrew true (withdrawn e.event + count withdrawn es)) (ok_injective h2) (
        Withdrew-append true (withdrawn e.event) (count withdrawn es) a b
          (handle_stake_event-Withdrew e.event e block r s a first)
          (handle_stake_events-Withdrew es block s q b later))

  handle_due_event-Withdrew :
      (name : EventName) (block : ℕ) (r t : Registration Store) (hashes : List Text)
      → handle_due_event c name block r ≡ (ok hashes, t)
      → Withdrew false (unlocked name) hashes
  unfolding handle_due_event
  handle_due_event-Withdrew stake_unlocked block r t hashes h =
      Withdrew-one false block r t hashes h
  handle_due_event-Withdrew stake_added block r t hashes h = Withdrew-none false r t hashes h
  handle_due_event-Withdrew stake_withdrawn block r t hashes h = Withdrew-none false r t hashes h
  handle_due_event-Withdrew relay_server_registered block r t hashes h =
      Withdrew-none false r t hashes h
  handle_due_event-Withdrew relay_workers_added block r t hashes h =
      Withdrew-none false r t hashes h
  handle_due_event-Withdrew transaction_relayed block r t hashes h =
      Withdrew-none false r t hashes h
  handle_due_event-Withdrew transaction_relayed_but_reverted_by_recipient block r t hashes h =
      Withdrew-none false r t hashes h

  pub handle_due_events-Withdrew :
      (es : List TypedEvent) (block : ℕ) (r t : Registration Store) (hashes : List Text)
      → handle_due_events c es block r ≡ (ok hashes, t)
      → Withdrew false (count unlocked es) hashes
  unfolding handle_due_events
  handle_due_events-Withdrew [] block r t hashes h = Withdrew-none false r t hashes h
  handle_due_events-Withdrew (e ∷ es) block r t hashes h =
      let (a, s, first, h1) = >>=-eq-ok _ _ r h in
      let (b, q, later, h2) = >>=-eq-ok _ _ s h1 in
      subst (Withdrew false (unlocked e.event + count unlocked es)) (ok_injective h2) (
        Withdrew-append false (unlocked e.event) (count unlocked es) a b
          (handle_due_event-Withdrew e.event block r s a first)
          (handle_due_events-Withdrew es block s q b later))
