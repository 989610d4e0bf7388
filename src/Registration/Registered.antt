-- ===== src/Registration/Registered.antt =====
-- When the server counts as registered.
use rif_relay_server.Base.{
  ◌≡◌, ◌≤◌, ◌↔◌, refl, Bool, true, false, Option, none, some, eq_text_iff, arith,
}
use rif_relay_server.Outcome.{Outcome, ok, err}
use rif_relay_server.TxStore.{is_same_address}
use rif_relay_server.Registration.{Context, Registration, RelayManagerData}
use rif_relay_server.Registration.Methods.{
  is_registration_correct, url_matches, is_registered, registered_if,
}

module _ {Store : Type 0} (c : Context Store) where
  -- The hub's data are those of this manager, at the server's URL.
  pub record IsOurs (o : Option RelayManagerData) : Type 0 where
    pub relay_data : RelayManagerData
    pub found : o ≡ some relay_data
    pub same_manager : is_same_address c.get_address relay_data.manager c.manager_address ≡ ok true
    pub same_url : relay_data.url ≡ c.url

  IsOurs-url_matches :
      (d : RelayManagerData) (same : Outcome Bool)
      → is_same_address c.get_address d.manager c.manager_address ≡ same
      → url_matches c d same ≡ ok true
      → IsOurs (some d)
  IsOurs-url_matches d (err e) q h = cc
  IsOurs-url_matches d (ok false) q h = cc
  IsOurs-url_matches d (ok true) q h = record {
    relay_data = d;
    found = refl;
    same_manager = q;
    same_url = (eq_text_iff d.url c.url).0 (ground arith);
  }

  is_registration_correct-IsOurs :
      (o : Option RelayManagerData) → is_registration_correct c o ≡ ok true → IsOurs o
  unfolding is_registration_correct
  is_registration_correct-IsOurs none h = cc
  is_registration_correct-IsOurs (some d) h = IsOurs-url_matches d _ refl h

  correct_of_ours : (o : Option RelayManagerData) → IsOurs o → is_registration_correct c o ≡ ok true
  unfolding is_registration_correct
  correct_of_ours o h =
      rw (h.found, h.same_manager, (eq_text_iff h.relay_data.url c.url).1 h.same_url) refl

  -- `isRegistered` holds exactly if the stake is enough and locked, and the hub's data, as last
  -- fetched, name this manager and the server's own URL.
  pub is_registered_lem :
      (r : Registration Store)
      → (is_registered c r ≡ ok true) ↔ (
          (r.stake_required.required_value ≤ r.stake_required.current_value)
          × (r.is_stake_locked ≡ true)
          × IsOurs r.relay_data)
  unfolding is_registered
  is_registered_lem r = (
    λ h.
        let (enough, locked, correct) = of_all r (is_registration_correct c r.relay_data) h in
        (enough, locked, is_registration_correct-IsOurs r.relay_data correct),
    λ (enough, locked, ours). rw (correct_of_ours r.relay_data ours, locked) (ground arith),
  )
    where
      of_all :
          (r : Registration Store) (o : Outcome Bool)
          → registered_if c r o ≡ ok true
          → (r.stake_required.required_value ≤ r.stake_required.current_value)
            × (r.is_stake_locked ≡ true)
            × (o ≡ ok true)
      of_all r (err e) h = cc
      of_all r (ok false) h = ground arith
      of_all r (ok true) h = ground arith
