-- ===== src/TxManager/Steps.antt =====
-- Inversion of a successful block, for each kind of step that it may begin with.
use rif_relay_server.Base.{ℕ, ◌≡◌, refl, Option, some, sym, ◌∙◌, inl, inr, Option-cases}
use rif_relay_server.Outcome.{Outcome, ok, err, Action, ◌>>=◌, next, bind_of_ok, bind_of_err}
use rif_relay_server.TxManager.{World, call, lift, on_store}
use rif_relay_server.TxManager.Nonces.{called, call-some, call-none}

-- A call of the node changes nothing but the number of calls, however it ends.
pub call-state :
    {Store A : Type 0} (ask : ℕ → Option A) (w : World Store) → (call ask w).1 ≡ called w
call-state ask w = elim (Option-cases (ask w.calls)) [
  | inl e ↦ rw (call-none ask w e) refl
  | inr (a, e) ↦ rw (call-some ask w e) refl
]

-- A call that succeeds has the node's answer.
pub call-answer :
    {Store A : Type 0} (ask : ℕ → Option A) (w t : World Store) {a : A}
    → call ask w ≡ (ok a, t)
    → ask w.calls ≡ some a
call-answer ask w t e = elim (Option-cases (ask w.calls)) [
  | inl none_given ↦ let f = sym (call-none ask w none_given) ∙ e in cc
  | inr (b, given) ↦ let f = sym (call-some ask w given) ∙ e in cc
]

module _ {Store B : Type 0} {b : B} {v : World Store} where
  pub call-eq-ok :
      {A : Type 0} (ask : ℕ → Option A) (f : A → Action (World Store) B) (w : World Store)
      → (call ask >>= f) w ≡ (ok b, v)
      → (a : A) × (ask w.calls ≡ some a) × (f a (called w) ≡ (ok b, v))
  call-eq-ok ask f w e = elim (Option-cases (ask w.calls)) [
    | inl h ↦ let bad = sym (bind_of_err (call ask) f w (call-none ask w h)) ∙ e in cc
    | inr (a, h) ↦ (a, h, sym (bind_of_ok (call ask) f w (call-some ask w h)) ∙ e)
  ]

  pub lift-eq-ok :
      {A : Type 0} (r : Outcome A) (f : A → Action (World Store) B) (w : World Store)
      → (lift r >>= f) w ≡ (ok b, v)
      → (a : A) × (r ≡ ok a) × (f a w ≡ (ok b, v))
  unfolding ◌>>=◌
  lift-eq-ok (ok a) f w e = (a, refl, e)
  lift-eq-ok (err x) f w e = cc

  pub on_store-eq-ok :
      {A : Type 0} (m : Action Store A) (f : A → Action (World Store) B) (w : World Store)
      → (on_store m >>= f) w ≡ (ok b, v)
      → (a : A) × (s : Store) × (m w.store ≡ (ok a, s)) × (f a (record w { store = s }) ≡ (ok b, v))
  unfolding ◌>>=◌
  on_store-eq-ok {A} m f w e = go (m w.store) refl e
    where
      go :
          (r : Outcome A × Store)
          → m w.store ≡ r
          → next f (r.0, record w { store = r.1 }) ≡ (ok b, v)
          → (a : A) × (s : Store) × (m w.store ≡ (ok a, s))
            × (f a (record w { store = s }) ≡ (ok b, v))
      go (ok a, s) h k = (a, s, h, k)
      go (err x, s) h k = cc
