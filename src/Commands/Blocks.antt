-- ===== src/Commands/Blocks.antt =====
-- Blocks of src/commands/Register.ts: a property of the state that they leave, from that of their
-- first part.
use rif_relay_server.Base.{
  sym, ◌∙◌, ℕ, zero, suc, ◌*◌, ◌+◌, ◌≡◌, ◌⊎◌, inl, inr, refl, ap, Bool, true, false, Option, none,
  some, Text, eq_text, eq_text_iff, ltb, arith, Bool-cases, Option-cases, if◌then◌else◌,
}
use rif_relay_server.Outcome.{
  Outcome, ok, err, Error, Action, pure, throw, ◌>>=◌, bind_of_ok, bind_of_err, provider_failed,
  already_owned,
}
use rif_relay_server.TxStore.{is_same_address}
use rif_relay_server.Commands.{
  ChainInfo, StakeInfo, RegisterNode, Setup, ask, requested, is_ready_info, slept, wait_until,
  wait_for_relay, same_address, check_owner, request_info, eq_chain,
}

abbrev pub asked : Setup → Setup
asked s = record s { calls = s.calls + 1 }

-- A property of the state that a block leaves, from its first part.
module _ {B : Type 0} (P : Setup → Type 0) where
  pub ask-bind :
      {A : Type 0} (f : ℕ → Option A) (g : A → Action Setup B) (s : Setup)
      → P (asked s)
      → ((a : A) → f s.calls ≡ some a → P (g a (asked s)).1)
      → P ((ask f >>= g) s).1
  ask-bind f g s failed later = elim (Option-cases (f s.calls)) [
    | inl h ↦
        let e : ask f s ≡ (err provider_failed, asked s) = rw h refl in
        rw (bind_of_err (ask f) g s e) failed
    | inr (a, h) ↦
        let e : ask f s ≡ (ok a, asked s) = rw h refl in rw (bind_of_ok (ask f) g s e) (later a h)
  ]

  pub test-bind :
      (b : Bool) (x y : Action Setup (Unit {0})) (g : Unit {0} → Action Setup B) (s : Setup)
      → (b ≡ true → P ((x >>= g) s).1)
      → (b ≡ false → P ((y >>= g) s).1)
      → P (((if b then x else y) >>= g) s).1
  test-bind true x y g s h k = h refl
  test-bind false x y g s h k = k refl

  pub throw-bind :
      {A : Type 0} (e : Error) (g : A → Action Setup B) (s : Setup) → P s → P ((throw e >>= g) s).1
  throw-bind e g s h = rw (bind_of_err (throw e) g s refl) h

  pub pure-bind :
      {A : Type 0} (a : A) (g : A → Action Setup B) (s : Setup)
      → P (g a s).1
      → P ((pure a >>= g) s).1
  pure-bind a g s h = rw (bind_of_ok (pure a) g s refl) h

pub outcome_known :
    {A : Type 0} (r : Outcome A) → ((e : Error) × (r ≡ err e)) ⊎ ((a : A) × (r ≡ ok a))
outcome_known (err e) = inl (e, refl)
outcome_known (ok a) = inr (a, refl)

pub same_address-bind :
    {B : Type 0} (node : RegisterNode) (P : Setup → Type 0) (a b : Text) (g : Bool → Action Setup B)
    (s : Setup)
    → P s
    → ((same : Bool) → is_same_address node.get_address a b ≡ ok same → P (g same s).1)
    → P ((same_address node a b >>= g) s).1
same_address-bind node P a b g s failed later =
    elim (outcome_known (is_same_address node.get_address a b)) [
      | inl (x, h) ↦ rw (bind_of_err (same_address node a b) g s (ap (λ r. (r, s)) h)) failed
      | inr (same, h) ↦
          rw (bind_of_ok (same_address node a b) g s (ap (λ r. (r, s)) h)) (later same h)
    ]

-- A request of the node in a block that succeeds.
pub ask-eq-ok :
    {A B : Type 0} (f : ℕ → Option A) (g : A → Action Setup B) (s : Setup) {b : B} {u : Setup}
    → (ask f >>= g) s ≡ (ok b, u)
    → (a : A) × (f s.calls ≡ some a) × (g a (asked s) ≡ (ok b, u))
ask-eq-ok f g s e = elim (Option-cases (f s.calls)) [
  | inl h ↦
      let k : ask f s ≡ (err provider_failed, asked s) = rw h refl in
      let bad = sym (bind_of_err (ask f) g s k) ∙ e in cc
  | inr (a, h) ↦
      let k : ask f s ≡ (ok a, asked s) = rw h refl in (a, h, sym (bind_of_ok (ask f) g s k) ∙ e)
]

pub two_later : (n : ℕ) → n + 1 + 1 ≡ n + 2
two_later n = omega arith

pub three_later : (n : ℕ) → n + 1 + 1 + 1 ≡ n + 3
three_later n = omega arith

module _ (node : RegisterNode) where
  wait_until-paid :
      (fuel end_time : ℕ) (s : Setup) → (wait_until node fuel end_time s).1.paid ≡ s.paid
  unfolding wait_until
  wait_until-paid zero end_time s = refl
  wait_until-paid (suc fuel) end_time s = elim (Bool-cases (ltb s.now end_time)) [
    | inl early ↦ elim (Bool-cases (is_ready_info (node.get_chain_info s.calls))) [
      | inl ready ↦ rw (early, ready) refl
      | inr unready ↦
          rw (early, unready) (wait_until-paid fuel end_time (slept node (requested node s)))
    ]
    | inr late ↦ rw late refl
  ]

  pub wait_for_relay-paid :
      (timeout : ℕ) (s : Setup) → (wait_for_relay node timeout s).1.paid ≡ s.paid
  unfolding wait_for_relay
  wait_for_relay-paid timeout s = wait_until-paid (suc timeout) (s.now + timeout * 1000) s

  pub request_info-bind :
      {B : Type 0} (P : Setup → Type 0) (g : ChainInfo → Action Setup B) (s : Setup)
      → P (requested node s)
      → ((a : ChainInfo) → node.get_chain_info s.calls ≡ some a → P (g a (requested node s)).1)
      → P ((request_info node >>= g) s).1
  request_info-bind P g s failed later = elim (Option-cases (node.get_chain_info s.calls)) [
    | inl h ↦
        let e : request_info node s ≡ (err provider_failed, requested node s) = rw h refl in
        rw (bind_of_err (request_info node) g s e) failed
    | inr (a, h) ↦
        let e : request_info node s ≡ (ok a, requested node s) = rw h refl in
        rw (bind_of_ok (request_info node) g s e) (later a h)
  ]

  abbrev pub IsOwned : StakeInfo → Text → Type 0
  IsOwned info from =
      (info.owner ≡ node.address_zero)
      ⊎ (is_same_address node.get_address info.owner from ≡ ok true)

  check_owner-cases :
      (info : StakeInfo) (from : Text) (s : Setup)
      → ((e : Error) × (check_owner node info.owner from s ≡ (err e, s)))
        ⊎ ((check_owner node info.owner from s ≡ (ok tt, s)) × IsOwned info from)
  unfolding check_owner
  check_owner-cases info from s = elim (Bool-cases (eq_text info.owner node.address_zero)) [
    | inl free ↦ inr (rw free refl, inl ((eq_text_iff info.owner node.address_zero).0 free))
    | inr taken ↦ elim (outcome_known (is_same_address node.get_address info.owner from)) [
      | inl (x, h) ↦
          inl
            (x, rw taken (bind_of_err (same_address node info.owner from) _ s (ap (λ r. (r, s)) h)))
      | inr (true, h) ↦ inr (
        rw taken
            (bind_of_ok (same_address node info.owner from) _ s {a = true} (ap (λ r. (r, s)) h)),
        inr h,
      )
      | inr (false, h) ↦ inl (
        already_owned,
        rw taken
            (bind_of_ok (same_address node info.owner from) _ s {a = false} (ap (λ r. (r, s)) h)),
      )
    ]
  ]

  pub check_owner-bind :
      {B : Type 0} (P : Setup → Type 0) (info : StakeInfo) (from : Text)
      (g : Unit {0} → Action Setup B) (s : Setup)
      → P s
      → (IsOwned info from → P (g tt s).1)
      → P ((check_owner node info.owner from >>= g) s).1
  check_owner-bind P info from g s failed later = elim (check_owner-cases info from s) [
    | inl (e, h) ↦ rw (bind_of_err (check_owner node info.owner from) g s h) failed
    | inr (h, owned) ↦ rw (bind_of_ok (check_owner node info.owner from) g s h) (later owned)
  ]

  pub eq_chain-some : (o : Option ℕ) (id : ℕ) → eq_chain node o id ≡ true → o ≡ some id
  eq_chain-some none id h = cc
  eq_chain-some (some n) id h = ap some (ground arith)
