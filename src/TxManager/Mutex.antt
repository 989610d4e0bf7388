-- ===== src/TxManager/Mutex.antt =====
-- Concurrent calls of `sendTransaction` and `pollNonce`, as the event loop may interleave them at
-- their awaits. The mutex of async-mutex admits one task at a time; `pollNonce` also runs outside
-- it, for `validateMaxNonce`. Every other step keeps the counters.
pub mod Safety
use rif_relay_server.Base.{
  ℕ, ◌+◌, ◌≡◌, ◌≤◌, ◌<◌, ◌≢◌, inl, inr, refl, sym, ap, ◌∙◌, subst, Bool, true, false, Option, none,
  some, List, [], ◌∷◌, Text, eq_text, eq_text_iff, All, All-at, All-of, In, get_or, arith,
  Bool-cases, if◌then◌else◌, ◌==◌,
}
use rif_relay_server.Outcome.{ok}
use rif_relay_server.TxManager.{World, settle_nonce, increment_nonce, bump, assign}
use rif_relay_server.TxManager.Nonces.{
  counter, Settled, settle_nonce-Settled, assign_self, assign_ne,
}

-- Where a task stands: outside the mutex, inside it before its poll, with the polled nonce, or past
-- the increment with the transaction that it signed.
pub data Phase : Type 0 where
  idle : Phase
  entered : Text → Phase
  polled committed : Text → ℕ → Phase

abbrev pub IsInside : Phase → Type 0
IsInside idle = ⊥
IsInside (entered a) = Unit
IsInside (polled a n) = Unit
IsInside (committed a n) = Unit

-- `issued` are the signers and nonces of the transactions signed so far, the last one first.
pub record System (Store : Type 0) : Type 0 where
  pub world : World Store
  pub phase : ℕ → Phase
  pub mutex : Option ℕ
  pub issued : List (Text × ℕ)

abbrev pub set_phase : (ℕ → Phase) → ℕ → Phase → ℕ → Phase
set_phase f i p j = if i == j then p else f j

-- No entry of the list occurs again further down.
abbrev pub Unique : List (Text × ℕ) → Type 0
Unique [] = Unit
Unique (e ∷ es) = All (λ f. e ≢ f) es × Unique es

module _ {Store : Type 0} where
  pub data Step (s : System Store) : System Store → Type 0 where
    acquire :
        (i : ℕ) (a : Text)
        → s.mutex ≡ none
        → s.phase i ≡ idle
        → Step s (record s { phase = set_phase s.phase i (entered a); mutex = some i })
    poll_inside :
        (i : ℕ) (a : Text) (answer n : ℕ) (v : World Store)
        → s.phase i ≡ entered a
        → settle_nonce a answer s.world ≡ (ok n, v)
        → Step s (record s { world = v; phase = set_phase s.phase i (polled a n) })
    commit :
        (i : ℕ) (a : Text) (n : ℕ)
        → s.phase i ≡ polled a n
        → Step s (record s {
          world = (increment_nonce a s.world).1;
          phase = set_phase s.phase i (committed a n);
          issued = (a, n) ∷ s.issued;
        })
    release :
        (i : ℕ)
        → IsInside (s.phase i)
        → Step s (record s { phase = set_phase s.phase i idle; mutex = none })
    poll_outside :
        (a : Text) (answer n : ℕ) (v : World Store)
        → settle_nonce a answer s.world ≡ (ok n, v)
        → Step s (record s { world = v })
    elsewhere : (v : World Store) → v.nonces ≡ s.world.nonces → Step s (record s { world = v })

  pub data Reach (s : System Store) : System Store → Type 0 where
    here : Reach s s
    next : {t u : System Store} → Reach s t → Step t u → Reach s u

  -- A polled nonce is above all that its signer has issued, and not above the signer's counter.
  pub record IsFresh (w : World Store) (issued : List (Text × ℕ)) (a : Text) (n : ℕ) : Type 0 where
    pub count : ℕ
    pub counted : w.nonces a ≡ some count
    pub bounded : n ≤ count
    pub above : (m : ℕ) → In (a, m) issued → m < n

  pub record IsSafe (s : System Store) : Type 0 where
    pub owns : (i : ℕ) → IsInside (s.phase i) → s.mutex ≡ some i
    pub fresh : (i : ℕ) (a : Text) (n : ℕ) → s.phase i ≡ polled a n → IsFresh s.world s.issued a n
    pub below : (a : Text) (m : ℕ) → In (a, m) s.issued → m < counter s.world a
    pub unique : Unique s.issued
