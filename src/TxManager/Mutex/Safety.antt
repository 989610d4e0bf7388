-- ===== src/TxManager/Mutex/Safety.antt =====
-- The nonces that are signed for a signer, by the interleaving.
use rif_relay_server.Base.{
  ℕ, ◌+◌, ◌≡◌, ◌≤◌, ◌<◌, ◌≢◌, ◌⊎◌, inl, inr, refl, sym, ap, ◌∙◌, subst, subst₂, none, some, List,
  [], ◌∷◌, Text, eq_text, eq_text_iff, All-of, In, get_or, arith, Bool-cases, Option-cases, ◌==◌,
}
use rif_relay_server.Outcome.{Outcome, ok}
use rif_relay_server.TxManager.{World, settle_nonce, increment_nonce, bump}
use rif_relay_server.TxManager.Nonces.{
  counter, Settled, settle_nonce-Settled, assign_self, assign_ne,
}
use rif_relay_server.TxManager.Mutex.{
  Phase, idle, entered, polled, committed, IsInside, System, set_phase, Step, acquire, poll_inside,
  commit, release, poll_outside, elsewhere, Reach, here, next, Unique, IsFresh, IsSafe,
}

set_phase-cases :
    (f : ℕ → Phase) (i : ℕ) (p : Phase) (j : ℕ)
    → ((i ≡ j) × (set_phase f i p j ≡ p)) ⊎ ((i ≢ j) × (set_phase f i p j ≡ f j))
set_phase-cases f i p j = elim (Bool-cases (i == j)) [
  | inl e ↦ inl (ground arith, rw e refl)
  | inr e ↦ inr (ground arith, rw e refl)
]

module _ {Store : Type 0} where
  -- The counters only grow.
  abbrev Grows : World Store → World Store → Type 0
  Grows w v = (a : Text) (c : ℕ) → w.nonces a ≡ some c → (d : ℕ) × (v.nonces a ≡ some d) × (c ≤ d)

  counter_of :
      (w : World Store) (a : Text) (m : ℕ)
      → m < counter w a
      → (c : ℕ) × (w.nonces a ≡ some c) × (m < c)
  counter_of w a m h = elim (Option-cases (w.nonces a)) [
    | inl e ↦ absurd (ground arith)
    | inr (c, e) ↦ (c, e, ground arith)
  ]

  lt_counter :
      (w : World Store) (a : Text) (m c : ℕ) → w.nonces a ≡ some c → m < c → m < counter w a
  lt_counter w a m c e h = ground arith

  Settled-Grows : (a : Text) (answer n : ℕ) (w v : World Store) → Settled a answer w v n → Grows w v
  Settled-Grows a answer n w v settled b c e = elim (Bool-cases (eq_text b a)) [
    | inl same ↦
        let q : b ≡ a = (eq_text_iff b a).0 same in
        let here_counted : counter w a ≡ c = ap (λ o. get_or o 0) (rw q at e) in
        (n, rw q settled.now, rw (← here_counted) settled.counter_le)
    | inr differs ↦ (
      c,
      settled.others b (λ q. let f = sym differs ∙ (eq_text_iff b a).1 q in cc) ∙ e,
      omega arith,
    )
  ]

  increment-Grows : (a : Text) (w : World Store) → Grows w (increment_nonce a w).1
  increment-Grows a w b c e = elim (Bool-cases (eq_text b a)) [
    | inl same ↦
        let q : b ≡ a = (eq_text_iff b a).0 same in
        (c + 1, rw q (assign_self w.nonces a _ ∙ ap bump (rw q at e)), omega arith)
    | inr differs ↦ (
      c,
      assign_ne w.nonces a _ b (λ q. let f = sym differs ∙ (eq_text_iff b a).1 q in cc) ∙ e,
      omega arith,
    )
  ]

  Settled-of :
      (a : Text) (answer n : ℕ) (w v : World Store)
      → settle_nonce a answer w ≡ (ok n, v)
      → Settled a answer w v n
  Settled-of a answer n w v ran =
      let (m, u, e, settled) = settle_nonce-Settled a answer w in
      let q : ◌≡◌ {A = Outcome ℕ × World Store} (ok m, u) (ok n, v) = sym e ∙ ran in
      let same : m ≡ n = cc in subst₂ (Settled a answer w) (ap (λ r. r.1) q) same settled

  -- The owner of the mutex is the one task inside it.
  one_inside :
      (s : System Store) (i j : ℕ) → IsSafe s → IsInside (s.phase i) → IsInside (s.phase j) → i ≡ j
  one_inside s i j h p q = let e = sym (h.owns i p) ∙ h.owns j q in cc

  below-Grows :
      (s : System Store) (v : World Store)
      → IsSafe s
      → Grows s.world v
      → (a : Text) (m : ℕ) → In (a, m) s.issued
      → m < counter v a
  below-Grows s v h g a m k =
      let (c, e, lt) = counter_of s.world a m (h.below a m k) in
      let (d, f, le) = g a c e in lt_counter v a m d f (omega arith)

  IsFresh-Grows :
      (w v : World Store) (issued : List (Text × ℕ)) (a : Text) (n : ℕ)
      → Grows w v
      → IsFresh w issued a n
      → IsFresh v issued a n
  IsFresh-Grows w v issued a n g h =
      let (d, f, le) = g a h.count h.counted in
      record { count = d; counted = f; bounded = omega (arith, h.bounded); above = h.above }

  world-IsSafe :
      (s : System Store) (v : World Store)
      → IsSafe s
      → Grows s.world v
      → IsSafe (record s { world = v })
  world-IsSafe s v h g = record {
    owns = h.owns;
    fresh = λ i a n e. IsFresh-Grows s.world v s.issued a n g (h.fresh i a n e);
    below = below-Grows s v h g;
    unique = h.unique;
  }

  acquire-IsSafe :
      (s : System Store) (i : ℕ) (a : Text)
      → IsSafe s
      → s.mutex ≡ none
      → IsSafe (record s { phase = set_phase s.phase i (entered a); mutex = some i })
  acquire-IsSafe s i a h free = record {
    owns = λ j p. elim (set_phase-cases s.phase i (entered a) j) [
      | inl (e, _) ↦ ap some e
      | inr (_, e) ↦ let f = sym free ∙ h.owns j (rw e at p) in cc
    ];
    fresh = λ j b n p. elim (set_phase-cases s.phase i (entered a) j) [
      | inl (_, e) ↦ let f = sym e ∙ p in cc
      | inr (_, e) ↦ h.fresh j b n (sym e ∙ p)
    ];
    below = h.below;
    unique = h.unique;
  }

  release-IsSafe :
      (s : System Store) (i : ℕ)
      → IsSafe s
      → IsInside (s.phase i)
      → IsSafe (record s { phase = set_phase s.phase i idle; mutex = none })
  release-IsSafe s i h inside = record {
    owns = λ j p. elim (set_phase-cases s.phase i idle j) [
      | inl (_, e) ↦ absurd (rw e at p)
      | inr (ne, e) ↦ absurd (ne (one_inside s i j h inside (rw e at p)))
    ];
    fresh = λ j b n p. elim (set_phase-cases s.phase i idle j) [
      | inl (_, e) ↦ let f = sym e ∙ p in cc
      | inr (_, e) ↦ h.fresh j b n (sym e ∙ p)
    ];
    below = h.below;
    unique = h.unique;
  }

  -- A task that moves inside the mutex.
  move_owns :
      (s : System Store) (i : ℕ) (p : Phase)
      → IsSafe s
      → IsInside (s.phase i)
      → (j : ℕ) → IsInside (set_phase s.phase i p j)
      → s.mutex ≡ some j
  move_owns s i p h inside j q = elim (set_phase-cases s.phase i p j) [
    | inl (same, _) ↦ rw (← same) (h.owns i inside)
    | inr (_, e) ↦ h.owns j (rw e at q)
  ]

  Settled-IsFresh :
      (s : System Store) (a : Text) (answer n : ℕ) (v : World Store)
      → IsSafe s
      → Settled a answer s.world v n
      → IsFresh v s.issued a n
  Settled-IsFresh s a answer n v h settled = record {
    count = n;
    counted = settled.now;
    bounded = omega arith;
    above = λ m k. omega (arith, h.below a m k, settled.counter_le);
  }

  poll_inside-IsSafe :
      (s : System Store) (i : ℕ) (a : Text) (answer n : ℕ) (v : World Store)
      → IsSafe s
      → s.phase i ≡ entered a
      → Settled a answer s.world v n
      → IsSafe (record s { world = v; phase = set_phase s.phase i (polled a n) })
  poll_inside-IsSafe s i a answer n v h at settled =
      let g = Settled-Grows a answer n s.world v settled in
      record {
        owns = move_owns s i (polled a n) h (rw at tt);
        fresh = λ j b m p. elim (set_phase-cases s.phase i (polled a n) j) [
          | inl (_, e) ↦
              let q : polled a n ≡ polled b m = sym e ∙ p in
              let same_signer : a ≡ b = cc in
              let same_nonce : n ≡ m = cc in
              subst₂ (IsFresh v s.issued) same_signer same_nonce
                (Settled-IsFresh s a answer n v h settled)
          | inr (_, e) ↦ IsFresh-Grows s.world v s.issued b m g (h.fresh j b m (sym e ∙ p))
        ];
        below = below-Grows s v h g;
        unique = h.unique;
      }

  commit_below :
      (s : System Store) (a : Text) (n : ℕ)
      → IsSafe s
      → IsFresh s.world s.issued a n
      → (b : Text) (m : ℕ) → In (b, m) ((a, n) ∷ s.issued)
      → m < counter (increment_nonce a s.world).1 b
  commit_below s a n h f b m (inl q) =
      let bumped = assign_self s.world.nonces a _ ∙ ap bump f.counted in
      subst (λ (e : Text × ℕ). e.1 < counter (increment_nonce a s.world).1 e.0) (sym q)
        (lt_counter (increment_nonce a s.world).1 a n (f.count + 1) bumped
          (omega (arith, f.bounded)))
  commit_below s a n h f b m (inr k) =
      below-Grows s (increment_nonce a s.world).1 h (increment-Grows a s.world) b m k

  commit-IsSafe :
      (s : System Store) (i : ℕ) (a : Text) (n : ℕ)
      → IsSafe s
      → s.phase i ≡ polled a n
      → IsSafe (record s {
        world = (increment_nonce a s.world).1;
        phase = set_phase s.phase i (committed a n);
        issued = (a, n) ∷ s.issued;
      })
  commit-IsSafe s i a n h at =
      let inside : IsInside (s.phase i) = rw at tt in
      let f = h.fresh i a n at in
      let g = increment-Grows a s.world in
      record {
        owns = move_owns s i (committed a n) h inside;
        fresh = λ j b m p. elim (set_phase-cases s.phase i (committed a n) j) [
          | inl (_, e) ↦ let k = sym e ∙ p in cc
          | inr (ne, e) ↦ absurd (ne (one_inside s i j h inside (rw (sym e ∙ p) tt)))
        ];
        below = commit_below s a n h f;
        unique = (
          All-of _ s.issued (λ entry k q.
              let n_lt : n < n = f.above n (subst (λ x. In x s.issued) (sym q) k) in
              absurd (omega arith)),
          h.unique,
        );
      }

  Step-IsSafe : (s t : System Store) → Step s t → IsSafe s → IsSafe t
  Step-IsSafe s t (acquire i a free at) h = acquire-IsSafe s i a h free
  Step-IsSafe s t (poll_inside i a answer n v at ran) h =
      poll_inside-IsSafe s i a answer n v h at (Settled-of a answer n s.world v ran)
  Step-IsSafe s t (commit i a n at) h = commit-IsSafe s i a n h at
  Step-IsSafe s t (release i inside) h = release-IsSafe s i h inside
  Step-IsSafe s t (poll_outside a answer n v ran) h =
      world-IsSafe s v h (Settled-Grows a answer n s.world v (Settled-of a answer n s.world v ran))
  Step-IsSafe s t (elsewhere v same) h =
      world-IsSafe s v h (λ a c e. (c, ap (λ f. f a) same ∙ e, omega arith))

  Reach-IsSafe : (s t : System Store) → IsSafe s → Reach s t → IsSafe t
  Reach-IsSafe s t h here = h
  Reach-IsSafe s t h (next {t = u} r step) = Step-IsSafe u t step (Reach-IsSafe s u h r)

  -- From a state with every task idle, the mutex free and nothing issued, no interleaving signs two
  -- transactions with the same signer and nonce.
  pub Reach-Unique :
      (s t : System Store)
      → ((i : ℕ) → s.phase i ≡ idle)
      → s.issued ≡ []
      → Reach s t
      → Unique t.issued
  Reach-Unique s t all_idle nothing r =
      let start : IsSafe s = record {
        owns = λ i p. absurd (rw all_idle at p);
        fresh = λ i a n p. let f = sym (all_idle i) ∙ p in cc;
        below = λ a m k. absurd (rw nothing at k);
        unique = rw nothing tt;
      } in
      (Reach-IsSafe s t start r).unique
