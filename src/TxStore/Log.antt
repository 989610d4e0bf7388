-- ===== src/TxStore/Log.antt =====
-- A database that meets `Nedb`: an append-only log, in which the last write of a key counts.
use rif_relay_server.Base.{
  ◌≡◌, ◌≢◌, ◌⊎◌, inl, inr, refl, sym, ap, ◌∙◌, Bool, true, false, not, Option, none, some, List, [],
  ◌∷◌, In, find, filter, mem-filter, mem_of_filter, is_some, arith, Bool-cases, Option-cases,
  if◌then◌else◌,
}
use rif_relay_server.Stored.{
  NonceSigner, StoredTransaction, eq_key, eq_key_iff, has_key, has_key_iff,
}
use rif_relay_server.TxStore.{Nedb, keep_unless}

abbrev pub Log : Type 0
Log = List StoredTransaction

abbrev pub log_at : NonceSigner → Log → Option StoredTransaction
log_at k s = find (has_key k) s

abbrev pub log_insert : StoredTransaction → Log → Option Log
log_insert x s = elim x.nonce_signer [
  | none ↦ none
  | some k ↦ if is_some (log_at k s) then none else some (x ∷ s)
]

abbrev pub other_key : NonceSigner → StoredTransaction → Bool
other_key k x = not (has_key k x)

-- The last writes that pass a test.
abbrev pub keep : Bool → Option NonceSigner → StoredTransaction → Log → Log
keep b none x rest = rest
keep true (some k) x rest = x ∷ filter (other_key k) rest
keep false (some k) x rest = filter (other_key k) rest

abbrev pub latest : (StoredTransaction → Bool) → Log → Log
latest p [] = []
latest p (x ∷ s) = keep (p x) x.nonce_signer x (latest p s)

log_at-cons :
    (k j : NonceSigner) (x : StoredTransaction) (s : Log)
    → x.nonce_signer ≡ some k
    → log_at j (x ∷ s) ≡ (if eq_key k j then some x else log_at j s)
log_at-cons k j x s e = rw (e, has_key) refl

log_at-cons_none :
    (j : NonceSigner) (x : StoredTransaction) (s : Log)
    → x.nonce_signer ≡ none
    → log_at j (x ∷ s) ≡ log_at j s
log_at-cons_none j x s e = rw (e, has_key) refl

pub log_at-key :
    (k : NonceSigner) (s : Log) {x : StoredTransaction}
    → log_at k s ≡ some x
    → x.nonce_signer ≡ some k
log_at-key k [] e = cc
log_at-key k (y ∷ s) {x} e = elim (Bool-cases (has_key k y)) [
  | inl h ↦ let same : y ≡ x = ground arith in rw (← same) ((has_key_iff k y).0 h)
  | inr h ↦ log_at-key k s {x = x} (ground arith)
]

log_at-filter :
    (k j : NonceSigner) (s : Log)
    → log_at j (filter (other_key k) s) ≡ (if eq_key k j then none else log_at j s)
log_at-filter k j [] = ground arith
log_at-filter k j (x ∷ s) =
    ground (arith, log_at-filter k j s, has_key_iff k x, has_key_iff j x, eq_key_iff k j)

log_at-keep :
    (b : Bool) (o : Option NonceSigner) (x : StoredTransaction) (s rest : Log) (j : NonceSigner)
    (p : StoredTransaction → Bool)
    → x.nonce_signer ≡ o
    → b ≡ not (p x)
    → log_at j rest ≡ keep_unless p (log_at j s)
    → log_at j (keep b o x rest) ≡ keep_unless p (log_at j (x ∷ s))
log_at-keep b none x s rest j p e f h = rw (log_at-cons_none j x s e) h
log_at-keep true (some k) x s rest j p e f h =
    let split : (if eq_key k j then some x else (if eq_key k j then none else log_at j rest))
        ≡ keep_unless p (if eq_key k j then some x else log_at j s) =
      ground arith in
    log_at-cons k j x (filter (other_key k) rest) e
    ∙ ap (λ o. if eq_key k j then some x else o) (log_at-filter k j rest)
    ∙ split
    ∙ ap (keep_unless p) (sym (log_at-cons k j x s e))
log_at-keep false (some k) x s rest j p e f h =
    let split : (if eq_key k j then none else log_at j rest)
        ≡ keep_unless p (if eq_key k j then some x else log_at j s) =
      ground arith in
    log_at-filter k j rest ∙ split ∙ ap (keep_unless p) (sym (log_at-cons k j x s e))

log_at-latest :
    (p : StoredTransaction → Bool) (s : Log) (j : NonceSigner)
    → log_at j (latest (λ y. not (p y)) s) ≡ keep_unless p (log_at j s)
log_at-latest p [] j = refl
log_at-latest p (x ∷ s) j =
    log_at-keep (not (p x)) x.nonce_signer x s (latest (λ y. not (p y)) s) j p refl refl
      (log_at-latest p s j)

mem-keep :
    (b : Bool) (o : Option NonceSigner) (x y : StoredTransaction) (rest : Log)
    → x.nonce_signer ≡ o
    → In y (keep b o x rest)
    → ((y ≡ x) × (b ≡ true) × ((k : NonceSigner) × (o ≡ some k)))
      ⊎ (In y rest × ((k : NonceSigner) → o ≡ some k → has_key k y ≡ false))
mem-keep b none x y rest e m = inr (m, λ k f. cc)
mem-keep true (some k) x y rest e (inl q) = inl (q, refl, (k, refl))
mem-keep true (some k) x y rest e (inr m) =
    let (n, q) = mem-filter (other_key k) rest y m in
    inr (n, λ j f. let same : k ≡ j = cc in rw (← same) (ground arith))
mem-keep false (some k) x y rest e m =
    let (n, q) = mem-filter (other_key k) rest y m in
    inr (n, λ j f. let same : k ≡ j = cc in rw (← same) (ground arith))

log_at_self :
    (k : NonceSigner) (x : StoredTransaction) (s : Log)
    → x.nonce_signer ≡ some k
    → log_at k (x ∷ s) ≡ some x
log_at_self k x s e = log_at-cons k k x s e ∙ rw ((eq_key_iff k k).1 refl) refl

pub latest_sound :
    (p : StoredTransaction → Bool) (s : Log) (y : StoredTransaction)
    → In y (latest p s)
    → (p y ≡ true) × ((k : NonceSigner) × (log_at k s ≡ some y))
latest_sound p [] y m = absurd m
latest_sound p (x ∷ s) y m = elim (mem-keep (p x) x.nonce_signer x y (latest p s) refl m) [
  | inl (q, passes, (k, e)) ↦ (rw q passes, (k, rw q (log_at_self k x s e)))
  | inr (n, differs) ↦
      let (passes, (k, at)) = latest_sound p s y n in
      (
        passes,
        (
          k,
          elim (Bool-cases (has_key k x)) [
            | inl h ↦
                let no_match = differs k ((has_key_iff k x).0 h) in
                let is_match = (has_key_iff k y).1 (log_at-key k s at) in cc
            | inr h ↦ rw h at
          ],
        ),
      )
]

mem_of_keep_head :
    (b : Bool) (o : Option NonceSigner) (k : NonceSigner) (x y : StoredTransaction) (rest : Log)
    → b ≡ true
    → o ≡ some k
    → y ≡ x
    → In y (keep b o x rest)
mem_of_keep_head true (some j) k x y rest e f q = inl q
mem_of_keep_head true none k x y rest e f q = cc
mem_of_keep_head false o k x y rest e f q = cc

mem_of_keep_rest :
    (b : Bool) (o : Option NonceSigner) (x y : StoredTransaction) (rest : Log)
    → In y rest
    → ((j : NonceSigner) → o ≡ some j → has_key j y ≡ false)
    → In y (keep b o x rest)
mem_of_keep_rest b none x y rest m h = m
mem_of_keep_rest true (some j) x y rest m h =
    inr (mem_of_filter (other_key j) rest y m (rw (h j refl) refl))
mem_of_keep_rest false (some j) x y rest m h =
    mem_of_filter (other_key j) rest y m (rw (h j refl) refl)

key_differs :
    (k j : NonceSigner) (x y : StoredTransaction)
    → has_key k x ≡ false
    → x.nonce_signer ≡ some j
    → y.nonce_signer ≡ some k
    → has_key j y ≡ false
key_differs k j x y q f g = elim (Bool-cases (has_key j y)) [
  | inr h ↦ h
  | inl h ↦
      let same : some k ≡ some j = sym g ∙ (has_key_iff j y).0 h in
      let contra = (has_key_iff k x).1 (f ∙ sym same) in cc
]

pub latest_complete :
    (p : StoredTransaction → Bool) (s : Log) (k : NonceSigner) (y : StoredTransaction)
    → log_at k s ≡ some y
    → p y ≡ true
    → In y (latest p s)
latest_complete p [] k y e h = cc
latest_complete p (x ∷ s) k y e h = elim (Bool-cases (has_key k x)) [
  | inl q ↦
      let same : y ≡ x = ground arith in
      mem_of_keep_head (p x) x.nonce_signer k x y (latest p s) (rw (← same) h)
        ((has_key_iff k x).0 q) same
  | inr q ↦
      let at : log_at k s ≡ some y = ground arith in
      mem_of_keep_rest (p x) x.nonce_signer x y (latest p s) (latest_complete p s k y at h)
        (λ j f. key_differs k j x y q f (log_at-key k s at))
]

pub log_insert_free :
    (x : StoredTransaction) (k : NonceSigner) (s : Log)
    → x.nonce_signer ≡ some k
    → log_at k s ≡ none
    → log_insert x s ≡ some (x ∷ s)
log_insert_free x k s f free = rw (f, free) refl

pub log_insert_unique :
    (x : StoredTransaction) (k : NonceSigner) (s : Log)
    → x.nonce_signer ≡ some k
    → log_at k s ≢ none
    → log_insert x s ≡ none
log_insert_unique x k s f taken = elim (Option-cases (log_at k s)) [
  | inl free ↦ absurd (taken free)
  | inr (old, e) ↦ rw (f, e) refl
]

pub log_insert-at :
    (x : StoredTransaction) (k : NonceSigner) (s t : Log) (j : NonceSigner)
    → log_insert x s ≡ some t
    → x.nonce_signer ≡ some k
    → log_at j t ≡ (if eq_key k j then some x else log_at j s)
log_insert-at x k s t j e f = elim (Option-cases (log_at k s)) [
  | inl free ↦
      let same : x ∷ s ≡ t = let f' = sym (log_insert_free x k s f free) ∙ e in cc in
      rw (← same) (log_at-cons k j x s f)
  | inr (old, taken) ↦
      let f' = sym (log_insert_unique x k s f (λ g. let h = sym taken ∙ g in cc)) ∙ e in cc
]

pub log_update-at :
    (old x : StoredTransaction) (k : NonceSigner) (s t : Log) (j : NonceSigner)
    → log_at k s ≡ some old
    → x.nonce_signer ≡ some k
    → some (x ∷ s) ≡ some t
    → log_at j t ≡ (if eq_key k j then some x else log_at j s)
log_update-at old x k s t j e f g = let same : x ∷ s ≡ t = cc in rw (← same) (log_at-cons k j x s f)

pub log_remove-at :
    (p : StoredTransaction → Bool) (s t : Log) (j : NonceSigner)
    → some (latest (λ y. not (p y)) s) ≡ some t
    → log_at j t ≡ keep_unless p (log_at j s)
log_remove-at p s t j e =
    let same : latest (λ y. not (p y)) s ≡ t = cc in rw (← same) (log_at-latest p s j)

-- The log as a database.
abbrev pub log_db : Nedb Log
log_db = record {
  at = log_at;
  find_one = find;
  find_all = latest;
  insert = log_insert;
  update = λ id x s. some (x ∷ s);
  remove = λ p s. some (latest (λ y. not (p y)) s);
  at_key = λ k s e. log_at-key k s e;
  find_one_at = λ k s. refl;
  find_all_sound = latest_sound;
  find_all_complete = latest_complete;
  insert_at = log_insert-at;
  insert_unique = log_insert_unique;
  update_at = log_update-at;
  remove_at = log_remove-at;
}
