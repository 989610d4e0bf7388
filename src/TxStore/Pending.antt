-- ===== src/TxStore/Pending.antt =====
-- `isActionPending` and the documents of the store.
use rif_relay_server.Base.{
  ◌≡◌, refl, Bool, true, false, Option, none, some, arith, Text, inl, inr, ◌↔◌, In, List, [], ◌∷◌,
}
use rif_relay_server.Stored.{NonceSigner, StoredTransaction, ServerAction, eq_action_iff}
use rif_relay_server.Outcome.{Outcome, ok, err}
use rif_relay_server.TxStore.{Nedb, get_all, goes_to, is_pending, any_pending, is_action_pending}
use rif_relay_server.TxStore.Queries.{mem-get_all}

module _ (get_address : Text → Option Text) where
  any_pending-true :
      (a : ServerAction) (d : Option Text) (xs : List StoredTransaction)
      → any_pending get_address a d xs ≡ ok true
      → (x : StoredTransaction) × In x xs × (is_pending get_address a d x ≡ ok true)
  unfolding any_pending
  any_pending-true a d [] e = cc
  any_pending-true a d (x ∷ xs) e =
      go (is_pending get_address a d x) refl e (any_pending-true a d xs)
    where
      go :
          (o : Outcome Bool)
          → is_pending get_address a d x ≡ o
          → (elim o [
            | err f ↦ err f
            | ok true ↦ ok true
            | ok false ↦ any_pending get_address a d xs
          ])
            ≡ ok true
          → (any_pending get_address a d xs ≡ ok true
              → (y : StoredTransaction) × In y xs × (is_pending get_address a d y ≡ ok true))
          → (y : StoredTransaction) × In y (x ∷ xs) × (is_pending get_address a d y ≡ ok true)
      go (ok true) k f ih = (x, inl refl, k)
      go (ok false) k f ih = let (y, m, h) = ih f in (y, inr m, h)
      go (err z) k f ih = cc

  any_pending-false :
      (a : ServerAction) (d : Option Text) (xs : List StoredTransaction)
      → any_pending get_address a d xs ≡ ok false
      → (x : StoredTransaction) → In x xs
      → is_pending get_address a d x ≡ ok false
  unfolding any_pending
  any_pending-false a d [] e x m = elim m [ ]
  any_pending-false a d (y ∷ ys) e x m =
      go (is_pending get_address a d y) refl e (any_pending-false a d ys) m
    where
      go :
          (o : Outcome Bool)
          → is_pending get_address a d y ≡ o
          → (elim o [
            | err f ↦ err f
            | ok true ↦ ok true
            | ok false ↦ any_pending get_address a d ys
          ])
            ≡ ok false
          → (any_pending get_address a d ys ≡ ok false
              → (z : StoredTransaction) → In z ys
              → is_pending get_address a d z ≡ ok false)
          → In x (y ∷ ys)
          → is_pending get_address a d x ≡ ok false
      go (ok true) k f ih m = cc
      go (ok false) k f ih (inl h) = rw h k
      go (ok false) k f ih (inr h) = ih f x h
      go (err z) k f ih m = cc

  -- A document counts: it was never seen mined, it does `a`, and it goes to the destination, if
  -- one is asked for.
  pub record IsPending (a : ServerAction) (d : Option Text) (x : StoredTransaction) : Type 0 where
    pub unmined : x.mined_block_number ≡ none
    pub action : x.server_action ≡ a
    pub destination : goes_to get_address d x.to ≡ ok true

  IsPending-of :
      (a : ServerAction) (d : Option Text) (x : StoredTransaction)
      → is_pending get_address a d x ≡ ok true
      → IsPending a d x
  unfolding is_pending
  IsPending-of a d x e = record {
    unmined = ground arith;
    action = (eq_action_iff x.server_action a).0 (ground arith);
    destination = ground arith;
  }

  is_pending_of :
      (a : ServerAction) (d : Option Text) (x : StoredTransaction)
      → IsPending a d x
      → is_pending get_address a d x ≡ ok true
  unfolding is_pending
  is_pending_of a d x h = rw (h.unmined, (eq_action_iff x.server_action a).1 h.action) h.destination

  module _ {Store : Type 0} (db : Nedb Store) where
    -- An answer of `isActionPending` is right: with `true` a document of the store is pending for
    -- the action and the destination, with `false` no document is.
    pub is_action_pending_lem :
        (a : ServerAction) (d : Option Text) (s : Store) (answer : Bool)
        → is_action_pending get_address db a d s ≡ ok answer
        → (answer ≡ true)
          ↔ ((k : NonceSigner) × (x : StoredTransaction) × (db.at k s ≡ some x) × IsPending a d x)
    unfolding is_action_pending
    is_action_pending_lem a d s true e = (
      λ _.
          let (x, m, h) = any_pending-true a d (get_all db s) e in
          let (k, stands) = (mem-get_all db x s).0 m in (k, x, stands, IsPending-of a d x h),
      λ _. refl,
    )
    is_action_pending_lem a d s false e = (
      λ f. cc,
      λ (k, x, stands, h).
          let none_pending =
            any_pending-false a d (get_all db s) e x ((mem-get_all db x s).1 (k, stands)) in
          let pending = is_pending_of a d x h in cc,
    )
