-- ===== src/Http/Replies.antt =====
-- The replies to remote calls.
use rif_relay_server.Base.{
  ℕ, zero, suc, ◌≡◌, ◌<◌, ◌↔◌, refl, ap, ◌∙◌, Option, none, some, List, [], ◌∷◌, Text, arith,
}
use rif_relay_server.Outcome.{Outcome, ok, err}
use rif_relay_server.Server.{Server}
use rif_relay_server.Server.Relay.{RelayContext}
use rif_relay_server.Http.{
  Param, RootHandlerRequestBody, WhitelistedRelayMethod, RpcValue, Reply, rpc_success,
  available_methods, find_method, call_of_body, reply_or, run_method, run_with,
  process_root_handler, root_reply, root_handler,
}

module _ {Store D : Type 0} (c : RelayContext Store D) where
  -- The fields of a body that make the call of a method, which returned.
  abbrev pub IsCalled :
      Option ℕ
      → Option Text
      → Option (List Param)
      → Server Store
      → ℕ
      → RpcValue
      → Server Store
      → Type 0
  IsCalled bid bname bparams s id v t =
      (0 < id)
      × (bid ≡ some id)
      × (name : Text) × (m : WhitelistedRelayMethod) × (ps : List Param) × (bname ≡ some name)
      × (find_method name available_methods ≡ some m)
      × (bparams ≡ some ps)
      × (run_method c m ps s ≡ (ok v, t))

  reply_or-success :
      (at id : ℕ) (r : Outcome RpcValue × Server Store) (v : RpcValue) (t : Server Store)
      → ◌≡◌ {A = Reply D × Server Store}
          (reply_or (rpc_success at) (Reply.rpc_error (some at)) r)
          (rpc_success id v, t)
      → (at ≡ id) × (r ≡ (ok v, t))
  reply_or-success at id (ok w, u) v t e =
      let f = ap (λ q. q.0) e in let same : w ≡ v = cc in (cc, λ i. (ok (same i), (e i).1))
  reply_or-success at id (err x, u) v t e = let f = ap (λ q. q.0) e in cc

  run_with-ok :
      (o : Option WhitelistedRelayMethod) (p : Option (List Param)) (s t : Server Store)
      (v : RpcValue)
      → run_with c o p s ≡ (ok v, t)
      → (m : WhitelistedRelayMethod) × (ps : List Param) × (o ≡ some m)
        × (p ≡ some ps)
        × (run_method c m ps s ≡ (ok v, t))
  run_with-ok none p s t v e = let f = ap (λ q. q.0) e in cc
  run_with-ok (some m) none s t v e = let f = ap (λ q. q.0) e in cc
  run_with-ok (some m) (some ps) s t v e = (m, ps, refl, refl, e)

  IsCalled-of :
      (bid : Option ℕ) (bname : Option Text) (bps : Option (List Param)) (s t : Server Store)
      (id : ℕ) (v : RpcValue)
      → root_reply c (call_of_body bid bname) bps s ≡ (rpc_success id v, t)
      → IsCalled bid bname bps s id v t
  unfolding process_root_handler
  IsCalled-of none bname bps s t id v e = let f = ap (λ q. q.0) e in cc
  IsCalled-of (some i) none bps s t id v e = let f = ap (λ q. q.0) e in cc
  IsCalled-of (some zero) (some n) bps s t id v e = let f = ap (λ q. q.0) e in cc
  IsCalled-of (some (suc i)) (some []) bps s t id v e = let f = ap (λ q. q.0) e in cc
  IsCalled-of (some (suc i)) (some (x ∷ xs)) bps s t id v e =
      let (same, ran) = reply_or-success (suc i) id (process_root_handler c (x ∷ xs) bps s) v t e in
      let (m, ps, found, given, returned) =
        run_with-ok (find_method (x ∷ xs) available_methods) bps s t v ran in
      (omega arith, ap some same, x ∷ xs, m, ps, refl, found, given, returned)

  called_lem :
      (id : ℕ) (name : Text) (m : WhitelistedRelayMethod) (ps : List Param) (s t : Server Store)
      (v : RpcValue)
      → 0 < id
      → find_method name available_methods ≡ some m
      → run_method c m ps s ≡ (ok v, t)
      → root_reply c (call_of_body (some id) (some name)) (some ps) s ≡ (rpc_success id v, t)
  unfolding process_root_handler
  called_lem zero name m ps s t v positive found ran = absurd (omega arith)
  called_lem (suc i) [] m ps s t v positive found ran = cc
  called_lem (suc i) (x ∷ xs) m ps s t v positive found ran =
      ap
        (λ o.
          reply_or (rpc_success (suc i)) (Reply.rpc_error (some (suc i)))
            (run_with c o (some ps) s))
        found
      ∙ ap (reply_or (rpc_success (suc i)) (Reply.rpc_error (some (suc i)))) ran

  -- A remote call has a result exactly if its body carries an id that is not 0, the name of one of
  -- the eight available methods, and a list of parameters, and that method returns the result on
  -- them: a body without parameters has no result, even for a method that takes none.
  pub root_handler_lem :
      (body : RootHandlerRequestBody) (s t : Server Store) (id : ℕ) (v : RpcValue)
      → (root_handler c body s ≡ (rpc_success id v, t))
        ↔ IsCalled body.id body.method body.params s id v t
  unfolding root_handler
  root_handler_lem body s t id v = (
    IsCalled-of body.id body.method body.params s t id v,
    λ (positive, has_id, name, m, ps, has_name, found, has_params, ran).
        rw (has_id, has_name, has_params) (called_lem id name m ps s t v positive found ran),
  )
