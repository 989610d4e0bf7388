-- ===== src/Server/Queries/Verifiers.antt =====
-- The answers of `tokenHandler` of src/RelayServer.ts, by those of the verifiers' contracts.
use rif_relay_server.Base.{
  ℕ, ◌+◌, ◌≡◌, refl, sym, ap, ◌∙◌, inl, inr, Option, some, List, [], ◌∷◌, Text, In, eq_text,
  eq_text_iff, Bool-cases, get_or,
}
use rif_relay_server.Outcome.{ok, invalid_address, or_throw, bind_of_ok}
use rif_relay_server.TxManager.{World}
use rif_relay_server.Fees.{call_optional}
use rif_relay_server.Server.{Server, ServerContext}
use rif_relay_server.Server.Requests.{query_verifiers}
use rif_relay_server.Server.Relay.Steps.{with_world}
use rif_relay_server.Server.Queries.{
  HandlerResponse, VerifierContracts, assign_entry, get_accepted, accepted_of, query_each,
  query_accepted, token_handler,
}

-- The address is a key of the response.
abbrev pub HasKey : Text → HandlerResponse → Type 0
HasKey k res = (accepted : List Text) × In (k, accepted) res

assign_entry-HasKey :
    (k : Text) (accepted : List Text) (res : HandlerResponse)
    → HasKey k (assign_entry k accepted res)
assign_entry-HasKey k accepted [] = (accepted, inl refl)
assign_entry-HasKey k accepted ((j, old) ∷ es) = elim (Bool-cases (eq_text j k)) [
  | inl e ↦ rw e (accepted, inl (ap (λ t. (t, accepted)) (sym ((eq_text_iff j k).0 e))))
  | inr e ↦ let (v, m) = assign_entry-HasKey k accepted es in rw e (v, inr m)
]

assign_entry-keeps :
    (k j : Text) (accepted : List Text) (res : HandlerResponse)
    → HasKey j res
    → HasKey j (assign_entry k accepted res)
assign_entry-keeps k j accepted [] (v, m) = elim m [ ]
assign_entry-keeps k j accepted ((i, old) ∷ es) (v, m) = elim (Bool-cases (eq_text i k)) [
  | inl e ↦ rw e (elim m [
    | inl same ↦ (accepted, inl (ap (λ p. (p.0, accepted)) same))
    | inr rest ↦ (v, inr rest)
  ])
  | inr e ↦ rw e (elim m [
    | inl same ↦ (v, inl same)
    | inr rest ↦ let (u, n) = assign_entry-keeps k j accepted es (v, rest) in (u, inr n)
  ])
]

module _ {Store : Type 0} (c : ServerContext Store) (ask : ℕ → Text → Option (List Text)) where
  -- The verifiers have checksum addresses, and these are keys of the response.
  abbrev pub AreKeys : List Text → HandlerResponse → Type 0
  AreKeys vs res =
      (v : Text) → In v vs → (k : Text) × (c.base.get_address v ≡ some k) × HasKey k res

  accepted_of_lem :
      (vs : List Text) (before : HandlerResponse) (w : World Store)
      → ((v : Text) → In v vs → (k : Text) × (c.base.get_address v ≡ some k))
      → (res : HandlerResponse) × (u : World Store) × (accepted_of c ask vs before w ≡ (ok res, u))
        × AreKeys vs res
        × ((k : Text) → HasKey k before → HasKey k res)
  unfolding accepted_of call_optional
  accepted_of_lem [] before w addressed = (before, w, refl, (λ v m. elim m [ ]), λ k h. h)
  accepted_of_lem (v ∷ vs) before w addressed =
      let (k, known) = addressed v (inl refl) in
      let accepted = get_or (ask w.calls v) [] in
      let (res, u, ran, keys, kept) =
        accepted_of_lem vs (assign_entry k accepted before) (record w { calls = w.calls + 1 })
          (λ x m. addressed x (inr m)) in
      let checked =
        bind_of_ok (or_throw (c.base.get_address v) invalid_address) _ w (rw known refl) in
      let answered = bind_of_ok (get_accepted c ask v) _ w refl in
      (
        res,
        u,
        checked ∙ answered ∙ ran,
        (λ x m. elim m [
          | inl same ↦ rw same (k, known, kept k (assign_entry-HasKey k accepted before))
          | inr rest ↦ keys x rest
        ]),
        λ j h. kept j (assign_entry-keeps k j accepted before h),
      )

-- `tokenHandler` succeeds whatever the verifiers' contracts answer, if at all: for a verifier that is
-- trusted, or for all the trusted ones where none or an empty one is given, provided that the
-- verifiers asked for have checksum addresses. The response has an entry at each of these addresses,
-- and the calls of the contracts are all that changes the server's state.
pub token_handler_lem :
    {Store : Type 0} (c : ServerContext Store) (contracts : VerifierContracts)
    (verifier : Option Text) (s : Server Store) (vs : List Text)
    → query_verifiers verifier s.trusted_verifiers ≡ ok vs
    → ((v : Text) → In v vs → (k : Text) × (c.base.get_address v ≡ some k))
    → (res : HandlerResponse) × (w : World Store) × (token_handler c contracts verifier s
        ≡ (ok res, with_world s w))
      × AreKeys c contracts.accepted_tokens vs res
unfolding token_handler query_accepted
token_handler_lem c contracts verifier s vs asked addressed =
    let (res, u, ran, keys, _) =
      accepted_of_lem c contracts.accepted_tokens vs [] s.registration.world addressed in
    (
      res,
      u,
      ap (λ o. query_each c contracts.accepted_tokens o s) asked
          ∙ (λ i. ((ran i).0, with_world s (ran i).1)),
      keys,
    )
