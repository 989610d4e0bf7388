-- ===== src/Server/Trust.antt =====
-- Which verifiers are trusted.
use rif_relay_server.Base.{
  ◌≡◌, ◌≢◌, ◌⊎◌, ◌↔◌, inl, inr, refl, sym, ◌∙◌, true, List, [], ◌∷◌, Text, eq_text, eq_text_iff,
  lower, In, mem-append, Bool-cases, subst,
}
use rif_relay_server.Server.{
  Server, ServerSettings, has, add, add_lowered, add_configured, init_trusted_verifiers,
  is_trusted_verifier,
}

has_iff : (a : Text) (s : List Text) → (has a s ≡ true) ↔ In a s
has_iff a [] = (λ h. cc, λ m. elim m [ ])
has_iff a (b ∷ bs) =
    let (to, from) = has_iff a bs in
    elim (Bool-cases (eq_text b a)) [
      | inl e ↦ (λ _. inl (sym ((eq_text_iff b a).0 e)), λ _. rw e refl)
      | inr e ↦ (
        λ h. inr (to (rw e at h)),
        λ m. elim m [
          | inl same ↦ let k = sym e ∙ (eq_text_iff b a).1 (sym same) in cc
          | inr k ↦ rw e (from k)
        ],
      )
    ]

mem-add : (x a : Text) (s : List Text) → In x (add a s) ↔ ((x ≡ a) ⊎ In x s)
mem-add x a s = elim (Bool-cases (has a s)) [
  | inl e ↦ rw e (λ m. inr m, λ m. elim m [ inl same ↦ rw same ((has_iff a s).0 e) | inr k ↦ k ])
  | inr e ↦
      let (to, from) = mem-append s (a ∷ []) x in
      rw e (
        λ m. elim (to m) [
          | inl k ↦ inr k
          | inr k ↦ elim k [ inl same ↦ inl same | inr l ↦ elim l [ ] ]
        ],
        λ m. elim m [ inl same ↦ from (inr (inl same)) | inr k ↦ from (inl k) ],
      )
]

mem-add_lowered :
    (x : Text) (vs s : List Text)
    → In x (add_lowered vs s) ↔ (((v : Text) × In v vs × (x ≡ lower v)) ⊎ In x s)
mem-add_lowered x [] s = (λ m. inr m, λ m. elim m [ inl (v, k, e) ↦ elim k [ ] | inr k ↦ k ])
mem-add_lowered x (v ∷ vs) s =
    let (to, from) = mem-add_lowered x vs (add (lower v) s) in
    let (split, join) = mem-add x (lower v) s in
    (
      λ m. elim (to m) [
        | inl (u, k, e) ↦ inl (u, inr k, e)
        | inr k ↦ elim (split k) [ inl e ↦ inl (v, inl refl, e) | inr l ↦ inr l ]
      ],
      λ m. elim m [
        | inl (u, k, e) ↦ elim k [
          | inl same ↦ from (inr (join (inl (subst (λ w. x ≡ lower w) same e))))
          | inr l ↦ from (inl (u, l, e))
        ]
        | inr k ↦ from (inr (join (inr k)))
      ],
    )

mem-add_configured :
    (x zero address : Text) (s : List Text)
    → In x (add_configured zero address s) ↔ (((address ≢ zero) × (x ≡ lower address)) ⊎ In x s)
mem-add_configured x zero address s = elim (Bool-cases (eq_text address zero)) [
  | inl e ↦ rw e (
    λ m. inr m,
    λ m. elim m [ inl (ne, same) ↦ absurd (ne ((eq_text_iff address zero).0 e)) | inr k ↦ k ],
  )
  | inr e ↦
      let ne : address ≢ zero = λ q. (let k = sym e ∙ (eq_text_iff address zero).1 q in cc) in
      let (to, from) = mem-append s (lower address ∷ []) x in
      elim (Bool-cases (has (lower address) s)) [
        | inl known ↦
            rw (e, known)
              (
                λ m. inr m,
                λ m. elim m [
                  | inl (_, same) ↦ rw same ((has_iff (lower address) s).0 known)
                  | inr k ↦ k
                ],
              )
        | inr unknown ↦
            rw (e, unknown)
              (
                λ m. elim (to m) [
                  | inl k ↦ inr k
                  | inr k ↦ elim k [ inl same ↦ inl (ne, same) | inr l ↦ elim l [ ] ]
                ],
                λ m. elim m [ inl (_, same) ↦ from (inr (inl same)) | inr k ↦ from (inl k) ],
              )
      ]
]

-- The address is configured, up to case: as a trusted verifier, or as one of the two verifiers of
-- the server, unless that is the zero address.
abbrev pub IsConfigured : ServerSettings → Text → Type 0
IsConfigured c a =
    ((c.deploy_verifier_address ≢ c.address_zero) × (a ≡ lower c.deploy_verifier_address))
    ⊎ (((c.relay_verifier_address ≢ c.address_zero) × (a ≡ lower c.relay_verifier_address))
        ⊎ ((v : Text) × In v c.trusted_verifiers × (a ≡ lower v)))

mem-init_trusted_verifiers :
    (c : ServerSettings) (a : Text) → In a (init_trusted_verifiers c) ↔ IsConfigured c a
unfolding init_trusted_verifiers
mem-init_trusted_verifiers c a =
    let listed = add_lowered c.trusted_verifiers [] in
    let (to0, from0) = mem-add_lowered a c.trusted_verifiers [] in
    let (to1, from1) = mem-add_configured a c.address_zero c.relay_verifier_address listed in
    let (to2, from2) =
      mem-add_configured a c.address_zero c.deploy_verifier_address
        (add_configured c.address_zero c.relay_verifier_address listed) in
    (
      λ m. elim (to2 m) [
        | inl h ↦ inl h
        | inr k ↦ elim (to1 k) [
          | inl h ↦ inr (inl h)
          | inr l ↦ elim (to0 l) [ inl h ↦ inr (inr h) | inr n ↦ elim n [ ] ]
        ]
      ],
      λ m. elim m [
        | inl h ↦ from2 (inl h)
        | inr k ↦ elim k [
          | inl h ↦ from2 (inr (from1 (inl h)))
          | inr h ↦ from2 (inr (from1 (inr (from0 (inl h)))))
        ]
      ],
    )

-- Once the trusted verifiers are initialized from the settings, a verifier is trusted exactly if it
-- is configured, whatever the case it is written in: in the list of trusted verifiers, or as the
-- relay or the deploy verifier, unless that is the zero address.
pub is_trusted_verifier_lem :
    {Store : Type 0} (c : ServerSettings) (s : Server Store) (verifier : Text)
    → s.trusted_verifiers ≡ init_trusted_verifiers c
    → (is_trusted_verifier s verifier ≡ true) ↔ IsConfigured c (lower verifier)
unfolding is_trusted_verifier
is_trusted_verifier_lem c s verifier e =
    let (to, from) = has_iff (lower verifier) s.trusted_verifiers in
    let (split, join) = mem-init_trusted_verifiers c (lower verifier) in
    (
      λ h. split (subst (λ l. In (lower verifier) l) e (to h)),
      λ h. from (subst (λ l. In (lower verifier) l) (sym e) (join h)),
    )
