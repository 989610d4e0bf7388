-- ===== src/Keys/Addresses.antt =====
-- Which addresses a key manager signs for.
use rif_relay_server.Base.{
  ℕ, zero, suc, ◌+◌, ◌≡◌, ◌≤◌, ◌<◌, ◌≢◌, ◌⊎◌, ◌↔◌, inl, inr, refl, sym, ap, ◌∙◌, true, false, some,
  [], ◌∷◌, Text, eq_text, eq_text_iff, arith, Bool-cases,
}
use rif_relay_server.Keys.{Keys, key_for, assign_key, generate_from, generate_keys, is_signer}

ne_of_false : (a b : Text) → eq_text a b ≡ false → a ≢ b
ne_of_false a b h q = let k = sym h ∙ (eq_text_iff a b).1 q in cc

key_for-assign_key :
    (a key b : Text) (ks : Keys)
    → ((a ≡ b) × (key_for b (assign_key a key ks) ≡ some key))
      ⊎ ((a ≢ b) × (key_for b (assign_key a key ks) ≡ key_for b ks))
key_for-assign_key a key b [] = elim (Bool-cases (eq_text a b)) [
  | inl e ↦ inl ((eq_text_iff a b).0 e, rw e refl)
  | inr e ↦ inr (ne_of_false a b e, rw e refl)
]
key_for-assign_key a key b ((x, old) ∷ ks) = elim (Bool-cases (eq_text x a)) [
  | inl same ↦
      let q : x ≡ a = (eq_text_iff x a).0 same in
      elim (Bool-cases (eq_text a b)) [
        | inl e ↦ inl ((eq_text_iff a b).0 e, rw (same, e) refl)
        | inr e ↦ inr (ne_of_false a b e, rw same (rw e (rw q (rw e refl))))
      ]
  | inr differs ↦ elim (Bool-cases (eq_text x b)) [
    | inl e ↦
        let q : x ≡ b = (eq_text_iff x b).0 e in
        inr (λ h. ne_of_false x a differs (q ∙ sym h), rw differs (rw e refl))
    | inr e ↦ elim (key_for-assign_key a key b ks) [
      | inl (h, k) ↦ inl (h, rw differs (rw e k))
      | inr (h, k) ↦ inr (h, rw differs (rw e k))
    ]
  ]
]

is_signer-assign_key :
    (a key b : Text) (ks : Keys)
    → (is_signer (assign_key a key ks) b ≡ true) ↔ ((is_signer ks b ≡ true) ⊎ (a ≡ b))
unfolding is_signer
is_signer-assign_key a key b ks = elim (key_for-assign_key a key b ks) [
  | inl (h, k) ↦ (λ _. inr h, λ _. rw k refl)
  | inr (h, k) ↦ (λ m. inl (rw k at m), λ m. elim m [ inl l ↦ rw k l | inr same ↦ absurd (h same) ])
]

-- The addresses of the rounds that are left, and those of before, are the ones signed for.
generate_from_lem :
    (derive_path : ℕ → Text × Text) (index left : ℕ) (ks : Keys) (a : Text)
    → (is_signer (generate_from derive_path index left ks) a ≡ true) ↔ (
        (is_signer ks a ≡ true)
        ⊎ ((i : ℕ) × (index ≤ i) × (i < index + left) × ((derive_path i).0 ≡ a)))
unfolding generate_from
generate_from_lem derive_path index zero ks a =
    (λ h. inl h, λ m. elim m [ inl h ↦ h | inr (i, l, u, q) ↦ absurd (omega arith) ])
generate_from_lem derive_path index (suc left) ks a =
    let (x, key) = derive_path index in
    let (to, from) = generate_from_lem derive_path (index + 1) left (assign_key x key ks) a in
    let (split, join) = is_signer-assign_key x key a ks in
    (
      λ h. elim (to h) [
        | inl l ↦ elim (split l) [
          | inl k ↦ inl k
          | inr same ↦ inr (index, omega arith, omega arith, same)
        ]
        | inr (i, l, u, q) ↦ inr (i, omega arith, omega arith, q)
      ],
      λ m. elim m [
        | inl h ↦ from (inl (join (inl h)))
        | inr (i, l, u, q) ↦ elim (same_or_past index i l) [
          | inl same ↦ from (inl (join (inr (ap (λ j. (derive_path j).0) same ∙ q))))
          | inr past ↦ from (inr (i, past, omega arith, q))
        ]
      ],
    )
  where
    same_or_past : (a k : ℕ) → a ≤ k → (a ≡ k) ⊎ (a + 1 ≤ k)
    same_or_past a k h = ground arith

no_key : (a : Text) → is_signer [] a ≡ true → ⊥
unfolding is_signer
no_key a h = cc

-- A key manager signs for exactly the addresses that its seed derives at the indices below its
-- count.
pub is_signer-generate_keys :
    (derive_path : ℕ → Text × Text) (count : ℕ) (a : Text)
    → (is_signer (generate_keys derive_path count) a ≡ true)
      ↔ ((i : ℕ) × (i < count) × ((derive_path i).0 ≡ a))
unfolding generate_keys
is_signer-generate_keys derive_path count a =
    let (to, from) = generate_from_lem derive_path 0 count [] a in
    (
      λ h. elim (to h) [
        | inl none_yet ↦ absurd (no_key a none_yet)
        | inr (i, l, u, q) ↦ (i, omega (arith, u), q)
      ],
      λ (i, u, q). from (inr (i, omega arith, omega (arith, u), q)),
    )
