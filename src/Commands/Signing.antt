-- ===== src/Commands/Signing.antt =====
-- The signer of `retrieveSigner` of src/commands/Register.ts, and the account of
-- src/commands/findWealthyAccount.ts.
use rif_relay_server.Base.{
  ◌*◌, ◌^◌, ℕ, ◌+◌, ◌≡◌, ◌≤◌, ◌⊎◌, inl, inr, refl, subst, sym, ap, ◌∙◌, Option, none, some, List,
  [], ◌∷◌, Text, leb, ◌==◌, arith, Bool-cases, Option-cases,
}
use rif_relay_server.Outcome.{Outcome, ok, err, Action, ◌>>=◌, bind_of_ok, bind_of_err, >>=-eq-ok}
use rif_relay_server.Commands.{
  Setup, Accounts, wallet_of, find_wealthy_account, first_funded, or_no_account,
}
use rif_relay_server.Commands.Blocks.{asked, ask-eq-ok}
use rif_relay_server.Commands.Execute.{
  Signer, wallet, account, RegisterLibrary, two_ether, first_signer, retrieve_signer, raise,
}

found_index :
    {i j : ℕ} {s t : Setup}
    → ◌≡◌ {A = Outcome (Option ℕ) × Setup} (ok (some i), s) (ok (some j), t)
    → i ≡ j
found_index e = cc

first_funded_lem :
    (accounts : Accounts) (required index : ℕ) (l : List Text) (s t : Setup) {i : ℕ}
    → first_funded accounts required index l s ≡ (ok (some i), t)
    → (n : ℕ) × (balance : ℕ) × (accounts.balance_at n i ≡ some balance) × (required ≤ balance)
unfolding first_funded
first_funded_lem accounts required index [] s t e = cc
first_funded_lem accounts required index (a ∷ rest) s t {i} e =
    let (balance, told, e1) = ask-eq-ok _ _ s e in
    elim (Bool-cases (leb required balance)) [
      | inl enough ↦
          let (address, known, e2) = ask-eq-ok _ _ (asked s) (rw enough at e1) in
          let same : index ≡ i = found_index e2 in
          (
            s.calls,
            balance,
            subst (λ k. accounts.balance_at s.calls k ≡ some balance) same told,
            ground arith,
          )
      | inr few ↦ first_funded_lem accounts required (index + 1) rest (asked s) t (rw few at e1)
    ]

or_no_account-eq-ok :
    (accounts : Accounts) (r : Outcome (Option ℕ) × Setup) {i : ℕ} {t : Setup}
    → or_no_account accounts r ≡ (ok i, t)
    → r ≡ (ok (some i), t)
or_no_account-eq-ok accounts (ok (some index), s) e = cc
or_no_account-eq-ok accounts (ok none, s) e = cc
or_no_account-eq-ok accounts (err x, s) e = cc

-- An account that is found: on the chain 33, with the balance.
find_wealthy_account_funded :
    (accounts : Accounts) (required : ℕ) (s t : Setup) {i : ℕ}
    → find_wealthy_account accounts required s ≡ (ok i, t)
    → (accounts.chain s.calls ≡ some 33)
      × (n : ℕ) × (balance : ℕ) × (accounts.balance_at n i ≡ some balance)
      × (required ≤ balance)
unfolding find_wealthy_account
find_wealthy_account_funded accounts required s t e =
    let (chain, told, e1) = ask-eq-ok _ _ s e in
    elim (Bool-cases (chain == 33)) [
      | inl regtest ↦
          let (u, v, passed, e3) = >>=-eq-ok _ _ (asked s) (rw regtest at e1) in
          let (l, listed, e4) = ask-eq-ok _ _ v (or_no_account-eq-ok accounts _ e3) in
          let same : chain ≡ 33 = ground arith in
          let (n, balance, has, enough) = first_funded_lem accounts required 0 l (asked v) t e4 in
          (told ∙ ap some same, n, balance, has, enough)
      | inr other ↦ let (u, v, passed, e3) = >>=-eq-ok _ _ (asked s) (rw other at e1) in cc
    ]

-- `value && ...`: no value for the wallet.
abbrev pub IsBlank : Option Text → Type 0
IsBlank o = (o ≡ none) ⊎ (o ≡ some [])

wallet_of-eq-ok :
    (accounts : Accounts) (make : Text → Option Text) (o r : Option Text)
    → wallet_of accounts make o ≡ ok r
    → (IsBlank o × (r ≡ none))
      ⊎ ((k : Text) × (w : Text) × (o ≡ some k) × (make k ≡ some w) × (r ≡ some w))
wallet_of-eq-ok accounts make none r e = inl (inl refl, cc)
wallet_of-eq-ok accounts make (some []) r e = inl (inr refl, cc)
wallet_of-eq-ok accounts make (some (x ∷ xs)) r e = elim (Option-cases (make (x ∷ xs))) [
  | inl h ↦ let bad = (rw (wallet_of, h) at e) in cc
  | inr (w, h) ↦ let good = (rw (wallet_of, h) at e) in inr (x ∷ xs, w, refl, h, cc)
]

raise-eq-ok :
    {A B : Type 0} (r : Outcome A) (g : A → Action Setup B) (s : Setup) {b : B} {u : Setup}
    → (raise r >>= g) s ≡ (ok b, u)
    → (a : A) × (r ≡ ok a) × (g a s ≡ (ok b, u))
raise-eq-ok (ok a) g s e = (a, refl, sym (bind_of_ok (raise (ok a)) g s refl) ∙ e)
raise-eq-ok (err x) g s e = let bad = sym (bind_of_err (raise (err x)) g s refl) ∙ e in cc

module _ {D : Type 0} (lib : RegisterLibrary D) where
  -- The wallet of a configured key or mnemonic.
  abbrev pub IsWallet : (Text → Option Text) → Option Text → Signer → Type 0
  IsWallet make o signer =
      (k : Text) × (w : Text) × (o ≡ some k) × (make k ≡ some w) × (signer ≡ wallet w)

  -- An account of the node with two ether, on the chain 33.
  abbrev pub IsAccount : ℕ → Signer → Type 0
  IsAccount calls signer =
      (i : ℕ) × (signer ≡ account i)
      × (lib.accounts.chain calls ≡ some 33)
      × (n : ℕ) × (balance : ℕ) × (lib.accounts.balance_at n i ≡ some balance)
      × (2 * 10 ^ 18 ≤ balance)

  first_signer-eq-ok :
      (from_key from_mnemonic : Option Text) (s t : Setup) (signer : Signer)
      → first_signer lib from_key from_mnemonic s ≡ (ok signer, t)
      → ((w : Text) × (from_key ≡ some w) × (signer ≡ wallet w))
        ⊎ (((from_key ≡ none) × (w : Text) × (from_mnemonic ≡ some w) × (signer ≡ wallet w))
            ⊎ ((from_key ≡ none) × (from_mnemonic ≡ none) × IsAccount s.calls signer))
  first_signer-eq-ok (some w) from_mnemonic s t signer e = inl (w, refl, cc)
  first_signer-eq-ok none (some w) s t signer e = inr (inl (refl, w, refl, cc))
  first_signer-eq-ok none none s t signer e =
      let (i, v, found, made) = >>=-eq-ok _ _ s e in
      let (chain, n, balance, told, enough) =
        find_wealthy_account_funded lib.accounts two_ether s v found in
      inr (inr (refl, refl, (i, cc, chain, n, balance, told, enough)))

  -- The signer of `retrieveSigner`, if it returns one: the wallet of the private key; if that is
  -- missing or empty, the wallet of the mnemonic; and only if both are, an account of the node that
  -- has two ether, on a node of the chain 33.
  pub retrieve_signer-IsAccount :
      (private_key mnemonic : Option Text) (s t : Setup) (signer : Signer)
      → retrieve_signer lib private_key mnemonic s ≡ (ok signer, t)
      → IsWallet lib.wallet_of_key private_key signer
        ⊎ ((IsBlank private_key × IsWallet lib.wallet_of_mnemonic mnemonic signer)
            ⊎ (IsBlank private_key × IsBlank mnemonic × IsAccount s.calls signer))
  unfolding retrieve_signer
  retrieve_signer-IsAccount private_key mnemonic s t signer e =
      let (from_key, made, e1) = raise-eq-ok _ _ s e in
      let (from_mnemonic, made_too, e2) = raise-eq-ok _ _ s e1 in
      elim (wallet_of-eq-ok lib.accounts lib.wallet_of_key private_key from_key made) [
        | inr (k, w, given, valid, is) ↦
            elim (first_signer-eq-ok from_key from_mnemonic s t signer e2) [
              | inl (x, h, same) ↦ inl (k, w, given, valid, cc)
              | inr (inl (h, x, y, z)) ↦ let bad = sym h ∙ is in cc
              | inr (inr (h, x, y)) ↦ let bad = sym h ∙ is in cc
            ]
        | inl (blank, is) ↦ elim (first_signer-eq-ok from_key from_mnemonic s t signer e2) [
          | inl (x, h, same) ↦ let bad = sym is ∙ h in cc
          | inr (inl (h, w, known, same)) ↦
              elim (wallet_of-eq-ok lib.accounts lib.wallet_of_mnemonic mnemonic from_mnemonic
                made_too) [
                  | inl (_, unknown) ↦ let bad = sym unknown ∙ known in cc
                  | inr (k, v, given, valid, is_v) ↦ inr (inl (blank, (k, v, given, valid, cc)))
                ]
          | inr (inr (h, unknown, is_account)) ↦
              elim (wallet_of-eq-ok lib.accounts lib.wallet_of_mnemonic mnemonic from_mnemonic
                made_too) [
                  | inl (blank_too, _) ↦ inr (inr (blank, blank_too, is_account))
                  | inr (k, v, given, valid, is_v) ↦ let bad = sym unknown ∙ is_v in cc
                ]
        ]
      ]
