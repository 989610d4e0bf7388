-- ===== src/Keys/Restart.antt =====
-- The keys of a server that is started again.
use rif_relay_server.Base.{
  ℕ, zero, suc, ◌<◌, ◌≡◌, refl, sym, ap, subst, ◌∙◌, true, Option, none, some, Text, arith,
}
use rif_relay_server.Outcome.{ok}
use rif_relay_server.Keys.{Keys}
use rif_relay_server.Keys.Keystore.{
  keystore, Disk, FileSystem, Derive, Caught, value, caught, load_seed, keys_of_seed, in_workdir,
  create_key_manager,
}

-- The keystore has a seed, in its directory.
abbrev HasSeed : Text → Disk → Type 0
HasSeed seed d = (d.directory_exists ≡ true) × (d.keystore_file ≡ some (keystore (some seed)))

load_seed-HasSeed :
    (fs : FileSystem) (random_seed seed : Text) (d : Disk)
    → (load_seed fs random_seed d).0 ≡ value seed
    → HasSeed seed (load_seed fs random_seed d).1
unfolding load_seed
load_seed-HasSeed fs random_seed seed d e = ground arith

load_seed-again :
    (fs : FileSystem) (random_seed seed : Text) (d : Disk)
    → fs.read_error ≡ none
    → HasSeed seed d
    → load_seed fs random_seed d ≡ (value seed, d)
unfolding load_seed
load_seed-again fs random_seed seed d readable (made, stored) =
    rw (made, stored, readable)
      (λ i. (value seed, record { directory_exists = true; keystore_file = stored i }))

module _ (from_seed : Text → Option Derive) where
  ok-keys_of_seed :
      (count : ℕ) (c : Caught Text) (ks : Keys)
      → 0 < count
      → keys_of_seed from_seed count c ≡ ok ks
      → (seed : Text) × (c ≡ value seed)
  ok-keys_of_seed count (value seed) ks positive e = (seed, refl)
  ok-keys_of_seed zero (caught message) ks positive e = absurd (omega arith)
  ok-keys_of_seed (suc n) (caught message) ks positive e = ground arith

  in_workdir-again :
      (fs fs' : FileSystem) (random_seed random_seed' : Text) (count : ℕ) (d left : Disk)
      (ks : Keys)
      → 0 < count
      → fs'.read_error ≡ none
      → in_workdir from_seed fs random_seed count d ≡ (ok ks, left)
      → in_workdir from_seed fs' random_seed' count left ≡ (ok ks, left)
  in_workdir-again fs fs' random_seed random_seed' count d left ks positive readable e =
      let loaded = load_seed fs random_seed d in
      let (seed, found) = ok-keys_of_seed count loaded.0 ks positive (ap (λ p. p.0) e) in
      let kept : loaded.1 ≡ left = ap (λ p. p.1) e in
      let stored =
        subst (λ l. HasSeed seed l) kept (load_seed-HasSeed fs random_seed seed d found) in
      let again = load_seed-again fs' random_seed' seed left readable stored in
      let same : keys_of_seed from_seed count (value seed) ≡ ok ks =
        ap (λ c. keys_of_seed from_seed count c) (sym found) ∙ ap (λ p. p.0) e in
      ap (λ p. (keys_of_seed from_seed count p.0, p.1)) again ∙ ap (λ o. (o, left)) same

  -- A key manager of at least one key that was made over a directory, whatever was in it, has left
  -- its seed there: any later one over the directory as it was left, that can read the keystore, has
  -- the same keys and leaves the directory as it is, whatever seed it would have drawn.
  pub create_key_manager-restart :
      (fs fs' : FileSystem) (random_seed random_seed' : Text) (count : ℕ) (workdir : Text)
      (d left : Disk) (ks : Keys)
      → 0 < count
      → fs'.read_error ≡ none
      → create_key_manager from_seed fs random_seed count (some workdir) none d ≡ (ok ks, left)
      → create_key_manager from_seed fs' random_seed' count (some workdir) none left ≡ (ok ks, left)
  unfolding create_key_manager
  create_key_manager-restart fs fs' random_seed random_seed' count workdir d left ks =
      in_workdir-again fs fs' random_seed random_seed' count d left ks
