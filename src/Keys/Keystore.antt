-- ===== src/Keys/Keystore.antt =====
-- The constructor of src/KeyManager.ts: the seed, in memory or in the keystore file of a directory.
-- The file system is a state, with its failures as a parameter; `HDNode.fromSeed` is a parameter,
-- and a node is the function that derives its keys.
use rif_relay_server.Base.{
  ℕ, zero, suc, Bool, true, false, ◌&&◌, Option, none, some, Text, codes, ◌++◌, [], ◌∷◌,
  starts_with, contains, if◌then◌else◌,
}
use rif_relay_server.Outcome.{Outcome, ok, err, both_given, file_failed, invalid_seed, no_hd_key}
use rif_relay_server.Keys.{Keys, generate_keys}

-- The file that stands in the directory: no JSON, with the message of the parser, or an object with
-- a text `seed`, or without.
pub data Contents : Type 0 where
  garbled : Text → Contents
  keystore : Option Text → Contents

pub record Disk : Type 0 where
  pub directory_exists : Bool
  pub keystore_file : Option Contents

-- The messages with which the calls of `fs` fail.
pub record FileSystem : Type 0 where
  pub mkdir_error : Option Text
  pub read_error : Option Text
  pub write_error : Option Text

abbrev pub Derive : Type 0
Derive = ℕ → Text × Text

-- What a block with a `catch` comes to: a value, or the message that is caught.
pub data Caught (A : Type 0) : Type 0 where
  value : A → Caught A
  caught : Text → Caught A

unfoldable pub get_prefixed_seed : Text → Text
get_prefixed_seed seed = if starts_with (codes "0x") seed then seed else codes "0x" ++ seed

abbrev pub make_directory : FileSystem → Disk → Option Text × Disk
make_directory fs d = if d.directory_exists then (none, d) else elim fs.mkdir_error [
  | some message ↦ (some message, d)
  | none ↦ (none, record d { directory_exists = true })
]

-- The seed of the file; a missing one has no `startsWith`.
abbrev pub read_seed : Option Text → Contents → Caught Text
read_seed (some message) contents = caught message
read_seed none (garbled message) = caught message
read_seed none (keystore none) =
    caught (codes "Cannot read properties of undefined (reading 'startsWith')")
read_seed none (keystore (some seed)) = value seed

abbrev pub write_seed : Option Text → Text → Disk → Caught Text × Disk
write_seed (some message) seed d = (caught message, d)
write_seed none seed d = (value seed, record d { keystore_file = some (keystore (some seed)) })

abbrev pub find_seed : FileSystem → Text → Disk → Caught Text × Disk
find_seed fs random_seed d = elim d.keystore_file [
  | some contents ↦ (read_seed fs.read_error contents, d)
  | none ↦ write_seed fs.write_error random_seed d
]

abbrev pub seed_after : FileSystem → Text → Option Text × Disk → Caught Text × Disk
seed_after fs random_seed (some message, d) = (caught message, d)
seed_after fs random_seed (none, d) = find_seed fs random_seed d

unfoldable pub load_seed : FileSystem → Text → Disk → Caught Text × Disk
load_seed fs random_seed d = seed_after fs random_seed (make_directory fs d)

-- `generateKeys` on the node, which is undefined after an error that was only logged.
abbrev pub keys_of : ℕ → Option Derive → Outcome Keys
keys_of count (some derive_path) = ok (generate_keys derive_path count)
keys_of zero none = ok []
keys_of (suc n) none = err no_hd_key

-- A text that counts for `&&`.
abbrev pub is_given : Option Text → Bool
is_given none = false
is_given (some []) = false
is_given (some (x ∷ xs)) = true

abbrev pub keys_of_node : ℕ → Option Derive → Outcome Keys
keys_of_node count (some derive_path) = keys_of count (some derive_path)
keys_of_node count none = err invalid_seed

module _ (from_seed : Text → Option Derive) where
  -- The `catch` of the constructor: an error goes on unless a file already exists.
  abbrev pub keys_of_seed : ℕ → Caught Text → Outcome Keys
  keys_of_seed count (value seed) = keys_of_node count (from_seed (get_prefixed_seed seed))
  keys_of_seed count (caught message) =
      if contains (codes "file already exists") message then keys_of count none else err file_failed

  abbrev pub in_workdir : FileSystem → Text → ℕ → Disk → Outcome Keys × Disk
  in_workdir fs random_seed count d =
      let (seed, left) = load_seed fs random_seed d in (keys_of_seed count seed, left)

  -- An empty seed stands for no bytes.
  abbrev pub in_memory : Text → ℕ → Option Text → Outcome Keys
  in_memory random_seed count none = keys_of_node count (from_seed (get_prefixed_seed random_seed))
  in_memory random_seed count (some []) = keys_of_node count (from_seed (codes "0x"))
  in_memory random_seed count (some (x ∷ xs)) =
      keys_of_node count (from_seed (get_prefixed_seed (x ∷ xs)))

  unfoldable pub create_key_manager :
      FileSystem → Text → ℕ → Option Text → Option Text → Disk → Outcome Keys × Disk
  create_key_manager fs random_seed count none seed d = (in_memory random_seed count seed, d)
  create_key_manager fs random_seed count (some workdir) seed d =
      if is_given seed && is_given (some workdir)
      then (err both_given, d)
      else in_workdir fs random_seed count d
