-- ===== src/Values.antt =====
-- The values that the server reads from its configuration and from the bodies of requests, as far as
-- src/serverConfigParamsUtils.ts, src/ServerConfigParams.ts and src/Utils.ts look into them. A value
-- has the type of the numbers for its parameter, and no key stands twice in an object.
use rif_relay_server.Base.{
  Bool, true, false, Option, none, some, List, [], ◌∷◌, Text, eq_text, if◌then◌else◌,
}
use rif_relay_server.Numbers.{Numbers, is_truthy}

mutual
  pub data Value (D : Type 0) : Type 0 where
    null bigint : Value D
    boolean : Bool → Value D
    number : D → Value D
    text : Text → Value D
    array : Items D → Value D
    object : Fields D → Value D

  pub data Items (D : Type 0) : Type 0 where
    nil : Items D
    cons : Value D → Items D → Items D

  pub data Fields (D : Type 0) : Type 0 where
    end : Fields D
    field : Text → Value D → Fields D → Fields D

-- What an object has at a key.
abbrev pub get : {D : Type 0} → Text → Fields D → Option (Value D)
get key end = none
get key (field k v fs) = let rest = get key fs in if eq_text key k then some v else rest

abbrev pub at : {D : Type 0} → Text → Value D → Option (Value D)
at key (object fs) = get key fs
at key v = none

-- The value of a condition.
abbrev pub is_true : {D : Type 0} → Numbers D → Value D → Bool
is_true num null = false
is_true num bigint = true
is_true num (boolean b) = b
is_true num (number x) = is_truthy num x
is_true num (text []) = false
is_true num (text (c ∷ cs)) = true
is_true num (array xs) = true
is_true num (object fs) = true

-- Whether a table names each key of an object.
abbrev pub names : {A : Type 0} → List (Text × A) → Text → Bool
names [] key = false
names ((k, a) ∷ rest) key = let later = names rest key in if eq_text key k then true else later

abbrev pub all_named : {D A : Type 0} → List (Text × A) → Fields D → Bool
all_named table end = true
all_named table (field k v fs) =
    let rest = all_named table fs in if names table k then rest else false

-- The entry of a table for a key.
abbrev pub entry : {A : Type 0} → Text → List (Text × A) → Option A
entry key [] = none
entry key ((k, a) ∷ rest) = let later = entry key rest in if eq_text key k then some a else later
