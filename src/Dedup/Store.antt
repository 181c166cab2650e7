-- ===== src/Dedup/Store.antt =====
-- The operations of `DedupStore`. A method takes the object and the world, and returns both also when
-- it throws.
use log_bridge.Base.{
  ℕ, Bool, true, false, leb, ltb, ◌==◌, ◌||◌, bytes_eq, if◌then◌else◌, [], ◌∷◌, Option, none, some,
  Result, ok, err, invalid_argument,
}
use log_bridge.Message.{Bytes}
use log_bridge.Storage.World.{World}
use log_bridge.Storage.Persistence.{write_atomically}
use log_bridge.Dedup.Text.{Entries, text_of}

-- `std::map` in the order of its keys.
pub record DedupStore : Type 0 where
  pub path : Bytes
  pub confirmed : Entries

-- `std::string`'s `<`, on unsigned bytes.
unfoldable pub bytes_lt : Bytes → Bytes → Bool
bytes_lt [] [] = false
bytes_lt [] (y ∷ ys) = true
bytes_lt (x ∷ xs) [] = false
bytes_lt (x ∷ xs) (y ∷ ys) = let later = bytes_lt xs ys in if x == y then later else ltb x y

-- `find`.
unfoldable pub find : Bytes → Entries → Option ℕ
find client_id [] = none
find client_id ((key, value) ∷ rest) =
    let later = find client_id rest in if bytes_eq client_id key then some value else later

-- `updated[clientId] = confirmedId`.
unfoldable pub put : Bytes → ℕ → Entries → Entries
unfolding bytes_lt
put client_id confirmed_id [] = (client_id, confirmed_id) ∷ []
put client_id confirmed_id ((key, value) ∷ rest) =
    let later = put client_id confirmed_id rest in
    if bytes_eq client_id key
    then (client_id, confirmed_id) ∷ rest
    else if bytes_lt client_id key
    then (client_id, confirmed_id) ∷ (key, value) ∷ rest
    else (key, value) ∷ later

-- 0 where the client is not known.
abbrev pub value_or_zero : Option ℕ → ℕ
value_or_zero none = 0
value_or_zero (some value) = value

unfoldable pub highest_confirmed : Bytes → DedupStore → ℕ
unfolding find
highest_confirmed client_id store = value_or_zero (find client_id store.confirmed)

abbrev pub Outcome : Type 0
Outcome = Result ℕ × DedupStore × World

-- `confirmed_ = std::move(updated)` stands behind the call that may throw.
abbrev pub moved : ℕ → Entries → DedupStore → Result (Unit {0}) × World → Outcome
moved confirmed_id updated store (ok _, w) =
    (ok confirmed_id, record store { confirmed = updated }, w)
moved confirmed_id updated store (err e, w) = (err e, store, w)

unfoldable pub persist : Bytes → Entries → World → Result (Unit {0}) × World
persist path values w = write_atomically path (text_of values) w

abbrev pub is_empty : Bytes → Bool
is_empty [] = true
is_empty (b ∷ rest) = false

unfoldable pub confirm : Bytes → ℕ → DedupStore → World → Outcome
unfolding find put
confirm client_id confirmed_id store w =
    let current = highest_confirmed client_id store in
    let updated = put client_id confirmed_id store.confirmed in
    if is_empty client_id || confirmed_id == 0
    then (err invalid_argument, store, w)
    else if leb confirmed_id current
    then (ok current, store, w)
    else moved confirmed_id updated store (persist store.path updated w)
