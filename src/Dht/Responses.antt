-- ===== src/Dht/Responses.antt =====
-- What a DHT node reads out of answers (pkg/dht/queries.go).
use torrent_client.Common.{Bool, true, false, Option, none, some, [], ◌∷◌, Bytes, codes}
use torrent_client.Bencode.Value.{Value, lookup}
use torrent_client.Common.Outcome.{Outcome, ok, Error, Ensures, Ensures-bind, guard, ◌>>=◌}
use torrent_client.Dht.{first_byte, response_of, get_response_dict, read_id, parse_ping_response}
use torrent_client.Extension.{as_dict}
use torrent_client.Torrent.Codec.{must_bytes}

-- The computation comes to an end.
abbrev pub Ends : {A : Type 0} → Outcome A → Type 0
Ends = Ensures (λ _. Unit)

pub and_then :
    {A B : Type 0} (m : Outcome A) (f : A → Outcome B)
    → Ends m
    → ((a : A) → Ends (f a))
    → Ends (m >>= f)
and_then m f h k = Ensures-bind (λ _. Unit) (λ _. Unit) m f h (λ a _. k a)

as_dict-Ends : (v : Value) → Ends (as_dict v)
unfolding as_dict
as_dict-Ends (Value.dict fs) = tt
as_dict-Ends (Value.int z) = tt
as_dict-Ends (Value.bytes b) = tt
as_dict-Ends (Value.str b) = tt
as_dict-Ends (Value.list is) = tt
as_dict-Ends Value.other = tt

must_bytes-Ends : (o : Option Value) → Ends (must_bytes o)
must_bytes-Ends none = tt
must_bytes-Ends (some (Value.bytes b)) = tt
must_bytes-Ends (some (Value.dict fs)) = tt
must_bytes-Ends (some (Value.int z)) = tt
must_bytes-Ends (some (Value.str b)) = tt
must_bytes-Ends (some (Value.list is)) = tt
must_bytes-Ends (some Value.other) = tt

response_of-Ends : (o : Option Value) → Ends (response_of o)
unfolding response_of
response_of-Ends none = tt
response_of-Ends (some (Value.bytes b)) = tt
response_of-Ends (some (Value.dict fs)) = tt
response_of-Ends (some (Value.int z)) = tt
response_of-Ends (some (Value.str b)) = tt
response_of-Ends (some (Value.list is)) = tt
response_of-Ends (some Value.other) = tt

first_byte-Ends : (b : Bytes) → Ends (first_byte b)
unfolding first_byte
first_byte-Ends [] = tt
first_byte-Ends (x ∷ b) = tt

guard-Ends : (b : Bool) (e : Error) → Ends (guard b e)
guard-Ends true e = tt
guard-Ends false e = tt

id_guard-Ends : (b : Bool) (e : Error) (id : Bytes) → Ends (guard b e >>= λ _. ok id)
id_guard-Ends true e id = tt
id_guard-Ends false e id = tt

pub parse_ping_response-Ends : (v : Value) → Ends (parse_ping_response v)
unfolding parse_ping_response get_response_dict read_id
parse_ping_response-Ends v =
    and_then _ _
      (and_then _ _ (as_dict-Ends v) (λ d.
        and_then _ _ (must_bytes-Ends (lookup (codes "y") d)) (λ y.
          and_then _ _ (first_byte-Ends y)
            (λ t. and_then _ _ (guard-Ends _ _) (λ _. response_of-Ends (lookup (codes "r") d))))))
      (λ d. and_then _ _ (must_bytes-Ends (lookup (codes "id") d)) (λ id. id_guard-Ends _ _ id))
