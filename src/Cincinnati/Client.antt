-- ===== src/Cincinnati/Client.antt =====
-- pkg/cincinnati/client.go and the data of cincinnati.go: the query that a client keeps, and the graph
-- that it gets. The HTTP request and the parsing of the response are a parameter.
use oc_mirror.Base.{
  String, ℕ, List, [], ◌∷◌, ◌++◌, Option, none, some, Result, ok, err, Bool, true, false,
  if◌then◌else◌, ◌==◌, string_eq,
}
use oc_mirror.Base.GoMap.{Map}

pub record Node (V : Type 0) : Type 0 where
  pub version : V
  pub image : String
  pub metadata : Map String String

pub record Edge : Type 0 where
  pub origin : ℕ
  pub destination : ℕ

pub record Graph (V : Type 0) : Type 0 where
  pub nodes : List (Node V)
  pub edges : List Edge

-- `UnmarshalJSON` of an edge, from the array of numbers.
unfoldable pub unmarshal_edge : List ℕ → Option Edge
unmarshal_edge [] = none
unmarshal_edge (o ∷ []) = none
unmarshal_edge (o ∷ (d ∷ [])) = some (record { origin = o; destination = d })
unmarshal_edge (o ∷ (d ∷ (x ∷ xs))) = none

-- The values of each parameter of the query, in the order in which they were added. `Encode` sorts
-- the parameters by their names and keeps this order.
pub record Query : Type 0 where
  pub id : List String
  pub arch : List String
  pub channel : List String
  pub version : List String

pub data Client : Type 0 where
  ocp_client : String → Query → Client
  okd_client : Query → Client

-- A parameter that is the empty string is not added.
abbrev pub add_param : List String → String → List String
add_param values value = if value == "" then values else values ++ value ∷ []

-- `SetQueryParams` adds to the parameters that the client's URL has.
unfoldable pub set_query_params : String → String → String → Client → Client
set_query_params arch channel version (ocp_client id q) = ocp_client id (record {
  id = q.id ++ id ∷ [];
  arch = add_param q.arch arch;
  channel = add_param q.channel channel;
  version = add_param q.version version;
})
set_query_params arch channel version (okd_client q) = okd_client q

abbrev pub query : Client → Query
query (ocp_client id q) = q
query (okd_client q) = q

pub data Failure : Type 0 where
  no_graph version_not_found no_versions_found invalid_channel_name cannot_get_latest : Failure
  cannot_get_current no_previous_release invalid_version : Failure
  panic out_of_fuel : Failure

-- A function that sends requests: the client's query is its state.
abbrev pub Run : Type 0 → Type 0
Run A = Client → Client × Result Failure A

infixl 5 ◌>>>◌
abbrev pub ◌>>>◌ :
    {A B : Type 0} → Client × Result Failure A → (A → Run B) → Client × Result Failure B
(c, ok a) >>> f = f a c
(c, err e) >>> f = (c, err e)

-- A panic is no error that the code could look at.
abbrev pub is_stop : Failure → Bool
is_stop panic = true
is_stop out_of_fuel = true
is_stop no_graph = false
is_stop version_not_found = false
is_stop no_versions_found = false
is_stop invalid_channel_name = false
is_stop cannot_get_latest = false
is_stop cannot_get_current = false
is_stop no_previous_release = false
is_stop invalid_version = false

-- The code that looks at the error and goes on.
abbrev pub or_instead :
    {A B : Type 0}
    → Client × Result Failure A
    → (Failure → Run B)
    → (A → Run B)
    → Client × Result Failure B
or_instead (c, ok a) g f = f a c
or_instead (c, err e) g f = if is_stop e then (c, err e) else g e c

abbrev pub or_fail {ℓ} : {A : Type ℓ} → Failure → Option A → Result Failure A
or_fail e none = err e
or_fail e (some a) = ok a
