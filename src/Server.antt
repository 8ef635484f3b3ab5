-- ===== src/Server.antt =====
-- `http_handler` of src/httpserver.cpp with the interceptors of src/http/intercept.h, and `hack_sk` of
-- src/httpserver.h. A regular expression is the test that it makes of a whole text.
pub mod Filters
pub mod Round
pub mod Named
pub mod Asked
pub mod Mitm
pub mod Unanswered
use hcpp.Common.{
  ℕ, Bool, true, false, ◌&&◌, List, [], ◌∷◌, ◌++◌, Option, none, some, Bytes, equal, if◌then◌else◌,
}

pub record InterceptSet : Type 0 where
  pub host : Bytes
  pub svc : Bytes
  pub url : Bytes
  pub real_host : Bytes
  pub doh : Bool
  pub doh_provider : Bytes
  pub mitm : Bool
  pub close_sni : Bool
  pub sni_host : Bytes

abbrev pub default_set : InterceptSet
default_set = record {
  host = [];
  svc = [];
  url = [];
  real_host = [];
  doh = false;
  doh_provider = [];
  mitm = false;
  close_sni = false;
  sni_host = [];
}

pub record HttpHandler : Type 0 where
  pub base_handlers : List (Bytes × (Bytes → Bytes))
  pub direct_filter : List (Bytes × InterceptSet)
  pub regx_filter : List ((Bytes → Bool) × InterceptSet)

-- `find` on a map, whose keys are different.
unfoldable pub find_entry {ℓ} : {A : Type ℓ} → Bytes → List (Bytes × A) → Option A
find_entry k [] = none
find_entry k (x ∷ xs) = let later = find_entry k xs in if equal k x.0 then some x.1 else later

-- `emplace` and `insert`, which leave an entry that is there.
unfoldable pub emplace_entry {ℓ} : {A : Type ℓ} → Bytes → A → List (Bytes × A) → List (Bytes × A)
emplace_entry k v [] = (k, v) ∷ []
emplace_entry k v (x ∷ xs) =
    let later = emplace_entry k v xs in if equal k x.0 then x ∷ xs else x ∷ later

unfoldable pub add_intercept : Bytes → InterceptSet → HttpHandler → HttpHandler
add_intercept host i h = record h { direct_filter = emplace_entry host i h.direct_filter }

unfoldable pub add_regex : (Bytes → Bool) → InterceptSet → HttpHandler → HttpHandler
add_regex matches i h = record h { regx_filter = h.regx_filter ++ ((matches, i) ∷ []) }

unfoldable pub add_request_handler : Bytes → (Bytes → Bytes) → HttpHandler → HttpHandler
add_request_handler path f h = record h { base_handlers = emplace_entry path f h.base_handlers }

-- `std::ranges::find_if`
unfoldable pub first_match : Bytes → List ((Bytes → Bool) × InterceptSet) → Option InterceptSet
first_match host [] = none
first_match host (x ∷ xs) = let later = first_match host xs in if x.0 host then some x.1 else later

unfoldable pub find_set : Bytes → HttpHandler → Option InterceptSet
find_set host h = elim (find_entry host h.direct_filter) [
  | some i ↦ some i
  | none ↦ first_match host h.regx_filter
]

-- Which tunnel `hack_sk::wait_tunnel` gives.
pub data TunnelKind : Type 0 where
  channel_tunnel socket_tunnel : TunnelKind

unfoldable pub wait_tunnel : Option InterceptSet → TunnelKind
wait_tunnel none = socket_tunnel
wait_tunnel (some i) = if i.mitm then channel_tunnel else socket_tunnel
