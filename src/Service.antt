-- ===== src/Service.antt =====
-- `svc_cache` and `http_svc_keeper` of src/http/http_svc_keeper.cpp. A connection and a channel are
-- numbers; what a connection's `ok` and `alive` say, and whether a channel takes what is sent, are
-- arguments, and the `reset` of a connection's buffer is not shown. Each function is what a
-- coroutine does between two points where it waits.
pub mod Entries
pub mod Turns
pub mod Queues
pub mod Fair
pub mod Line
use hcpp.Common.{
  ℕ, Bool, true, false, ◌&&◌, List, [], ◌∷◌, ◌++◌, Option, none, some, Bytes, equal, if◌then◌else◌,
  codes,
}
use hcpp.Server.{InterceptSet, find_entry, emplace_entry}

-- `host + ":" + service`
unfoldable pub svc_of : Bytes → Bytes → Bytes
svc_of host service = host ++ codes ":" ++ service

unfoldable pub erase_entry {ℓ} : {A : Type ℓ} → Bytes → List (Bytes × A) → List (Bytes × A)
erase_entry k [] = []
erase_entry k (x ∷ xs) = let rest = erase_entry k xs in if equal k x.0 then rest else x ∷ rest

-- An assignment through an iterator.
unfoldable pub set_entry {ℓ} : {A : Type ℓ} → Bytes → A → List (Bytes × A) → List (Bytes × A)
set_entry k v [] = []
set_entry k v (x ∷ xs) =
    let rest = set_entry k v xs in if equal k x.0 then (k, v) ∷ rest else x ∷ rest

pub record SvcCache : Type 0 where
  pub cache : List (Bytes × ℕ)
  pub request_queue : List (Bytes × List ℕ)

-- The first part of `get_endpoint`: a connection that is not ok is erased.
unfoldable pub find_endpoint : (ℕ → Bool) → Bytes → SvcCache → Option ℕ × SvcCache
find_endpoint ok svc s = elim (find_entry svc s.cache) [
  | none ↦ (none, s)
  | some m ↦ if ok m then (some m, s) else (none, record s { cache = erase_entry svc s.cache })
]

-- After a connection was made: one that another coroutine has put there stays.
unfoldable pub created : Bytes → ℕ → SvcCache → SvcCache
created svc v s = record s { cache = emplace_entry svc v s.cache }

-- The last part: whether the channel has to wait.
unfoldable pub enter : Bytes → ℕ → SvcCache → Bool × SvcCache
enter svc c s = elim (find_entry svc s.request_queue) [
  | none ↦ (false, record s { request_queue = emplace_entry svc (c ∷ []) s.request_queue })
  | some q ↦ (true, record s { request_queue = set_entry svc (q ++ (c ∷ [])) s.request_queue })
]

unfoldable pub remove_endpoint : Bytes → SvcCache → Bool × SvcCache
remove_endpoint svc s = elim (find_entry svc s.cache) [
  | none ↦ (false, s)
  | some m ↦ (true, record s { cache = erase_entry svc s.cache })
]

-- The loop of `return_back`: the channels up to the first that takes the connection are dropped.
unfoldable pub next_waiter : (ℕ → Bool) → List ℕ → List ℕ
next_waiter try_send [] = []
next_waiter try_send (c ∷ cs) =
    let rest = next_waiter try_send cs in if try_send c then c ∷ cs else rest

-- `return_back` of a connection that is ok and alive. The source asserts that there is a queue, and
-- that it is not empty: `none` is undefined. The new head has been sent the connection.
unfoldable pub return_good : (ℕ → Bool) → Bytes → SvcCache → Option SvcCache
return_good try_send svc s = elim (find_entry svc s.request_queue) [
  | none ↦ none
  | some q ↦ elim q [
    | [] ↦ none
    | c ∷ cs ↦ elim (next_waiter try_send cs) [
      | [] ↦ some (record s { request_queue = erase_entry svc s.request_queue })
      | d ∷ ds ↦ some (record s { request_queue = set_entry svc (d ∷ ds) s.request_queue })
    ]
  ]
]

-- `return_back` of any other connection: the channels that are closed, and the state.
unfoldable pub return_bad : Bytes → SvcCache → List ℕ × SvcCache
return_bad svc s =
    let q : List ℕ = elim (find_entry svc s.request_queue) [ none ↦ [] | some q ↦ q ] in
    let s1 = record s { request_queue = erase_entry svc s.request_queue } in
    (q, (remove_endpoint svc s1).1)

-- A connection that could not be made: the channel is closed, and so are all that wait.
unfoldable pub create_failed : Bytes → ℕ → SvcCache → List ℕ × SvcCache
create_failed svc c s = let (closed, s1) = return_bad svc s in (c ∷ closed, s1)

-- `http_svc_keeper`; nothing assigns `host_` and `service_`.
pub record HttpSvcKeeper (Mem : Type 0) : Type 0 where
  pub m : Option Mem
  pub host : Bytes
  pub service : Bytes

-- `make_socket` gives a connection or nothing; then the memory is one that is never ok.
unfoldable pub keeper_wait {ℓ} :
    {Mem : Type 0} {Net : Type ℓ}
    → (Bytes → Bytes → Bool → Net → Option Mem × Net)
    → Mem
    → Bytes
    → Bytes
    → Option InterceptSet
    → HttpSvcKeeper Mem
    → Net
    → Mem × HttpSvcKeeper Mem × Net
keeper_wait {Mem = Mem} make_socket failed_mem svc_host svc_service is k net =
    let use_doh : Bool = elim is [ none ↦ false | some i ↦ i.doh ] in
    let (o, net1) = make_socket svc_host svc_service use_doh net in
    let fresh : Mem = elim o [ none ↦ failed_mem | some s ↦ s ] in
    elim k.m [
      | none ↦ (fresh, record k { m = some fresh }, net1)
      | some old ↦
          if equal k.host svc_host && equal k.service svc_service
          then (old, k, net)
          else (fresh, record k { m = some fresh }, net1)
    ]
