-- ===== src/Memory/Worker.antt =====
-- `service_worker` of src/http/http_svc_keeper.cpp: a connection of the cache for the time that one
-- holder has it. Everything goes to the connection but `reset`, which only logs, and the end of the
-- worker gives the connection back.
use hcpp.Common.{ℕ, Bool, ◌&&◌, Option, some, none, if◌then◌else◌, Bytes}
use hcpp.Memory.{Memory, IsStream}
use hcpp.Service.{SvcCache, return_good, return_bad}

abbrev pub service_worker : Memory → Memory
service_worker M = record M { reset = λ m. m }

-- The destructor, with what the connection says of itself by then: `return_back`. The channels that
-- are closed are left out; `none` is undefined.
unfoldable pub end_worker :
    (M : Memory) → (ℕ → Bool) → Bytes → M.Mem → SvcCache → Option (M.Mem × SvcCache)
end_worker M try_send svc m s =
    if M.ok m && M.alive m
    then elim (return_good try_send svc s) [ none ↦ none | some t ↦ some (M.reset m, t) ]
    else some (m, (return_bad svc s).1)

-- What is read through it is what the connection reads.
unfoldable pub worker_stream : (M : Memory) → IsStream M → IsStream (service_worker M)
worker_stream M s = record {
  IsValid = s.IsValid;
  IsAddressable = s.IsAddressable;
  pending = s.pending;
  coming = s.coming;
  load = s.load;
  remove = s.remove;
  merge = s.merge;
}
