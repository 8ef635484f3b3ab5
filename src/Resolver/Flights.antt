-- ===== src/Resolver/Flights.antt =====
-- The coroutines of `async_resolve` in src/dns.cpp, which run between the locked sections in any
-- order, as a step relation.
use hcpp.Common.{ℕ, true, false, List, [], ◌∷◌, ◌++◌, none, some, ◌≡◌}
use hcpp.Resolver.{HostEdp, SlowDns, find_key, enter, give_up, publish, wake, remove}

module _ (Edps : Type 0) where
  -- Where a coroutine that has found `need_resolve` stands: it resolves, it has a result for the
  -- cache, or it has one for the channels.
  pub data Task : Type 0 where
    resolving : HostEdp → Task
    publishing : HostEdp → Edps → Task
    waking : HostEdp → Edps → Task

  -- The tables, the coroutines, what was sent, and two records of what happened: the channels that
  -- have entered, and those whose resolution has failed.
  pub record System : Type 0 where
    pub dns : SlowDns Edps
    pub tasks : List Task
    pub mail : List (ℕ × Edps)
    pub entered : List ℕ
    pub dropped : List ℕ

module _ {Edps : Type 0} where
  -- The channels that wait for a key.
  unfoldable pub channels : HostEdp → SlowDns Edps → List ℕ
  channels h d = elim (find_key h d.resolve_running) [ none ↦ [] | some cs ↦ cs ]

  pub data Step : System Edps → System Edps → Type 0 where
    joins :
        (s : System Edps) (h : HostEdp) (c : ℕ) (d : SlowDns Edps)
        → enter h c s.dns ≡ (false, d)
        → Step s (record s { dns = d; entered = c ∷ s.entered })
    starts :
        (s : System Edps) (h : HostEdp) (c : ℕ) (d : SlowDns Edps)
        → enter h c s.dns ≡ (true, d)
        → Step s (record s { dns = d; tasks = resolving h ∷ s.tasks; entered = c ∷ s.entered })
    resolves :
        (s : System Edps) (h : HostEdp) (el : Edps) (pre post : List (Task Edps))
        → s.tasks ≡ pre ++ resolving h ∷ post
        → Step s (record s { tasks = pre ++ publishing h el ∷ post })
    throws :
        (s : System Edps) (h : HostEdp) (pre post : List (Task Edps))
        → s.tasks ≡ pre ++ resolving h ∷ post
        → Step s (record s {
          dns = give_up h s.dns;
          tasks = pre ++ post;
          dropped = channels h s.dns ++ s.dropped;
        })
    publishes :
        (s : System Edps) (h : HostEdp) (el kept : Edps) (d : SlowDns Edps)
        (pre post : List (Task Edps))
        → s.tasks ≡ pre ++ publishing h el ∷ post
        → publish h el s.dns ≡ (kept, d)
        → Step s (record s { dns = d; tasks = pre ++ waking h kept ∷ post })
    wakes :
        (s : System Edps) (h : HostEdp) (el : Edps) (new : List (ℕ × Edps)) (d : SlowDns Edps)
        (pre post : List (Task Edps))
        → s.tasks ≡ pre ++ waking h el ∷ post
        → wake h el s.dns ≡ some (new, d)
        → Step s (record s { dns = d; tasks = pre ++ post; mail = new ++ s.mail })
    removes : (s : System Edps) (h : HostEdp) → Step s (record s { dns = remove h s.dns })

  abbrev pub start : List (HostEdp × Edps) → System Edps
  start cache = record {
    dns = record { edp_cache = cache; resolve_running = [] };
    tasks = [];
    mail = [];
    entered = [];
    dropped = [];
  }

  pub data Reach (cache : List (HostEdp × Edps)) : System Edps → Type 0 where
    here : Reach cache (start cache)
    next : {s t : System Edps} → Reach cache s → Step s t → Reach cache t
