-- ===== src/Service/Turns.antt =====
-- The coroutines that share the connections of `svc_cache`, while no connection fails.
use hcpp.Common.{
  ℕ, Bool, true, false, List, [], ◌∷◌, ◌++◌, Option, none, some, Bytes, equal, ◌≡◌, if◌then◌else◌,
}
use hcpp.Server.{find_entry}
use hcpp.Service.{SvcCache, enter, return_good}

-- The state, and for every service the channels that were sent its connection and have not given
-- it back.
pub record Shared : Type 0 where
  pub imp : SvcCache
  pub holding : Bytes → List ℕ

abbrev pub turn : Bytes → List ℕ → (Bytes → List ℕ) → Bytes → List ℕ
turn svc cs h j = if equal j svc then cs else h j

-- Every channel takes what it is sent.
abbrev pub takes : ℕ → Bool
takes c = true

abbrev pub queue_of : Bytes → SvcCache → Option (List ℕ)
queue_of svc s = find_entry svc s.request_queue

-- Who is sent the connection when it is given back.
abbrev pub head_of : Option (List ℕ) → List ℕ
head_of none = []
head_of (some []) = []
head_of (some (c ∷ cs)) = c ∷ []

pub data Step : Shared → Shared → Type 0 where
  begins :
      (svc : Bytes) (c : ℕ) (s : Shared)
      → (enter svc c s.imp).0 ≡ false
      → Step s
          (record { imp = (enter svc c s.imp).1; holding = turn svc (c ∷ s.holding svc) s.holding })
  waits :
      (svc : Bytes) (c : ℕ) (s : Shared)
      → (enter svc c s.imp).0 ≡ true
      → Step s (record { imp = (enter svc c s.imp).1; holding = s.holding })
  gives_back :
      (svc : Bytes) (before behind : List ℕ) (c : ℕ) (s : Shared) (imp : SvcCache)
      → s.holding svc ≡ before ++ (c ∷ behind)
      → return_good takes svc s.imp ≡ some imp
      → Step s (record {
        imp = imp;
        holding = turn svc (before ++ (behind ++ head_of (queue_of svc imp))) s.holding;
      })

abbrev pub nobody : Shared
nobody = record { imp = record { cache = []; request_queue = [] }; holding = λ svc. [] }

pub data Reach : Shared → Type 0 where
  start : Reach nobody
  later : {s t : Shared} → Reach s → Step s t → Reach t
