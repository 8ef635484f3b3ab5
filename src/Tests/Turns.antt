-- ===== src/Tests/Turns.antt =====
-- Two channels ask for the same service, and the first gives its connection back.
use hcpp.Common.{◌≡◌, refl, [], ◌∷◌, codes, equal}
use hcpp.Server.{find_entry, emplace_entry}
use hcpp.Service.{enter, set_entry}
use hcpp.Service.Turns.{Shared, begins, waits, Reach, start, later, nobody, turn}
use hcpp.Service.Line.{lines_of, line, events, event, Reach-refines}

abbrev first : Shared
first = record {
  imp = record { cache = []; request_queue = (codes "a", 1 ∷ []) ∷ [] };
  holding = turn (codes "a") (1 ∷ []) (λ svc. []);
}

abbrev both : Shared
both = record {
  imp = record { cache = []; request_queue = (codes "a", 1 ∷ 2 ∷ []) ∷ [] };
  holding = first.holding;
}

both-Reach : Reach both
unfolding enter find_entry emplace_entry set_entry equal
both-Reach = later (later start (begins (codes "a") 1 nobody refl)) (waits (codes "a") 2 first refl)

-- Both stand in the line, the first of them in front.
Reach-refines_example :
    (lines_of both.imp (codes "a") ≡ 1 ∷ 2 ∷ []) × (both.holding (codes "a") ≡ 1 ∷ [])
unfolding line events event equal both-Reach
Reach-refines_example = Reach-refines both-Reach (codes "a")
