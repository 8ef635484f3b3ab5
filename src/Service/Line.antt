-- ===== src/Service/Line.antt =====
-- The queues of `svc_cache` in src/http/http_svc_keeper.cpp as what they are for: one line for every
-- service, in which a channel goes to the end, and the one in front has the connection and leaves.
use hcpp.Common.{
  drop, equal_iff, ℕ, Bool, true, false, List, [], ◌∷◌, ◌++◌, Option, none, some, Bytes, equal, ◌≡◌,
  refl, sym, ap, ◌∙◌, arith, if◌then◌else◌,
}
use hcpp.Server.{find_entry}
use hcpp.Service.{SvcCache, enter, return_good}
use hcpp.Service.Turns.{
  Shared, takes, queue_of, Step, begins, waits, gives_back, Reach, start, later,
}
use hcpp.Service.Queues.{
  Becomes, behind_head, enter-first, enter-later, return_good-next, return_good-none,
}
use hcpp.Service.Fair.{IsTurn, IsFair, Reach-IsFair}

abbrev pub front : List ℕ → List ℕ
front [] = []
front (c ∷ cs) = c ∷ []

-- What happens to the lines: a channel asks for a service, or gives its connection back.
pub data Event : Type 0 where
  asks returns : Bytes → ℕ → Event

-- The line of a service after some events, the last one first.
unfoldable pub line : Bytes → List Event → List ℕ
line svc [] = []
line svc (asks s c ∷ es) = if equal svc s then line svc es ++ (c ∷ []) else line svc es
line svc (returns s c ∷ es) = if equal svc s then drop 1 (line svc es) else line svc es

-- Who asks for what, or gives what back, in a step and in a run.
unfoldable pub event : {s t : Shared} → Step s t → Event
event (begins svc c s e) = asks svc c
event (waits svc c s e) = asks svc c
event (gives_back svc before behind c s imp h f) = returns svc c

unfoldable pub events : {s : Shared} → Reach s → List Event
events start = []
events (later r p) = event p ∷ events r

abbrev pub waiting : Option (List ℕ) → List ℕ
waiting none = []
waiting (some q) = q

-- A service without a queue has an empty line.
abbrev pub lines_of : SvcCache → Bytes → List ℕ
lines_of s svc = waiting (queue_of svc s)

viewed :
    (svc : Bytes) (q : Option (List ℕ)) (p : List ℕ) (s t : SvcCache)
    → Becomes svc q s t
    → waiting q ≡ p
    → (j : Bytes) → waiting (queue_of j t) ≡ (if equal j svc then p else waiting (queue_of j s))
unfolding Becomes
viewed svc q p s t b e j = ap waiting (b j) ∙ go (equal j svc)
  where
    go :
        (d : Bool)
        → waiting (if d then q else queue_of j s) ≡ (if d then p else waiting (queue_of j s))
    go true = e
    go false = refl

-- What an event makes of the line of one service.
abbrev moved : Bytes → Event → List ℕ → List ℕ
moved j (asks s c) cs = if equal j s then cs ++ (c ∷ []) else cs
moved j (returns s c) cs = if equal j s then drop 1 cs else cs

abbrev Moves : Event → SvcCache → SvcCache → Type 0
Moves e s t = (j : Bytes) → lines_of t j ≡ moved j e (lines_of s j)

-- A change of one line, in the words of the line that it had.
at_line :
    (svc : Bytes) (p : List ℕ) (f : List ℕ → List ℕ) (s t : SvcCache)
    → ((j : Bytes) → lines_of t j ≡ (if equal j svc then p else lines_of s j))
    → p ≡ f (lines_of s svc)
    → (j : Bytes) → lines_of t j ≡ (if equal j svc then f (lines_of s j) else lines_of s j)
at_line svc p f s t h e j = h j ∙ go (equal j svc) (λ q. (equal_iff j svc).0 q)
  where
    go :
        (d : Bool)
        → (d ≡ true → j ≡ svc)
        → (if d then p else lines_of s j) ≡ (if d then f (lines_of s j) else lines_of s j)
    go true q = e ∙ ap (λ k. f (lines_of s k)) (sym (q refl))
    go false q = refl

joined :
    (svc : Bytes) (c : ℕ) (s : SvcCache) (o : Option (List ℕ))
    → queue_of svc s ≡ o
    → Moves (asks svc c) s (enter svc c s).1
joined svc c s none e =
    at_line svc (c ∷ []) (λ l. l ++ (c ∷ [])) s (enter svc c s).1
      (viewed svc (some (c ∷ [])) (c ∷ []) s (enter svc c s).1 (enter-first svc c s e).1 refl)
      (ap (λ o. waiting o ++ (c ∷ [])) (sym e))
joined svc c s (some q) e =
    at_line svc (q ++ (c ∷ [])) (λ l. l ++ (c ∷ [])) s (enter svc c s).1
      (viewed svc (some (q ++ (c ∷ []))) (q ++ (c ∷ [])) s (enter svc c s).1
        (enter-later svc c q s e).1 refl)
      (ap (λ o. waiting o ++ (c ∷ [])) (sym e))

behind_head-waiting : (cs : List ℕ) → waiting (behind_head cs) ≡ cs
behind_head-waiting [] = refl
behind_head-waiting (d ∷ ds) = refl

left :
    (svc : Bytes) (c : ℕ) (s : Shared) (imp : SvcCache) (o : Option (List ℕ))
    → queue_of svc s.imp ≡ o
    → IsTurn o (s.holding svc)
    → return_good takes svc s.imp ≡ some imp
    → Moves (returns svc c) s.imp imp
unfolding IsTurn
left svc c s imp none e a f =
    let clash : none ≡ some imp = sym (return_good-none svc s.imp e) ∙ f in
    absurd (ground (arith, clash))
left svc c s imp (some []) e a f = absurd a
left svc c s imp (some (b ∷ cs)) e a f =
    at_line svc cs (drop 1) s.imp imp
      (viewed svc (behind_head cs) cs s.imp imp (return_good-next svc b cs s.imp imp e f)
        (behind_head-waiting cs))
      (ap (λ o. drop 1 (waiting o)) (sym e))

Step-Moves : {s t : Shared} → IsFair s → (p : Step s t) → Moves (event p) s.imp t.imp
unfolding IsFair event
Step-Moves fair (begins svc c s e) = joined svc c s.imp (queue_of svc s.imp) refl
Step-Moves fair (waits svc c s e) = joined svc c s.imp (queue_of svc s.imp) refl
Step-Moves fair (gives_back svc before behind c s imp h f) =
    left svc c s imp (queue_of svc s.imp) refl (fair svc) f

line-moved :
    (svc : Bytes) (e : Event) (es : List Event) → line svc (e ∷ es) ≡ moved svc e (line svc es)
unfolding line
line-moved svc (asks s c) es = refl
line-moved svc (returns s c) es = refl

in_turn : (o : Option (List ℕ)) (h : List ℕ) → IsTurn o h → h ≡ front (waiting o)
unfolding IsTurn
in_turn none h a = a
in_turn (some []) h a = absurd a
in_turn (some (c ∷ cs)) h a = a

Reach-line : {s : Shared} (r : Reach s) (svc : Bytes) → lines_of s.imp svc ≡ line svc (events r)
unfolding find_entry events line
Reach-line start svc = refl
Reach-line (later r p) svc =
    Step-Moves (Reach-IsFair r) p svc
    ∙ ap (moved svc (event p)) (Reach-line r svc)
    ∙ sym (line-moved svc (event p) (events r))

-- While no connection fails and every channel takes what it is sent, the queues of the cache of
-- connections behave as one line for every service: in every state that the coroutines reach, the
-- queue of a service is its line, in which each channel that asked for the service went to the end
-- in the order of asking and each connection that was given back took the first away, and exactly
-- the first of the line, if there is one, has the connection.
pub Reach-refines :
    {s : Shared} (r : Reach s) (svc : Bytes)
    → (lines_of s.imp svc ≡ line svc (events r)) × (s.holding svc ≡ front (line svc (events r)))
unfolding IsFair
Reach-refines {s = s} r svc = (
  Reach-line r svc,
  in_turn (queue_of svc s.imp) (s.holding svc) (Reach-IsFair r svc) ∙ ap front (Reach-line r svc),
)
