-- ===== src/Service/Fair.antt =====
-- Who has a connection, in every state that the coroutines of `svc_cache` reach.
use hcpp.Common.{
  ℕ, Bool, true, false, List, [], ◌∷◌, ◌++◌, Option, none, some, Bytes, equal, equal_iff,
  equal_self, ◌≡◌, refl, sym, ap, subst, ◌∙◌, arith, if◌then◌else◌, length, ◌≤◌,
}
use hcpp.Server.{find_entry}
use hcpp.Service.{SvcCache, enter, return_good}
use hcpp.Service.Turns.{
  Shared, turn, takes, queue_of, head_of, Step, begins, waits, gives_back, Reach, start, later,
}
use hcpp.Service.Queues.{
  Becomes, behind_head, enter-first, enter-later, return_good-next, return_good-none,
}

-- The head of a queue is the one that has the connection.
unfoldable pub IsTurn : Option (List ℕ) → List ℕ → Type 0
IsTurn none h = h ≡ []
IsTurn (some []) h = ⊥
IsTurn (some (c ∷ cs)) h = h ≡ c ∷ []

unfoldable pub IsFair : Shared → Type 0
IsFair s = (svc : Bytes) → IsTurn (queue_of svc s.imp) (s.holding svc)

-- A change of one queue, and of who has that connection, is fair if it is fair for that service.
changed :
    (svc : Bytes) (q : Option (List ℕ)) (cs : List ℕ) (s : Shared) (t : SvcCache)
    → IsFair s
    → Becomes svc q s.imp t
    → IsTurn q cs
    → IsFair (record { imp = t; holding = turn svc cs s.holding })
unfolding IsFair Becomes
changed svc q cs s t fair b a j = rw (b j) (go (equal j svc))
  where
    go : (d : Bool) → IsTurn (if d then q else queue_of j s.imp) (if d then cs else s.holding j)
    go true = a
    go false = fair j

-- Only one channel can be in front of and behind the one that has the connection.
alone :
    (before behind : List ℕ) (a c : ℕ)
    → a ∷ [] ≡ before ++ (c ∷ behind)
    → (before ≡ []) × (behind ≡ [])
alone [] [] a c e = (refl, refl)
alone [] (x ∷ xs) a c e = absurd (omega (arith, ap length e))
alone (y ∷ []) behind a c e = absurd (omega (arith, ap length e))
alone (y ∷ z ∷ ys) behind a c e = absurd (omega (arith, ap length e))

behind_head-IsTurn : (cs : List ℕ) → IsTurn (behind_head cs) (head_of (behind_head cs))
unfolding IsTurn
behind_head-IsTurn [] = refl
behind_head-IsTurn (d ∷ ds) = refl

given_back :
    (svc : Bytes) (before behind : List ℕ) (c : ℕ) (s : Shared) (imp : SvcCache)
    (o : Option (List ℕ))
    → queue_of svc s.imp ≡ o
    → IsTurn o (s.holding svc)
    → IsFair s
    → s.holding svc ≡ before ++ (c ∷ behind)
    → return_good takes svc s.imp ≡ some imp
    → IsFair (record {
      imp = imp;
      holding = turn svc (before ++ (behind ++ head_of (queue_of svc imp))) s.holding;
    })
unfolding IsTurn
given_back svc before behind c s imp none e a fair h f =
    let clash : none ≡ some imp = sym (return_good-none svc s.imp e) ∙ f in
    absurd (ground (arith, clash))
given_back svc before behind c s imp (some []) e a fair h f = absurd a
given_back svc before behind c s imp (some (b ∷ cs)) e a fair h f =
    let next = return_good-next svc b cs s.imp imp e f in
    let (p, q) = alone before behind b c (sym a ∙ h) in
    let mine : queue_of svc imp ≡ (if equal svc svc then behind_head cs else queue_of svc s.imp) =
      unfold Becomes in next svc in
    let own : queue_of svc imp ≡ behind_head cs =
      mine ∙ ap (λ t. if t then behind_head cs else queue_of svc s.imp) (equal_self svc) in
    let list : before ++ (behind ++ head_of (queue_of svc imp)) ≡ head_of (behind_head cs) =
      ap (λ l. l ++ (behind ++ head_of (queue_of svc imp))) p
      ∙ ap (λ l. l ++ head_of (queue_of svc imp)) q
      ∙ ap head_of own in
    changed svc (behind_head cs) _ s imp fair next
      (subst (IsTurn (behind_head cs)) (sym list) (behind_head-IsTurn cs))

kept :
    (svc : Bytes) (q : Option (List ℕ)) (s : Shared) (t : SvcCache)
    → IsFair s
    → Becomes svc q s.imp t
    → IsTurn q (s.holding svc)
    → IsFair (record { imp = t; holding = s.holding })
unfolding IsFair Becomes
kept svc q s t fair b a j = rw (b j) (go (equal j svc) (λ e. (equal_iff j svc).0 e))
  where
    go :
        (d : Bool) → (d ≡ true → j ≡ svc) → IsTurn (if d then q else queue_of j s.imp) (s.holding j)
    go true e = subst (λ k. IsTurn q (s.holding k)) (sym (e refl)) a
    go false e = fair j

waited :
    (svc : Bytes) (c : ℕ) (s : Shared) (o : Option (List ℕ))
    → queue_of svc s.imp ≡ o
    → IsTurn o (s.holding svc)
    → IsFair s
    → (enter svc c s.imp).0 ≡ true
    → IsFair (record { imp = (enter svc c s.imp).1; holding = s.holding })
unfolding IsTurn
waited svc c s none e a fair f =
    let clash : true ≡ false = sym f ∙ (enter-first svc c s.imp e).0 in
    absurd (ground (arith, clash))
waited svc c s (some []) e a fair f = absurd a
waited svc c s (some (b ∷ bs)) e a fair f =
    kept svc (some ((b ∷ bs) ++ (c ∷ []))) s _ fair (enter-later svc c (b ∷ bs) s.imp e).1 a

begun :
    (svc : Bytes) (c : ℕ) (s : Shared) (o : Option (List ℕ))
    → queue_of svc s.imp ≡ o
    → IsTurn o (s.holding svc)
    → IsFair s
    → (enter svc c s.imp).0 ≡ false
    → IsFair
        (record { imp = (enter svc c s.imp).1; holding = turn svc (c ∷ s.holding svc) s.holding })
unfolding IsTurn
begun svc c s none e a fair f =
    changed svc (some (c ∷ [])) (c ∷ s.holding svc) s _ fair (enter-first svc c s.imp e).1
      (ap (◌∷◌ c) a)
begun svc c s (some q) e a fair f =
    let clash : true ≡ false = sym (enter-later svc c q s.imp e).0 ∙ f in
    absurd (ground (arith, clash))

Step-IsFair : {s t : Shared} → Step s t → IsFair s → IsFair t
unfolding IsFair
Step-IsFair (begins svc c s e) fair = begun svc c s (queue_of svc s.imp) refl (fair svc) fair e
Step-IsFair (waits svc c s e) fair = waited svc c s (queue_of svc s.imp) refl (fair svc) fair e
Step-IsFair (gives_back svc before behind c s imp h f) fair =
    given_back svc before behind c s imp (queue_of svc s.imp) refl (fair svc) fair h f

pub Reach-IsFair : {s : Shared} → Reach s → IsFair s
unfolding IsFair IsTurn
Reach-IsFair start = λ svc. unfold find_entry in refl
Reach-IsFair (later r p) = Step-IsFair p (Reach-IsFair r)

turn_size : (o : Option (List ℕ)) (h : List ℕ) → IsTurn o h → length h ≤ 1
unfolding IsTurn
turn_size none h a = omega (arith, ap length a)
turn_size (some []) h a = absurd a
turn_size (some (c ∷ cs)) h a = omega (arith, ap length a)

in_front :
    (o : Option (List ℕ)) (h behind : List ℕ) (c : ℕ)
    → IsTurn o h
    → h ≡ c ∷ behind
    → (cs : List ℕ) × (o ≡ some (c ∷ cs))
unfolding IsTurn
in_front none h behind c a e = absurd (omega (arith, ap length (sym a ∙ e)))
in_front (some []) h behind c a e = absurd a
in_front (some (d ∷ cs)) h behind c a e = (cs, ap (λ b. some (b ∷ cs)) (ap (head_or d) (sym a ∙ e)))
  where
    head_or : ℕ → List ℕ → ℕ
    head_or n [] = n
    head_or n (x ∷ xs) = x

-- While no connection fails and every channel takes what it is sent, in every state that the
-- coroutines of the cache of connections reach at most one channel has the connection of a
-- service, and it stands in front of the service's queue, so that giving the connection back finds
-- a queue that is not empty.
pub one_holder :
    {s : Shared} (svc : Bytes)
    → Reach s
    → (length (s.holding svc) ≤ 1)
      × ((c : ℕ) (behind : List ℕ)
          → s.holding svc ≡ c ∷ behind
          → (cs : List ℕ) × (queue_of svc s.imp ≡ some (c ∷ cs)))
unfolding IsFair
one_holder {s = s} svc r =
    let fair = Reach-IsFair r svc in
    (
      turn_size (queue_of svc s.imp) (s.holding svc) fair,
      λ c behind e. in_front (queue_of svc s.imp) (s.holding svc) behind c fair e,
    )
