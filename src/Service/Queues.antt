-- ===== src/Service/Queues.antt =====
-- What `enter` and `return_back` of src/http/http_svc_keeper.cpp make of the queues.
use hcpp.Common.{
  ℕ, Bool, true, false, List, [], ◌∷◌, ◌++◌, Option, none, some, Bytes, equal, equal_iff, ◌≡◌, refl,
  sym, ap, subst, ◌∙◌, if◌then◌else◌,
}
use hcpp.Server.{find_entry, emplace_entry}
use hcpp.Server.Filters.{find_entry-emplace, or_else, or_else-none}
use hcpp.Service.{SvcCache, enter, return_good, next_waiter, erase_entry, set_entry}
use hcpp.Service.Entries.{find_entry-erase_entry, find_entry-set_entry, assigned}
use hcpp.Service.Turns.{takes, queue_of}

-- What holds of every queue after one was changed.
unfoldable pub Becomes : Bytes → Option (List ℕ) → SvcCache → SvcCache → Type 0
Becomes svc q s t = (j : Bytes) → queue_of j t ≡ (if equal j svc then q else queue_of j s)

emplaced :
    (svc : Bytes) (q : List ℕ) (s t : SvcCache)
    → queue_of svc s ≡ none
    → t.request_queue ≡ emplace_entry svc q s.request_queue
    → Becomes svc (some q) s t
unfolding Becomes
emplaced svc q s t e f j =
    ap (find_entry j) f
    ∙ find_entry-emplace j svc q s.request_queue
    ∙ go (equal j svc) (λ h. ap (λ k. queue_of k s) ((equal_iff j svc).0 h) ∙ e)
  where
    go :
        (b : Bool)
        → (b ≡ true → queue_of j s ≡ none)
        → or_else (queue_of j s) (if b then some q else none) ≡ (if b then some q else queue_of j s)
    go true n = unfold or_else in rw (n refl) refl
    go false n = or_else-none (queue_of j s)

pub enter-first :
    (svc : Bytes) (c : ℕ) (s : SvcCache)
    → queue_of svc s ≡ none
    → ((enter svc c s).0 ≡ false) × Becomes svc (some (c ∷ [])) s (enter svc c s).1
unfolding enter
enter-first svc c s e =
    (rw (enter, e) refl, emplaced svc (c ∷ []) s (enter svc c s).1 e (rw (enter, e) refl))

pub assigned_to :
    (svc : Bytes) (p q : List ℕ) (s t : SvcCache)
    → queue_of svc s ≡ some p
    → t.request_queue ≡ set_entry svc q s.request_queue
    → Becomes svc (some q) s t
unfolding Becomes
assigned_to svc p q s t e f j =
    ap (find_entry j) f
    ∙ find_entry-set_entry j svc q s.request_queue
    ∙ go (equal j svc) (λ h. ap (λ k. queue_of k s) ((equal_iff j svc).0 h) ∙ e)
  where
    go :
        (b : Bool)
        → (b ≡ true → queue_of j s ≡ some p)
        → (if b then assigned q (queue_of j s) else queue_of j s)
          ≡ (if b then some q else queue_of j s)
    go true n = rw (n refl) refl
    go false n = refl

pub enter-later :
    (svc : Bytes) (c : ℕ) (q : List ℕ) (s : SvcCache)
    → queue_of svc s ≡ some q
    → ((enter svc c s).0 ≡ true) × Becomes svc (some (q ++ (c ∷ []))) s (enter svc c s).1
unfolding enter
enter-later svc c q s e = (
  rw (enter, e) refl,
  assigned_to svc q (q ++ (c ∷ [])) s (enter svc c s).1 e (rw (enter, e) refl),
)

all_take : (cs : List ℕ) → next_waiter takes cs ≡ cs
unfolding next_waiter
all_take [] = refl
all_take (c ∷ cs) = refl

-- The queue behind the one that gives the connection back.
abbrev pub behind_head : List ℕ → Option (List ℕ)
behind_head [] = none
behind_head (d ∷ ds) = some (d ∷ ds)

value_or : SvcCache → Option SvcCache → SvcCache
value_or s none = s
value_or s (some t) = t

return_good-last :
    (svc : Bytes) (c : ℕ) (s : SvcCache)
    → queue_of svc s ≡ some (c ∷ [])
    → return_good takes svc s ≡ some (record s { request_queue = erase_entry svc s.request_queue })
unfolding return_good
return_good-last svc c s e = rw (return_good, e, all_take []) refl

return_good-more :
    (svc : Bytes) (c d : ℕ) (ds : List ℕ) (s : SvcCache)
    → queue_of svc s ≡ some (c ∷ d ∷ ds)
    → return_good takes svc s
      ≡ some (record s { request_queue = set_entry svc (d ∷ ds) s.request_queue })
unfolding return_good
return_good-more svc c d ds s e = rw (return_good, e, all_take (d ∷ ds)) refl

pub return_good-next :
    (svc : Bytes) (c : ℕ) (cs : List ℕ) (s t : SvcCache)
    → queue_of svc s ≡ some (c ∷ cs)
    → return_good takes svc s ≡ some t
    → Becomes svc (behind_head cs) s t
unfolding value_or
return_good-next svc c [] s t e f =
    let same = ap (value_or s) (sym (return_good-last svc c s e) ∙ f) in
    subst (Becomes svc none s) same
      (unfold Becomes in λ j. find_entry-erase_entry j svc s.request_queue)
return_good-next svc c (d ∷ ds) s t e f =
    let same = ap (value_or s) (sym (return_good-more svc c d ds s e) ∙ f) in
    subst (Becomes svc (some (d ∷ ds)) s) same (assigned_to svc (c ∷ d ∷ ds) (d ∷ ds) s _ e refl)

pub return_good-none :
    (svc : Bytes) (s : SvcCache) → queue_of svc s ≡ none → return_good takes svc s ≡ none
unfolding return_good
return_good-none svc s e = rw (return_good, e) refl
