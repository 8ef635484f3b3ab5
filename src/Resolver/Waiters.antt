-- ===== src/Resolver/Waiters.antt =====
-- What becomes of the channels that wait in src/dns.cpp.
use hcpp.Common.{
  ℕ, ◌+◌, ◌≤◌, false, List, [], ◌∷◌, ◌++◌, Option, none, some, ◌==◌, ◌≡◌, ◌≢◌, refl, sym, ap, ◌∙◌,
  arith, if◌then◌else◌, Bool-cases, inl, inr,
}
use hcpp.Resolver.{
  HostEdp, SlowDns, same, find_key, erase_key, push_back, send_each, enter, give_up, wake, remove,
}
use hcpp.Resolver.Flights.{
  System, channels, Step, joins, starts, resolves, throws, publishes, wakes, removes, Reach, here,
  next,
}
use hcpp.Resolver.Single.{
  entries, enter-new, enter-old, publish-running, Reach-IsSingle, IsSingle, flights, same_self,
}

unfoldable pub count : ℕ → List ℕ → ℕ
count c [] = 0
count c (x ∷ xs) = (if c == x then 1 else 0) + count c xs

-- How often a channel waits in the table.
unfoldable pub waiting : ℕ → List (HostEdp × List ℕ) → ℕ
waiting c [] = 0
waiting c (x ∷ xs) = count c x.1 + waiting c xs

abbrev found : Option (List ℕ) → List ℕ
found none = []
found (some cs) = cs

count-append : (c : ℕ) (xs ys : List ℕ) → count c (xs ++ ys) ≡ count c xs + count c ys
unfolding count
count-append c [] ys = omega arith
count-append c (x ∷ xs) ys = ground (arith, count-append c xs ys)

waiting-push_back :
    (c d : ℕ) (h : HostEdp) (xs : List (HostEdp × List ℕ))
    → find_key h xs ≢ none
    → waiting c (push_back h d xs) ≡ (if c == d then 1 else 0) + waiting c xs
unfolding find_key push_back waiting
waiting-push_back c d h [] e = absurd (e refl)
waiting-push_back c d h (x ∷ xs) e = elim (Bool-cases (same h x.0)) [
  | inl here' ↦ rw here' (unfold count in ground (arith, count-append c x.1 (d ∷ [])))
  | inr there ↦
      let further : find_key h xs ≢ none = λ n. e (rw there n) in
      rw there (omega (arith, waiting-push_back c d h xs further))
]

erase_key-absent :
    (h : HostEdp) (xs : List (HostEdp × List ℕ)) → entries h xs ≡ 0 → erase_key h xs ≡ xs
unfolding entries erase_key
erase_key-absent h [] e = refl
erase_key-absent h (x ∷ xs) e = ground (arith, erase_key-absent h xs)

waiting-erase_key :
    (c : ℕ) (h : HostEdp) (xs : List (HostEdp × List ℕ))
    → entries h xs ≤ 1
    → waiting c (erase_key h xs) + count c (found (find_key h xs)) ≡ waiting c xs
unfolding entries find_key erase_key waiting
waiting-erase_key c h [] le = unfold count in refl
waiting-erase_key c h (x ∷ xs) le = elim (Bool-cases (same h x.0)) [
  | inl here' ↦
      let rest : erase_key h xs ≡ xs = erase_key-absent h xs (ground arith) in
      rw (here', rest) (omega arith)
  | inr there ↦ rw there (omega (arith, waiting-erase_key c h xs (ground arith)))
]

waiting-none :
    (c : ℕ) (xs : List (HostEdp × List ℕ)) → ((k : HostEdp) → entries k xs ≡ 0) → waiting c xs ≡ 0
unfolding entries waiting
waiting-none c [] e = refl
waiting-none c (x ∷ xs) e =
    let n : entries x.0 (x ∷ xs) ≡ 0 = e x.0 in absurd (ground (arith, same_self x.0, n))

module _ {Edps : Type 0} where
  -- How many messages a channel has been sent.
  unfoldable pub sent : ℕ → List (ℕ × Edps) → ℕ
  sent c [] = 0
  sent c (x ∷ xs) = (if c == x.0 then 1 else 0) + sent c xs

  sent-send_each :
      (c : ℕ) (el : Edps) (cs : List ℕ) (mail : List (ℕ × Edps))
      → sent c (send_each el cs ++ mail) ≡ count c cs + sent c mail
  unfolding sent send_each count
  sent-send_each c el [] mail = omega arith
  sent-send_each c el (x ∷ cs) mail = ground (arith, sent-send_each c el cs mail)

  enter-present :
      (h : HostEdp) (c : ℕ) (s d : SlowDns Edps)
      → enter h c s ≡ (false, d)
      → find_key h s.resolve_running ≢ none
  unfolding enter
  enter-present h c s d e = ground arith

  wake-mail :
      (h : HostEdp) (el : Edps) (new : List (ℕ × Edps)) (s d : SlowDns Edps)
      → wake h el s ≡ some (new, d)
      → (new ≡ send_each el (found (find_key h s.resolve_running)))
        × (d.resolve_running ≡ erase_key h s.resolve_running)
  unfolding wake
  wake-mail h el new s d e = (ground arith, ground arith)

  abbrev pub IsAccounted : System Edps → ℕ → Type 0
  IsAccounted s c =
      count c s.entered ≡ waiting c s.dns.resolve_running + sent c s.mail + count c s.dropped

  Step-IsAccounted :
      {s t : System Edps} (c : ℕ) → Step s t → IsSingle s → IsAccounted s c → IsAccounted t c
  Step-IsAccounted c (joins s h d dns e) v a =
      let w = waiting-push_back c d h s.dns.resolve_running (enter-present h d s.dns dns e) in
      rw (enter-old h d s.dns dns e) (unfold count in ground (arith, w, a))
  Step-IsAccounted c (starts s h d dns e) v a =
      rw (enter-new h d s.dns dns e).1 (unfold waiting count in ground (arith, a))
  Step-IsAccounted c (resolves s h el pre post e) v a = a
  Step-IsAccounted c (throws s h pre post e) v a =
      unfold give_up channels in
      omega (
        arith,
        a,
        waiting-erase_key c h s.dns.resolve_running (v h).1,
        count-append c (found (find_key h s.dns.resolve_running)) s.dropped,
      )
  Step-IsAccounted c (publishes s h el kept d pre post e p) v a =
      rw (publish-running h el kept s.dns d p) a
  Step-IsAccounted c (wakes s h el new d pre post e w) v a =
      let m = wake-mail h el new s.dns d w in
      rw (m.0, m.1)
        (omega (
          arith,
          a,
          waiting-erase_key c h s.dns.resolve_running (v h).1,
          sent-send_each c el (found (find_key h s.dns.resolve_running)) s.mail,
        ))
  Step-IsAccounted c (removes s h) v a = unfold remove in a

  -- In every state that the resolver reaches, each channel has entered exactly as often as it
  -- waits in the table, was sent a result, or was dropped with a resolution that failed, together.
  pub Reach-IsAccounted :
      {cache : List (HostEdp × Edps)} {s : System Edps} (c : ℕ) → Reach cache s → IsAccounted s c
  Reach-IsAccounted c here = unfold count waiting sent in refl
  Reach-IsAccounted c (next r st) = Step-IsAccounted c st (Reach-IsSingle r) (Reach-IsAccounted c r)

  -- In every state that the resolver reaches in which no coroutine is left, each channel was sent
  -- a result, or was dropped with a resolution that failed, as often as it has entered.
  pub Reach-quiet :
      {cache : List (HostEdp × Edps)} {s : System Edps} (c : ℕ)
      → Reach cache s
      → s.tasks ≡ []
      → count c s.entered ≡ sent c s.mail + count c s.dropped
  Reach-quiet {s = s} c r idle =
      let empty : (k : HostEdp) → entries k s.dns.resolve_running ≡ 0 =
        λ k. sym (Reach-IsSingle r k).0 ∙ ap (flights k) idle ∙ unfold flights in refl in
      omega (arith, Reach-IsAccounted c r, waiting-none c s.dns.resolve_running empty)
