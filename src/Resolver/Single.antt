-- ===== src/Resolver/Single.antt =====
-- The resolutions that run at one time in src/dns.cpp, and the table that has them.
use hcpp.Common.{
  ℕ, ◌+◌, ◌≤◌, ◌<◌, true, false, List, [], ◌∷◌, ◌++◌, none, some, ◌≡◌, ◌≢◌, ◌↔◌, refl, sym, ap, ap₂,
  ◌∙◌, arith, equal, equal_iff, equal_self, if◌then◌else◌, Bool-cases, Option-cases, inl, inr,
}
use hcpp.Resolver.{
  HostEdp, SlowDns, same, find_key, erase_key, push_back, enter, give_up, publish, wake, remove,
}
use hcpp.Resolver.Flights.{
  Task, resolving, publishing, waking, System, Step, joins, starts, resolves, throws, publishes,
  wakes, removes, Reach, here, next,
}

pub same_self : (h : HostEdp) → same h h ≡ true
unfolding same
same_self h = ground (arith, equal_self h.0, equal_self h.1)

pub same_eq : (h k : HostEdp) → same h k ≡ true → h ≡ k
unfolding same
same_eq h k e =
    let a : equal h.0 k.0 ≡ true = ground arith in
    let b : equal h.1 k.1 ≡ true = ground arith in
    ap₂ (λ x y. (x, y)) ((equal_iff h.0 k.0).0 a) ((equal_iff h.1 k.1).0 b)

-- The number of entries of a table with a key, and of coroutines that work for it.
module _ {A : Type 0} where
  unfoldable pub entries : HostEdp → List (HostEdp × A) → ℕ
  entries k [] = 0
  entries k (x ∷ xs) = (if same k x.0 then 1 else 0) + entries k xs

  pub entries-find_none :
      (k : HostEdp) (xs : List (HostEdp × A)) → find_key k xs ≡ none → entries k xs ≡ 0
  unfolding entries find_key
  entries-find_none k [] e = refl
  entries-find_none k (x ∷ xs) e = ground (arith, entries-find_none k xs)

  pub entries-find_some :
      (k : HostEdp) (a : A) (xs : List (HostEdp × A)) → find_key k xs ≡ some a → 0 < entries k xs
  unfolding entries find_key
  entries-find_some k a [] e = cc
  entries-find_some k a (x ∷ xs) e = ground (arith, entries-find_some k a xs)

  pub entries-erase_key :
      (k h : HostEdp) (xs : List (HostEdp × A))
      → entries k (erase_key h xs) ≡ (if same k h then 0 else entries k xs)
  unfolding entries erase_key
  entries-erase_key k h [] = ground arith
  entries-erase_key k h (x ∷ xs) = elim (Bool-cases (same k h)) [
    | inr other ↦ elim (Bool-cases (same h x.0)) [
      | inl there ↦
          let apart : same k x.0 ≡ false = rw (← same_eq h x.0 there) other in
          ground (arith, entries-erase_key k h xs)
      | inr away ↦ ground (arith, entries-erase_key k h xs)
    ]
    | inl equals ↦
        let e : same k x.0 ≡ same h x.0 = ap (λ i. same i x.0) (same_eq k h equals) in
        ground (arith, entries-erase_key k h xs)
  ]

pub entries-push_back :
    (k h : HostEdp) (c : ℕ) (xs : List (HostEdp × List ℕ))
    → entries k (push_back h c xs) ≡ entries k xs
unfolding entries push_back
entries-push_back k h c [] = refl
entries-push_back k h c (x ∷ xs) = ground (arith, entries-push_back k h c xs)

module _ {Edps : Type 0} where
  abbrev pub host_of : Task Edps → HostEdp
  host_of (resolving h) = h
  host_of (publishing h el) = h
  host_of (waking h el) = h

  unfoldable pub flights : HostEdp → List (Task Edps) → ℕ
  flights k [] = 0
  flights k (t ∷ ts) = (if same k (host_of t) then 1 else 0) + flights k ts

  pub flights-append :
      (k : HostEdp) (xs ys : List (Task Edps)) → flights k (xs ++ ys) ≡ flights k xs + flights k ys
  unfolding flights
  flights-append k [] ys = omega arith
  flights-append k (x ∷ xs) ys = ground (arith, flights-append k xs ys)

  abbrev pub IsSingle : System Edps → Type 0
  IsSingle s =
      (k : HostEdp)
      → (flights k s.tasks ≡ entries k s.dns.resolve_running)
        × (entries k s.dns.resolve_running ≤ 1)

  -- What a step does to one task in the list.
  flights-middle :
      (k : HostEdp) (pre post : List (Task Edps)) (t : Task Edps)
      → flights k (pre ++ t ∷ post)
        ≡ (if same k (host_of t) then 1 else 0) + flights k (pre ++ post)
  unfolding flights
  flights-middle k pre post t =
      ground (arith, flights-append k pre (t ∷ post), flights-append k pre post)

  -- A finished task and its entry go together.
  finish-lem :
      (k h : HostEdp) (ts pre post : List (Task Edps)) (t : Task Edps)
      (xs : List (HostEdp × List ℕ))
      → ts ≡ pre ++ t ∷ post
      → host_of t ≡ h
      → flights k ts ≡ entries k xs
      → entries k xs ≤ 1
      → (flights k (pre ++ post) ≡ entries k (erase_key h xs)) × (entries k (erase_key h xs) ≤ 1)
  finish-lem k h ts pre post t xs e same_host f le =
      let found : flights k ts ≡ (if same k h then 1 else 0) + flights k (pre ++ post) =
        ap (flights k) e
        ∙ flights-middle k pre post t
        ∙ ap (λ i. (if same k i then 1 else 0) + flights k (pre ++ post)) same_host in
      let erased = entries-erase_key k h xs in
      elim (Bool-cases (same k h)) [
        | inl equals ↦ (ground arith, ground arith)
        | inr other ↦ (ground arith, ground arith)
      ]

  pub enter-new :
      (h : HostEdp) (c : ℕ) (s d : SlowDns Edps)
      → enter h c s ≡ (true, d)
      → (find_key h s.resolve_running ≡ none)
        × (d.resolve_running ≡ (h, c ∷ []) ∷ s.resolve_running)
  unfolding enter
  enter-new h c s d e = (ground arith, ground arith)

  pub enter-old :
      (h : HostEdp) (c : ℕ) (s d : SlowDns Edps)
      → enter h c s ≡ (false, d)
      → d.resolve_running ≡ push_back h c s.resolve_running
  unfolding enter
  enter-old h c s d e = ground arith

  pub publish-running :
      (h : HostEdp) (el kept : Edps) (s d : SlowDns Edps)
      → publish h el s ≡ (kept, d)
      → d.resolve_running ≡ s.resolve_running
  unfolding publish
  publish-running h el kept s d e = ground arith

  pub wake-some :
      (h : HostEdp) (el : Edps) (new : List (ℕ × Edps)) (s d : SlowDns Edps)
      → wake h el s ≡ some (new, d)
      → d.resolve_running ≡ erase_key h s.resolve_running
  unfolding wake
  wake-some h el new s d e = ground arith

  Step-IsSingle : {s t : System Edps} → Step s t → IsSingle s → IsSingle t
  Step-IsSingle (joins s h c d e) v k =
      rw (enter-old h c s.dns d e, entries-push_back k h c s.dns.resolve_running) (v k)
  Step-IsSingle (starts s h c d e) v k =
      let new = enter-new h c s.dns d e in
      let none_yet = entries-find_none h s.dns.resolve_running new.0 in
      rw new.1 (
        unfold flights entries in
        elim (Bool-cases (same k h)) [
          | inl equals ↦
              let e : entries k s.dns.resolve_running ≡ 0 = rw (same_eq k h equals) none_yet in
              (ground (arith, v k), ground (arith, v k))
          | inr other ↦ (ground (arith, v k), ground (arith, v k))
        ])
  Step-IsSingle (resolves s h el pre post e) v k = (
    flights-middle k pre post (publishing h el)
        ∙ sym (flights-middle k pre post (resolving h))
        ∙ ap (flights k) (sym e)
        ∙ (v k).0,
    (v k).1,
  )
  Step-IsSingle (throws s h pre post e) v k =
      unfold give_up in
      finish-lem k h s.tasks pre post (resolving h) s.dns.resolve_running e refl (v k).0 (v k).1
  Step-IsSingle (publishes s h el kept d pre post e p) v k =
      rw (publish-running h el kept s.dns d p) (
        flights-middle k pre post (waking h kept)
            ∙ sym (flights-middle k pre post (publishing h el))
            ∙ ap (flights k) (sym e)
            ∙ (v k).0,
        (v k).1,
      )
  Step-IsSingle (wakes s h el new d pre post e w) v k =
      rw (wake-some h el new s.dns d w)
        (finish-lem k h s.tasks pre post (waking h el) s.dns.resolve_running e refl (v k).0 (v k).1)
  Step-IsSingle (removes s h) v k = unfold remove in v k

  pub Reach-IsSingle :
      {cache : List (HostEdp × Edps)} {s : System Edps} → Reach cache s → IsSingle s
  Reach-IsSingle here k = unfold flights entries in (refl, omega arith)
  Reach-IsSingle (next r st) k = Step-IsSingle st (Reach-IsSingle r) k

  -- In every state that the resolver reaches, whatever the order of its steps, at most one
  -- coroutine resolves a key, and the table of running resolutions has an entry for the key
  -- exactly while one does.
  pub single_flight :
      {cache : List (HostEdp × Edps)} {s : System Edps} (k : HostEdp)
      → Reach cache s
      → (flights k s.tasks ≤ 1) × (find_key k s.dns.resolve_running ≡ none ↔ flights k s.tasks ≡ 0)
  single_flight {s = s} k r =
      let v = Reach-IsSingle r k in
      (
        omega (arith, v),
        (
          λ e. v.0 ∙ entries-find_none k s.dns.resolve_running e,
          λ e. elim (Option-cases (find_key k s.dns.resolve_running)) [
            | inl absent ↦ absent
            | inr (cs, present) ↦
                absurd (omega (arith, v, e, entries-find_some k cs s.dns.resolve_running present))
          ],
        ),
      )

  -- In every state that the resolver reaches, a coroutine that is about to wake the channels of a
  -- key finds the key in the table: the iterator that it uses is never the end.
  pub wake-defined :
      {cache : List (HostEdp × Edps)} {s : System Edps} (h : HostEdp) (el : Edps)
      (pre post : List (Task Edps))
      → Reach cache s
      → s.tasks ≡ pre ++ waking h el ∷ post
      → wake h el s.dns ≢ none
  unfolding wake
  wake-defined {s = s} h el pre post r e =
      let v = Reach-IsSingle r h in
      let some_task = ap (flights h) e ∙ flights-middle h pre post (waking h el) in
      ground (arith, same_self h, entries-find_none h s.dns.resolve_running)
