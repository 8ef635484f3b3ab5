-- ===== src/Dns/Name/Gaps.antt =====
-- The labels into which `host2qname` of src/dns/dnshttps.cc splits a host: where their dots stand.
use hcpp.Common.{
  ℕ, zero, suc, ◌+◌, ◌≤◌, ◌<◌, false, [], ◌∷◌, ◌++◌, ◌≡◌, ◌≢◌, ◌⊎◌, inl, inr, refl, ap, ◌∙◌, arith,
  Bytes, length, take, drop, get_or, ltb, length-take, length-drop, starts_with, Bool-cases,
  Option-cases, none, find,
}
use hcpp.Dns.Name.{dot, dns_max_label, split_host}

-- A dot among the first `n` bytes.
abbrev pub Near : ℕ → Bytes → Type 0
Near zero s = ⊥
Near (suc n) [] = ⊥
Near (suc n) (c ∷ cs) = (c ≡ dot) ⊎ Near n cs

-- From every place on a dot is near.
abbrev pub Gapped : Bytes → Type 0
Gapped [] = Unit {0}
Gapped (c ∷ cs) = Near 64 (c ∷ cs) × Gapped cs

Near-mono : (n : ℕ) (s : Bytes) → Near n s → Near (suc n) s
Near-mono zero s h = absurd h
Near-mono (suc n) [] h = absurd h
Near-mono (suc n) (c ∷ cs) (inl e) = inl e
Near-mono (suc n) (c ∷ cs) (inr h) = inr (Near-mono n cs h)

Near-label : (n : ℕ) (l t : Bytes) → length l < n → Near n (l ++ (dot ∷ t))
Near-label zero l t h = absurd (omega arith)
Near-label (suc n) [] t h = inl refl
Near-label (suc n) (c ∷ cs) t h = inr (Near-label n cs t (omega arith))

Gapped-label : (l t : Bytes) → length l < 64 → Gapped t → Gapped (l ++ (dot ∷ t))
Gapped-label [] t h g = (inl refl, g)
Gapped-label (c ∷ cs) t h g = (Near-label 64 (c ∷ cs) t h, Gapped-label cs t (omega arith) g)

Near-at : (n : ℕ) (s : Bytes) → Near n s → (k : ℕ) × (k < n) × (k < length s) × (get_or s k 0 ≡ dot)
Near-at zero s h = absurd h
Near-at (suc n) [] h = absurd h
Near-at (suc n) (c ∷ cs) (inl e) = (0, omega arith, omega arith, e)
Near-at (suc n) (c ∷ cs) (inr h) =
    let (k, a, b, e) = Near-at n cs h in (suc k, omega arith, omega arith, e)

pub Gapped-at :
    (s : Bytes) (p : ℕ)
    → Gapped s
    → p < length s
    → (k : ℕ) × (k < 64) × (p + k < length s) × (get_or s (p + k) 0 ≡ dot)
Gapped-at [] p g h = absurd (omega arith)
Gapped-at (c ∷ cs) zero (near, g) h =
    let (k, a, b, e) = Near-at 64 (c ∷ cs) near in
    (k, a, omega arith, ap (λ j. get_or (c ∷ cs) j 0) {x = 0 + k} (omega arith) ∙ e)
Gapped-at (c ∷ cs) (suc p) (near, g) h =
    let (k, a, b, e) = Gapped-at cs p g (omega arith) in
    (
      k,
      a,
      omega arith,
      ap (λ j. get_or (c ∷ cs) j 0) {x = suc p + k} {y = suc (p + k)} (omega arith) ∙ e,
    )

ltb-false : (a b : ℕ) → ltb a b ≡ false → b ≤ a
ltb-false a b h = ground arith

-- A text that is empty, or ends in a dot.
abbrev pub EndsDot : Bytes → Type 0
EndsDot [] = Unit {0}
EndsDot (c ∷ []) = c ≡ dot
EndsDot (c ∷ d ∷ s) = EndsDot (d ∷ s)

EndsDot-tail : (c : ℕ) (s : Bytes) → EndsDot (c ∷ s) → EndsDot s
EndsDot-tail c [] e = tt
EndsDot-tail c (d ∷ s) e = e

EndsDot-drop : (n : ℕ) (s : Bytes) → EndsDot s → EndsDot (drop n s)
EndsDot-drop zero s e = e
EndsDot-drop (suc n) [] e = tt
EndsDot-drop (suc n) (c ∷ s) e = EndsDot-drop n s (EndsDot-tail c s e)

pub EndsDot-append : (x : Bytes) → EndsDot (x ++ (dot ∷ []))
EndsDot-append [] = refl
EndsDot-append (c ∷ []) = refl
EndsDot-append (c ∷ d ∷ s) = EndsDot-append (d ∷ s)

find-dot : (c : ℕ) (s : Bytes) → EndsDot (c ∷ s) → find (c ∷ s) (dot ∷ []) ≢ none
unfolding find starts_with
find-dot c [] e = ground (arith, e)
find-dot c (d ∷ s) e = ground (arith, find-dot d s e)

pub split_host-Gapped :
    (fuel : ℕ) (s : Bytes) → EndsDot s → length s < fuel → Gapped (split_host fuel s)
unfolding split_host
split_host-Gapped zero s e h = absurd (omega arith)
split_host-Gapped (suc fuel) [] e h = tt
split_host-Gapped (suc fuel) (c ∷ s) e h = elim (Option-cases (find (c ∷ s) (dot ∷ []))) [
  | inl absent ↦ absurd (find-dot c s e absent)
  | inr (n, found) ↦ elim (Bool-cases (ltb dns_max_label n)) [
    | inl long ↦
        rw (split_host, found, long)
          (Gapped-label (take dns_max_label (c ∷ s)) _
            (omega (arith, length-take dns_max_label (c ∷ s)))
            (split_host-Gapped fuel (drop dns_max_label (c ∷ s))
              (EndsDot-drop dns_max_label (c ∷ s) e)
              (omega (arith, length-drop dns_max_label (c ∷ s)))))
    | inr fits ↦
        rw (split_host, found, fits)
          (Gapped-label (take n (c ∷ s)) _
            (omega (arith, length-take n (c ∷ s), ltb-false dns_max_label n fits))
            (split_host-Gapped fuel (drop (n + 1) (c ∷ s)) (EndsDot-drop (n + 1) (c ∷ s) e)
              (omega (arith, length-drop (n + 1) (c ∷ s)))))
  ]
]
