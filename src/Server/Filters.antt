-- ===== src/Server/Filters.antt =====
-- What the interceptors of a host are, after one was added.
use hcpp.Common.{
  Bool, true, false, List, [], ◌∷◌, ◌++◌, Option, none, some, Bytes, equal, if◌then◌else◌, ◌≡◌,
  refl, sym, ap, ◌∙◌, equal_iff, Bool-cases, inl, inr,
}
use hcpp.Server.{
  InterceptSet, HttpHandler, find_entry, emplace_entry, add_intercept, add_regex, first_match,
  find_set,
}

unfoldable pub or_else {ℓ} : {A : Type ℓ} → Option A → Option A → Option A
or_else (some w) o = some w
or_else none o = o

pub or_else-none {ℓ} : {A : Type ℓ} (o : Option A) → or_else o none ≡ o
unfolding or_else
or_else-none none = refl
or_else-none (some w) = refl

pub find_entry-emplace {ℓ} :
    {A : Type ℓ} (j k : Bytes) (v : A) (xs : List (Bytes × A))
    → find_entry j (emplace_entry k v xs)
      ≡ or_else (find_entry j xs) (if equal j k then some v else none)
unfolding find_entry emplace_entry or_else
find_entry-emplace j k v [] = refl
find_entry-emplace j k v (x ∷ xs) = elim (Bool-cases (equal k x.0)) [
  | inl a ↦ elim (Bool-cases (equal j x.0)) [
    | inl b ↦ rw (a, find_entry, b) refl
    | inr b ↦
        let same : equal j k ≡ false = ap (equal j) ((equal_iff k x.0).0 a) ∙ b in
        rw (a, find_entry, b, same) (sym (or_else-none (find_entry j xs)))
  ]
  | inr a ↦ elim (Bool-cases (equal j x.0)) [
    | inl b ↦ rw (a, find_entry, b) refl
    | inr b ↦ rw (a, find_entry, b) (find_entry-emplace j k v xs)
  ]
]

choose :
    (b : Bool) (i : InterceptSet) (o q : Option InterceptSet)
    → elim (or_else o (if b then some i else none)) [ some w ↦ some w | none ↦ q ]
      ≡ elim o [ some w ↦ some w | none ↦ if b then some i else q ]
unfolding or_else
choose b i (some w) q = refl
choose true i none q = refl
choose false i none q = refl

first_match-last :
    (j : Bytes) (matches : Bytes → Bool) (i : InterceptSet)
    (xs : List ((Bytes → Bool) × InterceptSet))
    → first_match j (xs ++ ((matches, i) ∷ []))
      ≡ or_else (first_match j xs) (if matches j then some i else none)
unfolding first_match or_else
first_match-last j matches i [] = refl
first_match-last j matches i (x ∷ xs) = elim (Bool-cases (x.0 j)) [
  | inl a ↦ rw (first_match, a) refl
  | inr a ↦ rw (first_match, a) (first_match-last j matches i xs)
]

or_else-elim : (o q : Option InterceptSet) → or_else o q ≡ elim o [ some w ↦ some w | none ↦ q ]
unfolding or_else
or_else-elim none q = refl
or_else-elim (some w) q = refl

later_regex :
    (j : Bytes) (matches : Bytes → Bool) (i : InterceptSet)
    (xs : List ((Bytes → Bool) × InterceptSet)) (o : Option InterceptSet)
    → let before : Option InterceptSet = elim o [ some w ↦ some w | none ↦ first_match j xs ] in
      let after : Option InterceptSet = elim o [
        | some w ↦ some w
        | none ↦ first_match j (xs ++ ((matches, i) ∷ []))
      ] in
      after ≡ elim before [ some w ↦ some w | none ↦ if matches j then some i else none ]
later_regex j matches i xs (some w) = refl
later_regex j matches i xs none =
    first_match-last j matches i xs
    ∙ or_else-elim (first_match j xs) (if matches j then some i else none)

-- The interceptor of a host after one was added for `k` is the one that it had by name, or else
-- the new one if the host is `k`, or else that of the first expression that matches the host.
-- After one was added for an expression it is the one that the host had before, or else the new
-- one if the expression matches.
pub find_set-added :
    (j k : Bytes) (matches : Bytes → Bool) (i : InterceptSet) (h : HttpHandler)
    → (find_set j (add_intercept k i h) ≡ elim (find_entry j h.direct_filter) [
      | some w ↦ some w
      | none ↦ if equal j k then some i else first_match j h.regx_filter
    ])
      × (find_set j (add_regex matches i h)
          ≡ elim (find_set j h) [ some w ↦ some w | none ↦ if matches j then some i else none ])
unfolding find_set add_intercept add_regex
find_set-added j k matches i h = (
  rw (find_set, find_entry-emplace j k i h.direct_filter)
      (choose (equal j k) i (find_entry j h.direct_filter) (first_match j h.regx_filter)),
  later_regex j matches i h.regx_filter (find_entry j h.direct_filter),
)
