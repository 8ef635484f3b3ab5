-- ===== src/Config/Stars.antt =====
-- Which expressions a configuration gives the proxy's handler.
use hcpp.Common.{
  Option-cases, true, false, Bool, List, [], ◌∷◌, ◌++◌, append-nil, Option, none, some, Bytes, ◌≡◌,
  refl, sym, ap, ◌∙◌, Bool-cases, inl, inr, if◌then◌else◌,
}
use hcpp.Server.{InterceptSet, HttpHandler, add_intercept, add_regex}
use hcpp.Config.{
  is_star, nstar, replace_stars, star_host, Stars, insert_star, add_services, add_stars, config_to,
}

-- The first service whose host is a wildcard.
unfoldable pub first_star : List InterceptSet → Option InterceptSet
first_star [] = none
first_star (i ∷ is) = let later = first_star is in if is_star i.host then some i else later

-- The pattern of a service with a wildcard.
abbrev pub pattern_of : InterceptSet → Bytes
pattern_of i = replace_stars (star_host i).host

abbrev pub regx_of : Option HttpHandler → Option (List ((Bytes → Bool) × InterceptSet))
regx_of none = none
regx_of (some hh) = some hh.regx_filter

module _ (regex : Bytes → Option (Bytes → Bool)) where
  abbrev pub entry_of : Option InterceptSet → List ((Bytes → Bool) × InterceptSet)
  entry_of none = []
  entry_of (some i) = elim (regex (pattern_of i)) [
    | none ↦ []
    | some matches ↦ (matches, star_host i) ∷ []
  ]

  -- The patterns of all services with a wildcard are expressions.
  unfoldable pub all_read : List InterceptSet → Bool
  all_read [] = true
  all_read (i ∷ is) =
      let rest = all_read is in
      if is_star i.host
      then elim (regex (pattern_of i)) [ none ↦ false | some matches ↦ rest ]
      else rest

  abbrev finished : Option (HttpHandler × Stars) → Option HttpHandler
  finished none = none
  finished (some (hh, stars)) = some (add_stars regex stars hh)

  abbrev Gives :
      List InterceptSet → HttpHandler → Stars → List ((Bytes → Bool) × InterceptSet) → Type 0
  Gives is hh stars es =
      regx_of (finished (add_services regex is hh stars))
      ≡ (if all_read is then some (hh.regx_filter ++ es) else none)

  -- Behind the first expression no other is kept.
  one_star :
      (x : (Bytes → Bool) × InterceptSet) (is : List InterceptSet) (hh : HttpHandler)
      → Gives is hh ((nstar, x.0, x.1) ∷ []) (x ∷ [])
  unfolding add_services all_read insert_star nstar add_stars add_regex add_intercept
  one_star x [] hh = refl
  one_star x (i ∷ is) hh = elim (Bool-cases (is_star i.host)) [
    | inr e ↦ rw (add_services, all_read, e) (one_star x is (add_intercept i.host i hh))
    | inl e ↦ elim (Option-cases (regex (pattern_of i))) [
      | inl f ↦ rw (add_services, all_read, e, f) refl
      | inr (matches, f) ↦ rw (add_services, all_read, e, f) (one_star x is hh)
    ]
  ]

  no_star : (is : List InterceptSet) (hh : HttpHandler) → Gives is hh [] (entry_of (first_star is))
  unfolding add_services all_read first_star insert_star add_stars add_intercept
  no_star [] hh = ap some (sym (append-nil hh.regx_filter))
  no_star (i ∷ is) hh = elim (Bool-cases (is_star i.host)) [
    | inr e ↦ rw (add_services, all_read, first_star, e) (no_star is (add_intercept i.host i hh))
    | inl e ↦ elim (Option-cases (regex (pattern_of i))) [
      | inl f ↦ rw (add_services, all_read, first_star, e, f) refl
      | inr (matches, f) ↦
          rw (add_services, all_read, first_star, e, f) (one_star (matches, star_host i) is hh)
    ]
  ]

  -- If the pattern of every service with a wildcard for a host is an expression, the handler gets
  -- the expression of the first of these services only, behind those that it had; if the pattern
  -- of any of them is none, the configuration of the handler throws.
  pub config_to-regx :
      (is : List InterceptSet) (hh : HttpHandler)
      → regx_of (config_to regex is hh)
        ≡ (if all_read is then some (hh.regx_filter ++ entry_of (first_star is)) else none)
  unfolding config_to
  config_to-regx is hh = elim (Option-cases (add_services regex is hh [])) [
    | inl e ↦ rw (config_to, e) (ap (λ o. regx_of (finished o)) (sym e) ∙ no_star is hh)
    | inr (x, e) ↦ rw (config_to, e) (ap (λ o. regx_of (finished o)) (sym e) ∙ no_star is hh)
  ]
