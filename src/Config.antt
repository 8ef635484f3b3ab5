-- ===== src/Config.antt =====
-- `config::config_to` for the proxy's handler, `get_port` and `replace_path` of src/config.cpp. What
-- `std::regex` makes of a pattern is a parameter: the test of a whole text, or an exception.
pub mod Stars
pub mod Authority
use hcpp.Common.{
  ℕ, zero, suc, ◌+◌, ◌-◌, ◌%◌, ◌^◌, Bool, true, false, not, ◌&&◌, ◌||◌, List, [], ◌∷◌, ◌++◌, Option,
  none, some, Bytes, length, drop, equal, ltb, ◌==◌, if◌then◌else◌, codes, starts_with,
}
use hcpp.Server.{InterceptSet, HttpHandler, add_intercept, add_regex}

-- `int`
pub data ℤ : Type 0 where
  pos negsuc : ℕ → ℤ

-- The conversion to `uint16_t`.
unfoldable pub get_port : ℤ → ℕ
get_port (pos n) = n % 2 ^ 16
get_port (negsuc n) = 2 ^ 16 - 1 - n % 2 ^ 16

-- The variable `HOME` need not be set.
unfoldable pub replace_path : Option Bytes → Bytes → Bytes
replace_path none i = i
replace_path (some home) i = if starts_with i (codes "~") then home ++ drop 1 i else i

-- `.`, which takes no end of a line.
unfoldable pub plain_text : Bytes → Bool
plain_text [] = true
plain_text (c ∷ cs) = not (c == b'\n') && not (c == b'\r') && plain_text cs

-- `^\*|((\*\.)+.+)$` on the whole text.
unfoldable pub is_star : Bytes → Bool
is_star host =
    equal host (codes "*")
    || (starts_with host (codes "*.") && ltb 2 (length host) && plain_text (drop 2 host))

-- `mr.size()` counts the groups of the expression, two, and the whole match.
unfoldable pub nstar : ℕ
nstar = let size : ℕ = 3 in if ltb 2 size then size - 2 else size

-- `std::regex_replace` of `\*\.` by `.+\.`
unfoldable pub replace_stars : Bytes → Bytes
replace_stars [] = []
replace_stars (c ∷ []) = c ∷ []
replace_stars (c ∷ d ∷ cs) =
    let both = replace_stars cs in
    let one = replace_stars (d ∷ cs) in
    if c == b'*' && d == b'.' then codes ".+\\." ++ both else c ∷ one

-- A lone star gets a dot.
unfoldable pub star_host : InterceptSet → InterceptSet
star_host i = if equal i.host (codes "*") then record i { host = codes "*." } else i

abbrev pub Stars : Type 0
Stars = List (ℕ × (Bytes → Bool) × InterceptSet)

-- `insert` on a map in the order of its keys.
unfoldable pub insert_star : ℕ → (Bytes → Bool) → InterceptSet → Stars → Stars
insert_star n matches i [] = (n, matches, i) ∷ []
insert_star n matches i (x ∷ xs) =
    let later = insert_star n matches i xs in
    if n == x.0 then x ∷ xs else if ltb n x.0 then (n, matches, i) ∷ x ∷ xs else x ∷ later

module _ (regex : Bytes → Option (Bytes → Bool)) where
  -- The loop over the services; `none` is the exception of a pattern that is no expression.
  unfoldable pub add_services :
      List InterceptSet → HttpHandler → Stars → Option (HttpHandler × Stars)
  add_services [] hh stars = some (hh, stars)
  add_services (i ∷ is) hh stars =
      let wild = star_host i in
      if is_star i.host
      then elim (regex (replace_stars wild.host)) [
        | none ↦ none
        | some matches ↦ add_services is hh (insert_star nstar matches wild stars)
      ]
      else add_services is (add_intercept i.host i hh) stars

  unfoldable pub add_stars : Stars → HttpHandler → HttpHandler
  add_stars [] hh = hh
  add_stars (x ∷ xs) hh = add_stars xs (add_regex x.1 x.2 hh)

  unfoldable pub config_to : List InterceptSet → HttpHandler → Option HttpHandler
  config_to services hh = elim (add_services services hh []) [
    | none ↦ none
    | some (hh1, stars) ↦ some (add_stars stars hh1)
  ]
