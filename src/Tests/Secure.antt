-- ===== src/Tests/Secure.antt =====
-- A TLS client behind a response without a length, and a configuration with two wildcards.
use hcpp.Common.{
  find, Option, Bool, none, some, ◌≡◌, refl, none, false, [], ◌∷◌, Bytes, codes, equal, starts_with,
}
use hcpp.Buffer.{fresh}
use hcpp.Memory.Connection.{Connection}
use hcpp.Memory.Tls.{ssl_sock_mem, ssl_write_all}
use hcpp.Memory.Tls.Ended.{http_round-ended}
use hcpp.Http.Request.{Request, other}
use hcpp.Server.Mitm.{https_request}
use hcpp.Server.{HttpHandler, InterceptSet, default_set}
use hcpp.Server.Round.{ServiceKeeper, Loop, http_round, stopped, all_that_comes, drain, passed}
use hcpp.Config.{config_to, is_star, plain_text, star_host, replace_stars}
use hcpp.Config.Stars.{config_to-regx, regx_of, all_read, first_star}
use hcpp.Tests.Network.{one_by_one, sink}

abbrev handler : HttpHandler
handler = record { base_handlers = []; direct_filter = []; regx_filter = [] }

abbrev no_keeper : ServiceKeeper sink
no_keeper = record { Keeper = Unit {0}; wait = λ host port is k. ([], tt); keep = λ w k. tt }

abbrev secure : Loop (ssl_sock_mem one_by_one (λ s. s)) sink no_keeper handler
secure = record {
  client = record { sock = (codes "GET", []); buffer = fresh };
  target = record { host = []; svc = []; is = none };
  keeper = tt;
}

abbrev ended : Connection one_by_one
ended = record { sock = (codes "GET", []); buffer = record fresh { write_ok = false } }

ended_lem :
    all_that_comes (ssl_sock_mem one_by_one (λ s. s)) sink no_keeper handler 2 [] secure.client
    ≡ passed [] ended
unfolding all_that_comes drain equal ssl_write_all
ended_lem = refl

-- The request of a client of the interception, for the service `a.bc:443`.
abbrev intercepted : Request
intercepted = https_request other 9 (codes "a.bc") (codes "443")

http_round-ended_example :
    http_round
      (ssl_sock_mem one_by_one (λ s. s))
      sink
      no_keeper
      handler
      intercepted
      3
      (record secure { client = ended })
    ≡ stopped ((ssl_sock_mem one_by_one (λ s. s)).reset ended)
http_round-ended_example =
    http_round-ended one_by_one (λ s. s) sink no_keeper handler intercepted 2 3 [] [] secure ended
      ended_lem

abbrev wild : Bytes → InterceptSet
wild h = record default_set { host = h }

-- Patterns with a parenthesis are no expressions.
abbrev matcher : Bytes → Option (Bytes → Bool)
matcher s = elim (find s (codes "(")) [ none ↦ some (equal s) | some k ↦ none ]

config_to-regx_example :
    (regx_of (config_to matcher (wild (codes "*.a") ∷ wild (codes "*.b") ∷ []) handler)
      ≡ some ((equal (codes ".+\\.a"), wild (codes "*.a")) ∷ []))
    × (regx_of (config_to matcher (wild (codes "*.a") ∷ wild (codes "*.(") ∷ []) handler) ≡ none)
unfolding is_star equal starts_with plain_text first_star all_read star_host replace_stars find
config_to-regx_example = (
  config_to-regx matcher (wild (codes "*.a") ∷ wild (codes "*.b") ∷ []) handler,
  config_to-regx matcher (wild (codes "*.a") ∷ wild (codes "*.(") ∷ []) handler,
)
