-- ===== src/Server/Control/Tests.antt =====
-- The limits on concrete inputs.
use odyshell.Base.{
  ◌≡◌, ◌≤◌, ◌↔◌, ◌&&◌, ◌==◌, refl, true, List, [], ◌∷◌, String, find, any, update, remove,
  string_discrete,
}
use odyshell.Server.Control.Concurrency.Connections.{
  Request, opens, closes, serve, drop_at, live, new_service, serve-live,
}
use odyshell.Server.Control.Concurrency.{
  ConcurrencyLimiter, count_of, set_count, decrement_or_delete, acquire, release,
}
use odyshell.Server.Control.Concurrency.Bounds.{HasRoom, acquire-eq-true, release-acquire}

abbrev limiter : ConcurrencyLimiter
limiter = record { organization_limit = 2; user_limit = 1; organizations = []; users = [] }

abbrev taken_once : ConcurrencyLimiter
taken_once = (acquire "org" "u1" limiter).0

abbrev requests : List Request
requests =
    opens "org" "u1"
    ∷ opens "org" "u1"
    ∷ opens "org" "u2"
    ∷ opens "org" "u3"
    ∷ closes 1
    ∷ opens "org" "u3"
    ∷ []

-- The second connection of a user and the third of the Organization are refused.
served :
    (serve requests (new_service 2 1)).connections
    ≡ record { organization_id = "org"; user_id = "u3" }
      ∷ record { organization_id = "org"; user_id = "u2" }
      ∷ []
unfolding serve drop_at acquire release decrement_or_delete set_count count_of find any update
    remove string_discrete
served = refl

serve-live_example :
    (let later = (serve requests (new_service 2 1)).connections in
      (live (λ c. c.organization_id == "org") later ≤ 2)
      × (live (λ c. (c.organization_id == "org") && (c.user_id == "u3")) later ≤ 1))
serve-live_example = serve-live 2 1 requests "org" "u3"

acquire-eq-true_example : ((acquire "org" "u1" limiter).1 ≡ true) ↔ HasRoom "org" "u1" limiter
acquire-eq-true_example = acquire-eq-true "org" "u1" limiter

release-acquire_example :
    (let later = release "org" "u1" (acquire "org" "u1" limiter).0 in
      ((k : String) → count_of later.organizations k ≡ count_of limiter.organizations k)
      × ((k : String) → count_of later.users k ≡ count_of limiter.users k))
unfolding acquire count_of find
release-acquire_example = release-acquire "org" "u1" limiter refl
