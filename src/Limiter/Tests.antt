-- ===== src/Limiter/Tests.antt =====
-- Runs of the limiter on concrete requests, and instances of its theorems.
use aegis_nexus.Common.{
  ℕ, ◌*◌, ◌≤◌, ◌<◌, String, true, [], ◌∷◌, List, ◌≡◌, refl, ◌↔◌, arith, length,
}
use aegis_nexus.Common.Dict.{get, put, pop}
use aegis_nexus.Limiter.{second, init, prune_bucket, enter, cleanup, swept, grant, admit, allow}
use aegis_nexus.Limiter.Buckets.{recent}
use aegis_nexus.Limiter.Rate.{Request, stamps, answer, run, span}
use aegis_nexus.Limiter.Runs.{served, served_rate, served_decides, served_room}

program : Unit {0}
unfolding init get put pop prune_bucket enter cleanup swept grant admit allow run
program = tt

abbrev at_second : ℕ → String → Request
at_second n k = record { key = k; limit = 2; time = n * second }

-- Two requests of one key pass, a third within the minute does not, and one a minute later does.
abbrev requests : List Request
requests =
    at_second 1 "a" ∷ at_second 2 "a" ∷ at_second 3 "a" ∷ at_second 4 "b" ∷ at_second 61 "a" ∷ []

log_of_requests :
    (served 60 4096 10 requests).1
    ≡ ("a", 1 * second) ∷ ("a", 2 * second) ∷ ("b", 4 * second) ∷ ("a", 61 * second) ∷ []
unfolding program
log_of_requests = refl

served_rate_example :
    length (recent (61 * second) (span 60) (stamps "a" (served 60 4096 10 requests).1)) ≤ 2
served_rate_example =
    served_rate 60 4096 10 2 requests "a" (61 * second) (omega arith) (omega arith) (omega arith)

served_decides_example :
    ((answer 60 (served 60 4096 10 requests).0 (at_second 62 "a")).1 ≡ true)
    ↔ (length (recent (62 * second) (span 60) (stamps "a" (served 60 4096 10 requests).1)) < 2)
unfolding program
served_decides_example =
    served_decides 60 4096 10 requests (at_second 62 "a") (omega arith) (omega arith) (omega arith)

served_room_example : length (served 60 1 10 requests).0.buckets ≤ 128
served_room_example = served_room 60 1 10 requests
