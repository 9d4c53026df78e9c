-- ===== src/Tests/Boot.antt =====
-- The wait for a database that answers from the third attempt on.
use secure_voting_platform.Prelude.{ℕ, ◌≡◌, refl, Bool, some, leb}
use secure_voting_platform.Startup.{
  Waited, returned, raised, wait_for_db, wait_loop, Ends, wait_for_db-Ends,
}

abbrev from_third : ℕ → Bool
from_third i = leb 2 i

third_attempt : wait_for_db from_third 30 2 ≡ some (returned (record { attempts = 2; slept = 4 }))
unfolding wait_for_db wait_loop
third_attempt = refl

two_attempts : wait_for_db from_third 2 2 ≡ some (raised (record { attempts = 2; slept = 2 }))
unfolding wait_for_db wait_loop
two_attempts = refl

wait_for_db-Ends_example :
    (w : Waited) × (wait_for_db from_third 30 2 ≡ some w) × Ends from_third 30 2 w
wait_for_db-Ends_example = wait_for_db-Ends from_third 30 2
