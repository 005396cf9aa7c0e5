-- ===== src/Claims/Tests.antt =====
-- Runs of file-claim-store.js.
use whatsapp_ai_supervisor.Common.{All, List, String, [], eq_iff, false, refl, true, ◌∷◌, ◌≡◌, ◌≢◌}
use whatsapp_ai_supervisor.Common.Maps.{get, put, remove}
use whatsapp_ai_supervisor.Claims.{
  Operation, claim, claims, file_for_key, release, releases, run_operations,
}
use whatsapp_ai_supervisor.Claims.Once.{Keeps, claim-once}

code : Unit {0}
unfolding claim release file_for_key get put remove
code = tt

-- A stand-in for the digest that keeps different keys apart.
abbrev same_key : String → String
same_key key = key

same_key-injective : (a b : String) → same_key a ≡ same_key b → a ≡ b
same_key-injective a b e = e

abbrev between : List Operation
between = claims "m2" "t2" ∷ releases "m2" ∷ claims "m1" "t3" ∷ []

first_claim : (claim same_key [] "m1" "t1").1 ≡ true
unfolding code
first_claim = refl

other_key : ◌≢◌ {A = String} "m2" "m1"
other_key e = let same = (eq_iff "m2" "m1").1 e in cc

between-Keeps : All (Keeps "m1") between
between-Keeps = (tt, (other_key, (tt, tt)))

claim-once_example :
    (let files_then = run_operations same_key (claim same_key [] "m1" "t1").0 between in
      claim same_key files_then "m1" "t4" ≡ (files_then, false))
claim-once_example = claim-once same_key same_key-injective [] "m1" "t1" "t4" between between-Keeps
