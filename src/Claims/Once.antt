-- ===== src/Claims/Once.antt =====
-- src/core/file-claim-store.js: a claim is given once.
use text.Mathlib.TextLemmas.{append_cancel_right}
use whatsapp_ai_supervisor.Common.{
  All, Bool, List, String, [], arith, eq_iff, eq_refl, false, is_some, true, ◌∷◌, ◌≡◌, ◌≢◌,
}
use whatsapp_ai_supervisor.Common.Maps.{Map, get, get-put, get-remove}
use whatsapp_ai_supervisor.Claims.{
  ClaimFile, Operation, claim, claims, file_for_key, release, releases, run_operation,
  run_operations,
}

-- An operation that does not release the key.
abbrev pub Keeps : String → Operation → Type 0
Keeps key (claims _ _) = Unit
Keeps key (releases other) = other ≢ key

module _ (digest : String → String)
    (digest-injective : (a b : String) → digest a ≡ digest b → a ≡ b) where
  pub file_for_key-injective :
      (a b : String) → file_for_key digest a ≡ file_for_key digest b → a ≡ b
  unfolding file_for_key
  file_for_key-injective a b e =
      digest-injective a b (append_cancel_right (digest a) (digest b) ".json" e)

  abbrev pub is_claimed : Map ClaimFile → String → Bool
  is_claimed files key = is_some (get files (file_for_key digest key))

  pub claim-is_claimed :
      (files : Map ClaimFile) (key now : String)
      → is_claimed (claim digest files key now).0 key ≡ true
  unfolding claim
  claim-is_claimed files key now = ground (
    arith,
    get-put files (file_for_key digest key) (file_for_key digest key)
        (record { key = key; claimed_at = now }),
    eq_refl (file_for_key digest key),
  )

  pub run_operation-is_claimed :
      (files : Map ClaimFile) (key : String) (operation : Operation)
      → is_claimed files key ≡ true
      → Keeps key operation
      → is_claimed (run_operation digest files operation) key ≡ true
  unfolding claim release
  run_operation-is_claimed files key (claims other now) h keeps = ground (
    arith,
    get-put files (file_for_key digest other) (file_for_key digest key)
        (record { key = other; claimed_at = now }),
  )
  run_operation-is_claimed files key (releases other) h keeps = ground (
    arith,
    get-remove files (file_for_key digest other) (file_for_key digest key),
    eq_iff (file_for_key digest other) (file_for_key digest key),
    file_for_key-injective other key,
  )

  pub run_operations-is_claimed :
      (files : Map ClaimFile) (key : String) (operations : List Operation)
      → is_claimed files key ≡ true
      → All (Keeps key) operations
      → is_claimed (run_operations digest files operations) key ≡ true
  run_operations-is_claimed files key [] h keeps = h
  run_operations-is_claimed files key (operation ∷ operations) h (keep, keeps) =
      run_operations-is_claimed (run_operation digest files operation) key operations
        (run_operation-is_claimed files key operation h keep) keeps

  pub claim-refused :
      (files : Map ClaimFile) (key now : String)
      → is_claimed files key ≡ true
      → claim digest files key now ≡ (files, false)
  unfolding claim
  claim-refused files key now h = ground arith

  -- Where different keys have different files, a key that was claimed, whoever got it, is refused to
  -- every later claim until it is released, whatever is claimed and released in between.
  pub claim-once :
      (files : Map ClaimFile) (key now later : String) (operations : List Operation)
      → All (Keeps key) operations
      → (let files_then = run_operations digest (claim digest files key now).0 operations in
          claim digest files_then key later ≡ (files_then, false))
  claim-once files key now later operations keeps =
      claim-refused (run_operations digest (claim digest files key now).0 operations) key later (
        run_operations-is_claimed (claim digest files key now).0 key operations
          (claim-is_claimed files key now) keeps)

  -- A released key is given to the next claim.
  pub claim-released :
      (files : Map ClaimFile) (key now : String)
      → (claim digest (release digest files key) key now).1 ≡ true
  unfolding claim release
  claim-released files key now = ground (
    arith,
    get-remove files (file_for_key digest key) (file_for_key digest key),
    eq_refl (file_for_key digest key),
  )
