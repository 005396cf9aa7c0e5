-- ===== src/Claims.antt =====
-- src/core/file-claim-store.js: who handles an inbound message. A claim is a file that is created
-- with `wx`, which fails if it is there; the directory is the map of its files.
pub mod Once
mod Tests
use Prim.Native.String
use whatsapp_ai_supervisor.Common.{Bool, List, Option, String, [], false, none, some, true, ◌∷◌}
use whatsapp_ai_supervisor.Common.Maps.{Map, get, put, remove}

-- What a claim file says.
pub record ClaimFile : Type 0 where
  pub key : String
  pub claimed_at : String

pub data Operation : Type 0 where
  claims : (key now : String) → Operation
  releases : (key : String) → Operation

-- `digest` is the SHA-256 of a key, in hexadecimal.
module _ (digest : String → String) where
  unfoldable pub file_for_key : String → String
  file_for_key key = String.◌++◌ (digest key) ".json"

  abbrev pub create_new :
      Map ClaimFile → String → ClaimFile → Option ClaimFile → Map ClaimFile × Bool
  create_new files file content none = (put files file content, true)
  create_new files file content (some _) = (files, false)

  unfoldable pub claim : Map ClaimFile → String → String → Map ClaimFile × Bool
  claim files key now =
      create_new files (file_for_key key) (record { key = key; claimed_at = now })
        (get files (file_for_key key))

  -- A file that is not there is no error.
  unfoldable pub release : Map ClaimFile → String → Map ClaimFile
  release files key = remove files (file_for_key key)

  abbrev pub run_operation : Map ClaimFile → Operation → Map ClaimFile
  run_operation files (claims key now) = (claim files key now).0
  run_operation files (releases key) = release files key

  abbrev pub run_operations : Map ClaimFile → List Operation → Map ClaimFile
  run_operations files [] = files
  run_operations files (operation ∷ operations) =
      run_operations (run_operation files operation) operations
