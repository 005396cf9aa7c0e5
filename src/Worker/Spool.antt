-- ===== src/Worker/Spool.antt =====
-- workers/whatsapp-web/src/spool.js: the messages on the disk that the supervisor has not taken yet.
-- The directory is the map of its files; a call writes, reads or removes whole files.
pub mod Listing
pub mod Delivery
use text.Mathlib.Text.{is_lt}
use Prim.Native.String
use whatsapp_ai_supervisor.Common.{
  Bool, List, Option, Result, String, [], ends_with, false, filter, if◌then◌else◌, is_empty, none,
  not, ok, require, some, suc, trim, true, ℕ, ◌&&◌, ◌>>=◌, ◌>>◌, ◌||◌, ◌∷◌,
}
use whatsapp_ai_supervisor.Common.Maps.{Map, get, put, remove}
use whatsapp_ai_supervisor.Common.Sorting.{sort_by}
use whatsapp_ai_supervisor.Worker.{Payload}

-- What a file holds: a payload, or a text that is not JSON.
pub data Stored : Type 0 where
  intact : Payload → Stored
  corrupt : Stored

abbrev pub Files : Type 0
Files = Map Stored

pub record Item : Type 0 where
  pub path : String
  pub payload : Payload

-- What a flush reports, with the files that it left.
pub record Flushed : Type 0 where
  pub files : Files
  pub delivered : ℕ
  pub retained : ℕ

abbrev pub names : Files → List String
names [] = []
names (file ∷ files) = file.0 ∷ names files

-- `Array.prototype.sort` of texts.
abbrev pub follows : String → String → Bool
follows a b = is_lt (String.compare b a)

-- A file that cannot be read as JSON is passed over, and stays.
abbrev pub read_into : String → Option Stored → List Item → List Item
read_into path (some (intact payload)) items = record { path = path; payload = payload } ∷ items
read_into path (some corrupt) items = items
read_into path none items = items

abbrev pub read_items : Files → List String → List Item
read_items files [] = []
read_items files (path ∷ paths) = read_into path (get files path) (read_items files paths)

unfoldable pub list_pending : Files → List Item
list_pending files =
    read_items files (sort_by follows (filter (λ name. ends_with name ".json") (names files)))

abbrev pub open_new : Files → String → Payload → Option Stored → Files × Bool
open_new files path payload none = (put files path (intact payload), true)
open_new files path payload (some there) = (files, false)

unfoldable pub file_of : String → String
file_of key = String.◌++◌ key ".json"

-- `digest` is the SHA-256 of a text, in hexadecimal.
module _ (digest : String → String) where
  unfoldable pub key_for : Payload → Result String
  key_for payload = do
    let session_id = trim payload.session_id
    let message_id = trim payload.message.id
    require (not (is_empty session_id || is_empty message_id))
        "spool_payload_requires_session_and_message_id"
    ok (digest (String.◌++◌ session_id (String.◌++◌ ":" message_id)))

  unfoldable pub enqueue : Files → Payload → Result (Files × Bool)
  enqueue files payload = do
    key ← key_for payload
    ok (open_new files (file_of key) payload (get files (file_of key)))

-- Whether the supervisor answers a payload with a status of success, in time, and whether the file of a
-- payload can be removed then.
module _ (accepts : Payload → Bool) (unlinks : String → Bool) where
  unfoldable pub deliver : Files → Item → Files × Bool
  deliver files item =
      if accepts item.payload && unlinks item.path
      then (remove files item.path, true)
      else (files, false)

  abbrev pub count : Bool → Flushed → Flushed
  count true done = record done { delivered = suc done.delivered }
  count false done = record done { retained = suc done.retained }

  unfoldable pub deliver_all : Flushed → List Item → Flushed
  deliver_all done [] = done
  deliver_all done (item ∷ items) =
      let (files, delivered) = deliver done.files item in
      deliver_all (count delivered (record done { files = files })) items

  unfoldable pub flush_once : Files → Flushed
  flush_once files =
      deliver_all (record { files = files; delivered = 0; retained = 0 }) (list_pending files)
