-- ===== src/Worker/Spool/Listing.antt =====
-- workers/whatsapp-web/src/spool.js: what `listPending` reads.
use whatsapp_ai_supervisor.Common.{
  Bool, List, Option, String, [], any, arith, ends_with, eq_iff, false, filter, if◌then◌else◌,
  is_some, none, ok, refl, some, true, ◌&&◌, ◌==◌, ◌||◌, ◌∷◌, ◌≡◌,
}
use whatsapp_ai_supervisor.Common.Maps.{get, get-put, put}
use whatsapp_ai_supervisor.Common.Sorting.{any-sort_by, sort_by}
use whatsapp_ai_supervisor.Worker.{Payload}
use whatsapp_ai_supervisor.Worker.Spool.{
  Files, Item, Stored, corrupt, enqueue, file_of, follows, intact, key_for, list_pending, names,
  open_new, read_into, read_items,
}

-- Whether a file holds a payload that passes a test.
abbrev pub holds_some : (Payload → Bool) → Option Stored → Bool
holds_some test (some (intact payload)) = test payload
holds_some test (some corrupt) = false
holds_some test none = false

abbrev pub is_at : (Payload → Bool) → String → Item → Bool
is_at test path item = item.path == path && test item.payload

any-names :
    (files : Files) (path : String)
    → any (λ name. name == path) (names files) ≡ is_some (get files path)
unfolding any get
any-names [] path = refl
any-names (file ∷ files) path = ground (arith, any-names files path)

any-json :
    (paths : List String) (path : String)
    → ends_with path ".json" ≡ true
    → any (λ name. name == path) (filter (λ name. ends_with name ".json") paths)
      ≡ any (λ name. name == path) paths
unfolding any filter
any-json [] path h = refl
any-json (name ∷ paths) path h = ground (arith, h, eq_iff name path, any-json paths path h)

created-put :
    (files : Files) (path : String) (payload : Payload) (after : Files)
    → open_new files path payload (get files path) ≡ (after, true)
    → after ≡ put files path (intact payload)
created-put files path payload after = created (get files path)
  where
    created :
        (there : Option Stored)
        → open_new files path payload there ≡ (after, true)
        → after ≡ put files path (intact payload)
    created none e = cc
    created (some stored) e = cc

module _ (test : Payload → Bool) (files : Files) where
  any-read_into :
      (name path : String) (stored : Option Stored) (items : List Item)
      → any (is_at test path) (read_into name stored items)
        ≡ (name == path && holds_some test stored || any (is_at test path) items)
  unfolding any
  any-read_into name path (some (intact payload)) items = refl
  any-read_into name path (some corrupt) items = ground arith
  any-read_into name path none items = ground arith

  any-read_items :
      (paths : List String) (path : String)
      → any (is_at test path) (read_items files paths)
        ≡ (any (λ name. name == path) paths && holds_some test (get files path))
  unfolding any
  any-read_items [] path = refl
  any-read_items (name ∷ paths) path = ground (
    arith,
    any-read_into name path (get files name) (read_items files paths),
    any-read_items paths path,
    eq_iff name path,
  )

  -- A file is listed where its name ends in `.json` and it can be read.
  pub any-list_pending :
      (path : String)
      → ends_with path ".json" ≡ true
      → any (is_at test path) (list_pending files) ≡ holds_some test (get files path)
  unfolding list_pending
  any-list_pending path h =
      let listed = filter (λ name. ends_with name ".json") (names files) in
      ground (
        arith,
        any-read_items (sort_by follows listed) path,
        any-sort_by follows (λ name. name == path) listed,
        any-json (names files) path h,
        any-names files path,
      )

-- A payload that was spooled is read back: where `enqueue` wrote it, the next listing has its file
-- with that payload and no other, and every other file of the listing is as it was.
pub enqueue-list_pending :
    (digest : String → String) (files after : Files) (payload : Payload) (key other : String)
    (test : Payload → Bool)
    → enqueue digest files payload ≡ ok (after, true)
    → key_for digest payload ≡ ok key
    → ends_with other ".json" ≡ true
    → any (is_at test other) (list_pending after)
      ≡ (if file_of key == other then test payload else any (is_at test other) (list_pending files))
unfolding enqueue
enqueue-list_pending digest files after payload key other test e ek h = ground (
  arith,
  any-list_pending test files other h,
  any-list_pending test after other h,
  created-put files (file_of key) payload after,
  get-put files (file_of key) other (intact payload),
)
