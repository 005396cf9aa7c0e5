-- ===== src/Worker/Spool/Delivery.antt =====
-- workers/whatsapp-web/src/spool.js: a message leaves the spool when the supervisor has taken it.
use whatsapp_ai_supervisor.Common.{
  Bool, Bool-cases, List, Option, String, [], any, ap, arith, ends_with, eq_iff, false,
  if◌then◌else◌, inl, inr, length, none, refl, some, true, ◌&&◌, ◌+◌, ◌∷◌, ◌≡◌,
}
use whatsapp_ai_supervisor.Common.Maps.{get, get-remove, remove}
use whatsapp_ai_supervisor.Worker.{Payload}
use whatsapp_ai_supervisor.Worker.Spool.{
  Files, Flushed, Item, Stored, corrupt, count, deliver, deliver_all, flush_once, intact,
  list_pending,
}
use whatsapp_ai_supervisor.Worker.Spool.Listing.{any-list_pending, is_at}

module _ (accepts : Payload → Bool) (unlinks : String → Bool) where
  same_unlinks : (s t : String) → s ≡ t → unlinks s ≡ unlinks t
  same_unlinks s t e = ap unlinks e

  get-deliver_all :
      (done : Flushed) (items : List Item) (path : String)
      → get (deliver_all accepts unlinks done items).files path
        ≡ (if any (is_at accepts path) items && unlinks path then none else get done.files path)
  unfolding deliver_all deliver any
  get-deliver_all done [] path = refl
  get-deliver_all done (item ∷ items) path =
      elim (Bool-cases (accepts item.payload && unlinks item.path)) [
        | inl taken ↦ ground (
          arith,
          taken,
          eq_iff item.path path,
          same_unlinks item.path path,
          get-remove done.files item.path path,
          get-deliver_all
              (count accepts unlinks true (record done { files = remove done.files item.path }))
              items path,
        )
        | inr kept ↦ ground (
          arith,
          kept,
          eq_iff item.path path,
          same_unlinks item.path path,
          get-deliver_all (count accepts unlinks false done) items path,
        )
      ]

  counted-deliver_all :
      (done : Flushed) (items : List Item)
      → (let after = deliver_all accepts unlinks done items in
          after.delivered + after.retained ≡ done.delivered + done.retained + length items)
  unfolding deliver_all deliver
  counted-deliver_all done [] = omega arith
  counted-deliver_all done (item ∷ items) =
      elim (Bool-cases (accepts item.payload && unlinks item.path)) [
        | inl taken ↦ ground (
          arith,
          taken,
          counted-deliver_all
              (count accepts unlinks true (record done { files = remove done.files item.path }))
              items,
        )
        | inr kept ↦
            ground (arith, kept, counted-deliver_all (count accepts unlinks false done) items)
      ]

  -- What a flush leaves of a file.
  abbrev pub left_of : String → Option Stored → Option Stored
  left_of path (some (intact payload)) =
      if accepts payload && unlinks path then none else some (intact payload)
  left_of path (some corrupt) = some corrupt
  left_of path none = none

  -- A flush takes each payload that the supervisor accepts from the spool, if its file can be removed,
  -- and no other: a payload that was refused, one whose file cannot be removed and a file that cannot
  -- be read stay as they are, and each listed file is counted once, as delivered or retained.
  pub flush_once-Delivered :
      (files : Files) (path : String)
      → ends_with path ".json" ≡ true
      → (let after = flush_once accepts unlinks files in
          (get after.files path ≡ left_of path (get files path))
          × (after.delivered + after.retained ≡ length (list_pending files)))
  unfolding flush_once
  flush_once-Delivered files path h =
      let start : Flushed = record { files = files; delivered = 0; retained = 0 } in
      (
        ground (
          arith,
          get-deliver_all start (list_pending files) path,
          any-list_pending accepts files path h,
        ),
        omega (arith, counted-deliver_all start (list_pending files)),
      )
