-- ===== src/Worker/Relay/Recent.antt =====
-- workers/whatsapp-web/src/session-manager.js: what the worker remembers is bounded.
use whatsapp_ai_supervisor.Common.{
  Bool, Bool-cases, String, [], arith, eq_refl, filter, filter-append, inl, inr, length, ltb, none,
  refl, some, ℕ, ◌++◌, ◌<◌, ◌∷◌, ◌≡◌, ◌≤◌,
}
use whatsapp_ai_supervisor.Common.Maps.{Map, get, put}
use whatsapp_ai_supervisor.Worker.Relay.{RecentSend, drop_oldest, is_current, prune_recent}

pub length-drop_oldest :
    (max_recent : ℕ) (entries : Map RecentSend)
    → length (drop_oldest max_recent entries) ≤ max_recent
unfolding drop_oldest
length-drop_oldest max_recent [] = omega arith
length-drop_oldest max_recent (entry ∷ entries) =
    ground (arith, length-drop_oldest max_recent entries)

drop_oldest-append :
    (max_recent : ℕ) (entries : Map RecentSend) (entry : String × RecentSend)
    → 1 ≤ max_recent
    → (kept : Map RecentSend) × (drop_oldest max_recent (entries ++ entry ∷ [])
        ≡ kept ++ entry ∷ [])
      × ((id : String) → get entries id ≡ none → get kept id ≡ none)
unfolding drop_oldest get
drop_oldest-append max_recent [] entry h = ([], ground (arith, h), λ id e. refl)
drop_oldest-append max_recent (first ∷ entries) entry h =
    let (kept, same, absent) = drop_oldest-append max_recent entries entry h in
    elim (Bool-cases (ltb max_recent (length (first ∷ entries ++ entry ∷ [])))) [
      | inl full ↦ (kept, ground (arith, full, same), λ id e. ground (arith, absent id, e))
      | inr fits ↦ (first ∷ entries, ground (arith, fits), λ id e. e)
    ]

get_none-filter :
    (p : String × RecentSend → Bool) (entries : Map RecentSend) (id : String)
    → get entries id ≡ none
    → get (filter p entries) id ≡ none
unfolding get filter
get_none-filter p [] id e = refl
get_none-filter p (entry ∷ entries) id e = ground (arith, e, get_none-filter p entries id)

put-fresh :
    (entries : Map RecentSend) (id : String) (value : RecentSend)
    → get entries id ≡ none
    → put entries id value ≡ entries ++ (id, value) ∷ []
unfolding get put
put-fresh [] id value e = refl
put-fresh (entry ∷ entries) id value e = ground (arith, e, put-fresh entries id value)

get-append_none :
    (entries : Map RecentSend) (id : String) (value : RecentSend)
    → get entries id ≡ none
    → get (entries ++ (id, value) ∷ []) id ≡ some value
unfolding get
get-append_none [] id value e = ground (arith, eq_refl id)
get-append_none (entry ∷ entries) id value e = ground (arith, e, get-append_none entries id value)

-- Pruning keeps the last send, if it is current, and brings no other back.
pub prune_recent-append :
    (max_recent now : ℕ) (entries : Map RecentSend) (entry : String × RecentSend)
    → 1 ≤ max_recent
    → now < entry.1.expires_at
    → (kept : Map RecentSend) × (prune_recent max_recent now (entries ++ entry ∷ [])
        ≡ kept ++ entry ∷ [])
      × ((id : String) → get entries id ≡ none → get kept id ≡ none)
unfolding prune_recent filter
prune_recent-append max_recent now entries entry h current =
    let (kept, same, absent) =
      drop_oldest-append max_recent (filter (is_current now) entries) entry h in
    (
      kept,
      rw (filter-append (is_current now) entries (entry ∷ [])) (ground (arith, current, same)),
      λ id e. absent id (get_none-filter (is_current now) entries id e),
    )

-- A send that is new and current is there after two prunings.
pub get-prune_recent_twice :
    (max_recent now later : ℕ) (entries : Map RecentSend) (id : String) (value : RecentSend)
    → 1 ≤ max_recent
    → now < value.expires_at
    → later < value.expires_at
    → get entries id ≡ none
    → get (prune_recent max_recent later (prune_recent max_recent now (put entries id value))) id
      ≡ some value
get-prune_recent_twice max_recent now later entries id value h current still e =
    let (kept, same, absent) = prune_recent-append max_recent now entries (id, value) h current in
    let (left, same_left, absent_left) =
      prune_recent-append max_recent later kept (id, value) h still in
    rw (put-fresh entries id value e, same, same_left)
      (get-append_none left id value (absent_left id (absent id e)))
