-- ===== src/TenantStore/Indexes.antt =====
-- src/core/tenant-store.js: the indexes from ids to tenants.
use whatsapp_ai_supervisor.Common.{
  Bool, List, Option, String, [], any, arith, eq_iff, eq_refl, if◌then◌else◌, is_ok, none, refl,
  some, true, ◌==◌, ◌∷◌, ◌≡◌,
}
use whatsapp_ai_supervisor.Common.Maps.{Map, get, get-put, get-remove, put, remove}
use whatsapp_ai_supervisor.TenantStore.{Account, claim_ids, is_free, remove_all}

abbrev pub has : List String → String → Bool
has ids key = any (λ id. id == key) ids

get-remove_all :
    (index : Map Account) (ids : List String) (key : String)
    → get (remove_all index ids) key ≡ (if has ids key then none else get index key)
unfolding remove_all any
get-remove_all index [] key = refl
get-remove_all index (id ∷ ids) key =
    ground (arith, get-remove index id key, get-remove_all (remove index id) ids key)

claim_ids-get :
    (told : String) (index : Map Account) (tenant : Account) (ids : List String)
    → is_ok (claim_ids told index tenant ids).1 ≡ true
    → (key : String)
    → (get (claim_ids told index tenant ids).0 key
        ≡ (if has ids key then some tenant else get index key))
      × (has ids key ≡ true → is_free (get index key) tenant ≡ true)
unfolding claim_ids any
claim_ids-get told index tenant [] e key = (refl, λ h. ground (arith, h))
claim_ids-get told index tenant (id ∷ ids) e key =
    let free : is_free (get index id) tenant ≡ true = ground (arith, e) in
    let (got, later) =
      claim_ids-get told (put index id tenant) tenant ids (ground (arith, e)) key in
    (
      ground (arith, free, got, get-put index id key tenant),
      λ h. ground (arith, h, free, later, get-put index id key tenant, eq_iff id key),
    )

-- Every tenant is found by its id, and an id leads to a tenant just when the tenant is stored and has
-- that id.
abbrev pub IsRouted : (Account → List String) → Map Account → Map Account → Type 0
IsRouted ids_of by_id index =
    (key : String) (tenant : Account)
    → ((get index key ≡ some tenant)
        → (get by_id tenant.id ≡ some tenant) × (has (ids_of tenant) key ≡ true))
      × ((get by_id tenant.id ≡ some tenant)
          → has (ids_of tenant) key ≡ true
          → get index key ≡ some tenant)

abbrev pub IsKeyed : Map Account → Type 0
IsKeyed by_id = (id : String) (tenant : Account) → get by_id id ≡ some tenant → tenant.id ≡ id

abbrev drop_id : Map Account → Option Account → Map Account
drop_id by_id none = by_id
drop_id by_id (some old) = remove by_id old.id

pub dropped_absent :
    (by_id : Map Account) (id : String) (old : Option Account)
    → IsKeyed by_id
    → get by_id id ≡ old
    → get (drop_id by_id old) id ≡ none
dropped_absent by_id id none keyed e = e
dropped_absent by_id id (some old) keyed e =
    ground (arith, keyed id old, e, get-remove by_id old.id id, eq_iff old.id id)

pub dropped-IsKeyed :
    (by_id : Map Account) (old : Option Account) → IsKeyed by_id → IsKeyed (drop_id by_id old)
dropped-IsKeyed by_id none keyed = keyed
dropped-IsKeyed by_id (some old) keyed =
    λ id tenant e. ground (arith, e, keyed id tenant, get-remove by_id old.id id)

module _ (ids_of : Account → List String) where
  abbrev clear : Map Account → Option Account → Map Account
  clear index none = index
  clear index (some old) = remove_all index (ids_of old)

  -- Without the tenant that is stored under an id.
  pub clear-IsRouted :
      (by_id index : Map Account) (id : String) (old : Option Account)
      → IsKeyed by_id
      → IsRouted ids_of by_id index
      → get by_id id ≡ old
      → IsRouted ids_of (drop_id by_id old) (clear index old)
  clear-IsRouted by_id index id none keyed routed e = routed
  clear-IsRouted by_id index id (some old) keyed routed e = λ key tenant. (
    (λ found. ground (
      arith,
      found,
      e,
      keyed id old,
      get-remove_all index (ids_of old) key,
      get-remove by_id old.id tenant.id,
      routed key tenant,
      routed key old,
      eq_iff old.id tenant.id,
    )),
    (λ stored hit. ground (
      arith,
      stored,
      hit,
      e,
      keyed id old,
      get-remove_all index (ids_of old) key,
      get-remove by_id old.id tenant.id,
      routed key tenant,
      routed key old,
      eq_iff old.id tenant.id,
    )),
  )

  -- With a tenant that was not stored, whose ids were free.
  pub claim_ids-IsRouted :
      (told : String) (by_id index : Map Account) (tenant : Account)
      → get by_id tenant.id ≡ none
      → IsRouted ids_of by_id index
      → is_ok (claim_ids told index tenant (ids_of tenant)).1 ≡ true
      → IsRouted ids_of (put by_id tenant.id tenant) (claim_ids told index tenant (ids_of tenant)).0
  claim_ids-IsRouted told by_id index tenant absent routed e = λ key other.
      let (got, free) = claim_ids-get told index tenant (ids_of tenant) e key in
      (
        (λ found. ground (
          arith,
          found,
          got,
          absent,
          get-put by_id tenant.id other.id tenant,
          get-put by_id tenant.id tenant.id tenant,
          eq_refl tenant.id,
          routed key other,
          eq_iff tenant.id other.id,
        )),
        (λ stored hit. ground (
          arith,
          stored,
          hit,
          got,
          free,
          absent,
          get-put by_id tenant.id other.id tenant,
          routed key other,
          eq_iff tenant.id other.id,
          eq_iff other.id tenant.id,
        )),
      )

pub put-IsKeyed :
    (by_id : Map Account) (tenant : Account) → IsKeyed by_id → IsKeyed (put by_id tenant.id tenant)
put-IsKeyed by_id tenant keyed = λ id other e.
    ground (arith, e, keyed id other, get-put by_id tenant.id id tenant, eq_iff tenant.id id)
