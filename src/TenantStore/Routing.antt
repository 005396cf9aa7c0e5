-- ===== src/TenantStore/Routing.antt =====
-- src/core/tenant-store.js: an id leads to the tenant that has it.
use whatsapp_ai_supervisor.Common.{
  OnOk, Option, Result, String, false, is_empty, is_ok, none, ok, refl, some, throws, true, ◌≡◌,
}
use whatsapp_ai_supervisor.Common.Maps.{Map, get, put}
use whatsapp_ai_supervisor.TenantStore.{
  Account, TenantStore, claim_phones, claim_sessions, deindex, delete_found, delete_tenant,
  find_by_id, index_tenant, keep_tenant, tenant_phone_number_ids, tenant_session_ids,
}
use whatsapp_ai_supervisor.TenantStore.Indexes.{
  IsKeyed, IsRouted, claim_ids-IsRouted, clear-IsRouted, dropped-IsKeyed, dropped_absent,
  put-IsKeyed,
}

-- Each tenant is stored under its id, and a phone number id or a session id leads to a tenant just
-- when that tenant is stored and has it.
pub record IsConsistent (store : TenantStore) : Type 0 where
  pub keyed : IsKeyed store.by_id
  pub phones : IsRouted tenant_phone_number_ids store.by_id store.by_phone
  pub sessions : IsRouted tenant_session_ids store.by_id store.by_linked_session

deindex-IsConsistent :
    (store : TenantStore) (id : String) (old : Option Account)
    → IsConsistent store
    → get store.by_id id ≡ old
    → IsConsistent (deindex store old) × (get (deindex store old).by_id id ≡ none)
unfolding deindex
deindex-IsConsistent store id none consistent e = (consistent, e)
deindex-IsConsistent store id (some old) consistent e = (
  record {
    keyed = dropped-IsKeyed store.by_id (some old) consistent.keyed;
    phones =
        clear-IsRouted tenant_phone_number_ids store.by_id store.by_phone id (some old)
          consistent.keyed consistent.phones e;
    sessions =
        clear-IsRouted tenant_session_ids store.by_id store.by_linked_session id (some old)
          consistent.keyed consistent.sessions e;
  },
  dropped_absent store.by_id id (some old) consistent.keyed e,
)

-- What a call that stores a tenant leaves: right indexes if it returns, and no tenant of that id if it
-- throws.
abbrev pub IsStored : Account → TenantStore × Result Account → Type 0
IsStored tenant (after, ok stored) = IsConsistent after × (stored ≡ tenant)
IsStored tenant (after, throws e) = find_by_id after tenant.id ≡ none

claim_sessions-IsStored :
    (store : TenantStore) (by_phone : Map Account) (tenant : Account) (claimed : Result (Unit {0}))
    → IsConsistent store
    → get store.by_id tenant.id ≡ none
    → (is_ok claimed ≡ true
        → IsRouted tenant_phone_number_ids (put store.by_id tenant.id tenant) by_phone)
    → IsStored tenant (claim_sessions (record store { by_phone = by_phone }) tenant claimed)
unfolding claim_sessions find_by_id
claim_sessions-IsStored store by_phone tenant (throws e) consistent absent routed = absent
claim_sessions-IsStored store by_phone tenant (ok _) consistent absent routed = kept _ _ (
    claim_ids-IsRouted tenant_session_ids "Duplicate linked-device session id: " store.by_id
      store.by_linked_session tenant absent consistent.sessions)
  where
    kept :
        (by_session : Map Account) (result : Result (Unit {0}))
        → (is_ok result ≡ true
            → IsRouted tenant_session_ids (put store.by_id tenant.id tenant) by_session)
        → IsStored tenant (
            keep_tenant
              (record store { by_phone = by_phone; by_linked_session = by_session })
              tenant
              result)
    kept by_session (throws e) h = absent
    kept by_session (ok _) h = (
      record {
        keyed = put-IsKeyed store.by_id tenant consistent.keyed;
        phones = routed refl;
        sessions = h refl;
      },
      refl,
    )

claim_phones-IsStored :
    (store : TenantStore) (tenant : Account)
    → IsConsistent store
    → get store.by_id tenant.id ≡ none
    → IsStored tenant (claim_phones store tenant)
unfolding claim_phones
claim_phones-IsStored store tenant consistent absent =
    claim_sessions-IsStored store _ tenant _ consistent absent (
      claim_ids-IsRouted tenant_phone_number_ids "Duplicate WhatsApp phone number id: " store.by_id
        store.by_phone tenant absent consistent.phones)

pub delete_found-IsConsistent :
    (store : TenantStore) (id : String) (found : Option Account)
    → IsConsistent store
    → get store.by_id id ≡ found
    → OnOk (λ deleted. IsConsistent deleted.0) (delete_found store found)
delete_found-IsConsistent store id none consistent e = tt
delete_found-IsConsistent store id (some existing) consistent e =
    (deindex-IsConsistent store id (some existing) consistent e).0

-- On a store whose indexes are right, storing a tenant with an id, new or again, leaves them right if
-- it returns: a phone number id or a session id leads to a tenant just when that tenant is stored and
-- has it. If it throws, since an id is another tenant's, no tenant is stored under the id any more,
-- the one that was there before the call included. Deleting a tenant leaves the indexes right.
pub index_tenant-IsStored :
    (store : TenantStore) (tenant : Account) (id : String)
    → IsConsistent store
    → is_empty tenant.id ≡ false
    → IsStored tenant (index_tenant store tenant)
      × OnOk (λ deleted. IsConsistent deleted.0) (delete_tenant store id)
unfolding index_tenant delete_tenant find_by_id
index_tenant-IsStored store tenant id consistent full =
    let (cleared, absent) =
      deindex-IsConsistent store tenant.id (get store.by_id tenant.id) consistent refl in
    (
      rw full
          (claim_phones-IsStored (deindex store (get store.by_id tenant.id)) tenant cleared absent),
      delete_found-IsConsistent store id (get store.by_id id) consistent refl,
    )
