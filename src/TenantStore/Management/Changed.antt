-- ===== src/TenantStore/Management/Changed.antt =====
-- src/core/tenant-store.js: what creating and changing tenants does to the indexes.
use mathlib.Core.Path.{subst}
use whatsapp_ai_supervisor.Common.{
  Bool-cases, List, OnOk, Option, Result, String, [], ap, arith, eq_refl, false, if-holds, inl, inr,
  is_empty, is_some, none, ok, or_else, refl, some, sym, throws, trim, ◌++◌, ◌∙◌, ◌∷◌, ◌≡◌, ◌⊎◌,
}
use whatsapp_ai_supervisor.Common.Maps.{Map, get, get-put, put}
use whatsapp_ai_supervisor.TenantStore.{
  Account, TenantStore, WhatsAppNumber, claim_phones, claim_sessions, deindex, delete_tenant,
  find_by_id, index_tenant, keep_tenant,
}
use whatsapp_ai_supervisor.TenantStore.Routing.{
  IsConsistent, IsStored, delete_found-IsConsistent, index_tenant-IsStored,
}
use whatsapp_ai_supervisor.TenantStore.Management.{
  NewNumber, TenantPatch, WhatsAppPatch, add_found, add_whatsapp_number, create, has_number,
  numbers_or_legacy, numbers_patch, patched, patched_whatsapp, push_number, remove_found,
  remove_whatsapp_number, slugify, update, update_found, with_number,
}

-- What a change of the tenant with an id leaves: right indexes with the tenant under its id if it
-- returns, and if it throws either the store as it was or one without the tenant.
abbrev pub IsChanged : TenantStore → String → TenantStore × Result Account → Type 0
IsChanged store id (after, ok tenant) =
    IsConsistent after × (tenant.id ≡ id) × (find_by_id after id ≡ some tenant)
IsChanged store id (after, throws e) = (after ≡ store) ⊎ (find_by_id after id ≡ none)

claim_phones-found :
    (store : TenantStore) (tenant : Account) {after : TenantStore} {stored : Account}
    → claim_phones store tenant ≡ (after, ok stored)
    → find_by_id after tenant.id ≡ some tenant
unfolding claim_phones claim_sessions find_by_id
claim_phones-found store tenant {after} {stored} e = phones _ _ e
  where
    sessions :
        (by_phone by_session : Map Account) (result : Result (Unit {0}))
        → keep_tenant
            (record store { by_phone = by_phone; by_linked_session = by_session })
            tenant
            result
          ≡ (after, ok stored)
        → get after.by_id tenant.id ≡ some tenant
    sessions by_phone by_session (throws told) same = cc
    sessions by_phone by_session (ok _) same =
        let kept : put store.by_id tenant.id tenant ≡ after.by_id =
          ap (λ (o : TenantStore × Result Account). o.0.by_id) same in
        rw (← kept)
          (ground (arith, get-put store.by_id tenant.id tenant.id tenant, eq_refl tenant.id))

    phones :
        (by_phone : Map Account) (result : Result (Unit {0}))
        → claim_sessions (record store { by_phone = by_phone }) tenant result ≡ (after, ok stored)
        → get after.by_id tenant.id ≡ some tenant
    phones by_phone (throws told) same = cc
    phones by_phone (ok _) same = sessions by_phone _ _ same

pub index_tenant-IsChanged :
    (store : TenantStore) (tenant : Account)
    → IsConsistent store
    → IsChanged store tenant.id (index_tenant store tenant)
unfolding index_tenant
index_tenant-IsChanged store tenant consistent = elim (Bool-cases (is_empty tenant.id)) [
  | inl empty ↦ rw empty (inl refl)
  | inr full ↦ changed full (index_tenant store tenant) refl
]
  where
    changed :
        is_empty tenant.id ≡ false
        → (outcome : TenantStore × Result Account) → index_tenant store tenant ≡ outcome
        → IsChanged store tenant.id outcome
    changed full (after, throws told) e =
        inr (subst (IsStored tenant) e (index_tenant-IsStored store tenant "" consistent full).0)
    changed full (after, ok stored) e =
        let (right, same) : IsStored tenant (after, ok stored) =
          subst (IsStored tenant) e (index_tenant-IsStored store tenant "" consistent full).0 in
        let found =
          claim_phones-found (deindex store (get store.by_id tenant.id)) tenant (rw full at e) in
        (right, ap (λ (t : Account). t.id) same, found ∙ ap some (sym same))

patched-id : (existing : Account) (patch : TenantPatch) → (patched existing patch).id ≡ existing.id
patched-id existing patch = by_whatsapp patch.whatsapp
  where
    by_whatsapp :
        (whatsapp : Option WhatsAppPatch) → (patched_whatsapp existing whatsapp).id ≡ existing.id
    by_whatsapp none = refl
    by_whatsapp (some _) = refl

create-IsChanged :
    (lower : String → String) (store : TenantStore) (given name : Option String) (now : String)
    (tenant : Account)
    → IsConsistent store
    → IsChanged store
        (trim (or_else given (slugify lower name now)))
        (create lower store given name now tenant)
unfolding create
create-IsChanged lower store given name now tenant consistent =
    let id = trim (or_else given (slugify lower name now)) in
    if-holds (IsChanged store id) (is_empty id) (λ _. inl refl)
      (λ _.
        if-holds (IsChanged store id) (is_some (find_by_id store id)) (λ _. inl refl)
          (λ _. index_tenant-IsChanged store (record tenant { id = id }) consistent))

pub update-IsChanged :
    (store : TenantStore) (id : String) (patch : TenantPatch)
    → IsConsistent store
    → IsChanged store id (update store id patch)
unfolding update find_by_id
update-IsChanged store id patch consistent = by_found (get store.by_id id) refl
  where
    by_found :
        (found : Option Account)
        → get store.by_id id ≡ found
        → IsChanged store id (update_found store found patch)
    by_found none e = inl refl
    by_found (some existing) e =
        subst (λ key. IsChanged store key (index_tenant store (patched existing patch)))
          (patched-id existing patch ∙ consistent.keyed id existing e)
          (index_tenant-IsChanged store (patched existing patch) consistent)

remove_whatsapp_number-IsChanged :
    (store : TenantStore) (id number_id : String)
    → IsConsistent store
    → IsChanged store id (remove_whatsapp_number store id number_id)
unfolding remove_whatsapp_number
remove_whatsapp_number-IsChanged store id number_id consistent = by_found (find_by_id store id)
  where
    by_found : (found : Option Account) → IsChanged store id (remove_found store id found number_id)
    by_found none = inl refl
    by_found (some tenant) =
        if-holds (IsChanged store id) (has_number (or_else tenant.numbers []) number_id)
          (λ _. update-IsChanged store id _ consistent) (λ _. inl refl)

-- The tenant that an added number leaves, and the number.
abbrev pub tenant_of :
    TenantStore × Result (Account × WhatsAppNumber) → TenantStore × Result Account
tenant_of (after, throws told) = (after, throws told)
tenant_of (after, ok (tenant, made)) = (after, ok tenant)

pub tenant_of-with_number :
    (number : WhatsAppNumber) (outcome : TenantStore × Result Account)
    → tenant_of (with_number number outcome) ≡ outcome
tenant_of-with_number number (after, throws told) = refl
tenant_of-with_number number (after, ok tenant) = refl

add_whatsapp_number-IsChanged :
    (store : TenantStore) (id : String) (number : NewNumber) (now : String)
    → IsConsistent store
    → IsChanged store id (tenant_of (add_whatsapp_number store id number now))
unfolding add_whatsapp_number
add_whatsapp_number-IsChanged store id number now consistent = by_found (find_by_id store id)
  where
    by_made :
        (numbers : List WhatsAppNumber) (made : Result WhatsAppNumber)
        → IsChanged store id (tenant_of (push_number store id numbers made))
    by_made numbers (throws told) = inl refl
    by_made numbers (ok made) =
        subst (IsChanged store id) (sym (tenant_of-with_number made _))
          (update-IsChanged store id (numbers_patch (numbers ++ made ∷ [])) consistent)

    by_found :
        (found : Option Account)
        → IsChanged store id (tenant_of (add_found store id found number now))
    by_found none = inl refl
    by_found (some tenant) = by_made (numbers_or_legacy tenant.numbers tenant) _

-- On a store whose indexes are right, creating a tenant, updating one, and adding or removing one of its
-- numbers leave the indexes right when they return, with the tenant that they return stored under the
-- id; when they throw, either nothing has changed or no tenant is stored under the id any more. Deleting
-- a tenant leaves the indexes right.
pub management-IsChanged :
    (lower : String → String) (store : TenantStore) (given name : Option String) (now : String)
    (tenant : Account) (id : String) (patch : TenantPatch) (number : NewNumber) (number_id : String)
    → IsConsistent store
    → IsChanged store
        (trim (or_else given (slugify lower name now)))
        (create lower store given name now tenant)
      × IsChanged store id (update store id patch)
      × IsChanged store id (tenant_of (add_whatsapp_number store id number now))
      × IsChanged store id (remove_whatsapp_number store id number_id)
      × OnOk (λ deleted. IsConsistent deleted.0) (delete_tenant store id)
unfolding delete_tenant find_by_id
management-IsChanged lower store given name now tenant id patch number number_id consistent = (
  create-IsChanged lower store given name now tenant consistent,
  update-IsChanged store id patch consistent,
  add_whatsapp_number-IsChanged store id number now consistent,
  remove_whatsapp_number-IsChanged store id number_id consistent,
  delete_found-IsConsistent store id (get store.by_id id) consistent refl,
)
