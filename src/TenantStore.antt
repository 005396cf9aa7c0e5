-- ===== src/TenantStore.antt =====
-- src/core/tenant-store.js: the tenants, and which of them a phone number id or a session of a linked
-- device belongs to. A tenant is what the indexes read of it.
pub mod Indexes
pub mod Routing
pub mod Management
mod Tests
use Prim.Native.String
use whatsapp_ai_supervisor.Common.{
  Bool, List, Option, Result, String, [], if◌then◌else◌, is_empty, is_text, none, ok, some, throws,
  true, ◌==◌, ◌∷◌,
}
use whatsapp_ai_supervisor.Common.Maps.{Map, get, put, remove}

pub record WhatsAppNumber : Type 0 where
  pub id : String
  pub mode : Option String
  pub phone_number_id : Option String
  pub session_id : Option String

-- `numbers` is there where `whatsapp.numbers` is an array; `whatsapp_mode` is what
-- `whatsappTransportMode` gives.
pub record Account : Type 0 where
  pub id : String
  pub phone_number_id : Option String
  pub whatsapp_mode : String
  pub session_id : Option String
  pub numbers : Option (List WhatsAppNumber)

pub record TenantStore : Type 0 where
  pub by_id : Map Account
  pub by_phone : Map Account
  pub by_linked_session : Map Account

abbrev pub ids_in : Option String → List String → List String
ids_in none rest = rest
ids_in (some id) rest = if is_empty id then rest else id ∷ rest

abbrev pub cloud_ids : List WhatsAppNumber → List String
cloud_ids [] = []
cloud_ids (number ∷ numbers) =
    let rest = cloud_ids numbers in
    if is_text number.mode "cloud" then ids_in number.phone_number_id rest else rest

abbrev pub device_ids : List WhatsAppNumber → List String
device_ids [] = []
device_ids (number ∷ numbers) =
    let rest = device_ids numbers in
    if is_text number.mode "linked-device" then ids_in number.session_id rest else rest

abbrev pub phone_ids : Option (List WhatsAppNumber) → Account → List String
phone_ids (some numbers) tenant = cloud_ids numbers
phone_ids none tenant = ids_in tenant.phone_number_id []

abbrev pub session_ids : Option (List WhatsAppNumber) → Account → List String
session_ids (some numbers) tenant = device_ids numbers
session_ids none tenant =
    if tenant.whatsapp_mode == "linked-device" then ids_in tenant.session_id [] else []

unfoldable pub tenant_phone_number_ids : Account → List String
tenant_phone_number_ids tenant = phone_ids tenant.numbers tenant

unfoldable pub tenant_session_ids : Account → List String
tenant_session_ids tenant = session_ids tenant.numbers tenant

unfoldable pub remove_all : Map Account → List String → Map Account
remove_all index [] = index
remove_all index (id ∷ ids) = remove_all (remove index id) ids

unfoldable pub deindex : TenantStore → Option Account → TenantStore
deindex store none = store
deindex store (some tenant) = record {
  by_id = remove store.by_id tenant.id;
  by_phone = remove_all store.by_phone (tenant_phone_number_ids tenant);
  by_linked_session = remove_all store.by_linked_session (tenant_session_ids tenant);
}

abbrev pub is_free : Option Account → Account → Bool
is_free none tenant = true
is_free (some owner) tenant = owner.id == tenant.id

-- What a loop has claimed before it throws stays claimed.
unfoldable pub claim_ids :
    String → Map Account → Account → List String → Map Account × Result (Unit {0})
claim_ids told index tenant [] = (index, ok tt)
claim_ids told index tenant (id ∷ ids) =
    let rest = claim_ids told (put index id tenant) tenant ids in
    if is_free (get index id) tenant then rest else (index, throws (String.◌++◌ told id))

abbrev pub keep_tenant : TenantStore → Account → Result (Unit {0}) → TenantStore × Result Account
keep_tenant store tenant (ok _) =
    (record store { by_id = put store.by_id tenant.id tenant }, ok tenant)
keep_tenant store tenant (throws e) = (store, throws e)

unfoldable pub claim_sessions :
    TenantStore → Account → Result (Unit {0}) → TenantStore × Result Account
claim_sessions store tenant (ok _) =
    let claimed =
      claim_ids "Duplicate linked-device session id: " store.by_linked_session tenant
        (tenant_session_ids tenant) in
    keep_tenant (record store { by_linked_session = claimed.0 }) tenant claimed.1
claim_sessions store tenant (throws e) = (store, throws e)

unfoldable pub claim_phones : TenantStore → Account → TenantStore × Result Account
claim_phones store tenant =
    let claimed =
      claim_ids "Duplicate WhatsApp phone number id: " store.by_phone tenant
        (tenant_phone_number_ids tenant) in
    claim_sessions (record store { by_phone = claimed.0 }) tenant claimed.1

unfoldable pub index_tenant : TenantStore → Account → TenantStore × Result Account
index_tenant store tenant =
    if is_empty tenant.id
    then (store, throws "Tenant id is required")
    else claim_phones (deindex store (get store.by_id tenant.id)) tenant

unfoldable pub find_by_id : TenantStore → String → Option Account
find_by_id store id = get store.by_id id

unfoldable pub find_by_phone_number_id : TenantStore → String → Option Account
find_by_phone_number_id store phone_number_id = get store.by_phone phone_number_id

unfoldable pub find_by_linked_device_session_id : TenantStore → String → Option Account
find_by_linked_device_session_id store session_id = get store.by_linked_session session_id

abbrev pub delete_found : TenantStore → Option Account → Result (TenantStore × Account)
delete_found store none = throws "tenant_not_found"
delete_found store (some existing) = ok (deindex store (some existing), existing)

unfoldable pub delete_tenant : TenantStore → String → Result (TenantStore × Account)
delete_tenant store id = delete_found store (find_by_id store id)
