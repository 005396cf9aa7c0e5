-- ===== src/TenantStore/Management/Tests.antt =====
-- Runs of src/core/tenant-store.js on the numbers of a tenant.
use whatsapp_ai_supervisor.Common.{
  OnOk, [], any, false, filter, is_space, none, refl, some, trim, ◌++◌, ◌∷◌, ◌≡◌,
}
use whatsapp_ai_supervisor.Common.Maps.{get, put, remove}
use whatsapp_ai_supervisor.TenantStore.{
  Account, TenantStore, WhatsAppNumber, claim_ids, claim_phones, claim_sessions, deindex,
  delete_tenant, find_by_id, find_by_linked_device_session_id, find_by_phone_number_id,
  index_tenant, remove_all, tenant_phone_number_ids, tenant_session_ids,
}
use whatsapp_ai_supervisor.TenantStore.Routing.{IsConsistent, index_tenant-IsStored}
use whatsapp_ai_supervisor.TenantStore.Management.{
  NewNumber, add_whatsapp_number, check_number, create, dashed, has_number, legacy_numbers,
  made_number, numbers_or_legacy, numbers_patch, remove_whatsapp_number, slugify, strip_leading,
  strip_trailing, update,
}
use whatsapp_ai_supervisor.TenantStore.Management.Changed.{
  IsChanged, management-IsChanged, tenant_of,
}
use whatsapp_ai_supervisor.TenantStore.Management.Routed.{IsReached, add_whatsapp_number-IsReached}

code : Unit {0}
unfolding get put remove any filter trim is_space tenant_phone_number_ids tenant_session_ids
    remove_all deindex claim_ids claim_sessions claim_phones index_tenant find_by_id
    find_by_phone_number_id find_by_linked_device_session_id dashed strip_leading strip_trailing
    slugify create update check_number legacy_numbers made_number add_whatsapp_number
    remove_whatsapp_number
code = tt

-- A tenant of the old format, with one linked device.
abbrev old_account : Account
old_account = record {
  id = "shop";
  phone_number_id = none;
  whatsapp_mode = "linked-device";
  session_id = some "s1";
  numbers = none;
}

abbrev no_tenants : TenantStore
no_tenants = record { by_id = []; by_phone = []; by_linked_session = [] }

abbrev old_store : TenantStore
old_store = (index_tenant no_tenants old_account).0

no_tenants-IsConsistent : IsConsistent no_tenants
unfolding get
no_tenants-IsConsistent = record {
  keyed = λ id tenant e. cc;
  phones = λ key tenant. ((λ found. cc), (λ stored hit. cc));
  sessions = λ key tenant. ((λ found. cc), (λ stored hit. cc));
}

old_store-IsConsistent : IsConsistent old_store
unfolding code
old_store-IsConsistent =
    (index_tenant-IsStored no_tenants old_account "shop" no_tenants-IsConsistent refl).0.0

abbrev second : NewNumber
second = record { id = some "desk"; mode = none; phone_number_id = none; session_id = some "s2" }

abbrev primary : WhatsAppNumber
primary = record {
  id = "primary";
  mode = some "linked-device";
  phone_number_id = none;
  session_id = some "s1";
}

abbrev desk : WhatsAppNumber
desk = record {
  id = "desk";
  mode = some "linked-device";
  phone_number_id = none;
  session_id = some "s2";
}

abbrev migrated : Account
migrated = record old_account { numbers = some (primary ∷ desk ∷ []) }

abbrev migrated_store : TenantStore
migrated_store = (add_whatsapp_number old_store "shop" second "7").0

add_whatsapp_number-IsReached_example :
    (existing : Account) × (find_by_id old_store "shop" ≡ some existing)
    × (migrated.numbers ≡ some (numbers_or_legacy existing.numbers existing ++ desk ∷ []))
    × (has_number (numbers_or_legacy existing.numbers existing) "desk" ≡ false)
    × IsReached migrated_store migrated desk
unfolding code
add_whatsapp_number-IsReached_example =
    add_whatsapp_number-IsReached old_store "shop" second "7" migrated_store migrated desk
      old_store-IsConsistent refl

management-IsChanged_example :
    IsChanged old_store "coffee-bar"
      (create (λ s. s) old_store none (some "coffee & bar!") "7" old_account)
    × IsChanged old_store "shop" (update old_store "shop" (numbers_patch []))
    × IsChanged old_store "shop" (tenant_of (add_whatsapp_number old_store "shop" second "7"))
    × IsChanged old_store "shop" (remove_whatsapp_number old_store "shop" "primary")
    × OnOk (λ deleted. IsConsistent deleted.0) (delete_tenant old_store "shop")
unfolding code
management-IsChanged_example =
    management-IsChanged (λ s. s) old_store none (some "coffee & bar!") "7" old_account "shop"
      (numbers_patch []) second "primary" old_store-IsConsistent

-- Both numbers are removed, and the next one that is added brings the first one back.
remove_whatsapp_number_undone :
    (let one = (remove_whatsapp_number migrated_store "shop" "primary").0 in
      let bare = (remove_whatsapp_number one "shop" "desk").0 in
      let after = (add_whatsapp_number bare "shop" second "8").0 in
      (find_by_linked_device_session_id bare "s1" ≡ none)
      × (find_by_linked_device_session_id after "s1" ≡ some migrated))
unfolding code
remove_whatsapp_number_undone = (refl, refl)
