-- ===== src/TenantStore/Tests.antt =====
-- Runs of src/core/tenant-store.js.
use whatsapp_ai_supervisor.Common.{List, String, [], any, none, refl, some, throws, ◌∷◌, ◌≡◌}
use whatsapp_ai_supervisor.Common.Maps.{get, put, remove}
use whatsapp_ai_supervisor.TenantStore.{
  Account, TenantStore, WhatsAppNumber, claim_ids, claim_phones, claim_sessions, deindex,
  delete_tenant, find_by_id, find_by_linked_device_session_id, find_by_phone_number_id,
  index_tenant, remove_all, tenant_phone_number_ids, tenant_session_ids,
}
use whatsapp_ai_supervisor.TenantStore.Routing.{IsConsistent, index_tenant-IsStored}

abbrev cloud : String → String → WhatsAppNumber
cloud id phone = record {
  id = id;
  mode = some "cloud";
  phone_number_id = some phone;
  session_id = none;
}

abbrev account : String → List WhatsAppNumber → Account
account id numbers = record {
  id = id;
  phone_number_id = none;
  whatsapp_mode = "cloud";
  session_id = none;
  numbers = some numbers;
}

abbrev no_tenants : TenantStore
no_tenants = record { by_id = []; by_phone = []; by_linked_session = [] }

code : Unit {0}
unfolding get put remove any tenant_phone_number_ids tenant_session_ids remove_all deindex claim_ids
    claim_sessions claim_phones index_tenant find_by_id find_by_phone_number_id
    find_by_linked_device_session_id delete_tenant
code = tt

no_tenants-IsConsistent : IsConsistent no_tenants
unfolding get
no_tenants-IsConsistent = record {
  keyed = λ id tenant e. cc;
  phones = λ key tenant. ((λ found. cc), (λ stored hit. cc));
  sessions = λ key tenant. ((λ found. cc), (λ stored hit. cc));
}

abbrev one_shop : TenantStore
one_shop = (index_tenant no_tenants (account "shop" (cloud "a" "111" ∷ []))).0

abbrev two_shops : TenantStore
two_shops = (index_tenant one_shop (account "cafe" (cloud "b" "222" ∷ []))).0

one_shop-IsConsistent : IsConsistent one_shop
unfolding code
one_shop-IsConsistent =
    (index_tenant-IsStored no_tenants (account "shop" (cloud "a" "111" ∷ [])) "shop"
      no_tenants-IsConsistent refl).0.0

-- A tenant is stored again with a number more, which is another's: it is gone, and its own number
-- leads to what was to be stored.
index_tenant_lost :
    (let after = index_tenant two_shops (account "cafe" (cloud "b" "222" ∷ cloud "c" "111" ∷ [])) in
      (after.1 ≡ throws "Duplicate WhatsApp phone number id: 111")
      × (find_by_id after.0 "cafe" ≡ none)
      × (find_by_phone_number_id after.0 "222"
          ≡ some (account "cafe" (cloud "b" "222" ∷ cloud "c" "111" ∷ [])))
      × (find_by_linked_device_session_id after.0 "222" ≡ none))
unfolding code
index_tenant_lost = (refl, refl, refl, refl)
