-- ===== src/TenantStore/Management.antt =====
-- src/core/tenant-store.js: creating and changing a tenant, and the WhatsApp numbers of one. What no
-- index reads of a tenant or a number (labels, addresses and tokens of workers) is left out.
pub mod Changed
pub mod Routed
mod Tests
use Prim.Native.Char.{Char, code}
use Prim.Native.String
use whatsapp_ai_supervisor.Common.{
  Bool, List, Option, Result, String, [], any, eqb, false, filter, if◌then◌else◌, is_empty, is_some,
  leb, min, none, not, ok, or_else, require, some, text_of, throws, trim, ◌&&◌, ◌++◌, ◌==◌, ◌>>=◌,
  ◌>>◌, ◌||◌, ◌∷◌,
}
use whatsapp_ai_supervisor.TenantStore.{
  Account, TenantStore, WhatsAppNumber, find_by_id, index_tenant,
}

abbrev pub is_slug_char : Char → Bool
is_slug_char c = let n = code c in leb b'a' n && leb n b'z' || leb b'0' n && leb n b'9'

-- `replace(/[^a-z0-9]+/g, '-')`; the flag is whether the run goes on.
unfoldable pub dashed : Bool → String → String
dashed going String.[] = String.[]
dashed going (String.◌∷◌ c s) =
    let rest = dashed (not (is_slug_char c)) s in
    if is_slug_char c then String.◌∷◌ c rest else if going then rest else String.◌++◌ "-" rest

abbrev is_dash : Char → Bool
is_dash c = eqb (code c) 45

-- `replace(/^-+|-+$/g, '')`
unfoldable pub strip_leading : String → String
strip_leading String.[] = String.[]
strip_leading (String.◌∷◌ c s) =
    let rest = strip_leading s in if is_dash c then rest else String.◌∷◌ c s

unfoldable pub strip_trailing : String → String
strip_trailing String.[] = String.[]
strip_trailing (String.◌∷◌ c s) =
    let rest = strip_trailing s in
    if is_dash c && is_empty rest then String.[] else String.◌∷◌ c rest

-- The slug is of ASCII characters, so the slice counts as the source does; `lower` is `toLowerCase`.
unfoldable pub slugify : (lower : String → String) → Option String → (now : String) → String
slugify lower name now =
    let slug = strip_trailing (strip_leading (dashed false (trim (lower (text_of name))))) in
    let short = String.slice slug 0 (min 48 (String.len slug)) in
    if is_empty short then String.◌++◌ "tenant-" now else short

unfoldable pub create :
    (lower : String → String)
    → TenantStore
    → (given : Option String) → (name : Option String) → (now : String) → Account
    → TenantStore × Result Account
create lower store given name now tenant =
    let id = trim (or_else given (slugify lower name now)) in
    if is_empty id
    then (store, throws "Tenant id is required")
    else if is_some (find_by_id store id)
    then (store, throws (String.◌++◌ "Tenant id already exists: " id))
    else index_tenant store (record tenant { id = id })

-- A key that the patch has is `some`; `mode` is what `whatsappTransportMode` gives for it.
pub record WhatsAppPatch : Type 0 where
  pub mode : Option String
  pub session_id : Option (Option String)
  pub numbers : Option (Option (List WhatsAppNumber))

pub record TenantPatch : Type 0 where
  pub phone_number_id : Option (Option String)
  pub whatsapp : Option WhatsAppPatch

abbrev pub patched_whatsapp : Account → Option WhatsAppPatch → Account
patched_whatsapp existing none = existing
patched_whatsapp existing (some patch) = record existing {
  whatsapp_mode = or_else patch.mode existing.whatsapp_mode;
  session_id = or_else patch.session_id existing.session_id;
  numbers = or_else patch.numbers existing.numbers;
}

abbrev pub patched : Account → TenantPatch → Account
patched existing patch = record (patched_whatsapp existing patch.whatsapp) {
  phone_number_id = or_else patch.phone_number_id existing.phone_number_id;
}

abbrev pub update_found : TenantStore → Option Account → TenantPatch → TenantStore × Result Account
update_found store none patch = (store, throws "tenant_not_found")
update_found store (some existing) patch = index_tenant store (patched existing patch)

unfoldable pub update : TenantStore → String → TenantPatch → TenantStore × Result Account
update store id patch = update_found store (find_by_id store id) patch

-- `whatsapp: { ...tenant.whatsapp, numbers }`, merged into the same `tenant.whatsapp`.
abbrev pub numbers_patch : List WhatsAppNumber → TenantPatch
numbers_patch numbers = record {
  phone_number_id = none;
  whatsapp = some (record { mode = none; session_id = none; numbers = some (some numbers) });
}

pub record NewNumber : Type 0 where
  pub id : Option String
  pub mode : Option String
  pub phone_number_id : Option String
  pub session_id : Option String

unfoldable pub check_number : String → NewNumber → Result (Unit {0})
check_number mode number = do
  require (mode == "cloud" || mode == "linked-device") (String.◌++◌ "Invalid WhatsApp mode: " mode)
  require (not (mode == "linked-device" && is_empty (text_of number.session_id)))
      "sessionId is required for linked-device"
  require (not (mode == "cloud" && is_empty (text_of number.phone_number_id)))
      "phoneNumberId is required for cloud"

unfoldable pub legacy_numbers : Account → List WhatsAppNumber
legacy_numbers tenant =
    if tenant.whatsapp_mode == "linked-device" && not (is_empty (text_of tenant.session_id))
    then record {
      id = "primary";
      mode = some "linked-device";
      phone_number_id = none;
      session_id = tenant.session_id;
    }
      ∷ []
    else if tenant.whatsapp_mode == "cloud" && not (is_empty (text_of tenant.phone_number_id))
    then record {
      id = "primary";
      mode = some "cloud";
      phone_number_id = tenant.phone_number_id;
      session_id = none;
    }
      ∷ []
    else []

abbrev pub numbers_or_legacy : Option (List WhatsAppNumber) → Account → List WhatsAppNumber
numbers_or_legacy none tenant = legacy_numbers tenant
numbers_or_legacy (some []) tenant = legacy_numbers tenant
numbers_or_legacy (some (number ∷ numbers)) tenant = number ∷ numbers

abbrev pub has_number : List WhatsAppNumber → String → Bool
has_number numbers number_id = any (λ number. number.id == number_id) numbers

unfoldable pub made_number :
    List WhatsAppNumber → NewNumber → (now : String) → Result WhatsAppNumber
made_number numbers number now = do
  let mode = or_else number.mode "linked-device"
  check_number mode number
  let number_id = trim (or_else number.id (String.◌++◌ "num-" now))
  require (not (has_number numbers number_id))
      (String.◌++◌ "WhatsApp number id already exists: " number_id)
  ok (record {
    id = number_id;
    mode = some mode;
    phone_number_id = number.phone_number_id;
    session_id = number.session_id;
  })

abbrev pub with_number :
    WhatsAppNumber → TenantStore × Result Account → TenantStore × Result (Account × WhatsAppNumber)
with_number number (after, throws e) = (after, throws e)
with_number number (after, ok tenant) = (after, ok (tenant, number))

abbrev pub push_number :
    TenantStore
    → String
    → List WhatsAppNumber
    → Result WhatsAppNumber
    → TenantStore × Result (Account × WhatsAppNumber)
push_number store tenant_id numbers (throws e) = (store, throws e)
push_number store tenant_id numbers (ok number) =
    with_number number (update store tenant_id (numbers_patch (numbers ++ number ∷ [])))

abbrev pub add_found :
    TenantStore
    → String
    → Option Account
    → NewNumber
    → (now : String) → TenantStore × Result (Account × WhatsAppNumber)
add_found store tenant_id none number now = (store, throws "tenant_not_found")
add_found store tenant_id (some tenant) number now =
    let numbers = numbers_or_legacy tenant.numbers tenant in
    push_number store tenant_id numbers (made_number numbers number now)

unfoldable pub add_whatsapp_number :
    TenantStore
    → String
    → NewNumber
    → (now : String) → TenantStore × Result (Account × WhatsAppNumber)
add_whatsapp_number store tenant_id number now =
    add_found store tenant_id (find_by_id store tenant_id) number now

abbrev pub remove_found :
    TenantStore → String → Option Account → String → TenantStore × Result Account
remove_found store tenant_id none number_id = (store, throws "tenant_not_found")
remove_found store tenant_id (some tenant) number_id =
    let numbers = or_else tenant.numbers [] in
    if has_number numbers number_id
    then update store tenant_id
        (numbers_patch (filter (λ number. not (number.id == number_id)) numbers))
    else (store, throws "whatsapp_number_not_found")

unfoldable pub remove_whatsapp_number : TenantStore → String → String → TenantStore × Result Account
remove_whatsapp_number store tenant_id number_id =
    remove_found store tenant_id (find_by_id store tenant_id) number_id
