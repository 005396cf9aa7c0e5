-- ===== src/TenantStore/Management/Routed.antt =====
-- src/core/tenant-store.js: that a number which was added leads to its tenant.
use mathlib.Core.Path.{subst}
use Prim.Native.String
use whatsapp_ai_supervisor.Common.{
  >>=-ok_parts, Bool-cases, List, Option, Result, String, [], any, ap, arith, eq_iff, eq_refl,
  false, if-holds, inl, inr, is_empty, is_text, none, not, ok, ok-injective, or_else, refl,
  require-passed, some, sym, text_of, throws, trim, true, ◌&&◌, ◌++◌, ◌==◌, ◌||◌, ◌∙◌, ◌∷◌, ◌≡◌,
  ◌⊎◌,
}
use whatsapp_ai_supervisor.TenantStore.{
  Account, TenantStore, WhatsAppNumber, cloud_ids, device_ids, find_by_id,
  find_by_linked_device_session_id, find_by_phone_number_id, ids_in, index_tenant,
  tenant_phone_number_ids, tenant_session_ids,
}
use whatsapp_ai_supervisor.TenantStore.Routing.{IsConsistent, IsStored, index_tenant-IsStored}
use whatsapp_ai_supervisor.TenantStore.Management.{
  NewNumber, TenantPatch, add_found, add_whatsapp_number, check_number, has_number, made_number,
  numbers_or_legacy, numbers_patch, patched, push_number, update, update_found, with_number,
}
use whatsapp_ai_supervisor.TenantStore.Indexes.{has}
use whatsapp_ai_supervisor.TenantStore.Management.Changed.{IsChanged, tenant_of, update-IsChanged}

index_tenant-stored :
    (store : TenantStore) (tenant : Account) {after : TenantStore} {stored : Account}
    → IsConsistent store
    → index_tenant store tenant ≡ (after, ok stored)
    → stored ≡ tenant
unfolding index_tenant
index_tenant-stored store tenant {after} {stored} consistent e =
    elim (Bool-cases (is_empty tenant.id)) [
      | inl empty ↦ absurd (thrown (rw empty at e))
      | inr full ↦
          same (subst (IsStored tenant) e (index_tenant-IsStored store tenant "" consistent full).0)
    ]
  where
    thrown :
        ◌≡◌ {A = TenantStore × Result Account}
          (store, throws "Tenant id is required")
          (after, ok stored)
        → ⊥
    thrown same_pair = cc

    same : IsStored tenant (after, ok stored) → stored ≡ tenant
    same (_, equal) = equal

has-ids_in :
    (id : Option String) (rest : List String) (key : String)
    → has rest key ≡ true
    → has (ids_in id rest) key ≡ true
unfolding any
has-ids_in none rest key h = h
has-ids_in (some id) rest key h = ground (arith, h)

has-device_ids :
    (numbers : List WhatsAppNumber) (number : WhatsAppNumber) (key : String)
    → number.mode ≡ some "linked-device"
    → number.session_id ≡ some key
    → is_empty key ≡ false
    → has (device_ids (numbers ++ number ∷ [])) key ≡ true
unfolding any
has-device_ids [] number key mode session full = rw (mode, session, full, eq_refl key) refl
has-device_ids (first ∷ numbers) number key mode session full =
    let rest = has-device_ids numbers number key mode session full in
    if-holds (λ ids. has ids key ≡ true) (is_text first.mode "linked-device")
      (λ _. has-ids_in first.session_id (device_ids (numbers ++ number ∷ [])) key rest) (λ _. rest)

has-cloud_ids :
    (numbers : List WhatsAppNumber) (number : WhatsAppNumber) (key : String)
    → number.mode ≡ some "cloud"
    → number.phone_number_id ≡ some key
    → is_empty key ≡ false
    → has (cloud_ids (numbers ++ number ∷ [])) key ≡ true
unfolding any
has-cloud_ids [] number key mode phone full = rw (mode, phone, full, eq_refl key) refl
has-cloud_ids (first ∷ numbers) number key mode phone full =
    let rest = has-cloud_ids numbers number key mode phone full in
    if-holds (λ ids. has ids key ≡ true) (is_text first.mode "cloud")
      (λ _. has-ids_in first.phone_number_id (cloud_ids (numbers ++ number ∷ [])) key rest)
      (λ _. rest)

-- The kinds of number that pass the checks.
abbrev pub IsUsable : WhatsAppNumber → Type 0
IsUsable number =
    ((number.mode ≡ some "linked-device")
      × ((key : String) × (number.session_id ≡ some key) × (is_empty key ≡ false)))
    ⊎ ((number.mode ≡ some "cloud")
        × ((key : String) × (number.phone_number_id ≡ some key) × (is_empty key ≡ false)))

full-some :
    (value : Option String)
    → is_empty (text_of value) ≡ false
    → (key : String) × (value ≡ some key) × (is_empty key ≡ false)
full-some none e = cc
full-some (some key) e = (key, refl, e)

made_number-IsUsable :
    (numbers : List WhatsAppNumber) (number : NewNumber) (now : String) {made : WhatsAppNumber}
    → made_number numbers number now ≡ ok made
    → IsUsable made × (has_number numbers made.id ≡ false)
unfolding made_number check_number
made_number-IsUsable numbers number now {made} e =
    let mode = or_else number.mode "linked-device" in
    let (_, checked, e₁) = >>=-ok_parts (check_number mode number) _ e in
    let (fresh, e₂) =
      require-passed (not (has_number numbers (trim (or_else number.id (String.◌++◌ "num-" now)))))
        _ _ e₁ in
    let (known, c₁) = require-passed (mode == "cloud" || mode == "linked-device") _ _ checked in
    let (device, c₂) =
      require-passed (not (mode == "linked-device" && is_empty (text_of number.session_id))) _ _
        c₁ in
    let cloud : not (mode == "cloud" && is_empty (text_of number.phone_number_id)) ≡ true =
      ground (arith, c₂) in
    subst (λ (m : WhatsAppNumber). IsUsable m × (has_number numbers m.id ≡ false)) (ok-injective e₂)
      (
        elim (Bool-cases (mode == "linked-device")) [
          | inl is_device ↦ inl (
            ap some ((eq_iff mode "linked-device").0 is_device),
            full-some number.session_id (ground (arith, device, is_device)),
          )
          | inr not_device ↦ inr (
            ap some ((eq_iff mode "cloud").0 (ground (arith, known, not_device))),
            full-some number.phone_number_id (ground (arith, cloud, known, not_device)),
          )
        ],
        ground (arith, fresh),
      )

update-stored :
    (store : TenantStore) (id : String) (patch : TenantPatch) {after : TenantStore}
    {stored : Account}
    → IsConsistent store
    → update store id patch ≡ (after, ok stored)
    → (existing : Account) × (find_by_id store id ≡ some existing)
      × (stored ≡ patched existing patch)
unfolding update
update-stored store id patch {after} {stored} consistent e = by_found (find_by_id store id) refl e
  where
    by_found :
        (found : Option Account)
        → find_by_id store id ≡ found
        → update_found store found patch ≡ (after, ok stored)
        → (existing : Account) × (find_by_id store id ≡ some existing)
          × (stored ≡ patched existing patch)
    by_found none known same = cc
    by_found (some existing) known same =
        (existing, known, index_tenant-stored store (patched existing patch) consistent same)

-- Where a number leads, by the lookup of its kind.
abbrev pub IsReached : TenantStore → Account → WhatsAppNumber → Type 0
IsReached store tenant number =
    ((number.mode ≡ some "linked-device")
      × (find_by_linked_device_session_id store (text_of number.session_id) ≡ some tenant))
    ⊎ ((number.mode ≡ some "cloud")
        × (find_by_phone_number_id store (text_of number.phone_number_id) ≡ some tenant))

IsUsable-IsReached :
    (store : TenantStore) (tenant : Account) (numbers : List WhatsAppNumber)
    (number : WhatsAppNumber)
    → IsConsistent store
    → find_by_id store tenant.id ≡ some tenant
    → tenant.numbers ≡ some (numbers ++ number ∷ [])
    → IsUsable number
    → IsReached store tenant number
unfolding find_by_id find_by_linked_device_session_id find_by_phone_number_id tenant_session_ids
    tenant_phone_number_ids
IsUsable-IsReached store tenant numbers number consistent stored listed
      (inl (mode, (key, session, full))) =
    inl (
      mode,
      rw session (
          (consistent.sessions key tenant).1 stored
            (rw listed (has-device_ids numbers number key mode session full))),
    )
IsUsable-IsReached store tenant numbers number consistent stored listed
      (inr (mode, (key, phone, full))) =
    inr (
      mode,
      rw phone (
          (consistent.phones key tenant).1 stored
            (rw listed (has-cloud_ids numbers number key mode phone full))),
    )

abbrev number_of : TenantStore × Result (Account × WhatsAppNumber) → Option WhatsAppNumber
number_of (after, throws told) = none
number_of (after, ok (tenant, made)) = some made

with_number-ok :
    (number : WhatsAppNumber) (outcome : TenantStore × Result Account) {after : TenantStore}
    {tenant : Account} {made : WhatsAppNumber}
    → with_number number outcome ≡ (after, ok (tenant, made))
    → (outcome ≡ (after, ok tenant)) × (number ≡ made)
with_number-ok number (later, throws told) e = cc
with_number-ok number (later, ok stored) {after} {tenant} {made} e =
    let same : some number ≡ some made = ap number_of e in (ap tenant_of e, cc)

-- A number that was added to a tenant of a store whose indexes are right has an id that none of the
-- tenant's others has, stands last among them, where a tenant of the old format has its one number as
-- the first, and a message that comes to its session or its phone number id reaches the tenant.
pub add_whatsapp_number-IsReached :
    (store : TenantStore) (id : String) (number : NewNumber) (now : String) (after : TenantStore)
    (tenant : Account) (made : WhatsAppNumber)
    → IsConsistent store
    → add_whatsapp_number store id number now ≡ (after, ok (tenant, made))
    → (existing : Account) × (find_by_id store id ≡ some existing)
      × (tenant.numbers ≡ some (numbers_or_legacy existing.numbers existing ++ made ∷ []))
      × (has_number (numbers_or_legacy existing.numbers existing) made.id ≡ false)
      × IsReached after tenant made
unfolding add_whatsapp_number
add_whatsapp_number-IsReached store id number now after tenant made consistent e =
    by_found (find_by_id store id) refl e
  where
    by_made :
        (existing : Account) (numbers : List WhatsAppNumber) (result : Result WhatsAppNumber)
        → find_by_id store id ≡ some existing
        → made_number numbers number now ≡ result
        → push_number store id numbers result ≡ (after, ok (tenant, made))
        → (tenant.numbers ≡ some (numbers ++ made ∷ []))
          × (has_number numbers made.id ≡ false)
          × IsReached after tenant made
    by_made existing numbers (throws told) known result same = cc
    by_made existing numbers (ok written) known result same =
        let (updated, equal) = with_number-ok written _ same in
        let (old, _, stored) =
          update-stored store id (numbers_patch (numbers ++ written ∷ [])) consistent updated in
        let listed : tenant.numbers ≡ some (numbers ++ made ∷ []) =
          ap (λ (t : Account). t.numbers) stored ∙ rw equal refl in
        let (right, same_id, found) : IsChanged store id (after, ok tenant) =
          subst (IsChanged store id) updated
            (update-IsChanged store id (numbers_patch (numbers ++ written ∷ [])) consistent) in
        let (usable, unused) = made_number-IsUsable numbers number now (result ∙ ap ok equal) in
        (
          listed,
          unused,
          IsUsable-IsReached after tenant numbers made right
              (subst (λ key. find_by_id after key ≡ some tenant) (sym same_id) found) listed usable,
        )

    by_found :
        (found : Option Account)
        → find_by_id store id ≡ found
        → add_found store id found number now ≡ (after, ok (tenant, made))
        → (existing : Account) × (find_by_id store id ≡ some existing)
          × (tenant.numbers ≡ some (numbers_or_legacy existing.numbers existing ++ made ∷ []))
          × (has_number (numbers_or_legacy existing.numbers existing) made.id ≡ false)
          × IsReached after tenant made
    by_found none known same = cc
    by_found (some existing) known same =
        let (listed, unused, reached) =
          by_made existing (numbers_or_legacy existing.numbers existing) _ known refl same in
        (existing, known, listed, unused, reached)
