-- ===== src/Ingress/Guarded.antt =====
-- src/app.js: nothing is done for a request that does not show the secret of its door.
use text.Mathlib.TextLemmas.{append-eq-nil_iff}
use text.Mathlib.Text.{starts_with}
use Prim.Native.String
use whatsapp_ai_supervisor.Common.{
  Bool, Bool-cases, Option, Option-cases, Result, String, [], ap, arith, eq_iff, false, if-holds,
  inl, inr, is_empty, none, not, ok, refl, some, sym, text_of, throws, trim, true, ℕ, ◌==◌, ◌≡◌,
  ◌⊎◌,
}
use whatsapp_ai_supervisor.Common.Traces.{quiet, then_run}
use whatsapp_ai_supervisor.Messages.{Message, Tenant}
use whatsapp_ai_supervisor.Inbound.{Backends, Task}
use whatsapp_ai_supervisor.Channels.{WirePayload, same_folded}
use whatsapp_ai_supervisor.Channels.Cloud.{
  CloudPayload, count_hex, is_digest_length, validate_meta_signature,
}
use whatsapp_ai_supervisor.Ingress.{
  DeviceAnswer, bearer_matches, receive_for, receive_linked_device, receive_session,
  receive_webhook,
}

-- A request of the worker that shows the configured token, with a payload of a tenant's session.
abbrev pub IsTrusted :
    (String → Option (Tenant × Bool)) → Option String → Option String → Result WirePayload → Type 0
IsTrusted find_tenant token authorization body =
    (is_empty (text_of token) ≡ false)
    × (authorization ≡ some (String.◌++◌ "Bearer " (text_of token)))
    × ((payload : WirePayload) × (owner : Tenant × Bool) × (body ≡ ok payload)
        × (find_tenant (trim (text_of payload.session_id)) ≡ some owner))

-- A signature of the body: its 64 hexadecimal digits are those of the HMAC, but for their case.
abbrev pub IsSigned : (String → String → String) → String → String → Option String → Type 0
IsSigned hmac secret raw signature =
    (header : String) × (signature ≡ some header)
    × (starts_with header "sha256=" ≡ true)
    × (count_hex (String.slice header 7 (String.len header)) ≡ some 64)
    × (same_folded (String.slice header 7 (String.len header)) (hmac secret raw) ≡ true)

bearer_matches-authorization :
    (token : String) (authorization : Option String)
    → bearer_matches token authorization ≡ true
    → authorization ≡ some (String.◌++◌ "Bearer " token)
unfolding bearer_matches
bearer_matches-authorization token none h =
    let wrong : ("" == String.◌++◌ "Bearer " token) ≡ true = ground (arith, h) in
    let (blank, _) =
      (append-eq-nil_iff {p = "Bearer "} {q = token}).0
        (sym ((eq_iff "" (String.◌++◌ "Bearer " token)).0 wrong)) in
    cc
bearer_matches-authorization token (some given) h =
    ap some ((eq_iff given (String.◌++◌ "Bearer " token)).0 (ground (arith, h)))

digest_length_of : (n : Option ℕ) → is_digest_length n ≡ true → n ≡ some 64
digest_length_of none h = cc
digest_length_of (some n) h = let same : n ≡ 64 = ground (arith, h) in ap some same

validate_meta_signature-IsSigned :
    (hmac : String → String → String) (raw : String) (signature app_secret : Option String)
    → validate_meta_signature hmac raw signature app_secret ≡ true
    → IsSigned hmac (text_of app_secret) raw signature
unfolding validate_meta_signature
validate_meta_signature-IsSigned hmac raw none app_secret h = cc
validate_meta_signature-IsSigned hmac raw (some header) app_secret h =
    (header, refl, ground (arith, h), digest_length_of _ (ground (arith, h)), ground (arith, h))

module _ (backends_for : Message → Backends) where
  receive_session-owner :
      (backends : Backends) (find_tenant : String → Option (Tenant × Bool)) (payload : WirePayload)
      → ((receive_session backends_for backends find_tenant payload).0 ≡ [])
        ⊎ ((owner : Tenant × Bool) × (find_tenant (trim (text_of payload.session_id)) ≡ some owner))
  unfolding receive_for
  receive_session-owner backends find_tenant payload =
      elim (Option-cases (find_tenant (trim (text_of payload.session_id)))) [
        | inl unknown ↦ inl (ground (arith, unknown))
        | inr known ↦ inr known
      ]

  -- The door of the worker does something only where a token is configured, for a request whose
  -- authorization is that token as a bearer's and whose payload names a session of a tenant; and the
  -- webhook, where a secret is configured, only for one whose signature header holds the 64 hexadecimal
  -- digits of the HMAC of its body under the secret.
  pub receive-IsTrusted :
      (hmac : String → String → String) (find_by_number : Option String → Option Tenant)
      (app_secret : Option String) (raw : String) (signature : Option String)
      (cloud_body : Result CloudPayload) (backends : Backends)
      (find_tenant : String → Option (Tenant × Bool)) (token authorization : Option String)
      (body : Result WirePayload)
      → (((receive_linked_device backends_for backends find_tenant token authorization body).0 ≡ [])
          ⊎ IsTrusted find_tenant token authorization body)
        × (((receive_webhook backends_for hmac find_by_number app_secret raw signature cloud_body).0
              ≡ [])
            ⊎ ((is_empty (text_of app_secret) ≡ true)
                ⊎ IsSigned hmac (text_of app_secret) raw signature))
  unfolding receive_linked_device receive_webhook
  receive-IsTrusted hmac find_by_number app_secret raw signature cloud_body backends find_tenant
        token authorization body =
      (
        if-holds
            (λ (run : Task DeviceAnswer).
              (run.0 ≡ []) ⊎ IsTrusted find_tenant token authorization body)
            (is_empty (text_of token)) (λ _. inl refl)
            (λ set.
              if-holds
                (λ (run : Task DeviceAnswer).
                  (run.0 ≡ []) ⊎ IsTrusted find_tenant token authorization body)
                (not (bearer_matches (text_of token) authorization)) (λ _. inl refl)
                (λ shown. read body set (
                  bearer_matches-authorization (text_of token) authorization
                    (ground (arith, shown))))),
        elim (Bool-cases (is_empty (text_of app_secret))) [
          | inl none_set ↦ inr (inl none_set)
          | inr set ↦ elim (Bool-cases (validate_meta_signature hmac raw signature app_secret)) [
            | inl valid ↦
                inr (inr (validate_meta_signature-IsSigned hmac raw signature app_secret valid))
            | inr invalid ↦ inl (rw (set, invalid) refl)
          ]
        ],
      )
    where
      read :
          (posted : Result WirePayload)
          → is_empty (text_of token) ≡ false
          → authorization ≡ some (String.◌++◌ "Bearer " (text_of token))
          → ((then_run (quiet posted) (receive_session backends_for backends find_tenant)).0 ≡ [])
            ⊎ IsTrusted find_tenant token authorization posted
      read (throws e) set shown = inl refl
      read (ok payload) set shown = elim (receive_session-owner backends find_tenant payload) [
        | inl idle ↦ inl idle
        | inr (owner, found) ↦ inr (set, shown, (payload, owner, refl, found))
      ]
