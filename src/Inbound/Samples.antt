-- ===== src/Inbound/Samples.antt =====
-- A tenant and stores to run src/app.js on.
use whatsapp_ai_supervisor.Common.{false, none, ok, some, throws, true}
use whatsapp_ai_supervisor.Common.Numbers.{above, nan}
use whatsapp_ai_supervisor.Messages.{Services, Tenant}
use whatsapp_ai_supervisor.Ownership.{Ownership, State, ai_paused, human_active, human_requested}
use whatsapp_ai_supervisor.Inbound.{Backends, OwnershipBackend}

-- The policy has no rule, so each message is for a person.
abbrev pub shop : Tenant
shop = record {
  id = "shop";
  shadow_mode = false;
  policy = record {
    version = nan;
    id = none;
    min_confidence = some (above 0);
    rules = none;
    default_action = none;
    default_effect = none;
  };
  route = none;
  routes = none;
  business_context = none;
}

abbrev pub no_services : Services
no_services = record {
  decide = λ m r. throws "all_providers_failed";
  send_text = λ to body id. throws "unreachable";
  execute = none;
  read_events = none;
  record_attribution = none;
  append_audit = λ e. ok tt;
  clock = "2026-01-01";
  shorten = λ s. s;
  locale_after = λ a b. false;
  parse = λ s. none;
  to_iso = λ n. none;
}

abbrev pub owned : State → Ownership
owned state = record {
  tenant_id = "shop";
  conversation_id = "whatsapp:201";
  state = state;
  version = 3;
  changed_at = "2026-01-01";
  changed_by = "bob";
  reason_code = none;
  transition_id = none;
}

-- Somebody else changes the owner between the first read and the takeover.
abbrev pub contended : OwnershipBackend
contended = record {
  get = λ t c. ok (owned human_requested);
  get_again = λ t c. ok (owned ai_paused);
  transition = λ input. throws "ownership_version_conflict";
  transition_again = λ input. ok (owned human_active);
}

abbrev pub stores : Backends
stores = record {
  fresh = "e1";
  fresh_later = "e2";
  clock = "2026-01-01";
  is_date = λ s. true;
  show_number = λ n. "4";
  claim = λ key. ok true;
  release = λ key. ok tt;
  append = none;
  broadcasts = true;
  enqueue = none;
  ownership = some contended;
  conversations = none;
  attributions = none;
  audit_block = λ t m r e. ok tt;
  supervisor = λ t. no_services;
}
