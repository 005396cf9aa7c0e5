-- ===== src/Conversations/Tests.antt =====
-- Runs of file-conversation-store.js.
use whatsapp_ai_supervisor.Common.{
  List, [], any, filter, find, if◌then◌else◌, last, map, none, ok, refl, some, true, ◌==◌, ◌∷◌, ◌≡◌,
}
use whatsapp_ai_supervisor.Common.Maps.{get, put}
use whatsapp_ai_supervisor.Common.Sorting.{insert_sorted, sort_by}
use whatsapp_ai_supervisor.Messages.{Message}
use whatsapp_ai_supervisor.Conversations.{
  Files, Line, ManualOutbound, append_event, append_to, control_line, file_for, get_control, human,
  inbound_line, is_human_controlled, last_mode, lineage_fields, manual_line, read_events,
  record_decision, record_inbound, record_manual_outbound, set_control,
}
use whatsapp_ai_supervisor.Conversations.Threads.{
  Listed, absorb, add_line, add_lines, get-add_lines, is_of, list, list_recent_events, replay,
}
use whatsapp_ai_supervisor.OwnershipStore.{safe_text}

abbrev no_files : Files
no_files file = []

abbrev typed : ManualOutbound
typed = record {
  tenant_id = "shop";
  customer_id = "201";
  customer_name = none;
  text = some "Hello";
  message_id = some "p1";
  at = "2026-01-01";
}

abbrev question : Message
question = record {
  id = "m1";
  tenant_id = "shop";
  channel = "whatsapp";
  customer_id = "202";
  customer_name = some "Sara";
  text = some "Open?";
  context = none;
}

abbrev lines : List Line
lines =
    manual_line typed "f1"
    ∷ inbound_line question none "2026-01-02"
    ∷ control_line "shop" "201" human "f2" "2026-01-03"
    ∷ []

abbrev with_lines : Files
with_lines file = if file == file_for "shop" then lines else []

code : Unit {0}
unfolding file_for safe_text lineage_fields append_event read_events record_inbound record_decision
    record_manual_outbound set_control last_mode get_control is_human_controlled absorb add_line
    add_lines list list_recent_events insert_sorted sort_by find filter get put any last
code = tt

human_controlled : is_human_controlled with_lines "shop" "201" ≡ true
unfolding code
human_controlled = refl

listed_customers :
    map
      (λ (l : Listed). l.thread.customer_id)
      (list (λ a b. a == "2026-01-02") with_lines "shop" 200)
    ≡ "201" ∷ "202" ∷ []
unfolding code
listed_customers = refl

-- Tenants whose ids differ only in characters that the file name replaces share a history.
same_file : file_for "a/b" ≡ file_for "a_b"
unfolding code
same_file = refl

get-add_lines_example :
    get (add_lines "shop" [] lines) "201" ≡ replay "shop" none (filter (is_of "201") lines)
unfolding code
get-add_lines_example = get-add_lines "shop" "201" [] lines

takes_over :
    set_control with_lines "shop" "202" "human" "f3" "2026-01-04"
    ≡ ok (
      append_to with_lines (file_for "shop") (control_line "shop" "202" human "f3" "2026-01-04"),
      control_line "shop" "202" human "f3" "2026-01-04",
    )
unfolding code
takes_over = refl

typed_once :
    record_manual_outbound no_files typed "f1"
    ≡ ok (append_to no_files (file_for "shop") (manual_line typed "f1"), manual_line typed "f1")
unfolding code
typed_once = refl
