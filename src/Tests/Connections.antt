-- ===== src/Tests/Connections.antt =====
-- Two hosts, of which one is behind a Satellite, and two recipients, of which one is connected.
use playbook_dispatcher.Common.{
  refl, true, false, if◌then◌else◌, ◌==◌, String, none, some, List, [], ◌∷◌, ok,
}
use playbook_dispatcher.Connections.Inventory.{InventoryAnswers, text}
use playbook_dispatcher.Connections.Recipients.{
  connected, disconnected, ConnectionAnswers, RecipientWithOrg, RecipientStatus, recipients_status,
}
use playbook_dispatcher.Connections.Recipients.Answers.{IsStatuses, recipients_status-IsStatuses}
use playbook_dispatcher.Connections.Status.{StatusAnswers, StatusReply, satellite, direct_connect}

abbrev inventory : InventoryAnswers
inventory = record {
  parse_uuid = λ id. some id;
  get_hosts = λ ids. ok (
      record {
        host_id = some "a";
        fact_sets = some (
            record {
              namespace = "satellite";
              facts = ("satellite_instance_id", text "s") ∷ ("organization_id", text "1") ∷ [];
            }
            ∷ []);
      }
      ∷ record { host_id = some "b"; fact_sets = some [] }
      ∷ []);
  get_profiles = λ ids. ok (
      record {
        profile_id = some "a";
        profile = some (record { profile_owner_id = none; profile_rhc_client_id = none });
      }
      ∷ record {
        profile_id = some "b";
        profile = some (record { profile_owner_id = none; profile_rhc_client_id = some "c" });
      }
      ∷ []);
}

abbrev env : StatusAnswers
env = record {
  inventory = inventory;
  parse_recipient = λ id. some id;
  connection = λ org client. ok connected;
  source_details =
      λ id. ok (record { source_id = "9"; source_rhc_id = some "d"; availability_status = none });
}

abbrev reply : StatusReply
reply = record {
  code = 200;
  body =
      record {
        info_org_id = "o";
        recipient = "d";
        recipient_type = satellite;
        sat_id = "s";
        info_sat_org_id = "1";
        info_status = "connected";
        systems = "a" ∷ [];
      }
      ∷ record {
        info_org_id = "o";
        recipient = "c";
        recipient_type = direct_connect;
        sat_id = "";
        info_sat_org_id = "";
        info_status = "connected";
        systems = "b" ∷ [];
      }
      ∷ [];
}

abbrev asked : List String
asked = "a" ∷ "b" ∷ []

abbrev connections : ConnectionAnswers
connections = record {
  wait = λ i. none;
  get_connection_status = λ org id. ok (if id == "c" then connected else disconnected);
}

abbrev recipients : List RecipientWithOrg
recipients =
    record { org_id = "o"; recipient = "c" } ∷ record { org_id = "o"; recipient = "d" } ∷ []

abbrev statuses : List RecipientStatus
statuses =
    record { status_org_id = "o"; status_recipient = "c"; is_reached = true }
    ∷ record { status_org_id = "o"; status_recipient = "d"; is_reached = false }
    ∷ []

recipients_status-IsStatuses_example : IsStatuses connections 0 recipients statuses
unfolding recipients_status
recipients_status-IsStatuses_example =
    recipients_status-IsStatuses connections 0 recipients {ss = statuses} refl
