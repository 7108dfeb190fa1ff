-- ===== src/Transform/Schema.antt =====
-- The records of `transform` against the checks of validator.rs.
use wazuh_ocsf_etl.Base.{ℕ, ◌≡◌, refl, ◌≢◌, String, List, [], ◌∷◌, true, arith, contains_num, some}
use wazuh_ocsf_etl.Classify.{OcsfClass}
use wazuh_ocsf_etl.Classify.Laws.{AtEachClass, classify_event_induction}
use wazuh_ocsf_etl.Validator.Laws.{ActivityOk, IsCompliant}
use wazuh_ocsf_etl.Validator.{
  valid_class_uids, valid_severity_ids, valid_activity_ids_for_class, expected_category,
}
use wazuh_ocsf_etl.Transform.Columns.{Columns, Event}
use wazuh_ocsf_etl.Transform.Activity.{
  activity, file_activity, process_activity, account_activity, logon_activity, network_activity,
  http_activity, dns_activity, dhcp_activity,
}
use wazuh_ocsf_etl.Transform.Status.{final_severity, severity_of_label}
use wazuh_ocsf_etl.Transform.Finish.{finish_record}

-- Each activity that a class can be given is one that the validator lists for it.
file_activity-valid :
    (e : String) → contains_num (1 ∷ 2 ∷ 3 ∷ 4 ∷ 5 ∷ 99 ∷ []) (file_activity e).0 ≡ true
unfolding file_activity
file_activity-valid e = ground arith

process_activity-valid :
    (g : List String) → contains_num (1 ∷ 2 ∷ 3 ∷ 99 ∷ []) (process_activity g).0 ≡ true
unfolding process_activity
process_activity-valid g = ground arith

account_activity-valid :
    (g : List String)
    → contains_num (1 ∷ 2 ∷ 3 ∷ 7 ∷ 8 ∷ 9 ∷ 12 ∷ 99 ∷ []) (account_activity g).0 ≡ true
unfolding account_activity
account_activity-valid g = ground arith

logon_activity-valid :
    (g : List String) → contains_num (1 ∷ 2 ∷ 3 ∷ 99 ∷ []) (logon_activity g).0 ≡ true
unfolding logon_activity
logon_activity-valid g = ground arith

network_activity-valid :
    (a : String) → contains_num (1 ∷ 2 ∷ 3 ∷ 4 ∷ 5 ∷ 6 ∷ 99 ∷ []) (network_activity a).0 ≡ true
unfolding network_activity
network_activity-valid a = ground arith

http_activity-valid :
    (m : String) → contains_num (1 ∷ 2 ∷ 3 ∷ 4 ∷ 5 ∷ 6 ∷ 7 ∷ 99 ∷ []) (http_activity m).0 ≡ true
unfolding http_activity
http_activity-valid m = ground arith

dns_activity-valid :
    (g : List String) (a : String) → contains_num (1 ∷ 2 ∷ 3 ∷ 99 ∷ []) (dns_activity g a).0 ≡ true
unfolding dns_activity
dns_activity-valid g a = ground arith

dhcp_activity-valid :
    (a : String) → contains_num (1 ∷ 2 ∷ 3 ∷ 4 ∷ 99 ∷ []) (dhcp_activity a).0 ≡ true
unfolding dhcp_activity
dhcp_activity-valid a = ground arith

-- What the schema asks of a class, whatever activity the event gives it.
record FitsSchema (c : OcsfClass) : Type 0 where
  known : contains_num valid_class_uids c.class_uid ≡ true
  category : expected_category c.class_uid ≡ some (c.category_uid, c.category_name)
  activities :
      (g : List String) (s a m : String)
      → ActivityOk (activity c.class_uid g s a m).0 (valid_activity_ids_for_class c.class_uid)

each_class-FitsSchema : AtEachClass FitsSchema
unfolding expected_category valid_activity_ids_for_class activity
each_class-FitsSchema = record {
  at_1001 = record { known = refl; category = refl; activities = λ g s a m. file_activity-valid _ };
  at_1006 = record {
    known = refl;
    category = refl;
    activities = λ g s a m. process_activity-valid g;
  };
  at_2002 = record { known = refl; category = refl; activities = λ g s a m. refl };
  at_2003 = record { known = refl; category = refl; activities = λ g s a m. refl };
  at_2004 = record { known = refl; category = refl; activities = λ g s a m. refl };
  at_3001 = record {
    known = refl;
    category = refl;
    activities = λ g s a m. account_activity-valid g;
  };
  at_3002 = record {
    known = refl;
    category = refl;
    activities = λ g s a m. logon_activity-valid g;
  };
  at_4001 = record {
    known = refl;
    category = refl;
    activities = λ g s a m. network_activity-valid _;
  };
  at_4002 = record { known = refl; category = refl; activities = λ g s a m. http_activity-valid _ };
  at_4003 = record {
    known = refl;
    category = refl;
    activities = λ g s a m. dns_activity-valid g _;
  };
  at_4004 = record { known = refl; category = refl; activities = λ g s a m. dhcp_activity-valid _ };
}

final_severity-valid :
    (uid : ℕ) (label : String) (sev : ℕ × String)
    → contains_num valid_severity_ids sev.0 ≡ true
    → contains_num valid_severity_ids (final_severity uid label sev).0 ≡ true
unfolding final_severity severity_of_label
final_severity-valid uid label sev h = ground arith

-- A record that `transform` builds is compliant, whatever the event's groups, decoder, location, action,
-- method and status: given only that the severity so far is a valid one and that the time is not 0.
pub finish_record-IsCompliant :
    (to_json : List (String × String) → String) {F32 : Type 0} (version : String) (e : Event F32)
    (cols : Columns)
    → contains_num valid_severity_ids e.sev_id ≡ true
    → e.time_secs ≢ 0
    → IsCompliant (finish_record to_json version e cols)
unfolding finish_record
finish_record-IsCompliant to_json version e cols sev timed =
    let fits =
      classify_event_induction FitsSchema each_class-FitsSchema e.rule_groups e.decoder_name
        e.location in
    record {
      known_class = fits.known;
      known_severity = final_severity-valid _ e.vuln_sev (e.sev_id, e.sev_label) sev;
      derived_type = refl;
      fitting_activity =
          fits.activities e.rule_groups e.syscheck_event cols.action cols.http_method;
      fitting_category = rw fits.category (refl, refl);
      timed = timed;
    }
