-- ===== src/Transform/Activity.antt =====
-- src/pipeline/transform.rs: the activity of an event, by its OCSF class.
use wazuh_ocsf_etl.Base.{
  ℕ, String, List, [], ◌∷◌, ◌||◌, ◌==◌, if◌then◌else◌, eqb, contains, contains_str,
  to_ascii_lowercase,
}

-- 1001: the event of the syscheck section, in lower case
unfoldable pub file_activity : String → ℕ × String
file_activity e =
    if contains ("modified" ∷ "changed" ∷ []) e
    then (3, "Update")
    else if contains ("deleted" ∷ "removed" ∷ []) e
    then (4, "Delete")
    else if contains ("renamed" ∷ "moved" ∷ []) e
    then (5, "Rename")
    else (1, "Create")

-- 1006
unfoldable pub process_activity : List String → ℕ × String
process_activity groups =
    if contains groups "process_stopped"
      || contains groups "process_terminated"
      || contains groups "sysmon_process_terminate"
    then (2, "Terminate")
    else (1, "Launch")

-- 3001
unfoldable pub account_activity : List String → ℕ × String
account_activity groups =
    if contains groups "userdel"
    then (2, "Delete User")
    else if contains groups "groupdel"
    then (8, "Delete Group")
    else if contains groups "addgroup"
    then (7, "Create Group")
    else if contains groups "groupmod"
    then (9, "Update Group")
    else if contains groups "usermod" || contains groups "account_changed"
    then (3, "Update User")
    else if contains groups "passwd" || contains groups "password_changed"
    then (12, "Change Password")
    else (1, "Create User")

-- 3002
unfoldable pub logon_activity : List String → ℕ × String
logon_activity groups =
    if contains groups "logoff" || contains groups "logout" then (2, "Logoff") else (1, "Logon")

-- 4001: the action, in lower case
unfoldable pub network_activity : String → ℕ × String
network_activity a =
    if contains ("allow" ∷ "allowed" ∷ "permit" ∷ "pass" ∷ "accept" ∷ "accepted" ∷ "open" ∷ []) a
    then (1, "Open")
    else if contains
        ("deny" ∷ "denied" ∷ "block" ∷ "blocked" ∷ "drop" ∷ "dropped" ∷ "reject" ∷ "rejected"
          ∷ "refuse" ∷ "refused" ∷ [])
        a
    then (5, "Refuse")
    else if contains
        ("close" ∷ "closed" ∷ "end" ∷ "finish" ∷ "finished" ∷ "timeout" ∷ "timed_out" ∷ []) a
    then (2, "Close")
    else if contains ("reset" ∷ "rst" ∷ []) a
    then (3, "Reset")
    else if contains ("fail" ∷ "failed" ∷ "error" ∷ []) a
    then (4, "Fail")
    else (6, "Traffic")

-- 4002: the HTTP method, in lower case
unfoldable pub http_activity : String → ℕ × String
http_activity m =
    if m == "get"
    then (1, "Get")
    else if m == "put"
    then (2, "Put")
    else if m == "post"
    then (3, "Post")
    else if m == "delete"
    then (4, "Delete")
    else if m == "connect"
    then (5, "Connect")
    else if m == "options"
    then (6, "Options")
    else if m == "head"
    then (7, "Head")
    else (99, "Other")

-- 4003: the groups, and the action in lower case
unfoldable pub dns_activity : List String → String → ℕ × String
dns_activity groups a =
    if contains groups "dns_response" || contains_str a "response" || contains_str a "answer"
    then (2, "Response")
    else if contains groups "dns_traffic" || a == "traffic"
    then (3, "Traffic")
    else (1, "Query")

-- 4004: the action, in lower case
unfoldable pub dhcp_activity : String → ℕ × String
dhcp_activity a =
    if contains_str a "release" || a == "dhcprelease"
    then (3, "Release")
    else if contains_str a "nak" || contains_str a "nack" || contains_str a "error"
    then (4, "Error")
    else if contains_str a "request" || contains_str a "renew" || contains_str a "rebind"
    then (2, "Renew")
    else (1, "Assign")

-- The `match` on the class; a class without activities of its own is a creation.
unfoldable pub activity : ℕ → List String → String → String → String → ℕ × String
activity class_uid groups syscheck_event action http_method =
    if eqb class_uid 1001
    then file_activity (to_ascii_lowercase syscheck_event)
    else if eqb class_uid 1006
    then process_activity groups
    else if eqb class_uid 3001
    then account_activity groups
    else if eqb class_uid 3002
    then logon_activity groups
    else if eqb class_uid 4001
    then network_activity (to_ascii_lowercase action)
    else if eqb class_uid 4002
    then http_activity (to_ascii_lowercase http_method)
    else if eqb class_uid 4003
    then dns_activity groups (to_ascii_lowercase action)
    else if eqb class_uid 4004
    then dhcp_activity (to_ascii_lowercase action)
    else (1, "Create")
