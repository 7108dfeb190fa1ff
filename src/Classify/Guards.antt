-- ===== src/Classify/Guards.antt =====
-- src/pipeline/classify.rs: the conditions of `classify_event`, in the order of its ladder.
use wazuh_ocsf_etl.Base.{
  String, List, [], ◌∷◌, Bool, not, ◌&&◌, ◌||◌, ◌==◌, any, contains, contains_str, ends_with,
}

-- `dec` and `loc` are in lower case already.
module _ (groups : List String) (dec loc : String) where
  unfoldable pub is_vpc_flow : Bool
  is_vpc_flow =
      contains_str dec "vpcflow"
      || contains_str dec "vpc-flow"
      || contains groups "amazon-vpcflow"
      || contains groups "aws_vpcflow"

  unfoldable pub is_guardduty : Bool
  is_guardduty =
      contains_str dec "guardduty"
      || contains_str dec "guard-duty"
      || contains groups "amazon-guardduty"
      || contains groups "aws-guardduty"

  unfoldable pub is_aws_findings : Bool
  is_aws_findings = contains groups "aws_inspector" || contains groups "aws_macie"

  unfoldable pub is_aws_config : Bool
  is_aws_config = contains groups "aws_config"

  unfoldable pub is_aws_waf : Bool
  is_aws_waf = contains groups "aws_waf"

  unfoldable pub is_aws_balancer : Bool
  is_aws_balancer = contains groups "aws_alb" || contains groups "aws_elb"

  unfoldable pub is_s3 : Bool
  is_s3 = contains groups "aws_s3" || contains groups "s3"

  unfoldable pub is_identity_provider : Bool
  is_identity_provider =
      contains_str dec "okta"
      || contains_str dec "azure-ad"
      || contains_str dec "azure_ad"
      || contains_str dec "azure-active"
      || contains_str dec "onelogin"
      || contains groups "okta"
      || contains groups "azure-ad"
      || contains groups "azure_ad"
      || contains groups "onelogin"

  unfoldable pub is_zeek : Bool
  is_zeek =
      contains_str dec "zeek"
      || contains_str dec "bro-ids"
      || contains groups "zeek"
      || contains groups "bro"

  unfoldable pub is_cloudtrail_auth : Bool
  is_cloudtrail_auth =
      (contains_str dec "cloudtrail" || contains_str dec "aws-cloudtrail")
      && any (contains groups) ("authentication" ∷ "aws_iam" ∷ "aws-iam" ∷ [])

  unfoldable pub is_file_event : Bool
  is_file_event =
      any (contains groups) ("syscheck" ∷ "syscheck_file" ∷ "sysmon_file" ∷ "fim_config" ∷ [])
      || (contains groups "sysmon" && contains groups "sysmon_file")

  unfoldable pub is_process_event : Bool
  is_process_event =
      any (contains groups) (
        "sysmon_process" ∷ "process_creation" ∷ "process_activity" ∷ "execve" ∷ "audit_command"
        ∷ [])
      || (contains groups "sysmon"
          && not (
              any (contains groups) (
                "sysmon_file" ∷ "sysmon_network_connection" ∷ "sysmon_dns_query" ∷ "sysmon_registry"
                ∷ [])))

  unfoldable pub is_vulnerability : Bool
  is_vulnerability =
      any (contains groups) ("vulnerability-detector" ∷ "vulnerability" ∷ "vuls" ∷ [])
      || contains_str dec "vulnerability"

  unfoldable pub is_compliance : Bool
  is_compliance = any (contains groups) ("oscap" ∷ "sca" ∷ "ciscat" ∷ [])

  unfoldable pub is_ms_graph : Bool
  is_ms_graph =
      contains_str dec "ms-graph" || contains_str dec "ms_graph" || contains groups "ms-graph"

  unfoldable pub is_account_change : Bool
  is_account_change = any (contains groups) (
      "adduser" ∷ "addgroup" ∷ "userdel" ∷ "groupdel" ∷ "usermod" ∷ "account_changed"
      ∷ "user_management" ∷ "group_management" ∷ [])

  unfoldable pub is_authentication : Bool
  is_authentication =
      any (contains groups) (
        "authentication" ∷ "authentication_failed" ∷ "authentication_success" ∷ "pam" ∷ "sudo"
        ∷ "su" ∷ "sshd" ∷ "win_authentication" ∷ "windows_logon" ∷ [])
      || dec == "pam"
      || dec == "sudo"
      || dec == "su"
      || dec == "sshd"
      || ends_with dec "_auth"
      || contains_str dec "auth"

  unfoldable pub is_dns : Bool
  is_dns =
      any (contains groups) ("dns" ∷ "sysmon_dns_query" ∷ [])
      || contains_str dec "dns"
      || contains_str dec "named"

  unfoldable pub is_dhcp : Bool
  is_dhcp = contains groups "dhcp" || contains_str dec "dhcp"

  unfoldable pub is_cloudflare : Bool
  is_cloudflare =
      contains_str dec "cloudflare"
      || contains groups "WAF"
      || contains groups "Cloudflare"
      || contains groups "cloudflare"

  unfoldable pub is_web : Bool
  is_web =
      any (contains groups) (
        "web" ∷ "web-log" ∷ "web_accesslog" ∷ "web_attack" ∷ "apache" ∷ "nginx" ∷ "iis" ∷ "squid"
        ∷ "haproxy" ∷ [])
      || contains_str dec "apache"
      || contains_str dec "nginx"
      || contains_str dec "iis"
      || contains_str dec "squid"
      || ends_with loc "access.log"
      || contains_str loc "access_log"

  unfoldable pub is_firewall : Bool
  is_firewall =
      any (contains groups) (
        "firewall" ∷ "iptables" ∷ "ids" ∷ "suricata" ∷ "snort" ∷ "paloalto" ∷ "fortigate" ∷ "cisco"
        ∷ "pfsense" ∷ "checkpoint" ∷ "juniper" ∷ "netscreen" ∷ "sysmon_network_connection" ∷ [])
      || contains_str dec "fortigate"
      || contains_str dec "paloalto"
      || contains_str dec "cisco"
      || contains_str dec "pfsense"
      || contains_str dec "checkpoint"
      || contains_str dec "iptables"
      || contains_str dec "suricata"
      || contains_str dec "snort"
      || contains_str dec "netfilter"
