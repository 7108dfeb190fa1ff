-- ===== src/Classify/Laws.antt =====
-- src/pipeline/classify.rs: what holds of every class that the ladder can give, and the severities.
use wazuh_ocsf_etl.Base.{ℕ, ◌≤◌, String, List, if-both, arith}
use wazuh_ocsf_etl.Classify.Guards.{
  is_vpc_flow, is_guardduty, is_aws_findings, is_aws_config, is_aws_waf, is_aws_balancer, is_s3,
  is_identity_provider, is_zeek, is_cloudtrail_auth, is_file_event, is_process_event,
  is_vulnerability, is_compliance, is_ms_graph, is_account_change, is_authentication, is_dns,
  is_dhcp, is_cloudflare, is_web, is_firewall,
}
use wazuh_ocsf_etl.Classify.{
  OcsfClass, class_of, classify_event, map_severity, file_system_activity, process_activity,
  vulnerability_finding, compliance_finding, detection_finding, account_change, authentication,
  network_activity, http_activity, dns_activity, dhcp_activity,
}

-- A proof for each of the eleven classes.
pub record AtEachClass {ℓ} (P : OcsfClass → Type ℓ) : Type ℓ where
  pub at_1001 : P file_system_activity
  pub at_1006 : P process_activity
  pub at_2002 : P vulnerability_finding
  pub at_2003 : P compliance_finding
  pub at_2004 : P detection_finding
  pub at_3001 : P account_change
  pub at_3002 : P authentication
  pub at_4001 : P network_activity
  pub at_4002 : P http_activity
  pub at_4003 : P dns_activity
  pub at_4004 : P dhcp_activity

module _ {ℓ} (P : OcsfClass → Type ℓ) (h : AtEachClass P) where
  ladder : (groups : List String) (dec loc : String) → P (class_of groups dec loc)
  unfolding class_of
  ladder groups dec loc =
      (if-both P (is_vpc_flow groups dec loc) h.at_4001 (
        if-both P (is_guardduty groups dec loc) h.at_2002 (
          if-both P (is_aws_findings groups dec loc) h.at_2002 (
            if-both P (is_aws_config groups dec loc) h.at_2003 (
              if-both P (is_aws_waf groups dec loc) h.at_4002 (
                if-both P (is_aws_balancer groups dec loc) h.at_4002 (
                  if-both P (is_s3 groups dec loc) h.at_4002 (
                    if-both P (is_identity_provider groups dec loc) h.at_3002 (
                      if-both P (is_zeek groups dec loc) h.at_4001 (
                        if-both P (is_cloudtrail_auth groups dec loc) h.at_3002 (
                          if-both P (is_file_event groups dec loc) h.at_1001 (
                            if-both P (is_process_event groups dec loc) h.at_1006 (
                              if-both P (is_vulnerability groups dec loc) h.at_2002 (
                                if-both P (is_compliance groups dec loc) h.at_2003 (
                                  if-both P (is_ms_graph groups dec loc) h.at_2002 (
                                    if-both P (is_account_change groups dec loc) h.at_3001 (
                                      if-both P (is_authentication groups dec loc) h.at_3002 (
                                        if-both P (is_dns groups dec loc) h.at_4003 (
                                          if-both P (is_dhcp groups dec loc) h.at_4004 (
                                            if-both P (is_cloudflare groups dec loc) h.at_4002 (
                                              if-both P (is_web groups dec loc) h.at_4002 (
                                                if-both P (is_firewall groups dec loc) h.at_4001
                                                  h.at_2004))))))))))))))))))))))

  pub classify_event_induction :
      (groups : List String) (decoder location : String)
      → P (classify_event groups decoder location)
  unfolding classify_event
  classify_event_induction groups decoder location = ladder groups _ _

-- A higher rule level never gives a lower severity.
pub map_severity_mono : (a b : ℕ) → a ≤ b → (map_severity a).0 ≤ (map_severity b).0
unfolding map_severity
map_severity_mono a b h = ground arith
