-- ===== src/Transform/OverlayLaws.antt =====
-- src/pipeline/transform.rs: how the overlay of custom mappings changes the columns.
use wazuh_ocsf_etl.Base.{
  ℕ, ◌≡◌, refl, sym, ap, ◌∙◌, ◌||◌, ◌⊎◌, inl, inr, String, List, [], ◌∷◌, Bool, true, false, not,
  ◌==◌, eq_iff, is_empty, contains, all, ◌&&◌, arith, Bool-cases,
}
use wazuh_ocsf_etl.Json.{Value}
use wazuh_ocsf_etl.Json.Lookup.{get_data_field}
use wazuh_ocsf_etl.Config.{standard_ocsf_targets}
use wazuh_ocsf_etl.Transform.Columns.{Columns}
use wazuh_ocsf_etl.Transform.Overlay.{
  Target, arms, arm_of, other, target_of, fill, fill_num, apply_target, apply_mapping, overlay,
}

-- A column that was filled keeps its value.
abbrev pub Kept : String → String → Type 0
Kept old new = (is_empty old ≡ true) ⊎ (new ≡ old)

abbrev pub KeptNum : ℕ → ℕ → Type 0
KeptNum old new = (old ≡ 0) ⊎ (new ≡ old)

pub record Extends (c d : Columns) : Type 0 where
  pub src_ip : Kept c.src_ip d.src_ip
  pub dst_ip : Kept c.dst_ip d.dst_ip
  pub src_port : KeptNum c.src_port d.src_port
  pub dst_port : KeptNum c.dst_port d.dst_port
  pub nat_src_ip : Kept c.nat_src_ip d.nat_src_ip
  pub nat_dst_ip : Kept c.nat_dst_ip d.nat_dst_ip
  pub nat_src_port : KeptNum c.nat_src_port d.nat_src_port
  pub nat_dst_port : KeptNum c.nat_dst_port d.nat_dst_port
  pub network_protocol : Kept c.network_protocol d.network_protocol
  pub bytes_in : KeptNum c.bytes_in d.bytes_in
  pub bytes_out : KeptNum c.bytes_out d.bytes_out
  pub actor_user : Kept c.actor_user d.actor_user
  pub target_user : Kept c.target_user d.target_user
  pub domain : Kept c.domain d.domain
  pub url : Kept c.url d.url
  pub http_method : Kept c.http_method d.http_method
  pub http_status : KeptNum c.http_status d.http_status
  pub app_name : Kept c.app_name d.app_name
  pub src_hostname : Kept c.src_hostname d.src_hostname
  pub dst_hostname : Kept c.dst_hostname d.dst_hostname
  pub file_name : Kept c.file_name d.file_name
  pub process_name : Kept c.process_name d.process_name
  pub process_id : KeptNum c.process_id d.process_id
  pub interface_in : Kept c.interface_in d.interface_in
  pub interface_out : Kept c.interface_out d.interface_out
  pub rule_name : Kept c.rule_name d.rule_name
  pub app_category : Kept c.app_category d.app_category
  pub action : Kept c.action d.action
  pub status : Kept c.status d.status

Kept-fill : (old val : String) → Kept old (fill old val)
Kept-fill old val = ground arith

KeptNum-fill_num : (most old : ℕ) (val : String) → KeptNum old (fill_num most old val)
unfolding fill_num
KeptNum-fill_num most old val = ground arith

pub Extends-refl : (c : Columns) → Extends c c
Extends-refl c = ground arith

pub Extends-trans : {c d e : Columns} → Extends c d → Extends d e → Extends c e
Extends-trans h k = ground arith

pub Extends-apply_target :
    (t : Target) (key val : String) (c : Columns) → Extends c (apply_target t key val c)
unfolding apply_target fill_num
Extends-apply_target other key val c = ground arith
Extends-apply_target _ key val c = ground arith

Extends-apply_mapping :
    (v : Value) (entry : String × String) (c : Columns) → Extends c (apply_mapping v entry c)
unfolding apply_mapping
Extends-apply_mapping v (field, target) c = elim (Bool-cases (is_empty (get_data_field v field))) [
  | inl empty ↦ rw empty (Extends-refl c)
  | inr full ↦ rw full (Extends-apply_target (target_of target) target _ c)
]

-- No custom mapping overwrites a typed column that the event has filled already, whatever the mappings
-- and whatever their order.
pub overlay-Extends :
    (v : Value) (entries : List (String × String)) (c : Columns) → Extends c (overlay v entries c)
unfolding overlay
overlay-Extends v [] c = Extends-refl c
overlay-Extends v (entry ∷ entries) c =
    Extends-trans (Extends-apply_mapping v entry c)
      (overlay-Extends v entries (apply_mapping v entry c))

abbrev pub is_other : Target → Bool
is_other other = true
is_other _ = false

Bool-ext : (a b : Bool) → (a ≡ true → b ≡ true) → (b ≡ true → a ≡ true) → a ≡ b
Bool-ext true b f g = sym (f refl)
Bool-ext false true f g = g refl
Bool-ext false false f g = refl

contains-cons :
    (x : String) (xs : List String) (t : String) → contains (x ∷ xs) t ≡ (t == x || contains xs t)
unfolding contains
contains-cons x xs t = refl

-- A list whose every member is in another holds nothing that the other lacks.
contains_subset :
    (xs ys : List String) (t : String)
    → all (contains ys) xs ≡ true
    → contains xs t ≡ true
    → contains ys t ≡ true
contains_subset [] ys t h k = unfold contains in cc
contains_subset (x ∷ xs) ys t h k =
    ground (arith, contains-cons x xs t, eq_iff t x, contains_subset xs ys t)

abbrev literals : List (String × Target) → List String
literals [] = []
literals ((literal, arm) ∷ rest) = literal ∷ literals rest

abbrev no_other : List (String × Target) → Bool
no_other [] = true
no_other ((literal, arm) ∷ rest) = not (is_other arm) && no_other rest

is_other-arm_of :
    (t : String) (table : List (String × Target))
    → no_other table ≡ true
    → is_other (arm_of t table) ≡ not (contains (literals table) t)
unfolding arm_of contains
is_other-arm_of t [] h = refl
is_other-arm_of t ((literal, arm) ∷ rest) h = ground (arith, is_other-arm_of t rest)

-- The arms of the overlay's `match` are the list of standard targets of the configuration: a target is
-- auto-promoted to a column of its own exactly if the overlay files it under the extensions.
pub target_of-other_iff :
    (t : String) → is_other (target_of t) ≡ not (contains standard_ocsf_targets t)
unfolding target_of
target_of-other_iff t =
    let to = contains_subset (literals arms) standard_ocsf_targets t (unfold contains in refl) in
    let from = contains_subset standard_ocsf_targets (literals arms) t (unfold contains in refl) in
    is_other-arm_of t arms refl ∙ ap not (Bool-ext _ _ to from)
