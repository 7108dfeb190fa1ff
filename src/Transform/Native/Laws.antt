-- ===== src/Transform/Native/Laws.antt =====
-- src/pipeline/transform.rs: how the blocks for single log sources change the columns.
use wazuh_ocsf_etl.Base.{List, [], ◌∷◌, arith}
use wazuh_ocsf_etl.Transform.Columns.{Columns}
use wazuh_ocsf_etl.Transform.OverlayLaws.{
  Extends, Extends-refl, Extends-trans, Extends-apply_target,
}
use wazuh_ocsf_etl.Transform.Native.{Step, fill, extend, name_protocol, apply_step, apply_steps}

-- The columns without the protocol, which a step may rename
abbrev pub unnamed : Columns → Columns
unnamed c = record c { network_protocol = "" }

pub Extends-unnamed : {c d : Columns} → Extends c d → Extends (unnamed c) d
Extends-unnamed h = ground arith

Extends-both_unnamed : {c d : Columns} → Extends c d → Extends (unnamed c) (unnamed d)
Extends-both_unnamed h = ground arith

Extends-apply_step : (s : Step) (c : Columns) → Extends (unnamed c) (unnamed (apply_step s c))
unfolding apply_step
Extends-apply_step (fill column v) c = Extends-both_unnamed (Extends-apply_target column "" v c)
Extends-apply_step (extend key v) c = ground arith
Extends-apply_step name_protocol c = Extends-refl (unnamed c)

pub Extends-apply_steps :
    (steps : List Step) (c : Columns) → Extends (unnamed c) (unnamed (apply_steps steps c))
unfolding apply_steps
Extends-apply_steps [] c = Extends-refl (unnamed c)
Extends-apply_steps (s ∷ steps) c =
    Extends-trans (Extends-apply_step s c) (Extends-apply_steps steps (apply_step s c))
