-- ===== src/Examples/States.antt =====
-- Tests and instances for the state file.
use wazuh_ocsf_etl.Base.{◌≡◌, refl, none, some, arith, ◌⊎◌, inl, inr, to_decimal}
use wazuh_ocsf_etl.State.Text.{TailState, load, render}
use wazuh_ocsf_etl.State.Crash.{Disk, tmp_file, put_at, load-Stopped}

abbrev position : TailState
position = record { inode = 131074; offset = 9876543210 }

abbrev disk : Disk
disk = record { state = some "inode=131074\noffset=17\n"; tmp = none }

render_runs : render position ≡ "inode=131074\noffset=9876543210\n"
unfolding render to_decimal
render_runs = refl

-- The write of the temporary file is cut short.
abbrev after_cut : Disk
after_cut = put_at tmp_file (some "inode=13") disk

load-Stopped_example : (load after_cut.state ≡ load disk.state) ⊎ (load after_cut.state ≡ position)
load-Stopped_example =
    load-Stopped position disk after_cut (omega arith) (omega arith) (inr (inl ("inode=13", refl)))
