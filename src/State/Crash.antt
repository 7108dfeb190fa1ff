-- ===== src/State/Crash.antt =====
-- src/input/state.rs: `save` as the calls that it makes of the file system, with a stop at any point.
use wazuh_ocsf_etl.Base.{
  String, List, [], ◌∷◌, Option, none, some, ◌≡◌, ap, ◌∙◌, ◌⊎◌, inl, inr, ◌≤◌,
}
use wazuh_ocsf_etl.Json.Lookup.{u64_max}
use wazuh_ocsf_etl.State.Text.{TailState, load, render}
use wazuh_ocsf_etl.State.RoundTrip.{load-render}

-- The state file and its neighbour with the extension `tmp`, which is taken to be another file
pub data FileName : Type 0 where
  state_file tmp_file : FileName

-- Both by their texts, none for a file that is not there.
pub record Disk : Type 0 where
  pub state : Option String
  pub tmp : Option String

abbrev pub text_at : FileName → Disk → Option String
text_at state_file d = d.state
text_at tmp_file d = d.tmp

abbrev pub put_at : FileName → Option String → Disk → Disk
put_at state_file text d = record d { state = text }
put_at tmp_file text d = record d { tmp = text }

-- The calls of `std::fs`
pub data Call : Type 0 where
  write : FileName → String → Call
  rename : FileName → FileName → Call

-- `rename` replaces its target in one step, and fails without its source.
abbrev move : FileName → FileName → Option String → Disk → Disk
move from to none d = d
move from to (some text) d = put_at to (some text) (put_at from none d)

abbrev pub call : Call → Disk → Disk
call (write name text) d = put_at name (some text) d
call (rename from to) d = move from to (text_at from d) d

abbrev pub save_calls : TailState → List Call
save_calls s = write tmp_file (render s) ∷ rename tmp_file state_file ∷ []

unfoldable pub calls : List Call → Disk → Disk
calls [] d = d
calls (c ∷ rest) d = calls rest (call c d)

-- `save`, undisturbed
unfoldable pub save : TailState → Disk → Disk
unfolding calls
save s d = calls (save_calls s) d

-- A call that is cut short: a write may leave any text.
abbrev pub CutShort : Call → Disk → Disk → Type 0
CutShort (write name text) d e = (cut : String) × (e ≡ put_at name (some cut) d)
CutShort (rename from to) d e = ⊥

-- What may be on the disk when calls in turn stop: by an error, or by a crash, in front of a call or in it, or
-- at the end.
abbrev pub Stopped : List Call → Disk → Disk → Type 0
Stopped [] d e = e ≡ d
Stopped (c ∷ rest) d e = (e ≡ d) ⊎ (CutShort c d e ⊎ Stopped rest (call c d) e)

-- After a completed save, a restart loads the state that was saved.
pub load-save :
    (s : TailState) (d : Disk) → s.inode ≤ u64_max → s.offset ≤ u64_max → load (save s d).state ≡ s
unfolding save calls
load-save s d h k = load-render s h k

-- Wherever the calls of a save stop, a restart loads the state from before it or the new one, never a mixture.
pub load-Stopped :
    (s : TailState) (d e : Disk)
    → s.inode ≤ u64_max
    → s.offset ≤ u64_max
    → Stopped (save_calls s) d e
    → (load e.state ≡ load d.state) ⊎ (load e.state ≡ s)
load-Stopped s d e h k (inl before) = inl (ap (λ (x : Disk). load x.state) before)
load-Stopped s d e h k (inr (inl (cut, during))) = inl (ap (λ (x : Disk). load x.state) during)
load-Stopped s d e h k (inr (inr (inl between))) = inl (ap (λ (x : Disk). load x.state) between)
load-Stopped s d e h k (inr (inr (inr (inl never)))) = absurd never
load-Stopped s d e h k (inr (inr (inr (inr finished)))) =
    inr (ap (λ (x : Disk). load x.state) finished ∙ load-render s h k)
