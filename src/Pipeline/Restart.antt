-- ===== src/Pipeline/Restart.antt =====
-- src/main.rs, src/input/tailer.rs, src/input/state.rs: a session that ends, and the next one on the same file.
use mathlib.Core.Path.{subst}
use wazuh_ocsf_etl.Base.{
  ℕ, ◌≤◌, ◌≢◌, String, List, [], ◌∷◌, ◌++◌, Bool, true, false, Option, none, some, ◌≡◌, refl, sym,
  ap, ◌∙◌, All, if-both, leb, ltb, length, length-append, map, arith,
}
use wazuh_ocsf_etl.Config.{CustomMappings}
use wazuh_ocsf_etl.Db.Columns.{ClickHouse}
use wazuh_ocsf_etl.State.Text.{TailState}
use wazuh_ocsf_etl.Tailer.{File}
use wazuh_ocsf_etl.Tailer.Utf8.{start, utf8_run}
use wazuh_ocsf_etl.Tailer.Follow.{Change, IsText, followed, followed_from, followed-Follows}
use wazuh_ocsf_etl.Tailer.Resume.{
  last_offset, last_offset-map, lines_from-IsTaken, follow_encoded, SentOnce, taken_in_range,
  second_session,
}
use wazuh_ocsf_etl.Pipeline.Startup.{
  AlertsFile, is_first_run, start_state, reader_offset, resume_same_file,
}
use wazuh_ocsf_etl.Pipeline.Loop.{
  Service, Look, Event, line, closed, tick, shutdown, reload, push_row, bucket_len, pending,
  do_flush, accept, step, run,
}
use wazuh_ocsf_etl.Pipeline.Socket.{closed-saved}

-- The lines that the loop takes in
abbrev pub lines_of : List Event → List (ℕ × String)
lines_of [] = []
lines_of (line offset raw look ∷ events) = (offset, raw) ∷ lines_of events
lines_of (closed look ∷ events) = lines_of events
lines_of (tick look ∷ events) = lines_of events
lines_of (shutdown ∷ events) = lines_of events
lines_of (reload m ∷ events) = lines_of events

-- The channel is not closed by this event.
abbrev pub is_open : Event → Bool
is_open (closed look) = false
is_open (line offset raw look) = true
is_open (tick look) = true
is_open shutdown = true
is_open (reload m) = true

module _ {W R : Type 0} (server : ClickHouse W R) (db : String) (ttl : Option ℕ)
    (transform : CustomMappings → String → Option (String × R)) (batch_size : ℕ) where
  -- A service that goes on, at an offset
  pub record IsAt (n : ℕ) (s : Service W R) : Type 0 where
    pub on : s.running ≡ true
    pub offset : s.current_offset ≡ n

  do_flush-IsAt :
      (look : Look) (n : ℕ) (s : Service W R) → IsAt n s → IsAt n (do_flush server db ttl look s)
  unfolding do_flush
  do_flush-IsAt look n s h = record { on = h.on; offset = h.offset }

  accept-IsAt :
      (look : Look) (o : Option (String × R)) (n : ℕ) (s : Service W R)
      → IsAt n s
      → IsAt n (accept server db ttl transform batch_size look o s)
  unfolding accept
  accept-IsAt look none n s h = h
  accept-IsAt look (some (table, row)) n s h =
      let s' : Service W R = record s { batches = push_row table row s.batches } in
      let h' : IsAt n s' = record { on = h.on; offset = h.offset } in
      if-both (IsAt n) (leb batch_size (bucket_len table s'.batches)) (do_flush-IsAt look n s' h')
        h'

  step-IsAt :
      (e : Event) (n : ℕ) (s : Service W R)
      → is_open e ≡ true
      → IsAt n s
      → IsAt (last_offset n (lines_of (e ∷ []))) (step server db ttl transform batch_size e s)
  unfolding step
  step-IsAt (line offset raw look) n s opened h =
      accept-IsAt look (transform s.mappings raw) offset (record s { current_offset = offset })
        (record { on = h.on; offset = refl })
  step-IsAt (closed look) n s opened h = cc
  step-IsAt (tick look) n s opened h =
      if-both (IsAt n) (ltb 0 (pending s.batches)) (do_flush-IsAt look n s h) h
  step-IsAt shutdown n s opened h = record { on = h.on; offset = h.offset }
  step-IsAt (reload m) n s opened h = record { on = h.on; offset = h.offset }

  last_offset_of_event :
      (e : Event) (events : List Event) (n : ℕ)
      → last_offset (last_offset n (lines_of (e ∷ []))) (lines_of events)
        ≡ last_offset n (lines_of (e ∷ events))
  last_offset_of_event (line offset raw look) events n = refl
  last_offset_of_event (closed look) events n = refl
  last_offset_of_event (tick look) events n = refl
  last_offset_of_event shutdown events n = refl
  last_offset_of_event (reload m) events n = refl

  -- The loop is at the offset of the line that it took in last.
  pub run-IsAt :
      (events : List Event) (n : ℕ) (s : Service W R)
      → All (λ e. is_open e ≡ true) events
      → IsAt n s
      → IsAt (last_offset n (lines_of events)) (run server db ttl transform batch_size events s)
  unfolding run
  run-IsAt [] n s _ h = h
  run-IsAt (e ∷ events) n s (opened, rest) h =
      let s' = step server db ttl transform batch_size e s in
      simp h.on (
        subst (λ m. IsAt m (run server db ttl transform batch_size events s'))
          (last_offset_of_event e events n)
          (run-IsAt events (last_offset n (lines_of (e ∷ []))) s' rest (step-IsAt e n s opened h)))

pub not_first_run : (saved : TailState) → saved.inode ≢ 0 → is_first_run saved ≡ false
unfolding is_first_run
not_first_run saved h = ground arith

module _ {W R : Type 0} (server : ClickHouse W R) (db : String) (ttl : Option ℕ)
    (transform : CustomMappings → String → Option (String × R)) (batch_size : ℕ) where
  -- Where the next start begins to read
  resumed_offset :
      (events : List Event) (look : Look) (s : Service W R) (now : AlertsFile) (seek_to_end : Bool)
      → All (λ e. is_open e ≡ true) events
      → s.running ≡ true
      → s.current_offset ≡ 0
      → look.save_ok ≡ true
      → look.alerts_inode ≡ now.inode
      → now.inode ≢ 0
      → last_offset 0 (lines_of events) ≤ now.size
      → let s' =
          step server db ttl transform batch_size
            (closed look)
            (run server db ttl transform batch_size events s) in
        reader_offset (start_state s'.saved now seek_to_end) now.inode
        ≡ last_offset 0 (lines_of events)
  resumed_offset events look s now seek_to_end opened on at_start ok same known le =
      let r = run server db ttl transform batch_size events s in
      let at_end =
        run-IsAt server db ttl transform batch_size events 0 s opened
          (record { on = on; offset = at_start }) in
      let saved = (step server db ttl transform batch_size (closed look) r).saved in
      let (inode, offset) = closed-saved server db ttl transform batch_size look r ok in
      let here : saved.inode ≡ now.inode = inode ∙ same in
      let at : saved.offset ≡ last_offset 0 (lines_of events) = offset ∙ at_end.offset in
      (resume_same_file saved now seek_to_end here
          (not_first_run saved (λ e. known (sym here ∙ e)))).0
        (omega (arith, at, le))
      ∙ at

  -- Two sessions on one file, whose content and growth are UTF-8 in whole characters. The reader of the
  -- first began at the start of the file; the loop, running from offset 0, took in the lines `taken` of those
  -- that the reader had sent, among ticks, reloads and shutdown signals, then found its channel closed, and
  -- its last flush could save the state. The file has the same inode, not 0, when the service starts again,
  -- and is perhaps longer. Then the lines that the first session took in and those that the second reader has
  -- sent at any moment are together all complete lines of the file up to the reader's offset, the blank ones
  -- left out, each once, in order and with the offset behind it.
  pub two_sessions_read_each_line_once :
      (is_blank : List ℕ → Bool) (decode : List ℕ → String) (file : File)
      (first second : List Change) (more : List ℕ) (taken untaken : List (ℕ × List ℕ))
      (events : List Event) (look : Look) (s : Service W R) (seek_to_end : Bool)
      → let (end, r) = followed is_blank file first in
        let now : AlertsFile = record { size = length (end.content ++ more); inode = end.inode } in
        utf8_run start file.content ≡ start
        → All IsText first
        → utf8_run start more ≡ start
        → All IsText second
        → r.sent ≡ taken ++ untaken
        → lines_of events ≡ map (λ (l : ℕ × List ℕ). (l.0, decode l.1)) taken
        → All (λ e. is_open e ≡ true) events
        → s.running ≡ true
        → s.current_offset ≡ 0
        → look.save_ok ≡ true
        → look.alerts_inode ≡ now.inode
        → now.inode ≢ 0
        → let s' =
            step server db ttl transform batch_size
              (closed look)
              (run server db ttl transform batch_size events s) in
          let at = reader_offset (start_state s'.saved now seek_to_end) now.inode in
          SentOnce is_blank taken
            (followed_from is_blank at (record end { content = end.content ++ more }) second)
  two_sessions_read_each_line_once is_blank decode file first second more taken untaken events look
        s seek_to_end encoded first_text more_text second_text sent took opened on at_start ok same
        known =
      let (end, r) = followed is_blank file first in
      let now : AlertsFile = record { size = length (end.content ++ more); inode = end.inode } in
      let f = followed-Follows is_blank file first encoded first_text in
      let k = lines_from-IsTaken is_blank 0 f.raws taken untaken (sym f.sent ∙ sent) in
      let last : last_offset 0 (lines_of events) ≡ last_offset 0 taken =
        ap (last_offset 0) took ∙ last_offset-map decode 0 taken in
      let fits : last_offset 0 (lines_of events) ≤ now.size =
        omega
          (arith, last, taken_in_range is_blank end r f taken k, length-append end.content more) in
      let at =
        resumed_offset events look s now seek_to_end opened on at_start ok same known fits ∙ last in
      subst
        (λ n.
          SentOnce is_blank taken
            (followed_from is_blank n (record end { content = end.content ++ more }) second))
        (sym at)
        (second_session is_blank end r f taken k more second
          (follow_encoded is_blank first _ first_text encoded) more_text second_text)
