-- ===== src/Pipeline/Recover.antt =====
-- src/main.rs, src/input/tailer.rs, src/input/state.rs: a session that dies, and the next one on the same file.
use mathlib.Core.Path.{subst}
use wazuh_ocsf_etl.Base.{
  ℕ, ◌+◌, ◌≤◌, ◌≢◌, inl, inr, String, List, [], ◌∷◌, ◌++◌, Bool, true, false, Option, ◌≡◌, refl,
  sym, ap, ◌∙◌, All, count, length, length-append, map, arith,
}
use wazuh_ocsf_etl.Config.{CustomMappings}
use wazuh_ocsf_etl.Db.Columns.{ClickHouse}
use wazuh_ocsf_etl.Db.Flush.{Entry}
use wazuh_ocsf_etl.Db.Conserve.{all_filed}
use wazuh_ocsf_etl.State.Text.{TailState, default_state}
use wazuh_ocsf_etl.Tailer.{File, Reader}
use wazuh_ocsf_etl.Tailer.Utf8.{start, utf8_run}
use wazuh_ocsf_etl.Tailer.Lines.{append_assoc}
use wazuh_ocsf_etl.Tailer.Follow.{Change, IsText, followed, followed_from, followed-Follows}
use wazuh_ocsf_etl.Tailer.Resume.{
  last_offset, last_offset-map, lines_from-IsTaken, follow_encoded, SentOnce, taken_in_range,
  second_session,
}
use wazuh_ocsf_etl.Pipeline.Startup.{
  AlertsFile, is_first_run, start_offset, start_state, reader_offset, resume_same_file,
}
use wazuh_ocsf_etl.Pipeline.Loop.{Service, Event, line, closed, tick, shutdown, reload, run}
use wazuh_ocsf_etl.Pipeline.Begin.{start_service, IsFresh, start_service-IsFresh}
use wazuh_ocsf_etl.Pipeline.Conserve.{count_rows, produced_by}
use wazuh_ocsf_etl.Pipeline.Restart.{lines_of, is_open, not_first_run}
use wazuh_ocsf_etl.Pipeline.Saving.{Sees}
use wazuh_ocsf_etl.Pipeline.Crash.{IsCovered, run-IsCovered}

lines_of-append : (xs ys : List Event) → lines_of (xs ++ ys) ≡ lines_of xs ++ lines_of ys
lines_of-append [] ys = refl
lines_of-append (line offset raw look ∷ xs) ys = ap (λ l. (offset, raw) ∷ l) (lines_of-append xs ys)
lines_of-append (closed look ∷ xs) ys = lines_of-append xs ys
lines_of-append (tick look ∷ xs) ys = lines_of-append xs ys
lines_of-append (shutdown ∷ xs) ys = lines_of-append xs ys
lines_of-append (reload m ∷ xs) ys = lines_of-append xs ys

-- A list whose image is in two parts
record HasParts {A B : Type 0} (f : A → B) (xs ys : List B) (l : List A) : Type 0 where
  left : List A
  right : List A
  whole : l ≡ left ++ right
  image : xs ≡ map f left

map-HasParts :
    {A B : Type 0} (f : A → B) (xs ys : List B) (l : List A)
    → xs ++ ys ≡ map f l
    → HasParts f xs ys l
map-HasParts f [] ys l h = record { left = []; right = l; whole = refl; image = refl }
map-HasParts f (x ∷ xs) ys [] h = cc
map-HasParts f (x ∷ xs) ys (a ∷ l) h =
    let (first, rest) = both_parts h in
    let k = map-HasParts f xs ys l rest in
    record {
      left = a ∷ k.left;
      right = k.right;
      whole = ap (λ m. a ∷ m) k.whole;
      image = cc (first, k.image);
    }
  where
    both_parts : x ∷ (xs ++ ys) ≡ f a ∷ map f l → (x ≡ f a) × (xs ++ ys ≡ map f l)
    both_parts e = (cc, cc)

first_start : (now : AlertsFile) → reader_offset (start_state default_state now false) now.inode ≡ 0
unfolding reader_offset start_state start_offset is_first_run
first_start now = ground arith

module _ {W R : Type 0} (server : ClickHouse W R) (db : String) (ttl : Option ℕ)
    (transform : CustomMappings → String → Option (String × R)) (batch_size : ℕ) where
  -- Where the next start begins to read
  recovered_offset :
      (s : Service W R) (events : List Event) (now : AlertsFile) (saved : TailState)
      (log : List (Entry R))
      (c : IsCovered server db ttl transform batch_size now.inode 0 s events saved log)
      → s.saved ≡ default_state
      → now.inode ≢ 0
      → last_offset 0 (lines_of c.before) ≤ now.size
      → reader_offset (start_state saved now false) now.inode ≡ last_offset 0 (lines_of c.before)
  recovered_offset s events now saved log c fresh known le = elim c.position [
    | inl (none_yet, first) ↦
        ap (λ (t : TailState). reader_offset (start_state t now false) now.inode) (first ∙ fresh)
        ∙ first_start now
        ∙ ap (λ l. last_offset 0 (lines_of l)) (sym none_yet)
    | inr (here, at) ↦
        (resume_same_file saved now false here (not_first_run saved (λ e. known (sym here ∙ e)))).0
          (omega (arith, at, le))
        ∙ at
  ]

  -- The events of a session that died, up to the position that it saved last: their lines and those that the
  -- next session sends are all complete lines so far, and their rows are in the log.
  pub record IsRecovered (is_blank : List ℕ → Bool) (decode : List ℕ → String) (s : Service W R)
      (events : List Event) (log : List (Entry R)) (again : File × Reader) : Type 0 where
    pub before : List Event
    pub after : List Event
    pub parts : events ≡ before ++ after
    pub kept : List (ℕ × List ℕ)
    pub lines : lines_of before ≡ map (λ (l : ℕ × List ℕ). (l.0, decode l.1)) kept
    pub once : SentOnce is_blank kept again
    pub filed :
        (p : R → Bool)
        → count p (produced_by server db ttl transform batch_size before s)
            + count_rows p (all_filed s.log)
          ≤ count_rows p (all_filed log)

  -- The first session of a service, without a saved state and not seeking to the end, reads a file, whose
  -- content and growth are UTF-8 in whole characters, and dies at any moment between two events: the loop took
  -- in the lines `taken` of those that the reader had sent, among ticks, reloads and shutdown signals; its
  -- flushes found the inode of the file, not 0, and could save the state or could not. The file has the same
  -- inode when the service starts again, without seeking to the end, and is perhaps longer. Then there is a
  -- point in the session such that the lines that were taken in before it and those that the second reader has
  -- sent at any moment are together all complete lines of the file up to the reader's offset, the blank ones
  -- left out, each once, in order and with the offset behind it; and every row of the lines before that point
  -- is in the log of the flushes, whatever became of it there.
  pub crash_loses_no_line :
      (is_blank : List ℕ → Bool) (decode : List ℕ → String) (file : File)
      (first second : List Change) (more : List ℕ) (taken untaken : List (ℕ × List ℕ))
      (events : List Event) (mappings : CustomMappings) (seen_first : AlertsFile) (save_ok : Bool)
      (w : W)
      → let s : Service W R = start_service mappings default_state seen_first false save_ok w in
        let (end, r) = followed is_blank file first in
        let now : AlertsFile = record { size = length (end.content ++ more); inode = end.inode } in
        utf8_run start file.content ≡ start
        → All IsText first
        → utf8_run start more ≡ start
        → All IsText second
        → r.sent ≡ taken ++ untaken
        → lines_of events ≡ map (λ (l : ℕ × List ℕ). (l.0, decode l.1)) taken
        → All (λ e. is_open e ≡ true) events
        → All (Sees now.inode) events
        → now.inode ≢ 0
        → let s' = run server db ttl transform batch_size events s in
          let at = reader_offset (start_state s'.saved now false) now.inode in
          IsRecovered is_blank decode s events s'.log
            (followed_from is_blank at (record end { content = end.content ++ more }) second)
  crash_loses_no_line is_blank decode file first second more taken untaken events mappings
        seen_first save_ok w encoded first_text more_text second_text sent took opened seen known =
      let s : Service W R = start_service mappings default_state seen_first false save_ok w in
      let begun : IsFresh s = start_service-IsFresh mappings seen_first save_ok w in
      let (end, r) = followed is_blank file first in
      let now : AlertsFile = record { size = length (end.content ++ more); inode = end.inode } in
      let shown : ℕ × List ℕ → ℕ × String = λ l. (l.0, decode l.1) in
      let s' = run server db ttl transform batch_size events s in
      let c =
        run-IsCovered server db ttl transform batch_size now.inode 0 s events
          (record { on = begun.on; offset = begun.at_start }) opened seen in
      let h =
        map-HasParts shown (lines_of c.before) (lines_of c.after) taken
          (sym (lines_of-append c.before c.after) ∙ ap lines_of (sym c.parts) ∙ took) in
      let f = followed-Follows is_blank file first encoded first_text in
      let k = lines_from-IsTaken is_blank 0 f.raws h.left (h.right ++ untaken) (
        sym f.sent ∙ sent ∙ ap (λ l. l ++ untaken) h.whole ∙ append_assoc h.left h.right untaken) in
      let last : last_offset 0 (lines_of c.before) ≡ last_offset 0 h.left =
        ap (last_offset 0) h.image ∙ last_offset-map decode 0 h.left in
      let fits : last_offset 0 (lines_of c.before) ≤ now.size =
        omega
          (arith, last, taken_in_range is_blank end r f h.left k, length-append end.content more) in
      let at = recovered_offset s events now s'.saved s'.log c begun.fresh known fits ∙ last in
      record {
        before = c.before;
        after = c.after;
        parts = c.parts;
        kept = h.left;
        lines = h.image;
        once =
            subst
              (λ n.
                SentOnce is_blank h.left
                  (followed_from is_blank n (record end { content = end.content ++ more }) second))
              (sym at)
              (second_session is_blank end r f h.left k more second
                (follow_encoded is_blank first _ first_text encoded) more_text second_text);
        filed = λ p. omega (arith, c.filed p, ap (count_rows p) begun.no_rows);
      }
