-- ===== src/Pipeline/Crash.antt =====
-- src/main.rs, src/input/state.rs: what the saved position says of the rows, at whatever moment the process
-- dies.
use mathlib.Core.Path.{subst}
use wazuh_ocsf_etl.Base.{
  ℕ, ◌+◌, ◌≤◌, ◌⊎◌, inl, inr, String, List, [], ◌∷◌, ◌++◌, Bool, true, Option, ◌≡◌, refl, sym, ap,
  ◌∙◌, All, All-append, count, arith,
}
use wazuh_ocsf_etl.Config.{CustomMappings}
use wazuh_ocsf_etl.Db.Columns.{ClickHouse}
use wazuh_ocsf_etl.Db.Flush.{Entry}
use wazuh_ocsf_etl.State.Text.{TailState}
use wazuh_ocsf_etl.Db.Conserve.{all_filed}
use wazuh_ocsf_etl.Tailer.Lines.{append_assoc, append_nil}
use wazuh_ocsf_etl.Tailer.Resume.{last_offset}
use wazuh_ocsf_etl.Pipeline.Loop.{Service, Event, run}
use wazuh_ocsf_etl.Pipeline.Conserve.{count_rows, held, produced_by, run-held}
use wazuh_ocsf_etl.Pipeline.Restart.{lines_of, is_open, IsAt, run-IsAt}
use wazuh_ocsf_etl.Pipeline.Saving.{Sees, IsStill, IsSaving, step-IsSaving, run_one}

module _ {W R : Type 0} (server : ClickHouse W R) (db : String) (ttl : Option ℕ)
    (transform : CustomMappings → String → Option (String × R)) (batch_size : ℕ) where
  -- The saved position is that of the state at first, or it is behind the lines of the events `before`; the
  -- rows of these are in the log.
  pub record IsCovered (inode n : ℕ) (s : Service W R) (events : List Event) (saved : TailState)
      (log : List (Entry R)) : Type 0 where
    pub before : List Event
    pub after : List Event
    pub parts : events ≡ before ++ after
    pub position :
        ((before ≡ []) × (saved ≡ s.saved))
        ⊎ ((saved.inode ≡ inode) × (saved.offset ≡ last_offset n (lines_of before)))
    pub filed :
        (p : R → Bool)
        → count p (produced_by server db ttl transform batch_size before s) + held p s
          ≤ count_rows p (all_filed log) + count_rows p s.batches

  IsStill-IsCovered :
      (inode n : ℕ) (s : Service W R) (done : List Event) (e : Event) (saved : TailState)
      (log : List (Entry R)) (next : Service W R)
      → IsCovered inode n s done saved log
      → IsStill saved log next
      → IsCovered inode n s (done ++ e ∷ []) next.saved next.log
  IsStill-IsCovered inode n s done e saved log next c still = record {
    before = c.before;
    after = c.after ++ e ∷ [];
    parts = ap (λ l. l ++ e ∷ []) c.parts ∙ append_assoc c.before c.after (e ∷ []);
    position = elim c.position [
      | inl (none_yet, first) ↦ inl (none_yet, still.same ∙ first)
      | inr (here, at) ↦ inr (
        ap (λ (t : TailState). t.inode) still.same ∙ here,
        ap (λ (t : TailState). t.offset) still.same ∙ at,
      )
    ];
    filed = λ p. omega (arith, c.filed p, still.grown p);
  }

  IsSaving-IsCovered :
      (inode n : ℕ) (s : Service W R) (events : List Event)
      → All (λ e. is_open e ≡ true) events
      → IsAt server db ttl transform batch_size n s
      → (let next = run server db ttl transform batch_size events s in
          IsSaving inode next → IsCovered inode n s events next.saved next.log)
  IsSaving-IsCovered inode n s events opened start saving = record {
    before = events;
    after = [];
    parts = sym (append_nil events);
    position = inr (
      saving.here,
      saving.at ∙ (run-IsAt server db ttl transform batch_size events n s opened start).offset,
    );
    filed = λ p. omega (
      arith,
      run-held server db ttl transform batch_size p events s,
      ap (count_rows p) saving.empty,
    );
  }

  -- From event to event
  onward-IsCovered :
      (inode n : ℕ) (s : Service W R) (done events : List Event)
      → IsAt server db ttl transform batch_size n s
      → All (λ e. is_open e ≡ true) done
      → All (λ e. is_open e ≡ true) events
      → All (Sees inode) events
      → (let now = run server db ttl transform batch_size done s in
          let next = run server db ttl transform batch_size (done ++ events) s in
          IsCovered inode n s done now.saved now.log
          → IsCovered inode n s (done ++ events) next.saved next.log)
  onward-IsCovered inode n s done [] start opened _ _ c =
      subst
        (λ l.
          let next = run server db ttl transform batch_size l s in
          IsCovered inode n s l next.saved next.log)
        (sym (append_nil done)) c
  onward-IsCovered inode n s done (e ∷ events) start opened (open_e, open_rest) (seen, seen_rest)
        c =
      let now = run server db ttl transform batch_size done s in
      let one =
        run_one server db ttl transform batch_size done e s
          (run-IsAt server db ttl transform batch_size done n s opened start).on in
      let opened' = All-append (λ e. is_open e ≡ true) done (e ∷ []) opened (open_e, tt) in
      let c' : (let next = run server db ttl transform batch_size (done ++ e ∷ []) s in
          IsCovered inode n s (done ++ e ∷ []) next.saved next.log) =
        subst (λ (next : Service W R). IsCovered inode n s (done ++ e ∷ []) next.saved next.log)
          (sym one)
          (elim (step-IsSaving server db ttl transform batch_size inode e now open_e seen) [
            | inl still ↦ IsStill-IsCovered inode n s done e now.saved now.log _ c still
            | inr saving ↦
                subst
                  (λ (next : Service W R). IsCovered inode n s (done ++ e ∷ []) next.saved next.log)
                  one
                  (IsSaving-IsCovered inode n s (done ++ e ∷ []) opened' start
                    (subst (IsSaving inode) (sym one) saving))
          ]) in
      subst
        (λ l.
          let next = run server db ttl transform batch_size l s in
          IsCovered inode n s l next.saved next.log)
        (append_assoc done (e ∷ []) events)
        (onward-IsCovered inode n s (done ++ e ∷ []) events start opened' open_rest seen_rest c')

  pub run-IsCovered :
      (inode n : ℕ) (s : Service W R) (events : List Event)
      → IsAt server db ttl transform batch_size n s
      → All (λ e. is_open e ≡ true) events
      → All (Sees inode) events
      → (let now = run server db ttl transform batch_size events s in
          IsCovered inode n s events now.saved now.log)
  unfolding produced_by run
  run-IsCovered inode n s events start opened seen =
      onward-IsCovered inode n s [] events start tt opened seen (record {
        before = [];
        after = [];
        parts = refl;
        position = inl (refl, refl);
        filed = λ p. omega arith;
      })
