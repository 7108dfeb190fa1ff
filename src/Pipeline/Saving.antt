-- ===== src/Pipeline/Saving.antt =====
-- src/main.rs, src/input/state.rs: the steps of the loop that save the position, and those that do not.
use wazuh_ocsf_etl.Base.{
  ℕ, ◌≤◌, ◌⊎◌, inl, inr, String, List, [], ◌∷◌, ◌++◌, Bool, true, false, Option, none, some, ◌≡◌,
  refl, sym, ◌∙◌, leb, ltb, arith, Bool-cases,
}
use wazuh_ocsf_etl.Config.{CustomMappings}
use wazuh_ocsf_etl.Db.Columns.{ClickHouse}
use wazuh_ocsf_etl.Db.Flush.{Entry}
use wazuh_ocsf_etl.State.Text.{TailState}
use wazuh_ocsf_etl.Db.Conserve.{all_filed, all_filed-append}
use wazuh_ocsf_etl.Pipeline.Loop.{
  Service, Look, Event, line, closed, tick, shutdown, reload, push_row, bucket_len, pending,
  do_flush, accept, step, run,
}
use wazuh_ocsf_etl.Pipeline.Conserve.{count_rows, count_rows-append, do_flush-batches}
use wazuh_ocsf_etl.Pipeline.Restart.{is_open}

-- A flush at this event finds an alerts file with the inode.
abbrev pub Sees : ℕ → Event → Type 0
Sees inode (line offset raw look) = look.alerts_inode ≡ inode
Sees inode (closed look) = look.alerts_inode ≡ inode
Sees inode (tick look) = look.alerts_inode ≡ inode
Sees inode shutdown = Unit
Sees inode (reload m) = Unit

-- A step leaves the saved state and adds to the log at most, or it empties the batches and saves.
pub record IsStill {W R : Type 0} (saved : TailState) (log : List (Entry R)) (s' : Service W R)
    : Type 0 where
  pub same : s'.saved ≡ saved
  pub grown : (p : R → Bool) → count_rows p (all_filed log) ≤ count_rows p (all_filed s'.log)

pub record IsSaving {W R : Type 0} (inode : ℕ) (s' : Service W R) : Type 0 where
  pub empty : s'.batches ≡ []
  pub here : s'.saved.inode ≡ inode
  pub at : s'.saved.offset ≡ s'.current_offset

module _ {W R : Type 0} (server : ClickHouse W R) (db : String) (ttl : Option ℕ)
    (transform : CustomMappings → String → Option (String × R)) (batch_size : ℕ) where
  do_flush-IsSaving :
      (inode : ℕ) (look : Look) (s : Service W R)
      → look.alerts_inode ≡ inode
      → IsStill s.saved s.log (do_flush server db ttl look s)
        ⊎ IsSaving inode (do_flush server db ttl look s)
  unfolding do_flush
  do_flush-IsSaving inode look s seen = elim (Bool-cases look.save_ok) [
    | inl ok ↦ inr (record {
      empty = do_flush-batches server db ttl look s;
      here = rw ok seen;
      at = rw ok refl;
    })
    | inr failed ↦ inl (record {
      same = rw failed refl;
      grown = λ p. rw (all_filed-append, count_rows-append) (omega arith);
    })
  ]

  accept-IsSaving :
      (inode : ℕ) (look : Look) (o : Option (String × R)) (s : Service W R)
      → look.alerts_inode ≡ inode
      → IsStill s.saved s.log (accept server db ttl transform batch_size look o s)
        ⊎ IsSaving inode (accept server db ttl transform batch_size look o s)
  unfolding accept
  accept-IsSaving inode look none s seen = inl (record { same = refl; grown = λ p. omega arith })
  accept-IsSaving inode look (some (table, row)) s seen =
      let s' : Service W R = record s { batches = push_row table row s.batches } in
      elim (Bool-cases (leb batch_size (bucket_len table s'.batches))) [
        | inl full ↦ rw full (do_flush-IsSaving inode look s' seen)
        | inr room ↦ rw room (inl (record { same = refl; grown = λ p. omega arith }))
      ]

  pub step-IsSaving :
      (inode : ℕ) (e : Event) (s : Service W R)
      → is_open e ≡ true
      → Sees inode e
      → IsStill s.saved s.log (step server db ttl transform batch_size e s)
        ⊎ IsSaving inode (step server db ttl transform batch_size e s)
  unfolding step
  step-IsSaving inode (line offset raw look) s opened seen =
      accept-IsSaving inode look (transform s.mappings raw) (record s { current_offset = offset })
        seen
  step-IsSaving inode (closed look) s opened seen = cc
  step-IsSaving inode (tick look) s opened seen = elim (Bool-cases (ltb 0 (pending s.batches))) [
    | inl some_rows ↦ rw some_rows (do_flush-IsSaving inode look s seen)
    | inr no_rows ↦ rw no_rows (inl (record { same = refl; grown = λ p. omega arith }))
  ]
  step-IsSaving inode shutdown s opened seen =
      inl (record { same = refl; grown = λ p. omega arith })
  step-IsSaving inode (reload m) s opened seen =
      inl (record { same = refl; grown = λ p. omega arith })

  run_stopped :
      (events : List Event) (s : Service W R)
      → s.running ≡ false
      → run server db ttl transform batch_size events s ≡ s
  unfolding run
  run_stopped [] s off = refl
  run_stopped (e ∷ events) s off = rw off refl

  run-append :
      (xs ys : List Event) (s : Service W R)
      → run server db ttl transform batch_size (xs ++ ys) s
        ≡ run server db ttl transform batch_size ys (run server db ttl transform batch_size xs s)
  unfolding run
  run-append [] ys s = refl
  run-append (e ∷ xs) ys s = elim (Bool-cases s.running) [
    | inl on ↦ simp on (run-append xs ys (step server db ttl transform batch_size e s))
    | inr off ↦ simp off (sym (run_stopped ys s off))
  ]

  pub run_one :
      (done : List Event) (e : Event) (s : Service W R)
      → (run server db ttl transform batch_size done s).running ≡ true
      → run server db ttl transform batch_size (done ++ e ∷ []) s
        ≡ step server db ttl transform batch_size e (run server db ttl transform batch_size done s)
  unfolding run
  run_one done e s on = run-append done (e ∷ []) s ∙ rw on refl
