-- ===== src/Pipeline/Buckets.antt =====
-- src/main.rs: how large the batches get.
use wazuh_ocsf_etl.Base.{
  ℕ, ◌<◌, String, List, [], ◌∷◌, ◌++◌, true, false, Option, none, some, ◌≡◌, refl, ◌==◌, leb, ltb,
  length, All, eq_refl, arith, Bool-cases, inl, inr,
}
use mathlib.Core.Path.{subst}
use wazuh_ocsf_etl.Config.{CustomMappings}
use wazuh_ocsf_etl.Db.Columns.{ClickHouse}
use wazuh_ocsf_etl.Pipeline.Loop.{
  Service, Look, Event, line, closed, tick, shutdown, reload, push_row, bucket_len, pending,
  do_flush, accept, step, run,
}
use wazuh_ocsf_etl.Pipeline.Conserve.{do_flush-batches}

-- Every bucket has fewer rows than a batch.
abbrev pub IsRoomy : {R : Type 0} → ℕ → List (String × List R) → Type 0
IsRoomy batch_size b = All (λ bucket. length bucket.1 < batch_size) b

bucket_len_one :
    {R : Type 0} (table : String) (row : R) → bucket_len table (push_row table row []) ≡ 1
unfolding push_row bucket_len
bucket_len_one table row = rw eq_refl refl

bucket_len_here :
    {R : Type 0} (table t : String) (row : R) (rows : List R) (b : List (String × List R))
    → (t == table) ≡ true
    → bucket_len table (push_row table row ((t, rows) ∷ b)) ≡ length (rows ++ row ∷ [])
unfolding push_row bucket_len
bucket_len_here table t row rows b same = rw (same, same) refl

bucket_len_further :
    {R : Type 0} (table t : String) (row : R) (rows : List R) (b : List (String × List R))
    → (t == table) ≡ false
    → bucket_len table (push_row table row ((t, rows) ∷ b))
      ≡ bucket_len table (push_row table row b)
unfolding push_row bucket_len
bucket_len_further table t row rows b other = rw (other, other) refl

push_row-IsRoomy :
    {R : Type 0} (n : ℕ) (table : String) (row : R) (b : List (String × List R))
    → bucket_len table (push_row table row b) < n
    → IsRoomy n b
    → IsRoomy n (push_row table row b)
unfolding push_row
push_row-IsRoomy n table row [] h k = (omega (arith, h, bucket_len_one table row), tt)
push_row-IsRoomy n table row ((t, rows) ∷ b) h (first, k) = elim (Bool-cases (t == table)) [
  | inl same ↦ rw same (subst (λ m. m < n) (bucket_len_here table t row rows b same) h, k)
  | inr other ↦ rw other (
    first,
    push_row-IsRoomy n table row b
        (subst (λ m. m < n) (bucket_len_further table t row rows b other) h) k,
  )
]

module _ {W R : Type 0} (server : ClickHouse W R) (db : String) (ttl : Option ℕ)
    (transform : CustomMappings → String → Option (String × R)) (batch_size : ℕ) where
  do_flush-IsRoomy :
      (look : Look) (s : Service W R) → IsRoomy batch_size (do_flush server db ttl look s).batches
  do_flush-IsRoomy look s = rw (do_flush-batches server db ttl look s) tt

  accept-IsRoomy :
      (look : Look) (o : Option (String × R)) (s : Service W R)
      → IsRoomy batch_size s.batches
      → IsRoomy batch_size (accept server db ttl transform batch_size look o s).batches
  unfolding accept
  accept-IsRoomy look none s h = h
  accept-IsRoomy look (some (table, row)) s h =
      let s' : Service W R = record s { batches = push_row table row s.batches } in
      elim (Bool-cases (leb batch_size (bucket_len table s'.batches))) [
        | inl full ↦ rw full (do_flush-IsRoomy look s')
        | inr room ↦
            rw room (push_row-IsRoomy batch_size table row s.batches (ground (arith, room)) h)
      ]

  step-IsRoomy :
      (e : Event) (s : Service W R)
      → IsRoomy batch_size s.batches
      → IsRoomy batch_size (step server db ttl transform batch_size e s).batches
  unfolding step
  step-IsRoomy (line offset raw look) s h = accept-IsRoomy look (transform s.mappings raw) _ h
  step-IsRoomy (closed look) s h = do_flush-IsRoomy look s
  step-IsRoomy (tick look) s h = elim (Bool-cases (ltb 0 (pending s.batches))) [
    | inl some_rows ↦ rw some_rows (do_flush-IsRoomy look s)
    | inr no_rows ↦ rw no_rows h
  ]
  step-IsRoomy shutdown s h = h
  step-IsRoomy (reload m) s h = h

  -- Whatever happens, and whatever the server answers, no bucket reaches the size of a batch between two
  -- rounds of the loop, if that holds at the beginning.
  pub run-IsRoomy :
      (events : List Event) (s : Service W R)
      → IsRoomy batch_size s.batches
      → IsRoomy batch_size (run server db ttl transform batch_size events s).batches
  unfolding run
  run-IsRoomy [] s h = h
  run-IsRoomy (e ∷ events) s h = elim (Bool-cases s.running) [
    | inl on ↦
        simp on
          (run-IsRoomy events (step server db ttl transform batch_size e s) (step-IsRoomy e s h))
    | inr off ↦ simp off h
  ]
