-- ===== src/Pipeline/Custom.antt =====
-- Which custom columns `do_flush` takes for registered.
use wazuh_ocsf_etl.Base.{
  ℕ, String, List, [], ◌∷◌, true, false, not, ◌||◌, Option, ◌≡◌, ap, ◌∙◌, ◌⊎◌, inl, inr, contains,
  contains-append, contains-keep, keep-eq-nil, keep, arith, Bool-cases, eq_iff, refl, All,
}
use wazuh_ocsf_etl.Config.{custom_column_targets}
use wazuh_ocsf_etl.Db.Columns.{ClickHouse, Statement, ensure_custom_columns}
use wazuh_ocsf_etl.Pipeline.Loop.{
  Service, Look, new_columns, missing, failed_columns, register_columns, registered, do_flush,
}
use wazuh_ocsf_etl.Db.Keeps.{Keeps, ensure_custom_columns_keeps}
use wazuh_ocsf_etl.Db.Delivery.{IsHonest}
use wazuh_ocsf_etl.Db.Added.{IsAdded, IsAdded-kept, ensure_custom_columns-IsAdded}

contains-registered :
    (cols known : List String) (c : String)
    → contains (registered cols known) c ≡ (contains cols c || contains known c)
unfolding registered contains
contains-registered [] known c = refl
contains-registered (col ∷ cols) known c =
    ground
      (arith, contains-registered cols known c, contains-registered cols known col, eq_iff c col)

module _ {W R : Type 0} (server : ClickHouse W R) where
  pub failed_columns_keeps :
      (P : W → Type 0) (k : Keeps server P) (cols tables : List String) (w : W)
      → P w
      → P (failed_columns server cols tables w).1
  unfolding failed_columns
  failed_columns_keeps P k cols [] w h = h
  failed_columns_keeps P k cols (table ∷ tables) w h =
      failed_columns_keeps P k cols tables _ (ensure_custom_columns_keeps server P k table cols w h)

  module _ (Has : W → Statement → Type 0) (Open Stored : W → String → List R → Type 0)
      (honest : IsHonest server Has Open Stored) where
    IsAdded-if_not_failed :
        (cols : List String) (c : String) (tables : List String) (w : W)
        → contains cols c ≡ true
        → contains (failed_columns server cols tables w).0 c ≡ false
        → All
            (IsAdded server Has Open Stored honest (failed_columns server cols tables w).1 c)
            tables
    unfolding failed_columns
    IsAdded-if_not_failed cols c [] w h k = tt
    IsAdded-if_not_failed cols c (table ∷ tables) w h k =
        let applied = (ensure_custom_columns server table cols w).0 in
        let w' = (ensure_custom_columns server table cols w).1 in
        let failed = (failed_columns server cols tables w').0 in
        let both = contains-append (missing cols applied) failed c in
        let first = contains-keep (λ d. not (contains applied d)) cols c in
        (
          failed_columns_keeps _ (IsAdded-kept server Has Open Stored honest c table) cols tables w'
              (ensure_custom_columns-IsAdded server Has Open Stored honest table c cols w
                (ground (arith, both, first))),
          IsAdded-if_not_failed cols c tables w' h (ground (arith, both)),
        )

    -- Of a server that does what it documents: a column that is registered after a flush was registered before
    -- it, or it is new, and every table that was known at the time has the column for it then.
    pub register_columns_sound :
        (cols known tables : List String) (w : W) (c : String)
        → contains (register_columns server cols known tables w).0 c ≡ true
        → (contains known c ≡ true)
          ⊎ ((contains cols c ≡ true)
              × All
                  (IsAdded server Has Open Stored honest
                    (register_columns server cols known tables w).1
                    c)
                  tables)
    unfolding register_columns
    register_columns_sound [] known tables w c h = inl h
    register_columns_sound (d ∷ ds) known tables w c h =
        let cols = d ∷ ds in
        let failed = (failed_columns server cols tables w).0 in
        let both = contains-registered (missing cols failed) known c in
        let first = contains-keep (λ e. not (contains failed e)) cols c in
        elim (Bool-cases (contains known c)) [
          | inl old ↦ inl old
          | inr new ↦
              let here : contains cols c ≡ true = ground (arith, both, first) in
              inr (here, IsAdded-if_not_failed cols c tables w here (ground (arith, both, first)))
        ]

  -- Without tables every column is registered.
  registered_at_first :
      (cols known : List String) (w : W) (c : String)
      → (contains cols c || contains known c) ≡ true
      → contains (register_columns server cols known [] w).0 c ≡ true
  unfolding register_columns failed_columns contains
  registered_at_first [] known w c h = h
  registered_at_first (d ∷ ds) known w c h =
      let cols = d ∷ ds in
      contains-registered (missing cols []) known c
      ∙ rw (contains-keep (λ e. not (contains [] e)) cols c) (ground (arith, h))

  new_or_known :
      (targets known : List String) (c : String)
      → contains targets c ≡ true
      → (contains (keep (λ d. not (contains known d)) targets) c || contains known c) ≡ true
  new_or_known targets known c h =
      rw (contains-keep (λ d. not (contains known d)) targets c, h) (ground arith)

  nothing_new :
      (targets known tables : List String) (w : W)
      → tables ≡ []
      → keep
          (λ c. not (
            contains
              (register_columns server
                (keep (λ d. not (contains known d)) targets)
                known
                tables
                w).0
              c))
          targets
        ≡ []
  nothing_new targets known tables w none_known = rw none_known (
      keep-eq-nil _ targets (λ c h. ap not (
        registered_at_first (keep (λ d. not (contains known d)) targets) known w c
          (new_or_known targets known c h))))

  -- A flush before any table is known registers every custom column of the mappings, whatever the server
  -- answers to the statements for the tables that the flush makes: the next flush, with the same
  -- mappings, finds no new column, so what failed is not tried again.
  pub first_flush_registers_all :
      (db : String) (ttl : Option ℕ) (look : Look) (s : Service W R)
      → s.known_tables ≡ []
      → let s' = do_flush server db ttl look s in new_columns s'.mappings s'.known_custom_cols ≡ []
  unfolding do_flush new_columns
  first_flush_registers_all db ttl look s none_known =
      nothing_new (custom_column_targets s.mappings) s.known_custom_cols s.known_tables s.world
        none_known
