-- ===== src/Config/Load/Laws.antt =====
-- src/config.rs, src/main.rs: the mappings that are in force.
use wazuh_ocsf_etl.Base.{
  map, ℕ, String, List, [], ◌∷◌, false, Option, none, some, ◌≡◌, refl, sym, ap, ◌∙◌, arith,
  Bool-cases, inl, inr, if-both, ◌++◌,
}
use mathlib.Core.Option.{some-injective}
use wazuh_ocsf_etl.Config.{CustomMappings}
use wazuh_ocsf_etl.Config.Load.{
  MappingsToml, meta_version, load, initial_mappings, differs, Watcher, replaced, poll, watch,
  default_ocsf_version, default_mappings,
}

module _ (from_toml : String → Option MappingsToml) where
  -- The version of the mappings at the start: "1.7.0" if the file cannot be read or parsed, and if it has a
  -- section [meta] without the entry; that of the entry, if there is one; but the empty text, if the file
  -- parses and has no section [meta].
  pub initial_mappings-ocsf_version :
      (text : String) (toml : MappingsToml)
      → ((initial_mappings from_toml none).ocsf_version ≡ "1.7.0")
        × (from_toml text ≡ none → (initial_mappings from_toml (some text)).ocsf_version ≡ "1.7.0")
        × (from_toml text ≡ some toml
            → ((toml.meta ≡ some none
                  → (initial_mappings from_toml (some text)).ocsf_version ≡ "1.7.0")
                × ((version : String)
                    → toml.meta ≡ some (some version)
                    → (initial_mappings from_toml (some text)).ocsf_version ≡ version)
                × (toml.meta ≡ none → (initial_mappings from_toml (some text)).ocsf_version ≡ "")))
  unfolding initial_mappings load meta_version default_mappings default_ocsf_version
  initial_mappings-ocsf_version text toml = (
    refl,
    (λ e. rw e refl),
    (λ e. rw e ((λ m. rw m refl), (λ version m. rw m refl), (λ m. rw m refl))),
  )

  differs_same : (a b : Option ℕ) → differs a b ≡ false → a ≡ b
  unfolding differs
  differs_same none none h = refl
  differs_same none (some b) h = cc
  differs_same (some a) none h = cc
  differs_same (some a) (some b) h = ap some (ground (arith, h))

  module _ (text_at : Option ℕ → Option String) where
    -- The mappings are those of the text with the modification time that was seen last, if it loads.
    abbrev pub IsCurrent : Watcher → Type 0
    IsCurrent w = (m : CustomMappings) → load from_toml (text_at w.last) ≡ some m → w.mappings ≡ m

    replaced-IsCurrent :
        (o : Option CustomMappings) (old m : CustomMappings) → o ≡ some m → replaced o old ≡ m
    replaced-IsCurrent none old m h = cc
    replaced-IsCurrent (some new) old m h = some-injective _ _ h

    poll-IsCurrent :
        (cur : Option ℕ) (w : Watcher)
        → IsCurrent w
        → IsCurrent (poll from_toml cur (text_at cur) w)
    unfolding poll
    poll-IsCurrent cur w h = elim (Bool-cases (differs cur w.last)) [
      | inl other ↦
          simp other
            (λ m loads. replaced-IsCurrent (load from_toml (text_at cur)) w.mappings m loads)
      | inr same ↦ simp same h
    ]

    poll-last : (cur : Option ℕ) (w : Watcher) → (poll from_toml cur (text_at cur) w).last ≡ cur
    unfolding poll
    poll-last cur w = elim (Bool-cases (differs cur w.last)) [
      | inl other ↦ simp other refl
      | inr same ↦ simp same (sym (differs_same cur w.last same))
    ]

    -- A file whose text is the same whenever its modification time is the same: after each tick the mappings
    -- are those of the file as it is then, if it loads, whatever happened to it before, if this holds of the
    -- mappings and the modification time at the start.
    pub watch-IsCurrent :
        (before : List (Option ℕ)) (cur : Option ℕ) (w : Watcher) (m : CustomMappings)
        → IsCurrent w
        → load from_toml (text_at cur) ≡ some m
        → (watch from_toml (map (λ t. (t, text_at t)) (before ++ cur ∷ [])) w).mappings ≡ m
    unfolding watch
    watch-IsCurrent [] cur w m h loads =
        poll-IsCurrent cur w h m (ap (λ t. load from_toml (text_at t)) (poll-last cur w) ∙ loads)
    watch-IsCurrent (t ∷ before) cur w m h loads =
        watch-IsCurrent before cur (poll from_toml t (text_at t) w) m (poll-IsCurrent t w h) loads

    poll_broken :
        (cur : Option ℕ) (w : Watcher)
        → load from_toml (text_at cur) ≡ none
        → (poll from_toml cur (text_at cur) w).mappings ≡ w.mappings
    unfolding poll
    poll_broken cur w broken =
        if-both (λ (r : Watcher). r.mappings ≡ w.mappings) (differs cur w.last)
          (ap (λ o. replaced o w.mappings) broken) refl

    -- A file that cannot be read or parsed, at whatever modification times it is seen, leaves the mappings
    -- as they are.
    pub watch_broken :
        (ticks : List (Option ℕ)) (w : Watcher)
        → ((t : Option ℕ) → load from_toml (text_at t) ≡ none)
        → (watch from_toml (map (λ t. (t, text_at t)) ticks) w).mappings ≡ w.mappings
    unfolding watch
    watch_broken [] w broken = refl
    watch_broken (t ∷ ticks) w broken =
        watch_broken ticks (poll from_toml t (text_at t) w) broken ∙ poll_broken t w (broken t)
