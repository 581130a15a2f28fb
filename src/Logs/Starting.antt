-- ===== src/Logs/Starting.antt =====
-- AddTransformerConfig of libraries/shared/logs/extractor.go: the first block to extract.
use vulcanize_db.Prelude.{
  ℕ, ◌≡◌, ◌⊎◌, refl, ap, ◌∙◌, String, List, [], ◌∷◌, Option, none, some, Any, All, inl, inr, arith,
}
use vulcanize_db.Prelude.Int.{ℤ, ◌≤ℤ◌}
use vulcanize_db.Logs.{
  EventTransformerConfig, earlier_starting_block_number, earliest, LogExtractor, Repositories, Run,
  run, Write, ◌then_run◌, add_transformer_config, update_checked_headers,
}
use vulcanize_db.Go.{Result, ok, err, panic}

-- The configs added in turn.
abbrev pub earliest_of : Option ℤ → List EventTransformerConfig → Option ℤ
unfolding earliest
earliest_of start [] = start
earliest_of start (config ∷ rest) =
    earliest_of (some (earliest config.starting_block_number start)) rest

pub earliest-bounds :
    (block watched : ℤ)
    → (earliest block (some watched) ≤ℤ block)
      × (earliest block (some watched) ≤ℤ watched)
      × ((earliest block (some watched) ≡ block) ⊎ (earliest block (some watched) ≡ watched))
unfolding earliest earlier_starting_block_number
earliest-bounds block watched = ground arith

abbrev pub Earliest : ℤ → ℤ → List EventTransformerConfig → Type 0
Earliest block start configs =
    (block ≤ℤ start)
    × All (λ config. block ≤ℤ config.starting_block_number) configs
    × ((block ≡ start) ⊎ Any (λ config. block ≡ config.starting_block_number) configs)

≤ℤ_trans : (a b c : ℤ) → a ≤ℤ b → b ≤ℤ c → a ≤ℤ c
≤ℤ_trans a b c h k = omega arith

earliest_of-Earliest :
    (start : ℤ) (configs : List EventTransformerConfig)
    → (block : ℤ) × (earliest_of (some start) configs ≡ some block) × Earliest block start configs
unfolding earliest_of
earliest_of-Earliest start [] = (start, refl, (omega arith, tt, inl refl))
earliest_of-Earliest start (config ∷ rest) =
    let first = config.starting_block_number in
    let now = earliest first (some start) in
    let bounds = earliest-bounds first start in
    let (block, e, found) = earliest_of-Earliest now rest in
    (
      block,
      e,
      (
        ≤ℤ_trans block now start found.0 bounds.1,
        (≤ℤ_trans block now first found.0 bounds.0, found.1),
        elim found.2 [
          | inl same ↦ elim bounds.2 [ inl at ↦ inr (inl (same ∙ at)) | inr at ↦ inl (same ∙ at) ]
          | inr later ↦ inr (inr later)
        ],
      ),
    )

-- A run that succeeds succeeded at its first part.
module _ {A B : Type 0} where
  then_run-ok :
      (first : Run A) (next : A → Run B) (b : B)
      → (first then_run next).result ≡ ok b
      → (a : A) × (first.result ≡ ok a) × ((next a).result ≡ ok b)
  then_run-ok first next b h = by_result first.writes first.result h
    where
      by_result :
          (ws : List Write) (end : Result A)
          → (run ws end then_run next).result ≡ ok b
          → (a : A) × (end ≡ ok a) × ((next a).result ≡ ok b)
      by_result ws panic h = cc
      by_result ws (err e) h = cc
      by_result ws (ok a) h = (a, refl, h)

module _ (db : Repositories) (hex_to_hash hex_to_address : String → ℕ) where
  -- EventWatcher.AddTransformers, for the extractor.
  unfoldable pub add_transformer_configs :
      LogExtractor → List EventTransformerConfig → Run LogExtractor
  unfolding add_transformer_config
  add_transformer_configs extractor [] = run [] (ok extractor)
  add_transformer_configs extractor (config ∷ rest) =
      add_transformer_config db hex_to_hash hex_to_address extractor config then_run λ added.
      add_transformer_configs added rest

  add_transformer_config-starting_block :
      (extractor added : LogExtractor) (config : EventTransformerConfig)
      → (add_transformer_config db hex_to_hash hex_to_address extractor config).result ≡ ok added
      → added.starting_block ≡ some (earliest config.starting_block_number extractor.starting_block)
  unfolding add_transformer_config
  add_transformer_config-starting_block extractor added config h =
      let (_, h1, h2) = then_run-ok (update_checked_headers db config) _ added h in cc

  add_transformer_configs-earliest_of :
      (extractor added : LogExtractor) (configs : List EventTransformerConfig)
      → (add_transformer_configs extractor configs).result ≡ ok added
      → added.starting_block ≡ earliest_of extractor.starting_block configs
  unfolding add_transformer_configs earliest_of
  add_transformer_configs-earliest_of extractor added [] h = cc
  add_transformer_configs-earliest_of extractor added (config ∷ rest) h =
      let (middle, h1, h2) =
        then_run-ok (add_transformer_config db hex_to_hash hex_to_address extractor config)
          (λ m. add_transformer_configs m rest) added h in
      add_transformer_configs-earliest_of middle added rest h2
      ∙ ap (λ start. earliest_of start rest)
          (add_transformer_config-starting_block extractor middle config h1)

  -- When all transformers are added without an error, extraction starts at the earliest of their
  -- starting blocks: at or before each, and equal to one of them.
  add_transformer_configs-Earliest :
      (addresses topics : List ℕ) (config : EventTransformerConfig)
      (rest : List EventTransformerConfig) (added : LogExtractor)
      → (add_transformer_configs
          (record { addresses = addresses; starting_block = none; topics = topics })
          (config ∷ rest)).result
        ≡ ok added
      → (block : ℤ) × (added.starting_block ≡ some block)
        × Earliest block config.starting_block_number rest
  unfolding earliest_of earliest
  add_transformer_configs-Earliest addresses topics config rest added h =
      let (block, e, found) = earliest_of-Earliest config.starting_block_number rest in
      (
        block,
        add_transformer_configs-earliest_of
              (record { addresses = addresses; starting_block = none; topics = topics }) added
              (config ∷ rest) h
            ∙ e,
        found,
      )
