-- ===== src/Engines/Loading.antt =====
-- Loading the neural models: `download_file` and `load_model` of src/engines/embeddings.rs, and
-- `load_cross_encoder` of src/engines/rerank.rs. The file system, the HTTP client and the builders of
-- the crates `tokenizers` and `candle` are parameters.
pub mod Reuse
use rust_enterprise_query_en.Common.{
  ℕ, Bool, true, false, List, [], ◌∷◌, ◌++◌, Option, Result, ok, err, ◌>>=◌, map_err, and_then,
  if◌then◌else◌, ◌==◌,
}
use rust_enterprise_query_en.Common.Text.{Text, codes}
use mathlib.Core.Option

-- The disk and the network.
pub record Machine : Type 1 where
  pub Disk : Type 0
  pub Network : Type 0
  pub IoError : Type 0
  pub HttpError : Type 0
  pub exists : Disk → Text → Bool
  pub create_dir_all : Disk → Text → Disk × Result IoError (Unit {0})
  pub write : Disk → Text → List ℕ → Disk × Result IoError (Unit {0})
  pub read_to_string : Disk → Text → Result IoError Text
  -- `reqwest::get` and then `bytes()` of its response.
  pub get_bytes : Network → Text → Network × Result HttpError (List ℕ)

-- What builds a model of the crate from its files.
pub record Builders (machine : Machine) : Type 1 where
  pub BuildError : Type 0
  pub Config : Type 0
  pub hidden_size : Config → ℕ
  pub config_from_str : Text → Result BuildError Config
  pub Tokenizer : Type 0
  pub tokenizer_from_file : machine.Disk → Text → Result BuildError Tokenizer
  -- Padding to the longest of a batch.
  pub with_padding : Tokenizer → Tokenizer
  pub VarBuilder : Type 0
  pub from_mmaped_safetensors : machine.Disk → Text → Result BuildError VarBuilder
  pub Network : Type 0
  pub load : VarBuilder → Config → Result BuildError Network

pub data LoadError (I H B : Type 0) : Type 0 where
  io_failed : I → LoadError I H B
  http_failed : H → LoadError I H B
  build_failed : B → LoadError I H B
  no_hidden_size : LoadError I H B

module _ (machine : Machine) where
  open machine use {IoError, HttpError}

  pub record World : Type 0 where
    pub disk : machine.Disk
    pub net : machine.Network

  module _ (B : Type 0) where
    abbrev pub Error : Type 0
    Error = LoadError IoError HttpError B

    unfoldable pub write_file : Text → List ℕ → World → World × Result Error Text
    write_file dest bytes w =
        let out = machine.write w.disk dest bytes in
        (record w { disk = out.0 }, map_err io_failed out.1 >>= λ _. ok dest)

    unfoldable pub fetch : Text → World → World × Result Error (List ℕ)
    fetch url w =
        let out = machine.get_bytes w.net url in
        (record w { net = out.0 }, map_err http_failed out.1)

    unfoldable pub download_file : Text → Text → World → World × Result Error Text
    download_file url dest w =
        if machine.exists w.disk dest
        then (w, ok dest)
        else and_then (fetch url w) λ w' bytes. write_file dest bytes w'

    unfoldable pub create_dir : Text → World → World × Result Error (Unit {0})
    create_dir dir w =
        let out = machine.create_dir_all w.disk dir in
        (record w { disk = out.0 }, map_err io_failed out.1)

    abbrev pub slash : Text → Text → Text
    slash dir name = dir ++ (codes "/" ++ name)

    -- The downloads of both models: the paths of the configuration, the tokenizer and the weights.
    unfoldable pub download_files : Text → Text → World → World × Result Error (Text × Text × Text)
    download_files base_url dir w =
        and_then
          (download_file (slash base_url (codes "config.json")) (slash dir (codes "config.json")) w)
          λ w1 config_path.
            and_then
              (download_file (slash base_url (codes "tokenizer.json"))
                (slash dir (codes "tokenizer.json")) w1)
              λ w2 tokenizer_path.
                and_then
                  (download_file (slash base_url (codes "model.safetensors"))
                    (slash dir (codes "model.safetensors")) w2)
                  λ w3 weights_path. (w3, ok (config_path, tokenizer_path, weights_path))

    unfoldable pub download_model : Text → Text → World → World × Result Error (Text × Text × Text)
    download_model base_url dir w =
        and_then (create_dir dir w) λ w' _. download_files base_url dir w'

  module _ (builders : Builders machine) where
    open builders use {BuildError, Tokenizer, Config}

    -- What is read of the three files; `check` is the test of the configuration.
    unfoldable pub build :
        (Config → Result (Error BuildError) (Unit {0}))
        → World
        → Text × Text × Text
        → Result (Error BuildError) (builders.Network × Tokenizer)
    build check w (config_path, tokenizer_path, weights_path) = do
      config_json ← map_err io_failed (machine.read_to_string w.disk config_path)
      config ← map_err build_failed (builders.config_from_str config_json)
      _ ← check config
      tokenizer ← map_err build_failed (builders.tokenizer_from_file w.disk tokenizer_path)
      vb ← map_err build_failed (builders.from_mmaped_safetensors w.disk weights_path)
      model ← map_err build_failed (builders.load vb config)
      ok (model, builders.with_padding tokenizer)

    abbrev pub check_hidden_size : Config → Result (Error BuildError) (Unit {0})
    check_hidden_size config =
        if builders.hidden_size config == 0 then err no_hidden_size else ok tt

    unfoldable pub load_from :
        (Config → Result (Error BuildError) (Unit {0}))
        → Text
        → Text
        → World
        → World × Result (Error BuildError) (builders.Network × Tokenizer)
    load_from check base_url dir w =
        and_then (download_model BuildError base_url dir w) λ w' paths. (w', build check w' paths)

    abbrev pub bge_base_url : Text
    bge_base_url = codes "https://huggingface.co/BAAI/bge-base-en-v1.5/resolve/main"

    abbrev pub reranker_base_url : Text
    reranker_base_url = codes "https://huggingface.co/BAAI/bge-reranker-base/resolve/main"

    -- The argument is the setting `MODEL_CACHE_DIR`.
    unfoldable pub load_model :
        Option Text → World → World × Result (Error BuildError) (builders.Network × Tokenizer)
    load_model setting w =
        load_from check_hidden_size bge_base_url (Option.get_or setting (codes "data")) w

    -- The argument is the setting `RERANKER_MODEL_DIR`.
    unfoldable pub load_cross_encoder :
        Option Text → World → World × Result (Error BuildError) (builders.Network × Tokenizer)
    load_cross_encoder setting w =
        load_from (λ config. ok tt) reranker_base_url
          (Option.get_or setting (codes "data/reranker")) w
