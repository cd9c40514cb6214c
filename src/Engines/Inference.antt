-- ===== src/Engines/Inference.antt =====
-- The two neural models: the embedding of sentences in src/engines/embeddings.rs, and the cross-encoder
-- of src/engines/rerank.rs. Tensors (crate `candle`), tokenizers (crate `tokenizers`) and the forward
-- passes of the models are parameters.
pub mod Shapes
pub mod Vectors
use rust_enterprise_query_en.Common.{
  ℕ, Bool, true, List, [], ◌∷◌, map, Result, ok, err, ◌>>=◌, map_err, collect,
}
use rust_enterprise_query_en.Common.Text.{Text}
use rust_enterprise_query_en.Common.Floats.{Floats}
use rust_enterprise_query_en.Engines.Rerank.{RerankError, rerank_candidates_with_scorer}

-- Tensors on one device.
pub record Tensors (F : Type 0) : Type 1 where
  pub Tensor : Type 0
  pub TensorError : Type 0
  -- `Tensor::new` of a slice of `u32`.
  pub of_slice : List ℕ → Result TensorError Tensor
  -- `Tensor::stack` along a new first axis.
  pub stack : List Tensor → Result TensorError Tensor
  pub zeros_like : Tensor → Result TensorError Tensor
  -- `i((.., 0, ..))`
  pub first_tokens : Tensor → Result TensorError Tensor
  pub dim : Tensor → ℕ → Result TensorError ℕ
  pub flatten_all : Tensor → Result TensorError Tensor
  pub to_vec1 : Tensor → Result TensorError (List F)

-- What is read of an encoding.
pub record Encoding : Type 0 where
  pub get_ids : List ℕ
  pub get_attention_mask : List ℕ

pub data InferenceError (K T : Type 0) : Type 0 where
  tokenizer_failed : K → InferenceError K T
  tensor_failed : T → InferenceError K T

-- `encode_batch(inputs, true)` of a tokenizer that pads to the longest input.
abbrev pub EncodeBatch : Type 0 → Type 0 → Type 0
EncodeBatch K Input = List Input → Bool → Result K (List Encoding)

module _ (fl : Floats) (tensors : Tensors fl.F) (K : Type 0) where
  open tensors use {
    Tensor, TensorError, of_slice, stack, zeros_like, first_tokens, dim, flatten_all, to_vec1,
  }

  abbrev pub Error : Type 0
  Error = InferenceError K TensorError

  -- The rows as tensors, stacked.
  unfoldable pub stack_rows : List (List ℕ) → Result TensorError Tensor
  stack_rows rows = do ts ← collect (map of_slice rows); stack ts

  -- The flat values of a tensor.
  unfoldable pub values_of : Tensor → Result TensorError (List fl.F)
  values_of t = do flat ← flatten_all t; to_vec1 flat

  -- The model and the tokenizer of the embeddings.
  pub record BertModel : Type 0 where
    pub encode_batch : EncodeBatch K Text
    pub forward : Tensor → Tensor → Result TensorError Tensor

  -- The dimension, and the flattened vectors of the first tokens.
  unfoldable pub forward_tokens : BertModel → List Encoding → Result TensorError (ℕ × List fl.F)
  forward_tokens model tokens = do
    token_ids ← stack_rows (map (λ t. t.get_ids) tokens)
    token_type_ids ← zeros_like token_ids
    embeddings ← model.forward token_ids token_type_ids
    cls_embeddings ← first_tokens embeddings
    d ← dim cls_embeddings 1
    flat_data ← values_of cls_embeddings
    ok (d, flat_data)

  unfoldable pub embed_sentences : BertModel → List Text → Result Error (ℕ × List fl.F)
  embed_sentences model sentences = do
    tokens ← map_err tokenizer_failed (model.encode_batch sentences true)
    map_err tensor_failed (forward_tokens model tokens)

  pub record CrossEncoder : Type 0 where
    pub encode_batch : EncodeBatch K (Text × Text)
    pub forward : Tensor → Tensor → Tensor → Result TensorError Tensor

  -- The loop over the encodings: the tensors of the ids and those of the masks.
  unfoldable pub tensors_of : List Encoding → Result TensorError (List Tensor × List Tensor)
  tensors_of [] = ok ([], [])
  tensors_of (enc ∷ encodings) = do
    id ← of_slice enc.get_ids
    mask ← of_slice enc.get_attention_mask
    (ids, masks) ← tensors_of encodings
    ok (id ∷ ids, mask ∷ masks)

  unfoldable pub forward_pairs : CrossEncoder → List Encoding → Result TensorError (List fl.F)
  forward_pairs encoder encodings = do
    (ids, masks) ← tensors_of encodings
    input_ids ← stack ids
    attention_mask ← stack masks
    token_type_ids ← zeros_like input_ids
    logits ← encoder.forward input_ids attention_mask token_type_ids
    values_of logits

  unfoldable pub score_pairs : CrossEncoder → Text → List Text → Result Error (List fl.F)
  score_pairs encoder query [] = ok []
  score_pairs encoder query (p ∷ ps) = do
    encodings ←
        map_err tokenizer_failed (encoder.encode_batch (map (λ x. (query, x)) (p ∷ ps)) true)
    map_err tensor_failed (forward_pairs encoder encodings)

  -- `CrossEncoder::rerank`
  unfoldable pub rerank {ℓ} :
      {T : Type ℓ}
      → CrossEncoder
      → Text
      → List (T × Text)
      → ℕ
      → Result (RerankError Error) (List (T × Text))
  rerank {T = T} encoder query candidates top_k =
      rerank_candidates_with_scorer fl T (score_pairs encoder) candidates query top_k
