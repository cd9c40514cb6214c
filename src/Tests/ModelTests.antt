-- ===== src/Tests/ModelTests.antt =====
-- The neural models and their files at concrete inputs.
use rust_enterprise_query_en.Common.{
  ℕ, zero, suc, Bool, true, false, ◌||◌, List, [], ◌∷◌, map, none, Result, ok, err, ◌≡◌, refl, ap,
  length, length-map, Bool-cases, inl, inr,
}
use rust_enterprise_query_en.Common.Text.{Text, codes, text_eq}
use rust_enterprise_query_en.Common.Text.Laws.{text_eq_refl}
use rust_enterprise_query_en.Engines.Embeddings.{length_mismatch, get_embeddings_batch}
use rust_enterprise_query_en.Engines.Rerank.{
  scorer_failed, rerank_candidates_with_scorer, nothing_wanted,
}
use rust_enterprise_query_en.Engines.Inference.{
  Tensors, Encoding, tokenizer_failed, BertModel, CrossEncoder, embed_sentences, score_pairs,
  rerank, Error,
}
use rust_enterprise_query_en.Engines.Inference.Shapes.{ShapeLaws, elements, rerank-Failure}
use rust_enterprise_query_en.Engines.Inference.Vectors.{get_embeddings_batch_fits}
use rust_enterprise_query_en.Engines.Loading.{
  Machine, Builders, World, load_model, load_cross_encoder, load_from, download_model,
  download_files, download_file, create_dir, fetch, write_file, build,
}
use rust_enterprise_query_en.Engines.Loading.Reuse.{DiskLaws, load-load_reuses}
use rust_enterprise_query_en.Tests.Concrete.{numbers}

-- A tensor of ones, given by its shape.
abbrev Ones : Type 0
Ones = List ℕ

abbrev ones : ℕ → List ℕ
ones zero = []
ones (suc n) = 1 ∷ ones n

abbrev stack_ones : List Ones → Result ℕ Ones
stack_ones [] = err 0
stack_ones (t ∷ ts) = ok (length (t ∷ ts) ∷ t)

abbrev middle_out : Ones → Result ℕ Ones
middle_out (a ∷ b ∷ c ∷ []) = ok (a ∷ c ∷ [])
middle_out _ = err 1

abbrev dim_of : Ones → ℕ → Result ℕ ℕ
dim_of (a ∷ c ∷ []) d = ok c
dim_of _ d = err 2

abbrev vector_of : Ones → Result ℕ (List ℕ)
vector_of (n ∷ []) = ok (ones n)
vector_of _ = err 3

abbrev tensors : Tensors ℕ
tensors = record {
  Tensor = Ones;
  TensorError = ℕ;
  of_slice = λ xs. ok (length xs ∷ []);
  stack = stack_ones;
  zeros_like = λ t. ok t;
  first_tokens = middle_out;
  dim = dim_of;
  flatten_all = λ t. ok (elements t ∷ []);
  to_vec1 = vector_of;
}

length-ones : (n : ℕ) → length (ones n) ≡ n
length-ones zero = refl
length-ones (suc n) = ap suc (length-ones n)

ones_read : (t : Ones) (n : ℕ) (xs : List ℕ) → t ≡ n ∷ [] → vector_of t ≡ ok xs → length xs ≡ n
ones_read [] n xs h k = cc
ones_read (m ∷ []) n xs h k =
    let same : m ≡ n = cc in let got : xs ≡ ones m = cc in rw (got, same) (length-ones n)
ones_read (a ∷ b ∷ t) n xs h k = cc

ones_first : (t u : Ones) (a b c : ℕ) → t ≡ a ∷ b ∷ c ∷ [] → middle_out t ≡ ok u → u ≡ a ∷ c ∷ []
ones_first t u a b c h k = let k' : middle_out (a ∷ b ∷ c ∷ []) ≡ ok u = rw h at k in cc

ones_dim : (t : Ones) (a c d : ℕ) → t ≡ a ∷ c ∷ [] → dim_of t 1 ≡ ok d → d ≡ c
ones_dim t a c d h k = let k' : dim_of (a ∷ c ∷ []) 1 ≡ ok d = rw h at k in cc

ones_stacked :
    (t : Ones) (ts : List Ones) (u : Ones) → stack_ones (t ∷ ts) ≡ ok u → u ≡ length (t ∷ ts) ∷ t
ones_stacked t ts u h = cc

same_tensor : (t u : Ones) → Path (Result ℕ Ones) (ok t) (ok u) → u ≡ t
same_tensor t u h = cc

abbrev ones_laws : ShapeLaws tensors
ones_laws = record {
  shape = λ t. t;
  stacked = ones_stacked;
  sliced = λ xs t h. same_tensor (length xs ∷ []) t h;
  flattened = λ t u h. same_tensor (elements t ∷ []) u h;
  read = ones_read;
  first = ones_first;
  second_dim = ones_dim;
}

abbrev encoding : Encoding
encoding = record { get_ids = 101 ∷ 102 ∷ []; get_attention_mask = 1 ∷ 1 ∷ [] }

-- Three hidden numbers for each token.
abbrev hidden_of : Ones → Result ℕ Ones
hidden_of (n ∷ l ∷ []) = ok (n ∷ l ∷ 3 ∷ [])
hidden_of _ = err 4

abbrev bert : BertModel numbers tensors ℕ
bert = record {
  encode_batch = λ sentences special. ok (map (λ s. encoding) sentences);
  forward = λ ids types. hidden_of ids;
}

encodes :
    (inputs : List Text) (encodings : List Encoding)
    → Path (Result ℕ (List Encoding)) (ok (map (λ s. encoding) inputs)) (ok encodings)
    → length encodings ≡ length inputs
encodes inputs encodings h =
    let same : encodings ≡ map (λ s. encoding) inputs = cc in
    rw same (length-map inputs (λ s. encoding))

bert_hidden :
    (ids types out : Ones) (n l : ℕ)
    → ids ≡ n ∷ l ∷ []
    → hidden_of ids ≡ ok out
    → (h : ℕ) × (out ≡ n ∷ l ∷ h ∷ [])
bert_hidden ids types out n l h k = let k' : hidden_of (n ∷ l ∷ []) ≡ ok out = rw h at k in (3, cc)

get_embeddings_batch_fits_example : ¬ (
    get_embeddings_batch numbers 8
      (embed_sentences numbers tensors ℕ bert)
      (codes "a" ∷ codes "b" ∷ [])
    ≡ err (length_mismatch 6 5))
get_embeddings_batch_fits_example =
    get_embeddings_batch_fits numbers tensors ℕ ones_laws bert bert_hidden encodes 8
      (codes "a" ∷ codes "b" ∷ []) 6 5

abbrev logits_of : Ones → Result ℕ Ones
logits_of (n ∷ l ∷ []) = ok (n ∷ 1 ∷ [])
logits_of _ = err 5

-- A tokenizer that refuses its input.
abbrev encoder : CrossEncoder numbers tensors ℕ
encoder = record {
  encode_batch = λ pairs special. err 9;
  forward = λ ids mask types. logits_of ids;
}

one_logit :
    (ids mask types out : Ones) (n l : ℕ)
    → ids ≡ n ∷ l ∷ []
    → logits_of ids ≡ ok out
    → out ≡ n ∷ 1 ∷ []
one_logit ids mask types out n l h k = let k' : logits_of (n ∷ l ∷ []) ≡ ok out = rw h at k in cc

refuses :
    (pairs : List (Text × Text)) (encodings : List Encoding)
    → Path (Result ℕ (List Encoding)) (err 9) (ok encodings)
    → length encodings ≡ length pairs
refuses pairs encodings h = cc

abbrev candidates : List (ℕ × Text)
candidates = (7, codes "passage") ∷ []

refused_rerank :
    rerank numbers tensors ℕ encoder (codes "q") candidates 3
    ≡ err (scorer_failed (tokenizer_failed 9))
unfolding rerank rerank_candidates_with_scorer nothing_wanted score_pairs
refused_rerank = refl

rerank-Failure_example :
    (e : Error numbers tensors ℕ) × (score_pairs numbers tensors ℕ encoder
        (codes "q")
        (map (λ c. c.1) candidates)
      ≡ err e)
    × (scorer_failed (tokenizer_failed 9) ≡ scorer_failed e)
rerank-Failure_example =
    rerank-Failure numbers tensors ℕ ones_laws encoder one_logit refuses (codes "q") candidates 3
      refused_rerank

-- A disk is the list of its files, a network counts its requests.
abbrev has_file : List Text → Text → Bool
has_file [] path = false
has_file (file ∷ files) path = text_eq file path || has_file files path

abbrev pub machine : Machine
machine = record {
  Disk = List Text;
  Network = ℕ;
  IoError = ℕ;
  HttpError = ℕ;
  exists = has_file;
  create_dir_all = λ disk dir. (disk, ok tt);
  write = λ disk path bytes. (path ∷ disk, ok tt);
  read_to_string = λ disk path. ok [];
  get_bytes = λ net url. (suc net, ok (1 ∷ []));
}

abbrev pub builders : Builders machine
builders = record {
  BuildError = ℕ;
  Config = ℕ;
  hidden_size = λ config. config;
  config_from_str = λ text. ok 768;
  Tokenizer = ℕ;
  tokenizer_from_file = λ disk path. ok 1;
  with_padding = λ tokenizer. suc tokenizer;
  VarBuilder = ℕ;
  from_mmaped_safetensors = λ disk path. ok 5;
  Network = ℕ;
  load = λ vb config. ok vb;
}

keeps_file :
    (files : List Text) (path other : Text)
    → has_file files other ≡ true
    → has_file (path ∷ files) other ≡ true
keeps_file files path other there = elim (Bool-cases (text_eq path other)) [
  | inl same ↦ rw same refl
  | inr differs ↦ rw differs there
]

machine_laws : DiskLaws machine
machine_laws = record {
  written = λ disk path bytes done. rw (text_eq_refl path) refl;
  write_keeps = λ disk path other bytes there. keeps_file disk path other there;
  dir_keeps = λ disk dir other there. there;
}

abbrev pub fresh : World machine
fresh = record { disk = []; net = 0 }

loaded_once : (load_model machine builders none fresh).1 ≡ ok (5, 2)
unfolding load_model load_from download_model download_files download_file create_dir fetch
    write_file build text_eq
loaded_once = refl

encoder_loaded : (load_cross_encoder machine builders none fresh).1 ≡ ok (5, 2)
unfolding load_cross_encoder load_from download_model download_files download_file create_dir fetch
    write_file build text_eq
encoder_loaded = refl

load-load_reuses_example :
    ((load_model machine builders none (load_model machine builders none fresh).0).0.net
      ≡ (load_model machine builders none fresh).0.net)
    × ((load_cross_encoder machine builders none
          (load_cross_encoder machine builders none fresh).0).0.net
        ≡ (load_cross_encoder machine builders none fresh).0.net)
load-load_reuses_example =
    load-load_reuses machine machine_laws builders none none fresh fresh loaded_once encoder_loaded
