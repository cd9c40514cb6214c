-- ===== src/Tests/Concrete.antt =====
-- Concrete instances of what the model takes as parameters: numbers for `f32`, a parser that splits
-- at semicolons, an engine, a store and an HTTP client with a counter for a state.
use Prim.Native.Nat.{max, min, ◌/◌}
use rust_enterprise_query_en.Common.{
  ◌≡◌, ℕ, suc, ◌+◌, ◌*◌, ◌==◌, Bool, true, List, [], ◌∷◌, map, none, some, ok, err, ltb, leb,
  if◌then◌else◌, arith, false,
}
use rust_enterprise_query_en.Common.Text.{Text, codes, split_on, starts_with}
use rust_enterprise_query_en.Common.Floats.{Floats}
use rust_enterprise_query_en.Engines.AstGuard.{SqlParser}
use rust_enterprise_query_en.Engines.Sql.{SqlEngine}
use rust_enterprise_query_en.Engines.Vector.{Row, VectorStore}
use rust_enterprise_query_en.Pipelines.Ollama.{HttpClient}

abbrev pub total_of : List ℕ → ℕ
total_of [] = 0
total_of (x ∷ xs) = x + total_of xs

pub ltb_irrefl : (x : ℕ) → ltb x x ≡ false
ltb_irrefl x = ground arith

pub gt_trans : (x y z : ℕ) → ltb y x ≡ true → ltb z y ≡ true → ltb z x ≡ true
gt_trans x y z h k = ground arith

abbrev pub numbers : Floats
numbers = record {
  F = ℕ;
  zero_f = 0;
  one_f = 1;
  minus_one_f = 0;
  min_positive = 0;
  of_ℕ = λ n. n;
  add = λ a b. a + b;
  mul = λ a b. a * b;
  div = λ a b. a / b;
  abs = λ a. a;
  max_f = max;
  sqrt = λ a. a;
  square = λ a. a * a;
  sum = total_of;
  is_finite = λ a. true;
  eq_f = λ a b. a == b;
  gt = λ a b. ltb b a;
  ge = λ a b. leb b a;
  le = λ a b. leb a b;
  total_key = λ a. a;
  gt_irrefl = ltb_irrefl;
  gt_trans = gt_trans;
  total_key_injective = λ x y h. h;
}

abbrev pub parser : SqlParser
parser = record {
  ParseError = ℕ;
  Statement = Bool;
  is_query = λ s. s;
  parse_sql = λ t. ok (map (starts_with (codes "SELECT")) (split_on 59 t));
}

-- The state counts the executed queries; a frame is its number of rows.
abbrev pub engine : SqlEngine
engine = record {
  State = ℕ;
  EngineError = ℕ;
  DataFrame = ℕ;
  RecordBatch = ℕ;
  new_session = 0;
  register_csv = λ s name path. (s, ok tt);
  sql = λ s t. (suc s, ok 20000);
  limit = λ df skip n. elim n [ none ↦ ok df | some k ↦ ok (min df k) ];
  collect = λ df. ok (df ∷ []);
  num_rows = λ b. b;
  write_json_lines = λ bs. ok (codes "{}");
}

abbrev pub rows : List Row
rows =
    record { kunnr = codes "1"; name = codes "ab"; city = codes "x" }
    ∷ record { kunnr = codes "2"; name = codes "cd"; city = codes "y" }
    ∷ []

abbrev pub store : VectorStore ℕ
store = record {
  Connection = ℕ;
  Table = ℕ;
  StoreError = ℕ;
  connect = λ uri. ok 0;
  open_table = λ db name. ok 0;
  nearest_to = λ table v n. ok (ok (some rows) ∷ []);
  only_if = λ table filter n. ok (ok none ∷ []);
  count_rows = λ table. ok 2;
  list_indices = λ table. ok ((codes "vector" ∷ []) ∷ []);
}

abbrev pub name_of : Row → Text
name_of r = r.name

-- The first half second fails.
abbrev pub client : HttpClient
client = record {
  World = ℕ;
  HttpError = ℕ;
  Response = ℕ;
  post = λ w p. (suc w, if ltb w 500 then err 7 else ok w);
  json = λ r. ok (codes "yes");
  sleep = λ w ms. w + ms;
}
