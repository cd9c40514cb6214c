-- ===== src/Pipelines/Prompts.antt =====
-- src/pipelines/query/prompts.rs: the prompts, with the question and the chunks put in.
use Prim.Native.String.{String}
use mathlib.Core.List.{flatten}
use rust_enterprise_query_en.Common.{List, [], ◌∷◌, ◌++◌}
use rust_enterprise_query_en.Common.Text.{Text, codes}

-- A line of a prompt.
abbrev line : String → Text
line s = codes s ++ (10 ∷ [])

unfoldable pub sap_kna1_schema : Text
sap_kna1_schema = flatten (
    line "Database Schema for table `kna1`:"
    ∷ line "- kunnr (String): Customer Number / ID"
    ∷ line "- name1 (String): Customer Name"
    ∷ line "- ort01 (String): City"
    ∷ line "- land1 (String): Country Code (e.g., 'US', 'DE')"
    ∷ [])

unfoldable pub build_routing_prompt : Text → Text
build_routing_prompt user_question = flatten (
    codes "You are an expert SAP data engineer. Read the user's question and decide if "
    ∷ line "it requires exact SQL or SEMANTIC search."
    ∷ line ""
    ∷ sap_kna1_schema
    ∷ line ""
    ∷ line "RULES:"
    ∷ codes "1. You must ONLY output raw JSON. Do not wrap it in markdown. Do not add "
    ∷ line "conversational text."
    ∷ line "2. The JSON must have one key: \"route\" (either \"SQL\" or \"SEMANTIC\")."
    ∷ line ""
    ∷ line "Examples:"
    ∷ line "Q: \"How many customers are in Berlin?\""
    ∷ line "A: {\"route\": \"SQL\"}"
    ∷ line ""
    ∷ line "Q: \"Show me the names of 5 customers in the US.\""
    ∷ line "A: {\"route\": \"SQL\"}"
    ∷ line ""
    ∷ line "Q: \"Find customers who are large tech manufacturers.\""
    ∷ line "A: {\"route\": \"SEMANTIC\"}"
    ∷ line ""
    ∷ codes "User Question: \""
    ∷ user_question
    ∷ line "\""
    ∷ codes "A: "
    ∷ [])

unfoldable pub build_sql_prompt : Text → Text
build_sql_prompt user_question = flatten (
    codes "You are an expert SAP data engineer. Read the user's question and write the "
    ∷ line "exact SQL query required."
    ∷ line ""
    ∷ sap_kna1_schema
    ∷ line ""
    ∷ line "RULES:"
    ∷ codes "1. You must ONLY output raw JSON. Do not wrap it in markdown. Do not add "
    ∷ line "conversational text."
    ∷ line "2. The JSON must have one key: \"query\" containing the generated SQL string."
    ∷ line ""
    ∷ codes "User Question: \""
    ∷ user_question
    ∷ line "\""
    ∷ codes "A: "
    ∷ [])

-- The loop over the chunks.
unfoldable pub context_of : List (Text × Text) → Text
context_of [] = []
context_of ((id, text) ∷ chunks) =
    codes "CHUNK ID: " ++ (id ++ (10 ∷ (codes "TEXT: " ++ (text ++ (10 ∷ 10 ∷ context_of chunks)))))

unfoldable pub build_semantic_prompt : Text → List (Text × Text) → Text
build_semantic_prompt user_question chunks = flatten (
    codes "You are an expert SAP data engineer. Answer the user's question using ONLY "
    ∷ line "the provided chunks."
    ∷ line ""
    ∷ line "CONTEXT:"
    ∷ context_of chunks
    ∷ line ""
    ∷ line ""
    ∷ line "RULES:"
    ∷ codes "1. You must ONLY output raw JSON. Do not wrap it in markdown. Do not add "
    ∷ line "conversational text."
    ∷ line "2. The JSON must exactly match this schema:"
    ∷ line "{"
    ∷ line "\"answer_found\": boolean,"
    ∷ line "\"answer\": \"your detailed answer based ONLY on the text\","
    ∷ codes "\"exact_quote\": \"a verbatim, exact substring from the chunk that proves your "
    ∷ line "answer\","
    ∷ line "\"source_chunk_id\": \"the specific CHUNK ID you extracted the quote from\""
    ∷ line "}"
    ∷ codes "3. If the answer is not found in the chunks, set `answer_found` to false, "
    ∷ line "and leave the other fields blank."
    ∷ line ""
    ∷ codes "User Question: \""
    ∷ user_question
    ∷ line "\""
    ∷ codes "A: "
    ∷ [])

unfoldable pub build_question_parser_prompt : Text → Text
build_question_parser_prompt user_question = flatten (
    codes "You are an expert SAP data engineer. Your task is to parse the user's "
    ∷ line "question into pure semantic intent and explicit filters."
    ∷ line ""
    ∷ line "RULES:"
    ∷ codes "1. You must ONLY output raw JSON. Do not wrap it in markdown. Do not add "
    ∷ line "conversational text."
    ∷ line "2. The JSON must exactly match this schema:"
    ∷ line "{"
    ∷ codes "\"intent\": \"The pure semantic meaning, without hard IDs or strict "
    ∷ line "exclusions\","
    ∷ line "\"filters\": [\"EXACT_ID_1\", \"NOT EXACT_ID_2\"]"
    ∷ line "}"
    ∷ codes "3. If there are no explicit IDs or exclusions, leave the `filters` array "
    ∷ line "empty."
    ∷ line ""
    ∷ line "Examples:"
    ∷ line "Q: \"Which customer in Berlin is NOT KUNNR 1000?\""
    ∷ line "A: {\"intent\": \"customer in Berlin\", \"filters\": [\"NOT KUNNR 1000\"]}"
    ∷ line ""
    ∷ line "Q: \"Find SAP customer 00001042.\""
    ∷ line "A: {\"intent\": \"Find SAP customer\", \"filters\": [\"00001042\"]}"
    ∷ line ""
    ∷ codes "User Question: \""
    ∷ user_question
    ∷ line "\""
    ∷ codes "A: "
    ∷ [])
