-- ===== src/Gemini.antt =====
-- internal/gemini/generator.go, and `Generate` of internal/gemini/adk.go over what the client of the
-- model answers. A DocType is a string; the code makes no other than the three constants.
pub mod RateLimit
use ping_goat.Common.{
  Bool, GoString, List, Option, Result, [], bytes, err, if◌then◌else◌, none, ok, pos, some, ℤ, ◌++◌,
  ◌∷◌,
}

pub data DocType : Type 0 where
  readme quick_start diagram : DocType

-- `string(doc.DocType)`
abbrev pub doc_type_string : DocType → GoString
doc_type_string readme = bytes "readme"
doc_type_string quick_start = bytes "quickstart"
doc_type_string diagram = bytes "diagram"

pub record GenRequest : Type 0 where
  pub doc_type : DocType
  pub prompt : GoString

pub record GenResult : Type 0 where
  pub content : GoString
  pub prompt_tokens : ℤ
  pub completion_tokens : ℤ

-- One element that the client's iterator yields: an error, or a response with the texts of its parts
-- (`none` for a nil Content) and its token counts (`none` for a nil UsageMetadata).
pub data Yield : Type 0 where
  failure : Yield
  response : Option (List GoString) → Option (ℤ × ℤ) → Yield

pub data GenError : Type 0 where
  cancelled call_failed empty_response not_implemented no_model : GenError

concat : List GoString → GoString
concat [] = []
concat (part ∷ parts) = part ++ concat parts

-- `result.PromptTokens` and `result.CompletionTokens` stay 0 without metadata.
abbrev token_counts : Option (ℤ × ℤ) → ℤ × ℤ
token_counts none = (pos 0, pos 0)
token_counts (some counts) = counts

unfoldable pub first_response : List Yield → Result GenError GenResult
unfolding concat
first_response [] = err not_implemented
first_response (failure ∷ _) = err call_failed
first_response (response none usage ∷ _) = err empty_response
first_response (response (some []) usage ∷ _) = err empty_response
first_response (response (some (part ∷ parts)) usage ∷ _) =
    let (prompt, completion) = token_counts usage in
    ok (record {
      content = concat (part ∷ parts);
      prompt_tokens = prompt;
      completion_tokens = completion;
    })

-- `(*adkGenerator).Generate`: whether the limiter let the call through before the context ended, and
-- what the model yields for a prompt.
unfoldable pub adk_generate :
    Bool → (GoString → List Yield) → GenRequest → Result GenError GenResult
unfolding first_response
adk_generate ticked generate_content req =
    if ticked then first_response (generate_content req.prompt) else err cancelled
