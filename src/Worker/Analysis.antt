-- ===== src/Worker/Analysis.antt =====
-- Steps 8 and 9 of services/worker/app/pipeline/orchestrator.py: `_extract_and_build_request`, of whose
-- request the model keeps the mode, and `_run_ai_analysis`.
use share_sentinel.Prelude.{ℕ, String, Bool, Option, none, some, if◌then◌else◌}
use share_sentinel.Pipeline.Retry.{
  Attempt, Outcome, returns, raises, raises_none, retry_with_backoff,
}
use share_sentinel.Pipeline.SecondLook.{
  Response, Analysis, Failure, transient_ai_error, is_retryable,
}

-- `Action` of pipeline/classifier.py
pub data Action : Type 0 where
  full_analysis filename_only archive_manifest multimodal transcript_analysis folder_flag : Action
  pending_manual format_conversion : Action

-- The exceptions that leave a step: TransientAIError with its subclass, and all others.
pub data Trouble : Type 0 where
  transient unhandled : Trouble

pub data Result (A : Type 0) : Type 0 where
  value : A → Result A
  raise : Trouble → Result A

-- What an extractor does: an exception, no text, or a text.
pub data Extracted : Type 0 where
  crashed no_text text : Extracted

-- What the extraction of a file meets. There may be no extractor for its extension; pages that
-- cannot be rendered, with an exception or without, count as not rendered.
pub record Extraction : Type 0 where
  pub preprocessed : Bool
  pub extractor : Option Extracted
  pub is_pdf : Bool
  pub ocr : Extracted
  pub renders_pages : Bool

unfoldable pub pages_mode : Extraction → String
pages_mode x = if x.renders_pages then "multimodal" else "filename_only"

-- After a text extraction without a text.
unfoldable pub pdf_mode : Extraction → Result String
unfolding pages_mode
pdf_mode x =
    if x.is_pdf
    then elim x.ocr [
      | crashed ↦ raise unhandled
      | no_text ↦ value (pages_mode x)
      | text ↦ value "text"
    ]
    else value "filename_only"

unfoldable pub archive_mode : Extraction → Result String
archive_mode x = elim x.extractor [
  | none ↦ value "filename_only"
  | some e ↦ elim e [
    | crashed ↦ raise unhandled
    | no_text ↦ value "filename_only"
    | text ↦ value "text"
  ]
]

unfoldable pub text_mode : Extraction → Result String
unfolding pdf_mode
text_mode x = elim x.extractor [
  | none ↦ pdf_mode x
  | some e ↦ elim e [ crashed ↦ raise unhandled | no_text ↦ pdf_mode x | text ↦ value "text" ]
]

unfoldable pub extract_and_build_request : Action → Extraction → Result String
unfolding archive_mode text_mode
extract_and_build_request multimodal x =
    if x.preprocessed then value "multimodal" else raise unhandled
extract_and_build_request archive_manifest x = archive_mode x
extract_and_build_request full_analysis x = text_mode x
extract_and_build_request _ x = value "filename_only"

abbrev pub trouble_of : Failure → Trouble
trouble_of transient_ai_error = transient
trouble_of _ = unhandled

-- `AIAnalysisFailedError` is a subclass of TransientAIError.
unfoldable pub analysis_result : Outcome Analysis Failure → Result Response
analysis_result (returns a) = if a.success then value a.response else raise transient
analysis_result (raises x) = raise (trouble_of x)
analysis_result raises_none = raise unhandled

-- With the retry's defaults, three attempts and 2 seconds.
unfoldable pub run_ai_analysis : (ℕ → Attempt Analysis Failure) → Result Response
unfolding analysis_result
run_ai_analysis analyze = analysis_result (retry_with_backoff is_retryable 2 analyze 3).outcome
