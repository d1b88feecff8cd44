-- ===== src/Chef/Main/Handlers.antt =====
-- The four behaviors of chef_main.py: pure functions from the resource's name and text to the
-- output. The methods of Python's `str` that they use are parameters.
use tanaka.Prelude.{ℕ, String, ◌==◌, Option, none, some, List, [], ◌∷◌, length, if◌then◌else◌}
use tanaka.Prelude.Texts.{concat}
use tanaka.Json.{str, Fields, get}

-- `splitlines`, `strip`, `split`, `str(n)`, what follows a prefix (`none` where the text does not
-- start with it), and `string.Template(t).safe_substitute`.
pub record TextOps : Type 0 where
  pub splitlines : String → List String
  pub strip : String → String
  pub words : String → List String
  pub decimal : ℕ → String
  pub after_prefix : String → String → Option String
  pub safe_substitute : String → List (String × String) → String

-- How a behavior ends.
pub data Output : Type 0 where
  output : String → Output
  no_handler value_error : Output

abbrev join_all : List String → String
join_all [] = ""
join_all (s ∷ ss) = concat s (join_all ss)

module _ (ops : TextOps) where
  open ops use {splitlines, strip, words, decimal, after_prefix, safe_substitute}

  -- The text after the first line that starts with "Subject:".
  subject_of : String → List String → String
  subject_of default [] = default
  subject_of default (line ∷ lines) =
      let rest = subject_of default lines in
      elim (after_prefix "Subject:" line) [ none ↦ rest | some s ↦ strip s ]

  first_nonempty : String → List String → String
  first_nonempty default [] = default
  first_nonempty default (line ∷ lines) =
      let rest = first_nonempty default lines in if strip line == "" then rest else strip line

  unfoldable pub safe_fields : String → String → List (String × String)
  unfolding subject_of first_nonempty
  safe_fields resource source_text =
      let lines = splitlines source_text in
      ("resource", resource)
      ∷ ("subject", subject_of "" lines)
      ∷ ("first_line", first_nonempty "" lines)
      ∷ ("line_count", decimal (length lines))
      ∷ ("word_count", decimal (length (words source_text)))
      ∷ ("body", source_text)
      ∷ []

  unfoldable pub handle_draft_reply : String → String
  unfolding subject_of
  handle_draft_reply source_text = join_all (
      "Re: "
      ∷ subject_of "(no subject)" (splitlines source_text)
      ∷ "\n\nThank you for your message. A draft reply has been prepared for your review.\n\n-- Sentinel Loop draft (no send performed)\n"
      ∷ [])

  unfoldable pub handle_docs_summarize : String → String → String
  unfolding first_nonempty
  handle_docs_summarize resource source_text =
      let lines = splitlines source_text in
      join_all (
        "Summary of "
        ∷ resource
        ∷ "\n\nOpening: "
        ∷ first_nonempty "(empty document)" lines
        ∷ "\nLength: "
        ∷ decimal (length lines)
        ∷ " lines, "
        ∷ decimal (length (words source_text))
        ∷ " words.\n\n-- Sentinel Loop summary (extractive, no model)\n"
        ∷ [])

  unfoldable pub handle_payment_initiate : String → String
  handle_payment_initiate resource = join_all (
      "PAYMENT REQUEST — NO FUNDS MOVED\n\nRegarding: " ∷ resource
      ∷ "\nThis is a request artifact for human authorization. The Sentinel Loop slice does not execute payments.\n\n-- Sentinel Loop (no side effect performed)\n"
      ∷ [])

  unfoldable pub handle_template : String → String → Fields → Output
  unfolding safe_fields
  handle_template resource source_text config = elim (get "template" config) [
    | some (str template) ↦
        if template == ""
        then value_error
        else output (safe_substitute template (safe_fields resource source_text))
    | _ ↦ value_error
  ]

  -- `_HANDLERS.get(behavior)`, and the call
  unfoldable pub handle : String → String → String → Fields → Output
  unfolding handle_draft_reply handle_docs_summarize handle_payment_initiate handle_template
  handle behavior resource source_text config =
      if behavior == "draft_reply"
      then output (handle_draft_reply source_text)
      else if behavior == "docs_summarize"
      then output (handle_docs_summarize resource source_text)
      else if behavior == "payment_request"
      then output (handle_payment_initiate resource)
      else if behavior == "template"
      then handle_template resource source_text config
      else no_handler
