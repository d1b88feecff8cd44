-- ===== src/Menu/Templates/Handled.antt =====
-- The keys of TEMPLATES against the handlers of chef_main.py.
use tanaka.Prelude.{
  String, ◌==◌, ◌≡◌, refl, sym, arith, eq_iff, Bool, true, false, is_some, some, none,
  if◌then◌else◌,
}
use tanaka.Json.{Fields}
use tanaka.Chef.Main.Handlers.{
  TextOps, Output, output, no_handler, handle, handle_template, handle_draft_reply,
  handle_docs_summarize, handle_payment_initiate,
}
use tanaka.Menu.Templates.{
  template, draft_reply_block, docs_summarize_block, payment_request_block, template_block,
}

abbrev pub has_handler : Output → Bool
has_handler no_handler = false
has_handler _ = true

custom_handled :
    (ops : TextOps) (resource source_text : String) (config : Fields)
    → has_handler (handle_template ops resource source_text config) ≡ true
unfolding handle_template
custom_handled ops resource source_text config = ground arith

flip : (s t : String) → (s == t) ≡ (t == s)
flip s t = ground (arith, eq_iff s t, eq_iff t s)

-- The operator is offered a behavior exactly if the chef has a handler for it.
pub template-handled :
    (ops : TextOps) (behavior resource source_text : String) (config : Fields)
    → is_some (template behavior) ≡ has_handler (handle ops behavior resource source_text config)
unfolding template handle
template-handled ops behavior resource source_text config =
    rw
      (
        flip "draft_reply" behavior,
        flip "docs_summarize" behavior,
        flip "payment_request" behavior,
        flip "template" behavior,
      )
      (go (behavior == "draft_reply") (behavior == "docs_summarize") (behavior == "payment_request")
        (behavior == "template"))
  where
    go :
        (a b c d : Bool)
        → is_some (
            if a
            then some draft_reply_block
            else if b
            then some docs_summarize_block
            else if c
            then some payment_request_block
            else if d
            then some template_block
            else none)
          ≡ has_handler (
              if a
              then output (handle_draft_reply ops source_text)
              else if b
              then output (handle_docs_summarize ops resource source_text)
              else if c
              then output (handle_payment_initiate ops resource)
              else if d
              then handle_template ops resource source_text config
              else no_handler)
    go true b c d = refl
    go false true c d = refl
    go false false true d = refl
    go false false false true = sym (custom_handled ops resource source_text config)
    go false false false false = refl
