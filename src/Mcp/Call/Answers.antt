-- ===== src/Mcp/Call/Answers.antt =====
-- mcp_gateway.py: what stands behind a tool result that is no error.
use tanaka.Prelude.{
  String, ◌≡◌, ◌∙◌, Option, none, some, [], ◌∷◌, ◌++◌, Option-cases, Bool, true, false, eqb,
  if◌then◌else◌, inl, inr,
}
use tanaka.Host.{Host}
use tanaka.Spine.{Order, Receipt}
use tanaka.Chain.{Table, next_seq}
use tanaka.Ledger.Laws.{IsIntact}
use tanaka.Cashier.Engine.{Outcome, accept, evaluate_order}
use tanaka.Chef.Runner.{ChefResult}
use tanaka.Chef.Runner.Laws.{Reports}
use tanaka.Loop.{LoopState, place}
use tanaka.Loop.Laws.{Placed, refused, served, Ended, answered, stopped, place-Ended}
use tanaka.Mcp.Protocol.{McpTexts, fulfilled_result}
use tanaka.Mcp.Call.{
  CallReadings, McpState, McpGateway, shown_draft, chef_answer, place_answer, place_with,
}

if_some {ℓ} :
    {A : Type ℓ} (b : Bool) (o : Option A) (a : A) → (if b then o else none) ≡ some a → o ≡ some a
if_some true o a h = h
if_some false o a h = cc h

module _ (host : Host) where
  open host use {Bytes, PrivateKey, sha256}

  -- The answer of a chef that is no error shows the text of its draft, and gives its receipt.
  chef_answer-draft :
      (texts : McpTexts Bytes) (chef : ChefResult Bytes) (output : String) (receipt : Receipt Bytes)
      → chef_answer host texts chef ≡ some (fulfilled_result output receipt)
      → (draft : Bytes) × (chef.draft_bytes ≡ some draft)
        × (texts.decode draft ≡ some output)
        × (chef.receipt ≡ receipt)
  unfolding chef_answer shown_draft
  chef_answer-draft texts chef output receipt h =
      elim (Option-cases (if eqb chef.returncode 0 then chef.draft_bytes else none)) [
        | inl missing ↦ cc (rw (missing, chef_answer) at h)
        | inr (draft, e) ↦ elim (Option-cases (texts.decode draft)) [
          | inl odd ↦ cc (rw (e, chef_answer, odd, shown_draft) at h)
          | inr (text, f) ↦
              let g : some (fulfilled_result text chef.receipt)
                  ≡ some (fulfilled_result output receipt) =
                rw (e, chef_answer, f, shown_draft) at h in
              (draft, if_some _ chef.draft_bytes draft e, f ∙ cc g, cc g)
        ]
      ]

  module _ (g : McpGateway Bytes PrivateKey) (i : CallReadings) (order : Order)
      (s : McpState Bytes) where
    abbrev opening : LoopState Bytes
    opening = record { store = s.store; rows = s.rows; last_chef = s.last_chef }

    -- What stands behind the text and the receipt of a tool result.
    pub record IsBacked (output : String) (receipt : Receipt Bytes) (rows' : Table Bytes)
        : Type 0 where
      pub key : String
      pub resource : String
      pub accepted :
          evaluate_order order g.wiring.menu g.wiring.policy_set s.store i.readings.rate_now
          ≡ accept key resource
      pub draft : Bytes
      pub shown : g.texts.decode draft ≡ some output
      pub digest : receipt.result_digest ≡ some (sha256 draft)
      pub status : receipt.status ≡ "FULFILLED"
      pub order_id : receipt.order_id ≡ order.order_id
      pub text : Bytes
      pub appended : rows' ≡ s.rows ++ (next_seq s.rows, text) ∷ []
      pub intact : IsIntact host g.wiring.private_key rows' receipt.this_hash

    Placed-IsBacked :
        (last output : String) (receipt : Receipt Bytes) {o : Option (Outcome Bytes)}
        → Placed host g.wiring order i.readings i.chef_hex opening last o
        → place_answer host g.texts o
            (place host g.wiring order i.readings i.chef_hex opening).1.last_chef
          ≡ some (fulfilled_result output receipt)
        → IsBacked output receipt (place host g.wiring order i.readings i.chef_hex opening).1.rows
    unfolding place_answer
    Placed-IsBacked last output receipt (refused reason e none_ran r) h = cc h
    Placed-IsBacked last output receipt (served key resource t chef e same_order _ _ _ ran r) h =
        let (draft, left, shown, own) =
          chef_answer-draft g.texts chef output receipt (rw (ran, place_answer) at h) in
        let (status, _, digest, _) : Reports host g.wiring.private_key g.wiring.service receipt
            (some draft) =
          rw (left, own) at r.reported in
        record {
          key = key;
          resource = resource;
          accepted = e;
          draft = draft;
          shown = shown;
          digest = digest;
          status = status;
          order_id = rw own at r.order_id ∙ same_order;
          text = r.text;
          appended = r.appended;
          intact = rw own at r.intact;
        }

    Ended-IsBacked :
        (last output : String) (receipt : Receipt Bytes) {o : Option (Outcome Bytes)}
        → Ended host g.wiring order i.readings i.chef_hex opening last o
        → place_answer host g.texts o
            (place host g.wiring order i.readings i.chef_hex opening).1.last_chef
          ≡ some (fulfilled_result output receipt)
        → IsBacked output receipt (place host g.wiring order i.readings i.chef_hex opening).1.rows
    unfolding place_answer
    Ended-IsBacked last output receipt (answered p) h = Placed-IsBacked last output receipt p h
    Ended-IsBacked last output receipt (stopped key resource t e _ _ _ _) h = cc h

    -- Over an intact ledger and with no consumer loop: if a call shows the agent a text and a
    -- receipt, then the cashier accepted the order, the text is that of a draft, the receipt is for the
    -- order, FULFILLED, with the digest of that draft, and it is the one that was appended.
    pub fulfilled-IsBacked :
        (last output : String) (receipt : Receipt Bytes)
        → IsIntact host g.wiring.private_key s.rows last
        → (place_with host g none i order s).0 ≡ some (fulfilled_result output receipt)
        → IsBacked output receipt (place_with host g none i order s).1.rows
    unfolding place_with
    fulfilled-IsBacked last output receipt intact h =
        Ended-IsBacked last output receipt
          (place-Ended host g.wiring order i.readings i.chef_hex opening last intact) h
