-- ===== src/Lib.antt =====
-- Tanaka (sentinel_slice/): the control path of the Sentinel Loop, from the bytes that a diner sends
-- to the signed receipt that stays behind.
--
-- The parts, in the order in which an order meets them. gateway.py parses the bytes strictly and
-- hands an order to loop.py; that asks cashier/engine.py, which decides by six steps over the menu,
-- the policies and cashier/store.py, and either appends a rejection receipt or mints a signed ticket
-- and calls the spawn hook; the hook is chef/runner.py, which sends the ticket to the sandboxed
-- program chef/chef_main.py and appends a receipt of how it ended. consumer/loop.py puts a gate of
-- the user's own choices between the cashier and the chef. Receipts stand in the hash chain of
-- ledger/receipts.py, which verify_ledger.py checks. console/service.py publishes policies, with
-- separation of duties, into the chain of authoring/policy_store.py, which verify_policy_history.py
-- checks and from which the policies file is written; it answers simulations and curates the menu,
-- whose items menu/builder.py builds from templates and menu/catalog.py keeps as files; its requests
-- come through console/server.py, signed. mcp_gateway.py turns an agent's tool calls into orders, and
-- inspector.py reports on a day's receipts.
--
-- Files and sources (paths under sentinel_slice/):
--   Prelude, Json     lists, texts and options; JSON values, a dict as its fields in order, and
--                     json.dumps(sort_keys=True) as Json.Sort.sort_keys
--   Host              what is taken from Python's standard library and from `cryptography`
--   Spine             spine/types.py, spine/hashing.py
--   Chain             the loop that verify_ledger.py and verify_policy_history.py share
--   Ledger            ledger/receipts.py (Ledger.append), verify_ledger.py
--   Cashier.Store     cashier/store.py: nonces, and the times of accepted orders
--   Cashier.Policy    cashier/policy.py
--   Cashier.Scope     step 5 of evaluate_order, the scoped resource
--   Cashier.Engine    cashier/engine.py: evaluate_order, process_order
--   Chef.Runner       chef/runner.py (run_chef), attestor/mock.py
--   Chef.Main         chef/chef_main.py: main (Gate and Effects are its proofs) and the handlers
--   Loop              loop.py
--   Gateway           gateway.py: parse_order, outcome_to_dict, place_order_json
--   Consumer          consumer/preferences.py, consumer/loop.py
--   PolicyStore       authoring/policy_store.py, verify_policy_history.py
--   Inspector         inspector.py: check_chain; Report is build_report
--   Menu              menu/templates.py, menu/builder.py (build_descriptor), menu/catalog.py; Decode is
--                     the call Capability(**obj)
--   Mcp               mcp_gateway.py: Protocol is the shape of the messages, Call is _tools_call and
--                     _tools_call_confirmed, Server is handle and serve
--   Console           console/service.py: Service is publish, approve and rollback, Curation the menu's
--                     items, Simulate is simulate; console/signed_auth.py; Server is console/server.py,
--                     over the service as the interface ConsoleApi
--   Drill             curriculum/drill.py, with make_injected_order of diner/agent.py; Plans is what is fired
--   Tests             a host that satisfies what is assumed of the libraries, and concrete runs
--
-- State is passed explicitly: a table of sqlite is the list of its rows in the order of `seq`, a row
-- is its JSON text, and an exception that nothing catches is `none`, `raised` or `crashed`. What is
-- random or read from a clock is an argument (Readings, Intake). The sandboxed process, the file
-- system, the approver and the methods of str are parameters. Three of them may raise: making the
-- serving window's directory for an order's id (Service.makes_window), the sandbox, and the approver;
-- an accepted order then leaves no receipt, and a result that needs a receipt asks that they do not. All loops are structural recursion, so
-- no fuel is needed. Times and exit codes are natural numbers; a rate limit is an integer, as in the
-- policies file.
--
-- Assumed of the libraries, in Host: what json.dumps writes json.loads reads back with sorted keys,
-- base64 keeps a signature, and a signature verifies under the public half of its key. Nothing is
-- assumed about forging signatures, and a collision of the hash is a possible outcome where it
-- matters.
--
-- The custom directory of the menu is the list of its files, each with its JSON; a capability's file
-- whose values have other types than the dataclass declares is outside the model, and counts as one
-- that does not load. Where the path of an id leads, to a file of the directory or out of it, is a
-- parameter (Paths).
--
-- Not modelled: the sandbox backends, the read endpoints of the console and its drill, the policy form,
-- the installers and the application shell, which are I/O, glue, or parts that stand beside the
-- control path; also what is printed, the errors of writing files, Python's limits on recursion and
-- memory, and concurrent access to the database.
mod Prelude
pub mod Json
pub mod Host
pub mod Spine
pub mod Chain
pub mod Ledger
pub mod Cashier
pub mod Chef
pub mod Loop
pub mod Gateway
pub mod Menu
pub mod Inspector
pub mod Consumer
pub mod Drill
pub mod Mcp
pub mod PolicyStore
pub mod Console
mod Tests
