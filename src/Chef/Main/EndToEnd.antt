-- ===== src/Chef/Main/EndToEnd.antt =====
-- A ticket that the cashier minted for an accepted order, as it arrives at the chef's program.
use tanaka.Prelude.{ℕ, String, ◌≡◌, refl, sym, ◌∙◌, Option, some, List, [], ◌∷◌, eq_iff, arith}
use tanaka.Json.{str, obj, Fields, dict}
use tanaka.Host.{Host}
use tanaka.Spine.{Capability, Order, Ticket, resolved_behavior}
use tanaka.Cashier.Store.{CashierStore}
use tanaka.Cashier.Policy.{Policy}
use tanaka.Cashier.Scope.{split_once, local_unsafe}
use tanaka.Cashier.Scope.Laws.{scoped_name, split_once-scoped_name, local_unsafe_iff, IsOwn}
use tanaka.Cashier.Engine.{accept, Menu, evaluate_order, Readings, mint, signable}
use tanaka.Cashier.Engine.Decide.{evaluate_order_iff}
use tanaka.Chef.Runner.{wire}
use tanaka.Chef.Main.{
  go, ed25519, the_key, the_object, the_text, check, one_text, read_ticket, split_resource, resolve,
  verify_ticket, ChefTicket, chef_signable, FileSystem, finish, admit, run_admitted, main,
}
use tanaka.Chef.Main.Handlers.{TextOps}

split_resource_complete :
    (principal resource local : String)
    → IsOwn principal resource
    → resource ≡ scoped_name principal local
    → split_resource resource ≡ go (principal, local)
unfolding split_resource check local_unsafe
split_resource_complete principal resource local own named =
    let whole : split_once resource ≡ some (principal, local) =
      rw named (split_once-scoped_name principal local own.principal_no_slash) in
    let whole_own : split_once resource ≡ some (principal, own.local) =
      rw own.named (split_once-scoped_name principal own.local own.principal_no_slash) in
    let parts : ◌≡◌ {A = Option (String × String)} (some (principal, own.local))
        (some (principal, local)) =
      sym whole_own ∙ whole in
    let same : own.local ≡ local = cc parts in
    rw (whole, split_resource)
      (ground (
        arith,
        own.printable,
        own.principal_nonempty,
        eq_iff principal "",
        (local_unsafe_iff local).1 (rw same at own.component),
      ))

-- The ticket as `read_ticket` has it.
abbrev pub chef_ticket : {B : Type 0} → (B → String) → Ticket B → String → ChefTicket
chef_ticket b64encode t resource = record {
  ticket_id = t.ticket_id;
  order_id = t.order_id;
  capability_id = t.capability_id;
  behavior = t.behavior;
  behavior_config = t.behavior_config;
  scoped_args = t.scoped_args;
  issued_ts = t.issued_ts;
  cashier_sig = b64encode t.cashier_sig;
  resource = resource;
}

read_ticket-wire :
    {B : Type 0} (b64encode : B → String) (t : Ticket B) (key resource : String)
    → t.scoped_args ≡ dict ((key, str resource) ∷ [])
    → read_ticket (some (obj (wire b64encode t))) ≡ go (chef_ticket b64encode t resource)
unfolding read_ticket wire the_object the_text one_text check
read_ticket-wire b64encode t key resource e = rw e refl

module _ (host : Host) (private_key : host.PrivateKey) where
  open host use {
    Bytes, PublicKey, loads, dumps, dumps_plain, b64encode, b64decode_strict, verify, public_key,
    loads-dumps_plain, b64decode_strict-b64encode,
  }

  verify_ticket-mint :
      (order : Order) (capability : Capability) (key resource : String) (readings : Readings)
      → let t = mint host private_key order capability (dict ((key, str resource) ∷ [])) readings in
        verify_ticket host (public_key private_key) (chef_ticket b64encode t resource) ≡ go tt
  unfolding verify_ticket mint chef_signable check signable resolved_behavior
  verify_ticket-mint order capability key resource readings =
      rw (b64decode_strict-b64encode private_key _, verify_ticket, host.verify-sign private_key _)
        refl

  mint_scoped_args :
      (order : Order) (capability : Capability) (args : Fields) (readings : Readings)
      → (mint host private_key order capability args readings).scoped_args ≡ args
  unfolding mint
  mint_scoped_args order capability args readings = refl

  -- If the cashier accepts an order on the resource "<principal>/<local>", and the chef's test of the
  -- path finds the file of that name in the principal's directory, then the ticket that is minted for
  -- the order passes every check of the chef's program under the cashier's public key, and the
  -- program runs it on that file.
  pub main-mint :
      (order : Order) (menu : Menu) (policy_set : List Policy) (store : CashierStore) (now : ℕ)
      (key local : String) (capability : Capability) (readings : Readings) (ops : TextOps)
      (fs : FileSystem) (key_path root out_dir path : String)
      → evaluate_order order menu policy_set store now
        ≡ accept key (scoped_name order.principal local)
      → resolve fs root (order.principal, local) ≡ go path
      → let resource = scoped_name order.principal local in
        let t = mint host private_key order capability (dict ((key, str resource) ∷ [])) readings in
        main host ops fs
          (ed25519 (public_key private_key))
          (key_path ∷ root ∷ out_dir ∷ [])
          (dumps_plain (obj (wire b64encode t)))
        ≡ finish ops fs out_dir path (chef_ticket b64encode t resource)
  unfolding main admit the_key run_admitted
  main-mint order menu policy_set store now key local capability readings ops fs key_path root
        out_dir path e found =
      let resource = scoped_name order.principal local in
      let permitted =
        (evaluate_order_iff order menu policy_set store now (accept key resource)).0 e in
      let t = mint host private_key order capability (dict ((key, str resource) ∷ [])) readings in
      rw
        (
          loads-dumps_plain (obj (wire b64encode t)),
          read_ticket-wire b64encode t key resource (mint_scoped_args order capability _ readings),
          verify_ticket-mint order capability key resource readings,
          split_resource_complete order.principal resource local permitted.own refl,
          found,
        )
        refl
