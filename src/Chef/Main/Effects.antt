-- ===== src/Chef/Main/Effects.antt =====
-- What one run of the chef's program does to the files.
use tanaka.Prelude.{
  ℕ, String, ◌≡◌, ◌≢◌, ◌⊎◌, refl, Bool, true, false, Option, List, [], ◌∷◌, ◌++◌, arith, inl, inr,
  if◌then◌else◌,
}
use tanaka.Prelude.{Option-cases}
use tanaka.Prelude.Texts.{concat}
use tanaka.Json.{Json, Fields, get}
use tanaka.Cashier.Scope.{split_once}
use tanaka.Host.{Host}
use tanaka.Chef.Main.{
  Step, go, stop, ◌>>=◌, the_key, the_object, the_text, check, one_text, read_ticket,
  split_resource, resolve, verify_ticket, KeyFile, ChefTicket, FileSystem, Effect, read_file,
  make_dir, write_file, ChefExit, finish, admit, run_admitted, main,
}
use tanaka.Chef.Main.Handlers.{TextOps, Output, output, no_handler, value_error, handle}
use tanaka.Chef.Main.Gate.{owner_dir, Admitted, admit_sound}

-- A run of an admitted ticket: it reads the one file, and then it either fails with nothing
-- written or writes the handler's text to output.txt.
pub record Ran (ops : TextOps) (fs : FileSystem) (out_dir : String) (t : ChefTicket) (path : String)
    (exit : ChefExit) : Type 0 where
  pub made : List Effect
  pub ending :
      ((exit.code ≢ 0) × (exit.effects ≡ read_file path ∷ []))
      ⊎ ((text : String) × (handle ops t.behavior t.resource (fs.read path) t.behavior_config
            ≡ output text)
          × (exit.code ≡ 0)
          × (exit.effects
              ≡ read_file path ∷ made ++ write_file (fs.join out_dir "output.txt") text ∷ [])
          × (made ≡ (if fs.isdir out_dir then [] else make_dir out_dir ∷ [])))

finish-Ran :
    (ops : TextOps) (fs : FileSystem) (out_dir path : String) (t : ChefTicket)
    → Ran ops fs out_dir t path (finish ops fs out_dir path t)
unfolding finish
finish-Ran ops fs out_dir path t =
    by_output (handle ops t.behavior t.resource (fs.read path) t.behavior_config) refl
  where
    by_output :
        (o : Output)
        → handle ops t.behavior t.resource (fs.read path) t.behavior_config ≡ o
        → Ran ops fs out_dir t path (finish ops fs out_dir path t)
    by_output no_handler e = rw (e, finish) (record { made = []; ending = inl (omega arith, refl) })
    by_output value_error e =
        rw (e, finish) (record { made = []; ending = inl (omega arith, refl) })
    by_output (output text) e =
        rw (e, finish)
          (record {
            made = if fs.isdir out_dir then [] else make_dir out_dir ∷ [];
            ending = inr (text, e, refl, refl, refl);
          })

-- If it stops, then with a code other than 0.
abbrev Fails : {A : Type 0} → Step A → Type 0
Fails (go _) = Unit
Fails (stop code) = code ≢ 0

Fails-bind :
    {A B : Type 0} (m : Step A) (f : A → Step B)
    → Fails m
    → ((a : A) → Fails (f a))
    → Fails (m >>= f)
Fails-bind (go a) f h hs = hs a
Fails-bind (stop code) f h hs = h

check-Fails : (b : Bool) (code : ℕ) → code ≢ 0 → Fails (check b code)
unfolding check
check-Fails true code h = tt
check-Fails false code h = h

the_object-Fails : (v : Option Json) → Fails (the_object v)
unfolding the_object
the_object-Fails v = ground arith

the_text-Fails : (v : Option Json) → Fails (the_text v)
unfolding the_text
the_text-Fails v = ground arith

one_text-Fails : (fs : Fields) → Fails (one_text fs)
unfolding one_text
one_text-Fails fs = ground arith

the_key-Fails : {K : Type 0} (file : KeyFile K) → Fails (the_key file)
unfolding the_key
the_key-Fails file = ground arith

read_ticket-Fails : (parsed : Option Json) → Fails (read_ticket parsed)
unfolding read_ticket
read_ticket-Fails parsed = Fails-bind (the_object parsed) _ (the_object-Fails parsed) (λ t.
    Fails-bind (check _ 2) _ (check-Fails _ 2 (omega arith)) (λ _.
      Fails-bind (the_text (get "ticket_id" t)) _ (the_text-Fails _) (λ _.
        Fails-bind (the_text (get "order_id" t)) _ (the_text-Fails _) (λ _.
          Fails-bind (the_text (get "capability_id" t)) _ (the_text-Fails _) (λ _.
            Fails-bind (the_text (get "behavior" t)) _ (the_text-Fails _) (λ _.
              Fails-bind (the_text (get "issued_ts" t)) _ (the_text-Fails _) (λ _.
                Fails-bind (the_text (get "cashier_sig" t)) _ (the_text-Fails _) (λ _.
                  Fails-bind (the_object (get "behavior_config" t)) _ (the_object-Fails _) (λ _.
                    Fails-bind (the_object (get "scoped_args" t)) _ (the_object-Fails _) (λ args.
                      Fails-bind (one_text args) _ (one_text-Fails args) (λ _. tt)))))))))))

split_resource-Fails : (resource : String) → Fails (split_resource resource)
unfolding split_resource check
split_resource-Fails resource = elim (Option-cases (split_once resource)) [
  | inl nowhere ↦ rw (nowhere, split_resource) (omega arith)
  | inr ((owner, local), there) ↦ rw (there, split_resource) (ground arith)
]

resolve-Fails :
    (fs : FileSystem) (root : String) (parts : String × String) → Fails (resolve fs root parts)
unfolding resolve check
resolve-Fails fs root (owner, local) =
    let dir = owner_dir fs root owner in
    elim (Option-cases (fs.commonpath dir (fs.realpath (fs.join dir (concat local ".txt"))))) [
      | inl nowhere ↦ rw (nowhere, resolve) (omega arith)
      | inr (common, there) ↦ rw (there, resolve) (ground arith)
    ]

module _ (host : Host) where
  open host use {Bytes, PublicKey, loads, b64decode_strict}

  verify_ticket-Fails : (key : PublicKey) (t : ChefTicket) → Fails (verify_ticket host key t)
  unfolding verify_ticket
  verify_ticket-Fails key t = elim (Option-cases (b64decode_strict t.cashier_sig)) [
    | inl nothing ↦ rw (nothing, verify_ticket) (omega arith)
    | inr (sig, there) ↦ rw (there, verify_ticket) (check-Fails _ 3 (omega arith))
  ]

  admit-Fails :
      (fs : FileSystem) (key_file : KeyFile PublicKey) (root : String) (parsed : Option Json)
      → Fails (admit host fs key_file root parsed)
  unfolding admit
  admit-Fails fs key_file root parsed =
      Fails-bind (read_ticket parsed) _ (read_ticket-Fails parsed) (λ t.
        Fails-bind (the_key key_file) _ (the_key-Fails key_file) (λ key.
          Fails-bind (verify_ticket host key t) _ (verify_ticket-Fails key t) (λ _.
            Fails-bind (split_resource t.resource) _ (split_resource-Fails t.resource) (λ parts.
              Fails-bind (resolve fs root parts) _ (resolve-Fails fs root parts) (λ _. tt)))))

  -- A run of the program on its three arguments either stops with a nonzero code and no effect on
  -- the files at all, or it runs a ticket that passed every check of the gate: read from stdin,
  -- signed by the key, its resource "<owner>/<local>" one plain name in the owner's directory, and
  -- the file below that directory.
  pub main-Admitted :
      (ops : TextOps) (fs : FileSystem) (key_file : KeyFile PublicKey)
      (key_path root out_dir : String) (stdin : Bytes)
      → let exit = main host ops fs key_file (key_path ∷ root ∷ out_dir ∷ []) stdin in
        ((exit.code ≢ 0) × (exit.effects ≡ []))
        ⊎ ((t : ChefTicket) × (path : String) × Admitted host fs key_file root (loads stdin) t path
            × Ran ops fs out_dir t path exit)
  unfolding main run_admitted
  main-Admitted ops fs key_file key_path root out_dir stdin =
      by_step (admit host fs key_file root (loads stdin)) refl
        (admit-Fails fs key_file root (loads stdin))
    where
      by_step :
          (m : Step (ChefTicket × String))
          → admit host fs key_file root (loads stdin) ≡ m
          → Fails m
          → let exit = run_admitted host ops fs out_dir m in
            ((exit.code ≢ 0) × (exit.effects ≡ []))
            ⊎ ((t : ChefTicket) × (path : String) × Admitted host fs key_file root
                  (loads stdin)
                  t
                  path
                × Ran ops fs out_dir t path exit)
      by_step (stop code) e h = inl (h, refl)
      by_step (go (t, path)) e h = inr (
        t,
        path,
        admit_sound host fs key_file root (loads stdin) t path e,
        finish-Ran ops fs out_dir path t,
      )
