-- ===== src/Chef/Main.antt =====
-- chef/chef_main.py: the standalone program that executes one ticket. Its run is an exit code and
-- the list of what it did to the file system, in order.
pub mod Handlers
pub mod Gate
pub mod Effects
pub mod EndToEnd
use tanaka.Prelude.{
  ℕ, String, ◌==◌, Bool, true, false, ◌&&◌, ◌||◌, not, Option, none, some, List, [], ◌∷◌, ◌++◌,
  if◌then◌else◌,
}
use tanaka.Prelude.Texts.{concat, any_code, has_code}
use tanaka.Json.{
  Json, null, bool, int, float, str, arr, obj, Fields, end, field, dict, get, has_keys,
}
use tanaka.Host.{Host}
use tanaka.Cashier.Scope.{split_once, is_control}
use tanaka.Chef.Main.Handlers.{TextOps, Output, output, no_handler, value_error, handle}

abbrev pub required_keys : List String
required_keys =
    "ticket_id" ∷ "order_id" ∷ "capability_id" ∷ "behavior" ∷ "behavior_config" ∷ "scoped_args"
    ∷ "issued_ts" ∷ "cashier_sig" ∷ []

-- Goes on with a value, or ends the program with an exit code.
pub data Step (A : Type 0) : Type 0 where
  go : A → Step A
  stop : ℕ → Step A

infixl 5 ◌>>=◌
abbrev pub ◌>>=◌ : {A B : Type 0} → Step A → (A → Step B) → Step B
go a >>= f = f a
stop code >>= f = stop code

-- What `load_pem_public_key` makes of the file at argv[1].
pub data KeyFile (K : Type 0) : Type 0 where
  missing invalid other_key : KeyFile K
  ed25519 : K → KeyFile K

unfoldable pub the_key : {K : Type 0} → KeyFile K → Step K
the_key missing = stop 2
the_key invalid = stop 2
the_key other_key = stop 2
the_key (ed25519 key) = go key

unfoldable pub the_object : Option Json → Step Fields
the_object (some (obj fs)) = go fs
the_object _ = stop 2

unfoldable pub the_text : Option Json → Step String
the_text (some (str s)) = go s
the_text _ = stop 2

unfoldable pub check : Bool → ℕ → Step Unit
check true code = go tt
check false code = stop code

-- `scoped_args` holds one entry, and that is a text.
unfoldable pub one_text : Fields → Step String
one_text (field k (str s) end) = go s
one_text _ = stop 2

-- A ticket that has the right shape.
pub record ChefTicket : Type 0 where
  pub ticket_id : String
  pub order_id : String
  pub capability_id : String
  pub behavior : String
  pub behavior_config : Fields
  pub scoped_args : Fields
  pub issued_ts : String
  pub cashier_sig : String
  pub resource : String

-- Steps 1 and 2, for a stdin that is not empty: the JSON on stdin and its shape.
unfoldable pub read_ticket : Option Json → Step ChefTicket
unfolding the_object the_text one_text check
read_ticket parsed = do
  t ← the_object parsed
  _ ← check (has_keys required_keys t) 2
  ticket_id ← the_text (get "ticket_id" t)
  order_id ← the_text (get "order_id" t)
  capability_id ← the_text (get "capability_id" t)
  behavior ← the_text (get "behavior" t)
  issued_ts ← the_text (get "issued_ts" t)
  cashier_sig ← the_text (get "cashier_sig" t)
  behavior_config ← the_object (get "behavior_config" t)
  scoped_args ← the_object (get "scoped_args" t)
  resource ← one_text scoped_args
  go (record {
    ticket_id = ticket_id;
    order_id = order_id;
    capability_id = capability_id;
    behavior = behavior;
    behavior_config = behavior_config;
    scoped_args = scoped_args;
    issued_ts = issued_ts;
    cashier_sig = cashier_sig;
    resource = resource;
  })

unfoldable pub chef_signable : ChefTicket → Fields
chef_signable t = dict (
    ("ticket_id", str t.ticket_id)
    ∷ ("order_id", str t.order_id)
    ∷ ("capability_id", str t.capability_id)
    ∷ ("behavior", str t.behavior)
    ∷ ("behavior_config", obj t.behavior_config)
    ∷ ("scoped_args", obj t.scoped_args)
    ∷ ("issued_ts", str t.issued_ts)
    ∷ [])

-- The guard of step 4 on the text of the resource.
unfoldable pub split_resource : String → Step (String × String)
unfolding check
split_resource resource = elim (split_once resource) [
  | none ↦ stop 4
  | some (owner, local) ↦ do
    _ ← check (not (owner == "" || local == "")) 4
    _ ← check (not (has_code b'/' local || has_code 92 local || (local == "." || local == ".."))) 4
    _ ← check (not (any_code is_control resource)) 4
    go (owner, local)
]

-- `os.path` and the files, as the operating system has them at the time of the run. `commonpath`
-- is `none` for `ValueError`.
pub record FileSystem : Type 0 where
  pub realpath : String → String
  pub join : String → String → String
  pub commonpath : String → String → Option String
  pub isfile : String → Bool
  pub isdir : String → Bool
  pub read : String → String

-- The guard of step 4 on the paths: the file must lie below the owner's own directory.
unfoldable pub resolve : FileSystem → String → String × String → Step String
unfolding check
resolve fs fixtures_root_arg (owner, local) =
    let fixtures_root = fs.realpath fixtures_root_arg in
    let owner_dir = fs.realpath (fs.join fixtures_root owner) in
    let candidate = fs.realpath (fs.join owner_dir (concat local ".txt")) in
    elim (fs.commonpath owner_dir candidate) [
      | none ↦ stop 4
      | some common ↦ do
        _ ← check (common == owner_dir && not (candidate == owner_dir)) 4
        _ ← check (fs.isfile candidate) 4
        go candidate
    ]

pub data Effect : Type 0 where
  read_file : String → Effect
  make_dir : String → Effect
  write_file : String → String → Effect

pub record ChefExit : Type 0 where
  pub code : ℕ
  pub effects : List Effect

-- Steps 6 and 7, after the one read. An uncaught `ValueError` ends Python with the exit code 1.
unfoldable pub finish : TextOps → FileSystem → String → String → ChefTicket → ChefExit
finish ops fs out_dir candidate t =
    elim (handle ops t.behavior t.resource (fs.read candidate) t.behavior_config) [
      | no_handler ↦ record { code = 5; effects = read_file candidate ∷ [] }
      | value_error ↦ record { code = 1; effects = read_file candidate ∷ [] }
      | output text ↦ record {
        code = 0;
        effects =
            read_file candidate ∷ (if fs.isdir out_dir then [] else make_dir out_dir ∷ [])
            ++ write_file (fs.join out_dir "output.txt") text ∷ [];
      }
    ]

module _ (host : Host) where
  open host use {Bytes, PublicKey, dumps, loads, b64decode_strict, verify}

  -- Step 3: the security gate.
  unfoldable pub verify_ticket : PublicKey → ChefTicket → Step Unit
  unfolding check
  verify_ticket key t = elim (b64decode_strict t.cashier_sig) [
    | none ↦ stop 3
    | some sig ↦ check (verify key sig (dumps (obj (chef_signable t)))) 3
  ]

  -- Steps 1 to 4, which touch no file of the kitchen.
  unfoldable pub admit :
      FileSystem → KeyFile PublicKey → String → Option Json → Step (ChefTicket × String)
  admit fs key_file fixtures_root parsed = do
    t ← read_ticket parsed
    key ← the_key key_file
    _ ← verify_ticket key t
    parts ← split_resource t.resource
    candidate ← resolve fs fixtures_root parts
    go (t, candidate)

  unfoldable pub run_admitted :
      TextOps → FileSystem → String → Step (ChefTicket × String) → ChefExit
  run_admitted ops fs out_dir (stop code) = record { code = code; effects = [] }
  run_admitted ops fs out_dir (go (t, candidate)) = finish ops fs out_dir candidate t

  -- `main`, on the arguments after the program's name; an empty stdin does not parse.
  unfoldable pub main : TextOps → FileSystem → KeyFile PublicKey → List String → Bytes → ChefExit
  main ops fs key_file (pubkey_path ∷ fixtures_root ∷ out_dir ∷ []) stdin =
      run_admitted ops fs out_dir (admit fs key_file fixtures_root (loads stdin))
  main ops fs key_file _ stdin = record { code = 2; effects = [] }
