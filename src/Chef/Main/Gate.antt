-- ===== src/Chef/Main/Gate.antt =====
-- What must hold before the chef's program touches a file, and which files those are.
use tanaka.Prelude.{
  ℕ, String, ◌≡◌, ◌≢◌, refl, ap, Bool, true, false, ◌&&◌, ◌||◌, ◌==◌, not, Option, some, eq_iff,
  arith, Option-cases, inl, inr,
}
use tanaka.Prelude.Texts.{concat, any_code, has_code}
use tanaka.Json.{Json, null, str, obj, Fields, end, field}
use tanaka.Host.{Host}
use tanaka.Cashier.Scope.{split_once, is_control, local_unsafe}
use tanaka.Cashier.Scope.Laws.{scoped_name, split_once_sound, IsComponent, local_unsafe_iff}
use tanaka.Chef.Main.{
  Step, go, stop, ◌>>=◌, KeyFile, missing, invalid, other_key, ed25519, the_key, one_text, check,
  ChefTicket, read_ticket, chef_signable, split_resource, FileSystem, resolve, verify_ticket, admit,
}

bind_inv :
    {A B : Type 0} (m : Step A) (f : A → Step B) {b : B}
    → (m >>= f) ≡ go b
    → (a : A) × (m ≡ go a) × (f a ≡ go b)
bind_inv (go a) f h = (a, refl, h)
bind_inv (stop code) f h = cc

check_inv : (b : Bool) (code : ℕ) {u : Unit {0}} → check b code ≡ go u → b ≡ true
unfolding check
check_inv true code h = refl
check_inv false code h = cc

the_key_inv : {K : Type 0} (file : KeyFile K) {key : K} → the_key file ≡ go key → file ≡ ed25519 key
unfolding the_key
the_key_inv missing h = cc
the_key_inv invalid h = cc
the_key_inv other_key h = cc
the_key_inv (ed25519 k) h = cc

-- The name "<owner>/<local>" of one file of one owner.
pub record IsFileName (resource owner local : String) : Type 0 where
  pub named : resource ≡ scoped_name owner local
  pub owner_nonempty : owner ≢ ""
  pub owner_no_slash : has_code b'/' owner ≡ false
  pub component : IsComponent local
  pub printable : any_code is_control resource ≡ false

pub split_resource_sound :
    (resource owner local : String)
    → split_resource resource ≡ go (owner, local)
    → IsFileName resource owner local
unfolding split_resource local_unsafe
split_resource_sound resource owner local h = elim (Option-cases (split_once resource)) [
  | inl nowhere ↦ cc (rw (nowhere, split_resource) at h)
  | inr ((o, l), there) ↦
      let h₀ = rw (there, split_resource) at h in
      let (_, p₁, h₁) = bind_inv (check (not (o == "" || l == "")) 4) _ h₀ in
      let (_, p₂, h₂) =
        bind_inv (check (not (has_code b'/' l || has_code 92 l || (l == "." || l == ".."))) 4) _
          h₁ in
      let (_, p₃, h₃) = bind_inv (check (not (any_code is_control resource)) 4) _ h₂ in
      let q₁ = check_inv _ 4 p₁ in
      let q₂ = check_inv _ 4 p₂ in
      let q₃ = check_inv _ 4 p₃ in
      let parts : ◌≡◌ {A = String × String} (o, l) (owner, local) = cc h₃ in
      let same_owner : o ≡ owner = ap (λ p. p.0) parts in
      let same_local : l ≡ local = ap (λ p. p.1) parts in
      let (named, clear) = split_once_sound resource o l there in
      rw (← same_owner, ← same_local)
        (record {
          named = named;
          owner_nonempty = ground (arith, eq_iff o "");
          owner_no_slash = clear;
          component = (local_unsafe_iff l).0 (ground arith);
          printable = ground arith;
        })
]

-- The directory of an owner, and the file of a name in it, under a fixtures root.
abbrev pub owner_dir : FileSystem → String → String → String
owner_dir fs root owner = fs.realpath (fs.join (fs.realpath root) owner)

-- A path that is a file below the directory of `owner`, and is the file called `local` there.
pub record IsBelow (fs : FileSystem) (root owner local path : String) : Type 0 where
  pub path_is : path ≡ fs.realpath (fs.join (owner_dir fs root owner) (concat local ".txt"))
  pub inside : fs.commonpath (owner_dir fs root owner) path ≡ some (owner_dir fs root owner)
  pub not_the_dir : path ≢ owner_dir fs root owner
  pub is_file : fs.isfile path ≡ true

pub resolve_sound :
    (fs : FileSystem) (root owner local path : String)
    → resolve fs root (owner, local) ≡ go path
    → IsBelow fs root owner local path
unfolding resolve
resolve_sound fs root owner local path h =
    let dir = owner_dir fs root owner in
    let found = fs.realpath (fs.join dir (concat local ".txt")) in
    elim (Option-cases (fs.commonpath dir found)) [
      | inl nowhere ↦ cc (rw (nowhere, resolve) at h)
      | inr (common, there) ↦
          let h₀ = rw (there, resolve) at h in
          let (_, p₁, h₁) = bind_inv (check (common == dir && not (found == dir)) 4) _ h₀ in
          let (_, p₂, h₂) = bind_inv (check (fs.isfile found) 4) _ h₁ in
          let q₁ = check_inv _ 4 p₁ in
          let q₂ = check_inv _ 4 p₂ in
          let same : found ≡ path = cc h₂ in
          let is_dir : common ≡ dir = ground (arith, eq_iff common dir) in
          rw (← same) (record {
            path_is = refl;
            inside = rw is_dir at there;
            not_the_dir = ground (arith, eq_iff found dir);
            is_file = q₂;
          })
    ]

-- `read_ticket` takes its resource from `scoped_args`, which holds nothing else.
one_text_inv :
    (args : Fields) {s : String}
    → one_text args ≡ go s
    → (k : String) × (args ≡ field k (str s) end)
unfolding one_text
one_text_inv end h = cc
one_text_inv (field k (str s) end) h = (k, ap (λ t. field k (str t) end) (cc h))
one_text_inv (field k (str s) (field _ _ _)) h = cc
one_text_inv (field k null fs) h = cc
one_text_inv (field k _ fs) h = cc

module _ (host : Host) where
  open host use {PublicKey, dumps, b64decode_strict, verify}

  -- A ticket that was read from the text, is signed by the key, and names the file of an owner
  -- that is at `path`.
  pub record Admitted (fs : FileSystem) (key_file : KeyFile PublicKey) (root : String)
      (parsed : Option Json) (t : ChefTicket) (path : String) : Type 0 where
    pub was_read : read_ticket parsed ≡ go t
    pub key : PublicKey
    pub key_is : key_file ≡ ed25519 key
    pub sig : host.Bytes
    pub sig_is : b64decode_strict t.cashier_sig ≡ some sig
    pub signed : verify key sig (dumps (obj (chef_signable t))) ≡ true
    pub owner : String
    pub local : String
    pub file_name : IsFileName t.resource owner local
    pub below : IsBelow fs root owner local path

  verify_ticket_inv :
      (key : PublicKey) (t : ChefTicket) {u : Unit {0}}
      → verify_ticket host key t ≡ go u
      → (sig : host.Bytes) × (b64decode_strict t.cashier_sig ≡ some sig)
        × (verify key sig (dumps (obj (chef_signable t))) ≡ true)
  unfolding verify_ticket
  verify_ticket_inv key t h = elim (Option-cases (b64decode_strict t.cashier_sig)) [
    | inl nothing ↦ cc (rw (nothing, verify_ticket) at h)
    | inr (sig, there) ↦ (sig, there, check_inv _ 3 (rw (there, verify_ticket) at h))
  ]

  pub admit_sound :
      (fs : FileSystem) (key_file : KeyFile PublicKey) (root : String) (parsed : Option Json)
      (t : ChefTicket) (path : String)
      → admit host fs key_file root parsed ≡ go (t, path)
      → Admitted fs key_file root parsed t path
  unfolding admit
  admit_sound fs key_file root parsed t path h =
      let (t', e₁, h₁) = bind_inv (read_ticket parsed) _ h in
      let (key, e₂, h₂) = bind_inv (the_key key_file) _ h₁ in
      let (_, e₃, h₃) = bind_inv (verify_ticket host key t') _ h₂ in
      let ((owner, local), e₄, h₄) = bind_inv (split_resource t'.resource) _ h₃ in
      let (path', e₅, h₅) = bind_inv (resolve fs root (owner, local)) _ h₄ in
      let both : ◌≡◌ {A = ChefTicket × String} (t', path') (t, path) = cc h₅ in
      let same_ticket : t' ≡ t = ap (λ p. p.0) both in
      let same_path : path' ≡ path = ap (λ p. p.1) both in
      let (sig, sig_is, signed) = verify_ticket_inv key t' e₃ in
      rw (← same_ticket, ← same_path)
        (record {
          was_read = e₁;
          key = key;
          key_is = the_key_inv key_file e₂;
          sig = sig;
          sig_is = sig_is;
          signed = signed;
          owner = owner;
          local = local;
          file_name = split_resource_sound t'.resource owner local e₄;
          below = resolve_sound fs root owner local path' e₅;
        })
