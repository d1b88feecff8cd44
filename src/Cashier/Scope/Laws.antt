-- ===== src/Cashier/Scope/Laws.antt =====
-- The scope test against a description of the names that it should let through.
use Prim.Native.Char.{Char, code}
use Prim.Native.String
use text.Mathlib.TextEquality.{Char-path}
use text.Mathlib.TextLemmas.{nil-append, cons-append}
use tanaka.Prelude.{
  String, ◌==◌, ◌≡◌, ◌≢◌, ◌↔◌, refl, ap, sym, true, false, ◌&&◌, ◌||◌, not, Option, none, some,
  eq_iff, eq_refl, arith, eqb, Bool-cases, Option-cases, inl, inr,
}
use tanaka.Prelude.Texts.{any_code, has_code}
use tanaka.Json.{Json, null, str}
use tanaka.Cashier.Scope.{split_once, is_control, local_unsafe, owned_by, in_scope}

abbrev slash : Char
slash = "/"

-- `"<owner>/<local>"`
abbrev pub scoped_name : String → String → String
scoped_name owner local = String.◌++◌ owner (String.◌∷◌ slash local)

pub split_once-scoped_name :
    (owner local : String)
    → has_code b'/' owner ≡ false
    → split_once (scoped_name owner local) ≡ some (owner, local)
unfolding split_once
split_once-scoped_name String.[] local h = rw nil-append
split_once-scoped_name (String.◌∷◌ c s) local h =
    rw cons-append (ground (arith, split_once-scoped_name s local))

pub split_once_sound :
    (text owner local : String)
    → split_once text ≡ some (owner, local)
    → (text ≡ scoped_name owner local) × (has_code b'/' owner ≡ false)
unfolding split_once
split_once_sound String.[] owner local h = cc
split_once_sound (String.◌∷◌ c s) owner local h = elim (Bool-cases (eqb (code c) b'/')) [
  | inl p ↦
      let here : ◌≡◌ {A = Option (String × String)} (some (String.[], s)) (some (owner, local)) =
        rw (p, split_once) at h in
      let no_owner : owner ≡ String.[] = cc here in
      let rest : local ≡ s = cc here in
      let is_slash : c ≡ slash = Char-path c slash (ground arith) in
      (rw (no_owner, rest, is_slash) (sym (nil-append _)), rw no_owner refl)
  | inr q ↦ elim (Option-cases (split_once s)) [
    | inl nowhere ↦ cc (rw (q, nowhere, split_once) at h)
    | inr ((o, l), there) ↦
        let found : ◌≡◌ {A = Option (String × String)} (some (String.◌∷◌ c o, l))
            (some (owner, local)) =
          rw (q, there, split_once) at h in
        let with_head : owner ≡ String.◌∷◌ c o = cc found in
        let rest : local ≡ l = cc found in
        let (split, clear) = split_once_sound s o l there in
        (rw (with_head, rest, split) (sym (cons-append _ _ _)), rw (with_head, q) clear)
  ]
]

-- A single path component: no separator, and neither of the names that leave the directory.
pub record IsComponent (local : String) : Type 0 where
  pub nonempty : local ≢ ""
  pub no_slash : has_code b'/' local ≡ false
  pub no_backslash : has_code 92 local ≡ false
  pub not_here : local ≢ "."
  pub not_parent : local ≢ ".."

pub local_unsafe_iff : (local : String) → (local_unsafe local ≡ false) ↔ IsComponent local
unfolding local_unsafe
local_unsafe_iff local = (
  λ h. ground (arith, eq_iff local "", eq_iff local ".", eq_iff local ".."),
  λ h. ground (arith, h, eq_iff local "", eq_iff local ".", eq_iff local ".."),
)

-- The name of a resource that belongs to `principal`: "<principal>/<local>" with one component
-- after the slash and no control character anywhere.
pub record IsOwn (principal resource : String) : Type 0 where
  pub local : String
  pub named : resource ≡ scoped_name principal local
  pub principal_nonempty : principal ≢ ""
  pub principal_no_slash : has_code b'/' principal ≡ false
  pub component : IsComponent local
  pub printable : any_code is_control resource ≡ false

owned_by_sound :
    (principal resource : String)
    → owned_by principal resource (split_once resource) ≡ true
    → IsOwn principal resource
unfolding owned_by
owned_by_sound principal resource h = elim (Option-cases (split_once resource)) [
  | inl nowhere ↦ cc (rw (nowhere, owned_by) at h)
  | inr ((owner, local), there) ↦
      let (named, clear) = split_once_sound resource owner local there in
      let test : (not (any_code is_control resource)
            && not (owner == "" || not (owner == principal) || local_unsafe local))
          ≡ true =
        rw (there, owned_by) at h in
      let same : owner ≡ principal = ground (arith, eq_iff owner principal) in
      record {
        local = local;
        named = rw same at named;
        principal_nonempty = ground (arith, eq_iff owner "");
        principal_no_slash = rw same at clear;
        component = (local_unsafe_iff local).0 (ground arith);
        printable = ground arith;
      }
]

owned_by_complete :
    (principal resource : String)
    → IsOwn principal resource
    → owned_by principal resource (split_once resource) ≡ true
unfolding owned_by
owned_by_complete principal resource own =
    rw (own.named, split_once-scoped_name principal own.local own.principal_no_slash, owned_by)
      (ground (
        arith,
        ap (any_code is_control) own.named,
        own.printable,
        own.principal_nonempty,
        eq_refl principal,
        eq_iff principal "",
        (local_unsafe_iff own.local).1 own.component,
      ))

-- The scope test lets a value of the arguments through exactly when it is a text that names a
-- resource of the principal.
pub in_scope_iff :
    (principal : String) (value : Option Json) (resource : String)
    → (in_scope principal value ≡ some resource)
      ↔ ((value ≡ some (str resource)) × IsOwn principal resource)
unfolding in_scope
in_scope_iff principal value resource = (sound value, λ (e, own). complete own e)
  where
    sound :
        (v : Option Json)
        → in_scope principal v ≡ some resource
        → (v ≡ some (str resource)) × IsOwn principal resource
    sound none h = cc
    sound (some (str s)) h = elim (Bool-cases (owned_by principal s (split_once s))) [
      | inl p ↦
          let same : s ≡ resource = cc (rw p at h) in
          (ap (λ t. some (str t)) same, rw (← same) (owned_by_sound principal s p))
      | inr q ↦ cc (rw q at h)
    ]
    sound (some null) h = cc
    sound (some _) h = cc

    complete :
        IsOwn principal resource
        → value ≡ some (str resource)
        → in_scope principal value ≡ some resource
    complete own e = rw (e, in_scope, owned_by_complete principal resource own)
