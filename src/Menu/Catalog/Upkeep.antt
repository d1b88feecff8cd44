-- ===== src/Menu/Catalog/Upkeep.antt =====
-- menu/catalog.py: the files of a directory after one was added, written again or removed.
use tanaka.Prelude.{
  String, ◌==◌, ◌≡◌, refl, subst, ◌∙◌, eq_iff, Option, none, some, [], ◌∷◌, ◌++◌, lookup, insert,
  lookup-insert, All, All-append, arith, Bool-cases, inl, inr, if◌then◌else◌,
}
use tanaka.Json.{Json}
use tanaka.Menu.Catalog.{Files, remove_file}
use tanaka.Menu.Catalog.Directory.{IsCapabilityFile, IsUnique, IsMenuDir}

pub lookup-append :
    (k n : String) (c : Option Json) (files : Files)
    → lookup n files ≡ none
    → lookup k (files ++ (n, c) ∷ []) ≡ (if n == k then some c else lookup k files)
lookup-append k n c [] h = refl
lookup-append k n c ((m, d) ∷ files) h =
    ground
      (arith, h, lookup-append k n c files (ground (arith, h)), eq_iff m k, eq_iff n k, eq_iff m n)

pub lookup-remove_file :
    (k n : String) (files : Files)
    → lookup k (remove_file n files) ≡ (if n == k then none else lookup k files)
unfolding remove_file
lookup-remove_file k n [] = ground arith
lookup-remove_file k n ((m, d) ∷ files) =
    ground (arith, lookup-remove_file k n files, eq_iff m k, eq_iff n k, eq_iff m n)

pub All-lookup :
    (P : String × Option Json → Type 0) (n : String) (c : Option Json) (files : Files)
    → All P files
    → lookup n files ≡ some c
    → P (n, c)
All-lookup P n c [] h e = cc e
All-lookup P n c ((m, d) ∷ files) h e = elim (Bool-cases (m == n)) [
  | inl same ↦
      let kept : some d ≡ some c = rw same at e in
      let both : (m, d) ≡ (n, c) = cc (kept, (eq_iff m n).0 same) in subst P both h.0
  | inr other ↦ All-lookup P n c files h.1 (rw other at e)
]

pub IsMenuDir-append :
    (n : String) (c : Option Json) (files : Files)
    → lookup n files ≡ none
    → IsCapabilityFile (n, c)
    → IsMenuDir files
    → IsMenuDir (files ++ (n, c) ∷ [])
IsMenuDir-append n c files h file d = record {
  all_capabilities = All-append IsCapabilityFile files ((n, c) ∷ []) d.all_capabilities (file, tt);
  unique = go files h d.unique;
}
  where
    go : (files : Files) → lookup n files ≡ none → IsUnique files → IsUnique (files ++ (n, c) ∷ [])
    go [] h u = (refl, tt)
    go ((m, e) ∷ files) h u = (
      lookup-append m n c files (ground (arith, h))
          ∙ ground (arith, h, u.0, eq_iff n m, eq_iff m n),
      go files (ground (arith, h)) u.1,
    )

pub IsMenuDir-insert :
    (n : String) (c : Option Json) (files : Files)
    → IsCapabilityFile (n, c)
    → IsMenuDir files
    → IsMenuDir (insert n c files)
IsMenuDir-insert n c [] file d = record { all_capabilities = (file, tt); unique = (refl, tt) }
IsMenuDir-insert n c ((m, e) ∷ files) file d = elim (Bool-cases (m == n)) [
  | inl same ↦ rw same (record {
    all_capabilities = (file, d.all_capabilities.1);
    unique = (rw ((eq_iff m n).0 same) at d.unique.0, d.unique.1);
  })
  | inr other ↦
      let rest =
        IsMenuDir-insert n c files file
          (record { all_capabilities = d.all_capabilities.1; unique = d.unique.1 }) in
      rw other (record {
        all_capabilities = (d.all_capabilities.0, rest.all_capabilities);
        unique = (
          lookup-insert n m c files ∙ ground (arith, other, d.unique.0, eq_iff n m, eq_iff m n),
          rest.unique,
        );
      })
]

pub IsMenuDir-remove_file :
    (n : String) (files : Files) → IsMenuDir files → IsMenuDir (remove_file n files)
unfolding remove_file
IsMenuDir-remove_file n [] d = d
IsMenuDir-remove_file n ((m, c) ∷ files) d =
    let rest =
      IsMenuDir-remove_file n files
        (record { all_capabilities = d.all_capabilities.1; unique = d.unique.1 }) in
    elim (Bool-cases (m == n)) [
      | inl same ↦ rw same rest
      | inr other ↦ rw other (record {
        all_capabilities = (d.all_capabilities.0, rest.all_capabilities);
        unique = (lookup-remove_file m n files ∙ ground (arith, d.unique.0), rest.unique);
      })
    ]
