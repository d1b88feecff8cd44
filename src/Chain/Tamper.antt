-- ===== src/Chain/Tamper.antt =====
-- Chains that end at the same head.
use tanaka.Prelude.{
  String, ◌≡◌, ◌≢◌, refl, ap, sym, ◌∙◌, Option, none, some, List, [], ◌∷◌, ◌⊎◌, inl, inr, length,
  arith,
}
use tanaka.Json.{Json, obj, str, get, without, is_text-eq}
use tanaka.Json.Sort.{sort_keys, sort_fields}
use tanaka.Json.Sort.Lookup.{sorted_value, get-sort_fields, get-without}
use tanaka.Host.{Host}
use tanaka.Chain.{Table, excluded_keys}
use tanaka.Chain.Spec.{Chained}
use tanaka.Chain.Append.{Passed, check_row-Passed}

-- What a row says, as a value of Python: its fields apart from the hash and the signature, with
-- the order of the keys forgotten.
module _ (host : Host) where
  open host use {Bytes, loads, dumps, sha256, bytes_discrete, loads-dumps}

  abbrev content_of : Option Json → Option Json
  content_of (some (obj row)) = some (sort_keys (obj (without excluded_keys row)))
  content_of _ = none

  abbrev pub SameContents : Table Bytes → Table Bytes → Type 0
  SameContents [] [] = Unit
  SameContents ((_, text) ∷ rows) ((_, text') ∷ rows') =
      (content_of (loads text) ≡ content_of (loads text')) × SameContents rows rows'
  SameContents _ _ = ⊥

  -- The bytes that a row's hash was taken of.
  abbrev hashed_text : Option Json → Option Bytes
  hashed_text (some (obj row)) = some (dumps (obj (without excluded_keys row)))
  hashed_text _ = none

  -- Somewhere at one place of both tables two different contents have one SHA-256 hash.
  abbrev pub HasCollision : Table Bytes → Table Bytes → Type 0
  HasCollision ((_, text) ∷ rows) ((_, text') ∷ rows') =
      ((a : Bytes) × (b : Bytes) × (hashed_text (loads text) ≡ some a)
        × (hashed_text (loads text') ≡ some b)
        × (a ≢ b)
        × (sha256 a ≡ sha256 b))
      ⊎ HasCollision rows rows'
  HasCollision _ _ = ⊥

  dumps_injective : (a b : Json) → dumps a ≡ dumps b → sort_keys a ≡ sort_keys b
  dumps_injective a b e = cc (loads-dumps a, loads-dumps b, ap loads e)

  module _ (keys : List String) (key : host.PublicKey) where
    sorted_prev :
        {prev h : String} {text : Bytes} (p : Passed host keys key prev text h)
        → get "prev_hash" (sort_fields (without excluded_keys p.row)) ≡ some (sort_keys (str prev))
    sorted_prev {prev = prev} p =
        get-sort_fields "prev_hash" (without excluded_keys p.row)
        ∙ ap sorted_value (
            get-without "prev_hash" excluded_keys p.row refl
            ∙ is_text-eq (get "prev_hash" p.row) prev p.names_prev)

    same_content :
        {prev prev' h h' : String} {text text' : Bytes}
        → Passed host keys key prev text h
        → Passed host keys key prev' text' h'
        → h ≡ h'
        → ((content_of (loads text) ≡ content_of (loads text')) × (prev ≡ prev'))
          ⊎ ((a : Bytes) × (b : Bytes) × (hashed_text (loads text) ≡ some a)
              × (hashed_text (loads text') ≡ some b)
              × (a ≢ b)
              × (sha256 a ≡ sha256 b))
    unfolding sort_keys
    same_content {prev} {prev'} p q e =
        let a = dumps (obj (without excluded_keys p.row)) in
        let b = dumps (obj (without excluded_keys q.row)) in
        elim (bytes_discrete a b) [
          | yes equal ↦
              let same =
                dumps_injective (obj (without excluded_keys p.row))
                  (obj (without excluded_keys q.row)) equal in
              inl (rw (p.parsed, q.parsed) (ap some same), cc (same, sorted_prev p, sorted_prev q))
          | no differ ↦ inr (a, b, rw p.parsed, rw q.parsed, differ, sym p.hashed ∙ e ∙ q.hashed)
        ]

    -- Two chains of one length that end in the same hash start from the same hash and say the
    -- same, row by row, or two contents at one place collide under SHA-256.
    pub same_head-SameContents :
        (rows rows' : Table Bytes) (start start' last : String)
        → length rows ≡ length rows'
        → Chained host keys key rows start last
        → Chained host keys key rows' start' last
        → ((start ≡ start') × SameContents rows rows') ⊎ HasCollision rows rows'
    same_head-SameContents [] [] start start' last l c d = inl (c ∙ sym d, tt)
    same_head-SameContents [] (r ∷ rows') start start' last l c d = absurd (omega arith)
    same_head-SameContents (r ∷ rows) [] start start' last l c d = absurd (omega arith)
    same_head-SameContents ((seq, text) ∷ rows) ((seq', text') ∷ rows') start start' last l
          (h, c, cs) (h', d, ds) =
        elim (same_head-SameContents rows rows' h h' last (omega arith) cs ds) [
          | inl (e, rest) ↦
              elim (same_content (check_row-Passed host keys key start text c)
                (check_row-Passed host keys key start' text' d) e) [
                  | inl (same, prevs) ↦ inl (prevs, (same, rest))
                  | inr collision ↦ inr (inl collision)
                ]
          | inr collision ↦ inr (inr collision)
        ]
