-- ===== src/Tests/SignedAuthExamples.antt =====
-- A signed request to the console, with numbers written as tallies.
use Prim.Native.Char.{code}
use tanaka.Prelude.{
  ℕ, zero, suc, String, ◌≡◌, ◌==◌, refl, ap, sym, ◌∙◌, eq_iff, Bool-cases, inl, inr, false, Option,
  none, some, List, [], ◌∷◌, eqb, ℤ, pos, negsuc, arith, if◌then◌else◌,
}
use tanaka.Console.SignedAuth.{
  Numerals, KeyEntry, Headers, skew, signing_bytes, sign_headers, verify_request,
}
use tanaka.Console.SignedAuth.Laws.{
  IsAuthentic, verify_request-IsAuthentic, verify_request-sign_headers,
}
use tanaka.Tests.ToyHost.{raw, toy, to_text, sign, hash}

unfoldable pub tally : ℕ → String
tally zero = String.[]
tally (suc n) = String.◌∷◌ "1" (tally n)

unfoldable pub count : String → ℕ
count String.[] = 0
count (String.◌∷◌ _ s) = suc (count s)

count-tally : (n : ℕ) → count (tally n) ≡ n
unfolding count tally
count-tally zero = refl
count-tally (suc n) = ap suc (count-tally n)

unfoldable pub written : ℤ → String
unfolding tally
written (pos n) = String.◌∷◌ "+" (tally n)
written (negsuc n) = String.◌∷◌ "-" (tally n)

unfoldable pub read_back : String → Option ℤ
unfolding count
read_back String.[] = none
read_back (String.◌∷◌ c s) =
    if eqb (code c) b'+' then some (pos (count s)) else some (negsuc (count s))

pub read_back-written : (n : ℤ) → read_back (written n) ≡ some n
unfolding read_back written
read_back-written (pos n) = ap (λ m. some (pos m)) (count-tally n)
read_back-written (negsuc n) = ap (λ m. some (negsuc m)) (count-tally n)

pub written-nonempty : (n : ℤ) → (written n == "") ≡ false
unfolding read_back
written-nonempty n = elim (Bool-cases (written n == "")) [
  | inl p ↦
      let empty : written n ≡ "" = (eq_iff (written n) "").0 p in
      let gone : ◌≡◌ {A = Option ℤ} (some n) none =
        sym (read_back-written n) ∙ ap read_back empty in
      cc gone
  | inr q ↦ q
]

abbrev pub tallies : Numerals
tallies = record {
  upper = λ s. s;
  decimal = written;
  int_of = read_back;
  int_of-decimal = read_back-written;
  decimal-nonempty = written-nonempty;
}

abbrev pub registry : List (String × KeyEntry String)
registry = ("author.aiko", record { public_key = "key"; role = "author" }) ∷ []

abbrev headers : Headers
headers = sign_headers toy tallies "key" "author.aiko" "POST" "/publish" (raw "body") 100

signature_nonempty :
    (to_text (
        sign "key"
          (signing_bytes toy tallies "POST" "/publish" "author.aiko" (pos 100) (raw "body")))
      == "")
    ≡ false
unfolding to_text sign signing_bytes hash written tally
signature_nonempty = refl

headers_accepted :
    verify_request toy tallies registry "POST" "/publish" (raw "body") headers 160
    ≡ some (record { id = "author.aiko"; role = "author" })
unfolding skew
headers_accepted =
    verify_request-sign_headers toy tallies registry "key" "author.aiko" "author" "POST" "/publish"
      (raw "body") 100 160 refl signature_nonempty refl (omega arith)

verify_request-sign_headers_example :
    verify_request toy tallies registry "POST" "/publish" (raw "body") headers 160
    ≡ some (record { id = "author.aiko"; role = "author" })
unfolding skew
verify_request-sign_headers_example =
    verify_request-sign_headers toy tallies registry "key" "author.aiko" "author" "POST" "/publish"
      (raw "body") 100 160 refl signature_nonempty refl (omega arith)

verify_request-IsAuthentic_example :
    IsAuthentic toy tallies registry "POST" "/publish"
      (raw "body")
      headers
      160
      (record { id = "author.aiko"; role = "author" })
verify_request-IsAuthentic_example =
    verify_request-IsAuthentic toy tallies registry "POST" "/publish" (raw "body") headers 160 _
      headers_accepted
