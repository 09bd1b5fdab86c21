-- ===== src/Content/Tests.antt =====
-- A bucket held as a list, with contents put and read back.
use mathlib.Core.Path.{◌≡◌, refl}
use personal_computing_space.Shared.{
  String, Bool, true, false, not, arith, none, some, [], ◌∷◌, ◌==◌, if◌then◌else◌, string_eq,
  is_some, string_beq,
}
use personal_computing_space.Shared.Dict.{Dict, lookup, insert, lookup-insert}
use personal_computing_space.Content.Store.{
  Object, Bucket, Bytes, Text, ok, put, get, ref_to, object_of, normalize_digest, digest_from_ref,
  remove_prefix,
}
use personal_computing_space.Content.Honesty.{IsBucket, IsText, IsHonest, put-IsHonest}
use personal_computing_space.Content.RoundTrip.{IsAskedFor, put_then_get, get-IsAskedFor, put_again}

abbrev Files : Type 0
Files = Dict String (Object String)

abbrev file_bucket : Bucket String Files
file_bucket = record {
  find = lookup;
  create = λ k o s. if is_some (lookup k s) then (s, false) else (insert k o s, true);
}

file_bucket-IsBucket : IsBucket file_bucket
file_bucket-IsBucket = record {
  find_create = λ k j o s. by_key k j o s (is_some (lookup k s));
  create_writes = λ k o s. by_writing k o s (is_some (lookup k s));
}
  where
    by_key :
        (k j : String) (o : Object String) (s : Files) (b : Bool)
        → lookup j ((if◌then◌else◌ {A = Files × Bool} b (s, false) (insert k o s, true)).0)
          ≡ (if b then lookup j s else if k == j then some o else lookup j s)
    by_key k j o s true = refl
    by_key k j o s false = lookup-insert k j o s

    by_writing :
        (k : String) (o : Object String) (s : Files) (b : Bool)
        → (if◌then◌else◌ {A = Files × Bool} b (s, false) (insert k o s, true)).1 ≡ not b
    by_writing k o s true = refl
    by_writing k o s false = refl

-- texts that are their own digests, in place of SHA-256
abbrev own_bytes : Bytes String
own_bytes = record { digest = λ b. b; size = λ b. 1 }

abbrev plain_text : Text
plain_text = record { strip = λ s. s; lower = λ s. s; is_sha256 = λ s. true }

plain_text-IsText : IsText own_bytes plain_text
plain_text-IsText = record {
  matches = λ b. refl;
  is_lower = λ b. refl;
  nothing_stripped = λ b. refl;
}

abbrev nobody : Files → Files
nobody s = s

empty-IsHonest :
    IsHonest own_bytes file_bucket plain_text "" file_bucket-IsBucket plain_text-IsText []
unfolding lookup
empty-IsHonest = record { at_own_key = λ k o f. ground arith }

put_content :
    (put own_bytes file_bucket plain_text "" nobody "abc" "text/plain" []).1
    ≡ ok (ref_to "abc" "text/plain")
unfolding put lookup
put_content = refl

put_then_get_example :
    (b : String) × ((get own_bytes file_bucket plain_text ""
          (ref_to "abc" "text/plain")
          none
          ((put own_bytes file_bucket plain_text "" nobody "abc" "text/plain" []).0)
        ≡ ok b)
      × (b ≡ "abc"))
put_then_get_example =
    put_then_get own_bytes file_bucket plain_text "" file_bucket-IsBucket plain_text-IsText nobody
      "abc" "text/plain" [] (ref_to "abc" "text/plain") empty-IsHonest empty-IsHonest put_content

is_typed : ◌==◌ {A = String} "text/plain" "" ≡ false
unfolding string_beq
is_typed = refl

put_again_example :
    put own_bytes file_bucket plain_text "" nobody "abc" "text/plain"
      ((put own_bytes file_bucket plain_text "" nobody "abc" "text/plain" []).0)
    ≡ (
      (put own_bytes file_bucket plain_text "" nobody "abc" "text/plain" []).0,
      ok (ref_to "abc" "text/plain"),
    )
put_again_example =
    put_again own_bytes file_bucket plain_text "" file_bucket-IsBucket plain_text-IsText nobody
      nobody "abc" "text/plain" [] (ref_to "abc" "text/plain") is_typed put_content

abbrev with_content : Files
with_content = ("abc", object_of own_bytes "abc" "text/plain") ∷ []

got_content :
    get own_bytes file_bucket plain_text "" (ref_to "abc" "text/plain") (some "abc") with_content
    ≡ ok "abc"
unfolding get digest_from_ref normalize_digest remove_prefix lookup string_beq
got_content = refl

get-IsAskedFor_example :
    IsAskedFor own_bytes file_bucket plain_text "" file_bucket-IsBucket plain_text-IsText
      (ref_to "abc" "text/plain")
      (some "abc")
      "abc"
get-IsAskedFor_example =
    get-IsAskedFor own_bytes file_bucket plain_text "" file_bucket-IsBucket plain_text-IsText
      (ref_to "abc" "text/plain") (some "abc") with_content "abc" got_content

put-IsHonest_example :
    IsHonest own_bytes file_bucket plain_text "" file_bucket-IsBucket plain_text-IsText
      ((put own_bytes file_bucket plain_text "" nobody "abc" "text/plain" []).0)
put-IsHonest_example =
    put-IsHonest own_bytes file_bucket plain_text "" file_bucket-IsBucket plain_text-IsText nobody
      "abc" "text/plain" [] empty-IsHonest empty-IsHonest
