-- ===== src/Content/RoundTrip.antt =====
-- What is put is read back, under its own digest, and is never replaced.
use mathlib.Core.Path.{◌≡◌, refl, sym, ap, ◌∙◌}
use personal_computing_space.Shared.{
  String, Bool, true, false, ◌&&◌, arith, Option, none, some, ◌==◌, ==_iff, if◌then◌else◌,
  string_eq, option_eq,
}
use personal_computing_space.Content.Store.{
  Object, Bucket, Bytes, Text, ok, raised, ContentError, ContentRef, normalize_digest,
  digest_from_ref, key_of, put, expected_of, agrees, checked, get_at, get,
}
use personal_computing_space.Content.Honesty.{
  IsBucket, IsText, IsHonest, IsStored, put-IsStored, put-IsHonest, ref_to-digest, key_of-injective,
  some_inj,
}

module _ {B S : Type 0} (bytes : Bytes B) (bucket : Bucket B S) (text : Text) (folder : String)
    (lawful : IsBucket bucket) (textual : IsText bytes text) where
  abbrev key : B → String
  key content = key_of folder (bytes.digest content)

  checked_ok :
      (o : Object B) (digest : String)
      → bytes.digest o.body ≡ digest
      → checked bytes bucket text folder (some o) digest none ≡ ok o.body
  checked_ok o digest e = rw ((==_iff (bytes.digest o.body) digest).1 e) refl

  get_named :
      (ref : ContentRef) (digest : String) (t : S)
      → digest_from_ref text ref ≡ some digest
      → get bytes bucket text folder ref none t
        ≡ checked bytes bucket text folder (bucket.find (key_of folder digest) t) digest none
  unfolding get
  get_named ref digest t e =
      ap
        (λ d. elim d [
          | none ↦ raised ContentError.invalid_content_digest
          | some found ↦ get_at bytes bucket text folder (some none) found t
        ])
        e

  read_back :
      (content : B) (media_type : String) (ref : ContentRef) (t : S)
      → IsHonest bytes bucket text folder lawful textual t
      → IsStored bytes bucket text folder lawful textual content media_type t ref
      → (b : B) × ((get bytes bucket text folder ref none t ≡ ok b)
          × (bytes.digest b ≡ bytes.digest content))
  read_back content media_type ref t h st = (
    st.object.body,
    (
      get_named ref (bytes.digest content) t named
          ∙ ap (λ o. checked bytes bucket text folder o (bytes.digest content) none) st.is_there
          ∙ checked_ok st.object (bytes.digest content) own,
      own,
    ),
  )
    where
      named : digest_from_ref text ref ≡ some (bytes.digest content)
      named =
          ap (digest_from_ref text) st.is_named
          ∙ ref_to-digest bytes bucket text folder lawful textual content media_type

      own : bytes.digest st.object.body ≡ bytes.digest content
      own =
          key_of-injective folder (bytes.digest st.object.body) (bytes.digest content)
            (h.at_own_key (key content) st.object st.is_there)

  -- A `put` that returns, on a bucket where objects lie under their own digests, and which other clients
  -- keep so meanwhile: a `get` of the ref that it returned finds bytes, and they have the digest of
  -- what was put.
  pub put_then_get :
      (others : S → S) (content : B) (media_type : String) (s : S) (ref : ContentRef)
      → IsHonest bytes bucket text folder lawful textual s
      → IsHonest bytes bucket text folder lawful textual (others s)
      → (put bytes bucket text folder others content media_type s).1 ≡ ok ref
      → (b : B) × ((get bytes bucket text folder ref none
              ((put bytes bucket text folder others content media_type s).0)
            ≡ ok b)
          × (bytes.digest b ≡ bytes.digest content))
  put_then_get others content media_type s ref h i e =
      read_back content media_type ref _
        (put-IsHonest bytes bucket text folder lawful textual others content media_type s h i)
        (put-IsStored bytes bucket text folder lawful textual others content media_type s ref e)

  checked_digest :
      (o : Option (Object B)) (digest : String) (expected : Option String) (b : B)
      → checked bytes bucket text folder o digest expected ≡ ok b
      → (bytes.digest b ≡ digest)
        × (agrees bytes bucket text folder expected (bytes.digest b) ≡ true)
  checked_digest none digest expected b e = ground arith
  checked_digest (some o) digest expected b e =
      by_test (bytes.digest o.body == digest)
        (agrees bytes bucket text folder expected (bytes.digest o.body)) refl refl e
    where
      by_test :
          (x y : Bool)
          → (bytes.digest o.body == digest) ≡ x
          → agrees bytes bucket text folder expected (bytes.digest o.body) ≡ y
          → (if x && y then ok o.body else raised ContentError.content_digest_mismatch) ≡ ok b
          → (bytes.digest b ≡ digest)
            × (agrees bytes bucket text folder expected (bytes.digest b) ≡ true)
      by_test true true p q e = (
        ap bytes.digest (sym (body e)) ∙ (==_iff (bytes.digest o.body) digest).0 p,
        ap (λ c. agrees bytes bucket text folder expected (bytes.digest c)) (sym (body e)) ∙ q,
      )
        where
          body : ok o.body ≡ ok b → o.body ≡ b
          body e = ap (λ x. elim x [ ok c ↦ c | raised r ↦ o.body ]) e
      by_test true false p q e = ground arith
      by_test false y p q e = ground arith

  -- what `get` has checked of the bytes that it returns
  pub record IsAskedFor (ref : ContentRef) (expected : Option String) (b : B) : Type 0 where
    pub named : digest_from_ref text ref ≡ some (bytes.digest b)
    pub as_expected :
        (e : String) → expected ≡ some e → normalize_digest text e ≡ some (bytes.digest b)

  expected_digest :
      (n : Option String) (x : Option String) (a : String)
      → elim n [ none ↦ none | some d ↦ some (some d) ] ≡ some x
      → agrees bytes bucket text folder x a ≡ true
      → n ≡ some a
  expected_digest none x a q e = ground arith
  expected_digest (some d) none a q e = ground arith
  expected_digest (some d) (some y) a q e = ground (arith, ==_iff a y)

  asked :
      (ref : ContentRef) (expected : Option String) (s : S) (b : B) (d : Option String)
      (x : Option (Option String))
      → digest_from_ref text ref ≡ d
      → expected_of bytes bucket text folder expected ≡ x
      → elim d [
        | none ↦ raised ContentError.invalid_content_digest
        | some digest ↦ get_at bytes bucket text folder x digest s
      ]
        ≡ ok b
      → IsAskedFor ref expected b
  asked ref expected s b none x p q e = ground arith
  asked ref expected s b (some d) none p q e = ground arith
  asked ref none s b (some d) (some x) p q e = record {
    named = p ∙ ap some (sym (checked_digest (bucket.find (key_of folder d) s) d x b e).0);
    as_expected = λ y z. ground arith;
  }
  asked ref (some y) s b (some d) (some x) p q e = record {
    named = p ∙ ap some (sym (checked_digest (bucket.find (key_of folder d) s) d x b e).0);
    as_expected = λ z r.
        ap (normalize_digest text) (sym (some_inj r))
        ∙ expected_digest (normalize_digest text y) x (bytes.digest b) q
            (checked_digest (bucket.find (key_of folder d) s) d x b e).1;
  }

  -- Bytes that a `get` returns have the digest that the ref names, whatever lies in the bucket; and if the
  -- caller expects a digest, they have that one.
  pub get-IsAskedFor :
      (ref : ContentRef) (expected : Option String) (s : S) (b : B)
      → get bytes bucket text folder ref expected s ≡ ok b
      → IsAskedFor ref expected b
  unfolding get
  get-IsAskedFor ref expected s b e =
      asked ref expected s b (digest_from_ref text ref)
        (expected_of bytes bucket text folder expected) refl refl e

  again :
      (others : S → S) (content : B) (media_type : String) (ref : ContentRef) (t : S)
      → (media_type == "") ≡ false
      → IsStored bytes bucket text folder lawful textual content media_type t ref
      → put bytes bucket text folder others content media_type t ≡ (t, ok ref)
  unfolding put
  again others content media_type ref t h st =
      rw st.is_there (rw (st.is_valid h) (ap (λ x. (t, ok x)) (sym st.is_named)))

  -- A content that was put, put again with the same media type, which is not empty: the same ref is returned and nothing is
  -- written, whatever other clients do meanwhile.
  pub put_again :
      (others later : S → S) (content : B) (media_type : String) (s : S) (ref : ContentRef)
      → (media_type == "") ≡ false
      → (put bytes bucket text folder others content media_type s).1 ≡ ok ref
      → put bytes bucket text folder later content media_type
          ((put bytes bucket text folder others content media_type s).0)
        ≡ ((put bytes bucket text folder others content media_type s).0, ok ref)
  put_again others later content media_type s ref h e =
      again later content media_type ref _ h
        (put-IsStored bytes bucket text folder lawful textual others content media_type s ref e)
