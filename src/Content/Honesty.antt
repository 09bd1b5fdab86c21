-- ===== src/Content/Honesty.antt =====
-- What the content store keeps of its bucket, and what is read back from it.
use mathlib.Core.Path.{◌≡◌, refl, sym, ap, ◌∙◌}
use Prim.Native.String.{◌++◌ as append}
use text.Mathlib.TextLemmas.{append_cancel_left}
use text.Mathlib.TextPositions.{starts_with-append, slice-append_right, len-append}
use personal_computing_space.Shared.{
  String, Bool, true, false, not, arith, Option, none, some, ◌==◌, ==_iff, if◌then◌else◌, nat_eq,
  string_eq, option_eq, is_some, string_beq,
}
use personal_computing_space.Content.Store.{
  Object, Bucket, Bytes, Text, ok, raised, ContentError, ContentRef, remove_prefix, content_prefix,
  normalize_digest, digest_from_ref, key_of, validate_head, ref_to, object_of, accept_head,
  accept_put, put_after, put,
}

-- A bucket with conditional writes: one that finds the key taken changes nothing.
pub record IsBucket {B S : Type 0} (bucket : Bucket B S) : Type 0 where
  pub find_create :
      (k j : String) (o : Object B) (s : S)
      → bucket.find j ((bucket.create k o s).0) ≡ (
          if is_some (bucket.find k s)
          then bucket.find j s
          else if k == j
          then some o
          else bucket.find j s)
  pub create_writes :
      (k : String) (o : Object B) (s : S)
      → (bucket.create k o s).1 ≡ not (is_some (bucket.find k s))

-- A digest is 64 lower case hexadecimal digits, so there is nothing to strip around it.
pub record IsText {B : Type 0} (bytes : Bytes B) (text : Text) : Type 0 where
  pub matches : (b : B) → text.is_sha256 (bytes.digest b) ≡ true
  pub is_lower : (b : B) → text.lower (bytes.digest b) ≡ bytes.digest b
  pub nothing_stripped :
      (b : B)
      → text.strip (append content_prefix (bytes.digest b)) ≡ append content_prefix (bytes.digest b)

remove_prefix-append : (before t : String) → remove_prefix before (append before t) ≡ t
unfolding remove_prefix
remove_prefix-append before t =
    rw (starts_with-append before t) (rw (len-append before t) (slice-append_right before t))

pub some_inj : {A : Type 0} {a b : A} → some a ≡ some b → a ≡ b
some_inj {a = a} e = ap (λ o. elim o [ none ↦ a | some x ↦ x ]) e

pub key_of-injective : (folder d e : String) → key_of folder d ≡ key_of folder e → d ≡ e
key_of-injective folder d e = by_folder (folder == "")
  where
    by_folder :
        (b : Bool)
        → (if b then d else append folder (append "/" d))
          ≡ (if b then e else append folder (append "/" e))
        → d ≡ e
    by_folder true h = h
    by_folder false h =
        append_cancel_left "/" d e (append_cancel_left folder (append "/" d) (append "/" e) h)

module _ {B S : Type 0} (bytes : Bytes B) (bucket : Bucket B S) (text : Text) (folder : String)
    (lawful : IsBucket bucket) (textual : IsText bytes text) where
  -- every object lies under the key of its own bytes
  pub record IsHonest (s : S) : Type 0 where
    pub at_own_key :
        (k : String) (o : Object B)
        → bucket.find k s ≡ some o
        → key_of folder (bytes.digest o.body) ≡ k

  -- the key of a content
  abbrev key : B → String
  key content = key_of folder (bytes.digest content)

  normalize_name :
      (content : B)
      → normalize_digest text (append content_prefix (bytes.digest content))
        ≡ some (bytes.digest content)
  unfolding normalize_digest
  normalize_name content = rw (textual.nothing_stripped content) (
      rw (starts_with-append content_prefix (bytes.digest content)) (
        rw (remove_prefix-append content_prefix (bytes.digest content))
          (rw (textual.matches content) (rw (textual.is_lower content) refl))))

  pub ref_to-digest :
      (content : B) (media_type : String)
      → digest_from_ref text (ref_to (bytes.digest content) media_type)
        ≡ some (bytes.digest content)
  unfolding digest_from_ref string_beq
  ref_to-digest content media_type = normalize_name content

  -- what a `put` that returns has left: an object whose head is right
  pub record IsStored (content : B) (media_type : String) (s : S) (ref : ContentRef) : Type 0 where
    pub object : Object B
    pub is_there : bucket.find (key content) s ≡ some object
    pub is_valid :
        (media_type == "") ≡ false
        → validate_head bytes object (bytes.digest content) (bytes.size content) media_type ≡ true
    pub is_named : ref ≡ ref_to (bytes.digest content) media_type

  own_head :
      (content : B) (media_type : String)
      → (media_type == "") ≡ false
      → validate_head bytes
          (object_of bytes content media_type)
          (bytes.digest content)
          (bytes.size content)
          media_type
        ≡ true
  unfolding validate_head
  own_head content media_type h =
      rw ((==_iff (some (bytes.digest content)) (some (bytes.digest content))).1 refl) (
        rw ((==_iff (bytes.size content) (bytes.size content)).1 refl)
          (rw h ((==_iff media_type media_type).1 refl)))

  accepted :
      (content : B) (media_type : String) (s : S) (ref : ContentRef) (o : Option (Object B))
      → bucket.find (key content) s ≡ o
      → accept_head bytes bucket text folder o content media_type ≡ ok ref
      → IsStored content media_type s ref
  accepted content media_type s ref none f e = ground arith
  accepted content media_type s ref (some o) f e =
      by_head (validate_head bytes o (bytes.digest content) (bytes.size content) media_type) refl e
    where
      by_head :
          (b : Bool)
          → validate_head bytes o (bytes.digest content) (bytes.size content) media_type ≡ b
          → (if b
              then ok (ref_to (bytes.digest content) media_type)
              else raised ContentError.content_integrity_conflict)
            ≡ ok ref
          → IsStored content media_type s ref
      by_head true v e = record {
        object = o;
        is_there = f;
        is_valid = λ h. v;
        is_named = ground arith;
      }
      by_head false v e = ground arith

  put_result :
      (content : B) (media_type : String) (ref : ContentRef) (s : S) (p : S × Bool)
      → (p.1 ≡ true → bucket.find (key content) (p.0) ≡ some (object_of bytes content media_type))
      → (accept_put bytes bucket text folder p content media_type).1 ≡ ok ref
      → IsStored content media_type
          ((accept_put bytes bucket text folder p content media_type).0)
          ref
  put_result content media_type ref s (t, true) f e = record {
    object = object_of bytes content media_type;
    is_there = f refl;
    is_valid = own_head content media_type;
    is_named = ground arith;
  }
  put_result content media_type ref s (t, false) f e =
      accepted content media_type t ref (bucket.find (key content) t) refl e

  wrote :
      (content : B) (media_type : String) (s : S)
      → (bucket.create (key content) (object_of bytes content media_type) s).1 ≡ true
      → bucket.find
          (key content)
          ((bucket.create (key content) (object_of bytes content media_type) s).0)
        ≡ some (object_of bytes content media_type)
  wrote content media_type s e =
      lawful.find_create (key content) (key content) (object_of bytes content media_type) s
      ∙ by_key (is_some (bucket.find (key content) s))
          (sym (lawful.create_writes (key content) (object_of bytes content media_type) s) ∙ e)
    where
      by_key :
          (b : Bool)
          → not b ≡ true
          → (if b
              then bucket.find (key content) s
              else if key content == key content
              then some (object_of bytes content media_type)
              else bucket.find (key content) s)
            ≡ some (object_of bytes content media_type)
      by_key true n = ground arith
      by_key false n = rw ((==_iff (key content) (key content)).1 refl) refl

  stored_after :
      (others : S → S) (content : B) (media_type : String) (s : S) (ref : ContentRef)
      (o : Option (Object B))
      → bucket.find (key content) s ≡ o
      → (put_after bytes bucket text folder others o content media_type s).1 ≡ ok ref
      → IsStored content media_type
          ((put_after bytes bucket text folder others o content media_type s).0)
          ref
  stored_after others content media_type s ref none f e =
      put_result content media_type ref s _ (wrote content media_type (others s)) e
  stored_after others content media_type s ref (some o) f e =
      accepted content media_type s ref (some o) f e

  pub put-IsStored :
      (others : S → S) (content : B) (media_type : String) (s : S) (ref : ContentRef)
      → (put bytes bucket text folder others content media_type s).1 ≡ ok ref
      → IsStored content media_type
          ((put bytes bucket text folder others content media_type s).0)
          ref
  unfolding put
  put-IsStored others content media_type s ref e =
      stored_after others content media_type s ref (bucket.find (key content) s) refl e

  create-IsHonest :
      (content : B) (media_type : String) (s : S)
      → IsHonest s
      → IsHonest ((bucket.create (key content) (object_of bytes content media_type) s).0)
  create-IsHonest content media_type s h = record {
    at_own_key = λ k o f.
        by_key k o (is_some (bucket.find (key content) s)) (key content == k) refl
          (sym (lawful.find_create (key content) k (object_of bytes content media_type) s) ∙ f);
  }
    where
      by_key :
          (k : String) (o : Object B) (b c : Bool)
          → (key content == k) ≡ c
          → (if b
              then bucket.find k s
              else if c
              then some (object_of bytes content media_type)
              else bucket.find k s)
            ≡ some o
          → key_of folder (bytes.digest o.body) ≡ k
      by_key k o true c q f = h.at_own_key k o f
      by_key k o false false q f = h.at_own_key k o f
      by_key k o false true q f =
          ap (λ (x : Object B). key_of folder (bytes.digest x.body)) (sym (some_inj f))
          ∙ (==_iff (key content) k).0 q

  IsHonest-after :
      (others : S → S) (content : B) (media_type : String) (s : S) (o : Option (Object B))
      → IsHonest s
      → IsHonest (others s)
      → IsHonest ((put_after bytes bucket text folder others o content media_type s).0)
  IsHonest-after others content media_type s (some o) h i = h
  IsHonest-after others content media_type s none h i =
      either (bucket.create (key content) (object_of bytes content media_type) (others s))
        (create-IsHonest content media_type (others s) i)
    where
      either :
          (p : S × Bool)
          → IsHonest (p.0)
          → IsHonest ((accept_put bytes bucket text folder p content media_type).0)
      either (t, true) j = j
      either (t, false) j = j

  -- A bucket in which every object lies under the key of the digest of its bytes stays so under a `put`, whether
  -- it returns or raises, if what other clients write meanwhile keeps it so.
  pub put-IsHonest :
      (others : S → S) (content : B) (media_type : String) (s : S)
      → IsHonest s
      → IsHonest (others s)
      → IsHonest ((put bytes bucket text folder others content media_type s).0)
  unfolding put
  put-IsHonest others content media_type s h i =
      IsHonest-after others content media_type s (bucket.find (key content) s) h i
