-- ===== src/Content/Store.antt =====
-- `ContentStore`: put, get, exists and stat, over an S3 bucket. The bucket, SHA-256 and methods of Python's
-- `str` are arguments.
use Prim.Native.String.{◌++◌ as append, len, slice}
use text.Mathlib.Text.{starts_with}
use personal_computing_space.Shared.{
  ℕ, String, Bool, true, false, ◌&&◌, Option, none, some, ◌==◌, if◌then◌else◌, nat_eq, string_eq,
  option_eq, is_some,
}

-- An object of the bucket: its bytes, and the "sha256" of its metadata, in lower case.
pub record Object (B : Type 0) : Type 0 where
  pub body : B
  pub content_type : String
  pub metadata_digest : Option String

-- The bucket: what is found under a key (head_object and get_object show its head and its body), and
-- put_object with IfNoneMatch="*", which says whether it wrote.
pub record Bucket (B S : Type 0) : Type 0 where
  pub find : String → S → Option (Object B)
  pub create : String → Object B → S → S × Bool

-- hashlib.sha256 in hexadecimal, and len
pub record Bytes (B : Type 0) : Type 0 where
  pub digest : B → String
  pub size : B → ℕ

-- Methods of Python's `str`, and the match of _DIGEST_RE.
pub record Text : Type 0 where
  pub strip : String → String
  pub lower : String → String
  pub is_sha256 : String → Bool

pub data ContentError : Type 0 where
  invalid_content_digest content_integrity_conflict content_digest_mismatch : ContentError
  content_not_found not_found : ContentError

pub data Reply (A : Type 0) : Type 0 where
  ok : A → Reply A
  raised : ContentError → Reply A

-- The ref that `put` returns.
pub record ContentRef : Type 0 where
  pub resource_id : String
  pub identity_criterion : Option String
  pub media_type : Option String

pub record ContentStat : Type 0 where
  pub stat_size : ℕ
  pub declared_digest : Option String
  pub stat_type : String
  pub integrity_verified : Bool

-- value.removeprefix(before)
unfoldable pub remove_prefix : String → String → String
remove_prefix before value =
    if starts_with value before then slice value (len before) (len value) else value

abbrev pub content_prefix : String
content_prefix = "content://sha256/"

module _ (text : Text) where
  abbrev unprefixed : String → String
  unprefixed raw =
      if starts_with raw content_prefix
      then remove_prefix content_prefix raw
      else if starts_with raw "sha256:"
      then remove_prefix "sha256:" raw
      else raw

  -- `_normalize_digest`; `none` is "invalid_content_digest"
  unfoldable pub normalize_digest : String → Option String
  normalize_digest value =
      if text.is_sha256 (unprefixed (text.strip value))
      then some (text.lower (unprefixed (text.strip value)))
      else none

  -- ref.identity_criterion in {None, "content_digest"}
  abbrev is_content : Option String → Bool
  is_content none = true
  is_content (some c) = c == "content_digest"

  unfoldable pub digest_from_ref : ContentRef → Option String
  digest_from_ref ref =
      if is_content ref.identity_criterion then normalize_digest ref.resource_id else none

-- `_key`
abbrev pub key_of : String → String → String
key_of folder digest = if folder == "" then digest else append folder (append "/" digest)

abbrev pub ref_to : String → String → ContentRef
ref_to digest media_type = record {
  resource_id = append content_prefix digest;
  identity_criterion = some "content_digest";
  media_type = some media_type;
}

-- str(head.get("ContentType") or "application/octet-stream")
abbrev pub type_or_default : String → String
type_or_default t = if t == "" then "application/octet-stream" else t

module _ {B : Type 0} (bytes : Bytes B) where
  -- `_validate_head`
  unfoldable pub validate_head : Object B → String → ℕ → String → Bool
  validate_head o digest size media_type =
      (o.metadata_digest == some digest)
      && (bytes.size o.body == size)
      && (type_or_default o.content_type == media_type)

  abbrev pub object_of : B → String → Object B
  object_of content media_type = record {
    body = content;
    content_type = media_type;
    metadata_digest = some (bytes.digest content);
  }

module _ {B S : Type 0} (bytes : Bytes B) (bucket : Bucket B S) (text : Text)
    (folder : String) where
  -- what `put` makes of an object that is there
  abbrev pub accept_head : Option (Object B) → B → String → Reply ContentRef
  accept_head none content media_type = raised not_found
  accept_head (some o) content media_type =
      if validate_head bytes o (bytes.digest content) (bytes.size content) media_type
      then ok (ref_to (bytes.digest content) media_type)
      else raised content_integrity_conflict

  -- put_object, and the look at what another writer put first
  abbrev pub accept_put : S × Bool → B → String → S × Reply ContentRef
  accept_put (s, true) content media_type = (s, ok (ref_to (bytes.digest content) media_type))
  accept_put (s, false) content media_type =
      (s, accept_head (bucket.find (key_of folder (bytes.digest content)) s) content media_type)

  -- a key that was free is written, unless another writer was faster
  abbrev pub put_after : (S → S) → Option (Object B) → B → String → S → S × Reply ContentRef
  put_after others (some o) content media_type s = (s, accept_head (some o) content media_type)
  put_after others none content media_type s =
      accept_put
        (bucket.create (key_of folder (bytes.digest content)) (object_of bytes content media_type)
          (others s))
        content media_type

  -- `others` is what other clients do between the look at the key and the write
  unfoldable pub put : (S → S) → B → String → S → S × Reply ContentRef
  put others content media_type s =
      put_after others (bucket.find (key_of folder (bytes.digest content)) s) content media_type s

  -- the digest that the caller expects; one that is none is a mismatch
  abbrev pub expected_of : Option String → Option (Option String)
  expected_of none = some none
  expected_of (some value) = elim (normalize_digest text value) [
    | none ↦ none
    | some d ↦ some (some d)
  ]

  abbrev pub agrees : Option String → String → Bool
  agrees none actual = true
  agrees (some expected) actual = actual == expected

  abbrev pub checked : Option (Object B) → String → Option String → Reply B
  checked none digest expected = raised content_not_found
  checked (some o) digest expected =
      if (bytes.digest o.body == digest) && agrees expected (bytes.digest o.body)
      then ok o.body
      else raised content_digest_mismatch

  abbrev pub get_at : Option (Option String) → String → S → Reply B
  get_at none digest s = raised content_digest_mismatch
  get_at (some expected) digest s = checked (bucket.find (key_of folder digest) s) digest expected

  unfoldable pub get : ContentRef → Option String → S → Reply B
  get ref expected s = elim (digest_from_ref text ref) [
    | none ↦ raised invalid_content_digest
    | some digest ↦ get_at (expected_of expected) digest s
  ]

  unfoldable pub exists : ContentRef → S → Reply Bool
  exists ref s = elim (digest_from_ref text ref) [
    | none ↦ raised invalid_content_digest
    | some digest ↦ ok (is_some (bucket.find (key_of folder digest) s))
  ]

  abbrev stat_of : String → Object B → ContentStat
  stat_of digest o = record {
    stat_size = bytes.size o.body;
    declared_digest = o.metadata_digest;
    stat_type = o.content_type;
    integrity_verified = o.metadata_digest == some digest;
  }

  unfoldable pub stat : ContentRef → S → Reply (Option ContentStat)
  stat ref s = elim (digest_from_ref text ref) [
    | none ↦ raised invalid_content_digest
    | some digest ↦ ok (elim (bucket.find (key_of folder digest) s) [
      | none ↦ none
      | some o ↦ some (stat_of digest o)
    ])
  ]
