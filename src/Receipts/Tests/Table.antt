-- ===== src/Receipts/Tests/Table.antt =====
-- A table of receipts in memory, which meets the laws that the repository relies on: a list of rows in
-- which an earlier row hides a later one of the same key.
use mathlib.Core.Option.{some-injective}
use personal_computing_space.Shared.{
  ℕ, String, ◌≡◌, refl, Bool, true, false, Option, none, some, List, [], ◌∷◌, arith, ◌==◌,
  if◌then◌else◌, string_eq, pair_eq, ==_iff, Bool-cases, inl, inr, ap, ◌⊎◌,
}
use personal_computing_space.Shared.Lists.{In, any}
use personal_computing_space.Receipts.Defs.{
  MessageReceipt, Key, key, Added, added, conflict, ReceiptTable,
}
use personal_computing_space.Receipts.Rules.{fresh_receipt}
use personal_computing_space.Receipts.Decisions.{IsValid}

abbrev pub Rows : Type 0
Rows = List MessageReceipt

unfoldable pub get_row : Rows → Key → Option MessageReceipt
get_row [] k = none
get_row (r ∷ rows) k = if key r == k then some r else get_row rows k

unfoldable pub add_row : Rows → MessageReceipt → Added Rows
add_row rows r = elim (get_row rows (key r)) [ none ↦ added (r ∷ rows) | some w ↦ conflict rows w ]

unfoldable pub update_row : Rows → MessageReceipt → Rows
update_row rows r = r ∷ rows

-- The rows that satisfy the test and whose keys have not been seen.
unfoldable pub select_from : List Key → Rows → (MessageReceipt → Bool) → List MessageReceipt
select_from seen [] p = []
select_from seen (r ∷ rows) p =
    let hidden = any (λ k. k == key r) seen in
    let rest = select_from (key r ∷ seen) rows p in
    if hidden then rest else if p r then r ∷ rest else rest

pub get-added :
    (rows rows' : Rows) (r : MessageReceipt) (k : Key)
    → add_row rows r ≡ added rows'
    → get_row rows' k ≡ (if key r == k then some r else get_row rows k)
unfolding add_row get_row
get-added rows rows' r k h = ground arith

pub get-lost :
    (rows rows' : Rows) (r winner : MessageReceipt) (k : Key)
    → add_row rows r ≡ conflict rows' winner
    → get_row rows' k ≡ (if key r == k then some winner else get_row rows k)
unfolding add_row
get-lost rows rows' r winner k h = ground (arith, ==_iff (key r) k)

pub get-updated :
    (rows : Rows) (r : MessageReceipt) (k : Key)
    → get_row (update_row rows r) k ≡ (if key r == k then some r else get_row rows k)
unfolding get_row update_row
get-updated rows r k = refl

pub row-key : (rows : Rows) (k : Key) (r : MessageReceipt) → get_row rows k ≡ some r → key r ≡ k
unfolding get_row
row-key [] k r h = cc
row-key (x ∷ rows) k r h = ground (arith, row-key rows k r, ==_iff (key x) k)

module _ (p : MessageReceipt → Bool) (r : MessageReceipt) where
  abbrev pub unseen : List Key → Bool
  unseen seen = any (λ k. k == key r) seen

  pub select_sound :
      (seen : List Key) (rows : Rows)
      → In r (select_from seen rows p)
      → (unseen seen ≡ false) × (get_row rows (key r) ≡ some r) × (p r ≡ true)
  unfolding get_row select_from
  select_sound seen [] m = elim m [ ]
  select_sound seen (x ∷ rows) m = elim (Bool-cases (any (λ k. k == key x) seen)) [
    | inl e ↦ below (select_sound (key x ∷ seen) rows (rw e at m))
    | inr e ↦ elim (Bool-cases (p x)) [
      | inl t ↦ elim (at_head e t m) [
        | inl same ↦ ground (
          arith,
          ap key same,
          ap p same,
          ==_iff (key x) (key r),
          e,
          t,
          ap (λ (k : Key). any (λ j. j == k) seen) (ap key same),
        )
        | inr m' ↦ below (select_sound (key x ∷ seen) rows m')
      ]
      | inr f ↦ below (select_sound (key x ∷ seen) rows (in_rest e f m))
    ]
  ]
    where
      below :
          (unseen (key x ∷ seen) ≡ false) × (get_row rows (key r) ≡ some r) × (p r ≡ true)
          → (unseen seen ≡ false) × (get_row (x ∷ rows) (key r) ≡ some r) × (p r ≡ true)
      below (u, g, h) = (ground arith, ground arith, h)

      at_head :
          any (λ k. k == key x) seen ≡ false
          → p x ≡ true
          → In r (select_from seen (x ∷ rows) p)
          → (x ≡ r) ⊎ In r (select_from (key x ∷ seen) rows p)
      at_head e t m = rw (e, t) at m

      in_rest :
          any (λ k. k == key x) seen ≡ false
          → p x ≡ false
          → In r (select_from seen (x ∷ rows) p)
          → In r (select_from (key x ∷ seen) rows p)
      in_rest e f m = rw (e, f) at m

  pub select_complete :
      (seen : List Key) (rows : Rows)
      → unseen seen ≡ false
      → get_row rows (key r) ≡ some r
      → p r ≡ true
      → In r (select_from seen rows p)
  unfolding get_row select_from
  select_complete seen [] u g h = cc
  select_complete seen (x ∷ rows) u g h = elim (Bool-cases (key x == key r)) [
    | inl e ↦
        let same : x ≡ r = some-injective _ _ (rw e at g) in
        let fresh : any (λ k. k == key x) seen ≡ false = rw ((==_iff (key x) (key r)).0 e) u in
        rw (fresh, same, h) (inl refl)
    | inr e ↦
        let rest = select_complete (key x ∷ seen) rows (rw (e, u) refl) (rw e at g) h in
        elim (Bool-cases (any (λ k. k == key x) seen)) [
          | inl hidden ↦ rw hidden rest
          | inr shown ↦ elim (Bool-cases (p x)) [
            | inl t ↦ rw (shown, t) (inr rest)
            | inr f ↦ rw (shown, f) rest
          ]
        ]
  ]

abbrev pub memory_table : ReceiptTable
memory_table = record {
  Rows = Rows;
  get = get_row;
  add = add_row;
  update = update_row;
  select = select_from [];
  get-add = get-added;
  get-conflict = get-lost;
  get-update = get-updated;
  get-key = row-key;
  select_iff = λ rows p r. (
    λ m. let (u, g, h) = select_sound p r [] rows m in (g, h),
    λ (g, h). select_complete p r [] rows refl g h,
  );
}

-- A table with another process, which is about to create a receipt: with the conversation and the prompt that
-- are given, under the key of the next row that is inserted here.
abbrev pub Contested : Type 0
Contested = Rows × Option (ℕ × (String × String))

abbrev pub rival_row : Key → ℕ × (String × String) → MessageReceipt
rival_row k (now, (c, prompt)) = fresh_receipt now k c prompt

abbrev contested_add :
    Option (ℕ × (String × String)) → MessageReceipt → Added Rows → Added Contested
contested_add rival r (conflict rows w) = conflict (rows, rival) w
contested_add none r (added rows) = added (rows, none)
contested_add (some x) r (added rows) =
    conflict (update_row rows (rival_row (key r) x), none) (rival_row (key r) x)

unfoldable pub add_contested : Contested → MessageReceipt → Added Contested
add_contested (rows, rival) r = contested_add rival r (add_row rows r)

pub contested_added :
    (t t' : Contested) (r : MessageReceipt) (k : Key)
    → add_contested t r ≡ added t'
    → get_row t'.0 k ≡ (if key r == k then some r else get_row t.0 k)
unfolding add_contested add_row get_row
contested_added (rows, none) t' r k h = ground arith
contested_added (rows, some x) t' r k h = ground arith

pub contested_lost :
    (t t' : Contested) (r winner : MessageReceipt) (k : Key)
    → add_contested t r ≡ conflict t' winner
    → get_row t'.0 k ≡ (if key r == k then some winner else get_row t.0 k)
unfolding add_contested add_row get_row update_row
contested_lost (rows, none) t' r winner k h = ground (arith, ==_iff (key r) k)
contested_lost (rows, some x) t' r winner k h = ground (arith, ==_iff (key r) k)

pub contested-IsValid :
    (t t' : Contested) (r winner : MessageReceipt)
    → get_row t.0 (key r) ≡ none
    → add_contested t r ≡ conflict t' winner
    → IsValid winner
unfolding add_contested add_row
contested-IsValid (rows, none) t' r winner g h = ground arith
contested-IsValid (rows, some (n, (c, p))) t' r winner g h = ground arith

abbrev pub contested_table : ReceiptTable
contested_table = record {
  Rows = Contested;
  get = λ t k. get_row t.0 k;
  add = add_contested;
  update = λ t r. (update_row t.0 r, t.1);
  select = λ t p. select_from [] t.0 p;
  get-add = contested_added;
  get-conflict = contested_lost;
  get-update = λ t r k. get-updated t.0 r k;
  get-key = λ t k r. row-key t.0 k r;
  select_iff = λ t p r. memory_table.select_iff t.0 p r;
}
