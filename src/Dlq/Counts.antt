-- ===== src/Dlq/Counts.antt =====
-- How often an id stands among the items of a plan, and what the updates do to that.
use intern_notifs.Base.{
  ℕ, ◌+◌, ◌≤◌, ◌≡◌, refl, ◌∙◌, String, Bool, true, false, List, [], ◌∷◌, ◌++◌, map, keep, arith,
  any, get_or, str_eq, eq_iff, if◌then◌else◌,
}
use intern_notifs.Base.Table.{lookup, put}
use intern_notifs.Dlq.Plan.{DlqName, ItemRow, Sent}
use intern_notifs.Dlq.Message.{Texts}
use intern_notifs.Dlq.Apply.{
  Services, Work, is_open, is_pending, ids_of, set_replayed, set_purged, all_replayed, by_source,
  with_item, works, single_work, catalog_work,
}

abbrev pub count : String → List String → ℕ
count id [] = 0
count id (k ∷ rest) = (if str_eq k id then 1 else 0) + count id rest

abbrev pub rows : String → List ItemRow → ℕ
rows id items = count id (ids_of items)

abbrev pub open_count : String → List ItemRow → ℕ
open_count id items = count id (ids_of (keep is_open items))

abbrev pub pending_count : String → List ItemRow → ℕ
pending_count id items = count id (ids_of (keep is_pending items))

-- How often the item was sent.
abbrev pub times_sent : String → List (Sent × List String) → ℕ
times_sent id [] = 0
times_sent id (entry ∷ rest) = count id entry.1 + times_sent id rest

abbrev pub work_count : String → List Work → ℕ
work_count id [] = 0
work_count id (w ∷ rest) = count id w.ids + work_count id rest

abbrev pub is_in : String → List String → Bool
is_in id known = any (λ k. str_eq k id) known

pub count_in : (id : String) (xs : List String) → is_in id xs ≡ false → count id xs ≡ 0
count_in id [] h = refl
count_in id (x ∷ xs) h = ground (arith, count_in id xs)

pub count_positive : (id : String) (xs : List String) → is_in id xs ≡ true → 1 ≤ count id xs
count_positive id [] h = ground arith
count_positive id (x ∷ xs) h = ground (arith, count_positive id xs)

pub keep-le :
    (id : String) (p : ItemRow → Bool) (items : List ItemRow)
    → rows id (keep p items) ≤ rows id items
keep-le id p [] = omega arith
keep-le id p (i ∷ rest) = ground (arith, keep-le id p rest)

pub set_replayed-rows :
    (now : ℕ) (id k : String) (items : List ItemRow)
    → rows id (set_replayed now k items) ≡ rows id items
set_replayed-rows now id k [] = refl
set_replayed-rows now id k (i ∷ rest) = ground (arith, set_replayed-rows now id k rest)

pub set_replayed-pending :
    (now : ℕ) (id k : String) (items : List ItemRow)
    → pending_count id (set_replayed now k items) ≡ pending_count id items
set_replayed-pending now id k [] = refl
set_replayed-pending now id k (i ∷ rest) = ground (arith, set_replayed-pending now id k rest)

set_replayed-open :
    (now : ℕ) (id k : String) (items : List ItemRow)
    → open_count id (set_replayed now k items) ≡ (if str_eq k id then 0 else open_count id items)
set_replayed-open now id k [] = ground arith
set_replayed-open now id k (i ∷ rest) = ground (
  arith,
  set_replayed-open now id k rest,
  eq_iff i.message_id k,
  eq_iff i.message_id id,
  eq_iff k id,
)

pub set_purged-rows :
    (now : ℕ) (id k : String) (items : List ItemRow)
    → rows id (set_purged now k items) ≡ rows id items
set_purged-rows now id k [] = refl
set_purged-rows now id k (i ∷ rest) = ground (arith, set_purged-rows now id k rest)

pub set_purged-open :
    (now : ℕ) (id k : String) (items : List ItemRow)
    → open_count id (set_purged now k items) ≡ open_count id items
set_purged-open now id k [] = refl
set_purged-open now id k (i ∷ rest) = ground (arith, set_purged-open now id k rest)

pub set_purged-pending :
    (now : ℕ) (id k : String) (items : List ItemRow)
    → pending_count id (set_purged now k items)
      ≡ (if str_eq k id then 0 else pending_count id items)
set_purged-pending now id k [] = ground arith
set_purged-pending now id k (i ∷ rest) = ground (
  arith,
  set_purged-pending now id k rest,
  eq_iff i.message_id k,
  eq_iff i.message_id id,
  eq_iff k id,
)

pub all_replayed-rows :
    (now : ℕ) (id : String) (ks : List String) (items : List ItemRow)
    → rows id (all_replayed now ks items) ≡ rows id items
all_replayed-rows now id [] items = refl
all_replayed-rows now id (k ∷ ks) items =
    all_replayed-rows now id ks (set_replayed now k items) ∙ set_replayed-rows now id k items

pub all_replayed-pending :
    (now : ℕ) (id : String) (ks : List String) (items : List ItemRow)
    → pending_count id (all_replayed now ks items) ≡ pending_count id items
all_replayed-pending now id [] items = refl
all_replayed-pending now id (k ∷ ks) items =
    all_replayed-pending now id ks (set_replayed now k items) ∙ set_replayed-pending now id k items

pub all_replayed-open :
    (now : ℕ) (id : String) (ks : List String) (items : List ItemRow)
    → open_count id (all_replayed now ks items) ≡ (if is_in id ks then 0 else open_count id items)
all_replayed-open now id [] items = refl
all_replayed-open now id (k ∷ ks) items = ground (
  arith,
  all_replayed-open now id ks (set_replayed now k items),
  set_replayed-open now id k items,
)

count-append : (id : String) (xs ys : List String) → count id (xs ++ ys) ≡ count id xs + count id ys
count-append id [] ys = omega arith
count-append id (x ∷ xs) ys = ground (arith, count-append id xs ys)

abbrev table_count : String → List (String × List String) → ℕ
table_count id [] = 0
table_count id (entry ∷ rest) = count id entry.1 + table_count id rest

put-count :
    (id k x : String) (table : List (String × List String))
    → table_count id (put table k (get_or (lookup table k) [] ++ x ∷ []))
      ≡ table_count id table + (if str_eq x id then 1 else 0)
unfolding put lookup
put-count id k x [] = ground arith
put-count id k x ((j, xs) ∷ rest) =
    ground (arith, put-count id k x rest, count-append id xs (x ∷ []))

module _ (texts : Texts) (services : Services) where
  by_source-count :
      (id : String) (table : List (String × List String)) (items : List ItemRow)
      → table_count id (by_source texts services table items) ≡ table_count id table + rows id items
  unfolding by_source
  by_source-count id table [] = ground arith
  by_source-count id table (i ∷ rest) = ground (
    arith,
    by_source-count id (with_item texts services table i) rest,
    put-count id (get_or i.source_id "null") i.message_id table,
  )

  catalog-count :
      (id : String) (table : List (String × List String))
      → work_count id (map (catalog_work texts services) table) ≡ table_count id table
  catalog-count id [] = refl
  catalog-count id (entry ∷ rest) = ground (arith, catalog-count id rest)

  single-count :
      (id : String) (items : List ItemRow)
      → work_count id (map (single_work texts services) items) ≡ rows id items
  single-count id [] = refl
  single-count id (i ∷ rest) = ground (arith, single-count id rest)

  -- The work to be sent stands for each open item once.
  pub works-count :
      (id : String) (name : DlqName) (items : List ItemRow)
      → work_count id (works texts services name items) ≡ open_count id items
  unfolding works
  works-count id name items = ground (
    arith,
    catalog-count id (by_source texts services [] (keep is_open items)),
    by_source-count id [] (keep is_open items),
    single-count id (keep is_open items),
  )
