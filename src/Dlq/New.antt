-- ===== src/Dlq/New.antt =====
-- A plan that `planDlq` makes is new: nothing is sent or disposed of, and no id stands in it twice.
use intern_notifs.Base.{
  ℕ, ◌+◌, ◌≤◌, ◌≡◌, refl, sym, ap, ◌∙◌, String, Bool, true, false, List, [], ◌∷◌, map, keep, arith,
  is_some, str_eq, eq_iff, if◌then◌else◌, Result, err, ok, ok_or, bind_splits, All,
}
use mathlib.Core.Path.{subst}
use intern_notifs.Base.Table.{lookup, put, lookup-put}
use intern_notifs.Base.Sets.{distinct, unique_by, set_all}
use intern_notifs.Dlq.Plan.{
  DlqName, Operation, ItemRow, Repair, PeekedMessage, DlqError, selection_drift, queue_not_allowed,
  action_invalid,
}
use intern_notifs.Dlq.Message.{Texts}
use intern_notifs.Dlq.Apply.{Services, is_open, is_pending, ids_of}
use intern_notifs.Dlq.Counts.{count, rows, open_count, pending_count}
use intern_notifs.Dlq.Attempts.{IsNew}
use intern_notifs.Dlq.Make.{
  PlanInput, selected, selection, insert_row, by_id, read_message, rows_of, selection_checked, gate,
  made_plan, plan_dlq,
}

insert_row-keep :
    (p : ItemRow → Bool) (id : String) (i : ItemRow) (items : List ItemRow)
    → rows id (keep p (insert_row i items)) ≡ rows id (keep p (i ∷ items))
insert_row-keep p id i [] = refl
insert_row-keep p id i (j ∷ rest) = ground (arith, insert_row-keep p id i rest)

by_id-keep :
    (p : ItemRow → Bool) (id : String) (items : List ItemRow)
    → rows id (keep p (by_id items)) ≡ rows id (keep p items)
by_id-keep p id [] = refl
by_id-keep p id (i ∷ rest) =
    ground (arith, insert_row-keep p id i (by_id rest), by_id-keep p id rest)

insert_row-rows :
    (id : String) (i : ItemRow) (items : List ItemRow)
    → rows id (insert_row i items) ≡ rows id (i ∷ items)
insert_row-rows id i [] = refl
insert_row-rows id i (j ∷ rest) = ground (arith, insert_row-rows id i rest)

by_id-rows : (id : String) (items : List ItemRow) → rows id (by_id items) ≡ rows id items
by_id-rows id [] = refl
by_id-rows id (i ∷ rest) = ground (arith, insert_row-rows id i (by_id rest), by_id-rows id rest)

-- How often a text stands among the values of a table.
abbrev values_count : String → List (String × String) → ℕ
values_count id table = count id (map (λ entry. entry.1) table)

abbrev IsOwnKey : List (String × String) → Type 0
IsOwnKey table = All (λ entry. entry.1 ≡ entry.0) table

if-IsOwnKey :
    (b : Bool) (xs ys : List (String × String))
    → (b ≡ true → IsOwnKey xs)
    → IsOwnKey ys
    → IsOwnKey (if b then xs else ys)
if-IsOwnKey true xs ys h k = h refl
if-IsOwnKey false xs ys h k = k

put-IsOwnKey :
    (table : List (String × String)) (k : String) → IsOwnKey table → IsOwnKey (put table k k)
unfolding put
put-IsOwnKey [] k h = (refl, tt)
put-IsOwnKey ((j, a) ∷ rest) k h =
    if-IsOwnKey (str_eq k j) ((j, k) ∷ rest) ((j, a) ∷ put rest k k) (λ e. ((eq_iff k j).0 e, h.1))
      (h.0, put-IsOwnKey rest k h.1)

-- A text that is in the table stands in it once, any other not at all.
abbrev CountsOnce : String → List (String × String) → Type 0
CountsOnce id table = values_count id table ≡ (if is_some (lookup table id) then 1 else 0)

put-count :
    (id k : String) (table : List (String × String))
    → IsOwnKey table
    → values_count id (put table k k)
      ≡ values_count id table
        + (if is_some (lookup table k) then 0 else if str_eq k id then 1 else 0)
unfolding put lookup
put-count id k [] h = ground arith
put-count id k ((j, a) ∷ rest) h = ground (arith, put-count id k rest h.1, eq_iff k j, h.0)

set_all-CountsOnce :
    (id : String) (table : List (String × String)) (xs : List String)
    → IsOwnKey table
    → CountsOnce id table
    → CountsOnce id (set_all (λ s. s) table xs)
unfolding set_all
set_all-CountsOnce id table [] own once = once
set_all-CountsOnce id table (x ∷ xs) own once =
    set_all-CountsOnce id (put table x x) xs (put-IsOwnKey table x own)
      (ground (arith, put-count id x table own, lookup-put table id x x, eq_iff id x, eq_iff x id))

distinct-count : (id : String) (xs : List String) → count id (distinct xs) ≤ 1
unfolding distinct unique_by lookup
distinct-count id xs = ground (arith, set_all-CountsOnce id [] xs tt refl)

module _ (texts : Texts) (services : Services) where
  -- The rows stand for the selection, and all are fresh.
  abbrev Fresh : List String → Result DlqError (List ItemRow) → Type 0
  Fresh ids (err thrown) = Unit
  Fresh ids (ok items) =
      (ids_of items ≡ ids)
      × (ids_of (keep is_open items) ≡ ids)
      × (ids_of (keep is_pending items) ≡ ids)

  rows_of-Fresh :
      (action : Operation) (name : DlqName) (visible : List (String × PeekedMessage))
      (ids : List String)
      → Fresh ids (rows_of texts services action name visible ids)
  unfolding rows_of
  rows_of-Fresh action name visible [] = (refl, refl, refl)
  rows_of-Fresh action name visible (id ∷ rest) =
      let P = Fresh (id ∷ rest) in
      let later = rows_of-Fresh action name visible rest in
      bind_splits P (ok_or (lookup visible id) selection_drift) _ (λ _. tt)
        (λ m _.
          bind_splits P (read_message texts services action name m) _ (λ _. tt)
            (λ parsed _.
              bind_splits P (rows_of texts services action name visible rest) _ (λ _. tt)
                (λ others e.
                  let fresh = subst (Fresh rest) e later in
                  (
                    ap (λ xs. id ∷ xs) fresh.0,
                    ap (λ xs. id ∷ xs) fresh.1,
                    ap (λ xs. id ∷ xs) fresh.2,
                  ))))

  Fresh-counts :
      (ids : List String) (items : List ItemRow)
      → ((id : String) → count id ids ≤ 1)
      → Fresh ids (ok items)
      → (id : String)
      → (rows id (by_id items) ≤ 1)
        × (open_count id (by_id items) ≡ rows id (by_id items))
        × (pending_count id (by_id items) ≡ rows id (by_id items))
  Fresh-counts ids items once fresh id =
      let all = by_id-rows id items ∙ ap (count id) fresh.0 in
      (
        omega (arith, all, once id),
        by_id-keep is_open id items ∙ (ap (count id) fresh.1 ∙ sym all),
        by_id-keep is_pending id items ∙ (ap (count id) fresh.2 ∙ sym all),
      )

  abbrev IsNewResult : Result DlqError Repair → Type 0
  IsNewResult (err thrown) = Unit
  IsNewResult (ok r) = IsNew r

  made_plan-IsNew :
      (input : PlanInput) (plan_id repair_token : String) (name : DlqName) (action : Operation)
      (items : List ItemRow)
      → Fresh (selection input.message_ids) (ok items)
      → IsNew (made_plan texts services input plan_id repair_token name action items)
  made_plan-IsNew input plan_id repair_token name action items fresh = (
    refl,
    refl,
    refl,
    refl,
    refl,
    Fresh-counts (selection input.message_ids) items
        (λ id. distinct-count id (selected input.message_ids)) fresh,
  )

  plan_dlq-IsNewResult :
      (input : PlanInput) (plan_id repair_token : String)
      → IsNewResult (plan_dlq texts services input plan_id repair_token)
  unfolding plan_dlq
  plan_dlq-IsNewResult input plan_id repair_token =
      let ids = selection input.message_ids in
      let visible = set_all (λ m. m.id) [] services.peeked in
      bind_splits IsNewResult (ok_or input.queue queue_not_allowed) _ (λ _. tt)
        (λ name _.
          bind_splits IsNewResult (ok_or input.action action_invalid) _ (λ _. tt)
            (λ action _.
              bind_splits IsNewResult (selection_checked texts services input) _ (λ _. tt)
                (λ sound _.
                  bind_splits IsNewResult (rows_of texts services action name visible ids) _
                    (λ _. tt)
                    (λ items read.
                      bind_splits IsNewResult (gate texts services action name items) _ (λ _. tt)
                        (λ allowed _.
                          made_plan-IsNew input plan_id repair_token name action items
                            (subst (Fresh ids) read (rows_of-Fresh action name visible ids)))))))

  pub plan_dlq-IsNew :
      (input : PlanInput) (plan_id repair_token : String) (r : Repair)
      → plan_dlq texts services input plan_id repair_token ≡ ok r
      → IsNew r
  plan_dlq-IsNew input plan_id repair_token r made =
      subst IsNewResult made (plan_dlq-IsNewResult input plan_id repair_token)
