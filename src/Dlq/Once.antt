-- ===== src/Dlq/Once.antt =====
-- What the sends and the disposals of one attempt make of the counts of each item.
use intern_notifs.Base.{
  ℕ, ◌+◌, ◌≤◌, ◌≡◌, refl, ◌∙◌, String, false, Option, List, [], ◌∷◌, map, take, drop, zero, suc,
  some, arith, is_some, if◌then◌else◌, Option_splits, Bool-cases, inl, inr,
}
use intern_notifs.Dlq.Plan.{ItemRow, AuditRow, Repair, DlqError, send_failed}
use intern_notifs.Dlq.Message.{Texts}
use intern_notifs.Dlq.Apply.{
  ApplyInput, Services, Work, ids_of, SendOutcome, not_taken, went_through, interrupted, is_open,
  mark_sent, mark_some, send_works, dispose, dispose_all,
}
use intern_notifs.Dlq.Counts.{
  count, keep-le, rows, open_count, pending_count, times_sent, work_count, is_in, count_in,
  count_positive, set_purged-rows, set_purged-open, set_purged-pending, all_replayed-rows,
  all_replayed-pending, all_replayed-open,
}

-- How often the item was disposed of, as the audit has it.
abbrev pub times_audited : String → List AuditRow → ℕ
times_audited id audit = count id (map (λ a. a.audited_id) audit)

abbrev pub IsSent : String → Repair → Type 0
IsSent id r =
    times_sent id r.sent + open_count id r.items ≡ rows id r.items + times_sent id r.unmarked

abbrev pub IsAudited : String → Repair → Type 0
IsAudited id r = times_audited id r.audit + pending_count id r.items ≡ rows id r.items

module _ (texts : Texts) (services : Services) where
  abbrev pub SendsSafely : String → Repair → Repair × Option DlqError → Type 0
  SendsSafely id r out =
      (rows id out.0.items ≡ rows id r.items)
      × IsSent id out.0
      × (out.0.audit ≡ r.audit)
      × (pending_count id out.0.items ≡ pending_count id r.items)
      × (out.0.plan ≡ r.plan)
      × (is_some out.1 ≡ false → open_count id out.0.items ≡ 0)

  mark_sent-IsSent :
      (id : String) (r : Repair) (w : Work) (rest : ℕ)
      → rows id r.items ≤ 1
      → IsSent id r
      → times_sent id r.sent + (count id w.ids + rest) ≡ rows id r.items + times_sent id r.unmarked
      → IsSent id (mark_sent texts services r w)
  mark_sent-IsSent id r w rest small sent left = elim (Bool-cases (is_in id w.ids)) [
    | inl e ↦ ground (
      arith,
      count_positive id w.ids e,
      keep-le id is_open r.items,
      all_replayed-rows services.now id w.ids r.items,
      all_replayed-open services.now id w.ids r.items,
    )
    | inr e ↦ ground (
      arith,
      count_in id w.ids e,
      all_replayed-rows services.now id w.ids r.items,
      all_replayed-open services.now id w.ids r.items,
    )
  ]

  cut_count :
      (id : String) (n : ℕ) (ids : List String)
      → count id (take n ids) + count id (drop n ids) ≡ count id ids
  cut_count id zero ids = omega arith
  cut_count id (suc n) [] = omega arith
  cut_count id (suc n) (k ∷ ids) = omega (arith, cut_count id n ids)

  mark_some-IsSent :
      (id : String) (r : Repair) (w : Work) (n rest : ℕ)
      → rows id r.items ≤ 1
      → IsSent id r
      → times_sent id r.sent + (count id w.ids + rest) ≡ rows id r.items + times_sent id r.unmarked
      → IsSent id (mark_some texts services r w n)
  mark_some-IsSent id r w n rest small sent left =
      let marked = take n w.ids in
      elim (Bool-cases (is_in id marked)) [
        | inl e ↦ ground (
          arith,
          cut_count id n w.ids,
          count_positive id marked e,
          keep-le id is_open r.items,
          all_replayed-rows services.now id marked r.items,
          all_replayed-open services.now id marked r.items,
        )
        | inr e ↦ ground (
          arith,
          cut_count id n w.ids,
          count_in id marked e,
          all_replayed-rows services.now id marked r.items,
          all_replayed-open services.now id marked r.items,
        )
      ]

  -- What comes of one send.
  send-SendsSafely :
      (id : String) (r : Repair) (w : Work) (rest : ℕ) (later : Repair × Option DlqError)
      (outcome : SendOutcome)
      → rows id r.items ≤ 1
      → IsSent id r
      → times_sent id r.sent + (count id w.ids + rest) ≡ rows id r.items + times_sent id r.unmarked
      → SendsSafely id r later
      → SendsSafely id r (elim outcome [
        | not_taken ↦ (r, some send_failed)
        | went_through ↦ later
        | interrupted n ↦ (mark_some texts services r w n, some send_failed)
      ])
  send-SendsSafely id r w rest later not_taken small sent left done =
      (refl, sent, refl, refl, refl, λ h. ground arith)
  send-SendsSafely id r w rest later went_through small sent left done = done
  send-SendsSafely id r w rest later (interrupted n) small sent left done = (
    all_replayed-rows services.now id (take n w.ids) r.items,
    mark_some-IsSent id r w n rest small sent left,
    refl,
    all_replayed-pending services.now id (take n w.ids) r.items,
    refl,
    (λ h. ground arith),
  )

  pub send_works-SendsSafely :
      (id : String) (r : Repair) (ws : List Work)
      → rows id r.items ≤ 1
      → IsSent id r
      → times_sent id r.sent + work_count id ws ≡ rows id r.items + times_sent id r.unmarked
      → SendsSafely id r (send_works texts services r ws)
  unfolding send_works
  send_works-SendsSafely id r [] small sent left =
      (refl, sent, refl, refl, refl, λ _. omega (arith, sent, left))
  send_works-SendsSafely id r (w ∷ rest) small sent left =
      let marked = mark_sent texts services r w in
      let same_rows = all_replayed-rows services.now id w.ids r.items in
      let later =
        send_works-SendsSafely id marked rest (omega (arith, same_rows))
          (mark_sent-IsSent id r w (work_count id rest) small sent left)
          (omega (arith, same_rows, left)) in
      let done : SendsSafely id r (send_works texts services marked rest) = (
        later.0 ∙ same_rows,
        later.1,
        later.2,
        later.3 ∙ all_replayed-pending services.now id w.ids r.items,
        later.4,
        later.5,
      ) in
      Option_splits (SendsSafely id r) w.refused _ _
        (λ e _. (refl, sent, refl, refl, refl, λ h. ground arith))
        (λ _.
          send-SendsSafely id r w (work_count id rest) (send_works texts services marked rest)
            (services.send w.message) small sent left done)

  module _ (input : ApplyInput) where
    pub dispose_all-audited :
        (id : String) (r : Repair) (purged : List ItemRow)
        → times_audited id (dispose_all texts services input r purged).audit
          ≡ count id (ids_of purged) + times_audited id r.audit
    unfolding dispose_all
    dispose_all-audited id r [] = omega arith
    dispose_all-audited id r (i ∷ rest) =
        omega (arith, dispose_all-audited id (dispose texts services input r i) rest)

    pub dispose_all-rows :
        (id : String) (r : Repair) (purged : List ItemRow)
        → rows id (dispose_all texts services input r purged).items ≡ rows id r.items
    unfolding dispose_all
    dispose_all-rows id r [] = refl
    dispose_all-rows id r (i ∷ rest) =
        dispose_all-rows id (dispose texts services input r i) rest
        ∙ set_purged-rows services.now id i.message_id r.items

    pub dispose_all-open :
        (id : String) (r : Repair) (purged : List ItemRow)
        → open_count id (dispose_all texts services input r purged).items ≡ open_count id r.items
    unfolding dispose_all
    dispose_all-open id r [] = refl
    dispose_all-open id r (i ∷ rest) =
        dispose_all-open id (dispose texts services input r i) rest
        ∙ set_purged-open services.now id i.message_id r.items

    pub dispose_all-pending :
        (id : String) (r : Repair) (purged : List ItemRow)
        → pending_count id (dispose_all texts services input r purged).items
          ≡ (if is_in id (ids_of purged) then 0 else pending_count id r.items)
    unfolding dispose_all
    dispose_all-pending id r [] = refl
    dispose_all-pending id r (i ∷ rest) = ground (
      arith,
      dispose_all-pending id (dispose texts services input r i) rest,
      set_purged-pending services.now id i.message_id r.items,
    )

    pub dispose_all-sent :
        (r : Repair) (purged : List ItemRow)
        → (dispose_all texts services input r purged).sent ≡ r.sent
    unfolding dispose_all
    dispose_all-sent r [] = refl
    dispose_all-sent r (i ∷ rest) = dispose_all-sent (dispose texts services input r i) rest

    pub dispose_all-unmarked :
        (r : Repair) (purged : List ItemRow)
        → (dispose_all texts services input r purged).unmarked ≡ r.unmarked
    unfolding dispose_all
    dispose_all-unmarked r [] = refl
    dispose_all-unmarked r (i ∷ rest) = dispose_all-unmarked (dispose texts services input r i) rest

    pub dispose_all-plan :
        (r : Repair) (purged : List ItemRow)
        → (dispose_all texts services input r purged).plan ≡ r.plan
    unfolding dispose_all
    dispose_all-plan r [] = refl
    dispose_all-plan r (i ∷ rest) = dispose_all-plan (dispose texts services input r i) rest

    pub dispose_all-IsAudited :
        (id : String) (r : Repair) (purged : List ItemRow)
        → rows id r.items ≤ 1
        → IsAudited id r
        → count id (ids_of purged) ≤ pending_count id r.items
        → IsAudited id (dispose_all texts services input r purged)
    dispose_all-IsAudited id r purged small audited few =
        elim (Bool-cases (is_in id (ids_of purged))) [
          | inl e ↦ ground (
            arith,
            count_positive id (ids_of purged) e,
            dispose_all-audited id r purged,
            dispose_all-rows id r purged,
            dispose_all-pending id r purged,
          )
          | inr e ↦ ground (
            arith,
            count_in id (ids_of purged) e,
            dispose_all-audited id r purged,
            dispose_all-rows id r purged,
            dispose_all-pending id r purged,
          )
        ]

    -- Where all that is pending was purged, nothing is pending.
    pub dispose_all-all :
        (id : String) (r : Repair) (purged : List ItemRow)
        → count id (ids_of purged) ≡ pending_count id r.items
        → pending_count id (dispose_all texts services input r purged).items ≡ 0
    dispose_all-all id r purged same = elim (Bool-cases (is_in id (ids_of purged))) [
      | inl e ↦ ground (arith, dispose_all-pending id r purged)
      | inr e ↦ ground (arith, count_in id (ids_of purged) e, dispose_all-pending id r purged)
    ]
